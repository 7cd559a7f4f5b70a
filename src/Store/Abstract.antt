-- ===== src/Store/Abstract.antt =====
-- What internal/store promises about documents, with the rows, their ids, keys and times forgotten:
-- a path has a list of versions, the newest first.
pub mod View
pub mod Refines
use llmd.Prelude.{
  ℕ, ◌+◌, max, Bool, true, false, not, ◌&&◌, List, [], ◌∷◌, map, Bytes, str_eq, ltb, ◌==◌,
  if◌then◌else◌, Result, ok, err, err_not_found, err_version,
}
use llmd.Sql.{exists_where}
use llmd.Validate
use llmd.Store.{Exec}
use llmd.Store.Write

pub record Version : Type 0 where
  pub number : ℕ
  pub text : Bytes
  pub author : Bytes
  pub message : Bytes
  pub gone : Bool

abbrev pub Documents : Type 0
Documents = Bytes → List Version

unfoldable pub highest : List Version → ℕ
highest [] = 0
highest (v ∷ vs) = max v.number (highest vs)

-- a function, changed at one path
abbrev pub update : Documents → Bytes → List Version → Documents
update docs path vs p = if str_eq path p then vs else docs p

-- The versions that pass the test become deleted ones, or active ones.
abbrev pub mark : (Version → Bool) → Bool → List Version → List Version
mark p gone = map (λ v. if p v then record v { gone = gone } else v)

-- If a version passes the test, all that pass are marked; otherwise the call fails.
abbrev pub mark_some : (Version → Bool) → Bool → Bytes → Documents → Result (Unit {0}) × Documents
mark_some p gone path docs =
    if exists_where p (docs path)
    then (ok tt, update docs path (mark p gone (docs path)))
    else (err err_not_found, docs)

pub data Call : Type 0 where
  write : (path content author message key : Bytes) (now : ℕ) → Call
  delete : (path : Bytes) (now : ℕ) → Call
  delete_version : (path : Bytes) (version now : ℕ) → Call
  restore : (path : Bytes) → Call

abbrev pub is_gone : Version → Bool
is_gone v = v.gone

-- A call on a path that was accepted.
abbrev pub at :
    (Bytes → Documents → Result (Unit {0}) × Documents)
    → Result Bytes
    → Documents
    → Result (Unit {0}) × Documents
at f (ok path) docs = f path docs
at f (err e) docs = (err e, docs)

abbrev pub add_version :
    Result (Unit {0}) → (ℕ → Version) → Bytes → Documents → Result (Unit {0}) × Documents
add_version (ok _) row path docs =
    (ok tt, update docs path (row (highest (docs path) + 1) ∷ docs path))
add_version (err e) row path docs = (err e, docs)

abbrev pub first_version : Bytes → Bytes → Bytes → ℕ → Version
first_version text author message n = record {
  number = n;
  text = text;
  author = author;
  message = message;
  gone = false;
}

module _ (max_path max_content : ℕ) where
  unfoldable pub promise : Call → Documents → Result (Unit {0}) × Documents
  unfolding highest
  promise (write p text author message key now) =
      at (add_version (Validate.content text max_content) (first_version text author message))
        (Validate.path p max_path)
  promise (delete p now) = at (mark_some (λ v. not v.gone) true) (Validate.path p max_path)
  promise (delete_version p n now) =
      at
        (λ path docs.
          if ltb n 1
          then (err err_version, docs)
          else mark_some (λ v. v.number == n && not v.gone) true path docs)
        (Validate.path p max_path)
  promise (restore p) = at (mark_some is_gone false) (Validate.path p max_path)

  unfoldable pub perform : Call → Exec (Unit {0})
  perform (write p text author message key now) =
      Write.write p text
        (record {
          author = author;
          message = message;
          max_path = max_path;
          max_content = max_content;
        })
        key now
  perform (delete p now) = Write.delete p max_path now
  perform (delete_version p n now) = Write.delete_version p n max_path now
  perform (restore p) = Write.restore p max_path

-- The results of a sequence of calls, and the state after it.
unfoldable pub run :
    {State : Type 0}
    → (Call → State → Result (Unit {0}) × State)
    → List Call
    → State
    → List (Result (Unit {0})) × State
run f [] st = ([], st)
run f (c ∷ cs) st = let (r, st') = f c st in let (rs, st'') = run f cs st' in (r ∷ rs, st'')
