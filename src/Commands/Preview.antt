-- ===== src/Commands/Preview.antt =====
-- A dry run of the vacuum command beside the run itself.
use llmd.Prelude.{
  ℕ, suc, ◌+◌, ◌≤◌, ◌≡◌, refl, ap, Bool, true, false, ◌&&◌, List, [], ◌∷◌, Option, Bytes, length,
  Result, ok, err, arith, map,
}
use llmd.Sql.{select, count_where, order_by, insert_by, select-select}
use llmd.Store.{Document, Db}
use llmd.Store.Read.{in_prefix, shown, by_path, is_latest}
use llmd.Store.Read
use llmd.Store.Read.Listed.{listed, joined_prefix}
use llmd.Store.Vacuum
use llmd.Store.Vacuum.{cutoff, expired}
use llmd.Store.Vacuum.Kept.{old_document}
use llmd.Service.{Service, Mirror, State}
use llmd.Service.Read.{normalize_prefix, list}
use llmd.Service.Write
use llmd.Commands.Vacuum.{Options, Vacuumed, would_delete, run}

module _ {A : Type 0} where
  select-insert_by :
      (p : A → Bool) (le : A → A → Bool) (x : A) (xs : List A)
      → length (select p (insert_by le x xs)) ≡ length (select p (x ∷ xs))
  unfolding select insert_by
  select-insert_by p le x [] = refl
  select-insert_by p le x (y ∷ xs) = ground (arith, select-insert_by p le x xs)

  -- A sort keeps how many rows pass a test.
  select-order_by :
      (p : A → Bool) (le : A → A → Bool) (xs : List A)
      → length (select p (order_by le xs)) ≡ length (select p xs)
  unfolding order_by select
  select-order_by p le [] = refl
  select-order_by p le (x ∷ xs) =
      ground (arith, select-insert_by p le x (order_by le xs), select-order_by p le xs)

  selected_at_most :
      (p q : A → Bool) (xs : List A)
      → ((x : A) → p x ≡ true → q x ≡ true)
      → length (select p xs) ≤ count_where q xs
  unfolding select count_where
  selected_at_most p q [] h = omega arith
  selected_at_most p q (x ∷ xs) h = ground (arith, h x, selected_at_most p q xs h)

condemned :
    (pre : Bytes) (limit : Option ℕ) (docs : List Document) (d : Document)
    → ((is_latest (listed pre false true) docs d && shown false true d)
        && expired limit d.deleted_at)
      ≡ true
    → old_document limit pre d ≡ true
condemned pre limit docs d h =
    let inside = joined_prefix pre false true docs d (ground arith) in ground arith

-- What a listing of deleted rows shows is removed by a vacuum.
listed_at_most :
    (pre : Bytes) (limit : Option ℕ) (db : Db)
    → length (select (λ d. expired limit d.deleted_at) (Read.list db pre false true))
      ≤ count_where (old_document limit pre) db.documents
unfolding Read.list
listed_at_most pre limit db =
    rw
      (
        select-order_by (λ d. expired limit d.deleted_at) by_path
            (select (λ d. is_latest (listed pre false true) db.documents d && shown false true d)
              db.documents),
        select-select (λ d. expired limit d.deleted_at)
            (λ d. is_latest (listed pre false true) db.documents d && shown false true d)
            db.documents,
      )
      (selected_at_most _ _ db.documents (condemned pre limit db.documents))

-- what a dry run may say of the run: the same error, or a count of the named paths that is not higher
abbrev pub IsPreview : Result Vacuumed → Result Vacuumed → Type 0
IsPreview (ok dry) (ok real) = (dry.deleted ≡ length dry.paths) × (dry.deleted ≤ real.deleted)
IsPreview (err e) (err e') = e ≡ e'
IsPreview _ _ = true ≡ false

first_at_most : (n a b c d e : ℕ) → n ≤ a → n ≤ a + b + c + d + e
first_at_most n a b c d e h = omega arith

length-paths : (docs : List Document) → length docs ≡ length (map (λ d. d.path) docs)
length-paths [] = refl
length-paths (d ∷ docs) = ap suc (length-paths docs)

abbrev pub dry : Bool → Options → Options
dry dry_run opts = record opts { dry_run = dry_run }

module _ {Files : Type 0} (s : Service) (fs : Mirror Files) (opts : Options) (now : ℕ)
    (st : State Files) where
  abbrev Previews : Type 0
  unfolding run list Write.vacuum
  Previews =
      ((run s fs (dry true opts) now st).1 ≡ st)
      × IsPreview (run s fs (dry true opts) now st).0 (run s fs (dry false opts) now st).0

  by_prefix : (pre : Result Bytes) → normalize_prefix opts.pre ≡ pre → Previews
  unfolding run list Write.vacuum Vacuum.vacuum would_delete
  by_prefix (err e) h = rw h (refl, refl)
  by_prefix (ok pre) h = rw h (
    refl,
    (
      length-paths _,
      first_at_most _ _ _ _ _ _ (listed_at_most pre (cutoff now opts.older_than) st.db),
    ),
  )

  -- A dry run changes nothing. It fails with the error of the run, or it counts the paths that it
  -- names, and these are at most as many as the run then removes rows.
  pub run-IsPreview :
      ((run s fs (dry true opts) now st).1 ≡ st)
      × IsPreview (run s fs (dry true opts) now st).0 (run s fs (dry false opts) now st).0
  unfolding run list Write.vacuum
  run-IsPreview = by_prefix (normalize_prefix opts.pre) refl
