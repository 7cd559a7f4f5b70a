-- ===== src/Service/Read.antt =====
-- document/read.go: queries by path or key.
use llmd.Prelude.{
  ℕ, Bool, true, false, List, [], ◌∷◌, Bytes, if◌then◌else◌, Result, ok, err, ◌>>=◌, is_empty,
  length, ◌==◌,
}
use llmd.Path.{normalise}
use llmd.Glob.{glob_match}
use llmd.Store.{Document, Db}
use llmd.Store.Read
use llmd.Store.Read.{DocumentMeta}

unfoldable pub normalize_prefix : Bytes → Result Bytes
normalize_prefix pre = if is_empty pre then ok [] else normalise pre

unfoldable pub latest : Db → Bytes → Bool → Result Document
latest db path include_deleted = do path ← normalise path; Read.latest db path include_deleted

unfoldable pub version : Db → Bytes → ℕ → Result Document
version db path ver = do path ← normalise path; Read.version db path ver

-- Path first, then key. The flag says whether it was a key.
abbrev pub choose : Result Document → Result Document → Result (Document × Bool)
choose (ok doc) by_key = ok (doc, false)
choose (err e) (ok doc) = ok (doc, true)
choose (err e) (err _) = err e

abbrev pub not_a_key : Result Document → Result (Document × Bool)
not_a_key r = r >>= λ doc. ok (doc, false)

unfoldable pub resolve : Db → Bytes → Bool → Result (Document × Bool)
resolve db value include_deleted =
    if length value == 8
    then choose (latest db value include_deleted) (Read.by_key db value)
    else not_a_key (latest db value include_deleted)

unfoldable pub list : Db → Bytes → Bool → Bool → Result (List Document)
list db pre include_deleted deleted_only = do
  pre ← normalize_prefix pre
  ok (Read.list db pre include_deleted deleted_only)

unfoldable pub history : Db → Bytes → ℕ → Bool → Result (List Document)
history db path limit include_deleted = do
  path ← normalise path
  ok (Read.history db path limit include_deleted)

unfoldable pub exists : Db → Bytes → Result Bool
exists db path = do path ← normalise path; ok (Read.exists db path)

unfoldable pub count : Db → Bytes → Result ℕ
count db pre = do pre ← normalize_prefix pre; ok (Read.count db pre)

unfoldable pub meta : Db → Bytes → Result DocumentMeta
meta db path = do path ← normalise path; Read.meta db path

-- The paths that match; a bad pattern is found at the first path.
abbrev pub matching : (Bytes → Result Bool) → List Bytes → Result (List Bytes)
matching matches [] = ok []
matching matches (p ∷ ps) = do
  b ← matches p
  rest ← matching matches ps
  ok (if b then p ∷ rest else rest)

unfoldable pub glob : Db → Bytes → Result (List Bytes)
unfolding glob_match
glob db pattern =
    let all = Read.list_paths db [] in
    if is_empty pattern then ok all else matching (glob_match pattern) all
