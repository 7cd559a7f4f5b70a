-- ===== src/Store/Move/Copies.antt =====
-- `copy` adds one row, with the content that is read at the source.
use llmd.Prelude.{
  ℕ, suc, ◌≡◌, ◌≢◌, refl, inl, inr, Bool, false, [], ◌∷◌, ◌++◌, Option, none, some, Bytes, codes,
  str_eq, str_eq_iff, str_eq_refl, ok, err, err_already_exists, constraint, arith, Bool-cases,
  if◌then◌else◌,
}
use llmd.Sql.{exists_where, count_where-positive, select-snoc, select-none}
use llmd.Validate
use llmd.Store.{Document, Db, same_version, or_not_found}
use llmd.Store.Read.{at_path, latest, history}
use llmd.Store.Move.{copy, active_versions, source_row}

-- the new row
abbrev pub copied : Document → Bytes → Bytes → Bytes → Bytes → ℕ → ℕ → Document
copied source from to copier key now id = record {
  id = id;
  key = key;
  path = to;
  content = source.content;
  version = 1;
  author = copier;
  message = codes "Copied from " ++ from;
  created_at = now;
  deleted_at = none;
}

abbrev pub with_row : Document → Db → Db
with_row row db = record db { documents = db.documents ++ row ∷ []; next_id = suc db.next_id }

source_row-latest :
    (db : Db) (from : Bytes) (d : Document)
    → latest db from false ≡ ok d
    → source_row from db ≡ some d
unfolding latest
source_row-latest db from d h = is_some _ d h
  where
    is_some : (o : Option Document) (d : Document) → or_not_found o ≡ ok d → o ≡ some d
    is_some none d h = cc
    is_some (some a) d h = cc

module _ (p q copier key : Bytes) (max_path now : ℕ) (db : Db) {from to : Bytes} (d : Document)
    (valid_from : Validate.path p max_path ≡ ok from) (valid_to : Validate.path q max_path ≡ ok to)
    (source : latest db from false ≡ ok d) where
  abbrev pub new_row : Document
  new_row = copied d from to copier key now db.next_id

  -- With valid paths, a copy of a document that can be read fails and changes nothing if the destination can be read,
  -- or if it has a version 1 all the same, a deleted one. Otherwise it adds a version 1 at the
  -- destination with the content of the source's latest version.
  pub copy-atomic : copy p q copier max_path key now db ≡ (
      if exists_where (at_path to false) db.documents
      then (err err_already_exists, db)
      else if exists_where (same_version new_row) db.documents
      then (err constraint, db)
      else (ok tt, with_row new_row db))
  unfolding copy active_versions
  copy-atomic =
      rw (valid_from, valid_to, count_where-positive)
        (elim (Bool-cases (exists_where (at_path to false) db.documents)) [
          | inl e ↦ rw e refl
          | inr e ↦
              rw (e, source_row-latest db from d source)
                (elim (Bool-cases (exists_where (same_version new_row) db.documents)) [
                  | inl k ↦ rw k refl
                  | inr k ↦ rw k refl
                ])
        ])

  -- After a copy that succeeded the new row is what is read at the destination, and every other
  -- path has the history that it had.
  pub copy-latest :
      (other : Bytes) (limit : ℕ) (inc : Bool)
      → exists_where (at_path to false) db.documents ≡ false
      → exists_where (same_version new_row) db.documents ≡ false
      → other ≢ to
      → (latest (copy p q copier max_path key now db).1 to false ≡ ok new_row)
        × (history (copy p q copier max_path key now db).1 other limit inc
            ≡ history db other limit inc)
  copy-latest other limit inc unused free apart = (
    unfold latest in
        rw (copy-atomic, unused, free)
          (rw (select-snoc, str_eq_refl to, select-none (at_path to false) db.documents unused)
            refl),
    unfold history in rw (copy-atomic, unused, free) (rw (select-snoc, elsewhere) refl),
  )
    where
      elsewhere : str_eq to other ≡ false
      elsewhere = ground (arith, str_eq_iff to other)
