-- ===== src/Store/Write/Versions.antt =====
-- `write` adds a version above all others of its path, and touches nothing else.
use llmd.Prelude.{
  ℕ, suc, ◌+◌, ◌≤◌, ◌<◌, ◌≡◌, ◌≢◌, refl, Bool, true, false, ◌&&◌, List, [], ◌∷◌, ◌++◌, Bytes,
  str_eq, str_eq_iff, str_eq→eq, str_eq_refl, str_eq_sym, ok, All, Option, none, some, ◌==◌,
  if◌then◌else◌, arith,
}
use llmd.Sql.{
  select, exists_where, max_of-bound, order_by-snoc, All-where, All-map, All-selected, select-snoc,
  select-nil,
}
use llmd.Validate
use llmd.Store.{Document, Db, same_version, or_not_found}
use llmd.Store.Read.{newer, at_path, latest, history, version}
use llmd.Store.Write.{WriteOptions, max_version, new_version, write}

-- The rows of a path have versions up to `max_version`.
pub max_version-bound :
    (path : Bytes) (db : Db)
    → All (λ d. str_eq d.path path ≡ true → d.version ≤ max_version path db) db.documents
unfolding max_version
max_version-bound path db = All-where _ _ db.documents (max_of-bound _ _ _ (omega arith))

-- A version above them violates no UNIQUE clause.
fresh_version :
    (d : Document) (docs : List Document)
    → All (λ r. str_eq r.path d.path ≡ true → r.version < d.version) docs
    → exists_where (same_version d) docs ≡ false
unfolding exists_where
fresh_version d [] h = refl
fresh_version d (r ∷ docs) h =
    ground (arith, str_eq_sym d.path r.path, h.0, fresh_version d docs h.1)

found_row : (o : Option Document) {d : Document} → or_not_found o ≡ ok d → o ≡ some d
found_row none h = cc
found_row (some a) h = cc

-- the row that `write` adds at a path
abbrev pub written : Bytes → Bytes → WriteOptions → Bytes → ℕ → Db → Document
written path text opts key now db =
    new_version path text (max_version path db + 1) opts key now db.next_id

module _ (p text : Bytes) (opts : WriteOptions) (key : Bytes) (now : ℕ) (db : Db) {path : Bytes}
    (valid : Validate.path p opts.max_path ≡ ok path)
    (fits : Validate.content text opts.max_content ≡ ok tt) where
  fresh : exists_where (same_version (written path text opts key now db)) db.documents ≡ false
  fresh =
      fresh_version (written path text opts key now db) db.documents
        (All-map _ _ db.documents (λ d h e. omega (arith, h e)) (max_version-bound path db))

  -- With valid arguments the transaction commits: the row cannot violate UNIQUE(path, version).
  pub write_lem : write p text opts key now db ≡ (
    ok tt,
    record db {
      documents = db.documents ++ written path text opts key now db ∷ [];
      next_id = suc db.next_id;
    },
  )
  unfolding write
  write_lem = rw (valid, fits, fresh)

  -- The selections of a path's rows, with the new row.
  rows_at :
      (inc : Bool)
      → select (at_path path inc) (db.documents ++ written path text opts key now db ∷ [])
        ≡ select (at_path path inc) db.documents ++ written path text opts key now db ∷ []
  rows_at inc = rw (select-snoc, str_eq_refl path) (ground arith)

  rows_elsewhere :
      (other : Bytes) (inc : Bool)
      → other ≢ path
      → select (at_path other inc) (db.documents ++ written path text opts key now db ∷ [])
        ≡ select (at_path other inc) db.documents
  rows_elsewhere other inc h = rw select-snoc (ground (arith, str_eq_iff path other))

  below_new :
      (inc : Bool)
      → All
          (λ d. newer d (written path text opts key now db) ≡ false)
          (select (at_path path inc) db.documents)
  below_new inc =
      All-selected _ _ db.documents
        (All-map _ _ db.documents (λ d h e. ground (arith, h)) (max_version-bound path db))

  history_after :
      (other : Bytes) (inc same : Bool)
      → str_eq path other ≡ same
      → history (write p text opts key now db).1 other 0 inc ≡ (
          if same
          then written path text opts key now db ∷ history db other 0 inc
          else history db other 0 inc)
  unfolding history
  history_after other inc true e =
      rw (← str_eq→eq path other e, write_lem, rows_at inc)
        (order_by-snoc newer _ _ (below_new inc))
  history_after other inc false e =
      rw write_lem (rw (rows_elsewhere other inc (ground (arith, str_eq_iff path other))))

  -- A valid write succeeds and puts its version, one above the highest so far, in front of the
  -- path's history, whether or not deleted versions are shown; the histories of the other paths,
  -- the tags and the links stay as they are.
  pub write-history :
      (other : Bytes) (inc : Bool)
      → ((write p text opts key now db).0 ≡ ok tt)
        × (history (write p text opts key now db).1 other 0 inc ≡ (
            if str_eq path other
            then written path text opts key now db ∷ history db other 0 inc
            else history db other 0 inc))
        × ((write p text opts key now db).1.tags ≡ db.tags)
        × ((write p text opts key now db).1.links ≡ db.links)
  write-history other inc =
      (rw write_lem, history_after other inc (str_eq path other) refl, rw write_lem, rw write_lem)

  no_new_version :
      (other : Bytes) (v : ℕ)
      → (str_eq path other && max_version path db + 1 == v) ≡ true
      → All (λ d. (str_eq d.path other && d.version == v) ≡ false) db.documents
  no_new_version other v e =
      All-map _ _ db.documents (λ d h. ground (arith, h, str_eq_iff path other))
        (max_version-bound path db)

  version_after :
      (other : Bytes) (v : ℕ) (same : Bool)
      → (str_eq path other && max_version path db + 1 == v) ≡ same
      → version (write p text opts key now db).1 other v
        ≡ (if same then ok (written path text opts key now db) else version db other v)
  unfolding version
  version_after other v true e =
      rw write_lem (rw (select-snoc, e, select-nil _ db.documents (no_new_version other v e)))
  version_after other v false e = rw write_lem (rw (select-snoc, e))

  -- After a valid write the new version is the latest at its path; it is found by its number, and
  -- every other version of this or another path is read as it was before.
  pub write-version :
      (other : Bytes) (v : ℕ)
      → (latest (write p text opts key now db).1 path false
          ≡ ok (written path text opts key now db))
        × (version (write p text opts key now db).1 other v ≡ (
            if str_eq path other && max_version path db + 1 == v
            then ok (written path text opts key now db)
            else version db other v))
  write-version other v = (
    unfold latest in
        rw write_lem (
          rw (rows_at false) (
            rw (
              order_by-snoc newer (select (at_path path false) db.documents)
                (written path text opts key now db) (below_new false)))),
    version_after other v _ refl,
  )
