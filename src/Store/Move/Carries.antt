-- ===== src/Store/Move/Carries.antt =====
-- `move` is all or nothing, and carries a document's whole history, tags and links along.
use llmd.Prelude.{
  ℕ, ◌≡◌, ◌≢◌, refl, sym, ap, ◌∙◌, inl, inr, Bool, false, not, List, [], ◌∷◌, map, Option, none,
  some, Error, Bytes, str_eq, str_eq_iff, str_eq_refl, str_eq_ne, Result, ok, err, err_not_found,
  err_already_exists, constraint, ltb, if◌then◌else◌, arith, Bool-cases, All,
}
use llmd.Sql.{
  select, exists_where, update_where, has_duplicate, count_where-zero, select-nil, order_by-map,
  select-update_ne,
}
use llmd.Validate
use llmd.Store.{Document, Tag, Link, Db, same_version, same_tag, same_link}
use llmd.Store.Read.{newer, at_path, history}
use llmd.Store.Move.{move, active_versions}

abbrev pub repath : Bytes → Document → Document
repath dst d = record d { path = dst }

abbrev pub rows_of : Bytes → Document → Bool
rows_of path d = str_eq d.path path

abbrev pub moved_tags : Bytes → Bytes → List Tag → List Tag
moved_tags src dst = update_where (λ t. str_eq t.path src) (λ t. record t { path = dst })

abbrev pub moved_from : Bytes → Bytes → List Link → List Link
moved_from src dst = update_where (λ l. str_eq l.from_path src) (λ l. record l { from_path = dst })

abbrev pub moved_links : Bytes → Bytes → List Link → List Link
moved_links src dst links =
    update_where (λ l. str_eq l.to_path src) (λ l. record l { to_path = dst })
      (moved_from src dst links)

-- the database after a successful `move`
abbrev pub moved : Bytes → Bytes → Db → Db
moved src dst db = record db {
  documents = update_where (rows_of src) (repath dst) db.documents;
  tags = moved_tags src dst db.tags;
  links = moved_links src dst db.links;
}

-- what makes `move` fail, in the order of its statements
abbrev pub move_error : Bytes → Bytes → Db → Option Error
move_error src dst db =
    if ltb 0 (active_versions dst db)
    then some err_already_exists
    else if has_duplicate same_version (moved src dst db).documents
    then some constraint
    else if not (exists_where (rows_of src) db.documents)
    then some err_not_found
    else if has_duplicate same_tag (moved src dst db).tags
    then some constraint
    else if has_duplicate same_link (moved_from src dst db.links)
    then some constraint
    else if has_duplicate same_link (moved src dst db).links
    then some constraint
    else none

abbrev pub outcome : Option Error → Db → Db → Result (Unit {0}) × Db
outcome none after before = (ok tt, after)
outcome (some e) after before = (err e, before)

module _ (p q : Bytes) (max_path : ℕ) (db : Db) {src dst : Bytes}
    (valid_src : Validate.path p max_path ≡ ok src)
    (valid_dst : Validate.path q max_path ≡ ok dst) where
  -- With valid paths, a move either fails and changes nothing, or changes the path of every version,
  -- tag and link end of the source. It fails exactly if the destination has an active version, the
  -- source has no version at all, or a UNIQUE clause would be violated.
  pub move-atomic : move p q max_path db ≡ outcome (move_error src dst db) (moved src dst db) db
  unfolding move
  move-atomic =
      rw (valid_src, valid_dst)
        (elim (Bool-cases (ltb 0 (active_versions dst db))) [
          | inl e ↦ rw e
          | inr e ↦
              rw e (elim (Bool-cases (has_duplicate same_version (moved src dst db).documents)) [
                | inl e ↦ rw e
                | inr e ↦
                    rw (e, count_where-zero)
                      (elim (Bool-cases (exists_where (rows_of src) db.documents)) [
                        | inr e ↦ rw e
                        | inl e ↦
                            rw e
                              (elim (Bool-cases (has_duplicate same_tag (moved src dst db).tags)) [
                                | inl e ↦ rw e
                                | inr e ↦
                                    rw e
                                      (elim (Bool-cases
                                        (has_duplicate same_link (moved_from src dst db.links))) [
                                          | inl e ↦ rw e
                                          | inr e ↦
                                              rw e
                                                (elim (Bool-cases (
                                                  has_duplicate same_link
                                                    (moved src dst db).links)) [
                                                      | inl e ↦ rw e
                                                      | inr e ↦ rw e
                                                    ])
                                        ])
                              ])
                      ])
              ])
        ])

ground_ne : (s t : Bytes) → s ≢ t → str_eq s t ≡ false
ground_ne s t h = ground (arith, str_eq_iff s t)

-- no row is left at the source
no_source :
    (src dst : Bytes)
    → src ≢ dst
    → (inc : Bool) (docs : List Document)
    → All (λ d. at_path src inc d ≡ false) (update_where (rows_of src) (repath dst) docs)
unfolding update_where
no_source src dst apart inc [] = tt
no_source src dst apart inc (d ∷ docs) =
    (ground (arith, str_eq_iff dst src), no_source src dst apart inc docs)

-- The rows at an unused destination are the source's, moved.
rows_moved :
    (src dst : Bytes) (inc : Bool) (docs : List Document)
    → exists_where (rows_of dst) docs ≡ false
    → select (at_path dst inc) (update_where (rows_of src) (repath dst) docs)
      ≡ map (repath dst) (select (at_path src inc) docs)
unfolding select exists_where update_where
rows_moved src dst inc [] h = refl
rows_moved src dst inc (d ∷ docs) h = ground (arith, str_eq_refl dst, rows_moved src dst inc docs)

module _ (src dst : Bytes) (db : Db) (apart : src ≢ dst)
    (unused : exists_where (rows_of dst) db.documents ≡ false) where
  rows_at_src : (inc : Bool) → select (at_path src inc) (moved src dst db).documents ≡ []
  rows_at_src inc =
      select-nil (at_path src inc) (moved src dst db).documents
        (no_source src dst apart inc db.documents)

  -- the histories of the destination, the source and a third path
  moved_histories :
      (other : Bytes) (limit : ℕ) (inc : Bool)
      → other ≢ src
      → other ≢ dst
      → (history (moved src dst db) dst 0 inc ≡ map (repath dst) (history db src 0 inc))
        × (history (moved src dst db) src 0 inc ≡ [])
        × (history (moved src dst db) other limit inc ≡ history db other limit inc)
  moved_histories other limit inc not_src not_dst =
      unfold history in
      (
        rw (rows_moved src dst inc db.documents unused) (
            order_by-map newer newer (repath dst) (select (at_path src inc) db.documents)
              (λ x y. refl)),
        rw (rows_at_src inc),
        rw (
            select-update_ne (at_path other inc) (rows_of src) (repath dst) db.documents
              (λ x h. rw (str_eq_ne x.path src other (λ e. not_src (sym e)) h))
              (λ x h. rw (ground_ne dst other (λ e. not_dst (sym e))))),
      )

outcome_ok :
    (o : Option Error) (after before : Db)
    → (outcome o after before).0 ≡ ok tt
    → (outcome o after before).1 ≡ after
outcome_ok none after before h = refl
outcome_ok (some e) after before h = cc

-- If a move succeeds and its destination had no version, not even a deleted one, then the history
-- of the destination is the source's with the path changed, whether or not deleted versions are
-- shown, the source has none, and every third path keeps its own.
pub move-history :
    (p q : Bytes) (max_path : ℕ) (db : Db) {src dst : Bytes} (other : Bytes) (limit : ℕ)
    (inc : Bool)
    → Validate.path p max_path ≡ ok src
    → Validate.path q max_path ≡ ok dst
    → (move p q max_path db).0 ≡ ok tt
    → src ≢ dst
    → exists_where (rows_of dst) db.documents ≡ false
    → other ≢ src
    → other ≢ dst
    → (history (move p q max_path db).1 dst 0 inc ≡ map (repath dst) (history db src 0 inc))
      × (history (move p q max_path db).1 src 0 inc ≡ [])
      × (history (move p q max_path db).1 other limit inc ≡ history db other limit inc)
move-history p q max_path db {src} {dst} other limit inc valid_src valid_dst done apart unused
      not_src not_dst =
    rw after (moved_histories src dst db apart unused other limit inc not_src not_dst)
  where
    same : move p q max_path db ≡ outcome (move_error src dst db) (moved src dst db) db
    same = move-atomic p q max_path db valid_src valid_dst

    after : (move p q max_path db).1 ≡ moved src dst db
    after =
        rw same (
          outcome_ok (move_error src dst db) (moved src dst db) db
            (ap (λ r. r.0) (sym same) ∙ done))
