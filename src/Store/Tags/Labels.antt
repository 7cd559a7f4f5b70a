-- ===== src/Store/Tags/Labels.antt =====
-- A label is put on a path once, however often it is asked for, and taken off again.
use llmd.Prelude.{
  ℕ, ◌≡◌, ◌∙◌, inl, inr, Bool, true, false, ◌&&◌, Bytes, str_eq, str_eq_refl, [], ◌∷◌, ◌++◌, none,
  ok, err, err_not_found, arith, Bool-cases, if◌then◌else◌,
}
use llmd.Sql.{
  exists_where, update_where, count_where-positive, count_where-zero, exists_where-updated,
  exists_where-marked, exists_where-snoc, update-none,
}
use llmd.Validate
use llmd.Store.{Tag, Db, same_tag, insert_tag}
use llmd.Store.Tags.Rows.{deleted_label, active_label, active_label-deleted, none_left}
use llmd.Store.Tags.{TagOptions, tag, untag, is_tag, tag_is_active, delete_tag, restore_tag}

-- the path bears the label
unfoldable pub has_tag : Bytes → Bytes → Bytes → Db → Bool
unfolding exists_where
has_tag path source label db =
    exists_where (λ t. is_tag path source label t && tag_is_active t) db.tags

abbrev pub new_tag : Bytes → Bytes → TagOptions → Bytes → ℕ → Tag
new_tag path label opts id now = record {
  id = id;
  path = path;
  source = opts.source;
  tag = label;
  created_at = now;
  deleted_at = none;
}

-- the database in which the label's deleted row is active again
abbrev pub restored : Bytes → Bytes → Bytes → Db → Db
restored path source label db = record db {
  tags = update_where (deleted_label path source label) restore_tag db.tags;
}

inserted :
    (row : Tag) (db : Db)
    → (insert_tag row db).0 ≡ ok tt
    → insert_tag row db ≡ (ok tt, record db { tags = db.tags ++ row ∷ [] })
inserted row db h = elim (Bool-cases (exists_where (same_tag row) db.tags)) [
  | inl e ↦ cc
  | inr e ↦ rw e
]

module _ (path label : Bytes) (opts : TagOptions) {clean : Bytes}
    (valid : Validate.path path opts.max_path ≡ ok clean)
    (valid_label : Validate.tag label ≡ ok tt) where
  tag_lem :
      (id : Bytes) (now : ℕ) (db : Db)
      → tag path label opts id now db ≡ (
          if exists_where (deleted_label path opts.source label) db.tags
          then (ok tt, restored path opts.source label db)
          else if has_tag path opts.source label db
          then (ok tt, db)
          else insert_tag (new_tag path label opts id now) db)
  unfolding tag has_tag
  tag_lem id now db =
      rw (valid, valid_label)
        (elim (Bool-cases (exists_where (deleted_label path opts.source label) db.tags)) [
          | inl e ↦ rw (count_where-positive, e)
          | inr e ↦
              rw
                (
                  count_where-positive,
                  e,
                  update-none (deleted_label path opts.source label) restore_tag db.tags e,
                )
                (ground arith)
        ])

  first_is :
      (id : Bytes) (now : ℕ) (db : Db)
      → exists_where (deleted_label path opts.source label) db.tags ≡ false
      → has_tag path opts.source label db ≡ false
      → (tag path label opts id now db).0 ≡ ok tt
      → (insert_tag (new_tag path label opts id now) db).0 ≡ ok tt
  first_is id now db e h done = rw (tag_lem id now db, e, h) at done

  -- what a successful `tag` leaves behind
  borne :
      (id : Bytes) (now : ℕ) (db : Db)
      → (tag path label opts id now db).0 ≡ ok tt
      → (has_tag path opts.source label (tag path label opts id now db).1 ≡ true)
        × (exists_where
              (deleted_label path opts.source label)
              (tag path label opts id now db).1.tags
            ≡ false)
  unfolding has_tag
  borne id now db done =
      elim (Bool-cases (exists_where (deleted_label path opts.source label) db.tags)) [
        | inl e ↦
            rw (tag_lem id now db, e)
              (
                exists_where-marked (deleted_label path opts.source label)
                    (active_label path opts.source label) restore_tag db.tags (λ t h. ground arith)
                    e,
                exists_where-updated (deleted_label path opts.source label) restore_tag db.tags
                    (λ t h. ground arith),
              )
        | inr e ↦ elim (Bool-cases (has_tag path opts.source label db)) [
          | inl h ↦ rw (tag_lem id now db, e, h) (h, e)
          | inr h ↦
              rw
                (
                  tag_lem id now db,
                  e,
                  h,
                  inserted (new_tag path label opts id now) db (first_is id now db e h done),
                )
                (
                  rw exists_where-snoc (
                      ground (arith, str_eq_refl path, str_eq_refl opts.source, str_eq_refl label)),
                  rw (exists_where-snoc, e) (ground arith),
                )
        ]
      ]

  -- A label that was put on a path is there afterwards, and putting it there again, with whatever
  -- id and time, changes nothing.
  pub tag-idempotent :
      (id again : Bytes) (now later : ℕ) (db : Db)
      → (tag path label opts id now db).0 ≡ ok tt
      → (has_tag path opts.source label (tag path label opts id now db).1 ≡ true)
        × (tag path label opts again later (tag path label opts id now db).1
            ≡ (ok tt, (tag path label opts id now db).1))
  tag-idempotent id again now later db done = (
    (borne id now db done).0,
    tag_lem again later (tag path label opts id now db).1
        ∙ rw ((borne id now db done).0, (borne id now db done).1),
  )

  untag_lem :
      (now : ℕ) (db : Db)
      → untag path label opts now db ≡ (
          if has_tag path opts.source label db
          then (
            ok tt,
            record db {
              tags =
                  update_where
                    (λ t. is_tag path opts.source label t && tag_is_active t)
                    (delete_tag now)
                    db.tags;
            },
          )
          else (err err_not_found, db))
  unfolding untag has_tag
  untag_lem now db =
      rw (valid, valid_label, count_where-zero)
        (ground (
          arith,
          update-none (λ t. is_tag path opts.source label t && tag_is_active t) (delete_tag now)
              db.tags,
        ))

  -- Taking a label off fails exactly if the path does not bear it. The path does not bear it
  -- afterwards, and what labels other paths bear, or this path bears otherwise, does not change.
  pub untag-removes :
      (now : ℕ) (db : Db) (other other_source other_label : Bytes)
      → ((untag path label opts now db).0
          ≡ (if has_tag path opts.source label db then ok tt else err err_not_found))
        × (has_tag other other_source other_label (untag path label opts now db).1 ≡ (
            if str_eq path other && (str_eq opts.source other_source && str_eq label other_label)
            then false
            else has_tag other other_source other_label db))
  untag-removes now db other other_source other_label = (
    rw (untag_lem now db) (ground arith),
    unfold has_tag in
        rw (untag_lem now db) (
          ground (
            arith,
            active_label-deleted path opts.source label other other_source other_label now db.tags,
            none_left path opts.source label other other_source other_label db.tags,
          )),
  )
