-- ===== src/Store/Links/Relations.antt =====
-- A relation between two paths is one row, however often it is asked for.
use llmd.Prelude.{
  ℕ, ◌≡◌, refl, ap, inl, inr, Bool, false, not, ◌&&◌, Bytes, str_eq_refl, List, [], ◌∷◌, ◌++◌,
  Option, none, some, first, ok, arith, Bool-cases, Option-cases, if◌then◌else◌,
}
use llmd.Sql.{
  select, exists_where, update_where, count_where-positive, exists_where-updated, exists_where-snoc,
  update-none, select-snoc,
}
use llmd.Validate
use llmd.Store.{Link, Db, same_link, or_not_found, lift, pure, ◌>>=◌}
use llmd.Store.Write.{link_is_active, restore_link}
use llmd.Store.Links.{LinkOptions, link, is_link, active_link, new_link, existing_or_new}

abbrev pub deleted_relation : Bytes → Bytes → Bytes → LinkOptions → Link → Bool
deleted_relation from to tag opts l = is_link from to tag opts l && not (link_is_active l)

-- the database in which the relation's deleted row is active again
abbrev pub restored : Bytes → Bytes → Bytes → LinkOptions → Db → Db
restored from to tag opts db = record db {
  links = update_where (deleted_relation from to tag opts) restore_link db.links;
}

-- the id of the relation's active row
abbrev id_of : Option Link → Option Bytes
id_of none = none
id_of (some l) = some l.id

unfoldable pub linked_id : Bytes → Bytes → Bytes → LinkOptions → Db → Option Bytes
unfolding select
linked_id from to tag opts db = id_of (active_link from to tag opts db)

created :
    (row : Link) (db : Db) (i : Bytes)
    → (existing_or_new none row db).0 ≡ ok i
    → (row.id ≡ i) × ((existing_or_new none row db).1 ≡ record db { links = db.links ++ row ∷ [] })
created row db i h = elim (Bool-cases (exists_where (same_link row) db.links)) [
  | inl e ↦ cc
  | inr e ↦ (ground (arith, rw e at h), rw e)
]

first-none : {A : Type 0} (xs : List A) → first xs ≡ none → xs ≡ []
first-none [] h = refl
first-none (x ∷ xs) h = cc

reuse :
    (o : Option Link) (row : Link) (db : Db) (i : Bytes)
    → id_of o ≡ some i
    → existing_or_new o row db ≡ (ok i, db)
reuse none row db i h = cc
reuse (some l) row db i h = ground arith

-- the row that a restored link is read from
read_back :
    (o : Option Link) (db : Db) (i : Bytes)
    → ((lift (or_not_found o) >>= λ row. pure row.id) db).0 ≡ ok i
    → (id_of o ≡ some i) × (((lift (or_not_found o) >>= λ row. pure row.id) db).1 ≡ db)
read_back none db i h = cc
read_back (some l) db i h = (ground arith, refl)

module _ (from to tag : Bytes) (opts : LinkOptions) {clean_from clean_to : Bytes}
    (valid_from : Validate.path from opts.max_path ≡ ok clean_from)
    (valid_to : Validate.path to opts.max_path ≡ ok clean_to)
    (valid : Validate.link from to ≡ ok tt) where
  link_lem :
      (id : Bytes) (now : ℕ) (db : Db)
      → link from to tag opts id now db ≡ (
          if exists_where (deleted_relation from to tag opts) db.links
          then ((lift (or_not_found (active_link from to tag opts (restored from to tag opts db)))
                >>= λ row. pure row.id)
              (restored from to tag opts db))
          else existing_or_new
              (active_link from to tag opts db)
              (new_link from to tag opts id now)
              db)
  unfolding link
  link_lem id now db =
      rw (valid_from, valid_to, valid)
        (elim (Bool-cases (exists_where (deleted_relation from to tag opts) db.links)) [
          | inl e ↦ rw (count_where-positive, e)
          | inr e ↦ rw (
            count_where-positive,
            e,
            update-none (deleted_relation from to tag opts) restore_link db.links e,
          )
        ])

  -- what a successful `link` leaves behind
  related :
      (id i : Bytes) (now : ℕ) (db : Db)
      → (link from to tag opts id now db).0 ≡ ok i
      → (linked_id from to tag opts (link from to tag opts id now db).1 ≡ some i)
        × (exists_where
              (deleted_relation from to tag opts)
              (link from to tag opts id now db).1.links
            ≡ false)
  related id i now db done =
      elim (Bool-cases (exists_where (deleted_relation from to tag opts) db.links)) [
        | inl e ↦
            let found =
              read_back (active_link from to tag opts (restored from to tag opts db))
                (restored from to tag opts db) i (rw (link_lem id now db, e) at done) in
            rw (link_lem id now db, e, found.1)
              (
                unfold linked_id in found.0,
                exists_where-updated (deleted_relation from to tag opts) restore_link db.links
                    (λ l h. ground arith),
              )
        | inr e ↦ elim (Option-cases (active_link from to tag opts db)) [
          | inr k ↦
              rw (link_lem id now db, e, k.1)
                (
                  unfold linked_id in
                      rw k.1 (ground (arith, rw (link_lem id now db, e, k.1) at done)),
                  e,
                )
          | inl k ↦
              let row = new_link from to tag opts id now in
              let made = created row db i (rw (link_lem id now db, e, k) at done) in
              let no_rows =
                first-none (select (λ l. is_link from to tag opts l && link_is_active l) db.links)
                  k in
              rw (link_lem id now db, e, k, made.1)
                (
                  unfold linked_id in
                      rw
                        (
                          select-snoc,
                          no_rows,
                          str_eq_refl from,
                          str_eq_refl to,
                          str_eq_refl tag,
                          str_eq_refl opts.from_source,
                          str_eq_refl opts.to_source,
                        )
                        (ap some made.0),
                  rw (exists_where-snoc, e) (ground arith),
                )
        ]
      ]

  repeated :
      (id i : Bytes) (now : ℕ) (db : Db)
      → linked_id from to tag opts db ≡ some i
      → exists_where (deleted_relation from to tag opts) db.links ≡ false
      → link from to tag opts id now db ≡ (ok i, db)
  unfolding linked_id
  repeated id i now db h e =
      rw (link_lem id now db, e)
        (reuse (active_link from to tag opts db) (new_link from to tag opts id now) db i h)

  -- A link that was made is there afterwards under the id that was returned, and making it again,
  -- with whatever new id and time, returns that id and changes nothing.
  pub link-idempotent :
      (id again i : Bytes) (now later : ℕ) (db : Db)
      → (link from to tag opts id now db).0 ≡ ok i
      → (linked_id from to tag opts (link from to tag opts id now db).1 ≡ some i)
        × (link from to tag opts again later (link from to tag opts id now db).1
            ≡ (ok i, (link from to tag opts id now db).1))
  link-idempotent id again i now later db done = (
    (related id i now db done).0,
    repeated again i later (link from to tag opts id now db).1 (related id i now db done).0
        (related id i now db done).1,
  )
