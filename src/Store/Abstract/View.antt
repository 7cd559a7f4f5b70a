-- ===== src/Store/Abstract/View.antt =====
-- The versions of a path, read off the rows, and what a statement does to them.
use llmd.Prelude.{
  ℕ, max, Bool, true, false, not, ◌&&◌, ◌||◌, List, [], ◌∷◌, map, Bytes, str_eq, str_eq_iff,
  str_eq→eq, is_null, if◌then◌else◌, Option, ◌≡◌, refl, ap, ◌∙◌, arith, Bool-cases, inl, inr,
}
use llmd.Sql.{
  select, exists_where, update_where, order_by, insert_by, order_by-map, max_of, coalesce,
  select-update_ne,
}
use llmd.Store.{Document, Db}
use llmd.Store.Read.{newer, at_path, is_active, history}
use llmd.Store.Write.{max_version}
use llmd.Store.Abstract.{Version, Documents, highest, mark}

abbrev pub to_version : Document → Version
to_version d = record {
  number = d.version;
  text = d.content;
  author = d.author;
  message = d.message;
  gone = not (is_active d);
}

-- the rows of a path, the highest version first
abbrev pub rows : List Document → Bytes → List Document
rows docs path = order_by newer (select (at_path path true) docs)

abbrev pub view : Db → Documents
view db path = map to_version (history db path 0 true)

highest-insert_by :
    (d : Document) (ds : List Document)
    → highest (map to_version (insert_by newer d ds)) ≡ max d.version (highest (map to_version ds))
unfolding highest insert_by
highest-insert_by d [] = refl
highest-insert_by d (e ∷ ds) = ground (arith, highest-insert_by d ds)

highest-order_by :
    (ds : List Document)
    → highest (map to_version (order_by newer ds)) ≡ coalesce (max_of (λ d. d.version) ds) 0
unfolding highest order_by max_of
highest-order_by [] = refl
highest-order_by (d ∷ ds) =
    highest-insert_by d (order_by newer ds) ∙ ground (arith, highest-order_by ds)

at_path-same :
    (path : Bytes) (docs : List Document)
    → select (at_path path true) docs ≡ select (λ d. str_eq d.path path) docs
unfolding select
at_path-same path [] = refl
at_path-same path (d ∷ docs) = ground (arith, at_path-same path docs)

pub highest-view : (db : Db) (path : Bytes) → highest (view db path) ≡ max_version path db
unfolding history max_version
highest-view db path =
    highest-order_by (select (at_path path true) db.documents) ∙ rw (at_path-same path db.documents)

exists-insert_by :
    (p : Version → Bool) (d : Document) (ds : List Document)
    → exists_where p (map to_version (insert_by newer d ds))
      ≡ (p (to_version d) || exists_where p (map to_version ds))
unfolding exists_where insert_by
exists-insert_by p d [] = ground arith
exists-insert_by p d (e ∷ ds) = ground (arith, exists-insert_by p d ds)

-- A version passes a test if a row of the path does.
pub exists-rows :
    (p : Version → Bool) (path : Bytes) (docs : List Document)
    → exists_where p (map to_version (rows docs path))
      ≡ exists_where (λ d. str_eq d.path path && p (to_version d)) docs
unfolding exists_where select order_by
exists-rows p path [] = refl
exists-rows p path (d ∷ docs) =
    ground (arith, exists-rows p path docs, exists-insert_by p d (rows docs path))

-- Statements that set the time of deletion.
abbrev pub set_deleted : Option ℕ → Document → Document
set_deleted time d = record d { deleted_at = time }

module _ (time : Option ℕ) (r : Document → Bool) (path : Bytes) where
  abbrev set_where : Document → Document
  set_where d = if r d then set_deleted time d else d

  abbrev pub chosen : Document → Bool
  chosen d = str_eq d.path path && r d

  select-chosen :
      (docs : List Document)
      → select (at_path path true) (update_where chosen (set_deleted time) docs)
        ≡ map set_where (select (at_path path true) docs)
  unfolding select update_where
  select-chosen [] = refl
  select-chosen (d ∷ docs) = ground (arith, select-chosen docs)

  newer-set_where : (a b : Document) → newer (set_where a) (set_where b) ≡ newer a b
  newer-set_where a b = ground arith

  rows-same :
      (docs : List Document)
      → rows (update_where chosen (set_deleted time) docs) path ≡ map set_where (rows docs path)
  rows-same docs = rw (select-chosen docs) (order_by-map newer newer set_where _ newer-set_where)

  rows-other :
      (docs : List Document) (other : Bytes)
      → str_eq path other ≡ false
      → rows (update_where chosen (set_deleted time) docs) other ≡ rows docs other
  rows-other docs other ne = ap (order_by newer) (
      select-update_ne (at_path other true) chosen (set_deleted time) docs
        (λ d k. ground (arith, str_eq_iff d.path path))
        (λ d k. ground (arith, str_eq_iff d.path path)))

  module _ (p : Version → Bool) (same : (d : Document) → r d ≡ p (to_version d)) where
    map-mark :
        (ds : List Document)
        → map to_version (map set_where ds) ≡ mark p (not (is_null time)) (map to_version ds)
    map-mark [] = refl
    map-mark (d ∷ ds) = ground (arith, same d, map-mark ds)

    pub versions-marked :
        (docs : List Document) (other : Bytes)
        → map to_version (rows (update_where chosen (set_deleted time) docs) other) ≡ (
            if str_eq path other
            then mark p (not (is_null time)) (map to_version (rows docs path))
            else map to_version (rows docs other))
    versions-marked docs other = elim (Bool-cases (str_eq path other)) [
      | inl e ↦ rw (e, ← str_eq→eq path other e, rows-same docs) (map-mark (rows docs path))
      | inr e ↦ rw (e, rows-other docs other e)
    ]
