-- ===== src/Store/Read.antt =====
-- store/read.go: the queries. A document is the highest version at its path.
pub mod Highest
pub mod Listed
use llmd.Prelude.{
  ℕ, suc, Bool, true, false, not, ◌&&◌, ◌||◌, List, [], ◌∷◌, ◌++◌, map, Option, none, some, Bytes,
  codes, str_eq, str_le, is_empty, is_null, first, take, length, leb, ltb, ◌==◌, if◌then◌else◌,
  Result,
}
use llmd.Sql.{select, exists_where, order_by, max_of, distinct, like}
use llmd.Store.{Document, Db, or_not_found}

pub record DocumentMeta : Type 0 where
  pub key : Bytes
  pub path : Bytes
  pub version : ℕ
  pub author : Bytes
  pub message : Bytes
  pub created_at : ℕ
  pub deleted_at : Option ℕ
  pub size : ℕ

-- ORDER BY version DESC
abbrev pub newer : Document → Document → Bool
newer a b = leb b.version a.version

-- ORDER BY path
abbrev pub by_path : Document → Document → Bool
by_path a b = str_le a.path b.path

abbrev pub is_active : Document → Bool
is_active d = is_null d.deleted_at

-- WHERE path = ? [AND deleted_at IS NULL]
abbrev pub at_path : Bytes → Bool → Document → Bool
at_path path include_deleted d = str_eq d.path path && (include_deleted || is_active d)

unfoldable pub latest : Db → Bytes → Bool → Result Document
unfolding select order_by
latest db path include_deleted =
    or_not_found (first (order_by newer (select (at_path path include_deleted) db.documents)))

unfoldable pub version : Db → Bytes → ℕ → Result Document
unfolding select
version db path v =
    or_not_found (first (select (λ d. str_eq d.path path && d.version == v) db.documents))

unfoldable pub by_key : Db → Bytes → Result Document
unfolding select
by_key db key = or_not_found (first (select (λ d. str_eq d.key key) db.documents))

-- `path LIKE ?` with the argument prefix+"%", left out for the empty prefix
abbrev pub in_prefix : Bytes → Bytes → Bool
in_prefix pre path = is_empty pre || like (pre ++ codes "%") path

-- the condition on deleted_at that the two flags select
abbrev pub shown : Bool → Bool → Document → Bool
shown include_deleted deleted_only d =
    if deleted_only then not (is_active d) else if include_deleted then true else is_active d

-- INNER JOIN (SELECT path, MAX(version) FROM documents WHERE cond GROUP BY path) latest
--   ON d.path = latest.path AND d.version = latest.max_version
abbrev pub is_latest : (Document → Bool) → List Document → Document → Bool
is_latest cond docs d =
    elim (max_of (λ r. r.version) (select (λ r. cond r && str_eq r.path d.path) docs)) [
      | none ↦ false
      | some v ↦ d.version == v
    ]

unfoldable pub list : Db → Bytes → Bool → Bool → List Document
unfolding select order_by max_of like
list db pre include_deleted deleted_only =
    let cond = λ (d : Document). in_prefix pre d.path && shown include_deleted deleted_only d in
    order_by by_path (
      select (λ d. is_latest cond db.documents d && shown include_deleted deleted_only d)
        db.documents)

abbrev pub paths_where : (Document → Bool) → Db → List Bytes
paths_where p db = distinct (map (λ d. d.path) (select p db.documents))

unfoldable pub list_paths : Db → Bytes → List Bytes
unfolding select order_by distinct like
list_paths db pre = order_by str_le (paths_where (λ d. is_active d && in_prefix pre d.path) db)

-- `limit` 0 means all
unfoldable pub history : Db → Bytes → ℕ → Bool → List Document
unfolding select order_by
history db path limit include_deleted =
    let rows = order_by newer (select (at_path path include_deleted) db.documents) in
    if ltb 0 limit then take limit rows else rows

unfoldable pub count : Db → Bytes → ℕ
unfolding select distinct like
count db pre = length (paths_where (λ d. is_active d && in_prefix pre d.path) db)

-- SQL's length: the characters up to the first NUL, where bytes 128 to 191 continue a character.
unfoldable pub sql_length : Bytes → ℕ
sql_length [] = 0
sql_length (c ∷ s) =
    let rest = sql_length s in
    if c == 0 then 0 else if leb 128 c && leb c 191 then rest else suc rest

abbrev pub to_meta : Document → DocumentMeta
to_meta d = record {
  key = d.key;
  path = d.path;
  version = d.version;
  author = d.author;
  message = d.message;
  created_at = d.created_at;
  deleted_at = d.deleted_at;
  size = sql_length d.content;
}

unfoldable pub meta : Db → Bytes → Result DocumentMeta
unfolding select order_by sql_length
meta db path =
    or_not_found (first (map to_meta (order_by newer (select (at_path path false) db.documents))))

unfoldable pub exists : Db → Bytes → Bool
unfolding exists_where
exists db path = exists_where (at_path path false) db.documents
