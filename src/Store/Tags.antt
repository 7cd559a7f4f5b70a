-- ===== src/Store/Tags.antt =====
-- store/tags.go: labels on paths.
pub mod Rows
pub mod Labels
use llmd.Prelude.{
  ℕ, Bool, not, ◌&&◌, ◌||◌, List, [], ◌∷◌, ◌++◌, map, none, some, Bytes, str_eq, str_le, is_empty,
  is_null, ltb, if◌then◌else◌,
}
use llmd.Sql.{count_where, update_where, exists_where, select, order_by, max_of, distinct, like}
use llmd.Validate
use llmd.Store.{
  Document, Tag, Db, Exec, pure, lift, query, ◌>>=◌, ◌>>◌, require_rows, insert_tag, set_tags,
}
use llmd.Store.Read.{in_prefix, shown, is_latest, by_path}

pub record TagOptions : Type 0 where
  pub source : Bytes
  pub max_path : ℕ

abbrev pub tag_is_active : Tag → Bool
tag_is_active t = is_null t.deleted_at

-- path = ? AND source = ? AND tag = ?
abbrev pub is_tag : Bytes → Bytes → Bytes → Tag → Bool
is_tag path source tag t = str_eq t.path path && (str_eq t.source source && str_eq t.tag tag)

abbrev pub delete_tag : ℕ → Tag → Tag
delete_tag now t = record t { deleted_at = some now }

abbrev pub restore_tag : Tag → Tag
restore_tag t = record t { deleted_at = none }

-- Restore a deleted tag, leave an active one, and insert one only if there is neither.
unfoldable pub tag : Bytes → Bytes → TagOptions → Bytes → ℕ → Exec (Unit {0})
unfolding count_where update_where exists_where
tag path label opts id now = do
  lift (Validate.path path opts.max_path)
  lift (Validate.tag label)
  n ← set_tags (λ t. is_tag path opts.source label t && not (tag_is_active t)) restore_tag
  if ltb 0 n then pure tt else do
    there ←
        query (λ db. exists_where (λ t. is_tag path opts.source label t && tag_is_active t) db.tags)
    if there
        then pure tt
        else insert_tag (record {
          id = id;
          path = path;
          source = opts.source;
          tag = label;
          created_at = now;
          deleted_at = none;
        })

unfoldable pub untag : Bytes → Bytes → TagOptions → ℕ → Exec (Unit {0})
unfolding count_where update_where
untag path label opts now = do
  lift (Validate.path path opts.max_path)
  lift (Validate.tag label)
  rows ← set_tags (λ t. is_tag path opts.source label t && tag_is_active t) (delete_tag now)
  require_rows rows

unfoldable pub list_tags : Db → Bytes → TagOptions → List Bytes
unfolding select distinct order_by
list_tags db path opts = order_by str_le (
    distinct (
      map (λ t. t.tag)
        (select
          (λ t.
            (tag_is_active t && str_eq t.source opts.source)
            && (is_empty path || str_eq t.path path))
          db.tags)))

unfoldable pub paths_with_tag : Db → Bytes → TagOptions → List Bytes
unfolding select order_by
paths_with_tag db label opts = order_by str_le (
    map (λ t. t.path)
      (select (λ t. str_eq t.tag label && (str_eq t.source opts.source && tag_is_active t))
        db.tags))

-- INNER JOIN tags t ON d.path = t.path AND t.source = ? AND t.tag = ? AND t.deleted_at IS NULL
-- gives a row of the document for each such tag.
abbrev pub joined : (Tag → Bool) → List Tag → List Document → List Document
joined p tags [] = []
joined p tags (d ∷ docs) =
    map (λ _. d) (select (λ t. str_eq d.path t.path && p t) tags) ++ joined p tags docs

unfoldable pub list_by_tag : Db → Bytes → Bytes → Bool → Bool → TagOptions → List Document
unfolding select order_by max_of like
list_by_tag db pre label include_deleted deleted_only opts =
    let cond = λ (d : Document). in_prefix pre d.path && shown include_deleted deleted_only d in
    order_by by_path (
      joined (λ t. str_eq t.source opts.source && (str_eq t.tag label && tag_is_active t)) db.tags
        (select (λ d. is_latest cond db.documents d && shown include_deleted deleted_only d)
          db.documents))
