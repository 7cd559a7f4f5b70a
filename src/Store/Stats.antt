-- ===== src/Store/Stats.antt =====
-- store/stats.go: the counts and the lists that load no content.
use llmd.Prelude.{
  ℕ, Bool, false, not, ◌&&◌, List, map, Option, none, some, Bytes, str_eq, str_le, is_null, length,
  ltb, min, [], ◌∷◌,
}
use llmd.Sql.{count_where, select, order_by, max_of, distinct, coalesce, like}
use llmd.Store.{Document, Db}
use llmd.Store.Read.{
  DocumentMeta, is_active, in_prefix, is_latest, shown, by_path, to_meta, paths_where, sql_length,
}

unfoldable pub list_deleted_paths : Db → Bytes → List Bytes
unfolding select order_by distinct like
list_deleted_paths db pre =
    order_by str_le (paths_where (λ d. not (is_active d) && in_prefix pre d.path) db)

unfoldable pub list_meta : Db → Bytes → Bool → List DocumentMeta
unfolding select order_by max_of like sql_length
list_meta db pre include_deleted =
    let cond = λ (d : Document). in_prefix pre d.path && shown include_deleted false d in
    map to_meta (
      order_by by_path
        (select (λ d. is_latest cond db.documents d && shown include_deleted false d) db.documents))

unfoldable pub count_deleted : Db → Bytes → ℕ
unfolding select distinct like
count_deleted db pre = length (paths_where (λ d. not (is_active d) && in_prefix pre d.path) db)

abbrev pub deleted_earlier : ℕ → Option ℕ → Bool
deleted_earlier cutoff none = false
deleted_earlier cutoff (some t) = ltb t cutoff

unfoldable pub deleted_before : Db → ℕ → Bytes → List Bytes
unfolding select order_by distinct like
deleted_before db cutoff pre =
    order_by str_le
      (paths_where (λ d. deleted_earlier cutoff d.deleted_at && in_prefix pre d.path) db)

unfoldable pub version_count : Db → Bytes → ℕ
unfolding count_where
version_count db path = count_where (λ d. str_eq d.path path) db.documents

unfoldable pub list_authors : Db → List Bytes
unfolding order_by distinct
list_authors db = order_by str_le (distinct (map (λ d. d.author) db.documents))

-- MIN over the values that are not NULL
abbrev pub min_of : List (Option ℕ) → Option ℕ
min_of [] = none
min_of (none ∷ xs) = min_of xs
min_of (some x ∷ xs) = elim (min_of xs) [ none ↦ some x | some m ↦ some (min x m) ]

pub record Stats : Type 0 where
  pub documents : ℕ
  pub deleted_docs : ℕ
  pub total_versions : ℕ
  pub tags : ℕ
  pub links : ℕ
  pub authors : ℕ
  pub oldest_doc : ℕ
  pub newest_doc : ℕ
  pub oldest_deleted_at : ℕ

unfoldable pub stats : Db → Stats
unfolding select count_where distinct max_of
stats db = record {
  documents = length (paths_where is_active db);
  deleted_docs = length (paths_where (λ d. not (is_active d)) db);
  total_versions = length db.documents;
  tags = count_where (λ t. is_null t.deleted_at) db.tags;
  links = count_where (λ l. is_null l.deleted_at) db.links;
  authors = length (distinct (map (λ d. d.author) db.documents));
  oldest_doc = coalesce (min_of (map (λ d. some d.created_at) db.documents)) 0;
  newest_doc = coalesce (max_of (λ d. d.created_at) db.documents) 0;
  oldest_deleted_at = coalesce (min_of (map (λ d. d.deleted_at) db.documents)) 0;
}
