-- ===== src/Ls.antt =====
-- internal/ls: `llmd ls`, the documents of a prefix, filtered and sorted. The short listing loads
-- the documents, and the long one only what describes them.
pub mod Agree
use llmd.Prelude.{
  ℕ, Bool, not, ◌||◌, List, [], Bytes, codes, str_le, is_empty, is_null, length, leb, ltb, ◌==◌,
  if◌then◌else◌, Result, ok, ◌>>=◌,
}
use llmd.Sql.{select, order_by}
use llmd.Text.{contains_line}
use llmd.Path.{direct}
use llmd.Store.{Document, Db}
use llmd.Store.Read.{DocumentMeta}
use llmd.Store.Tags.{TagOptions, paths_with_tag}
use llmd.Service.Read.{list}
use llmd.Service.Meta.{list_meta}

pub data SortField : Type 0 where
  sort_none sort_name sort_time : SortField

-- ls.Options, less Tree, which only changes what is printed
pub record Options : Type 0 where
  pub pre : Bytes
  pub recursive : Bool
  pub include_all : Bool
  pub deleted_only : Bool
  pub long : Bool
  pub tag : Bytes
  pub sort : SortField
  pub reverse : Bool

-- ls.Result
pub record Listing : Type 0 where
  pub documents : List Document
  pub metas : List DocumentMeta

unfoldable pub count : Listing → ℕ
count r = if ltb 0 (length r.metas) then length r.metas else length r.documents

-- store.NewTagOptions
abbrev pub new_tag_options : TagOptions
new_tag_options = record { source = codes "documents"; max_path = 0 }

-- The comparisons of sort.Slice, as "may stand before". The rows of a listing have different paths,
-- so that no two of them are equal in the order, and it does not matter that the sort is unstable.
module _ {Row : Type 0} (path : Row → Bytes) (created_at : Row → ℕ) where
  abbrev pub by_name : Bool → Row → Row → Bool
  by_name reverse a b = if reverse then str_le (path b) (path a) else str_le (path a) (path b)

  abbrev pub by_time : Bool → Row → Row → Bool
  by_time reverse a b =
      if created_at a == created_at b
      then by_name reverse a b
      else if reverse
      then leb (created_at a) (created_at b)
      else leb (created_at b) (created_at a)

  unfoldable pub sorted : SortField → Bool → List Row → List Row
  unfolding order_by
  sorted sort_none reverse rows = rows
  sorted sort_name reverse rows = order_by (by_name reverse) rows
  sorted sort_time reverse rows = order_by (by_time reverse) rows

  unfoldable pub children_only : Bool → Bytes → List Row → List Row
  unfolding select direct
  children_only recursive pre rows =
      if recursive then rows else select (λ r. direct (path r) pre) rows

  unfoldable pub tagged_only : Db → Bytes → List Row → List Row
  unfolding select paths_with_tag contains_line
  tagged_only db tag rows =
      if is_empty tag
      then rows
      else select (λ r. contains_line (paths_with_tag db tag new_tag_options) (path r)) rows

-- runLong, after the query
abbrev pub long_listing : Db → Options → Bool → List DocumentMeta → Listing
unfolding children_only tagged_only sorted select
long_listing db opts deleted_only found =
    let path = λ (m : DocumentMeta). m.path in
    let created = λ (m : DocumentMeta). m.created_at in
    let near = children_only path created opts.recursive opts.pre found in
    let gone = if deleted_only then select (λ m. not (is_null m.deleted_at)) near else near in
    record {
      documents = [];
      metas =
          sorted path created opts.sort opts.reverse (tagged_only path created db opts.tag gone);
    }

unfoldable pub run_long : Db → Options → Result Listing
unfolding long_listing
run_long db opts = do
  found ← list_meta db opts.pre (opts.include_all || opts.deleted_only)
  ok (long_listing db opts opts.deleted_only found)

-- Run, after the query
abbrev pub short_listing : Db → Options → List Document → Listing
unfolding children_only tagged_only sorted
short_listing db opts found =
    let path = λ (d : Document). d.path in
    let created = λ (d : Document). d.created_at in
    let near = children_only path created opts.recursive opts.pre found in
    record {
      documents =
          sorted path created opts.sort opts.reverse (tagged_only path created db opts.tag near);
      metas = [];
    }

unfoldable pub run : Db → Options → Result Listing
unfolding run_long short_listing
run db opts = if opts.long then run_long db opts else (do
  found ← list db opts.pre opts.include_all opts.deleted_only
  ok (short_listing db opts found))
