-- ===== src/Store/Links.antt =====
-- store/links.go: relations between paths.
pub mod Relations
use llmd.Prelude.{
  ℕ, Bool, not, ◌&&◌, ◌||◌, List, map, Option, none, some, Bytes, codes, str_eq, str_le, is_empty,
  first, ltb, leb, if◌then◌else◌,
}
use llmd.Sql.{count_where, update_where, exists_where, select, order_by, distinct}
use llmd.Validate
use llmd.Store.{
  Link, Db, Exec, pure, lift, query, ◌>>=◌, ◌>>◌, require_rows, or_not_found, insert_link,
  set_links,
}
use llmd.Store.Read.{is_active}
use llmd.Store.Write.{link_is_active, delete_link, restore_link}

pub record LinkOptions : Type 0 where
  pub from_source : Bytes
  pub to_source : Bytes
  pub max_path : ℕ

-- store.NewLinkOptions
abbrev pub new_link_options : LinkOptions
new_link_options = record {
  from_source = codes "documents";
  to_source = codes "documents";
  max_path = 0;
}

-- from_path = ? AND from_source = ? AND to_path = ? AND to_source = ? AND tag = ?
abbrev pub is_link : Bytes → Bytes → Bytes → LinkOptions → Link → Bool
is_link from to tag opts l =
    str_eq l.from_path from
    && (str_eq l.from_source opts.from_source
        && (str_eq l.to_path to && (str_eq l.to_source opts.to_source && str_eq l.tag tag)))

-- the row of an active link
abbrev pub active_link : Bytes → Bytes → Bytes → LinkOptions → Db → Option Link
active_link from to tag opts db =
    first (select (λ l. is_link from to tag opts l && link_is_active l) db.links)

abbrev pub new_link : Bytes → Bytes → Bytes → LinkOptions → Bytes → ℕ → Link
new_link from to tag opts id now = record {
  id = id;
  from_path = from;
  from_source = opts.from_source;
  to_path = to;
  to_source = opts.to_source;
  tag = tag;
  created_at = now;
  deleted_at = none;
}

-- the id of a link that is there, or of the new row
abbrev pub existing_or_new : Option Link → Link → Exec Bytes
existing_or_new (some l) row = pure l.id
existing_or_new none row = do insert_link row; pure row.id

unfoldable pub link : Bytes → Bytes → Bytes → LinkOptions → Bytes → ℕ → Exec Bytes
unfolding count_where update_where exists_where select
link from to tag opts id now = do
  lift (Validate.path from opts.max_path)
  lift (Validate.path to opts.max_path)
  lift (Validate.link from to)
  n ← set_links (λ l. is_link from to tag opts l && not (link_is_active l)) restore_link
  found ← query (active_link from to tag opts)
  if ltb 0 n
      then (do row ← lift (or_not_found found); pure row.id)
      else existing_or_new found (new_link from to tag opts id now)

unfoldable pub unlink_by_id : Bytes → ℕ → Exec (Unit {0})
unfolding count_where update_where
unlink_by_id id now = do
  n ← set_links (λ l. str_eq l.id id && link_is_active l) (delete_link now)
  require_rows n

unfoldable pub unlink_by_tag : Bytes → LinkOptions → ℕ → Exec ℕ
unfolding count_where update_where
unlink_by_tag tag opts now =
    set_links
      (λ l.
        str_eq l.tag tag
        && (str_eq l.from_source opts.from_source
            && (str_eq l.to_source opts.to_source && link_is_active l)))
      (delete_link now)

-- one end of the link is the path, in that end's source
abbrev pub ends_at : Bytes → Bytes → Bytes → Link → Bool
ends_at path from_source to_source l =
    (str_eq l.from_path path && str_eq l.from_source from_source)
    || (str_eq l.to_path path && str_eq l.to_source to_source)

unfoldable pub list_links : Db → Bytes → Bytes → LinkOptions → List Link
unfolding select order_by
list_links db path tag opts =
    order_by (λ a b. leb b.created_at a.created_at)
      (select
        (λ l.
          (ends_at path opts.from_source opts.to_source l && link_is_active l)
          && (is_empty tag || str_eq l.tag tag))
        db.links)

-- ORDER BY from_path, to_path
abbrev pub by_ends : Link → Link → Bool
by_ends a b =
    if str_eq a.from_path b.from_path
    then str_le a.to_path b.to_path
    else str_le a.from_path b.from_path

unfoldable pub list_links_by_tag : Db → Bytes → LinkOptions → List Link
unfolding select order_by
list_links_by_tag db tag opts = order_by by_ends (
    select
      (λ l.
        str_eq l.tag tag
        && (str_eq l.from_source opts.from_source
            && (str_eq l.to_source opts.to_source && link_is_active l)))
      db.links)

unfoldable pub list_orphan_link_paths : Db → LinkOptions → List Bytes
unfolding select order_by distinct exists_where
list_orphan_link_paths db opts = order_by str_le (
    distinct (
      map (λ d. d.path)
        (select
          (λ d.
            is_active d
            && not (
                exists_where
                  (λ l. ends_at d.path opts.from_source opts.from_source l && link_is_active l)
                  db.links))
          db.documents)))

unfoldable pub delete_links_for_path : Bytes → LinkOptions → ℕ → Exec (Unit {0})
unfolding count_where update_where
delete_links_for_path path opts now = do
  set_links (λ l. ends_at path opts.from_source opts.to_source l && link_is_active l)
      (delete_link now)
  pure tt
