-- ===== src/Service/Links.antt =====
-- document/links.go: relations, with an event for each that comes or goes.
use llmd.Prelude.{ℕ, Bool, true, false, List, [], ◌∷◌, Bytes}
use llmd.Store.{Link}
use llmd.Store.Links
use llmd.Store.Links.{LinkOptions}
use llmd.Service.{Service, Action, return, store, fetch, ◌>>=◌, ◌>>◌, fire_event, link_event}

abbrev pub with_limit : Service → LinkOptions → LinkOptions
with_limit s opts = record opts { max_path = s.max_path }

module _ {Files : Type 0} where
  unfoldable pub delete_links_for_path : Bytes → LinkOptions → ℕ → Action Files (Unit {0})
  delete_links_for_path path opts now = store (Links.delete_links_for_path path opts now)

module _ {Files : Type 0} (s : Service) where
  unfoldable pub link : Bytes → Bytes → Bytes → LinkOptions → Bytes → ℕ → Action Files Bytes
  link from to tag opts key now = do
    id ← store (Links.link from to tag (with_limit s opts) key now)
    fire_event s (link_event id from to tag true)
    return id

  unfoldable pub unlink_by_id : Bytes → ℕ → Action Files (Unit {0})
  unlink_by_id id now = do
    store (Links.unlink_by_id id now)
    fire_event s (link_event id [] [] [] false)

  abbrev pub fire_removed : List Link → Action Files (Unit {0})
  fire_removed [] = return tt
  fire_removed (l ∷ links) = do
    fire_event s (link_event l.id l.from_path l.to_path l.tag false)
    fire_removed links

  -- The query and the update run at the same time: `list_first` says which one the database saw
  -- first.
  unfoldable pub unlink_by_tag : Bool → Bytes → LinkOptions → ℕ → Action Files ℕ
  unlink_by_tag true tag opts now = do
    links ← fetch (λ db. Links.list_links_by_tag db tag opts)
    count ← store (Links.unlink_by_tag tag opts now)
    fire_removed links
    return count
  unlink_by_tag false tag opts now = do
    count ← store (Links.unlink_by_tag tag opts now)
    links ← fetch (λ db. Links.list_links_by_tag db tag opts)
    fire_removed links
    return count
