-- ===== src/Extension/Link.antt =====
-- extension/link: the commands link and unlink, less what they print. A link that is made gets its
-- random key and its time by how many were made before it.
use llmd.Prelude.{
  ℕ, suc, Bool, false, not, List, [], ◌∷◌, Bytes, is_empty, if◌then◌else◌, err_usage,
}
use llmd.Store.{Link}
use llmd.Store.Links
use llmd.Store.Links.{new_link_options}
use llmd.Service.{Service, Action, return, fail, ask, fetch, ◌>>=◌, ◌>>◌}
use llmd.Service.Read.{resolve}
use llmd.Service.Links as Relations

pub record LinkFlags : Type 0 where
  pub tag : Bytes
  pub list : Bool
  pub orphan : Bool

-- what a command shows
pub data Shown : Type 0 where
  created : (from : Bytes) (targets : List (Bytes × Bytes)) → Shown
  shown_links : List Link → Shown
  orphans : List Bytes → Shown

pub data Unlinked : Type 0 where
  by_tag : ℕ → Unlinked
  by_id : Unlinked

module _ {Files : Type 0} (s : Service) (keys : ℕ → Bytes) (now : ℕ → ℕ) where
  -- The loop of createLinks: the path and the id of each target. What was linked before an error stays.
  unfoldable pub link_targets : ℕ → Bytes → List Bytes → Bytes → Action Files (List (Bytes × Bytes))
  link_targets n from [] tag = return []
  link_targets n from (to ∷ targets) tag = do
    found ← ask (λ db. resolve db to false)
    id ← Relations.link s from found.0.path tag new_link_options (keys n) (now n)
    rest ← link_targets (suc n) from targets tag
    return ((found.0.path, id) ∷ rest)

  unfoldable pub create_links : Bytes → List Bytes → Bytes → Action Files Shown
  unfolding link_targets
  create_links from targets tag = do
    found ← ask (λ db. resolve db from false)
    linked ← link_targets 0 found.0.path targets tag
    return (created found.0.path linked)

  unfoldable pub list_links : Bytes → Bytes → Action Files Shown
  list_links path tag = do
    found ← ask (λ db. resolve db path false)
    links ← fetch (λ db. Links.list_links db found.0.path tag new_link_options)
    return (shown_links links)

  unfoldable pub list_by_tag : Bytes → Action Files Shown
  list_by_tag tag = do
    links ← fetch (λ db. Links.list_links_by_tag db tag new_link_options)
    return (shown_links links)

  unfoldable pub list_orphans : Action Files Shown
  list_orphans = do
    paths ← fetch (λ db. Links.list_orphan_link_paths db new_link_options)
    return (orphans paths)

  abbrev list_for : LinkFlags → List Bytes → Action Files Shown
  unfolding list_links list_by_tag
  list_for flags [] = if is_empty flags.tag then fail err_usage else list_by_tag flags.tag
  list_for flags (path ∷ _) = list_links path flags.tag

  -- at least two documents
  abbrev create_for : LinkFlags → List Bytes → Action Files Shown
  unfolding create_links
  create_for flags (from ∷ to ∷ targets) = create_links from (to ∷ targets) flags.tag
  create_for flags _ = fail err_usage

  unfoldable pub run_link : LinkFlags → List Bytes → Action Files Shown
  unfolding list_orphans list_for create_for
  run_link flags args =
      if flags.orphan
      then list_orphans
      else if flags.list
      then list_for flags args
      else create_for flags args

-- Without a tag, one id; `list_first` is the order that the database sees, as for the service.
module _ {Files : Type 0} (s : Service) (list_first : Bool) (now : ℕ) where
  abbrev remove_one : List Bytes → Action Files Unlinked
  remove_one (id ∷ []) = do Relations.unlink_by_id s id now; return by_id
  remove_one _ = fail err_usage

  unfoldable pub run_unlink : Bytes → List Bytes → Action Files Unlinked
  run_unlink tag args =
      if not (is_empty tag)
      then (do n ← Relations.unlink_by_tag s list_first tag new_link_options now; return (by_tag n))
      else remove_one args
