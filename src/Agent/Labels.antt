-- ===== src/Agent/Labels.antt =====
-- internal/mcp/tools_tags.go and tools_links.go: the tools for tags and links.
use llmd.Prelude.{
  ℕ, Bool, false, ◌&&◌, ◌||◌, [], Bytes, codes, str_eq, is_empty, if◌then◌else◌, err_required,
}
use llmd.Store.Links
use llmd.Store.Links.{new_link_options}
use llmd.Ls.{new_tag_options}
use llmd.Service.{Service, Action, return, fail, ask, fetch, ◌>>=◌, ◌>>◌}
use llmd.Service.Tags
use llmd.Service.Links as Relations
use llmd.Agent.{Request, Reply, get_string, get_bool, required, done, texts, links, linked, count}

module _ {Files : Type 0} (s : Service) (key : Bytes) (now : ℕ) where
  unfoldable pub tag_add : Request → Action Files Reply
  tag_add req = do
    path ← required req (codes "path")
    tag ← required req (codes "tag")
    author ← required req (codes "author")
    Tags.tag s path tag new_tag_options key now
    return (done path)

  unfoldable pub tag_remove : Request → Action Files Reply
  tag_remove req = do
    path ← required req (codes "path")
    tag ← required req (codes "tag")
    author ← required req (codes "author")
    Tags.untag s path tag new_tag_options now
    return (done path)

  unfoldable pub list_tags : Request → Action Files Reply
  list_tags req = do
    found ← ask (λ db. Tags.list_tags db (get_string req (codes "path") []) new_tag_options)
    return (texts found)

  abbrev list_links : Bytes → Bytes → Action Files Reply
  list_links from tag =
      if is_empty from && is_empty tag
      then fail err_required
      else if is_empty from
      then (do
        found ← fetch (λ db. Links.list_links_by_tag db tag new_link_options)
        return (links found))
      else (do
        found ← fetch (λ db. Links.list_links db from tag new_link_options)
        return (links found))

  -- The name "mcp" stands for an author only if it was given.
  abbrev link_author : Request → Action Files (Unit {0})
  unfolding str_eq
  link_author req =
      if str_eq (get_string req (codes "author") (codes "mcp")) (codes "mcp")
      then (do author ← required req (codes "author"); return tt)
      else return tt

  unfoldable pub link_documents : Request → Action Files Reply
  unfolding link_author
  link_documents req =
      let from = get_string req (codes "from") [] in
      let to = get_string req (codes "to") [] in
      let tag = get_string req (codes "tag") [] in
      if get_bool req (codes "orphan") false
      then (do
        found ← fetch (λ db. Links.list_orphan_link_paths db new_link_options)
        return (texts found))
      else if get_bool req (codes "list") false
      then list_links from tag
      else if is_empty from || is_empty to
      then fail err_required
      else (do
        link_author req
        id ← Relations.link s from to tag new_link_options key now
        return (linked id from to tag))

  -- `list_first` is the order that the service's two statements run in.
  unfoldable pub unlink_documents : Bool → Request → Action Files Reply
  unlink_documents list_first req = do
    author ← required req (codes "author")
    let id = get_string req (codes "id") []
    let tag = get_string req (codes "tag") []
    if is_empty tag
        then (if is_empty id
            then fail err_required
            else (do Relations.unlink_by_id s id now; return (done id)))
        else (do
          n ← Relations.unlink_by_tag s list_first tag new_link_options now
          return (count n))
