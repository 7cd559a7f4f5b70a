-- ===== src/Extension.antt =====
-- extension: what the commands register, and what they do with the events of the service.
pub mod Registry
pub mod Link
pub mod Documents
pub mod Cleanup
pub mod Changes
pub mod Truth
use llmd.Prelude.{ℕ, Bool, true, false, List, [], ◌∷◌, ◌++◌, Result, ok, err}
use llmd.Store.Links.{new_link_options}
use llmd.Service.Links.{delete_links_for_path}
use llmd.Service.{
  Service, State, Action, Event, return, catch, ◌>>=◌, ◌>>◌, document_write, document_delete,
  document_restore, tag_event, link_event,
}

module _ {Files : Type 0} where
  -- HandleEvent of extension/link: a deletion, of a document or of one version, takes off the links.
  unfoldable pub handle_event : ℕ → Event → Action Files (Unit {0})
  unfolding delete_links_for_path
  handle_event now (document_delete path version) = delete_links_for_path path new_link_options now
  handle_event now (document_write _ _ _ _ _) = return tt
  handle_event now (document_restore _ _) = return tt
  handle_event now (tag_event _ _ _ _) = return tt
  handle_event now (link_event _ _ _ _ _) = return tt

  -- fireEvent, for the extensions that handle events: link, and tag, which only logs them. An error
  -- is logged and passed over.
  unfoldable pub deliver : ℕ → List Event → Action Files (Unit {0})
  unfolding handle_event
  deliver now [] = return tt
  deliver now (e ∷ es) = do catch (handle_event now e); deliver now es

  abbrev delivered : {A : Type 0} → List Event → ℕ → Result A × State Files → Result A × State Files
  unfolding deliver
  delivered before now (r, st) =
      (r, record (deliver now st.events st).1 { events = before ++ st.events })

  -- An operation of the service with its events handled. The service fires an event after its last
  -- use of the links, so it is the same to handle them when it is done.
  unfoldable pub handled : {A : Type 0} → Action Files A → ℕ → Action Files A
  unfolding delivered
  handled m now st = delivered st.events now (m (record st { events = [] }))
