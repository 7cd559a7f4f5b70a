-- ===== src/Agent/Audit.antt =====
-- Which calls of an agent can change anything, of the tools that Agent.Tools dispatches on.
use llmd.Prelude.{
  ℕ, Bool, true, false, List, [], ◌∷◌, none, ◌⊎◌, Bytes, codes, ◌≡◌, refl, arith, Bool-cases, inl,
  inr,
}
use llmd.Service.{Service, Mirror, State, Action}
use llmd.Text.Numbers.{pos}
use llmd.Agent.{Request, Reply, require_init, version_of, get_int, get_bool, get_strings}
use llmd.Agent.Documents.{
  list_documents, read_document, write_document, delete_document, restore_document, revert_document,
  move_document, history_document, edit_document, read_each,
}
use llmd.Agent.Labels.{tag_add, tag_remove, list_tags, link_documents, unlink_documents}
use llmd.Agent.Tools.{
  Libraries, Tool, llmd_list, llmd_read, llmd_write, llmd_delete, llmd_restore, llmd_revert,
  llmd_move, llmd_history, llmd_edit, llmd_tag_add, llmd_tag_remove, llmd_tags, llmd_link,
  llmd_unlink, llmd_glob, llmd_grep, llmd_sed, llmd_diff, glob_documents, grep_documents,
  diff_documents, sed_document, handle,
}

module _ {Files : Type 0} (s : Service) (fs : Mirror Files) (lib : Libraries) (key : Bytes)
    (now : ℕ) (req : Request) (anonymous : req.require_string (codes "author") ≡ none)
    (st : State Files) where
  write_kept : (write_document s fs lib.to_lower key now req st).1 ≡ st
  unfolding write_document
  write_kept = ground arith

  delete_kept : (delete_document s fs lib.to_lower key now req st).1 ≡ st
  unfolding delete_document
  delete_kept = ground arith

  restore_kept : (restore_document s fs lib.to_lower key now req st).1 ≡ st
  unfolding restore_document
  restore_kept = ground arith

  revert_kept : (revert_document s fs lib.to_lower key now req st).1 ≡ st
  unfolding revert_document
  revert_kept = ground arith

  move_kept : (move_document s fs lib.to_lower key now req st).1 ≡ st
  unfolding move_document
  move_kept = ground arith

  edit_kept : (edit_document s fs lib.to_lower key now req st).1 ≡ st
  unfolding edit_document
  edit_kept = ground arith

  tag_add_kept : (tag_add s key now req st).1 ≡ st
  unfolding tag_add
  tag_add_kept = ground arith

  tag_remove_kept : (tag_remove s key now req st).1 ≡ st
  unfolding tag_remove
  tag_remove_kept = ground arith

  link_kept : (link_documents s key now req st).1 ≡ st
  unfolding link_documents
  link_kept = ground arith

  unlink_kept : (list_first : Bool) → (unlink_documents s key now list_first req st).1 ≡ st
  unfolding unlink_documents
  unlink_kept list_first = ground arith

  sed_kept : (sed_document s fs lib key now req st).1 ≡ st
  unfolding sed_document
  sed_kept = ground arith

module _ {Files : Type 0} (s : Service) (fs : Mirror Files) (lib : Libraries) (key : Bytes)
    (now : ℕ) (req : Request) (st : State Files) where
  list_reads : (list_documents s fs lib.to_lower key now req st).1 ≡ st
  unfolding list_documents
  list_reads = ground arith

  history_reads : (history_document s fs lib.to_lower key now req st).1 ≡ st
  unfolding history_document
  history_reads = ground arith

  tags_read : (list_tags s key now req st).1 ≡ st
  unfolding list_tags
  tags_read = ground arith

  glob_reads : (glob_documents s fs lib key now req st).1 ≡ st
  unfolding glob_documents
  glob_reads = ground arith

  grep_reads : (grep_documents s fs lib key now req st).1 ≡ st
  unfolding grep_documents
  grep_reads = ground arith

  diff_reads : (diff_documents s fs lib key now req st).1 ≡ st
  unfolding diff_documents
  diff_reads = ground arith

  read_each-reads :
      (ver : ℕ) (inc : Bool) (paths : List Bytes)
      → (read_each s fs lib.to_lower key now ver inc paths st).1 ≡ st
  read_each-reads ver inc [] = refl
  read_each-reads ver inc (p ∷ paths) = ground (arith, read_each-reads ver inc paths)

  read_reads : (read_document s fs lib.to_lower key now req st).1 ≡ st
  unfolding read_document
  read_reads = ground (
    arith,
    read_each-reads (version_of (get_int req (codes "version") (pos 0)))
        (get_bool req (codes "include_deleted") false) (get_strings req (codes "paths")),
  )

-- the tools that only ask
abbrev pub only_reads : Tool → Bool
only_reads llmd_list = true
only_reads llmd_read = true
only_reads llmd_history = true
only_reads llmd_tags = true
only_reads llmd_glob = true
only_reads llmd_grep = true
only_reads llmd_diff = true
only_reads _ = false

initialised_kept :
    {Files : Type 0} (b : Bool) (m : Action Files Reply) (st : State Files)
    → (m st).1 ≡ st
    → (require_init b m st).1 ≡ st
initialised_kept true m st h = h
initialised_kept false m st h = refl

module _ {Files : Type 0} (s : Service) (fs : Mirror Files) (lib : Libraries) (key : Bytes)
    (now : ℕ) (i f : Bool) (req : Request) (st : State Files) where
  reading_kept :
      (tool : Tool) → only_reads tool ≡ true → (handle s fs lib key now i f tool req st).1 ≡ st
  unfolding handle
  reading_kept llmd_list h = initialised_kept i _ st (list_reads s fs lib key now req st)
  reading_kept llmd_read h = initialised_kept i _ st (read_reads s fs lib key now req st)
  reading_kept llmd_history h = initialised_kept i _ st (history_reads s fs lib key now req st)
  reading_kept llmd_tags h = initialised_kept i _ st (tags_read s fs lib key now req st)
  reading_kept llmd_glob h = initialised_kept i _ st (glob_reads s fs lib key now req st)
  reading_kept llmd_grep h = initialised_kept i _ st (grep_reads s fs lib key now req st)
  reading_kept llmd_diff h = initialised_kept i _ st (diff_reads s fs lib key now req st)
  reading_kept _ h = cc

  changing_kept :
      (tool : Tool)
      → only_reads tool ≡ false
      → req.require_string (codes "author") ≡ none
      → (handle s fs lib key now i f tool req st).1 ≡ st
  unfolding handle
  changing_kept llmd_write h a = initialised_kept i _ st (write_kept s fs lib key now req a st)
  changing_kept llmd_delete h a = initialised_kept i _ st (delete_kept s fs lib key now req a st)
  changing_kept llmd_restore h a = initialised_kept i _ st (restore_kept s fs lib key now req a st)
  changing_kept llmd_revert h a = initialised_kept i _ st (revert_kept s fs lib key now req a st)
  changing_kept llmd_move h a = initialised_kept i _ st (move_kept s fs lib key now req a st)
  changing_kept llmd_edit h a = initialised_kept i _ st (edit_kept s fs lib key now req a st)
  changing_kept llmd_tag_add h a = initialised_kept i _ st (tag_add_kept s fs lib key now req a st)
  changing_kept llmd_tag_remove h a =
      initialised_kept i _ st (tag_remove_kept s fs lib key now req a st)
  changing_kept llmd_link h a = initialised_kept i _ st (link_kept s fs lib key now req a st)
  changing_kept llmd_unlink h a = initialised_kept i _ st (unlink_kept s fs lib key now req a st f)
  changing_kept llmd_sed h a = initialised_kept i _ st (sed_kept s fs lib key now req a st)
  changing_kept _ h a = cc

  -- Of these tools, one that only asks, and any of them in a call that names no author, leaves the
  -- documents, tags and links, the mirror and the events as they are.
  pub handle-audited :
      (tool : Tool)
      → (only_reads tool ≡ true) ⊎ (req.require_string (codes "author") ≡ none)
      → (handle s fs lib key now i f tool req st).1 ≡ st
  handle-audited tool (inl h) = reading_kept tool h
  handle-audited tool (inr a) = elim (Bool-cases (only_reads tool)) [
    | inl h ↦ reading_kept tool h
    | inr h ↦ changing_kept tool h a
  ]
