-- ===== src/Extension/Cleanup.antt =====
-- What the handlers of events do to the links.
use llmd.Prelude.{
  List, Bool-cases, inl, inr, false, ℕ, ◌≡◌, refl, ap, ◌∙◌, Bool, true, false, ◌&&◌, [], ◌∷◌, ◌++◌,
  Bytes, Result, ok, err, arith,
}
use llmd.Sql.{update_where, exists_where, exists_where-updated, update-none}
use llmd.Store.Write.Deletion.{active_at, active_touching, delete_lem}
use llmd.Validate
use llmd.Store.{Document, Link, Db}
use llmd.Store.Read
use llmd.Store.Write
use llmd.Store.Write.{link_is_active, delete_link}
use llmd.Store.Links.{ends_at, new_link_options, delete_links_for_path}
use llmd.Service.{sync_remove, Service, Mirror, State, Event, store, fire_event, document_delete}
use llmd.Service.Links as Relations
use llmd.Service.Truth.{database-first}
use llmd.Service.Write.{delete, delete_version, sync_remaining}
use llmd.Service.Inversion.{bind_ok}
use llmd.Extension.{handle_event, deliver, handled}

-- An active link with an end at the path, which the handlers take off.
abbrev pub loses : Bytes → Link → Bool
loses path l =
    ends_at path new_link_options.from_source new_link_options.to_source l && link_is_active l

-- The deletion of a version leaves tags and links alone.
version_only :
    (path : Bytes) (version max_path now : ℕ) (db : Db)
    → ((Write.delete_version path version max_path now db).1.tags ≡ db.tags)
      × ((Write.delete_version path version max_path now db).1.links ≡ db.links)
unfolding Write.delete_version
version_only path version max_path now db = by_path (Validate.path path max_path) refl
  where
    by_path :
        (r : Result Bytes)
        → Validate.path path max_path ≡ r
        → ((Write.delete_version path version max_path now db).1.tags ≡ db.tags)
          × ((Write.delete_version path version max_path now db).1.links ≡ db.links)
    by_path (err e) h = rw h (refl, refl)
    by_path (ok q) h = rw h (ground arith, ground arith)

no_link_left :
    (path : Bytes) (max_path now : ℕ) (db : Db)
    → Validate.path path max_path ≡ ok path
    → (Write.delete path max_path now db).0 ≡ ok tt
    → exists_where (active_touching path) (Write.delete path max_path now db).1.links ≡ false
no_link_left path max_path now db valid done =
    elim (Bool-cases (exists_where (active_at path) db.documents)) [
      | inl e ↦
          rw (delete_lem path max_path now db valid, e)
            (exists_where-updated (active_touching path) (delete_link now) db.links
              (λ x k. ground arith))
      | inr e ↦ let no = (rw (delete_lem path max_path now db valid, e) at done) in cc
    ]

none_loses :
    (path : Bytes) (links : List Link)
    → exists_where (active_touching path) links ≡ false
    → exists_where (loses path) links ≡ false
unfolding exists_where
none_loses path [] h = refl
none_loses path (l ∷ links) h = ground (arith, none_loses path links)

module _ {Files : Type 0} (s : Service) (fs : Mirror Files) where
  -- what an action does to the events
  synced_events :
      (path : Bytes) (r : Result Document) (st : State Files)
      → (sync_remaining s fs path r st).1.events ≡ st.events
  synced_events path (ok doc) st = ground arith
  synced_events path (err e) st = ground arith

  removed_events :
      (path : Bytes) (st : State Files) → (sync_remove s fs path st).1.events ≡ st.events
  removed_events path st = ground arith

  fired :
      (s.has_context ≡ true)
      → (e : Event) (st : State Files) → (fire_event s e st).1.events ≡ st.events ++ e ∷ []
  fired context e st = rw context refl

  announced :
      (s.has_context ≡ true)
      → (path : Bytes) (version now : ℕ) (st : State Files)
      → (delete_version s fs path version now st).0 ≡ ok tt
      → (delete_version s fs path version now st).1.events
        ≡ st.events ++ document_delete path version ∷ []
  unfolding delete_version
  announced context path version now st done =
      let (u, _, done1, e1) =
        bind_ok (store (Write.delete_version path version s.max_path now)) _ st tt done in
      let st1 = (store (Write.delete_version path version s.max_path now) st).1 in
      let (v, _, _, e2) =
        bind_ok (sync_remaining s fs path (Read.latest st1.db path false))
          (λ _. fire_event s (document_delete path version)) st1 tt done1 in
      ap (λ st. st.events) (e1 ∙ e2)
      ∙ (fired context (document_delete path version)
            (sync_remaining s fs path (Read.latest st1.db path false) st1).1
          ∙ ap (λ es. es ++ document_delete path version ∷ [])
              (synced_events path (Read.latest st1.db path false) st1))

  announced_delete :
      (s.has_context ≡ true)
      → (path : Bytes) (now : ℕ) (st : State Files) → (delete s fs path now st).0 ≡ ok tt
      → ((Write.delete path s.max_path now st.db).0 ≡ ok tt)
        × ((delete s fs path now st).1.events ≡ st.events ++ document_delete path 0 ∷ [])
  unfolding delete
  announced_delete context path now st done =
      let (u, stored, done1, e1) =
        bind_ok (store (Write.delete path s.max_path now)) _ st tt done in
      let st1 = (store (Write.delete path s.max_path now) st).1 in
      let (v, _, _, e2) =
        bind_ok (sync_remove s fs path) (λ _. fire_event s (document_delete path 0)) st1 tt done1 in
      (
        stored,
        ap (λ st. st.events) (e1 ∙ e2)
            ∙ (fired context (document_delete path 0) (sync_remove s fs path st1).1
                ∙ ap (λ es. es ++ document_delete path 0 ∷ []) (removed_events path st1)),
      )

  -- If a service with extensions deletes a document without an error, by a path in normal form, its
  -- event finds nothing left to do: the database is as the store leaves it.
  pub handled-delete :
      (path : Bytes) (now later : ℕ) (st : State Files)
      → s.has_context ≡ true
      → Validate.path path s.max_path ≡ ok path
      → (handled (delete s fs path now) later st).0 ≡ ok tt
      → (handled (delete s fs path now) later st).1.db ≡ (Write.delete path s.max_path now st.db).1
  unfolding handled deliver handle_event Relations.delete_links_for_path delete_links_for_path
  handled-delete path now later st context valid done =
      let start = record st { events = [] } in
      let (stored, es) = announced_delete context path now start done in
      let db = (database-first s fs path path [] [] [] [] 0 now start).1 in
      let links =
        update-none (loses path) (delete_link later)
          (Write.delete path s.max_path now st.db).1.links
          (none_loses path _ (no_link_left path s.max_path now st.db valid stored)) in
      rw es
        (rw db (ap (λ ls. record (Write.delete path s.max_path now st.db).1 { links = ls }) links))

  -- If a service with extensions deletes one version of a document without an error, and its event
  -- is handled, the documents are as the store leaves them, and every active link with an end at the
  -- path is deleted, though other versions may be left; no tag and no other link changes.
  pub handled-delete_version :
      (path : Bytes) (version now later : ℕ) (st : State Files)
      → s.has_context ≡ true
      → (handled (delete_version s fs path version now) later st).0 ≡ ok tt
      → let after = (handled (delete_version s fs path version now) later st).1.db in
        (after.documents ≡ (Write.delete_version path version s.max_path now st.db).1.documents)
        × (after.tags ≡ st.db.tags)
        × (after.links ≡ update_where (loses path) (delete_link later) st.db.links)
  unfolding handled deliver handle_event Relations.delete_links_for_path delete_links_for_path
  handled-delete_version path version now later st context done =
      let start = record st { events = [] } in
      let es = announced context path version now start done in
      let db = (database-first s fs path path [] [] [] [] version now start).2 in
      let others = version_only path version s.max_path now st.db in
      rw es (
        ap (λ db. db.documents) db,
        ap (λ db. db.tags) db ∙ others.0,
        ap (λ db. update_where (loses path) (delete_link later) db.links) db
            ∙ ap (update_where (loses path) (delete_link later)) others.1,
      )
