-- ===== src/Extension/Truth.antt =====
-- What the handlers of events may add to what the service does to the database.
use llmd.Prelude.{
  ℕ, ◌≡◌, refl, ap, ◌∙◌, Bool, true, false, List, [], ◌∷◌, ◌++◌, All, append-All, Bytes,
  if◌then◌else◌, Result, ok, err,
}
use llmd.Store.{Db, Exec}
use llmd.Store.Links.{delete_links_for_path}
use llmd.Store.Write
use llmd.Store.Move
use llmd.Service.{
  Service, Mirror, State, Action, Event, ◌>>=◌, ◌>>◌, store, return, ask, mirror, fire_event,
  document_write, document_delete, document_restore, tag_event, link_event,
}
use llmd.Service.Links as Relations
use llmd.Service.Truth.{database-first}
use llmd.Service.Write.{write, write_options, delete, delete_version, restore}
use llmd.Service.Move.{move, copy}
use llmd.Extension.{handle_event, deliver, handled}

abbrev pub is_deletion : Event → Bool
is_deletion (document_delete _ _) = true
is_deletion (document_write _ _ _ _ _) = false
is_deletion (document_restore _ _) = false
is_deletion (tag_event _ _ _ _) = false
is_deletion (link_event _ _ _ _ _) = false

-- no event of a deletion
abbrev IsQuiet : List Event → Type 0
IsQuiet = All (λ e. is_deletion e ≡ false)

-- an action that fires no event of a deletion
record Quiet {Files A : Type 0} (m : Action Files A) : Type 0 where
  at : (st : State Files) → IsQuiet st.events → IsQuiet (m st).1.events

module _ {Files : Type 0} where
  Quiet-return : {A : Type 0} (a : A) → Quiet (return {Files = Files} a)
  Quiet-return a = record { at = λ st h. h }

  Quiet-ask : {A : Type 0} (f : Db → Result A) → Quiet (ask {Files = Files} f)
  Quiet-ask f = record { at = λ st h. h }

  Quiet-store : {A : Type 0} (m : Exec A) → Quiet (store {Files = Files} m)
  Quiet-store m = record { at = λ st h. h }

  Quiet-mirror : (f : Files → Result (Unit {0}) × Files) → Quiet (mirror f)
  Quiet-mirror f = record { at = λ st h. h }

  fired :
      (context : Bool) (e : Event) (st : State Files)
      → is_deletion e ≡ false
      → IsQuiet st.events
      → IsQuiet (if context then record st { events = st.events ++ e ∷ [] } else st).events
  fired true e st q h = append-All _ st.events (e ∷ []) h (q, tt)
  fired false e st q h = h

  Quiet-write :
      (s : Service) (path : Bytes) (version : ℕ) (author message content : Bytes)
      → Quiet (fire_event {Files = Files} s (document_write path version author message content))
  Quiet-write s path version author message content = record {
    at = λ st h. fired s.has_context _ st refl h;
  }

  Quiet-restore :
      (s : Service) (path : Bytes) (version : ℕ)
      → Quiet (fire_event {Files = Files} s (document_restore path version))
  Quiet-restore s path version = record { at = λ st h. fired s.has_context _ st refl h }

  Quiet-if :
      {A : Type 0} (b : Bool) (m n : Action Files A)
      → Quiet m
      → Quiet n
      → Quiet (if b then m else n)
  Quiet-if true m n k h = k
  Quiet-if false m n k h = h

  after_quiet :
      {A B : Type 0} (x : Result A × State Files) (f : A → Action Files B)
      → ((a : A) → Quiet (f a))
      → IsQuiet x.1.events
      → IsQuiet (◌>>=◌ (λ _. x) f x.1).1.events
  after_quiet (ok a, st) f h q = (h a).at st q
  after_quiet (err e, st) f h q = q

  Quiet-bind :
      {A B : Type 0} (m : Action Files A) (f : A → Action Files B)
      → Quiet m
      → ((a : A) → Quiet (f a))
      → Quiet (m >>= f)
  Quiet-bind m f k h = record { at = λ st q. after_quiet (m st) f h (k.at st q) }

  Quiet-then :
      {A B : Type 0} (m : Action Files A) (n : Action Files B) → Quiet m → Quiet n → Quiet (m >> n)
  Quiet-then m n k h = Quiet-bind m (λ _. n) k (λ _. h)

  quiet_event :
      (e : Event) (now : ℕ) (st : State Files)
      → is_deletion e ≡ false
      → (handle_event now e st).1 ≡ st
  unfolding handle_event
  quiet_event (document_write _ _ _ _ _) now st q = refl
  quiet_event (document_delete _ _) now st q = cc
  quiet_event (document_restore _ _) now st q = refl
  quiet_event (tag_event _ _ _ _) now st q = refl
  quiet_event (link_event _ _ _ _ _) now st q = refl

  quiet_deliver :
      (es : List Event) (now : ℕ) (st : State Files) → IsQuiet es → (deliver now es st).1.db ≡ st.db
  unfolding deliver
  quiet_deliver [] now st q = refl
  quiet_deliver (e ∷ es) now st q = rw (quiet_event e now st q.0) (quiet_deliver es now st q.1)

  -- What a handler leaves alone, whatever the event.
  event_kept :
      (e : Event) (now : ℕ) (st : State Files)
      → ((handle_event now e st).1.db.documents ≡ st.db.documents)
        × ((handle_event now e st).1.db.tags ≡ st.db.tags)
  unfolding handle_event Relations.delete_links_for_path delete_links_for_path
  event_kept (document_write _ _ _ _ _) now st = (refl, refl)
  event_kept (document_delete _ _) now st = (refl, refl)
  event_kept (document_restore _ _) now st = (refl, refl)
  event_kept (tag_event _ _ _ _) now st = (refl, refl)
  event_kept (link_event _ _ _ _ _) now st = (refl, refl)

  deliver_kept :
      (es : List Event) (now : ℕ) (st : State Files)
      → ((deliver now es st).1.db.documents ≡ st.db.documents)
        × ((deliver now es st).1.db.tags ≡ st.db.tags)
  unfolding deliver
  deliver_kept [] now st = (refl, refl)
  deliver_kept (e ∷ es) now st =
      let (d, t) = event_kept e now st in
      let (ds, ts) = deliver_kept es now (handle_event now e st).1 in (ds ∙ d, ts ∙ t)

  -- The two rules for an action with its events handled.
  handled-Quiet :
      {A : Type 0} (m : Action Files A) (later : ℕ) (st : State Files)
      → Quiet m
      → (handled m later st).1.db ≡ (m (record st { events = [] })).1.db
  unfolding handled
  handled-Quiet m later st q =
      quiet_deliver _ later (m (record st { events = [] })).1 (q.at (record st { events = [] }) tt)

  handled_kept :
      {A : Type 0} (m : Action Files A) (later : ℕ) (st : State Files)
      → ((handled m later st).1.db.documents ≡ (m (record st { events = [] })).1.db.documents)
        × ((handled m later st).1.db.tags ≡ (m (record st { events = [] })).1.db.tags)
  unfolding handled
  handled_kept m later st =
      let after = (m (record st { events = [] })).1 in deliver_kept after.events later after

ruleset quiet_rules = (
  Quiet-return, Quiet-ask, Quiet-store, Quiet-mirror, Quiet-write, Quiet-restore, Quiet-if,
  Quiet-bind, Quiet-then,
)

module _ {Files : Type 0} (s : Service) (fs : Mirror Files) where
  write-Quiet :
      (p content author message key : Bytes) (now : ℕ)
      → Quiet (write s fs p content author message key now)
  unfolding write
  write-Quiet p content author message key now = search quiet_rules depth 12

  restore-Quiet : (p : Bytes) → Quiet (restore s fs p)
  unfolding restore
  restore-Quiet p = search quiet_rules depth 12

  move-Quiet : (p q : Bytes) → Quiet (move s fs p q)
  unfolding move
  move-Quiet p q = search quiet_rules depth 12

  copy-Quiet : (p q copier key : Bytes) (now : ℕ) → Quiet (copy s fs p q copier key now)
  unfolding copy
  copy-Quiet p q copier key now = search quiet_rules depth 12

  -- Whatever the mirror does, failures included, and with the events handled: a write, a restoring,
  -- a move and a copy of the service leave the database as the operation of the store does, and the
  -- two deletions leave its documents and tags as the operation of the store does.
  pub handled-database :
      (p q content author message key : Bytes) (version now later : ℕ) (st : State Files)
      → ((handled (write s fs p content author message key now) later st).1.db
          ≡ (Write.write p content (write_options s author message) key now st.db).1)
        × ((handled (restore s fs p) later st).1.db ≡ (Write.restore p s.max_path st.db).1)
        × ((handled (move s fs p q) later st).1.db ≡ (Move.move p q s.max_path st.db).1)
        × ((handled (copy s fs p q author key now) later st).1.db
            ≡ (Move.copy p q author s.max_path key now st.db).1)
        × ((handled (delete s fs p now) later st).1.db.documents
            ≡ (Write.delete p s.max_path now st.db).1.documents)
        × ((handled (delete s fs p now) later st).1.db.tags
            ≡ (Write.delete p s.max_path now st.db).1.tags)
        × ((handled (delete_version s fs p version now) later st).1.db.documents
            ≡ (Write.delete_version p version s.max_path now st.db).1.documents)
        × ((handled (delete_version s fs p version now) later st).1.db.tags
            ≡ (Write.delete_version p version s.max_path now st.db).1.tags)
  handled-database p q content author message key version now later st =
      let start = record st { events = [] } in
      let (w, d, v, r, m, c) =
        database-first s fs p q content author message key version now start in
      let (docs, tags) = handled_kept (delete s fs p now) later st in
      let (docs', tags') = handled_kept (delete_version s fs p version now) later st in
      (
        handled-Quiet _ later st (write-Quiet p content author message key now) ∙ w,
        handled-Quiet _ later st (restore-Quiet p) ∙ r,
        handled-Quiet _ later st (move-Quiet p q) ∙ m,
        handled-Quiet _ later st (copy-Quiet p q author key now) ∙ c,
        docs ∙ ap (λ db. db.documents) d,
        tags ∙ ap (λ db. db.tags) d,
        docs' ∙ ap (λ db. db.documents) v,
        tags' ∙ ap (λ db. db.tags) v,
      )
