-- ===== src/Service.antt =====
-- internal/document: the service that the commands call. It works on the store, keeps a mirror of
-- the documents as files, and tells the extensions what happened.
pub mod Read
pub mod Write
pub mod Edit
pub mod Move
pub mod Tags
pub mod Links
pub mod Truth
pub mod Unlinked
pub mod Compare
pub mod Changed
pub mod Reported
pub mod Meta
pub mod Inversion
use llmd.Prelude.{
  ℕ, Bool, List, [], ◌∷◌, ◌++◌, Bytes, codes, if◌then◌else◌, Error, Result, ok, err, is_empty,
}
use llmd.Store.{Db, Exec}

-- The settings of a Service. `has_context` is `extCtx != nil`.
pub record Service : Type 0 where
  pub sync_files : Bool
  pub max_path : ℕ
  pub max_content : ℕ
  pub has_context : Bool

-- The files of the mirror, as internal/sync changes them: an operation may fail, and may leave
-- anything behind when it does.
pub record Mirror (Files : Type 0) : Type 0 where
  pub write_file : Bytes → Bytes → Files → Result (Unit {0}) × Files
  pub remove_file : Bytes → Files → Result (Unit {0}) × Files
  pub move_file : Bytes → Bytes → Files → Result (Unit {0}) × Files

pub data Event : Type 0 where
  document_write : (path : Bytes) (version : ℕ) (author message content : Bytes) → Event
  document_delete : (path : Bytes) (version : ℕ) → Event
  document_restore : (path : Bytes) (version : ℕ) → Event
  tag_event : (path tag source : Bytes) (added : Bool) → Event
  link_event : (id from to tag : Bytes) (created : Bool) → Event

-- The database, the mirror, and the events that the extensions were given, the last one last.
pub record State (Files : Type 0) : Type 0 where
  pub db : Db
  pub files : Files
  pub events : List Event

abbrev pub Action : Type 0 → Type 0 → Type 0
Action Files A = State Files → Result A × State Files

module _ {Files : Type 0} where
  abbrev pub return : {A : Type 0} → A → Action Files A
  return a st = (ok a, st)

  abbrev pub fail : {A : Type 0} → Error → Action Files A
  fail e st = (err e, st)

  abbrev pub of_result : {A : Type 0} → Result A → Action Files A
  of_result r st = (r, st)

  abbrev and_then :
      {A B : Type 0} → Result A × State Files → (A → Action Files B) → Result B × State Files
  and_then (ok a, st) f = f a st
  and_then (err e, st) f = (err e, st)

  infixl 5 ◌>>=◌ ◌>>◌
  abbrev pub ◌>>=◌ : {A B : Type 0} → Action Files A → (A → Action Files B) → Action Files B
  ◌>>=◌ m f st = and_then (m st) f

  abbrev pub ◌>>◌ : {A B : Type 0} → Action Files A → Action Files B → Action Files B
  m >> n = m >>= λ _. n

  -- the result of an action, and its error as a value
  abbrev catch_result : {A : Type 0} → Result A × State Files → Result (Result A) × State Files
  catch_result (r, st) = (ok r, st)

  abbrev pub catch : {A : Type 0} → Action Files A → Action Files (Result A)
  catch m st = catch_result (m st)

  abbrev with_db : {A : Type 0} → Result A × Db → State Files → Result A × State Files
  with_db (r, db) st = (r, record st { db = db })

  -- a method of the store
  abbrev pub store : {A : Type 0} → Exec A → Action Files A
  store m st = with_db (m st.db) st

  -- a query of the store
  abbrev pub ask : {A : Type 0} → (Db → Result A) → Action Files A
  ask f st = (f st.db, st)

  abbrev pub fetch : {A : Type 0} → (Db → A) → Action Files A
  fetch f st = (ok (f st.db), st)

  abbrev with_files : Result (Unit {0}) × Files → State Files → Result (Unit {0}) × State Files
  with_files (r, files) st = (r, record st { files = files })

  abbrev pub mirror : (Files → Result (Unit {0}) × Files) → Action Files (Unit {0})
  mirror f st = with_files (f st.files) st

  abbrev pub sync_write : Service → Mirror Files → Bytes → Bytes → Action Files (Unit {0})
  sync_write s fs path content =
      if s.sync_files then mirror (fs.write_file path content) else return tt

  abbrev pub sync_remove : Service → Mirror Files → Bytes → Action Files (Unit {0})
  sync_remove s fs path = if s.sync_files then mirror (fs.remove_file path) else return tt

  abbrev pub sync_move : Service → Mirror Files → Bytes → Bytes → Action Files (Unit {0})
  sync_move s fs src dst = if s.sync_files then mirror (fs.move_file src dst) else return tt

  -- What the handlers do with it is in Extension; their errors do not come back.
  abbrev pub fire_event : Service → Event → Action Files (Unit {0})
  fire_event s e st =
      (ok tt, if s.has_context then record st { events = st.events ++ e ∷ [] } else st)

-- the author of a version if none is given
abbrev pub author_or_default : Bytes → Bytes
author_or_default author = if is_empty author then codes "unknown" else author
