-- ===== src/Service/Reported.antt =====
-- What `Service.Write` reports. It looks the document up again by the path as it was given.
use llmd.Prelude.{
  ℕ, ◌≡◌, refl, sym, ◌∙◌, ap, inl, inr, Bool, true, false, [], ◌∷◌, ◌++◌, first, Bytes, str_eq,
  str_eq→eq, if◌then◌else◌, Result, ok, err, Bool-cases,
}
use llmd.Validate
use llmd.Store.{Document, Db, or_not_found}
use llmd.Store.Read.{latest, history}
use llmd.Store.Write
use llmd.Store.Write.Versions.{write_lem, write-version, write-history, written}
use llmd.Service.{
  Service, Mirror, State, ◌>>=◌, ◌>>◌, ask, sync_write, fire_event, Event, of_result,
}
use llmd.Service.Truth.{database-first}
use llmd.Service.Write.{write, write_options}

pub latest-history :
    (db : Db) (p : Bytes) (inc : Bool) → latest db p inc ≡ or_not_found (first (history db p 0 inc))
unfolding latest history
latest-history db p inc = refl

-- the error of a lookup, and no value
abbrev pub found : Result Document → Result (Unit {0})
found (ok d) = ok tt
found (err e) = err e

module _ {Files : Type 0} (s : Service) (fs : Mirror Files) where
  announced :
      (r : Result Document) (f : Document → Event) (st : State Files)
      → ((of_result r >>= λ d. fire_event s (f d)) st).0 ≡ found r
  announced (ok d) f st = refl
  announced (err e) f st = refl

  -- The steps of an operation after its change of the database, if the mirror does its part.
  then_announced :
      (p content q : Bytes) (f : Document → Event) (st : State Files)
      → (fs.write_file p content st.files).0 ≡ ok tt
      → ((sync_write s fs p content >> (ask (λ db. latest db q false) >>= λ d. fire_event s (f d)))
          st).0
        ≡ found (latest st.db q false)
  then_announced p content q f st h = elim (Bool-cases s.sync_files) [
    | inl e ↦ rw (e, h) (announced (latest st.db q false) f _)
    | inr e ↦ rw e (announced (latest st.db q false) f st)
  ]

  module _ (p content author message key : Bytes) (now : ℕ) (st : State Files) {path : Bytes}
      (valid : Validate.path p s.max_path ≡ ok path)
      (fits : Validate.content content s.max_content ≡ ok tt)
      (mirrored : (fs.write_file p content st.files).0 ≡ ok tt) where
    abbrev after : Db
    after = (Write.write p content (write_options s author message) key now st.db).1

    -- the lookup after the write
    latest-after :
        (same : Bool)
        → str_eq path p ≡ same
        → found (latest after p false) ≡ (if same then ok tt else found (latest st.db p false))
    latest-after true e =
        ap (λ q. found (latest after q false)) (sym (str_eq→eq path p e))
        ∙ ap found
            (write-version p content (write_options s author message) key now st.db valid fits path
              0).0
    latest-after false e =
        rw (latest-history, latest-history)
          (rw
            (
              (write-history p content (write_options s author message) key now st.db valid fits p
                  false).1,
              e,
            )
            refl)

    -- A valid write always adds its version. It reports success if the path was given in normal
    -- form; otherwise it reports what a lookup of the path as given finds, which is an error
    -- unless a document of that very path was there before.
    pub write-reported :
        ((write s fs p content author message key now st).0
          ≡ (if str_eq path p then ok tt else found (latest st.db p false)))
        × ((write s fs p content author message key now st).1.db.documents
            ≡ st.db.documents
              ++ written path content (write_options s author message) key now st.db ∷ [])
    unfolding write
    write-reported = (
      rw (write_lem p content (write_options s author message) key now st.db valid fits)
            (then_announced p content p _ _ mirrored)
          ∙ (ap (λ d. found (latest d p false))
                (sym (
                  ap (λ r. r.1)
                    (write_lem p content (write_options s author message) key now st.db valid
                      fits)))
              ∙ latest-after (str_eq path p) refl),
      ap (λ d. d.documents) (database-first s fs p p content author message key 0 now st).0
          ∙ ap (λ r. r.1.documents)
              (write_lem p content (write_options s author message) key now st.db valid fits),
    )
