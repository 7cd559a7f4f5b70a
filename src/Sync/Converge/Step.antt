-- ===== src/Sync/Converge/Step.antt =====
-- One write of a synchronisation: the files stay, and the map holds the text of the file.
use mathlib.Core.Path.{subst}
use llmd.Prelude.{
  ℕ, ◌≡◌, refl, sym, ap, ◌∙◌, Bool, true, false, [], Option, some, Bytes, str_eq, str_eq→eq,
  if◌then◌else◌, Result, ok, err, arith, Bool-cases, inl, inr,
}
use llmd.Path.{normalise}
use llmd.Validate
use llmd.Store.{Document, Db}
use llmd.Store.Read.{latest, list}
use llmd.Store.Write
use llmd.Store.Write.{WriteOptions}
use llmd.Store.Write.Versions.{write-version, write-history}
use llmd.Store.Invariant.{IsValid}
use llmd.Store.Invariant.Reach.{write-IsValid}
use llmd.Service.{Service, State, Event, ◌>>=◌, ◌>>◌, ask, of_result, store, sync_write, fire_event}
use llmd.Service.Inversion.{bind_ok}
use llmd.Service.Truth.{database-first}
use llmd.Service.Reported.{latest-history}
use llmd.Service.Write.{write, write_options}
use llmd.Sync.{Entries, read_file}
use llmd.Sync.Files.{mirror}
use llmd.Sync.Run.{stored_texts}
use llmd.Sync.Listed.{content_of, stored_texts-list}
use llmd.Sync.Same.{write_file-same}

-- the map of a synchronisation
unfoldable pub texts_of : Db → Bytes → Option Bytes
unfolding stored_texts list
texts_of db = stored_texts (list db [] false false)

valid_path :
    (p q : Bytes) (max_len : ℕ) → Validate.path p max_len ≡ ok q → normalise p ≡ ok p → q ≡ p
unfolding Validate.path
valid_path p q max_len h k = ground (arith, rw k at h)

valid_args :
    (p content : Bytes) (opts : WriteOptions) (key : Bytes) (now : ℕ) (db : Db)
    → (Write.write p content opts key now db).0 ≡ ok tt
    → (q : Bytes) × (Validate.path p opts.max_path ≡ ok q)
      × (Validate.content content opts.max_content ≡ ok tt)
unfolding Write.write
valid_args p content opts key now db h =
    from (Validate.path p opts.max_path) (Validate.content content opts.max_content) refl refl
  where
    from :
        (v : Result Bytes) (f : Result (Unit {0}))
        → Validate.path p opts.max_path ≡ v
        → Validate.content content opts.max_content ≡ f
        → (q : Bytes) × (Validate.path p opts.max_path ≡ ok q)
          × (Validate.content content opts.max_content ≡ ok tt)
    from (err e) f a b = let k = (rw a at h) in cc
    from (ok q) (err e) a b = let k = (rw (a, b) at h) in cc
    from (ok q) (ok u) a b = (q, a, b)

-- What is read at each path after a valid write.
latest_written :
    (p content : Bytes) (opts : WriteOptions) (key : Bytes) (now : ℕ) (db : Db)
    → Validate.path p opts.max_path ≡ ok p
    → Validate.content content opts.max_content ≡ ok tt
    → (q : Bytes) (same : Bool) → str_eq p q ≡ same
    → content_of (latest (Write.write p content opts key now db).1 q false)
      ≡ (if same then some content else content_of (latest db q false))
latest_written p content opts key now db valid fits q true e =
    ap (λ q. content_of (latest (Write.write p content opts key now db).1 q false))
      (sym (str_eq→eq p q e))
    ∙ ap content_of (write-version p content opts key now db valid fits p 0).0
latest_written p content opts key now db valid fits q false e =
    rw (latest-history, latest-history)
      (rw ((write-history p content opts key now db valid fits q false).1, e) refl)

-- the map after a write to the store that succeeds
texts_written :
    (p content : Bytes) (opts : WriteOptions) (key : Bytes) (now : ℕ) (db : Db)
    → normalise p ≡ ok p
    → IsValid db
    → (Write.write p content opts key now db).0 ≡ ok tt
    → (q : Bytes)
    → texts_of (Write.write p content opts key now db).1 q
      ≡ (if str_eq p q then some content else texts_of db q)
unfolding texts_of
texts_written p content opts key now db normal v h q =
    let (p', valid, fits) = valid_args p content opts key now db h in
    let same = valid_path p p' opts.max_path valid normal in
    stored_texts-list _ q ((write-IsValid p content opts key now).at db v)
    ∙ (latest_written p content opts key now db (valid ∙ ap ok same) fits q (str_eq p q) refl
        ∙ ap (λ t. if str_eq p q then some content else t) (sym (stored_texts-list db q v)))

module _ (s : Service) where
  announced_files :
      (r : Result Document) (f : Document → Event) (st : State Entries)
      → ((of_result r >>= λ d. fire_event s (f d)) st).1.files ≡ st.files
  announced_files (ok d) f st = ground arith
  announced_files (err e) f st = refl

  mirrored_files :
      (p content q : Bytes) (f : Document → Event) (st : State Entries)
      → read_file st.files p ≡ ok content
      → ((sync_write s mirror p content
            >> (ask (λ db. latest db q false) >>= λ d. fire_event s (f d)))
          st).1.files
        ≡ st.files
  unfolding mirror
  mirrored_files p content q f st h = elim (Bool-cases s.sync_files) [
    | inl e ↦
        rw (e, write_file-same p content st.files h) (announced_files (latest st.db q false) f _)
    | inr e ↦ rw e (announced_files (latest st.db q false) f st)
  ]

  files_kept :
      (w : Result (Unit {0}) × Db) (p content q : Bytes) (f : Document → Event) (st : State Entries)
      → read_file st.files p ≡ ok content
      → ((store (λ _. w)
            >> (sync_write s mirror p content
                >> (ask (λ db. latest db q false) >>= λ d. fire_event s (f d))))
          st).1.files
        ≡ st.files
  files_kept (err e, db) p content q f st h = refl
  files_kept (ok u, db) p content q f st h = mirrored_files p content q f (record st { db = db }) h

  -- The write of a file's own text, by a path in normal form.
  pub write_own :
      (p content author message key : Bytes) (now : ℕ) (st : State Entries)
      → normalise p ≡ ok p
      → IsValid st.db
      → read_file st.files p ≡ ok content
      → (write s mirror p content author message key now st).0 ≡ ok tt
      → ((write s mirror p content author message key now st).1.files ≡ st.files)
        × IsValid (write s mirror p content author message key now st).1.db
        × ((q : Bytes)
            → texts_of (write s mirror p content author message key now st).1.db q
              ≡ (if str_eq p q then some content else texts_of st.db q))
  unfolding write
  write_own p content author message key now st normal v h done =
      let wo = write_options s author message in
      let db = (database-first s mirror p p content author message key 0 now st).0 in
      let (u, stored, _, _) = bind_ok (store (Write.write p content wo key now)) _ st tt done in
      (
        files_kept (Write.write p content wo key now st.db) p content p _ st h,
        subst IsValid (sym db) ((write-IsValid p content wo key now).at st.db v),
        λ q.
            ap (λ db. texts_of db q) db
            ∙ texts_written p content wo key now st.db normal v stored q,
      )
