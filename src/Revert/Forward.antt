-- ===== src/Revert/Forward.antt =====
-- A revert moves forward: the old content becomes the next version.
use llmd.Prelude.{
  ℕ, ◌+◌, ◌≡◌, refl, ◌∙◌, ap, Bool, true, false, ◌∷◌, Bytes, str_eq_refl, Result, ok, err,
}
use llmd.Path.{normalise}
use llmd.Validate
use llmd.Store.{Document}
use llmd.Store.Read.{is_active, history}
use llmd.Store.Write
use llmd.Store.Write.{max_version}
use llmd.Store.Write.Versions.{write-version, write-history, written}
use llmd.Service.{Service, Mirror, State, Action, ◌>>=◌}
use llmd.Service.Read.{latest}
use llmd.Service.Write.{write, write_options}
use llmd.Service.Truth.{database-first}
use llmd.Service.Reported.{write-reported}
use llmd.Revert.{Options, Reverted, target_version, message_for, run}

ok-inj : {A : Type 0} (b a : A) → ok b ≡ ok a → b ≡ a
ok-inj b a h = cc

module _ {Files A B : Type 0} where
  after_ok :
      (x : Result A × State Files) (f : A → Action Files B) (a : A)
      → x.0 ≡ ok a
      → ((λ _. x) >>= f) x.1 ≡ f a x.1
  after_ok (ok b, st) f a h = ap (λ c. f c st) (ok-inj b a h)
  after_ok (err e, st) f a h = cc

module _ {Files : Type 0} (s : Service) (fs : Mirror Files) (target : Bytes) (ver : ℕ)
    (opts : Options) (key : Bytes) (now : ℕ) (st : State Files) (d current : Document)
    (used_key : Bool) (found : target_version st.db target ver opts.key ≡ ok (d, used_key))
    (there : latest st.db d.path true ≡ ok current) (active : is_active current ≡ true)
    (normal : normalise d.path ≡ ok d.path) (valid : Validate.path d.path s.max_path ≡ ok d.path)
    (fits : Validate.content d.content s.max_content ≡ ok tt)
    (mirrored : (fs.write_file d.path d.content st.files).0 ≡ ok tt) where
  abbrev pub message : Bytes
  message = message_for opts.message target used_key d.version

  abbrev pub new_version : Document
  new_version = written d.path d.content (write_options s opts.author message) key now st.db

  abbrev pub report : Reverted
  report = record {
    path = d.path;
    reverted_to = d.version;
    new_version = max_version d.path st.db + 1;
    key = d.key;
    author = opts.author;
    message = message;
  }

  abbrev after_write : State Files
  after_write = (write s fs d.path d.content opts.author message key now st).1

  db_eq :
      after_write.db
      ≡ (Write.write d.path d.content (write_options s opts.author message) key now st.db).1
  db_eq = (database-first s fs d.path d.path d.content opts.author message key 0 now st).0

  write_ok : (write s fs d.path d.content opts.author message key now st).0 ≡ ok tt
  write_ok =
      (write-reported s fs d.path d.content opts.author message key now st valid fits mirrored).0
      ∙ rw (str_eq_refl d.path) refl

  latest-write : latest after_write.db d.path false ≡ ok new_version
  unfolding latest
  latest-write =
      rw (normal, db_eq)
        (write-version d.path d.content (write_options s opts.author message) key now st.db valid
          fits d.path 0).0

  run_lem : run s fs target ver opts key now st ≡ (ok report, after_write)
  unfolding run
  run_lem =
      rw (found, there, active)
        (after_ok (write s fs d.path d.content opts.author message key now st) _ tt write_ok
          ∙ after_ok (latest after_write.db d.path false, after_write) _ new_version latest-write)

  -- A revert to a version that is found, of a document whose latest version is not deleted, succeeds
  -- if the path of the document is its own normal form, path and content are within the limits, and
  -- the mirror takes the file. It reports the version that was meant and the new one, which is the
  -- next, has the old content and stands in front of the history, in which everything else stays.
  pub run-history :
      ((run s fs target ver opts key now st).0 ≡ ok report)
      × (history (run s fs target ver opts key now st).1.db d.path 0 true
          ≡ new_version ∷ history st.db d.path 0 true)
  run-history = (
    ap (λ r. r.0) run_lem,
    ap (λ r. history r.1.db d.path 0 true) run_lem
        ∙ (ap (λ db. history db d.path 0 true) db_eq
            ∙ ((write-history d.path d.content (write_options s opts.author message) key now st.db
                  valid fits d.path true).1
                ∙ rw (str_eq_refl d.path) refl)),
  )
