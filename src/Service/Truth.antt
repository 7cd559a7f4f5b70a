-- ===== src/Service/Truth.antt =====
-- The database is the source of truth: what the service itself does to it does not depend on the
-- mirror. What the handlers of its events add is in Extension/Truth.
use llmd.Prelude.{
  ℕ, Error, ◌≡◌, refl, ◌∙◌, Bool, true, false, Bytes, if◌then◌else◌, Result, ok, err, arith,
}
use llmd.Store.{Document, Db, Exec}
use llmd.Store.Write
use llmd.Store.Move
use llmd.Service.{
  Service, Mirror, State, Action, Event, ◌>>=◌, ◌>>◌, store, fail, return, ask, catch, mirror,
  fire_event,
}
use llmd.Service.Write.{write, write_options, delete, delete_version, restore, sync_remaining}
use llmd.Service.Move.{move, copy}

-- an action that leaves the database alone
record Leaves {Files A : Type 0} (m : Action Files A) : Type 0 where
  at : (st : State Files) → (m st).1.db ≡ st.db

module _ {Files : Type 0} where
  Leaves-fail : {A : Type 0} (e : Error) → Leaves (fail {Files = Files} {A = A} e)
  Leaves-fail e = record { at = λ st. refl }

  Leaves-return : {A : Type 0} (a : A) → Leaves (return {Files = Files} a)
  Leaves-return a = record { at = λ st. refl }

  Leaves-ask : {A : Type 0} (f : Db → Result A) → Leaves (ask {Files = Files} f)
  Leaves-ask f = record { at = λ st. refl }

  Leaves-catch : {A : Type 0} (m : Action Files A) → Leaves m → Leaves (catch m)
  Leaves-catch m k = record { at = λ st. k.at st }

  Leaves-mirror : (f : Files → Result (Unit {0}) × Files) → Leaves (mirror f)
  Leaves-mirror f = record { at = λ st. refl }

  Leaves-fire_event : (s : Service) (e : Event) → Leaves (fire_event {Files = Files} s e)
  Leaves-fire_event s e = record { at = λ st. ground arith }

  Leaves-if :
      {A : Type 0} (b : Bool) (m n : Action Files A)
      → Leaves m
      → Leaves n
      → Leaves (if b then m else n)
  Leaves-if true m n k h = k
  Leaves-if false m n k h = h

  after_leaving :
      {A B : Type 0} (x : Result A × State Files) (f : A → Action Files B)
      → ((a : A) → Leaves (f a))
      → (◌>>=◌ (λ _. x) f x.1).1.db ≡ x.1.db
  after_leaving (ok a, st) f h = (h a).at st
  after_leaving (err e, st) f h = refl

  Leaves-bind :
      {A B : Type 0} (m : Action Files A) (f : A → Action Files B)
      → Leaves m
      → ((a : A) → Leaves (f a))
      → Leaves (m >>= f)
  Leaves-bind m f k h = record { at = λ st. after_leaving (m st) f h ∙ k.at st }

  Leaves-then :
      {A B : Type 0} (m : Action Files A) (n : Action Files B)
      → Leaves m
      → Leaves n
      → Leaves (m >> n)
  Leaves-then m n k h = Leaves-bind m (λ _. n) k (λ _. h)

-- an action that does to the database what a method of the store does
record Follows {Files A B : Type 0} (m : Action Files A) (n : Exec B) : Type 0 where
  at : (st : State Files) → (m st).1.db ≡ (n st.db).1

module _ {Files A B : Type 0} where
  Follows-bind :
      (n : Exec A) (f : A → Action Files B) → ((a : A) → Leaves (f a)) → Follows (store n >>= f) n
  Follows-bind n f h = record { at = λ st. after_leaving (store n st) f h }

  Follows-then : (n : Exec A) (m : Action Files B) → Leaves m → Follows (store n >> m) n
  Follows-then n m h = Follows-bind n (λ _. m) (λ _. h)

ruleset leaves_rules = (
  Leaves-fail, Leaves-return, Leaves-ask, Leaves-catch, Leaves-mirror, Leaves-fire_event, Leaves-if,
  Leaves-bind, Leaves-then, Follows-bind, Follows-then,
)

module _ {Files : Type 0} (s : Service) (fs : Mirror Files) where
  Leaves-sync_remaining : (path : Bytes) (r : Result Document) → Leaves (sync_remaining s fs path r)
  Leaves-sync_remaining path (ok doc) = search leaves_rules
  Leaves-sync_remaining path (err e) = search leaves_rules

  write-Follows :
      (p content author message key : Bytes) (now : ℕ)
      → Follows
          (write s fs p content author message key now)
          (Write.write p content (write_options s author message) key now)
  unfolding write
  write-Follows p content author message key now = search leaves_rules depth 12

  delete-Follows :
      (p : Bytes) (now : ℕ) → Follows (delete s fs p now) (Write.delete p s.max_path now)
  unfolding delete
  delete-Follows p now = search leaves_rules depth 12

  delete_version-Follows :
      (p : Bytes) (version now : ℕ)
      → Follows (delete_version s fs p version now) (Write.delete_version p version s.max_path now)
  unfolding delete_version
  delete_version-Follows p version now = search (leaves_rules, Leaves-sync_remaining) depth 12

  restore-Follows : (p : Bytes) → Follows (restore s fs p) (Write.restore p s.max_path)
  unfolding restore
  restore-Follows p = search leaves_rules depth 12

  move-Follows : (p q : Bytes) → Follows (move s fs p q) (Move.move p q s.max_path)
  unfolding move
  move-Follows p q = search leaves_rules depth 12

  copy-Follows :
      (p q copier key : Bytes) (now : ℕ)
      → Follows (copy s fs p q copier key now) (Move.copy p q copier s.max_path key now)
  unfolding copy
  copy-Follows p q copier key now = search leaves_rules depth 12

  -- Whatever the mirror does, an operation on documents, before its events are handled, leaves the
  -- database as the store's own operation does. Nothing is rolled back if the mirror fails.
  pub database-first :
      (p q content author message key : Bytes) (version now : ℕ) (st : State Files)
      → ((write s fs p content author message key now st).1.db
          ≡ (Write.write p content (write_options s author message) key now st.db).1)
        × ((delete s fs p now st).1.db ≡ (Write.delete p s.max_path now st.db).1)
        × ((delete_version s fs p version now st).1.db
            ≡ (Write.delete_version p version s.max_path now st.db).1)
        × ((restore s fs p st).1.db ≡ (Write.restore p s.max_path st.db).1)
        × ((move s fs p q st).1.db ≡ (Move.move p q s.max_path st.db).1)
        × ((copy s fs p q author key now st).1.db
            ≡ (Move.copy p q author s.max_path key now st.db).1)
  database-first p q content author message key version now st = (
    (write-Follows p content author message key now).at st,
    (delete-Follows p now).at st,
    (delete_version-Follows p version now).at st,
    (restore-Follows p).at st,
    (move-Follows p q).at st,
    (copy-Follows p q author key now).at st,
  )
