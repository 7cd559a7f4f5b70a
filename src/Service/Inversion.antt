-- ===== src/Service/Inversion.antt =====
-- What a sequence of actions that succeeds went through.
use llmd.Prelude.{Result, ok, err, ◌≡◌, refl}
use llmd.Service.{State, Action, ◌>>=◌}

module _ {Files A B : Type 0} where
  abbrev Passed : Result A × State Files → (A → Action Files B) → B → Type 0
  Passed x f b =
      (a : A) × (x.0 ≡ ok a) × ((f a x.1).0 ≡ ok b) × ((◌>>=◌ (λ _. x) f x.1).1 ≡ (f a x.1).1)

  passed :
      (x : Result A × State Files) (f : A → Action Files B) (b : B)
      → (◌>>=◌ (λ _. x) f x.1).0 ≡ ok b
      → Passed x f b
  passed (ok a, st) f b h = (a, refl, h, refl)
  passed (err e, st) f b h = cc

  -- Inversion of a sequence that succeeds.
  pub bind_ok :
      (m : Action Files A) (f : A → Action Files B) (st : State Files) (b : B)
      → ((m >>= f) st).0 ≡ ok b
      → (a : A) × ((m st).0 ≡ ok a)
        × ((f a (m st).1).0 ≡ ok b)
        × (((m >>= f) st).1 ≡ (f a (m st).1).1)
  bind_ok m f st b h = passed (m st) f b h
