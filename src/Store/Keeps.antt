-- ===== src/Store/Keeps.antt =====
-- Properties of the database that an operation keeps, whether it succeeds or fails: one rule for
-- each way in which the store's operations are put together.
use llmd.Prelude.{Bool, true, false, if◌then◌else◌, Error, Result, ok, err}
use llmd.Store.{Db, Exec, raise, lift, query, tx, ◌>>=◌, ◌>>◌}

pub record Keeps {A : Type 0} (P : Db → Type 0) (m : Exec A) : Type 0 where
  pub at : (db : Db) → P db → P (m db).1

module _ {A : Type 0} (P : Db → Type 0) where
  pub Keeps-lift : (r : Result A) → Keeps P (lift r)
  Keeps-lift r = record { at = λ db h. h }

  pub Keeps-raise : (e : Error) → Keeps P (raise {A = A} e)
  Keeps-raise e = record { at = λ db h. h }

  pub Keeps-query : (f : Db → A) → Keeps P (query f)
  Keeps-query f = record { at = λ db h. h }

  pub Keeps-if : (b : Bool) (m n : Exec A) → Keeps P m → Keeps P n → Keeps P (if b then m else n)
  Keeps-if true m n km kn = km
  Keeps-if false m n km kn = kn

  tx_cases : (r : Result A) (db' db : Db) → P db' → P db → P (tx (λ _. (r, db')) db).1
  tx_cases (ok a) db' db h' h = h'
  tx_cases (err e) db' db h' h = h

  pub Keeps-tx : (m : Exec A) → Keeps P m → Keeps P (tx m)
  Keeps-tx m k = record { at = λ db h. tx_cases (m db).0 (m db).1 db (k.at db h) h }

module _ {A B : Type 0} (P : Db → Type 0) where
  bind_cases :
      (r : Result A) (db : Db) (f : A → Exec B)
      → ((a : A) → Keeps P (f a))
      → P db
      → P (◌>>=◌ (λ _. (r, db)) f db).1
  bind_cases (ok a) db f kf h = (kf a).at db h
  bind_cases (err e) db f kf h = h

  pub Keeps-bind :
      (m : Exec A) (f : A → Exec B) → Keeps P m → ((a : A) → Keeps P (f a)) → Keeps P (m >>= f)
  Keeps-bind m f km kf = record { at = λ db h. bind_cases (m db).0 (m db).1 f kf (km.at db h) }

  pub Keeps-then : (m : Exec A) (n : Exec B) → Keeps P m → Keeps P n → Keeps P (m >> n)
  Keeps-then m n km kn = Keeps-bind m (λ _. n) km (λ _. kn)

pub ruleset keeps_rules =
    (Keeps-lift, Keeps-raise, Keeps-query, Keeps-if, Keeps-tx, Keeps-bind, Keeps-then)
