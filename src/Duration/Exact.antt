-- ===== src/Duration/Exact.antt =====
-- Which durations are exact.
use llmd.Prelude.{
  ℕ, ◌*◌, ◌%◌, ◌^◌, ◌<◌, ◌≡◌, refl, ap, ◌∙◌, true, false, [], ◌∷◌, ◌++◌, Bytes, some, inl, inr,
  Bool-cases, All, ltb, arith, if◌then◌else◌, ok,
}
use llmd.Text.Numbers.{pos, is_digit, itoa}
use llmd.Text.Numbers.Printed.{atoi-itoa, itoa-ne, itoa-All}
use llmd.Duration.{hour, days, wrap, span_digits, parse}

span_digits-append :
    (s : Bytes) (unit : ℕ)
    → All (λ c. is_digit c ≡ true) s
    → is_digit unit ≡ false
    → span_digits (s ++ unit ∷ []) ≡ (s, unit ∷ [])
unfolding span_digits
span_digits-append [] unit h k = rw k refl
span_digits-append (c ∷ s) unit h k = rw (h.0, span_digits-append s unit h.1 k) refl

wrap-exact : (n : ℕ) → n < 2 ^ 63 → wrap n ≡ pos n
wrap-exact n h = rw small (rw in_range refl)
  where
    small : n % 2 ^ 64 ≡ n
    small = omega arith

    in_range : ltb n (2 ^ 63) ≡ true
    in_range = ground arith

no_digit : (unit d : ℕ) → days unit ≡ some d → is_digit unit ≡ false
no_digit unit d h = ground arith

wrap-if : (n : ℕ) → wrap n ≡ (if ltb n (2 ^ 63) then pos n else wrap n)
wrap-if n = elim (Bool-cases (ltb n (2 ^ 63))) [
  | inl e ↦ wrap-exact n (ground arith) ∙ rw e refl
  | inr e ↦ rw e refl
]

-- A count of days, weeks or months that is printed is read as the product, exactly if that is below
-- 2^63 nanoseconds, and otherwise as the last 64 bits of it, which may be negative.
pub parse-itoa :
    (n unit d : ℕ)
    → n < 2 ^ 63
    → days unit ≡ some d
    → parse (itoa n ++ unit ∷ [])
      ≡ ok (
          if ltb (n * d * 24 * hour) (2 ^ 63)
          then pos (n * d * 24 * hour)
          else wrap (n * d * 24 * hour))
unfolding parse
parse-itoa n unit d h k =
    rw
      (
        span_digits-append (itoa n) unit (itoa-All n) (no_digit unit d k),
        itoa-ne n,
        k,
        atoi-itoa n h,
      )
      (ap ok (wrap-if (n * d * 24 * hour)))
