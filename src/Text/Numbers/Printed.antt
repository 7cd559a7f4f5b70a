-- ===== src/Text/Numbers/Printed.antt =====
-- A number that was printed is read back.
use llmd.Prelude.{
  All, is_empty, ℕ, zero, suc, ◌+◌, ◌*◌, ◌/◌, ◌%◌, ◌^◌, ◌<◌, ◌≡◌, refl, ap, ◌∙◌, Bool, true, false,
  [], ◌∷◌, ◌++◌, Bytes, some, arith, ltb, ◌==◌, ok, inl, inr, Bool-cases,
}
use llmd.Text.{split}
use llmd.Text.Split.{IsFree, split-free, split-append}
use llmd.Text.Numbers.{pos, is_digit, digits, in_range, atoi, decimal, itoa}

is_digit-decimal : (r : ℕ) → r < 10 → is_digit (48 + r) ≡ true
is_digit-decimal r h = ground arith

next_digit :
    (n q r : ℕ) (rest : Bytes)
    → r < 10
    → q * 10 + r ≡ n
    → digits q ((48 + r) ∷ rest) ≡ digits n rest
unfolding digits
next_digit n q r rest h k = rw (is_digit-decimal r h) (ap (λ m. digits m rest) (omega arith))

digits-decimal :
    (fuel n : ℕ) (rest : Bytes) → n < fuel → digits 0 (decimal fuel n rest) ≡ digits n rest
unfolding decimal digits
digits-decimal zero n rest h = absurd (omega (arith, h))
digits-decimal (suc fuel) n rest h = elim (Bool-cases (ltb n 10)) [
  | inl e ↦ rw e (ground arith)
  | inr e ↦ rw e (
      digits-decimal fuel (n / 10) ((48 + n % 10) ∷ rest) (ground arith)
      ∙ next_digit n (n / 10) (n % 10) rest (omega arith) (omega arith))
]

abbrev starts_with_digit : Bytes → Bool
starts_with_digit [] = false
starts_with_digit (c ∷ s) = is_digit c

starts-decimal :
    (fuel n : ℕ) (rest : Bytes) → n < fuel → starts_with_digit (decimal fuel n rest) ≡ true
unfolding decimal
starts-decimal zero n rest h = absurd (omega (arith, h))
starts-decimal (suc fuel) n rest h = elim (Bool-cases (ltb n 10)) [
  | inl e ↦ rw e (ground arith)
  | inr e ↦ rw e (starts-decimal fuel (n / 10) ((48 + n % 10) ∷ rest) (ground arith))
]

decimal-IsFree :
    (sep fuel n : ℕ) (rest : Bytes)
    → is_digit sep ≡ false
    → IsFree sep rest
    → IsFree sep (decimal fuel n rest)
unfolding decimal
decimal-IsFree sep zero n rest h k = k
decimal-IsFree sep (suc fuel) n rest h k = elim (Bool-cases (ltb n 10)) [
  | inl e ↦ rw e (ground arith, k)
  | inr e ↦ rw e (decimal-IsFree sep fuel (n / 10) ((48 + n % 10) ∷ rest) h (ground arith, k))
]

pub itoa-IsFree : (sep n : ℕ) → is_digit sep ≡ false → IsFree sep (itoa n)
unfolding itoa
itoa-IsFree sep n h = decimal-IsFree sep (suc n) n [] h tt

not_minus : (c : ℕ) → is_digit c ≡ true → (c == b'-') ≡ false
not_minus c h = ground arith

not_plus : (c : ℕ) → is_digit c ≡ true → (c == b'+') ≡ false
not_plus c h = ground arith

in_bounds : (n : ℕ) → n < 2 ^ 63 → in_range false (some n) ≡ ok (pos n)
in_bounds n h = ground arith

atoi-digits : (s : Bytes) → starts_with_digit s ≡ true → atoi s ≡ in_range false (digits 0 s)
unfolding atoi
atoi-digits [] h = cc
atoi-digits (c ∷ s) h = rw (not_minus c h, not_plus c h) refl

pub atoi-itoa : (n : ℕ) → n < 2 ^ 63 → atoi (itoa n) ≡ ok (pos n)
unfolding itoa
atoi-itoa n h =
    atoi-digits (decimal (suc n) n []) (starts-decimal (suc n) n [] (omega arith))
    ∙ (ap (in_range false) (digits-decimal (suc n) n [] (omega arith))
        ∙ unfold digits in in_bounds n h)

starts-ne : (s : Bytes) → starts_with_digit s ≡ true → is_empty s ≡ false
starts-ne [] h = cc
starts-ne (c ∷ s) h = refl

pub itoa-ne : (n : ℕ) → is_empty (itoa n) ≡ false
unfolding itoa
itoa-ne n = starts-ne (decimal (suc n) n []) (starts-decimal (suc n) n [] (omega arith))

-- Two numbers with a separator that is no digit between them.
pub split-itoa :
    (sep m n : ℕ) → is_digit sep ≡ false → split sep (itoa m ++ sep ∷ itoa n) ≡ itoa m ∷ itoa n ∷ []
split-itoa sep m n h =
    split-append sep (itoa m) (itoa n) (itoa-IsFree sep m h)
    ∙ ap (λ l. itoa m ∷ l) (split-free sep (itoa n) (itoa-IsFree sep n h))

decimal-All :
    (fuel n : ℕ) (rest : Bytes)
    → All (λ c. is_digit c ≡ true) rest
    → All (λ c. is_digit c ≡ true) (decimal fuel n rest)
unfolding decimal
decimal-All zero n rest k = k
decimal-All (suc fuel) n rest k = elim (Bool-cases (ltb n 10)) [
  | inl e ↦ rw e (ground arith, k)
  | inr e ↦ rw e (decimal-All fuel (n / 10) ((48 + n % 10) ∷ rest) (ground arith, k))
]

pub itoa-All : (n : ℕ) → All (λ c. is_digit c ≡ true) (itoa n)
unfolding itoa
itoa-All n = decimal-All (suc n) n [] tt
