-- ===== src/Text/Numbers.antt =====
-- Go's int, and what the program uses of `strconv`.
pub mod Printed
use llmd.Prelude.{
  ◌/◌, ◌%◌, zero, arith, ℕ, ◌+◌, ◌*◌, ◌-◌, ◌^◌, suc, Bool, true, false, ◌&&◌, [], ◌∷◌, Option, none,
  some, Bytes, leb, ltb, ◌==◌, if◌then◌else◌, Result, ok, err, err_number, ◌≡◌, refl, codes,
  is_empty,
}

-- `negsuc n` is -(n + 1)
pub data ℤ : Type 0 where
  pos : ℕ → ℤ
  negsuc : ℕ → ℤ

abbrev pub int_ltb : ℤ → ℤ → Bool
int_ltb (pos m) (pos n) = ltb m n
int_ltb (pos m) (negsuc n) = false
int_ltb (negsuc m) (pos n) = true
int_ltb (negsuc m) (negsuc n) = ltb n m

abbrev pub is_zero : ℤ → Bool
is_zero (pos n) = n == 0
is_zero (negsuc n) = false

-- the number, where it is known not to be negative
abbrev pub to_nat : ℤ → ℕ
to_nat (pos n) = n
to_nat (negsuc n) = 0

abbrev pub is_digit : ℕ → Bool
is_digit c = leb 48 c && leb c 57

-- a run of decimal digits, after what was read so far
unfoldable pub digits : ℕ → Bytes → Option ℕ
digits n [] = some n
digits n (c ∷ s) = let rest = digits (n * 10 + (c - 48)) s in if is_digit c then rest else none

-- the range check of a 64-bit int
abbrev pub in_range : Bool → Option ℕ → Result ℤ
in_range negative none = err err_number
in_range false (some n) = if ltb n (2 ^ 63) then ok (pos n) else err err_number
in_range true (some n) =
    if n == 0 then ok (pos 0) else if leb n (2 ^ 63) then ok (negsuc (n - 1)) else err err_number

abbrev pub unsigned : Bool → Bytes → Result ℤ
unfolding digits
unsigned negative s = if is_empty s then err err_number else in_range negative (digits 0 s)

-- strconv.Atoi
unfoldable pub atoi : Bytes → Result ℤ
unfolding digits
atoi [] = err err_number
atoi (c ∷ s) =
    if c == b'-'
    then unsigned true s
    else if c == b'+'
    then unsigned false s
    else unsigned false (c ∷ s)

atoi_test :
    (atoi (codes "42") ≡ ok (pos 42))
    × (atoi (codes "-7") ≡ ok (negsuc 6))
    × (atoi (codes "4x") ≡ err err_number)
    × (atoi (codes "9223372036854775808") ≡ err err_number)
unfolding atoi
atoi_test = (refl, refl, refl, refl)

-- the digits in front of `rest`; `fuel` above the number is enough
unfoldable pub decimal : ℕ → ℕ → Bytes → Bytes
decimal zero n rest = rest
decimal (suc fuel) n rest =
    let more = decimal fuel (n / 10) ((48 + n % 10) ∷ rest) in
    if ltb n 10 then (48 + n) ∷ rest else more

-- strconv.Itoa of a number that is not negative
unfoldable pub itoa : ℕ → Bytes
unfolding decimal
itoa n = decimal (suc n) n []
