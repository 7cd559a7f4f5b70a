-- ===== src/Duration.antt =====
-- internal/duration: ages such as 7d, 4w and 3m, in nanoseconds, with the product of 64 bits.
pub mod Exact
use llmd.Prelude.{
  ℕ, ◌*◌, ◌-◌, ◌%◌, ◌^◌, [], ◌∷◌, Option, none, some, Bytes, codes, is_empty, ltb, ◌==◌,
  if◌then◌else◌, ◌≡◌, refl, Result, ok, err, err_invalid_value, ◌>>=◌,
}
use llmd.Text.Numbers.{ℤ, pos, negsuc, to_nat, is_digit, atoi}

abbrev pub hour : ℕ
hour = 3600 * 10 ^ 9

-- the days of a unit
abbrev pub days : ℕ → Option ℕ
days unit =
    if unit == b'd'
    then some 1
    else if unit == b'w'
    then some 7
    else if unit == b'm'
    then some 30
    else none

-- an int64 keeps the last 64 bits of a product
abbrev pub wrap : ℕ → ℤ
wrap n = let m = n % 2 ^ 64 in if ltb m (2 ^ 63) then pos m else negsuc (2 ^ 64 - 1 - m)

abbrev pub cons_digit : ℕ → Bytes × Bytes → Bytes × Bytes
cons_digit c parts = (c ∷ parts.0, parts.1)

-- the digits in front, and the rest
unfoldable pub span_digits : Bytes → Bytes × Bytes
span_digits [] = ([], [])
span_digits (c ∷ s) =
    let rest = span_digits s in if is_digit c then cons_digit c rest else ([], c ∷ s)

abbrev times : Option ℕ → Bytes → Result ℤ
times none number = err err_invalid_value
times (some d) number = atoi number >>= λ n. ok (wrap (to_nat n * d * 24 * hour))

-- ^(\d+)([dwm])$
abbrev matched : Bytes × Bytes → Result ℤ
matched (number, unit ∷ []) =
    if is_empty number then err err_invalid_value else times (days unit) number
matched (number, _) = err err_invalid_value

unfoldable pub parse : Bytes → Result ℤ
unfolding span_digits
parse s = matched (span_digits s)

parse_test :
    (parse (codes "7d") ≡ ok (pos (7 * 24 * hour)))
    × (parse (codes "4w") ≡ ok (pos (28 * 24 * hour)))
    × (parse (codes "d") ≡ err err_invalid_value)
    × (parse (codes "7days") ≡ err err_invalid_value)
unfolding parse atoi
parse_test = (refl, refl, refl, refl)

-- 200000 days are a negative duration.
wrap_test : parse (codes "200000d") ≡ ok (negsuc (2 ^ 64 - 1 - 200000 * 24 * hour))
unfolding parse atoi
wrap_test = refl
