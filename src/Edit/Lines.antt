-- ===== src/Edit/Lines.antt =====
-- Line ranges: what a parsed range can be, and what replacing it does.
use mathlib.Core.Path.{subst}
use llmd.Prelude.{
  take-All, drop-All, append-All, ◌>>=◌, ℕ, ◌+◌, ◌-◌, ◌≤◌, min, ◌≡◌, ◌≢◌, refl, sym, ◌∙◌, ap, true,
  false, ◌&&◌, List, [], ◌∷◌, ◌++◌, Bytes, if◌then◌else◌, arith, Result, ok, err, err_line_range,
  err_end_line, err_beyond_end, length, take, drop, is_empty, All, Bool-cases, inl, inr, ltb, leb,
}
use llmd.Text.{split, join, trim_suffix}
use llmd.Text.Split.{IsFree, split-join, split-IsFree, split-ne-nil}
use llmd.Text.Numbers.{ℤ, pos, negsuc, int_ltb, is_zero, to_nat, atoi}
use llmd.Edit.{newline, new_lines, replace_lines, line_bound, ordered, line_range, parse_line_range}

new_lines-IsFree : (r : Bytes) → All (IsFree newline) (new_lines r)
unfolding new_lines
new_lines-IsFree r = elim (Bool-cases (is_empty (trim_suffix r (newline ∷ [])))) [
  | inl e ↦ rw e tt
  | inr e ↦ rw e (split-IsFree newline (trim_suffix r (newline ∷ [])))
]

-- a text always has a line
abbrev pub lines_of : List Bytes → List Bytes
lines_of [] = [] ∷ []
lines_of (l ∷ ls) = l ∷ ls

lines_of-join :
    (ls : List Bytes) → All (IsFree newline) ls → split newline (join newline ls) ≡ lines_of ls
unfolding split join
lines_of-join [] h = refl
lines_of-join (l ∷ ls) h = split-join newline (l ∷ ls) (ground arith) h

-- the first line of a range, and the last one in a text of `n` lines
abbrev pub first_line : ℤ → ℕ
first_line start = if is_zero start then 1 else to_nat start

abbrev pub last_line : ℤ → ℕ → ℕ
last_line end n = if is_zero end then n else min (to_nat end) n

abbrev pub kept_lines : Bytes → ℤ → ℤ → Bytes → List Bytes
unfolding split new_lines
kept_lines content start end replacement =
    take (first_line start - 1) (split newline content)
    ++ new_lines replacement
    ++ drop (last_line end (length (split newline content))) (split newline content)

-- what a range that was read is like
pub record IsRange (start end : ℤ) : Type 0 where
  pub start_eq : start ≡ pos (to_nat start)
  pub end_eq : end ≡ pos (to_nat end)
  pub given : to_nat start + to_nat end ≢ 0
  pub ordered : to_nat end ≢ 0 → to_nat start ≤ to_nat end

ok-inj : (r : Result ℤ) (m n : ℤ) → r ≡ ok m → r ≡ ok n → m ≡ n
ok-inj r m n h k = cc

record IsBound (s : Bytes) (n : ℤ) : Type 0 where
  is_pos : n ≡ pos (to_nat n)
  if_empty : is_empty s ≡ true → to_nat n ≡ 0
  if_given : is_empty s ≡ false → 1 ≤ to_nat n

positive-IsBound :
    (s : Bytes) (n m : ℤ)
    → is_empty s ≡ false
    → (if int_ltb n (pos 1) then err err_line_range else ok n) ≡ ok m
    → IsBound s m
positive-IsBound s (pos n) m e h = elim (Bool-cases (ltb n 1)) [
  | inl k ↦ let failed = (rw k at h) in cc
  | inr k ↦
      subst (IsBound s) (ok-inj (ok (pos n)) (pos n) m refl (rw k at h))
        (record { is_pos = refl; if_empty = λ x. cc; if_given = λ x. ground arith })
]
positive-IsBound s (negsuc n) m e h = cc

line_bound-IsBound : (s : Bytes) (n : ℤ) → line_bound s ≡ ok n → IsBound s n
unfolding line_bound
line_bound-IsBound [] n h =
    subst (IsBound []) (ok-inj (ok (pos 0)) (pos 0) n refl h)
      (record { is_pos = refl; if_empty = λ x. refl; if_given = λ x. cc })
line_bound-IsBound (c ∷ s) n h = read (atoi (c ∷ s)) refl h
  where
    read : (r : Result ℤ) → atoi (c ∷ s) ≡ r → line_bound (c ∷ s) ≡ ok n → IsBound (c ∷ s) n
    read (err e) k h = let failed = (rw k at h) in cc
    read (ok m) k h = positive-IsBound (c ∷ s) m n refl (rw k at h)

range_inj : (r q : ℤ × ℤ) → ok r ≡ ok q → r ≡ q
range_inj r q h = cc

ordered-IsRange :
    (a b : Bytes) (m n : ℤ) {start end : ℤ}
    → (is_empty a && is_empty b) ≡ false
    → IsBound a m
    → IsBound b n
    → ordered m n ≡ ok (start, end)
    → IsRange start end
ordered-IsRange a b (negsuc m) n e h k found = absurd (ground (arith, h.is_pos))
ordered-IsRange a b (pos m) (negsuc n) e h k found = absurd (ground (arith, k.is_pos))
ordered-IsRange a b (pos m) (pos n) {start} {end} e h k found =
    elim (Bool-cases (ltb 0 m && (ltb 0 n && ltb n m))) [
      | inl w ↦ let failed = (rw w at found) in cc
      | inr w ↦
          subst (λ r. IsRange r.0 r.1) (range_inj (pos m, pos n) (start, end) (rw w at found))
            (record {
              start_eq = refl;
              end_eq = refl;
              given = ground (arith, h.if_given, k.if_given);
              ordered = ground arith;
            })
    ]

bounds-IsRange :
    (a b : Bytes) (r q : Result ℤ) {start end : ℤ}
    → (is_empty a && is_empty b) ≡ false
    → line_bound a ≡ r
    → line_bound b ≡ q
    → (r >>= λ m. q >>= λ n. ordered m n) ≡ ok (start, end)
    → IsRange start end
bounds-IsRange a b (err x) q e h k found = cc
bounds-IsRange a b (ok m) (err x) e h k found = cc
bounds-IsRange a b (ok m) (ok n) e h k found =
    ordered-IsRange a b m n e (line_bound-IsBound a m h) (line_bound-IsBound b n k) found

-- The two bounds that a range is read from.
line_range-IsRange :
    (a b : Bytes) {start end : ℤ} → line_range (a ∷ b ∷ []) ≡ ok (start, end) → IsRange start end
unfolding line_range
line_range-IsRange a b {start} {end} h = elim (Bool-cases (is_empty a && is_empty b)) [
  | inl e ↦ let failed = (rw e at h) in cc
  | inr e ↦ bounds-IsRange a b (line_bound a) (line_bound b) e refl refl (
      ap
        (λ c.
          if c
          then err err_line_range
          else (line_bound a >>= λ m. line_bound b >>= λ n. ordered m n))
        (sym e)
      ∙ h)
]

-- A range that is read from a text has a bound, no negative one, and its bounds in order.
pub parse_line_range-IsRange :
    (s : Bytes) {start end : ℤ} → parse_line_range s ≡ ok (start, end) → IsRange start end
unfolding parse_line_range
parse_line_range-IsRange s h = two (split b':' s) h
  where
    two :
        (parts : List Bytes) {start end : ℤ}
        → line_range parts ≡ ok (start, end)
        → IsRange start end
    two [] h = cc
    two (a ∷ []) h = cc
    two (a ∷ b ∷ []) h = line_range-IsRange a b h
    two (a ∷ b ∷ c ∷ rest) h = cc

one_line : (content : Bytes) → 1 ≤ length (split newline content)
one_line content = ground (arith, split-ne-nil newline content)

-- A range that was read can be replaced exactly if its first line is one of the text's. Then the
-- lines in front of the range and behind it stay, and the new ones stand between them.
pub replace_lines-kept :
    (content replacement : Bytes) (start end : ℤ)
    → IsRange start end
    → (replace_lines content start end replacement ≡ (
        if leb (first_line start) (length (split newline content))
        then ok (join newline (kept_lines content start end replacement))
        else err (if is_zero end then err_end_line else err_beyond_end)))
      × (split newline (join newline (kept_lines content start end replacement))
          ≡ lines_of (kept_lines content start end replacement))
unfolding replace_lines
replace_lines-kept content replacement (negsuc a) end h = cc
replace_lines-kept content replacement (pos a) (negsuc b) h = cc
replace_lines-kept content replacement (pos a) (pos b) h = (
  ground (arith, one_line content, h.given, h.ordered),
  lines_of-join (kept_lines content (pos a) (pos b) replacement) (
      append-All (IsFree newline) _ _
        (append-All (IsFree newline) _ _
          (take-All (IsFree newline) (first_line (pos a) - 1) (split newline content)
            (split-IsFree newline content))
          (new_lines-IsFree replacement))
        (drop-All (IsFree newline) (last_line (pos b) (length (split newline content)))
          (split newline content) (split-IsFree newline content))),
)
