-- ===== src/Cat/Lines.antt =====
-- A range of lines is printed exactly.
use llmd.Prelude.{
  max, length-drop, drop-All, not, append-nil, append_assoc, ℕ, zero, suc, ◌+◌, ◌-◌, ◌≤◌, ◌≡◌, refl,
  ap, sym, ◌∙◌, Bool, true, false, ◌&&◌, ◌||◌, List, [], ◌∷◌, ◌++◌, map, take, drop, Bytes, ltb,
  leb, ◌==◌, if◌then◌else◌, length, ok, All, arith, inl, inr, Bool-cases,
}
use llmd.Text.Numbers.{itoa}
use llmd.Cat.Scanned.{scanned, total_lines-scanned}
use llmd.Cat.{Options, show_lines, buffer_limit, newline, drop_cr, ends_with_newline, scan_loop}

take-nil : (n : ℕ) → take {A = Bytes} n [] ≡ []
take-nil zero = refl
take-nil (suc n) = refl

-- lines as they are printed: with an end each, but for the last one if the document ends without
abbrev pub block : Bool → List Bytes → Bytes
block trailing [] = []
block trailing (l ∷ []) = l ++ (if trailing then newline ∷ [] else [])
block trailing (l ∷ k ∷ ls) = l ++ newline ∷ block trailing (k ∷ ls)

abbrev is_nil : List Bytes → Bool
is_nil [] = true
is_nil (l ∷ ls) = false

block-cons :
    (trailing : Bool) (l : Bytes) (ls : List Bytes)
    → block trailing (l ∷ ls)
      ≡ (l ++ (if not (is_nil ls) || trailing then newline ∷ [] else [])) ++ block trailing ls
block-cons trailing l [] = sym (append-nil _)
block-cons trailing l (k ∷ ls) = sym (append_assoc l (newline ∷ []) (block trailing (k ∷ ls)))

-- there is a next line exactly if the range goes on
goes_on :
    (n end : ℕ) (ls : List Bytes)
    → end ≤ suc n + length ls
    → ltb (suc n) end ≡ not (is_nil (take (end - suc n) (map drop_cr ls)))
goes_on n end [] h = rw (not_after, take-nil (end - suc n)) refl
  where
    not_after : ltb (suc n) end ≡ false
    not_after = ground arith
goes_on n end (k ∷ ls) h = counted (end - suc n) refl
  where
    counted :
        (m : ℕ) → m ≡ end - suc n → ltb (suc n) end ≡ not (is_nil (take m (map drop_cr (k ∷ ls))))
    counted zero e = ground arith
    counted (suc m) e = ground arith

-- the loop, from the first line of the range on
scan_from :
    (limit width start end n : ℕ) (trailing : Bool) (ls : List Bytes)
    → All (λ l. leb limit (length l) ≡ false) ls
    → start ≤ suc n
    → end ≤ n + length ls
    → scan_loop limit false width start end trailing n ls
      ≡ (block trailing (take (end - n) (map drop_cr ls)), ok tt)
scan_from limit width start end n trailing [] fit h k = rw (take-nil (end - n)) refl
scan_from limit width start end n trailing (l ∷ ls) fit h k = elim (Bool-cases (ltb end (suc n))) [
  | inl e ↦ rw (fit.0, not_skipped, e, none_left e) refl
  | inr e ↦
      rw
        (
          fit.0,
          not_skipped,
          e,
          one_more e,
          scan_from limit width start end (suc n) trailing ls fit.1 (omega (arith, h))
              (omega (arith, k)),
        )
        (rw
          (
            block-cons trailing (drop_cr l) (take (end - suc n) (map drop_cr ls)),
            goes_on n end ls (omega (arith, k)),
          )
          refl)
]
  where
    not_skipped : ltb (suc n) start ≡ false
    not_skipped = ground arith

    none_left : ltb end (suc n) ≡ true → end - n ≡ 0
    none_left e = ground arith

    one_more : ltb end (suc n) ≡ false → end - n ≡ suc (end - suc n)
    one_more e = ground arith

-- the loop, up to the first line of the range
scan_skip :
    (limit width start end n m : ℕ) (trailing : Bool) (ls : List Bytes)
    → All (λ l. leb limit (length l) ≡ false) ls
    → start ≡ suc (n + m)
    → scan_loop limit false width start end trailing n ls
      ≡ scan_loop limit false width start end trailing (n + m) (drop m ls)
scan_skip limit width start end n zero trailing ls fit h =
    ap (λ k. scan_loop limit false width start end trailing k ls) (omega arith)
scan_skip limit width start end n (suc m) trailing [] fit h = refl
scan_skip limit width start end n (suc m) trailing (l ∷ ls) fit h =
    rw (fit.0, skipped)
      (scan_skip limit width start end (suc n) m trailing ls fit.1 (omega (arith, h))
        ∙ ap (λ k. scan_loop limit false width start end trailing k (drop m ls)) (omega arith))
  where
    skipped : ltb (suc n) start ≡ true
    skipped = ground (arith, h)

-- the last line that is asked for and there
abbrev pub last_shown : Options → ℕ → ℕ
last_shown opts total =
    if ltb 0 opts.end_line && ltb opts.end_line total then opts.end_line else total

-- Without line numbers, from a first line of 1 or more, and if no line of the document fills the
-- buffer: the lines from the first one that is asked for to the last are printed in order and
-- without an error, less a CR at their ends, with line feeds between them, and one behind the last
-- if the document ends with one.
pub show_lines-range :
    (c : ℕ) (s : Bytes) (opts : Options)
    → opts.line_numbers ≡ false
    → 1 ≤ opts.start_line
    → All (λ l. leb (buffer_limit opts.max_line_length) (length l) ≡ false) (scanned (c ∷ s))
    → show_lines (c ∷ s) opts ≡ (
      block (ends_with_newline (c ∷ s)) (
          take
            (last_shown opts (length (scanned (c ∷ s))) - (opts.start_line - 1))
            (map drop_cr (drop (opts.start_line - 1) (scanned (c ∷ s))))),
      ok tt,
    )
unfolding show_lines
show_lines-range c s opts plain first fit =
    rw (plain, given, not_zero, total_lines-scanned c s)
      (scan_skip limit width opts.start_line last 0 (opts.start_line - 1) trailing lines fit
          (omega (arith, first))
        ∙ (scan_from limit width opts.start_line last (0 + (opts.start_line - 1)) trailing
              (drop (opts.start_line - 1) lines)
              (drop-All (λ l. leb limit (length l) ≡ false) (opts.start_line - 1) lines fit)
              (omega arith) in_text
            ∙ ap
                (λ k. (
                  block trailing (take (last - k) (map drop_cr (drop (opts.start_line - 1) lines))),
                  ok tt,
                ))
                (omega arith)))
  where
    last : ℕ
    last = last_shown opts (length (scanned (c ∷ s)))

    lines : List Bytes
    lines = scanned (c ∷ s)

    limit : ℕ
    limit = buffer_limit opts.max_line_length

    width : ℕ
    width = max 6 (length (itoa last))

    trailing : Bool
    trailing = ends_with_newline (c ∷ s)

    in_text : last ≤ 0 + (opts.start_line - 1) + length (drop (opts.start_line - 1) lines)
    in_text = ground (arith, length-drop (opts.start_line - 1) lines)

    given : ltb 0 opts.start_line ≡ true
    given = ground (arith, first)

    not_zero : (opts.start_line == 0) ≡ false
    not_zero = ground (arith, first)
