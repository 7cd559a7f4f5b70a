-- ===== src/Cat/Scanned.antt =====
-- How many lines the scanner sees.
use llmd.Prelude.{ℕ, suc, ◌≡◌, ◌≢◌, refl, List, [], ◌∷◌, Bytes, ◌==◌, if◌then◌else◌, length, arith}
use llmd.Text.{split, cons_first, has_suffix}
use llmd.Text.Split.{split-ne-nil}
use llmd.Cat.{newline, drop_last_empty, count_newlines, ends_with_newline, total_lines}

length-cons_first : (c : ℕ) (ps : List Bytes) → ps ≢ [] → length (cons_first c ps) ≡ length ps
length-cons_first c [] h = absurd (h refl)
length-cons_first c (p ∷ ps) h = refl

length-split : (s : Bytes) → length (split newline s) ≡ suc (count_newlines s)
unfolding split
length-split [] = refl
length-split (c ∷ s) =
    ground (arith, length-split s, length-cons_first c (split newline s) (split-ne-nil newline s))

-- the lines that the scanner sees
abbrev pub scanned : Bytes → List Bytes
scanned s = drop_last_empty (split newline s)

split-cons :
    (c : ℕ) (s : Bytes)
    → split newline (c ∷ s)
      ≡ (if c == newline then [] ∷ split newline s else cons_first c (split newline s))
unfolding split
split-cons c s = refl

ends_with_newline-cons :
    (c d : ℕ) (s : Bytes) → ends_with_newline (c ∷ d ∷ s) ≡ ends_with_newline (d ∷ s)
unfolding ends_with_newline has_suffix
ends_with_newline-cons c d s = ground arith

split-ne-blank : (d : ℕ) (s : Bytes) → split newline (d ∷ s) ≢ [] ∷ []
unfolding split
split-ne-blank d s h = ground (arith, split-ne-nil newline s)

length-skip :
    (l : Bytes) (ls : List Bytes)
    → ls ≢ []
    → length (drop_last_empty (l ∷ ls)) ≡ suc (length (drop_last_empty ls))
length-skip l [] h = absurd (h refl)
length-skip l (k ∷ ls) h = refl

length-lengthened :
    (c : ℕ) (ls : List Bytes)
    → ls ≢ []
    → ls ≢ [] ∷ []
    → length (drop_last_empty (cons_first c ls)) ≡ length (drop_last_empty ls)
length-lengthened c [] h k = absurd (h refl)
length-lengthened c ([] ∷ []) h k = absurd (k refl)
length-lengthened c ((x ∷ p) ∷ []) h k = refl
length-lengthened c (p ∷ q ∷ ps) h k = refl

one_byte :
    (c : ℕ)
    → length (split newline (c ∷ [])) ≡ (
        if ends_with_newline (c ∷ [])
        then suc (length (scanned (c ∷ [])))
        else length (scanned (c ∷ [])))
unfolding split ends_with_newline has_suffix
one_byte c = ground arith

-- the scanned lines, whether or not the last one has an end
sizes :
    (c : ℕ) (s : Bytes)
    → length (split newline (c ∷ s)) ≡ (
        if ends_with_newline (c ∷ s)
        then suc (length (scanned (c ∷ s)))
        else length (scanned (c ∷ s)))
sizes c [] = one_byte c
sizes c (d ∷ s) =
    rw (split-cons c (d ∷ s), ends_with_newline-cons c d s)
      (ground (
        arith,
        sizes d s,
        length-skip [] (split newline (d ∷ s)),
        length-lengthened c (split newline (d ∷ s)),
        length-cons_first c (split newline (d ∷ s)),
        split-ne-nil newline (d ∷ s),
        split-ne-blank d s,
      ))

pub total_lines-scanned : (c : ℕ) (s : Bytes) → total_lines (c ∷ s) ≡ length (scanned (c ∷ s))
unfolding total_lines
total_lines-scanned c s = ground (arith, sizes c s, length-split (c ∷ s))
