-- ===== src/Grep/Matches.antt =====
-- Which lines match.
use llmd.Prelude.{
  ℕ, suc, ◌+◌, ◌≡◌, refl, Bool, true, false, List, [], ◌∷◌, map, some, get_elem?, Bytes, leb,
  length, ok, All, arith, inl, inr, Bool-cases,
}
use llmd.Cat.{drop_cr, buffer_limit}
use llmd.Cat.Scanned.{scanned}
use llmd.Grep.{Match, differs, match_loop, match_lines}

-- Both searches together take each line once.
partition :
    (re : Bytes → Bool) (limit n : ℕ) (ls : List Bytes)
    → All (λ l. leb limit (length l) ≡ false) ls
    → (length (match_loop re false limit n ls).0 + length (match_loop re true limit n ls).0
        ≡ length ls)
      × ((match_loop re false limit n ls).1 ≡ ok tt)
      × ((match_loop re true limit n ls).1 ≡ ok tt)
partition re limit n [] h = (refl, refl, refl)
partition re limit n (l ∷ ls) h =
    let e = h.0 in
    let rest = partition re limit (suc n) ls h.1 in
    elim (Bool-cases (re (drop_cr l))) [
      | inl hit ↦ rw (e, hit) (omega (arith, rest.0), rest.1, rest.2)
      | inr miss ↦ rw (e, miss) (omega (arith, rest.0), rest.1, rest.2)
    ]

-- a match of the lines from index `n` on
abbrev pub IsMatch : (Bytes → Bool) → Bool → ℕ → List Bytes → Match → Type 0
IsMatch re invert n ls m =
    (i : ℕ) × (m.line ≡ suc (n + i))
    × (get_elem? (map drop_cr ls) i ≡ some m.content)
    × (differs (re m.content) invert ≡ true)

later :
    (re : Bytes → Bool) (invert : Bool) (n : ℕ) (l : Bytes) (ls : List Bytes) (ms : List Match)
    → All (IsMatch re invert (suc n) ls) ms
    → All (IsMatch re invert n (l ∷ ls)) ms
later re invert n l ls [] h = tt
later re invert n l ls (m ∷ ms) ((i, number, found, chosen), rest) =
    ((suc i, omega arith, found, chosen), later re invert n l ls ms rest)

matched :
    (re : Bytes → Bool) (invert : Bool) (limit n : ℕ) (ls : List Bytes)
    → All (IsMatch re invert n ls) (match_loop re invert limit n ls).0
matched re invert limit n [] = tt
matched re invert limit n (l ∷ ls) =
    let rest =
      later re invert n l ls (match_loop re invert limit (suc n) ls).0
        (matched re invert limit (suc n) ls) in
    elim (Bool-cases (leb limit (length l))) [
      | inl long ↦ rw long tt
      | inr fits ↦ elim (Bool-cases (differs (re (drop_cr l)) invert)) [
        | inl hit ↦ rw (fits, hit) ((0, omega arith, refl, hit), rest)
        | inr miss ↦ rw (fits, miss) rest
      ]
    ]

-- Where every line of a document is below the limit of a line, neither the search for a test nor
-- the inverted one fails. Each match bears the number and the text of a line, without its line
-- feed and carriage return, that passes the test, or for the inverted search fails it; and the
-- two searches together have as many matches as the document has lines.
pub match_lines-partition :
    (re : Bytes → Bool) (content : Bytes) (limit : ℕ)
    → All (λ l. leb (buffer_limit limit) (length l) ≡ false) (scanned content)
    → ((match_lines re content false limit).1 ≡ ok tt)
      × ((match_lines re content true limit).1 ≡ ok tt)
      × (All (IsMatch re false 0 (scanned content)) (match_lines re content false limit).0)
      × (All (IsMatch re true 0 (scanned content)) (match_lines re content true limit).0)
      × (length (match_lines re content false limit).0
            + length (match_lines re content true limit).0
          ≡ length (scanned content))
unfolding match_lines
match_lines-partition re content limit h =
    let cover = partition re (buffer_limit limit) 0 (scanned content) h in
    (
      cover.1,
      cover.2,
      matched re false (buffer_limit limit) 0 (scanned content),
      matched re true (buffer_limit limit) 0 (scanned content),
      cover.0,
    )
