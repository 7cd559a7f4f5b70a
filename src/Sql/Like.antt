-- ===== src/Sql/Like.antt =====
-- SQLite's `LIKE` with no ESCAPE clause: `%` stands for any run of bytes, `_` for one character,
-- and ASCII letters match in either case.
use llmd.Prelude.{
  ℕ, ◌+◌, ◌≡◌, refl, Bool, true, false, ◌&&◌, ◌||◌, [], ◌∷◌, Bytes, codes, leb, ◌==◌, if◌then◌else◌,
}

unfoldable pub fold_case : ℕ → ℕ
fold_case c = if leb b'A' c && leb c b'Z' then c + 32 else c

-- The rest of a UTF-8 character whose first byte is `c`.
drop_continuation : Bytes → Bytes
drop_continuation [] = []
drop_continuation (c ∷ s) = if leb 128 c && leb c 191 then drop_continuation s else c ∷ s

drop_character : ℕ → Bytes → Bytes
unfolding drop_continuation
drop_character c s = if leb 192 c then drop_continuation s else s

-- `%` tries every suffix of the text.
any_suffix : (Bytes → Bool) → Bytes → Bool
any_suffix p [] = p []
any_suffix p (c ∷ s) = p (c ∷ s) || any_suffix p s

unfoldable pub like : Bytes → Bytes → Bool
unfolding fold_case drop_character any_suffix
like [] [] = true
like [] (_ ∷ _) = false
like (m ∷ p) s = elim s [
  | [] ↦ m == b'%' && like p []
  | c ∷ t ↦
      (if m == b'%'
        then any_suffix (like p) (c ∷ t)
        else if m == b'_'
        then like p (drop_character c t)
        else fold_case m == fold_case c && like p t)
]

like_test :
    (like (codes "docs_a%") (codes "DOCS-abc") ≡ true)
    × (like (codes "docs%") (codes "doc") ≡ false)
unfolding like
like_test = (refl, refl)
