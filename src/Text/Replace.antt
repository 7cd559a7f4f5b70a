-- ===== src/Text/Replace.antt =====
-- strings.Replace and strings.ReplaceAll.
use llmd.Prelude.{
  ℕ, zero, suc, ◌+◌, ◌-◌, Bool, ◌&&◌, ◌||◌, [], ◌∷◌, ◌++◌, Option, none, some, Bytes, codes, leb,
  ◌==◌, if◌then◌else◌, ◌≡◌, refl, is_empty, length, take, drop,
}
use llmd.Text.{index, has_prefix}

abbrev pub splice : Bytes → ℕ → ℕ → Bytes → Bytes
splice s i n new = take i s ++ (new ++ drop (i + n) s)

abbrev pub splice_at : Bytes → Option ℕ → ℕ → Bytes → Bytes
splice_at s none n new = s
splice_at s (some i) n new = splice s i n new

-- strings.Replace(s, old, new, 1)
unfoldable pub replace_first : Bytes → Bytes → Bytes → Bytes
unfolding index
replace_first s old new = splice_at s (index s old) (length old) new

-- `skip` bytes of the last match are still to be left out
unfoldable pub replace_from : Bytes → Bytes → ℕ → Bytes → Bytes
unfolding has_prefix
replace_from old new skip [] = []
replace_from old new (suc skip) (c ∷ s) = replace_from old new skip s
replace_from old new zero (c ∷ s) =
    let rest = replace_from old new (length old - 1) s in
    let other = replace_from old new zero s in
    if has_prefix (c ∷ s) old then new ++ rest else c ∷ other

abbrev between : ℕ → ℕ → ℕ → Bool
between lo hi c = leb lo c && leb c hi

abbrev byte_at : Bytes → ℕ
byte_at [] = 0
byte_at (c ∷ s) = c

-- The bytes of the UTF-8 sequence at the front; an invalid byte is one of its own.
abbrev sequence_length : Bytes → ℕ
sequence_length s =
    let a = byte_at s in
    let b = byte_at (drop 1 s) in
    let tail = between 128 191 in
    let c = tail (byte_at (drop 2 s)) in
    let d = tail (byte_at (drop 3 s)) in
    if between 194 223 a && tail b
    then 2
    else if c
        && ((a == 224 && between 160 191 b)
            || (a == 237 && between 128 159 b)
            || ((between 225 236 a || between 238 239 a) && tail b))
    then 3
    else if (c && d)
        && ((a == 240 && between 144 191 b)
            || (a == 244 && between 128 143 b)
            || (between 241 243 a && tail b))
    then 4
    else 1

-- an empty search text matches in front of every sequence and at the end
insert_between : Bytes → ℕ → Bytes → Bytes
insert_between new skip [] = new
insert_between new (suc skip) (c ∷ s) = c ∷ insert_between new skip s
insert_between new zero (c ∷ s) = new ++ c ∷ insert_between new (sequence_length (c ∷ s) - 1) s

unfoldable pub replace_all : Bytes → Bytes → Bytes → Bytes
unfolding replace_from insert_between
replace_all s old new = if is_empty old then insert_between new 0 s else replace_from old new 0 s

replace_test :
    (replace_all (codes "aaab") (codes "aa") (codes "x") ≡ codes "xab")
    × (replace_all (codes "ab") [] (codes "-") ≡ codes "-a-b-")
    × (replace_all (195 ∷ 169 ∷ []) [] (codes "-") ≡ b'-' ∷ 195 ∷ 169 ∷ b'-' ∷ [])
    × (replace_first (codes "abab") (codes "b") (codes "cd") ≡ codes "acdab")
unfolding replace_all replace_first
replace_test = (refl, refl, refl, refl)
