-- ===== src/Path/Safe.antt =====
-- What a normal form cannot hold.
use mathlib.Core.List.{reverse, reverse_aux}
use llmd.Sql.{fold_case}
use llmd.Prelude.{
  take-All, drop-All, append-All, ℕ, ◌-◌, ◌≡◌, ◌≢◌, refl, Bool, true, false, not, ◌&&◌, ◌||◌, List,
  [], ◌∷◌, map, Bytes, codes, str_eq, is_empty, length, take, drop, All, ok, err, err_invalid,
  arith, ◌==◌, ltb, if◌then◌else◌,
}
use llmd.Text.{
  has_prefix, trim_prefix, trim_suffix, contains, contains_byte, replace_byte, split, join,
  cons_first,
}
use llmd.Path.{
  slash, backslash, dot, dot_dot, push_element, clean_loop, clean, strip_md, to_document, normalise,
}

module _ (P : ℕ → Type 0) where
  abbrev Pieces : List Bytes → Type 0
  Pieces = All (All P)

  if-All : (b : Bool) (s t : Bytes) → All P s → All P t → All P (if b then s else t)
  if-All true s t h k = h
  if-All false s t h k = k

  if-Pieces : (b : Bool) (s t : List Bytes) → Pieces s → Pieces t → Pieces (if b then s else t)
  if-Pieces true s t h k = h
  if-Pieces false s t h k = k

  cons_first-All : (c : ℕ) (ps : List Bytes) → P c → Pieces ps → Pieces (cons_first c ps)
  cons_first-All c [] h k = ((h, tt), tt)
  cons_first-All c (p ∷ ps) h k = ((h, k.0), k.1)

  split-All : (sep : ℕ) (s : Bytes) → All P s → Pieces (split sep s)
  unfolding split
  split-All sep [] h = (tt, tt)
  split-All sep (c ∷ s) h =
      if-Pieces (c == sep) _ _ (tt, split-All sep s h.1)
        (cons_first-All c (split sep s) h.0 (split-All sep s h.1))

  join-All : (sep : ℕ) (ps : List Bytes) → P sep → Pieces ps → All P (join sep ps)
  unfolding join
  join-All sep [] h k = tt
  join-All sep (p ∷ []) h k = k.0
  join-All sep (p ∷ q ∷ ps) h k = append-All P p _ k.0 (h, join-All sep (q ∷ ps) h k.1)

  push_element-All :
      (rooted : Bool) (stack : List Bytes) (e : Bytes)
      → Pieces stack
      → All P e
      → Pieces (push_element rooted stack e)
  push_element-All rooted [] e h k =
      if-Pieces (is_empty e || str_eq e dot) [] (if str_eq e dot_dot && rooted then [] else e ∷ [])
        tt (if-Pieces (str_eq e dot_dot && rooted) [] (e ∷ []) tt (k, tt))
  push_element-All rooted (top ∷ stack) e h k =
      if-Pieces (is_empty e || str_eq e dot) (top ∷ stack)
        (if str_eq e dot_dot && not (str_eq top dot_dot) then stack else e ∷ top ∷ stack) h
        (if-Pieces (str_eq e dot_dot && not (str_eq top dot_dot)) stack (e ∷ top ∷ stack) h.1
          (k, h))

  clean_loop-All :
      (rooted : Bool) (stack es : List Bytes)
      → Pieces stack
      → Pieces es
      → Pieces (clean_loop rooted stack es)
  unfolding clean_loop
  clean_loop-All rooted stack [] h k = h
  clean_loop-All rooted stack (e ∷ es) h k =
      clean_loop-All rooted (push_element rooted stack e) es (push_element-All rooted stack e h k.0)
        k.1

  reverse_aux-All : (ps acc : List Bytes) → Pieces ps → Pieces acc → Pieces (reverse_aux ps acc)
  reverse_aux-All [] acc h k = k
  reverse_aux-All (p ∷ ps) acc h k = reverse_aux-All ps (p ∷ acc) h.1 (h.0, k)

  clean-All : (p : Bytes) → P slash → All P dot → All P p → All P (clean p)
  unfolding clean
  clean-All p h d k =
      let out =
        join-All slash (reverse (clean_loop (has_prefix p (slash ∷ [])) [] (split slash p))) h (
          reverse_aux-All (clean_loop (has_prefix p (slash ∷ [])) [] (split slash p)) []
            (clean_loop-All (has_prefix p (slash ∷ [])) [] (split slash p) tt (split-All slash p k))
            tt) in
      if-All (has_prefix p (slash ∷ [])) _ _ (h, out)
        (if-All
          (is_empty
            (join slash (reverse (clean_loop (has_prefix p (slash ∷ [])) [] (split slash p)))))
          dot (join slash (reverse (clean_loop (has_prefix p (slash ∷ [])) [] (split slash p)))) d
          out)

  trim_prefix-All : (s pre : Bytes) → All P s → All P (trim_prefix s pre)
  unfolding trim_prefix
  trim_prefix-All s pre h =
      if-All (has_prefix s pre) (drop (length pre) s) s (drop-All P (length pre) s h) h

  trim_suffix-All : (s suf : Bytes) → All P s → All P (trim_suffix s suf)
  unfolding trim_suffix
  trim_suffix-All [] suf h = tt
  trim_suffix-All (c ∷ s) suf h =
      if-All (str_eq (c ∷ s) suf) [] (c ∷ trim_suffix s suf) tt (h.0, trim_suffix-All s suf h.1)

  strip_md-All : (s : Bytes) → All P s → All P (strip_md s)
  unfolding strip_md
  strip_md-All s h =
      if-All (ltb 3 (length s) && str_eq (map fold_case (drop (length s - 3) s)) (codes ".md"))
        (take (length s - 3) s) s (take-All P (length s - 3) s h) h

-- no backslash is left
replaced-All : (s : Bytes) → All (λ c. c ≢ backslash) (replace_byte backslash slash s)
unfolding replace_byte
replaced-All [] = tt
replaced-All (c ∷ s) = (ground arith, replaced-All s)

to_document-All : (p : Bytes) → All (λ c. c ≢ backslash) (to_document p)
unfolding to_document
to_document-All p = strip_md-All _ _ (
    trim_suffix-All _ _ (slash ∷ []) (
      trim_prefix-All _ _ (slash ∷ [])
        (clean-All _ _ (ground arith) (ground arith, tt) (replaced-All p))))

no_byte : (b : ℕ) (s : Bytes) → All (λ c. c ≢ b) s → contains_byte s b ≡ false
unfolding contains_byte
no_byte b [] h = refl
no_byte b (c ∷ s) h = ground (arith, no_byte b s)

accepted :
    (empty : Bool) (d q : Bytes)
    → contains_byte d backslash ≡ false
    → (if empty
        then err err_invalid
        else if is_empty d || str_eq d dot || str_eq d dot_dot
        then err err_invalid
        else if contains d dot_dot
        then err err_invalid
        else ok d)
      ≡ ok q
    → (is_empty q ≡ false)
      × (str_eq q dot ≡ false)
      × (contains q dot_dot ≡ false)
      × (contains_byte q backslash ≡ false)
accepted empty d q h k = ground arith

-- A path that is accepted is not empty, not the current or the parent directory, and holds no two
-- dots in a row and no backslash.
pub normalise-IsSafe :
    (p : Bytes) {q : Bytes}
    → normalise p ≡ ok q
    → (is_empty q ≡ false)
      × (str_eq q dot ≡ false)
      × (contains q dot_dot ≡ false)
      × (contains_byte q backslash ≡ false)
unfolding normalise
normalise-IsSafe p {q} h =
    accepted (is_empty p) (to_document p) q (no_byte backslash (to_document p) (to_document-All p))
      h
