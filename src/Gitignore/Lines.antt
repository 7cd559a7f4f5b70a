-- ===== src/Gitignore/Lines.antt =====
-- What a database that was added changes in the lines of .gitignore.
use llmd.Prelude.{
  ℕ, Bool, true, false, ◌||◌, List, [], ◌∷◌, ◌++◌, append_assoc, map, Bytes, str_eq, str_eq→eq,
  is_empty, ◌≡◌, ◌≢◌, refl, ◌∙◌, arith, Bool-cases, inl, inr, ap, if◌then◌else◌,
}
use mathlib.Core.List.{map-append}
use llmd.Text.{split, cons_first, contains_line}
use llmd.Text.Split.{IsFree, split-ne-nil, split-append}
use llmd.Gitignore.{newline, local_db_header, header_for, trim_space, is_ignored, ignore_db}

append-cons_first :
    (c : ℕ) (ps qs : List Bytes) → ps ≢ [] → cons_first c (ps ++ qs) ≡ cons_first c ps ++ qs
append-cons_first c [] qs h = absurd (h refl)
append-cons_first c (p ∷ ps) qs h = refl

split-append_any : (sep : ℕ) (p s : Bytes) → split sep (p ++ sep ∷ s) ≡ split sep p ++ split sep s
unfolding split
split-append_any sep [] s = ground arith
split-append_any sep (c ∷ p) s = ground (
  arith,
  split-append_any sep p s,
  append-cons_first c (split sep p) (split sep s) (split-ne-nil sep p),
)

contains_line-append :
    (xs ys : List Bytes) (l : Bytes)
    → contains_line (xs ++ ys) l ≡ (contains_line xs l || contains_line ys l)
unfolding contains_line
contains_line-append [] ys l = refl
contains_line-append (x ∷ xs) ys l = ground (arith, contains_line-append xs ys l)

-- The lines of two texts, with a line feed between them.
is_ignored-append :
    (p s g : Bytes) → is_ignored (p ++ newline ∷ s) g ≡ (is_ignored p g || is_ignored s g)
unfolding is_ignored
is_ignored-append p s g =
    rw (split-append_any newline p s, map-append)
      (contains_line-append (map trim_space (split newline p)) _ g)

is_ignored-line :
    (f s g : Bytes)
    → IsFree newline f
    → trim_space f ≡ f
    → is_ignored (f ++ newline ∷ s) g ≡ (str_eq f g || is_ignored s g)
unfolding is_ignored
is_ignored-line f s g free trimmed = rw (split-append newline f s free, trimmed)

no_line : (g : Bytes) → is_empty g ≡ false → is_ignored [] g ≡ false
unfolding is_ignored str_eq
no_line [] h = cc
no_line (c ∷ g) h = refl

header-IsFree : IsFree newline local_db_header
header-IsFree = omega arith

header_trimmed : trim_space local_db_header ≡ local_db_header
unfolding trim_space
header_trimmed = refl

after_header :
    (there : Bool) (s g : Bytes)
    → is_empty g ≡ false
    → str_eq local_db_header g ≡ false
    → is_ignored (header_for there ++ s) g ≡ is_ignored s g
after_header true s g h k = refl
after_header false s g h k =
    is_ignored-append [] (local_db_header ++ newline ∷ s) g
    ∙ rw (no_line g h) (is_ignored-line local_db_header s g header-IsFree header_trimmed ∙ rw k)

known :
    (text f g : Bytes)
    → is_ignored text f ≡ true
    → is_ignored text g ≡ (str_eq f g || is_ignored text g)
known text f g old = elim (Bool-cases (str_eq f g)) [
  | inl e ↦ rw (e, ← str_eq→eq f g e) old
  | inr e ↦ rw e
]

added :
    (there : Bool) (f g body : Bytes)
    → IsFree newline f
    → trim_space f ≡ f
    → is_empty g ≡ false
    → str_eq local_db_header g ≡ false
    → is_ignored ((body ++ newline ∷ []) ++ (header_for there ++ (f ++ newline ∷ []))) g
      ≡ (str_eq f g || is_ignored (body ++ newline ∷ []) g)
added there f g body free trimmed h k =
    rw
      (
        append_assoc body (newline ∷ []) (header_for there ++ (f ++ newline ∷ [])),
        is_ignored-append body (header_for there ++ (f ++ newline ∷ [])) g,
        after_header there (f ++ newline ∷ []) g h k,
        is_ignored-line f [] g free trimmed,
        is_ignored-append body [] g,
        no_line g h,
      )
      (ground arith)

ignored_after :
    (f g body : Bytes)
    → IsFree newline f
    → trim_space f ≡ f
    → is_empty g ≡ false
    → str_eq local_db_header g ≡ false
    → is_ignored (ignore_db f (body ++ newline ∷ [])) g
      ≡ (str_eq f g || is_ignored (body ++ newline ∷ []) g)
unfolding ignore_db
ignored_after f g body free trimmed h k = elim (Bool-cases (is_ignored (body ++ newline ∷ []) f)) [
  | inl old ↦ rw old (known (body ++ newline ∷ []) f g old)
  | inr new ↦
      rw new (added (is_ignored (body ++ newline ∷ []) local_db_header) f g body free trimmed h k)
]

-- the lines that come with the first database: an empty one and the header
abbrev pub header_lines : Bool → List Bytes
header_lines true = []
header_lines false = [] ∷ local_db_header ∷ []

split-line : (f : Bytes) → IsFree newline f → split newline (f ++ newline ∷ []) ≡ f ∷ [] ∷ []
unfolding split
split-line f free = split-append newline f [] free

split-added :
    (there : Bool) (f : Bytes)
    → IsFree newline f
    → split newline (header_for there ++ (f ++ newline ∷ [])) ≡ header_lines there ++ f ∷ [] ∷ []
unfolding split
split-added true f free = split-line f free
split-added false f free =
    split-append_any newline [] (local_db_header ++ newline ∷ (f ++ newline ∷ []))
    ∙ rw (split-append newline local_db_header (f ++ newline ∷ []) header-IsFree)
        (ap (λ ls. [] ∷ local_db_header ∷ ls) (split-line f free))

split-ignore_db :
    (f body : Bytes)
    → IsFree newline f
    → split newline (ignore_db f (body ++ newline ∷ [])) ≡ (
        if is_ignored (body ++ newline ∷ []) f
        then split newline (body ++ newline ∷ [])
        else split newline body
          ++ (header_lines (is_ignored (body ++ newline ∷ []) local_db_header) ++ f ∷ [] ∷ []))
unfolding ignore_db
split-ignore_db f body free = elim (Bool-cases (is_ignored (body ++ newline ∷ []) f)) [
  | inl old ↦ rw old refl
  | inr new ↦
      let there = is_ignored (body ++ newline ∷ []) local_db_header in
      rw
        (
          new,
          append_assoc body (newline ∷ []) (header_for there ++ (f ++ newline ∷ [])),
          split-append_any newline body (header_for there ++ (f ++ newline ∷ [])),
          split-added there f free,
        )
        refl
]

-- In a file that ends with a line feed, for a name with no line feed and no space at its ends:
-- `ignore_db` keeps the file if the name is ignored already. Otherwise it keeps every line as it
-- is, in order, and adds lines at the end: an empty line and the header, if the header is missing,
-- and the name. Then of the names that are neither empty nor the header, this one is ignored, and
-- each other one exactly if it was before.
pub is_ignored-ignore_db :
    (f g body : Bytes)
    → IsFree newline f
    → trim_space f ≡ f
    → is_empty g ≡ false
    → str_eq local_db_header g ≡ false
    → (split newline (ignore_db f (body ++ newline ∷ [])) ≡ (
        if is_ignored (body ++ newline ∷ []) f
        then split newline (body ++ newline ∷ [])
        else split newline body
          ++ (header_lines (is_ignored (body ++ newline ∷ []) local_db_header) ++ f ∷ [] ∷ [])))
      × (is_ignored (ignore_db f (body ++ newline ∷ [])) g
          ≡ (str_eq f g || is_ignored (body ++ newline ∷ []) g))
is_ignored-ignore_db f g body free trimmed h k =
    (split-ignore_db f body free, ignored_after f g body free trimmed h k)
