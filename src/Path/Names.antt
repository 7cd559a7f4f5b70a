-- ===== src/Path/Names.antt =====
-- What the program uses of Go's path/filepath on Unix, by its documented rules.
use llmd.Prelude.{
  List, [], ◌∷◌, ◌++◌, Bytes, codes, is_empty, str_eq, ◌==◌, if◌then◌else◌, ◌≡◌, refl,
}
use mathlib.Core.List.{reverse}
use llmd.Text.{split, join}
use llmd.Path.{slash, dot, clean}

abbrev last_of : Bytes → List Bytes → Bytes
last_of p [] = p
last_of p (q ∷ qs) = last_of q qs

abbrev all_but_last : Bytes → List Bytes → List Bytes
all_but_last p [] = []
all_but_last p (q ∷ qs) = p ∷ all_but_last q qs

abbrev drop_slashes : Bytes → Bytes
drop_slashes [] = []
drop_slashes (c ∷ s) = let rest = drop_slashes s in if c == slash then rest else c ∷ s

abbrev last_element : List Bytes → Bytes
last_element [] = []
last_element (p ∷ ps) = last_of p ps

abbrev but_last_element : List Bytes → List Bytes
but_last_element [] = []
but_last_element (p ∷ ps) = all_but_last p ps

-- filepath.Base: the last element, less the slashes at the end
unfoldable pub base : Bytes → Bytes
unfolding split
base p =
    let trimmed = reverse (drop_slashes (reverse p)) in
    if is_empty p
    then dot
    else if is_empty trimmed
    then slash ∷ []
    else last_element (split slash trimmed)

-- filepath.Dir: what stands before the last slash, with it, cleaned
unfoldable pub dir_name : Bytes → Bytes
unfolding split join clean
dir_name p = elim (but_last_element (split slash p)) [
  | [] ↦ clean []
  | e ∷ es ↦ clean (join slash (e ∷ es) ++ slash ∷ [])
]

-- filepath.Join of two elements
unfoldable pub join_path : Bytes → Bytes → Bytes
unfolding clean
join_path a b =
    if is_empty a
    then (if is_empty b then [] else clean b)
    else if is_empty b
    then clean a
    else clean (a ++ slash ∷ b)

names_test :
    (base (codes "a/b//") ≡ codes "b")
    × (base (codes "b.md") ≡ codes "b.md")
    × (base (codes "//") ≡ codes "/")
    × (dir_name (codes "a/b/c.md") ≡ codes "a/b")
    × (dir_name (codes "c.md") ≡ codes ".")
    × (dir_name (codes "/c.md") ≡ codes "/")
    × (join_path (codes "a/") (codes "../b") ≡ codes "b")
unfolding base dir_name join_path str_eq
names_test = (refl, refl, refl, refl, refl, refl, refl)
