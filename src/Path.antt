-- ===== src/Path.antt =====
-- internal/path (the Unix build): document paths are cleaned and checked before they are stored.
pub mod Safe
pub mod Names
use llmd.Prelude.{
  ℕ, ◌+◌, ◌-◌, Bool, true, false, not, ◌&&◌, ◌||◌, List, [], ◌∷◌, ◌++◌, Bytes, codes, str_eq,
  is_empty, length, take, drop, map, ltb, if◌then◌else◌, Result, ok, err, err_invalid, ◌≡◌, refl,
}
use mathlib.Core.List.{reverse}
use llmd.Sql.{fold_case}
use llmd.Text.{
  has_prefix, trim_prefix, trim_suffix, contains, contains_byte, replace_byte, split, join,
}

abbrev pub slash : ℕ
slash = b'/'

abbrev pub backslash : ℕ
backslash = 92

abbrev pub dot : Bytes
dot = codes "."

abbrev pub dot_dot : Bytes
dot_dot = codes ".."

-- filepath.Clean, by its documented rules: the elements that are kept, the last one first.
abbrev pub push_element : Bool → List Bytes → Bytes → List Bytes
push_element rooted [] e =
    if is_empty e || str_eq e dot then [] else if str_eq e dot_dot && rooted then [] else e ∷ []
push_element rooted (top ∷ stack) e =
    if is_empty e || str_eq e dot
    then top ∷ stack
    else if str_eq e dot_dot && not (str_eq top dot_dot)
    then stack
    else e ∷ top ∷ stack

unfoldable pub clean_loop : Bool → List Bytes → List Bytes → List Bytes
clean_loop rooted stack [] = stack
clean_loop rooted stack (e ∷ es) = clean_loop rooted (push_element rooted stack e) es

unfoldable pub clean : Bytes → Bytes
unfolding clean_loop has_prefix split join
clean p =
    let rooted = has_prefix p (slash ∷ []) in
    let out = join slash (reverse (clean_loop rooted [] (split slash p))) in
    if rooted then slash ∷ out else if is_empty out then dot else out

-- The `.md` extension, in any case.
unfoldable pub strip_md : Bytes → Bytes
unfolding fold_case str_eq
strip_md p =
    if ltb 3 (length p) && str_eq (map fold_case (drop (length p - 3) p)) (codes ".md")
    then take (length p - 3) p
    else p

-- the conversions of Normalise, before it validates
unfoldable pub to_document : Bytes → Bytes
unfolding clean strip_md replace_byte trim_prefix trim_suffix
to_document p =
    strip_md
      (trim_suffix (trim_prefix (clean (replace_byte backslash slash p)) (slash ∷ [])) (slash ∷ []))

unfoldable pub normalise : Bytes → Result Bytes
unfolding to_document str_eq contains
normalise p =
    if is_empty p
    then err err_invalid
    else let q = to_document p in
      if is_empty q || str_eq q dot || str_eq q dot_dot
      then err err_invalid
      else if contains q dot_dot
      then err err_invalid
      else ok q

-- Is `path` a direct child of `pre`, or `pre` itself?
unfoldable pub direct : Bytes → Bytes → Bool
unfolding str_eq replace_byte trim_suffix has_prefix contains_byte
direct path pre =
    let dir = trim_suffix (replace_byte backslash slash pre) (slash ∷ []) in
    if str_eq path dir
    then true
    else if is_empty dir
    then not (contains_byte path slash)
    else if has_prefix path (dir ++ slash ∷ [])
    then not (contains_byte (drop (length dir + 1) path) slash)
    else false

normalise_test :
    (normalise (codes "/docs//a/../readme.md") ≡ ok (codes "docs/readme"))
    × (normalise (codes "docs\\x.MD") ≡ ok (codes "docs/x"))
    × (normalise (codes "../etc") ≡ err err_invalid)
    × (normalise (codes "/") ≡ err err_invalid)
    × (normalise (codes "x/.md") ≡ ok (codes "x/"))
unfolding normalise
normalise_test = (refl, refl, refl, refl, refl)

direct_test :
    (direct (codes "docs/readme") (codes "docs/") ≡ true)
    × (direct (codes "docs/api/auth") (codes "docs") ≡ false)
    × (direct (codes "docs") (codes "docs") ≡ true)
    × (direct (codes "docs/readme") [] ≡ false)
unfolding direct
direct_test = (refl, refl, refl, refl)
