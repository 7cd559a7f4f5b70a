-- ===== src/Sed.antt =====
-- internal/sed: substitution commands.
pub mod Quoting
pub mod Run
use llmd.Prelude.{
  ℕ, Bool, true, false, List, [], ◌∷◌, ◌++◌, Bytes, codes, ltb, ◌==◌, not, if◌then◌else◌, ◌≡◌, refl,
  is_empty, length, Result, ok, err, ◌>>=◌, err_text_not_found, err_invalid_expr,
  err_unsupported_command,
}
use llmd.Text.{contains, contains_byte}
use llmd.Text.Replace.{replace_first, replace_all}

pub record Expr : Type 0 where
  pub old : Bytes
  pub new : Bytes
  pub global : Bool

abbrev pub backslash : ℕ
backslash = 92

-- the loop of splitByDelim, with what it has of the current part
unfoldable pub split_loop : ℕ → Bool → Bytes → Bytes → List Bytes
split_loop delim escaped current [] = if is_empty current then [] else current ∷ []
split_loop delim true current (c ∷ s) = split_loop delim false (current ++ c ∷ []) s
split_loop delim false current (c ∷ s) =
    let skipped = split_loop delim true current s in
    let ended = split_loop delim false [] s in
    let more = split_loop delim false (current ++ c ∷ []) s in
    if c == backslash then skipped else if c == delim then current ∷ ended else more

unfoldable pub split_by_delim : Bytes → ℕ → List Bytes
unfolding split_loop
split_by_delim s delim = split_loop delim false [] s

abbrev pub has_flag_g : List Bytes → Bool
unfolding contains_byte
has_flag_g [] = false
has_flag_g (flags ∷ _) = contains_byte flags b'g'

abbrev pub expr_of : List Bytes → Result Expr
unfolding contains_byte
expr_of (old ∷ new ∷ flags) = ok (record { old = old; new = new; global = has_flag_g flags })
expr_of _ = err err_invalid_expr

abbrev command : Bytes → Result Expr
unfolding split_by_delim contains_byte
command (c ∷ delim ∷ rest) =
    if c == b's' then expr_of (split_by_delim rest delim) else err err_unsupported_command
command _ = err err_invalid_expr

unfoldable pub parse_expr : Bytes → Result Expr
unfolding split_by_delim contains_byte
parse_expr expr = if ltb (length expr) 4 then err err_invalid_expr else command expr

-- the substitution that Run makes
unfoldable pub substitute : Expr → Bytes → Result Bytes
unfolding contains replace_all replace_first
substitute e content =
    if not (contains content e.old)
    then err err_text_not_found
    else if e.global
    then ok (replace_all content e.old e.new)
    else ok (replace_first content e.old e.new)

parse_test :
    (parse_expr (codes "s/a/b/g") ≡ ok (record { old = codes "a"; new = codes "b"; global = true }))
    × (parse_expr (codes "s|a\\|b|c|")
        ≡ ok (record { old = codes "a|b"; new = codes "c"; global = false }))
    × (parse_expr (codes "s/a/") ≡ err err_invalid_expr)
    × (parse_expr (codes "d/a/b/") ≡ err err_unsupported_command)
unfolding parse_expr
parse_test = (refl, refl, refl, refl)
