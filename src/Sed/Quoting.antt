-- ===== src/Sed/Quoting.antt =====
-- Every old and new text can be written as a command, with the delimiter and backslashes escaped.
use llmd.Prelude.{
  ltb, ℕ, ◌≡◌, ◌≢◌, refl, ◌∙◌, ap, Bool, true, false, ◌||◌, [], ◌∷◌, ◌++◌, append_assoc, append-nil,
  Bytes, ◌==◌, if◌then◌else◌, arith, ok, length, length-append,
}
use llmd.Text.{contains_byte}
use llmd.Sed.{Expr, backslash, split_loop, split_by_delim, expr_of, parse_expr}

unfoldable pub escape : ℕ → Bytes → Bytes
escape delim [] = []
escape delim (c ∷ s) =
    let rest = escape delim s in
    if c == backslash || c == delim then backslash ∷ c ∷ rest else c ∷ rest

unfoldable pub flag : Bool → Bytes
flag global = if global then b'g' ∷ [] else []

-- s/old/new/ or s/old/new/g
unfoldable pub write_expr : ℕ → Expr → Bytes
unfolding escape flag
write_expr delim e =
    b's' ∷ delim ∷ (escape delim e.old ++ delim ∷ (escape delim e.new ++ delim ∷ flag e.global))

split_loop-escape :
    (delim : ℕ) (current s rest : Bytes)
    → delim ≢ backslash
    → split_loop delim false current (escape delim s ++ delim ∷ rest)
      ≡ (current ++ s) ∷ split_loop delim false [] rest
unfolding split_loop escape
split_loop-escape delim current [] rest h = ground (arith, append-nil current)
split_loop-escape delim current (c ∷ s) rest h =
    ground
      (arith, append_assoc current (c ∷ []) s, split_loop-escape delim (current ++ c ∷ []) s rest h)

split_loop-flag :
    (delim : ℕ) (global : Bool)
    → delim ≢ b'g'
    → split_loop delim false [] (flag global) ≡ (if global then (b'g' ∷ []) ∷ [] else [])
unfolding split_loop flag
split_loop-flag delim true h = ground arith
split_loop-flag delim false h = refl

expr_of-flag :
    (old new : Bytes) (global : Bool)
    → expr_of (old ∷ new ∷ (if global then (b'g' ∷ []) ∷ [] else []))
      ≡ ok (record { old = old; new = new; global = global })
unfolding contains_byte
expr_of-flag old new true = refl
expr_of-flag old new false = refl

parts :
    (delim : ℕ) (e : Expr)
    → delim ≢ backslash
    → delim ≢ b'g'
    → split_loop delim false []
        (escape delim e.old ++ delim ∷ (escape delim e.new ++ delim ∷ flag e.global))
      ≡ e.old ∷ e.new ∷ (if e.global then (b'g' ∷ []) ∷ [] else [])
parts delim e h k =
    split_loop-escape delim [] e.old (escape delim e.new ++ delim ∷ flag e.global) h
    ∙ ap (λ l. e.old ∷ l)
        (split_loop-escape delim [] e.new (flag e.global) h
          ∙ ap (λ l. e.new ∷ l) (split_loop-flag delim e.global k))

long :
    (delim : ℕ) (old new rest : Bytes)
    → ltb (length (b's' ∷ delim ∷ (old ++ delim ∷ (new ++ delim ∷ rest)))) 4 ≡ false
long delim old new rest =
    ground
      (arith, length-append old (delim ∷ (new ++ delim ∷ rest)), length-append new (delim ∷ rest))

-- A substitution that is written with its delimiter and its backslashes escaped is read back, for
-- each delimiter but the backslash and the letter of the flag.
pub parse_expr-write_expr :
    (delim : ℕ) (e : Expr)
    → delim ≢ backslash
    → delim ≢ b'g'
    → parse_expr (write_expr delim e) ≡ ok e
unfolding parse_expr write_expr split_by_delim
parse_expr-write_expr delim e h k =
    rw (long delim (escape delim e.old) (escape delim e.new) (flag e.global), parts delim e h k)
      (expr_of-flag e.old e.new e.global)
