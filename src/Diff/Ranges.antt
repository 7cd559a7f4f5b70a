-- ===== src/Diff/Ranges.antt =====
-- Ranges of versions and of lines, printed and read back.
use llmd.Prelude.{
  ℕ, ◌^◌, ◌<◌, ◌≡◌, refl, ◌∷◌, ◌++◌, arith, ltb, leb, ◌&&◌, ok, err, if◌then◌else◌, err_versions,
}
use llmd.Text.Numbers.{pos, itoa}
use llmd.Text.Numbers.Printed.{atoi-itoa, split-itoa, itoa-ne}
use llmd.Diff.{parse_version_range}

-- A range of versions that is printed is read back if it starts at 1 or later and does not run
-- backwards, and is refused otherwise.
pub parse_version_range-itoa :
    (a b : ℕ)
    → a < 2 ^ 63
    → b < 2 ^ 63
    → parse_version_range (itoa a ++ b':' ∷ itoa b)
      ≡ (if ltb 0 a && leb a b then ok (pos a, pos b) else err err_versions)
unfolding parse_version_range
parse_version_range-itoa a b h k =
    rw (split-itoa b':' a b refl, itoa-ne a, itoa-ne b, atoi-itoa a h, atoi-itoa b k) (ground arith)
