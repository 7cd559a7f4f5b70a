-- ===== src/Validate.antt =====
-- internal/validate: what the store accepts at its boundary.
use llmd.Prelude.{
  ℕ, ◌&&◌, Bytes, str_eq, is_empty, length, ltb, if◌then◌else◌, Result, ok, err, ◌>>◌,
  err_invalid_path, err_path_too_long, err_content_too_large, err_invalid_tag, err_invalid_link,
}
use llmd.Text.{contains_byte}
use llmd.Path.{normalise}

abbrev invalid_path : Result Bytes → Result Bytes
invalid_path (ok p) = ok p
invalid_path (err _) = err err_invalid_path

-- `max_len` 0 means no limit
unfoldable pub path : Bytes → ℕ → Result Bytes
unfolding contains_byte normalise
path p max_len =
    if is_empty p
    then err err_invalid_path
    else if contains_byte p 0
    then err err_invalid_path
    else if ltb 0 max_len && ltb max_len (length p)
    then err err_path_too_long
    else invalid_path (normalise p)

unfoldable pub content : Bytes → ℕ → Result (Unit {0})
content text max_len =
    if ltb 0 max_len && ltb max_len (length text) then err err_content_too_large else ok tt

unfoldable pub tag : Bytes → Result (Unit {0})
unfolding contains_byte
tag t =
    if is_empty t
    then err err_invalid_tag
    else if contains_byte t 0
    then err err_invalid_tag
    else ok tt

abbrev invalid_link : Result Bytes → Result (Unit {0})
invalid_link (ok _) = ok tt
invalid_link (err _) = err err_invalid_link

unfoldable pub link : Bytes → Bytes → Result (Unit {0})
unfolding path str_eq
link from to = do
  invalid_link (path from 0)
  invalid_link (path to 0)
  if str_eq from to then err err_invalid_link else ok tt
