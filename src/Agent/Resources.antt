-- ===== src/Agent/Resources.antt =====
-- internal/mcp/resources.go: documents as resources, by their URIs.
use llmd.Prelude.{
  ℕ, false, [], ◌∷◌, Option, none, some, Bytes, codes, is_empty, drop, ltb, if◌then◌else◌, Result,
  ok, err, err_invalid, err_required, ◌>>=◌, ◌≡◌, refl,
}
use llmd.Text.{has_prefix, trim_prefix}
use llmd.Text.Numbers.{ℤ, pos, negsuc, atoi}
use llmd.Store.{Db}
use llmd.Service.Read.{resolve, version}

abbrev pub uri_prefix : Bytes
uri_prefix = codes "llmd://documents/"

abbrev pub version_mark : Bytes
version_mark = codes "/v/"

-- What stands in front of the last mark, and behind it.
abbrev before_last : ℕ → Option (Bytes × Bytes) → Option (Bytes × Bytes) → Option (Bytes × Bytes)
before_last c (some (path, rest)) here = some (c ∷ path, rest)
before_last c none here = here

unfoldable pub split_last : Bytes → Option (Bytes × Bytes)
unfolding has_prefix
split_last [] = none
split_last (c ∷ s) =
    before_last c (split_last s)
      (if has_prefix (c ∷ s) version_mark then some ([], drop 3 (c ∷ s)) else none)

abbrev path_and_version : Bytes → Option (Bytes × Bytes) → Result (Bytes × ℤ)
unfolding atoi
path_and_version rest none = ok (rest, pos 0)
path_and_version rest (some (path, v)) = elim (atoi v) [
  | ok n ↦ ok (path, n)
  | err _ ↦ err err_invalid
]

unfoldable pub parse_document_uri : Bytes → Result (Bytes × ℤ)
unfolding has_prefix trim_prefix split_last path_and_version
parse_document_uri uri =
    let rest = trim_prefix uri uri_prefix in
    if has_prefix uri uri_prefix
    then (if is_empty rest then err err_required else path_and_version rest (split_last rest))
    else err err_invalid

-- the text of a document, at a version above 0, or the latest one
abbrev content_at : Db → Bytes → ℤ → Result Bytes
content_at db path (pos n) =
    if ltb 0 n
    then (do d ← version db path n; ok d.content)
    else (do found ← resolve db path false; ok found.0.content)
content_at db path (negsuc _) = do found ← resolve db path false; ok found.0.content

unfoldable pub read_document_resource : Db → Bytes → Result Bytes
unfolding parse_document_uri
read_document_resource db uri = do found ← parse_document_uri uri; content_at db found.0 found.1

-- A document below a folder named v cannot be named: the rest of its path is taken for a version.
uri_test :
    (parse_document_uri (codes "llmd://documents/docs/a/v/3") ≡ ok (codes "docs/a", pos 3))
    × (parse_document_uri (codes "llmd://documents/docs/a") ≡ ok (codes "docs/a", pos 0))
    × (parse_document_uri (codes "llmd://documents/docs/v/a") ≡ err err_invalid)
    × (parse_document_uri (codes "http://docs") ≡ err err_invalid)
unfolding parse_document_uri
uri_test = (refl, refl, refl, refl)
