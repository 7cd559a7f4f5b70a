-- ===== src/Export/Back.antt =====
-- The path of an exported file leads back to the document when the directory is imported.
use llmd.Prelude.{◌∷◌, ◌++◌, Bytes, is_empty, if◌then◌else◌}
use llmd.Path.{slash}
use llmd.Validate

-- the path of a document under a prefix
abbrev pub under : Bytes → Bytes → Bytes
under pre rel = if is_empty pre then rel else pre ++ slash ∷ rel
