-- ===== src/Commands/Tag.antt =====
-- internal/tag: labels of a document that is named by its path or key.
use llmd.Prelude.{ℕ, true, List, [], Bytes, is_empty, if◌then◌else◌, Result, ok, err}
use llmd.Store.{Db}
use llmd.Ls.{new_tag_options}
use llmd.Service.{Service, Action, fetch, ◌>>◌}
use llmd.Service.Read.{resolve}
use llmd.Service.Tags

-- tag.Result, less Tag and Action, which repeat the call
pub record Labelled : Type 0 where
  pub path : Bytes
  pub tags : List Bytes

abbrev tags_or_none : Result (List Bytes) → List Bytes
tags_or_none (ok tags) = tags
tags_or_none (err _) = []

-- The path of the document and its labels, for the result; errors are passed over.
unfoldable pub labelled : Bytes → Db → Labelled
labelled path db = elim (resolve db path true) [
  | err _ ↦ record { path = path; tags = [] }
  | ok found ↦ record {
    path = found.0.path;
    tags = tags_or_none (Tags.list_tags db found.0.path new_tag_options);
  }
]

module _ {Files : Type 0} (s : Service) (key : Bytes) (now : ℕ) where
  unfoldable pub add : Bytes → Bytes → Action Files Labelled
  unfolding labelled
  add path tag = do Tags.tag s path tag new_tag_options key now; fetch (labelled path)

  unfoldable pub remove : Bytes → Bytes → Action Files Labelled
  unfolding labelled
  remove path tag = do Tags.untag s path tag new_tag_options now; fetch (labelled path)

abbrev resolved_path : Bytes → Db → Bytes
resolved_path path db =
    if is_empty path
    then path
    else elim (resolve db path true) [ err _ ↦ path | ok found ↦ found.0.path ]

unfoldable pub list : Db → Bytes → Result Labelled
list db path = elim (Tags.list_tags db path new_tag_options) [
  | err e ↦ err e
  | ok tags ↦ ok (record { path = resolved_path path db; tags = tags })
]
