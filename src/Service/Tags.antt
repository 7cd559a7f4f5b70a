-- ===== src/Service/Tags.antt =====
-- document/tags.go: labels on documents that exist, deleted ones included.
use llmd.Prelude.{ℕ, Bool, true, false, List, Bytes, if◌then◌else◌, Result, ok, err, is_empty}
use llmd.Validate
use llmd.Store.{Document, Db}
use llmd.Store.Tags
use llmd.Store.Tags.{TagOptions}
use llmd.Service.{Service, Action, store, ask, ◌>>=◌, ◌>>◌, fire_event, tag_event}
use llmd.Service.Read.{resolve}

abbrev pub with_limit : Service → TagOptions → TagOptions
with_limit s opts = record opts { max_path = s.max_path }

module _ {Files : Type 0} (s : Service) where
  unfoldable pub tag : Bytes → Bytes → TagOptions → Bytes → ℕ → Action Files (Unit {0})
  tag path label opts key now = do
    found ← ask (λ db. resolve db path true)
    store (Tags.tag found.0.path label (with_limit s opts) key now)
    fire_event s (tag_event found.0.path label opts.source true)

  unfoldable pub untag : Bytes → Bytes → TagOptions → ℕ → Action Files (Unit {0})
  untag path label opts now = do
    found ← ask (λ db. resolve db path true)
    store (Tags.untag found.0.path label (with_limit s opts) now)
    fire_event s (tag_event found.0.path label opts.source false)

unfoldable pub list_tags : Db → Bytes → TagOptions → Result (List Bytes)
list_tags db path opts =
    if is_empty path then ok (Tags.list_tags db path opts) else elim (resolve db path true) [
      | err e ↦ err e
      | ok found ↦ ok (Tags.list_tags db found.0.path opts)
    ]

unfoldable pub list_by_tag : Db → Bytes → Bytes → Bool → Bool → TagOptions → Result (List Document)
list_by_tag db pre label include_deleted deleted_only opts =
    if is_empty pre
    then ok (Tags.list_by_tag db pre label include_deleted deleted_only opts)
    else elim (Validate.path pre 0) [
      | err e ↦ err e
      | ok _ ↦ ok (Tags.list_by_tag db pre label include_deleted deleted_only opts)
    ]
