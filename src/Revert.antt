-- ===== src/Revert.antt =====
-- internal/revert: the content of an old version becomes a new version.
pub mod Forward
use llmd.Prelude.{
  ℕ, Bool, true, false, not, ◌++◌, Bytes, codes, ltb, if◌then◌else◌, Result, ok, err, err_missing,
  err_usage, err_deleted, is_empty,
}
use llmd.Text.Numbers.{itoa}
use llmd.Store.{Document, Db}
use llmd.Store.Read
use llmd.Store.Read.{is_active}
use llmd.Service.{Service, Mirror, Action, ask, of_result, return, ◌>>=◌, ◌>>◌}
use llmd.Service.Read.{resolve, latest, version}
use llmd.Service.Write.{write, is_not_found}

-- revert.Options
pub record Options : Type 0 where
  pub author : Bytes
  pub message : Bytes
  pub key : Bytes

-- revert.Result
pub record Reverted : Type 0 where
  pub path : Bytes
  pub reverted_to : ℕ
  pub new_version : ℕ
  pub key : Bytes
  pub author : Bytes
  pub message : Bytes

-- a lookup that failed, with a message of its own if there is no such row
abbrev pub or_missing : {A : Type 0} → Result A → Result A
or_missing (ok a) = ok a
or_missing (err e) = if is_not_found e then err err_missing else err e

-- the document, and whether a key named it
abbrev pub named : Bool → Result Document → Result (Document × Bool)
named used_key (ok doc) = ok (doc, used_key)
named used_key (err e) = err e

-- A path alone does not say which version is meant.
abbrev pub only_key : Result (Document × Bool) → Result (Document × Bool)
only_key (ok (doc, true)) = ok (doc, true)
only_key (ok (doc, false)) = err err_usage
only_key (err e) = err e

-- the version that the arguments name
unfoldable pub target_version : Db → Bytes → ℕ → Bytes → Result (Document × Bool)
target_version db target ver key =
    if not (is_empty key)
    then named true (or_missing (Read.by_key db key))
    else if ltb 0 ver
    then named false (or_missing (version db target ver))
    else only_key (or_missing (resolve db target false))

abbrev pub message_for : Bytes → Bytes → Bool → ℕ → Bytes
message_for message target used_key ver =
    if not (is_empty message)
    then message
    else if used_key
    then codes "Revert to " ++ target
    else codes "Revert to v" ++ itoa ver

-- `if current.DeletedAt != nil { return error }`
abbrev pub require_active : Document → Result (Unit {0})
require_active d = if is_active d then ok tt else err err_deleted

unfoldable pub run :
    {Files : Type 0}
    → Service
    → Mirror Files
    → Bytes
    → ℕ
    → Options
    → Bytes
    → ℕ
    → Action Files Reverted
run s fs target ver opts key now = do
  found ← ask (λ db. target_version db target ver opts.key)
  let doc = found.0
  let message = message_for opts.message target found.1 doc.version
  current ← ask (λ db. latest db doc.path true)
  of_result (require_active current)
  write s fs doc.path doc.content opts.author message key now
  new_doc ← ask (λ db. latest db doc.path false)
  return (record {
    path = doc.path;
    reverted_to = doc.version;
    new_version = new_doc.version;
    key = doc.key;
    author = opts.author;
    message = message;
  })
