-- ===== src/Agent.antt =====
-- internal/mcp: the tools that an agent calls. A tool takes its arguments from a request, checks
-- them, calls the service and gives a reply, or an error in its place. The texts of replies, and the
-- log, are left out.
pub mod Documents
pub mod Labels
pub mod Tools
pub mod Audit
pub mod Resources
pub mod Files
pub mod Settings
pub mod Server
use llmd.Prelude.{
  ℕ, Bool, List, [], ◌∷◌, Option, none, some, Bytes, if◌then◌else◌, err_not_initialised,
  err_required,
}
use llmd.Text.Numbers.{ℤ, pos, negsuc}
use llmd.Store.{Document, Link}
use llmd.Diff.{DiffResult}
use llmd.Ls.{Listing}
use llmd.Service.{Action, return, fail, ◌>>=◌}

-- An argument as JSON decodes it. The items of an array that are no texts are `none`.
pub data Argument : Type 0 where
  absent : Argument
  text : Bytes → Argument
  flag : Bool → Argument
  number : ℤ → Argument
  items : List (Option Bytes) → Argument

-- What the protocol's library gives a handler: the map of arguments, and its own RequireString,
-- with `none` for an error.
pub record Request : Type 0 where
  pub argument : Bytes → Argument
  pub require_string : Bytes → Option Bytes

abbrev pub get_string : Request → Bytes → Bytes → Bytes
get_string req name def = elim (req.require_string name) [ some v ↦ v | none ↦ def ]

abbrev flag_or : Argument → Bool → Bool
flag_or (flag b) def = b
flag_or _ def = def

abbrev pub get_bool : Request → Bytes → Bool → Bool
get_bool req name def = flag_or (req.argument name) def

abbrev number_or : Argument → ℤ → ℤ
number_or (number n) def = n
number_or _ def = def

abbrev pub get_int : Request → Bytes → ℤ → ℤ
get_int req name def = number_or (req.argument name) def

abbrev pub some_items : List (Option Bytes) → List Bytes
some_items [] = []
some_items (none ∷ xs) = some_items xs
some_items (some x ∷ xs) = x ∷ some_items xs

abbrev items_of : Argument → List Bytes
items_of (items xs) = some_items xs
items_of _ = []

abbrev pub get_strings : Request → Bytes → List Bytes
get_strings req name = items_of (req.argument name)

-- A number of a version: below 1 there is none, as with 0.
abbrev pub version_of : ℤ → ℕ
version_of (pos n) = n
version_of (negsuc n) = 0

pub data Reply : Type 0 where
  listing : Listing → Reply
  documents : (with_content : Bool) → List Document → Reply
  done : Bytes → Reply
  deleted_version : Bytes → ℕ → Reply
  deleted : List Bytes → Reply
  restored : List (Bytes × Bytes) → Reply
  reverted : (path : Bytes) (to new : ℕ) (key message : Bytes) → Reply
  moved : List (Bytes × Bytes) → Reply
  texts : List Bytes → Reply
  links : List Link → Reply
  linked : (id from to tag : Bytes) → Reply
  count : ℕ → Reply
  compared : DiffResult → Reply

module _ {Files : Type 0} where
  -- requireInit
  abbrev pub require_init : Bool → Action Files Reply → Action Files Reply
  require_init initialised tool = if initialised then tool else fail err_not_initialised

  -- `return mcp.NewToolResultError("... is required")`
  abbrev pub required : Request → Bytes → Action Files Bytes
  required req name = elim (req.require_string name) [
    | some v ↦ return v
    | none ↦ fail err_required
  ]
