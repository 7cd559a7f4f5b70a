-- ===== src/Extension/Registry.antt =====
-- extension/registry.go: the extensions by name, in the order of their registration.
use llmd.Prelude.{
  List, [], ◌∷◌, ◌++◌, Option, none, some, Bytes, str_eq, if◌then◌else◌, Result, ok, err, panic,
  map,
}

-- the map, and the names in order
pub record Registry (Extension : Type 0) : Type 0 where
  pub registry : List (Bytes × Extension)
  pub order : List Bytes

module _ {Extension : Type 0} where
  unfoldable pub lookup : Bytes → List (Bytes × Extension) → Option Extension
  lookup name [] = none
  lookup name ((n, e) ∷ rest) =
      let later = lookup name rest in if str_eq n name then some e else later

  -- Get
  unfoldable pub get : Registry Extension → Bytes → Option Extension
  unfolding lookup
  get r name = lookup name r.registry

  abbrev added : Bytes → Extension → Registry Extension → Registry Extension
  added name e r = record { registry = (name, e) ∷ r.registry; order = r.order ++ name ∷ [] }

  -- Register, with the name that the extension gives itself
  unfoldable pub register : Bytes → Extension → Registry Extension → Result (Registry Extension)
  unfolding get
  register name e r = elim (get r name) [ some _ ↦ err panic | none ↦ ok (added name e r) ]

  -- All: nil where the map has no entry
  unfoldable pub all : Registry Extension → List (Option Extension)
  unfolding get
  all r = map (get r) r.order

  -- Names
  unfoldable pub names : Registry Extension → List Bytes
  names r = r.order
