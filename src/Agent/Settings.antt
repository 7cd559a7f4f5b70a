-- ===== src/Agent/Settings.antt =====
-- internal/mcp/tools_config.go: the tools for the configuration. What config.Load, Save and
-- ReloadConfig give are arguments.
use llmd.Prelude.{
  Bool, true, false, List, [], ◌∷◌, Bytes, codes, is_empty, if◌then◌else◌, Result, ok, err, ◌>>=◌,
  ◌>>◌,
}
use llmd.Config.{Config, get, set}
use llmd.Agent.{Request, get_string}
use llmd.Agent.Files.{require_text}

-- The six keys that All lists.
abbrev all_keys : List Bytes
all_keys =
    codes "author.name"
    ∷ codes "author.email"
    ∷ codes "sync.files"
    ∷ codes "limits.max_path"
    ∷ codes "limits.max_content"
    ∷ codes "limits.max_line_length"
    ∷ []

abbrev values : Config → List Bytes → Result (List (Bytes × Bytes))
values c [] = ok []
values c (key ∷ keys) = elim (get c key) [
  | err e ↦ err e
  | ok v ↦ elim (values c keys) [ err e ↦ err e | ok rest ↦ ok ((key, v) ∷ rest) ]
]

unfoldable pub config_get : Result Config → Request → Result (List (Bytes × Bytes))
config_get (err e) req = err e
config_get (ok c) req =
    let key = get_string req (codes "key") [] in
    if is_empty key then values c all_keys else values c (key ∷ [])

-- The saved configuration, and whether the running service took it over.
abbrev after_set :
    (Config → Result (Unit {0}))
    → Result (Unit {0})
    → Result (Unit {0}) × Config
    → Result (Config × Bool)
after_set save reload (err e, c) = err e
after_set save reload (ok _, c) = elim (save c) [
  | err e ↦ err e
  | ok _ ↦ elim reload [ ok _ ↦ ok (c, true) | err _ ↦ ok (c, false) ]
]

unfoldable pub config_set :
    (Bytes → Bytes)
    → Result Config
    → (Config → Result (Unit {0}))
    → Result (Unit {0})
    → Request
    → Result (Config × Bool)
config_set to_lower load save reload req = do
  require_text (req.require_string (codes "author"))
  key ← require_text (req.require_string (codes "key"))
  value ← require_text (req.require_string (codes "value"))
  c ← load
  after_set save reload (set to_lower c key value)
