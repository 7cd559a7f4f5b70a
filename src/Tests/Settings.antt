-- ===== src/Tests/Settings.antt =====
-- The properties of the configuration at concrete inputs.
use llmd.Prelude.{◌≡◌, refl, map, codes, ok, Bytes, arith}
use llmd.Sql.{fold_case}
use llmd.Text.Numbers.{atoi}
use llmd.Config.{empty, path_key, sync_key, key_name, key_of, get, set, validate}
use llmd.Config.Keys.{shown, get-set}

abbrev name : Bytes
name = codes "limits.max_path"

accepted : (set (map fold_case) empty name (codes "2048")).0 ≡ ok tt
unfolding set key_of atoi validate
accepted = refl

get-set_example :
    (get (set (map fold_case) empty name (codes "2048")).1 name
      ≡ ok (shown (map fold_case) path_key (codes "2048")))
    × (validate (set (map fold_case) empty name (codes "2048")).1 ≡ ok tt)
    × (get (set (map fold_case) empty name (codes "2048")).1 (key_name sync_key)
        ≡ get empty (key_name sync_key))
get-set_example =
    get-set (map fold_case) empty path_key sync_key (codes "2048") accepted (ground arith)
