-- ===== src/Config.antt =====
-- internal/config: the settings, their defaults and bounds, and access by key.
pub mod Keys
use llmd.Prelude.{
  ℕ, suc, ◌*◌, Bool, true, false, not, ◌&&◌, ◌||◌, [], ◌∷◌, List, Option, none, some, Bytes, codes,
  str_eq, is_empty, is_null, if◌then◌else◌, Result, ok, err, err_invalid_value, err_unknown_key,
  ◌>>◌, ◌≡◌, refl,
}
use llmd.Text.Numbers.{ℤ, pos, negsuc, int_ltb, atoi, itoa}

-- The fields of Author, Sync and Limits; `none` is a nil pointer.
pub record Config : Type 0 where
  pub name : Bytes
  pub email : Bytes
  pub files : Option Bool
  pub max_path : Option ℤ
  pub max_content : Option ℤ
  pub max_line_length : Option ℤ

abbrev pub empty : Config
empty = record {
  name = [];
  email = [];
  files = none;
  max_path = none;
  max_content = none;
  max_line_length = none;
}

abbrev pub max_max_path : ℕ
max_max_path = 65536

abbrev pub max_max_content : ℕ
max_max_content = 10 * 1024 * 1024 * 1024

abbrev pub max_max_line_length : ℕ
max_max_line_length = 1024 * 1024 * 1024

abbrev pub value_or : {A : Type 0} → Option A → A → A
value_or none default = default
value_or (some a) default = a

abbrev pub sync_files : Config → Bool
sync_files c = value_or c.files false

abbrev pub path_limit : Config → ℤ
path_limit c = value_or c.max_path (pos 1024)

abbrev pub content_limit : Config → ℤ
content_limit c = value_or c.max_content (pos (100 * 1024 * 1024))

abbrev pub line_limit : Config → ℤ
line_limit c = value_or c.max_line_length (pos (10 * 1024 * 1024))

abbrev pub within : ℕ → Option ℤ → Result (Unit {0})
within bound none = ok tt
within bound (some v) =
    if int_ltb v (pos 1) || int_ltb (pos bound) v then err err_invalid_value else ok tt

unfoldable pub validate : Config → Result (Unit {0})
validate c =
    within max_max_path c.max_path
    >> within max_max_content c.max_content
    >> within max_max_line_length c.max_line_length

-- the keys of ValidKeys
pub data Key : Type 0 where
  author_name author_email sync_key path_key content_key line_key : Key

abbrev pub key_name : Key → Bytes
key_name author_name = codes "author.name"
key_name author_email = codes "author.email"
key_name sync_key = codes "sync.files"
key_name path_key = codes "limits.max_path"
key_name content_key = codes "limits.max_content"
key_name line_key = codes "limits.max_line_length"

abbrev find_key : Bytes → List Key → Option Key
find_key name [] = none
find_key name (k ∷ ks) = if str_eq name (key_name k) then some k else find_key name ks

-- the case of the switch on a key
unfoldable pub key_of : Bytes → Option Key
unfolding str_eq
key_of name =
    find_key name (author_name ∷ author_email ∷ sync_key ∷ path_key ∷ content_key ∷ line_key ∷ [])

-- strconv.Itoa and FormatInt
abbrev pub print_int : ℤ → Bytes
print_int (pos n) = itoa n
print_int (negsuc n) = b'-' ∷ itoa (suc n)

abbrev pub print_bool : Bool → Bytes
print_bool b = if b then codes "true" else codes "false"

abbrev pub get_key : Config → Key → Bytes
get_key c author_name = c.name
get_key c author_email = c.email
get_key c sync_key = print_bool (sync_files c)
get_key c path_key = print_int (path_limit c)
get_key c content_key = print_int (content_limit c)
get_key c line_key = print_int (line_limit c)

abbrev get_found : Config → Option Key → Result Bytes
get_found c none = err err_unknown_key
get_found c (some k) = ok (get_key c k)

unfoldable pub get : Config → Bytes → Result Bytes
get c key = get_found c (key_of key)

-- a value that is set, and the check of the whole that follows
abbrev pub checked : Config → Result (Unit {0}) × Config
checked c = (validate c, c)

abbrev pub positive : Config → Result ℤ → (ℤ → Config) → Result (Unit {0}) × Config
positive c (err e) update = (err err_invalid_value, c)
positive c (ok n) update =
    if int_ltb n (pos 1) then (err err_invalid_value, c) else checked (update n)

-- `to_lower` is strings.ToLower
abbrev pub set_key : (Bytes → Bytes) → Config → Key → Bytes → Result (Unit {0}) × Config
set_key to_lower c author_name value = checked (record c { name = value })
set_key to_lower c author_email value = checked (record c { email = value })
set_key to_lower c sync_key value =
    let v = to_lower value in
    if not (str_eq v (codes "true")) && not (str_eq v (codes "false"))
    then (err err_invalid_value, c)
    else checked (record c { files = some (str_eq v (codes "true")) })
set_key to_lower c path_key value = positive c (atoi value) (λ n. record c { max_path = some n })
set_key to_lower c content_key value =
    positive c (atoi value) (λ n. record c { max_content = some n })
set_key to_lower c line_key value =
    positive c (atoi value) (λ n. record c { max_line_length = some n })

abbrev set_found : (Bytes → Bytes) → Config → Option Key → Bytes → Result (Unit {0}) × Config
set_found to_lower c none value = (err err_unknown_key, c)
set_found to_lower c (some k) value = set_key to_lower c k value

-- The second part is the configuration that is left behind, also when it fails.
unfoldable pub set : (Bytes → Bytes) → Config → Bytes → Bytes → Result (Unit {0}) × Config
set to_lower c key value = set_found to_lower c (key_of key) value

abbrev is_key_set : Config → Key → Bool
is_key_set c author_name = not (is_empty c.name)
is_key_set c author_email = not (is_empty c.email)
is_key_set c sync_key = not (is_null c.files)
is_key_set c path_key = not (is_null c.max_path)
is_key_set c content_key = not (is_null c.max_content)
is_key_set c line_key = not (is_null c.max_line_length)

abbrev is_found_set : Config → Option Key → Bool
is_found_set c none = false
is_found_set c (some k) = is_key_set c k

unfoldable pub is_set : Config → Bytes → Bool
is_set c key = is_found_set c (key_of key)

get_test :
    (get empty (codes "limits.max_path") ≡ ok (codes "1024"))
    × (get empty (codes "x") ≡ err err_unknown_key)
unfolding get key_of itoa
get_test = (refl, refl)

-- A value above the bound is refused, and is in the configuration all the same.
bound_test :
    set (λ v. v) empty (codes "limits.max_path") (codes "70000")
    ≡ (err err_invalid_value, record empty { max_path = some (pos 70000) })
unfolding set key_of atoi validate
bound_test = refl
