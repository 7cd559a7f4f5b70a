-- ===== src/Config/Keys.antt =====
-- Reading what was set.
use llmd.Prelude.{
  not, ap, [], Option, Bool-cases, inl, inr, codes, str_eq_iff, ◌&&◌, Result, err, ◌≡◌, ◌≢◌, refl,
  Bool, false, Bytes, ok, err, some, str_eq, arith,
}
use llmd.Text.Numbers.{ℤ, pos, int_ltb, atoi}
use llmd.Config.{
  get_key, set_key, positive, print_int, print_bool, Config, Key, author_name, author_email,
  sync_key, path_key, content_key, line_key, key_name, key_of, get, set, validate,
}

key_of-key_name : (k : Key) → key_of (key_name k) ≡ some k
unfolding key_of str_eq
key_of-key_name author_name = refl
key_of-key_name author_email = refl
key_of-key_name sync_key = refl
key_of-key_name path_key = refl
key_of-key_name content_key = refl
key_of-key_name line_key = refl

-- what a key shows after it was set
abbrev pub shown_int : Result ℤ → Bytes
shown_int (ok n) = print_int n
shown_int (err e) = []

abbrev pub shown : (Bytes → Bytes) → Key → Bytes → Bytes
shown to_lower author_name value = value
shown to_lower author_email value = value
shown to_lower sync_key value = to_lower value
shown to_lower path_key value = shown_int (atoi value)
shown to_lower content_key value = shown_int (atoi value)
shown to_lower line_key value = shown_int (atoi value)

-- Two configurations that agree on all keys but one.
abbrev Agree : Key → Config → Config → Type 0
Agree k c c' = (other : Key) → other ≢ k → get_key c other ≡ get_key c' other

author_name-Agree : (c : Config) (v : Bytes) → Agree author_name (record c { name = v }) c
author_name-Agree c v author_name h = absurd (h refl)
author_name-Agree c v author_email h = refl
author_name-Agree c v sync_key h = refl
author_name-Agree c v path_key h = refl
author_name-Agree c v content_key h = refl
author_name-Agree c v line_key h = refl

author_email-Agree : (c : Config) (v : Bytes) → Agree author_email (record c { email = v }) c
author_email-Agree c v author_name h = refl
author_email-Agree c v author_email h = absurd (h refl)
author_email-Agree c v sync_key h = refl
author_email-Agree c v path_key h = refl
author_email-Agree c v content_key h = refl
author_email-Agree c v line_key h = refl

sync_key-Agree : (c : Config) (v : Option Bool) → Agree sync_key (record c { files = v }) c
sync_key-Agree c v author_name h = refl
sync_key-Agree c v author_email h = refl
sync_key-Agree c v sync_key h = absurd (h refl)
sync_key-Agree c v path_key h = refl
sync_key-Agree c v content_key h = refl
sync_key-Agree c v line_key h = refl

path_key-Agree : (c : Config) (v : Option ℤ) → Agree path_key (record c { max_path = v }) c
path_key-Agree c v author_name h = refl
path_key-Agree c v author_email h = refl
path_key-Agree c v sync_key h = refl
path_key-Agree c v path_key h = absurd (h refl)
path_key-Agree c v content_key h = refl
path_key-Agree c v line_key h = refl

content_key-Agree : (c : Config) (v : Option ℤ) → Agree content_key (record c { max_content = v }) c
content_key-Agree c v author_name h = refl
content_key-Agree c v author_email h = refl
content_key-Agree c v sync_key h = refl
content_key-Agree c v path_key h = refl
content_key-Agree c v content_key h = absurd (h refl)
content_key-Agree c v line_key h = refl

line_key-Agree : (c : Config) (v : Option ℤ) → Agree line_key (record c { max_line_length = v }) c
line_key-Agree c v author_name h = refl
line_key-Agree c v author_email h = refl
line_key-Agree c v sync_key h = refl
line_key-Agree c v path_key h = refl
line_key-Agree c v content_key h = refl
line_key-Agree c v line_key h = absurd (h refl)

-- what a successful `set` leaves behind
abbrev Left : (Bytes → Bytes) → Config → Key → Bytes → Result (Unit {0}) × Config → Type 0
Left to_lower c k value r =
    (get_key r.1 k ≡ shown to_lower k value) × (validate r.1 ≡ ok tt) × Agree k r.1 c

positive-Left :
    (to_lower : Bytes → Bytes) (c : Config) (k : Key) (value : Bytes) (r : Result ℤ)
    (update : ℤ → Config)
    → ((n : ℤ) → r ≡ ok n → get_key (update n) k ≡ shown to_lower k value)
    → ((n : ℤ) → Agree k (update n) c)
    → (positive c r update).0 ≡ ok tt
    → Left to_lower c k value (positive c r update)
positive-Left to_lower c k value (err e) update f g h = cc
positive-Left to_lower c k value (ok n) update f g h = elim (Bool-cases (int_ltb n (pos 1))) [
  | inl e ↦ let failed = (rw e at h) in cc
  | inr e ↦ rw e (f n refl, (rw e at h), g n)
]

is_bool :
    (v : Bytes)
    → (not (str_eq v (codes "true")) && not (str_eq v (codes "false"))) ≡ false
    → print_bool (str_eq v (codes "true")) ≡ v
is_bool v h = ground (arith, str_eq_iff v (codes "true"), str_eq_iff v (codes "false"))

set_key-Left :
    (to_lower : Bytes → Bytes) (c : Config) (k : Key) (value : Bytes)
    → (set_key to_lower c k value).0 ≡ ok tt
    → Left to_lower c k value (set_key to_lower c k value)
set_key-Left to_lower c author_name value h = (refl, h, author_name-Agree c value)
set_key-Left to_lower c author_email value h = (refl, h, author_email-Agree c value)
set_key-Left to_lower c sync_key value h =
    elim (Bool-cases (
      not (str_eq (to_lower value) (codes "true"))
      && not (str_eq (to_lower value) (codes "false")))) [
        | inl e ↦ let failed = (rw e at h) in cc
        | inr e ↦ rw e (
          is_bool (to_lower value) e,
          (rw e at h),
          sync_key-Agree c (some (str_eq (to_lower value) (codes "true"))),
        )
      ]
set_key-Left to_lower c path_key value h =
    positive-Left to_lower c path_key value (atoi value) (λ n. record c { max_path = some n })
      (λ n e. rw e refl) (λ n. path_key-Agree c (some n)) h
set_key-Left to_lower c content_key value h =
    positive-Left to_lower c content_key value (atoi value) (λ n. record c { max_content = some n })
      (λ n e. rw e refl) (λ n. content_key-Agree c (some n)) h
set_key-Left to_lower c line_key value h =
    positive-Left to_lower c line_key value (atoi value)
      (λ n. record c { max_line_length = some n }) (λ n e. rw e refl)
      (λ n. line_key-Agree c (some n)) h

-- A value that is set without an error is read back under its key, as a number or a truth value is
-- printed; the whole configuration is then within its bounds, and no other key has changed.
pub get-set :
    (to_lower : Bytes → Bytes) (c : Config) (k other : Key) (value : Bytes)
    → (set to_lower c (key_name k) value).0 ≡ ok tt
    → other ≢ k
    → (get (set to_lower c (key_name k) value).1 (key_name k) ≡ ok (shown to_lower k value))
      × (validate (set to_lower c (key_name k) value).1 ≡ ok tt)
      × (get (set to_lower c (key_name k) value).1 (key_name other) ≡ get c (key_name other))
unfolding get set
get-set to_lower c k other value h apart =
    let left = set_key-Left to_lower c k value (rw (key_of-key_name k) at h) in
    rw (key_of-key_name k, key_of-key_name other) (ap ok left.0, left.1, ap ok (left.2 other apart))
