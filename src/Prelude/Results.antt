-- ===== src/Prelude/Results.antt =====
-- Go's `(value, error)`, with one error for each sentinel and each formatted message of the source.

-- `constraint` is the driver's error for a violated UNIQUE clause, `panic` a slice out of range.
pub data Error : Type 0 where
  err_invalid err_invalid_path err_path_too_long err_content_too_large : Error
  err_invalid_tag err_invalid_link : Error
  err_not_found err_already_exists : Error
  err_version constraint : Error
  err_text_not_found err_line_range err_invalid_expr err_unsupported_command : Error
  err_deleted err_usage err_io : Error
  err_unknown_key err_invalid_value : Error
  err_number err_start_line err_end_line err_beyond_end err_versions : Error
  err_missing err_too_deep err_exists : Error
  err_not_initialised err_required err_bad_pattern : Error
  panic : Error

pub data Result {ℓ} (A : Type ℓ) : Type ℓ where
  ok : A → Result A
  err : Error → Result A

-- `if err != nil { return err }` after a call
infixl 5 ◌>>=◌ ◌>>◌
abbrev pub ◌>>=◌ {ℓ κ} :
    {Value : Type ℓ} {Next : Type κ} → Result Value → (Value → Result Next) → Result Next
call >>= rest = elim call [ ok value ↦ rest value | err e ↦ err e ]

abbrev pub ◌>>◌ {ℓ κ} : {Value : Type ℓ} {Next : Type κ} → Result Value → Result Next → Result Next
call >> rest = elim call [ ok _ ↦ rest | err e ↦ err e ]
