-- ===== src/Error.antt =====
-- error.rs, and the failure types of status.rs and parse.rs that an `Error` carries.
use owid_rust.Prelude.{ℕ}
use owid_rust.Prelude.Int.{ℤ}
use owid_rust.Prelude.{Option, none, some, Result, err}
use owid_rust.Text.{Str}

-- status.rs: why reading an OWID succeeded or failed.
pub data ParseStatus : Type 0 where
  parsed missing_input invalid_base64 unsupported_version absent_node : ParseStatus
  unexpected_end invalid_domain_encoding byte_count_mismatch : ParseStatus
  implementation_capacity_exceeded malformed_envelope : ParseStatus

-- parse.rs: what is known about a failure beyond its status.
pub data ParseDetail : Type 0 where
  field : Str → ParseDetail
  version_byte : ℕ → ParseDetail
  byte_counts : ℕ → ℤ → ParseDetail
  capacity : ℕ → ParseDetail
  maximum_domain_length : ℕ → ParseDetail

pub record ParseError : Type 0 where
  pub status : ParseStatus
  pub detail : Option ParseDetail

pub data Error : Type 0 where
  unsupported_version : ℕ → Error
  invalid_signature_length : ℕ → Error
  invalid_domain : Str → Error
  domain_too_long : Error
  date_out_of_range : Error
  payload_too_large : ℕ → Error
  implementation_capacity_exceeded : ℕ → Error
  key : Str → Error
  key_missing : Str → Error
  invalid_key_format : Str → Error
  http : Str → Error
  parse : ParseError → Error

-- `fail` and `fail_with` of parse.rs.
abbrev pub fail {ℓ} : {A : Type ℓ} → ParseStatus → Result A ParseError
fail status = err (record { status = status; detail = none })

abbrev pub fail_with {ℓ} : {A : Type ℓ} → ParseStatus → ParseDetail → Result A ParseError
fail_with status detail = err (record { status = status; detail = some detail })
