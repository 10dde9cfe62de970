-- ===== src/Status.antt =====
-- status.rs: the outcome of a signature check.
use owid_rust.Prelude.{Bool, true, false, Result, ok, err}
use owid_rust.Text.{Str, text}
use owid_rust.Error.{Error}

pub data SignatureStatus : Type 0 where
  valid invalid invalid_signature_length key_unavailable invalid_key : SignatureStatus
  implementation_capacity_exceeded verification_error : SignatureStatus

-- `SignatureStatus::of`
unfoldable pub of : Result Bool Error → SignatureStatus
of (ok true) = valid
of (ok false) = invalid
of (err (Error.invalid_signature_length n)) = invalid_signature_length
of (err (Error.key_missing operation)) = key_unavailable
of (err (Error.http message)) = key_unavailable
of (err (Error.key message)) = invalid_key
of (err (Error.invalid_key_format value)) = invalid_key
of (err (Error.implementation_capacity_exceeded required)) = implementation_capacity_exceeded
of (err e) = verification_error

-- `SignatureStatus::as_str`, which `Display` writes.
unfoldable pub as_str : SignatureStatus → Str
as_str valid = text "SignatureValid"
as_str invalid = text "SignatureInvalid"
as_str invalid_signature_length = text "InvalidSignatureLength"
as_str key_unavailable = text "KeyUnavailable"
as_str invalid_key = text "InvalidKey"
as_str implementation_capacity_exceeded = text "ImplementationCapacityExceeded"
as_str verification_error = text "VerificationError"
