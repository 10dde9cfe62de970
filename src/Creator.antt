-- ===== src/Creator.antt =====
-- creator.rs, and the checks of a signature in owid.rs.
pub mod Verifies
pub mod Received
use owid_rust.Prelude.{
  ℕ, [], Bool, Option, none, some, Result, ok, err, ◌>>=◌, length, ltb, ◌==◌, not, if◌then◌else◌,
}
use owid_rust.Text.{Str, text}
use owid_rust.Text.Utf8.{as_bytes}
use owid_rust.Platform.{Machine, Chrono, P256}
use owid_rust.Error.{Error}
use owid_rust.Version
use owid_rust.Version.{Version}
use owid_rust.Status
use owid_rust.Status.{SignatureStatus}
use owid_rust.Io.{Bytes, signature_length, maximum_domain_length}
use owid_rust.Owid.{Owid, from_parts, set_signature, signed_bytes}
use owid_rust.Crypto.{
  Crypto, is_blank, new_sign_only, new_verify_only, sign_byte_array, verify_byte_array, can_sign,
}

pub record Configuration : Type 0 where
  pub domain : Str
  pub private_key : Str
  pub public_key : Option Str

pub record Creator (p : P256) : Type 0 where
  pub domain : Str
  pub crypto : Crypto p

module _ (p : P256) where
  unfoldable pub new : Str → Crypto p → Result (Creator p) Error
  new domain crypto =
      if is_blank domain
      then err (Error.invalid_domain domain)
      else if ltb maximum_domain_length (length (as_bytes domain))
      then err Error.domain_too_long
      else if not (can_sign p crypto)
      then err (Error.key_missing (text "generate a signature"))
      else ok (record { domain = domain; crypto = crypto })

  unfoldable pub from_configuration : Configuration → Result (Creator p) Error
  unfolding new
  from_configuration configuration = do
    crypto ← new_sign_only p configuration.private_key
    new configuration.domain crypto

module _ (m : Machine) (c : Chrono) (p : P256) where
  -- `now` is `Utc::now()`.
  unfoldable pub create_version : c.DateTime → Creator p → Version → Bytes → Result (Owid c) Error
  create_version now creator version payload = do
    let owid = from_parts version creator.domain now payload []
    message ← signed_bytes m owid
    signature ← sign_byte_array p creator.crypto message
    if not (length signature == signature_length)
        then err (Error.invalid_signature_length (length signature))
        else ok (set_signature owid signature)

  unfoldable pub create : c.DateTime → Creator p → Bytes → Result (Owid c) Error
  unfolding create_version
  create now creator payload = create_version now creator Version.default payload

  unfoldable pub verify_with_crypto : Owid c → Crypto p → Result Bool Error
  verify_with_crypto owid crypto = do
    message ← signed_bytes m owid
    verify_byte_array p crypto message owid.signature

  unfoldable pub verify_with_public_key : Owid c → Str → Result Bool Error
  unfolding verify_with_crypto
  verify_with_public_key owid public_pem = do
    crypto ← new_verify_only p public_pem
    verify_with_crypto owid crypto

  unfoldable pub verify_status_with_crypto : Owid c → Crypto p → SignatureStatus
  unfolding verify_with_crypto
  verify_status_with_crypto owid crypto = Status.of (verify_with_crypto owid crypto)

  unfoldable pub verify_status_with_public_key : Owid c → Str → SignatureStatus
  unfolding verify_with_public_key
  verify_status_with_public_key owid public_pem = Status.of (verify_with_public_key owid public_pem)
