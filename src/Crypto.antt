-- ===== src/Crypto.antt =====
-- crypto.rs: the keys, what they sign and what they verify.
use owid_rust.Prelude.{
  ℕ, Bool, false, Option, none, some, Result, ok, err, ◌>>=◌, map_err, ok_or, is_some, length, all,
  ◌==◌, not, if◌then◌else◌,
}
use owid_rust.Text.{Str, text, is_whitespace}
use owid_rust.Platform.{P256}
use owid_rust.Error.{Error}
use owid_rust.Io.{Bytes, signature_length}

pub record Crypto (p : P256) : Type 0 where
  pub signing_key : Option p.SigningKey
  pub verifying_key : Option p.VerifyingKey

-- `trim().is_empty()`
abbrev pub is_blank : Str → Bool
is_blank value = all is_whitespace value

module _ (p : P256) where
  -- `From<SigningKey>` and `From<VerifyingKey>`.
  abbrev pub from_signing_key : p.SigningKey → Crypto p
  from_signing_key key = record {
    signing_key = some key;
    verifying_key = some (p.verifying_key key);
  }

  abbrev pub from_verifying_key : p.VerifyingKey → Crypto p
  from_verifying_key key = record { signing_key = none; verifying_key = some key }

  -- `Crypto::new`, with what the operating system draws.
  unfoldable pub new : ℕ → Crypto p
  new drawn = from_signing_key (p.random drawn)

  -- `or_else`
  abbrev pub or_sec1 : Str → Result p.SigningKey Str → Result p.SigningKey Str
  or_sec1 private_pem (ok key) = ok key
  or_sec1 private_pem (err e) = p.from_sec1_pem private_pem

  unfoldable pub new_sign_only : Str → Result (Crypto p) Error
  new_sign_only private_pem =
      if is_blank private_pem then err (Error.key (text "private key PEM is empty")) else do
        signing_key ← map_err Error.key (or_sec1 private_pem (p.from_pkcs8_pem private_pem))
        ok (from_signing_key signing_key)

  unfoldable pub new_verify_only : Str → Result (Crypto p) Error
  new_verify_only public_pem =
      if is_blank public_pem then err (Error.key (text "public key PEM is empty")) else do
        verifying_key ← map_err Error.key (p.from_public_key_pem public_pem)
        ok (from_verifying_key verifying_key)

  unfoldable pub sign_byte_array : Crypto p → Bytes → Result Bytes Error
  sign_byte_array crypto message = do
    signing_key ← ok_or crypto.signing_key (Error.key_missing (text "generate a signature"))
    let bytes = p.to_bytes (p.sign signing_key message)
    if not (length bytes == signature_length)
        then err (Error.invalid_signature_length (length bytes))
        else ok bytes

  abbrev pub verified : p.VerifyingKey → Bytes → Option p.Signature → Bool
  verified key message (some signature) = p.verify key message signature
  verified key message none = false

  unfoldable pub verify_byte_array : Crypto p → Bytes → Bytes → Result Bool Error
  verify_byte_array crypto message signature = do
    verifying_key ← ok_or crypto.verifying_key (Error.key_missing (text "verify a signature"))
    if not (length signature == signature_length)
        then err (Error.invalid_signature_length (length signature))
        else ok (verified verifying_key message (p.from_slice signature))

  -- `public_key_pem` is the same.
  unfoldable pub subject_public_key_info : Crypto p → Result Str Error
  subject_public_key_info crypto = do
    verifying_key ← ok_or crypto.verifying_key (Error.key_missing (text "export a public key"))
    map_err Error.key (p.to_public_key_pem verifying_key)

  unfoldable pub private_key_pem : Crypto p → Result Str Error
  private_key_pem crypto = do
    signing_key ← ok_or crypto.signing_key (Error.key_missing (text "export a private key"))
    map_err Error.key (p.to_pkcs8_pem signing_key)

  abbrev pub can_sign : Crypto p → Bool
  can_sign crypto = is_some crypto.signing_key

  abbrev pub can_verify : Crypto p → Bool
  can_verify crypto = is_some crypto.verifying_key
