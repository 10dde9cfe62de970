-- ===== src/Reading.antt =====
-- owid.rs and status.rs: the public ways to read an OWID, and the status that names the outcome.
-- The base 64 engine of the crate base64 is a parameter.
pub mod RoundTrip
pub mod Frames
pub mod Arriving
pub mod Text
use owid_rust.Prelude.{ℕ, ◌≡◌, List, [], ◌∷◌, Option, none, some, Result, ok, err, ◌>>=◌, All}
use owid_rust.Text.{Str}
use owid_rust.Text.Utf8.RoundTrip.{IsByte}
use owid_rust.Platform.{Machine, Chrono}
use owid_rust.Error.{Error, ParseError, ParseStatus, fail}
use owid_rust.Io.{Bytes}
use owid_rust.Owid.{Owid, as_byte_array}
use owid_rust.Parse.{parse_exact, parse_prefix}

-- `BASE64.encode` and `BASE64.decode`, the error of which the crate drops.
pub record Base64 : Type 0 where
  pub encode : Bytes → Str
  pub decode : Str → Option Bytes

-- Decoding undoes encoding, and only no bytes at all are encoded as the empty text.
pub record IsBase64 (b : Base64) : Type 0 where
  pub decode-encode : (bytes : Bytes) → All IsByte bytes → b.decode (b.encode bytes) ≡ some bytes
  pub encode-nil : (bytes : Bytes) → b.encode bytes ≡ [] → bytes ≡ []

module _ (m : Machine) (c : Chrono) where
  unfoldable pub from_byte_array : Bytes → Result (Owid c) ParseError
  from_byte_array buffer = parse_exact m c buffer

  unfoldable pub read_from_prefix : Bytes → Result (Option (Owid c) × Bytes) ParseError
  read_from_prefix buffer = parse_prefix m c buffer

  abbrev decoded : Option Bytes → Result (Owid c) ParseError
  decoded none = fail ParseStatus.invalid_base64
  decoded (some buffer) = from_byte_array buffer

  unfoldable pub from_base64 : Base64 → Str → Result (Owid c) ParseError
  from_base64 b [] = fail ParseStatus.missing_input
  from_base64 b (ch ∷ value) = decoded (b.decode (ch ∷ value))

unfoldable pub as_base64 : (m : Machine) (b : Base64) {c : Chrono} → Owid c → Result Str Error
as_base64 m b owid = do bytes ← as_byte_array m owid; ok (b.encode bytes)

-- `ParseStatus::of` and `ParseStatus::of_frame`
module _ {c : Chrono} where
  unfoldable pub of : Result (Owid c) ParseError → ParseStatus
  of (ok owid) = ParseStatus.parsed
  of (err e) = e.status

  unfoldable pub of_frame : Result (Option (Owid c) × Bytes) ParseError → ParseStatus
  of_frame (ok (some owid, rest)) = ParseStatus.parsed
  of_frame (ok (none, rest)) = ParseStatus.absent_node
  of_frame (err e) = e.status
