-- ===== src/Parse.antt =====
-- parse.rs: reading an OWID from bytes that came from outside, by index. A slice from an index is
-- `drop`, and the byte at an index is read after the code has compared the length; Parse.Indexed has
-- what would panic.
pub mod Fields
pub mod Steps
pub mod RoundTrip
pub mod Converse
pub mod Stable
pub mod Errors
pub mod Indexed
use owid_rust.Prelude.{
  ℕ, zero, suc, ◌+◌, ◌-◌, ◌*◌, min, List, [], ◌∷◌, Bool, true, false, Option, none, some, Result,
  ok, err, ◌>>=◌, length, get_or, take, drop, position, ltb, leb, ◌==◌, not, if◌then◌else◌,
}
use owid_rust.Prelude.Int
use owid_rust.Prelude.Int.{ℤ, pos, sub_ℕ}
use owid_rust.Text.{Str, text}
use owid_rust.Text.Utf8.{from_utf8}
use owid_rust.Platform.{Machine, Chrono}
use owid_rust.Error.{Error, ParseError, ParseStatus, ParseDetail, fail, fail_with}
use owid_rust.Version.{Version, try_from, as_byte, version1, version2, version3, empty}
use owid_rust.Io.{Bytes, signature_length, maximum_domain_length, base_date}
use owid_rust.Owid.{Owid, from_parts}

pub data Extent : Type 0 where
  whole_buffer prefix : Extent

-- The search for the terminator looks at 254 bytes at most.
abbrev pub window : Bytes → ℕ
window bytes = min (length bytes) (maximum_domain_length + 1)

abbrev pub terminator : Bytes → Option ℕ
terminator bytes = position (λ b. b == 0) (take (window bytes) bytes)

abbrev pub domain_of : Option Str → ℕ → Result (Str × ℕ) ParseError
domain_of (some domain) end = ok (domain, end + 1)
domain_of none end =
    fail_with ParseStatus.invalid_domain_encoding (ParseDetail.field (text "the creator domain"))

abbrev pub domain_upto : Bytes → Option ℕ → Result (Str × ℕ) ParseError
domain_upto bytes (some end) = domain_of (from_utf8 (take end bytes)) end
domain_upto bytes none =
    if ltb maximum_domain_length (window bytes)
    then fail_with ParseStatus.invalid_domain_encoding
        (ParseDetail.maximum_domain_length maximum_domain_length)
    else fail_with ParseStatus.unexpected_end (ParseDetail.field (text "the creator domain"))

unfoldable pub read_domain : Bytes → Result (Str × ℕ) ParseError
read_domain bytes = domain_upto bytes (terminator bytes)

unfoldable pub date_length : Version → ℕ
date_length version1 = 2
date_length _ = 4

-- `u32::from_le_bytes` of the four bytes from an index.
unfoldable pub from_le_bytes : Bytes → ℕ → ℕ
from_le_bytes bytes at =
    get_or bytes at 0
    + get_or bytes (at + 1) 0 * 256
    + get_or bytes (at + 2) 0 * 65536
    + get_or bytes (at + 3) 0 * 16777216

module _ (c : Chrono) where
  abbrev pub date_of : Bytes → Version → c.DateTime
  date_of bytes version1 = c.add (base_date c) (c.hours (get_or bytes 0 0 * 256 + get_or bytes 1 0))
  date_of bytes _ = c.add (base_date c) (c.minutes (from_le_bytes bytes 0))

  unfoldable pub read_date : Bytes → Version → Result c.DateTime ParseError
  read_date bytes version =
      if ltb (length bytes) (date_length version)
      then fail_with ParseStatus.unexpected_end (ParseDetail.field (text "the date"))
      else ok (date_of bytes version)

-- `present` is what is left after the length field less a signature, signed.
abbrev pub count_check : Extent → ℕ → ℤ → Result (Unit {0}) ParseError
count_check whole_buffer declared present =
    if not (Int.eqb present (pos declared))
    then fail_with ParseStatus.byte_count_mismatch (ParseDetail.byte_counts declared present)
    else ok tt
count_check prefix declared present =
    if Int.ltb present (pos declared)
    then fail_with ParseStatus.unexpected_end (ParseDetail.byte_counts declared present)
    else ok tt

abbrev pub version_of : ℕ → Result Version Error → Result Version ParseError
version_of byte (ok empty) = fail ParseStatus.absent_node
version_of byte (err e) = fail_with ParseStatus.unsupported_version (ParseDetail.version_byte byte)
version_of byte (ok version) = ok version

abbrev pub end_check : Extent → ℕ → ℕ → Result (Unit {0}) ParseError
end_check whole_buffer at total =
    if not (at == total) then fail ParseStatus.malformed_envelope else ok tt
end_check prefix at total = ok tt

abbrev pub guard : Bool → ParseStatus → ParseDetail → Result (Unit {0}) ParseError
guard true status detail = ok tt
guard false status detail = fail_with status detail

infixl 5 ◌>>◌
abbrev pub ◌>>◌ {ℓ} :
    {B : Type ℓ} → Result (Unit {0}) ParseError → Result B ParseError → Result B ParseError
first >> next = first >>= λ _. next

module _ (m : Machine) (c : Chrono) where
  -- The payload and the signature, from the index after the length field.
  unfoldable pub read_rest :
      Bytes → Extent → ℕ → ℕ → Version → Str → c.DateTime → Result (Owid c × ℕ) ParseError
  read_rest buffer extent at declared version domain date = do
    count_check extent declared (sub_ℕ (length buffer - at) signature_length)
    guard (leb declared m.usize_max) ParseStatus.implementation_capacity_exceeded
        (ParseDetail.capacity declared)
    guard (m.can_reserve declared) ParseStatus.implementation_capacity_exceeded
        (ParseDetail.capacity declared)
    let payload = take declared (drop at buffer)
    let signature = take signature_length (drop (at + declared) buffer)
    end_check extent (at + declared + signature_length) (length buffer)
    ok (from_parts version domain date payload signature, at + declared + signature_length)

  unfoldable pub parse_one : Bytes → Extent → Result (Owid c × ℕ) ParseError
  parse_one [] extent = fail ParseStatus.missing_input
  parse_one (first ∷ rest) extent = do
    let buffer = first ∷ rest
    version ← version_of first (try_from first)
    (domain, used) ← read_domain (drop 1 buffer)
    let at = 1 + used
    date ← read_date c (drop at buffer) version
    let at = at + date_length version
    guard (not (ltb (length buffer - at) 4)) ParseStatus.unexpected_end
        (ParseDetail.field (text "the payload length"))
    let declared = from_le_bytes buffer at
    read_rest buffer extent (at + 4) declared version domain date

  unfoldable pub parse_exact : Bytes → Result (Owid c) ParseError
  parse_exact buffer = do (owid, used) ← parse_one buffer whole_buffer; ok owid

  abbrev pub frame :
      Bytes → Result (Owid c × ℕ) ParseError → Result (Option (Owid c) × Bytes) ParseError
  frame buffer (ok (owid, used)) = ok (some owid, drop used buffer)
  frame buffer (err e) = err e

  unfoldable pub parse_prefix : Bytes → Result (Option (Owid c) × Bytes) ParseError
  parse_prefix [] = fail ParseStatus.missing_input
  parse_prefix (first ∷ rest) =
      if first == as_byte empty
      then ok (none, drop 1 (first ∷ rest))
      else frame (first ∷ rest) (parse_one (first ∷ rest) prefix)
