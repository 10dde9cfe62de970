-- ===== src/Parse/Indexed.antt =====
-- parse.rs once more, with the indices, slices and sums of the code as they are in Rust, where one
-- out of range panics. Parse models what comes of the walk, and this the walk itself.
pub mod Steps
pub mod Safe
use owid_rust.Prelude.{
  ℕ, ◌+◌, ◌*◌, min, [], ◌∷◌, Option, none, some, err, length, position, ltb, leb, ◌==◌, not,
  if◌then◌else◌,
}
use owid_rust.Text.{Str, text}
use owid_rust.Text.Utf8.{from_utf8}
use owid_rust.Platform.{Machine, Chrono}
use owid_rust.Error.{ParseError, ParseStatus, ParseDetail, fail, fail_with}
use owid_rust.Version.{Version, try_from, as_byte, version1, version2, version3, empty}
use owid_rust.Io.{Bytes, signature_length, maximum_domain_length, base_date}
use owid_rust.Owid.{Owid, from_parts}
use owid_rust.Parse.{
  Extent, whole_buffer, prefix, date_length, count_check, version_of, end_check, guard,
}
use owid_rust.Panics.{
  Checked, returns, ◌>>=◌, ◌>>◌, value, assert, index, slice_from, slice_to, slice, add, sub,
  as_i64, less_signature,
}

abbrev pub domain_walked : Machine → Option Str → ℕ → Checked (Str × ℕ) ParseError
domain_walked m (some domain) end = do used ← add m end 1; value (domain, used)
domain_walked m none end =
    returns (
      fail_with ParseStatus.invalid_domain_encoding (ParseDetail.field (text "the creator domain")))

abbrev pub domain_walk : Machine → Bytes → Option ℕ → Checked (Str × ℕ) ParseError
domain_walk m bytes (some end) = do name ← slice_to bytes end; domain_walked m (from_utf8 name) end
domain_walk m bytes none =
    if ltb maximum_domain_length (min (length bytes) (maximum_domain_length + 1))
    then returns (
        fail_with ParseStatus.invalid_domain_encoding
          (ParseDetail.maximum_domain_length maximum_domain_length))
    else returns
        (fail_with ParseStatus.unexpected_end (ParseDetail.field (text "the creator domain")))

unfoldable pub walk_domain : Machine → Bytes → Checked (Str × ℕ) ParseError
walk_domain m bytes = do
  let window = min (length bytes) (maximum_domain_length + 1)
  searched ← slice_to bytes window
  domain_walk m bytes (position (λ b. b == 0) searched)

-- `u32::from_le_bytes([bytes[at], bytes[at + 1], bytes[at + 2], bytes[at + 3]])`
unfoldable pub walk_le_bytes : Machine → Bytes → ℕ → Checked ℕ ParseError
walk_le_bytes m bytes at = do
  b0 ← index bytes at
  at1 ← add m at 1
  b1 ← index bytes at1
  at2 ← add m at 2
  b2 ← index bytes at2
  at3 ← add m at 3
  b3 ← index bytes at3
  value (b0 + b1 * 256 + b2 * 65536 + b3 * 16777216)

module _ (m : Machine) (c : Chrono) where
  abbrev pub date_walk : Bytes → Version → Checked c.DateTime ParseError
  date_walk bytes version1 = do
    b0 ← index bytes 0
    b1 ← index bytes 1
    value (c.add (base_date c) (c.hours (b0 * 256 + b1)))
  date_walk bytes _ = do
    count ← walk_le_bytes m bytes 0
    value (c.add (base_date c) (c.minutes count))

  unfoldable pub walk_date : Bytes → Version → Checked c.DateTime ParseError
  walk_date bytes version =
      if ltb (length bytes) (date_length version)
      then returns (fail_with ParseStatus.unexpected_end (ParseDetail.field (text "the date")))
      else date_walk bytes version

  unfoldable pub walk_rest :
      Bytes → Extent → ℕ → ℕ → Version → Str → c.DateTime → Checked (Owid c × ℕ) ParseError
  walk_rest buffer extent at declared version domain date = do
    left ← sub (length buffer) at
    present ← less_signature (as_i64 left)
    returns (count_check extent declared present)
    returns (
        guard (leb declared m.usize_max) ParseStatus.implementation_capacity_exceeded
          (ParseDetail.capacity declared))
    returns (
        guard (m.can_reserve declared) ParseStatus.implementation_capacity_exceeded
          (ParseDetail.capacity declared))
    end ← add m at declared
    payload ← slice buffer at end
    at ← add m at declared
    end ← add m at signature_length
    signature ← slice buffer at end
    at ← add m at signature_length
    returns (end_check extent at (length buffer))
    value (from_parts version domain date payload signature, at)

  -- `parse_one` from the date on.
  abbrev pub walk_dated : Bytes → Extent → Version → Str → ℕ → Checked (Owid c × ℕ) ParseError
  walk_dated buffer extent version domain at = do
    tail ← slice_from buffer at
    date ← walk_date tail version
    at ← add m at (date_length version)
    left ← sub (length buffer) at
    returns (
        guard (not (ltb left 4)) ParseStatus.unexpected_end
          (ParseDetail.field (text "the payload length")))
    declared ← walk_le_bytes m buffer at
    at ← add m at 4
    walk_rest buffer extent at declared version domain date

  unfoldable pub walk_one : Bytes → Extent → Checked (Owid c × ℕ) ParseError
  walk_one [] extent = returns (fail ParseStatus.missing_input)
  walk_one (first ∷ rest) extent = do
    let buffer = first ∷ rest
    byte ← index buffer 0
    version ← returns (version_of byte (try_from byte))
    tail ← slice_from buffer 1
    (domain, used) ← walk_domain m tail
    at ← add m 1 used
    walk_dated buffer extent version domain at

  -- The assertion is that of a debug build.
  unfoldable pub walk_exact : Bytes → Checked (Owid c) ParseError
  walk_exact buffer = do
    (owid, used) ← walk_one buffer whole_buffer
    assert (used == length buffer)
    value owid

  abbrev pub frame_walk : Bytes → Checked (Option (Owid c) × Bytes) ParseError
  frame_walk buffer = do
    (owid, used) ← walk_one buffer prefix
    tail ← slice_from buffer used
    value (some owid, tail)

  abbrev pub marker_walk : Bytes → Checked (Option (Owid c) × Bytes) ParseError
  marker_walk buffer = do tail ← slice_from buffer 1; value (none, tail)

  unfoldable pub walk_prefix : Bytes → Checked (Option (Owid c) × Bytes) ParseError
  walk_prefix [] = returns (fail ParseStatus.missing_input)
  walk_prefix (first ∷ rest) = do
    byte ← index (first ∷ rest) 0
    if byte == as_byte empty then marker_walk (first ∷ rest) else frame_walk (first ∷ rest)
