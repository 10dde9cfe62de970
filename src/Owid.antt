-- ===== src/Owid.antt =====
-- owid.rs: the structure, and how it is written.
use owid_rust.Prelude.{
  ℕ, ◌+◌, ◌%◌, List, [], ◌∷◌, Bool, true, false, Result, ok, err, ◌>>=◌, length, ltb, leb, ◌==◌,
  not, ◌&&◌, if◌then◌else◌,
}
use owid_rust.Text.{Str}
use owid_rust.Text.Utf8.{as_bytes}
use owid_rust.Platform.{Machine, Chrono}
use owid_rust.Error.{Error}
use owid_rust.Version.{Version, as_byte, version1, version2, version3, empty}
use owid_rust.Io.{
  Bytes, Write, ◌>>◌, signature_length, u32_max, write_byte, write_domain, write_date,
  write_byte_array, write_signature,
}

pub record Owid (c : Chrono) : Type 0 where
  pub version : Version
  pub domain : Str
  pub date : c.DateTime
  pub payload : Bytes
  pub signature : Bytes

module _ {c : Chrono} where
  abbrev pub from_parts : Version → Str → c.DateTime → Bytes → Bytes → Owid c
  from_parts version domain date payload signature = record {
    version = version;
    domain = domain;
    date = date;
    payload = payload;
    signature = signature;
  }

  abbrev pub set_signature : Owid c → Bytes → Owid c
  set_signature owid signature = record owid { signature = signature }

  unfoldable pub to_buffer_no_signature : Owid c → Write
  to_buffer_no_signature owid = do
    write_byte (as_byte owid.version)
    write_domain owid.domain
    write_date c owid.date owid.version
    write_byte_array owid.payload

  unfoldable pub to_buffer : Owid c → Write
  to_buffer owid = do to_buffer_no_signature owid; write_signature owid.signature

-- `Owid::empty_to_buffer`
unfoldable pub empty_to_buffer : Bytes → Bytes
unfolding write_byte
empty_to_buffer buffer = (write_byte (as_byte empty) buffer).1

module _ (m : Machine) where
  -- the `try_fold` of `encoded_len`, by `usize::checked_add`
  unfoldable pub checked_sum : ℕ → List ℕ → Result ℕ Error
  checked_sum total [] = ok total
  checked_sum total (l ∷ ls) =
      let rest = checked_sum (total + l) ls in
      if leb (total + l) m.usize_max
      then rest
      else err (Error.implementation_capacity_exceeded m.usize_max)

  abbrev pub date_len : Version → Result ℕ Error
  date_len version1 = ok 2
  date_len version2 = ok 4
  date_len version3 = ok 4
  date_len empty = err (Error.unsupported_version (as_byte empty))

  -- `u32::MAX as usize` keeps the bits that `usize` has.
  unfoldable pub encoded_len : {c : Chrono} → Owid c → Bool → Result ℕ Error
  encoded_len owid include_signature =
      if ltb (u32_max % (m.usize_max + 1)) (length owid.payload)
      then err (Error.payload_too_large (length owid.payload))
      else if include_signature && not (length owid.signature == signature_length)
      then err (Error.invalid_signature_length (length owid.signature))
      else do
        len ← date_len owid.version
        checked_sum 0 (
            1
            ∷ length (as_bytes owid.domain)
            ∷ 1
            ∷ len
            ∷ 4
            ∷ length owid.payload
            ∷ (if include_signature then signature_length else 0)
            ∷ [])

  abbrev pub written : Result (Unit {0}) Error × Bytes → Result Bytes Error
  written (ok u, buffer) = ok buffer
  written (err e, buffer) = err e

  -- A vector reserved for `capacity` bytes, then filled.
  abbrev pub filled : ℕ → Write → Result Bytes Error
  filled capacity write =
      if m.can_reserve capacity
      then written (write [])
      else err (Error.implementation_capacity_exceeded capacity)

  unfoldable pub as_byte_array : {c : Chrono} → Owid c → Result Bytes Error
  as_byte_array owid = do capacity ← encoded_len owid true; filled capacity (to_buffer owid)

  -- The bytes that the signature covers.
  unfoldable pub signed_bytes : {c : Chrono} → Owid c → Result Bytes Error
  signed_bytes owid = do
    capacity ← encoded_len owid false
    filled capacity (to_buffer_no_signature owid)
