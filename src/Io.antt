-- ===== src/Io.antt =====
-- io.rs: the low level writes of the OWID binary format. A write takes the buffer, a vector of
-- bytes that it appends to, and returns it beside the result: what was appended before an error
-- stays in the buffer.
use owid_rust.Prelude.{
  ℕ, ◌-◌, ◌/◌, ◌%◌, ◌^◌, List, [], ◌∷◌, ◌++◌, Option, none, some, Result, ok, err, length, any, ltb,
  ◌==◌, not, if◌then◌else◌,
}
use owid_rust.Prelude.Int.{try_below}
use owid_rust.Text.{Str}
use owid_rust.Text.Utf8.{as_bytes}
use owid_rust.Platform.{Chrono}
use owid_rust.Error.{Error}
use owid_rust.Version.{Version, as_byte, version1, version2, version3, empty}

abbrev pub Bytes : Type 0
Bytes = List ℕ

abbrev pub Write : Type 0
Write = Bytes → Result (Unit {0}) Error × Bytes

abbrev pub proceed : Result (Unit {0}) Error → Write → Write
proceed (ok u) next buffer = next buffer
proceed (err e) next buffer = (err e, buffer)

-- `first?; next`
infixl 5 ◌>>◌
abbrev pub ◌>>◌ : Write → Write → Write
◌>>◌ first next buffer = proceed (first buffer).0 next (first buffer).1

-- `return Err(e)`
abbrev pub refuse : Error → Write
refuse e buffer = (err e, buffer)

-- `extend_from_slice` and `push`.
abbrev pub append : Bytes → Write
append bytes buffer = (ok tt, buffer ++ bytes)

-- lib.rs
abbrev pub signature_length : ℕ
signature_length = 64

abbrev pub maximum_domain_length : ℕ
maximum_domain_length = 253

abbrev pub u32_max : ℕ
u32_max = 2 ^ 32 - 1

abbrev pub base_date : (c : Chrono) → c.DateTime
base_date c = c.from_timestamp 1577836800

unfoldable pub minutes_since_base : (c : Chrono) → c.DateTime → Option ℕ
minutes_since_base c date = try_below (2 ^ 32) (c.num_minutes (c.difference date (base_date c)))

unfoldable pub write_byte : ℕ → Write
write_byte value = append (value ∷ [])

unfoldable pub write_domain : Str → Write
write_domain value =
    if any (λ b. b == 0) (as_bytes value)
    then refuse (Error.invalid_domain value)
    else if ltb maximum_domain_length (length (as_bytes value))
    then refuse Error.domain_too_long
    else append (as_bytes value) >> append (0 ∷ [])

-- `to_le_bytes` of a u32.
abbrev pub to_le_bytes : ℕ → Bytes
to_le_bytes value =
    value % 256 ∷ value / 256 % 256 ∷ value / 65536 % 256 ∷ value / 16777216 % 256 ∷ []

unfoldable pub write_u32 : ℕ → Write
write_u32 value = append (to_le_bytes value)

unfoldable pub write_byte_array : Bytes → Write
unfolding write_u32
write_byte_array value =
    if ltb (length value) (2 ^ 32)
    then write_u32 (length value) >> append value
    else refuse (Error.payload_too_large (length value))

unfoldable pub write_signature : Bytes → Write
write_signature value =
    if not (length value == signature_length)
    then refuse (Error.invalid_signature_length (length value))
    else append value

abbrev write_hours : Option ℕ → Write
write_hours none = refuse Error.date_out_of_range
write_hours (some hours) = append (hours / 256 % 256 ∷ []) >> append (hours % 256 ∷ [])

abbrev write_minutes : Option ℕ → Write
write_minutes none = refuse Error.date_out_of_range
write_minutes (some minutes) = write_u32 minutes

unfoldable pub write_date : (c : Chrono) → c.DateTime → Version → Write
write_date c date version1 =
    write_hours (try_below (2 ^ 16) (c.num_hours (c.difference date (base_date c))))
write_date c date version2 = write_minutes (minutes_since_base c date)
write_date c date version3 = write_minutes (minutes_since_base c date)
write_date c date empty = refuse (Error.unsupported_version (as_byte empty))
