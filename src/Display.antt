-- ===== src/Display.antt =====
-- The texts of statuses, errors and OWIDs: the `Display` of status.rs, parse.rs, error.rs and owid.rs.
use owid_rust.Prelude.{
  ℕ, ◌/◌, ◌%◌, ◌+◌, [], ◌∷◌, ◌++◌, Option, none, some, Result, ok, err, ltb, if◌then◌else◌,
}
use owid_rust.Prelude.Int.{ℤ}
use owid_rust.Text.{Str, text}
use owid_rust.Text.Decimal.{decimal, signed_decimal}
use owid_rust.Platform.{Machine, Chrono}
use owid_rust.Error.{Error, ParseError, ParseStatus, ParseDetail}
use owid_rust.Io.{Bytes, signature_length, maximum_domain_length}
use owid_rust.Owid.{Owid}
use owid_rust.Reading.{Base64, as_base64}

-- `ParseStatus::as_str`
unfoldable pub as_str : ParseStatus → Str
as_str ParseStatus.parsed = text "Parsed"
as_str ParseStatus.missing_input = text "MissingInput"
as_str ParseStatus.invalid_base64 = text "InvalidBase64"
as_str ParseStatus.unsupported_version = text "UnsupportedVersion"
as_str ParseStatus.absent_node = text "AbsentNode"
as_str ParseStatus.unexpected_end = text "UnexpectedEnd"
as_str ParseStatus.invalid_domain_encoding = text "InvalidDomainEncoding"
as_str ParseStatus.byte_count_mismatch = text "ByteCountMismatch"
as_str ParseStatus.implementation_capacity_exceeded = text "ImplementationCapacityExceeded"
as_str ParseStatus.malformed_envelope = text "MalformedEnvelope"

unfoldable pub detail_text : ParseDetail → Str
detail_text (ParseDetail.field name) = text "stopped inside " ++ name
detail_text (ParseDetail.version_byte v) = text "version '" ++ (decimal v ++ text "'")
detail_text (ParseDetail.byte_counts declared present) =
    text "declared '"
    ++ (decimal declared ++ (text "' with '" ++ (signed_decimal present ++ text "' present")))
detail_text (ParseDetail.capacity required) =
    text "'" ++ (decimal required ++ text "' bytes required")
detail_text (ParseDetail.maximum_domain_length maximum) =
    text "longer than the '" ++ (decimal maximum ++ text "' character maximum, or not terminated")

abbrev pub with_detail : ParseStatus → Option ParseDetail → Str
with_detail status none = as_str status
with_detail status (some detail) = as_str status ++ (text ": " ++ detail_text detail)

unfoldable pub parse_error_text : ParseError → Str
unfolding as_str detail_text
parse_error_text e = with_detail e.status e.detail

-- `to_string` of an `Error`.
unfoldable pub to_string : Error → Str
unfolding parse_error_text
to_string (Error.unsupported_version v) =
    text "OWID version '" ++ (decimal v ++ text "' not supported")
to_string (Error.invalid_signature_length l) =
    text "signature length '"
    ++ (decimal l
        ++ (text "' not compatible with '"
            ++ (decimal signature_length ++ text "' OWID signature length")))
to_string (Error.invalid_domain d) = text "domain '" ++ (d ++ text "' is not valid")
to_string Error.domain_too_long =
    text "domain field exceeds the '"
    ++ (decimal maximum_domain_length ++ text "' character maximum")
to_string Error.date_out_of_range =
    text "date can not be stored in the encoding for the OWID version"
to_string (Error.payload_too_large l) =
    text "payload length '" ++ (decimal l ++ text "' exceeds the unsigned 32 bit limit")
to_string (Error.implementation_capacity_exceeded required) =
    text "OWID requires '"
    ++ (decimal required ++ text "' bytes beyond this implementation's capacity")
to_string (Error.key e) = text "key operation failed because " ++ e
to_string (Error.key_missing o) = text "instance of Crypto cannot be used to " ++ o
to_string (Error.invalid_key_format v) =
    text "the only public key format defined is 'spki', received '" ++ (v ++ text "'")
to_string (Error.http e) = text "HTTP request failed because " ++ e
to_string (Error.parse e) = text "bytes are not an OWID because " ++ parse_error_text e

-- `{b:02x}`
abbrev pub hex_digit : ℕ → ℕ
hex_digit n = if ltb n 10 then 48 + n else 87 + n

abbrev pub printable : Bytes → Str
printable [] = []
printable (b ∷ bytes) = hex_digit (b / 16) ∷ hex_digit (b % 16) ∷ printable bytes

unfoldable pub payload_as_printable : {c : Chrono} → Owid c → Str
payload_as_printable owid = printable owid.payload

unfoldable pub payload_as_base64 : Base64 → {c : Chrono} → Owid c → Str
payload_as_base64 b owid = b.encode owid.payload

-- `now` is `Utc::now()`.
unfoldable pub age_minutes : {c : Chrono} → c.DateTime → Owid c → ℤ
age_minutes {c} now owid = c.num_minutes (c.difference now owid.date)

abbrev pub text_or_error : Result Str Error → Str
text_or_error (ok value) = value
text_or_error (err e) = to_string e

-- `Display` of an OWID.
unfoldable pub owid_text : Machine → Base64 → {c : Chrono} → Owid c → Str
unfolding to_string
owid_text m b owid = text_or_error (as_base64 m b owid)
