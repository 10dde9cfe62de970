-- ===== src/Answer/Json.antt =====
-- key_answer.rs: the JSON of the answer, read. The characters from the index `at` on are
-- what is left of the text.
pub mod Strings
pub mod Rounds
pub mod RoundTrip
pub mod Indexed
use owid_rust.Prelude.{
  ℕ, zero, suc, ◌+◌, ◌-◌, ◌*◌, ◌/◌, ◌%◌, List, [], ◌∷◌, ◌++◌, Bool, true, false, Option, none, some,
  Result, ok, err, ◌>>=◌, length, ltb, leb, ◌==◌, ◌&&◌, ◌||◌, not, if◌then◌else◌,
}
use owid_rust.Text.{Str, text, is_whitespace}
use owid_rust.Text.Same.{same}
use owid_rust.Platform.{Chrono, Rfc3339}
use owid_rust.Error.{Error}
use owid_rust.Answer.{PublicKeyAnswer, spki_format}

abbrev pub not_json : Error
not_json =
    Error.key (
      text "the public key answer is not the JSON object of four fields the specification requires")

-- What was read, and what is left.
abbrev pub Reads {ℓ} : Type ℓ → Type ℓ
Reads A = Result (A × Str) Error

unfoldable pub skip_space : Str → Str
skip_space [] = []
skip_space (c ∷ s) = let rest = skip_space s in if is_whitespace c then rest else c ∷ s

abbrev pub push : ℕ → Reads Str → Reads Str
push c (ok (value, s)) = ok (c ∷ value, s)
push c (err e) = err e

-- `u32::from_str_radix` with the base 16 takes a plus sign before the digits.
abbrev pub hex_value : ℕ → Option ℕ
hex_value c =
    if leb 48 c && leb c 57
    then some (c - 48)
    else if leb 97 c && leb c 102
    then some (c - 87)
    else if leb 65 c && leb c 70
    then some (c - 55)
    else none

abbrev pub add_hex : Option ℕ → Option ℕ → Option ℕ
add_hex (some value) (some digit) = some (value * 16 + digit)
add_hex _ _ = none

unfoldable pub from_str_radix : Option ℕ → Str → Option ℕ
from_str_radix value [] = value
from_str_radix value (c ∷ s) = from_str_radix (add_hex value (hex_value c)) s

abbrev pub code_of : ℕ → ℕ → ℕ → ℕ → Option ℕ
code_of a b c d =
    if a == b'+'
    then from_str_radix (some 0) (b ∷ c ∷ d ∷ [])
    else from_str_radix (some 0) (a ∷ b ∷ c ∷ d ∷ [])

-- `char::from_u32` of a number of four digits: surrogates are no characters.
abbrev pub push_code : Option ℕ → Reads Str → Reads Str
push_code none rest = err not_json
push_code (some code) rest =
    if leb 0xd800 code && leb code 0xdfff then err not_json else push code rest

-- The character that follows a backslash, but for `u`.
unfoldable pub unescape : ℕ → Option ℕ
unescape c =
    if c == b'"' || c == b'\\' || c == b'/'
    then some c
    else if c == b'b'
    then some 8
    else if c == b'f'
    then some 12
    else if c == b'n'
    then some 10
    else if c == b'r'
    then some 13
    else if c == b't'
    then some 9
    else none

abbrev pub push_escape : Option ℕ → Reads Str → Reads Str
push_escape none rest = err not_json
push_escape (some c) rest = push c rest

-- The loop of `read_string`, and its match on an escape.
unfoldable mutual
  unfolding unescape from_str_radix

  pub read_chars : Str → Reads Str
  read_chars [] = err not_json
  read_chars (c ∷ s) =
      let plain = push c (read_chars s) in
      let after_backslash = read_escape s in
      if c == b'"' then ok ([], s) else if not (c == b'\\') then plain else after_backslash

  pub read_escape : Str → Reads Str
  read_escape [] = err not_json
  read_escape (e ∷ s) =
      let code = read_code s in
      let one = push_escape (unescape e) (read_chars s) in if e == b'u' then code else one

  pub read_code : Str → Reads Str
  read_code (a ∷ b ∷ c ∷ d ∷ s) = push_code (code_of a b c d) (read_chars s)
  read_code _ = err not_json

unfoldable pub read_string : Str → Reads Str
unfolding read_chars
read_string [] = err not_json
read_string (c ∷ s) = if not (c == b'"') then err not_json else read_chars s

abbrev pub strip : Str → Str → Option Str
strip [] s = some s
strip (c ∷ p) [] = none
strip (c ∷ p) (d ∷ s) = if c == d then strip p s else none

abbrev pub some_string : Reads Str → Reads (Option Str)
some_string (ok (value, s)) = ok (some value, s)
some_string (err e) = err e

-- `null` or a string.
abbrev pub read_value_at : Option Str → Str → Reads (Option Str)
read_value_at (some rest) s = ok (none, rest)
read_value_at none s = some_string (read_string s)

unfoldable pub read_value : Str → Reads (Option Str)
unfolding read_string
read_value s = read_value_at (strip (text "null") s) s

abbrev pub Field : Type 0
Field = Str × Option Str

abbrev pub expect : ℕ → Str → Result Str Error
expect wanted [] = err not_json
expect wanted (c ∷ s) = if c == wanted then ok s else err not_json

-- One round of the loop up to the value.
unfoldable pub read_field : Str → Reads Field
unfolding read_string read_value skip_space
read_field s = do
  (name, s) ← read_string (skip_space s)
  s ← expect b':' (skip_space s)
  (value, s) ← read_value (skip_space s)
  ok ((name, value), skip_space s)

-- None where the rounds do not suffice.
abbrev pub push_field : Field → Option (Reads (List Field)) → Option (Reads (List Field))
push_field field none = none
push_field field (some (ok (fields, s))) = some (ok (field ∷ fields, s))
push_field field (some (err e)) = some (err e)

abbrev pub next_field :
    (Str → Option (Reads (List Field))) → Reads Field → Option (Reads (List Field))
next_field more (err e) = some (err e)
next_field more (ok (field, [])) = some (err not_json)
next_field more (ok (field, c ∷ s)) =
    if c == b'}'
    then some (ok (field ∷ [], s))
    else if c == b','
    then push_field field (more s)
    else some (err not_json)

unfoldable pub read_fields : ℕ → Str → Option (Reads (List Field))
unfolding read_field
read_fields zero s = none
read_fields (suc rounds) s = next_field (read_fields rounds) (read_field s)

abbrev pub at_end : List Field → Str → Result (List Field) Error
at_end fields [] = ok fields
at_end fields (c ∷ s) = err not_json

-- Each round takes a character at least, so one round more than characters is enough.
abbrev pub all_fields : Option (Reads (List Field)) → Result (List Field) Error
all_fields none = err not_json
all_fields (some (err e)) = err e
all_fields (some (ok (fields, s))) = at_end fields (skip_space s)

abbrev pub object_body : Str → Result (List Field) Error
object_body [] = all_fields (read_fields 1 [])
object_body (c ∷ s) =
    if c == b'}'
    then at_end [] (skip_space s)
    else all_fields (read_fields (suc (length (c ∷ s))) (c ∷ s))

unfoldable pub read_flat_object : Str → Result (List Field) Error
unfolding read_fields skip_space
read_flat_object json = do s ← expect b'{' (skip_space json); object_body (skip_space s)

-- The first field of the name, where its value is no null.
unfoldable pub field : List Field → Str → Option Str
field [] wanted = none
field ((name, value) ∷ fields) wanted = if same name wanted then value else field fields wanted

abbrev pub unwrap_or : Option Str → Str → Str
unwrap_or none default = default
unwrap_or (some s) default = s

module _ {c : Chrono} (r : Rfc3339 c) where
  abbrev pub parsed_moment : Option c.DateTime → Str → Result (Option c.DateTime) Error
  parsed_moment (some moment) name = ok (some moment)
  parsed_moment none name =
      err (Error.key (text "the public key answer's " ++ (name ++ text " is not a moment in UTC")))

  unfoldable pub moment : Option Str → Str → Result (Option c.DateTime) Error
  moment none name = ok none
  moment (some value) name = parsed_moment (r.parse_from_rfc3339 value) name

  unfoldable pub parse : Str → Result (PublicKeyAnswer c) Error
  unfolding read_flat_object field moment
  parse json = do
    fields ← read_flat_object json
    valid_from ← moment (field fields (text "validFrom")) (text "validFrom")
    valid_to ← moment (field fields (text "validTo")) (text "validTo")
    ok (record {
      format = unwrap_or (field fields (text "format")) spki_format;
      public_key = unwrap_or (field fields (text "publicKey")) [];
      valid_from = valid_from;
      valid_to = valid_to;
    })
