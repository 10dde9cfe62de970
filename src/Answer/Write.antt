-- ===== src/Answer/Write.antt =====
-- key_answer.rs: the JSON of the answer, written.
use owid_rust.Prelude.{
  ℕ, ◌+◌, ◌/◌, ◌%◌, [], ◌∷◌, ◌++◌, Option, none, some, ltb, ◌==◌, if◌then◌else◌,
}
use owid_rust.Text.{Str, text}
use owid_rust.Platform.{Chrono, Rfc3339}
use owid_rust.Answer.{PublicKeyAnswer}

-- `{:04x}` of a number below 0x20.
abbrev pub hex_digit : ℕ → ℕ
hex_digit n = if ltb n 10 then 48 + n else 87 + n

unfoldable pub escape : ℕ → Str
escape c =
    if c == b'"'
    then text "\\\""
    else if c == b'\\'
    then text "\\\\"
    else if c == b'\n'
    then text "\\n"
    else if c == b'\r'
    then text "\\r"
    else if c == b'\t'
    then text "\\t"
    else if ltb c 0x20
    then text "\\u00" ++ (hex_digit (c / 16) ∷ hex_digit (c % 16) ∷ [])
    else c ∷ []

unfoldable pub escaped : Str → Str
escaped [] = []
escaped (c ∷ value) = escape c ++ escaped value

unfoldable pub write_string : Str → Str → Str
write_string json value = json ++ (b'"' ∷ (escaped value ++ (b'"' ∷ [])))

module _ {c : Chrono} (r : Rfc3339 c) where
  unfoldable pub write_moment : Str → Option c.DateTime → Str
  unfolding write_string
  write_moment json none = json ++ text "null"
  write_moment json (some moment) = write_string json (r.to_rfc3339 moment)

  unfoldable pub to_json : PublicKeyAnswer c → Str
  unfolding write_string write_moment
  to_json answer =
      let json = write_string (text "{\"format\":") answer.format in
      let json = write_string (json ++ text ",\"publicKey\":") answer.public_key in
      let json = write_moment (json ++ text ",\"validFrom\":") answer.valid_from in
      let json = write_moment (json ++ text ",\"validTo\":") answer.valid_to in json ++ text "}"
