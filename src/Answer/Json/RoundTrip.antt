-- ===== src/Answer/Json/RoundTrip.antt =====
-- The answer that was written is read back.
use owid_rust.Prelude.{
  ℕ, suc, ◌≡◌, refl, ap, ◌∙◌, List, [], ◌∷◌, ◌++◌, false, Option, none, some, ok, length,
  length-append, append_assoc, ◌-◌, ◌≤◌, arith,
}
use owid_rust.Text.{Str, text, is_whitespace}
use owid_rust.Platform.{Chrono, Rfc3339}
use owid_rust.Answer.{PublicKeyAnswer}
use owid_rust.Answer.Json.{
  skip_space, read_value, read_field, read_fields, read_flat_object, Field, field, push_field,
  all_fields, moment, parse,
}
use owid_rust.Answer.Write.{escape, escaped, write_string, write_moment, to_json}
use owid_rust.Answer.Json.Strings.{read_string-quoted}

-- What stands for a value, and for a field, in front of a rest.
abbrev quoted : Str → Str → Str
quoted value rest = b'"' ∷ (escaped value ++ (b'"' ∷ rest))

abbrev written : Option Str → Str → Str
written none rest = text "null" ++ rest
written (some value) rest = quoted value rest

abbrev member : Str → Option Str → Str → Str
member name value rest = quoted name (b':' ∷ written value rest)

read_value-written : (value : Option Str) (s : Str) → read_value (written value s) ≡ ok (value, s)
unfolding read_value
read_value-written none s = refl
read_value-written (some value) s = rw (read_string-quoted value s) refl

skip_space-written : (value : Option Str) (s : Str) → skip_space (written value s) ≡ written value s
unfolding skip_space is_whitespace
skip_space-written none s = refl
skip_space-written (some value) s = refl

skip_space-cons : (c : ℕ) (s : Str) → is_whitespace c ≡ false → skip_space (c ∷ s) ≡ c ∷ s
unfolding skip_space
skip_space-cons c s h = rw h refl

read_field-member :
    (name : Str) (value : Option Str) (c : ℕ) (s : Str)
    → is_whitespace c ≡ false
    → read_field (member name value (c ∷ s)) ≡ ok ((name, value), c ∷ s)
unfolding read_field
read_field-member name value c s h = rw (skip_space-cons b'"' _ (unfold is_whitespace in refl)) (
    rw (read_string-quoted name (b':' ∷ written value (c ∷ s))) (
      rw (skip_space-cons b':' _ (unfold is_whitespace in refl)) (
        rw (skip_space-written value (c ∷ s))
          (rw (read_value-written value (c ∷ s)) (rw (skip_space-cons c s h) refl)))))

read_fields-comma :
    (rounds : ℕ) (name : Str) (value : Option Str) (s : Str)
    → read_fields (suc rounds) (member name value (b',' ∷ s))
      ≡ push_field (name, value) (read_fields rounds s)
unfolding read_fields
read_fields-comma rounds name value s =
    rw (read_field-member name value b',' s (unfold is_whitespace in refl)) refl

read_fields-brace :
    (rounds : ℕ) (name : Str) (value : Option Str) (s : Str)
    → read_fields (suc rounds) (member name value (b'}' ∷ s)) ≡ some (ok ((name, value) ∷ [], s))
unfolding read_fields
read_fields-brace rounds name value s =
    rw (read_field-member name value b'}' s (unfold is_whitespace in refl)) refl

module _ {c : Chrono} (r : Rfc3339 c) where
  abbrev moment_text : Option c.DateTime → Option Str
  moment_text none = none
  moment_text (some at) = some (r.to_rfc3339 at)

  -- The four fields, in front of the closing brace.
  abbrev members : PublicKeyAnswer c → Str
  members answer = member (text "format") (some answer.format) (
      b','
      ∷ member (text "publicKey") (some answer.public_key) (
          b','
          ∷ member (text "validFrom") (moment_text answer.valid_from)
              (b',' ∷ member (text "validTo") (moment_text answer.valid_to) (b'}' ∷ []))))

  write_moment_lem :
      (json : Str) (at : Option c.DateTime)
      → write_moment r json at ≡ json ++ written (moment_text at) []
  unfolding write_moment write_string
  write_moment_lem json none = refl
  write_moment_lem json (some at) = refl

  written-append :
      (at : Option c.DateTime) (s t : Str)
      → written (moment_text at) s ++ t ≡ written (moment_text at) (s ++ t)
  written-append none s t = refl
  written-append (some at) s t = simp append_assoc

  to_json-members : (answer : PublicKeyAnswer c) → to_json r answer ≡ b'{' ∷ members answer
  unfolding to_json write_string escaped escape
  to_json-members answer = simp (write_moment_lem, append_assoc, written-append)

  -- The moment that the text of a moment is read as.
  abbrev pub IsRead : Option c.DateTime → Option c.DateTime → Type 0
  IsRead none to = to ≡ none
  IsRead (some at) to =
      (moment : c.DateTime) × (r.parse_from_rfc3339 (r.to_rfc3339 at) ≡ some moment)
      × (to ≡ some moment)

  moment-moment_text :
      (at to : Option c.DateTime) (name : Str)
      → IsRead at to
      → moment r (moment_text at) name ≡ ok to
  unfolding moment
  moment-moment_text none to name h = rw h refl
  moment-moment_text (some at) to name (m, h, e) = rw (h, e) refl

  abbrev fields_of : PublicKeyAnswer c → List Field
  fields_of answer =
      (text "format", some answer.format)
      ∷ (text "publicKey", some answer.public_key)
      ∷ (text "validFrom", moment_text answer.valid_from)
      ∷ (text "validTo", moment_text answer.valid_to)
      ∷ []

  read_fields-members :
      (answer : PublicKeyAnswer c) (rounds : ℕ)
      → read_fields (suc (suc (suc (suc rounds)))) (members answer)
        ≡ some (ok (fields_of answer, []))
  read_fields-members answer rounds =
      rw read_fields-comma (rw read_fields-comma (rw read_fields-comma (rw read_fields-brace refl)))

  enough_rounds : (answer : PublicKeyAnswer c) → 4 ≤ length (members answer)
  enough_rounds answer = omega (arith, length-append {0})

  read_flat_object-members :
      (answer : PublicKeyAnswer c)
      → read_flat_object (b'{' ∷ members answer) ≡ ok (fields_of answer)
  unfolding read_flat_object skip_space is_whitespace
  read_flat_object-members answer =
      let n = length (members answer) in
      let rounds : suc n ≡ suc (suc (suc (suc (n - 3)))) = omega (arith, enough_rounds answer) in
      ap (λ k. all_fields (read_fields k (members answer))) rounds
      ∙ ap all_fields (read_fields-members answer (n - 3))

  -- What a creator writes, whoever reads it finds: the format and the key as they were, whatever
  -- characters they hold, and the moments as chrono reads the texts that it wrote of them.
  pub parse-to_json :
      (answer : PublicKeyAnswer c) (from to : Option c.DateTime)
      → IsRead answer.valid_from from
      → IsRead answer.valid_to to
      → parse r (to_json r answer) ≡ ok (record answer { valid_from = from; valid_to = to })
  unfolding parse field
  parse-to_json answer from to hf ht = rw (to_json-members answer) (
      rw (read_flat_object-members answer) (
        rw (moment-moment_text answer.valid_from from (text "validFrom") hf)
          (rw (moment-moment_text answer.valid_to to (text "validTo") ht) refl)))
