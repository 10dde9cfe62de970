-- ===== src/Answer/Json/Indexed.antt =====
-- The reader of key_answer.rs once more, with the indices, slices and sums of the code as they are
-- in Rust, where one out of range panics. Answer.Json models what comes of it, on what is left of
-- the text.
pub mod Steps
pub mod Chars
pub mod Entry
pub mod Safe
use owid_rust.Prelude.{
  ℕ, zero, suc, List, [], ◌∷◌, ◌++◌, Bool, true, false, Option, none, some, Result, ok, err, ok_or,
  length, get_elem?, ltb, leb, ◌==◌, ◌&&◌, not, if◌then◌else◌,
}
use owid_rust.Text.{Str, text, is_whitespace}
use owid_rust.Platform.{Machine}
use owid_rust.Error.{Error}
use owid_rust.Panics.{Checked, panics, returns, ◌>>=◌, ◌>>◌, value, index, slice_from, slice, add}
use owid_rust.Answer.Json.{not_json, code_of, unescape, strip, Field}

-- `chars.get(at) == Some(&wanted)`
abbrev pub is_char : Option ℕ → ℕ → Bool
is_char none wanted = false
is_char (some c) wanted = c == wanted

abbrev pub require : Bool → Result (Unit {0}) Error
require true = ok tt
require false = err not_json

-- `u32::from_str_radix` of the four characters of an escape, and `char::from_u32`.
abbrev pub code_in : Str → Option ℕ
code_in (a ∷ b ∷ c ∷ d ∷ []) = code_of a b c d
code_in _ = none

abbrev pub char_of : Option ℕ → Result ℕ Error
char_of none = err not_json
char_of (some code) = if leb 0xd800 code && leb code 0xdfff then err not_json else ok code

module _ (m : Machine) (chars : Str) where
  abbrev pub space_round : (ℕ → Checked ℕ Error) → ℕ → ℕ → Checked ℕ Error
  space_round more c at = if is_whitespace c then add m at 1 >>= more else value at

  -- A loop that runs out of rounds counts as a panic, which it is shown not to do.
  unfoldable pub walk_space : ℕ → ℕ → Checked ℕ Error
  walk_space zero at = panics
  walk_space (suc rounds) at =
      if not (ltb at (length chars))
      then value at
      else index chars at >>= λ c. space_round (walk_space rounds) c at

  abbrev pub skip_from : ℕ → Checked ℕ Error
  skip_from at = walk_space (suc (length chars)) at

  abbrev pub Loop : Type 0
  Loop = Str → ℕ → Checked (Str × ℕ) Error

  abbrev pub code_walk : Loop → Str → ℕ → ℕ → Checked (Str × ℕ) Error
  code_walk more read at end = do
    code ← slice chars at end
    c ← returns (char_of (code_in code))
    at ← add m at 4
    more (read ++ c ∷ []) at

  abbrev pub code_round : Loop → Str → ℕ → Checked (Str × ℕ) Error
  code_round more read at = do
    end ← add m at 4
    if ltb (length chars) end then returns (err not_json) else code_walk more read at end

  abbrev pub push_round : Loop → Option ℕ → Str → ℕ → Checked (Str × ℕ) Error
  push_round more none read at = returns (err not_json)
  push_round more (some c) read at = more (read ++ c ∷ []) at

  abbrev pub escape_round : Loop → Str → ℕ → Checked (Str × ℕ) Error
  escape_round more read at = do
    escaped ← returns (ok_or (get_elem? chars at) not_json)
    at ← add m at 1
    if escaped == b'u' then code_round more read at else push_round more (unescape escaped) read at

  abbrev pub char_round : Loop → Str → ℕ → Checked (Str × ℕ) Error
  char_round more read at = do
    c ← index chars at
    at ← add m at 1
    if c == b'"'
        then value (read, at)
        else if not (c == b'\\')
        then more (read ++ c ∷ []) at
        else escape_round more read at

  unfoldable pub walk_chars : ℕ → Str → ℕ → Checked (Str × ℕ) Error
  walk_chars zero read at = panics
  walk_chars (suc rounds) read at =
      if not (ltb at (length chars))
      then returns (err not_json)
      else char_round (walk_chars rounds) read at

  unfoldable pub walk_string : ℕ → Checked (Str × ℕ) Error
  walk_string at = do
    returns (require (is_char (get_elem? chars at) b'"'))
    at ← add m at 1
    walk_chars (suc (length chars)) [] at

  abbrev pub value_walk : Option Str → ℕ → Checked (Option Str × ℕ) Error
  value_walk (some rest) at = do at ← add m at 4; value (none, at)
  value_walk none at = do (read, next) ← walk_string at; value (some read, next)

  unfoldable pub walk_value : ℕ → Checked (Option Str × ℕ) Error
  walk_value at = do tail ← slice_from chars at; value_walk (strip (text "null") tail) at

  unfoldable pub walk_field : ℕ → Checked (Field × ℕ) Error
  walk_field at = do
    at ← skip_from at
    (name, next) ← walk_string at
    at ← skip_from next
    returns (require (is_char (get_elem? chars at) b':'))
    at ← add m at 1
    at ← skip_from at
    (read, at) ← walk_value at
    at ← skip_from at
    value ((name, read), at)

  abbrev pub field_round :
      (List Field → ℕ → Checked (List Field × ℕ) Error)
      → Option ℕ
      → List Field
      → ℕ
      → Checked (List Field × ℕ) Error
  field_round more none fields at = returns (err not_json)
  field_round more (some c) fields at =
      if c == b'}'
      then (add m at 1 >>= λ next. value (fields, next))
      else if c == b','
      then add m at 1 >>= more fields
      else returns (err not_json)

  unfoldable pub walk_fields : ℕ → List Field → ℕ → Checked (List Field × ℕ) Error
  walk_fields zero fields at = panics
  walk_fields (suc rounds) fields at = do
    (field, at) ← walk_field at
    field_round (walk_fields rounds) (get_elem? chars at) (fields ++ field ∷ []) at

  abbrev pub walk_end : List Field → ℕ → Checked (List Field) Error
  walk_end fields at = do end ← skip_from at; returns (require (end == length chars)); value fields

  abbrev pub walk_body : ℕ → Checked (List Field) Error
  walk_body at = do (fields, at) ← walk_fields (suc (length chars)) [] at; walk_end fields at

  abbrev pub walk_object : ℕ → Checked (List Field) Error
  walk_object at =
      if is_char (get_elem? chars at) b'}' then add m at 1 >>= walk_end [] else walk_body at

  unfoldable pub walk_flat_object : Checked (List Field) Error
  walk_flat_object = do
    at ← skip_from 0
    returns (require (is_char (get_elem? chars at) b'{'))
    at ← add m at 1
    at ← skip_from at
    walk_object at
