-- ===== src/Text/Utf8.antt =====
-- `str::as_bytes`, `str::len` and `str::from_utf8` of Rust's standard library.
pub mod RoundTrip
use owid_rust.Prelude.{
  ℕ, zero, suc, ◌+◌, ◌-◌, ◌*◌, ◌/◌, ◌%◌, List, [], ◌∷◌, ◌++◌, Bool, ◌&&◌, Option, none, some, leb,
  ltb, ◌==◌, if◌then◌else◌, length,
}

-- The bytes of one character.
unfoldable pub encode_char : ℕ → List ℕ
encode_char c =
    if ltb c 0x80
    then c ∷ []
    else if ltb c 0x800
    then (0xc0 + c / 64) ∷ (0x80 + c % 64) ∷ []
    else if ltb c 0x10000
    then (0xe0 + c / 4096) ∷ (0x80 + c / 64 % 64) ∷ (0x80 + c % 64) ∷ []
    else (0xf0 + c / 262144) ∷ (0x80 + c / 4096 % 64) ∷ (0x80 + c / 64 % 64) ∷ (0x80 + c % 64) ∷ []

-- `as_bytes`
unfoldable pub as_bytes : List ℕ → List ℕ
as_bytes [] = []
as_bytes (c ∷ cs) = encode_char c ++ as_bytes cs

abbrev in_range : ℕ → ℕ → ℕ → Bool
in_range lo hi b = leb lo b && leb b hi

-- A character of two, three or four bytes, its first byte `a` taken off. An overlong form, a
-- surrogate and a value past 0x10ffff are refused by the range of the second byte.
two_bytes : ℕ → List ℕ → Option (ℕ × List ℕ)
two_bytes a (b ∷ rest) =
    if in_range 0x80 0xbf b then some ((a - 0xc0) * 64 + (b - 0x80), rest) else none
two_bytes a [] = none

three_bytes : ℕ → List ℕ → Option (ℕ × List ℕ)
three_bytes a (b ∷ c ∷ rest) =
    if in_range (if a == 0xe0 then 0xa0 else 0x80) (if a == 0xed then 0x9f else 0xbf) b
      && in_range 0x80 0xbf c
    then some ((a - 0xe0) * 4096 + (b - 0x80) * 64 + (c - 0x80), rest)
    else none
three_bytes a (b ∷ []) = none
three_bytes a [] = none

four_bytes : ℕ → List ℕ → Option (ℕ × List ℕ)
four_bytes a (b ∷ c ∷ d ∷ rest) =
    if in_range (if a == 0xf0 then 0x90 else 0x80) (if a == 0xf4 then 0x8f else 0xbf) b
      && (in_range 0x80 0xbf c && in_range 0x80 0xbf d)
    then some ((a - 0xf0) * 262144 + (b - 0x80) * 4096 + (c - 0x80) * 64 + (d - 0x80), rest)
    else none
four_bytes a (b ∷ c ∷ []) = none
four_bytes a (b ∷ []) = none
four_bytes a [] = none

-- The first character and the bytes that follow it.
pub split_char : List ℕ → Option (ℕ × List ℕ)
split_char [] = none
split_char (a ∷ rest) =
    if ltb a 0x80
    then some (a, rest)
    else if ltb a 0xc2
    then none
    else if ltb a 0xe0
    then two_bytes a rest
    else if ltb a 0xf0
    then three_bytes a rest
    else if ltb a 0xf5
    then four_bytes a rest
    else none

abbrev push : ℕ → Option (List ℕ) → Option (List ℕ)
push c none = none
push c (some cs) = some (c ∷ cs)

-- Each round takes a byte at least, so as many rounds as bytes are enough.
pub decode_loop : ℕ → List ℕ → Option (List ℕ)
decode_loop fuel [] = some []
decode_loop zero (b ∷ bs) = none
decode_loop (suc fuel) (b ∷ bs) = elim (split_char (b ∷ bs)) [
  | none ↦ none
  | some (c, rest) ↦ push c (decode_loop fuel rest)
]

-- `str::from_utf8`: none for bytes that are not UTF-8.
unfoldable pub from_utf8 : List ℕ → Option (List ℕ)
unfolding decode_loop split_char two_bytes three_bytes four_bytes
from_utf8 bytes = decode_loop (length bytes) bytes
