-- ===== src/Text/Utf8/RoundTrip.antt =====
-- `as_bytes` and `from_utf8` undo one another, and what the bytes of a text look like.
use owid_rust.Prelude.{
  ℕ, zero, suc, ◌≤◌, ◌<◌, List, [], ◌∷◌, ◌++◌, some, ◌≡◌, refl, ◌∙◌, ap, ◌⊎◌, arith, length,
  length-append, All, All-append, Option-cases, inl, inr,
}
use owid_rust.Text.Utf8.{
  encode_char, as_bytes, split_char, two_bytes, three_bytes, four_bytes, push, decode_loop,
  from_utf8,
}

abbrev pub IsByte : ℕ → Type 0
IsByte b = b < 256

-- A Unicode scalar value: no surrogate, and at most 0x10ffff.
abbrev pub IsChar : ℕ → Type 0
IsChar c = (c < 0x110000) × ((c < 0xd800) ⊎ (0xe000 ≤ c))

split_char-encode_char :
    (c : ℕ) (rest : List ℕ) → IsChar c → split_char (encode_char c ++ rest) ≡ some (c, rest)
unfolding encode_char split_char two_bytes three_bytes four_bytes
split_char-encode_char c rest h = ground arith

-- The three forms of more than one byte, each on its range of first bytes.
two_bytes_lem :
    (a : ℕ) (bytes : List ℕ) (c : ℕ) (rest : List ℕ)
    → 0xc2 ≤ a
    → a < 0xe0
    → two_bytes a bytes ≡ some (c, rest)
    → IsChar c × (encode_char c ++ rest ≡ a ∷ bytes)
unfolding two_bytes encode_char
two_bytes_lem a [] c rest lo hi h = cc
two_bytes_lem a (b ∷ r) c rest lo hi h = ground arith

three_bytes_lem :
    (a : ℕ) (bytes : List ℕ) (c : ℕ) (rest : List ℕ)
    → 0xe0 ≤ a
    → a < 0xf0
    → three_bytes a bytes ≡ some (c, rest)
    → IsChar c × (encode_char c ++ rest ≡ a ∷ bytes)
unfolding three_bytes encode_char
three_bytes_lem a [] c rest lo hi h = cc
three_bytes_lem a (b ∷ []) c rest lo hi h = cc
three_bytes_lem a (b ∷ d ∷ r) c rest lo hi h = ground arith

four_bytes_lem :
    (a : ℕ) (bytes : List ℕ) (c : ℕ) (rest : List ℕ)
    → 0xf0 ≤ a
    → a < 0xf5
    → four_bytes a bytes ≡ some (c, rest)
    → IsChar c × (encode_char c ++ rest ≡ a ∷ bytes)
unfolding four_bytes encode_char
four_bytes_lem a [] c rest lo hi h = cc
four_bytes_lem a (b ∷ []) c rest lo hi h = cc
four_bytes_lem a (b ∷ d ∷ []) c rest lo hi h = cc
four_bytes_lem a (b ∷ d ∷ e ∷ r) c rest lo hi h = ground arith

one_byte_lem : (a : ℕ) → a < 0x80 → IsChar a × (encode_char a ≡ a ∷ [])
unfolding encode_char
one_byte_lem a h = ground arith

encode_char-split_char :
    (bytes : List ℕ) (c : ℕ) (rest : List ℕ)
    → split_char bytes ≡ some (c, rest)
    → IsChar c × (encode_char c ++ rest ≡ bytes)
unfolding split_char
encode_char-split_char [] c rest h = cc
encode_char-split_char (a ∷ r) c rest h = ground (
  arith,
  one_byte_lem a,
  two_bytes_lem a r c rest,
  three_bytes_lem a r c rest,
  four_bytes_lem a r c rest,
)

encode_char_shape : (c : ℕ) → IsChar c → (1 ≤ length (encode_char c)) × All IsByte (encode_char c)
unfolding encode_char
encode_char_shape c h = ground arith

encode_char-ne-nil : (c : ℕ) (rest : List ℕ) → IsChar c → 0 < length (encode_char c ++ rest)
encode_char-ne-nil c rest h =
    omega (arith, length-append (encode_char c) rest, (encode_char_shape c h).0)

decode_loop_step :
    (fuel : ℕ) (bytes : List ℕ) (c : ℕ) (rest : List ℕ)
    → split_char bytes ≡ some (c, rest)
    → decode_loop (suc fuel) bytes ≡ push c (decode_loop fuel rest)
unfolding decode_loop
decode_loop_step fuel [] c rest h = unfold split_char in cc
decode_loop_step fuel (b ∷ bs) c rest h = rw (h, decode_loop)

decode_loop-as_bytes :
    (s : List ℕ) (fuel : ℕ)
    → All IsChar s
    → length (as_bytes s) ≤ fuel
    → decode_loop fuel (as_bytes s) ≡ some s
unfolding as_bytes
decode_loop-as_bytes [] zero h hf = unfold decode_loop in refl
decode_loop-as_bytes [] (suc fuel) h hf = unfold decode_loop in refl
decode_loop-as_bytes (c ∷ s) zero (hc, hs) hf =
    absurd (omega (arith, encode_char-ne-nil c (as_bytes s) hc))
decode_loop-as_bytes (c ∷ s) (suc fuel) (hc, hs) hf =
    decode_loop_step fuel _ c (as_bytes s) (split_char-encode_char c (as_bytes s) hc)
    ∙ ap (push c) (
        decode_loop-as_bytes s fuel hs
          (omega (arith, length-append (encode_char c) (as_bytes s), (encode_char_shape c hc).0)))

-- Reading the bytes of a text gives the text back.
pub from_utf8-as_bytes : (s : List ℕ) → All IsChar s → from_utf8 (as_bytes s) ≡ some s
from_utf8-as_bytes s h = unfold from_utf8 in decode_loop-as_bytes s _ h (omega arith)

as_bytes-decode_loop :
    (fuel : ℕ) (bytes s : List ℕ)
    → decode_loop fuel bytes ≡ some s
    → All IsChar s × (as_bytes s ≡ bytes)
unfolding decode_loop as_bytes
as_bytes-decode_loop fuel [] [] h = (tt, refl)
as_bytes-decode_loop fuel [] (c ∷ s) h = cc
as_bytes-decode_loop zero (b ∷ bs) s h = cc
as_bytes-decode_loop (suc fuel) (b ∷ bs) s h = elim (Option-cases (split_char (b ∷ bs))) [
  | inl e ↦ ground (arith, e)
  | inr ((c, rest), e) ↦ elim (Option-cases (decode_loop fuel rest)) [
    | inl e' ↦ ground (arith, e, e')
    | inr (t, e') ↦ ground (
      arith,
      e,
      e',
      encode_char-split_char (b ∷ bs) c rest e,
      as_bytes-decode_loop fuel rest t e',
    )
  ]
]

-- Bytes that are read as a text are the bytes of that text, and it holds characters alone.
pub as_bytes-from_utf8 :
    (bytes s : List ℕ) → from_utf8 bytes ≡ some s → All IsChar s × (as_bytes s ≡ bytes)
unfolding from_utf8
as_bytes-from_utf8 bytes s h = as_bytes-decode_loop _ bytes s h

pub as_bytes-IsByte : (s : List ℕ) → All IsChar s → All IsByte (as_bytes s)
unfolding as_bytes
as_bytes-IsByte [] h = tt
as_bytes-IsByte (c ∷ s) (hc, hs) =
    All-append IsByte (encode_char c) (as_bytes s) (encode_char_shape c hc).1 (as_bytes-IsByte s hs)
