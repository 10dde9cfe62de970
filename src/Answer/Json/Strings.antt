-- ===== src/Answer/Json/Strings.antt =====
-- A string that was written is read back, whatever characters it holds.
use owid_rust.Prelude.{
  ℕ, ◌+◌, ◌*◌, ◌/◌, ◌%◌, ◌<◌, ◌≡◌, refl, ap, ◌∙◌, [], ◌∷◌, ◌++◌, false, some, ok, append_assoc, ltb,
  leb, ◌==◌, ltb→lt, ==_iff, arith, inl, inr, Bool-cases,
}
use owid_rust.Text.{Str}
use owid_rust.Answer.Json.{
  hex_value, code_of, from_str_radix, unescape, push, push_code, read_chars, read_string, Reads,
}
use owid_rust.Answer.Write.{hex_digit, escape, escaped}

hex_value-hex_digit : (n : ℕ) → n < 16 → hex_value (hex_digit n) ≡ some n
hex_value-hex_digit n h = ground arith

-- The four digits of a control character.
code_of-hex_digit :
    (c : ℕ) → c < 32 → code_of 48 48 (hex_digit (c / 16)) (hex_digit (c % 16)) ≡ some c
unfolding from_str_radix
code_of-hex_digit c h =
    let high = hex_value-hex_digit (c / 16) (omega arith) in
    let low = hex_value-hex_digit (c % 16) (omega arith) in
    let whole : c / 16 * 16 + c % 16 ≡ c = omega arith in rw (high, low) (ap some (omega arith))

push_code-push : (c : ℕ) (rest : Reads Str) → c < 32 → push_code (some c) rest ≡ push c rest
push_code-push c rest h = let below : leb 0xd800 c ≡ false = ground arith in rw below refl

read_chars-escape : (c : ℕ) (s : Str) → read_chars (escape c ++ s) ≡ push c (read_chars s)
unfolding read_chars escape unescape
read_chars-escape c s = elim (Bool-cases (c == 34)) [
  | inl e ↦ let is : c ≡ 34 = (==_iff c 34).0 e in rw is refl
  | inr e34 ↦ elim (Bool-cases (c == 92)) [
    | inl e ↦ let is : c ≡ 92 = (==_iff c 92).0 e in rw is refl
    | inr e92 ↦ elim (Bool-cases (c == 10)) [
      | inl e ↦ let is : c ≡ 10 = (==_iff c 10).0 e in rw is refl
      | inr e10 ↦ elim (Bool-cases (c == 13)) [
        | inl e ↦ let is : c ≡ 13 = (==_iff c 13).0 e in rw is refl
        | inr e13 ↦ elim (Bool-cases (c == 9)) [
          | inl e ↦ let is : c ≡ 9 = (==_iff c 9).0 e in rw is refl
          | inr e9 ↦ elim (Bool-cases (ltb c 32)) [
            | inl e ↦
                let small = ltb→lt c 32 e in
                rw (e34, e92, e10, e13, e9, e)
                  (ap (λ o. push_code o (read_chars s)) (code_of-hex_digit c small)
                    ∙ push_code-push c (read_chars s) small)
            | inr e ↦ rw (e34, e92, e10, e13, e9, e) (rw (e34, e92) refl)
          ]
        ]
      ]
    ]
  ]
]

read_chars-escaped : (value s : Str) → read_chars (escaped value ++ (b'"' ∷ s)) ≡ ok (value, s)
unfolding read_chars escaped
read_chars-escaped [] s = refl
read_chars-escaped (c ∷ value) s =
    rw append_assoc
      (read_chars-escape c (escaped value ++ (b'"' ∷ s)) ∙ ap (push c) (read_chars-escaped value s))

pub read_string-quoted :
    (value s : Str) → read_string (b'"' ∷ (escaped value ++ (b'"' ∷ s))) ≡ ok (value, s)
unfolding read_string
read_string-quoted value s = read_chars-escaped value s
