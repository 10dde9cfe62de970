-- ===== src/Answer/Json/Rounds.antt =====
-- The rounds given to the loop over the fields are enough.
use owid_rust.Prelude.{
  ℕ, zero, suc, ◌≤◌, ◌<◌, ◌≡◌, ◌≢◌, refl, List, [], ◌∷◌, Option, none, some, ok, err, length, leb,
  ◌==◌, ◌&&◌, arith, inl, inr, Bool-cases, Option-cases, Result-cases,
}
use owid_rust.Text.{Str, text, is_whitespace}
use owid_rust.Answer.Json.{
  Reads, Field, skip_space, push, push_escape, push_code, code_of, unescape, strip, some_string,
  expect, read_chars, read_escape, read_code, read_string, read_value, read_field, push_field,
  read_fields,
}

-- What is left is shorter than so much.
abbrev IsShorter {ℓ} : {A : Type ℓ} → ℕ → Reads A → Type 0
IsShorter n (ok (value, s)) = length s < n
IsShorter n (err e) = Unit {0}

IsShorter-le {ℓ} : {A : Type ℓ} (m n : ℕ) (r : Reads A) → m ≤ n → IsShorter m r → IsShorter n r
IsShorter-le m n (ok (value, s)) le h = omega arith
IsShorter-le m n (err e) le h = tt

push-IsShorter : (n c : ℕ) (r : Reads Str) → IsShorter n r → IsShorter n (push c r)
push-IsShorter n c (ok (value, s)) h = h
push-IsShorter n c (err e) h = tt

push_escape-IsShorter :
    (n : ℕ) (o : Option ℕ) (r : Reads Str) → IsShorter n r → IsShorter n (push_escape o r)
push_escape-IsShorter n none r h = tt
push_escape-IsShorter n (some c) r h = push-IsShorter n c r h

push_code-IsShorter :
    (n : ℕ) (o : Option ℕ) (r : Reads Str) → IsShorter n r → IsShorter n (push_code o r)
push_code-IsShorter n none r h = tt
push_code-IsShorter n (some c) r h = elim (Bool-cases (leb 0xd800 c && leb c 0xdfff)) [
  | inl e ↦ rw e tt
  | inr e ↦ rw e (push-IsShorter n c r h)
]

mutual
  unfolding read_chars read_escape read_code

  read_chars-IsShorter : (s : Str) → IsShorter (length s) (read_chars s)
  read_chars-IsShorter [] = tt
  read_chars-IsShorter (c ∷ s) = elim (Bool-cases (c == b'"')) [
    | inl e ↦ rw e (omega arith)
    | inr e ↦ elim (Bool-cases (c == b'\\')) [
      | inl b ↦
          rw (e, b)
            (IsShorter-le (length s) _ (read_escape s) (omega arith) (read_escape-IsShorter s))
      | inr b ↦
          rw (e, b)
            (push-IsShorter _ c (read_chars s)
              (IsShorter-le (length s) _ (read_chars s) (omega arith) (read_chars-IsShorter s)))
    ]
  ]

  read_escape-IsShorter : (s : Str) → IsShorter (length s) (read_escape s)
  read_escape-IsShorter [] = tt
  read_escape-IsShorter (c ∷ s) = elim (Bool-cases (c == b'u')) [
    | inl e ↦ rw e (IsShorter-le (length s) _ (read_code s) (omega arith) (read_code-IsShorter s))
    | inr e ↦ rw e (
        push_escape-IsShorter _ (unescape c) (read_chars s)
          (IsShorter-le (length s) _ (read_chars s) (omega arith) (read_chars-IsShorter s)))
  ]

  read_code-IsShorter : (s : Str) → IsShorter (length s) (read_code s)
  read_code-IsShorter [] = tt
  read_code-IsShorter (a ∷ []) = tt
  read_code-IsShorter (a ∷ b ∷ []) = tt
  read_code-IsShorter (a ∷ b ∷ c ∷ []) = tt
  read_code-IsShorter (a ∷ b ∷ c ∷ d ∷ s) =
      push_code-IsShorter _ (code_of a b c d) (read_chars s)
        (IsShorter-le (length s) _ (read_chars s) (omega arith) (read_chars-IsShorter s))

read_string-IsShorter : (s : Str) → IsShorter (length s) (read_string s)
unfolding read_string
read_string-IsShorter [] = tt
read_string-IsShorter (c ∷ s) = elim (Bool-cases (c == b'"')) [
  | inl e ↦ rw e (IsShorter-le (length s) _ (read_chars s) (omega arith) (read_chars-IsShorter s))
  | inr e ↦ rw e tt
]

length-skip_space : (s : Str) → length (skip_space s) ≤ length s
unfolding skip_space
length-skip_space [] = omega arith
length-skip_space (c ∷ s) = elim (Bool-cases (is_whitespace c)) [
  | inl e ↦ rw e (omega (arith, length-skip_space s))
  | inr e ↦ rw e (omega arith)
]

length-strip : (p s rest : Str) → strip p s ≡ some rest → length rest ≤ length s
length-strip [] s rest h = let e : s ≡ rest = cc in rw e (omega arith)
length-strip (c ∷ p) [] rest h = cc
length-strip (c ∷ p) (d ∷ s) rest h = elim (Bool-cases (c == d)) [
  | inl e ↦ let le = length-strip p s rest (rw e at h) in omega arith
  | inr e ↦ cc (rw e at h)
]

some_string-IsShorter : (n : ℕ) (r : Reads Str) → IsShorter n r → IsShorter n (some_string r)
some_string-IsShorter n (ok (value, s)) h = h
some_string-IsShorter n (err e) h = tt

read_value-IsShorter : (s : Str) → IsShorter (suc (length s)) (read_value s)
unfolding read_value
read_value-IsShorter s = elim (Option-cases (strip (text "null") s)) [
  | inl e ↦ rw e (
      some_string-IsShorter _ (read_string s)
        (IsShorter-le (length s) _ (read_string s) (omega arith) (read_string-IsShorter s)))
  | inr (rest, e) ↦ rw e (let le = length-strip (text "null") s rest e in omega arith)
]

length-expect : (c : ℕ) (s rest : Str) → expect c s ≡ ok rest → length rest < length s
length-expect c [] rest h = cc
length-expect c (d ∷ s) rest h = elim (Bool-cases (d == c)) [
  | inl e ↦ let same : ok s ≡ ok rest = rw e at h in let is : s ≡ rest = cc in rw is (omega arith)
  | inr e ↦ cc (rw e at h)
]

read_field-IsShorter : (s : Str) → IsShorter (length s) (read_field s)
unfolding read_field
read_field-IsShorter s = elim (Result-cases (read_string (skip_space s))) [
  | inr (error, e) ↦ rw e tt
  | inl ((name, s1), e) ↦ elim (Result-cases (expect b':' (skip_space s1))) [
    | inr (error, e2) ↦ rw (e, e2) tt
    | inl (s2, e2) ↦ elim (Result-cases (read_value (skip_space s2))) [
      | inr (error, e3) ↦ rw (e, e2, e3) tt
      | inl ((value, s3), e3) ↦
          let h1 : length s1 < length (skip_space s) =
            rw e at (read_string-IsShorter (skip_space s)) in
          let h3 : length s3 < suc (length (skip_space s2)) =
            rw e3 at (read_value-IsShorter (skip_space s2)) in
          rw (e, e2, e3)
            (omega (
              arith,
              h1,
              h3,
              length-expect b':' (skip_space s1) s2 e2,
              length-skip_space s,
              length-skip_space s1,
              length-skip_space s2,
              length-skip_space s3,
            ))
    ]
  ]
]

push_field-ne-none :
    (field : Field) (o : Option (Reads (List Field))) → o ≢ none → push_field field o ≢ none
push_field-ne-none field none h e = h refl
push_field-ne-none field (some (ok (fields, s))) h e = cc
push_field-ne-none field (some (err error)) h e = cc

-- The loop over the fields ends: with one round more than there are characters it never runs out of
-- rounds, whatever the text.
pub read_fields-ne-none : (rounds : ℕ) (s : Str) → length s < rounds → read_fields rounds s ≢ none
unfolding read_fields
read_fields-ne-none zero s h e = absurd (omega arith)
read_fields-ne-none (suc rounds) s h none_left = elim (Result-cases (read_field s)) [
  | inr (error, e) ↦ cc (rw e at none_left)
  | inl ((field, []), e) ↦ cc (rw e at none_left)
  | inl ((field, c ∷ rest), e) ↦
      let left : length (c ∷ rest) < length s = rw e at (read_field-IsShorter s) in
      elim (Bool-cases (c == b'}')) [
        | inl closed ↦ cc (rw (e, closed) at none_left)
        | inr open_ ↦ elim (Bool-cases (c == b',')) [
          | inl more ↦
              push_field-ne-none field (read_fields rounds rest)
                (read_fields-ne-none rounds rest (omega arith)) (rw (e, open_, more) at none_left)
          | inr other ↦ cc (rw (e, open_, other) at none_left)
        ]
      ]
]
