-- ===== src/Fetch/Url/RoundTrip.antt =====
-- What is read from a URL is what it was written from.
use owid_rust.Prelude.{
  ℕ, zero, suc, ◌+◌, ◌-◌, ◌*◌, ◌/◌, ◌%◌, ◌^◌, ◌≤◌, ◌<◌, ◌≡◌, refl, ◌∙◌, ap, [], ◌∷◌, ◌++◌, true,
  false, some, ltb, leb, lt→ltb, ◌==◌, All, arith, inl, inr, Bool-cases,
}
use native.Mathlib.Numerals.{unary_clauses}
use owid_rust.Text.{Str, text}
use owid_rust.Text.Decimal.{digits_onto, decimal}
use owid_rust.Fetch.Url.{
  add_digits, some_digits, parse_u32, end_point_of, query_of, split, minute_of, key_url_at,
}

abbrev IsDigit : ℕ → Type 0
IsDigit c = (48 ≤ c) × (c ≤ 57)

digits_onto-All :
    (rounds n : ℕ) (tail : Str) → All IsDigit tail → All IsDigit (digits_onto rounds n tail)
unfolding digits_onto
digits_onto-All zero n tail h = h
digits_onto-All (suc rounds) n tail h = elim (Bool-cases (ltb n 10)) [
  | inl e ↦ rw e ((omega arith, ground arith), h)
  | inr e ↦ rw e (digits_onto-All rounds (n / 10) _ ((omega arith, omega arith), h))
]

pub digits_onto-cons :
    (rounds n : ℕ) (tail : Str) → (c : ℕ) × (s : Str) × (digits_onto (suc rounds) n tail ≡ c ∷ s)
unfolding digits_onto
digits_onto-cons zero n tail = elim (Bool-cases (ltb n 10)) [
  | inl e ↦ (48 + n, tail, rw e refl)
  | inr e ↦ (48 + n % 10, tail, rw e refl)
]
digits_onto-cons (suc rounds) n tail = elim (Bool-cases (ltb n 10)) [
  | inl e ↦ (48 + n, tail, rw e refl)
  | inr e ↦
      let (c, s, h) = digits_onto-cons rounds (n / 10) ((48 + n % 10) ∷ tail) in (c, s, rw e h)
]

-- One digit more.
add_digits-cons :
    (value d n : ℕ) (tail : Str)
    → d ≤ 9
    → value * 10 + d ≡ n
    → n < 2 ^ 32
    → add_digits value ((48 + d) ∷ tail) ≡ add_digits n tail
unfolding add_digits
add_digits-cons value d n tail digit is bound =
    let back : 48 + d - 48 ≡ d = omega arith in
    let low : leb 48 (48 + d) ≡ true = ground arith in
    let high : leb (48 + d) 57 ≡ true = ground arith in
    rw (back, low, high, is, lt→ltb n (2 ^ 32) bound) refl

pow-step : (n rounds : ℕ) → n < 10 ^ suc rounds → n / 10 < 10 ^ rounds
pow-step n rounds h =
    let e : 10 ^ suc rounds ≡ 10 ^ rounds * 10 = simp unary_clauses (omega arith) in
    omega (arith, e, h)

add_digits-digits_onto :
    (rounds n : ℕ) (tail : Str)
    → n < 2 ^ 32
    → n < 10 ^ rounds
    → add_digits 0 (digits_onto rounds n tail) ≡ add_digits n tail
unfolding digits_onto
add_digits-digits_onto zero n tail bound enough =
    let e : 0 ≡ n = omega arith in ap (λ v. add_digits v tail) e
add_digits-digits_onto (suc rounds) n tail bound enough = elim (Bool-cases (ltb n 10)) [
  | inl e ↦ rw e (add_digits-cons 0 n n tail (ground arith) (omega arith) bound)
  | inr e ↦ rw e (
      add_digits-digits_onto rounds (n / 10) ((48 + n % 10) ∷ tail) (omega arith)
        (pow-step n rounds enough)
      ∙ add_digits-cons (n / 10) (n % 10) n tail (omega arith) (omega arith) bound)
]

some_digits-cons : (s : Str) (c : ℕ) (t : Str) → s ≡ c ∷ t → some_digits s ≡ add_digits 0 s
some_digits-cons [] c t h = cc
some_digits-cons (d ∷ s) c t h = refl

parse_u32-digits :
    (s : Str) (c : ℕ) (t : Str) → s ≡ c ∷ t → All IsDigit s → parse_u32 s ≡ add_digits 0 s
parse_u32-digits [] c t h digits = cc
parse_u32-digits (d ∷ s) c t h ((low, high), digits) =
    let e : (d == 43) ≡ false = ground arith in rw e refl

-- A u32 written in decimal is read back.
pub parse_u32-decimal : (n : ℕ) → n < 2 ^ 32 → parse_u32 (decimal n) ≡ some n
unfolding add_digits
parse_u32-decimal n bound =
    let (c, s, h) = digits_onto-cons 19 n [] in
    parse_u32-digits (decimal n) c s h (digits_onto-All 20 n [] tt)
    ∙ add_digits-digits_onto 20 n [] bound (omega arith)

split-append : (s t : Str) → All IsDigit s → split (s ++ 38 ∷ t) ≡ s ∷ split t
unfolding split
split-append [] t h = refl
split-append (c ∷ s) t ((low, high), h) =
    let e : (c == 38) ≡ false = ground arith in rw (e, split-append s t h) refl

-- A text with no question mark.
abbrev pub IsPlain : Str → Type 0
IsPlain s = All (λ c. (c == 63) ≡ false) s

end_point_of-append : (s t : Str) → IsPlain s → end_point_of (s ++ 63 ∷ t) ≡ s
unfolding end_point_of
end_point_of-append [] t h = refl
end_point_of-append (c ∷ s) t (e, h) = rw (e, end_point_of-append s t h) refl

query_of-append : (s t : Str) → IsPlain s → query_of (s ++ 63 ∷ t) ≡ some t
unfolding query_of
query_of-append [] t h = refl
query_of-append (c ∷ s) t (e, h) = rw (e, query_of-append s t h) refl

split-date :
    (digits t : Str)
    → All IsDigit digits
    → split (text "date=" ++ (digits ++ 38 ∷ t)) ≡ (text "date=" ++ digits) ∷ split t
unfolding split
split-date digits t h = rw (split-append digits t h) refl

-- The URL that asks an end point for the key of a minute, where the end point holds no question
-- mark, is read as that end point and that minute, whichever minute a u32 holds: of such an end
-- point the cache is asked about what the creator is asked about.
pub key_url_at-read :
    (end_point : Str) (minute : ℕ)
    → IsPlain end_point
    → minute < 2 ^ 32
    → (end_point_of (key_url_at end_point minute) ≡ end_point)
      × (minute_of (key_url_at end_point minute) ≡ some minute)
unfolding key_url_at minute_of
key_url_at-read end_point minute plain bound =
    let digits = digits_onto-All 20 minute [] tt in
    (
      end_point_of-append end_point _ plain,
      rw (query_of-append end_point _ plain) (
          rw (split-date (decimal minute) (text "format=spki") digits)
            (parse_u32-decimal minute bound)),
    )
