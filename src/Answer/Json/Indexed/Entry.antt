-- ===== src/Answer/Json/Indexed/Entry.antt =====
-- A field by index, its name, its colon and its value, against the model's.
use owid_rust.Prelude.{
  ℕ, suc, get_elem?, ◌>>=◌, ◌+◌, ◌≤◌, ◌≡◌, refl, ap, [], ◌∷◌, some, ok, err, length, drop, ◌==◌,
  arith, inl, inr, Bool-cases, Option-cases,
}
use owid_rust.Text.{Str, text}
use owid_rust.Platform.{Machine}
use owid_rust.Error.{Error}
use owid_rust.Panics.{Checked, panics, returns, bind, value, add}
use owid_rust.Panics.InRange.{slice_from_lem}
use owid_rust.Answer.Json.{
  Reads, skip_space, strip, some_string, expect, read_string, read_value, read_field,
}
use owid_rust.Answer.Json.Indexed.{skip_from, is_char, require, walk_string, walk_value, walk_field}
use owid_rust.Answer.Json.Indexed.Steps.{
  IsVec, At, Tracks, Tracks-bind, length-At, get_elem?-At, get_elem?-At-end, At-some, At-next,
  add-At, walk_space_lem,
}
use owid_rust.Answer.Json.Indexed.Chars.{walk_string_lem}

strip-length :
    (p s rest : Str) → strip p s ≡ some rest → (length p ≤ length s) × (rest ≡ drop (length p) s)
strip-length [] s rest h = (omega arith, cc)
strip-length (c ∷ p) [] rest h = cc
strip-length (c ∷ p) (d ∷ s) rest h = elim (Bool-cases (c == d)) [
  | inl e ↦ let (le, is) = strip-length p s rest (rw e at h) in (omega arith, is)
  | inr e ↦ cc (rw e at h)
]

module _ (chars : Str) where
  some_string-Tracks :
      (walk : Checked (Str × ℕ) Error) (read : Reads Str)
      → Tracks chars walk read
      → Tracks chars (bind walk λ r. value (some r.0, r.1)) (some_string read)
  some_string-Tracks (returns (ok (a, at))) (ok (b, s)) h = (ap some h.0, h.1)
  some_string-Tracks (returns (err e)) (err e') h = h
  some_string-Tracks panics read h = absurd h
  some_string-Tracks (returns (ok (a, at))) (err e') h = absurd h
  some_string-Tracks (returns (err e)) (ok r) h = absurd h

module _ (m : Machine) (chars : Str) (v : IsVec m chars) where
  pub skip_from_lem :
      (at : ℕ) (s : Str)
      → At chars at s
      → (next : ℕ) × (skip_from m chars at ≡ value next) × At chars next (skip_space s)
  skip_from_lem at s h =
      walk_space_lem m chars v (suc (length chars)) at s h (omega (arith, length-At chars at s h))

  -- A character that has to be there, and the step over it.
  expect_lem :
      {B : Type 0} (wanted at : ℕ) (s : Str) (next : ℕ → Checked (B × ℕ) Error)
      (more : Str → Reads B)
      → At chars at s
      → ((at : ℕ) (s : Str) → At chars at s → Tracks chars (next at) (more s))
      → Tracks chars
          (bind
            (returns (require (is_char (get_elem? chars at) wanted)))
            λ u. bind (add m at 1) next)
          (expect wanted s >>= more)
  expect_lem wanted at [] next more h k = rw (get_elem?-At-end chars at h) refl
  expect_lem wanted at (c ∷ s) next more h k = elim (Bool-cases (c == wanted)) [
    | inr other ↦ rw (get_elem?-At chars at c s h) (rw other refl)
    | inl found ↦ rw (get_elem?-At chars at c s h) (
        rw found (
          rw (add-At m chars v at 1 (c ∷ s) (omega arith) h)
            (k (at + 1) s (At-next chars at c s h))))
  ]

  walk_value_lem :
      (at : ℕ) (s : Str) → At chars at s → Tracks chars (walk_value m chars at) (read_value s)
  unfolding walk_value read_value
  walk_value_lem at s h = rw (slice_from_lem chars at h.within) (
      rw h.left (elim (Option-cases (strip (text "null") s)) [
        | inr (rest, e) ↦
            let (le, is) = strip-length (text "null") s rest e in
            rw e (
              rw (add-At m chars v at 4 s (omega arith) h)
                (rw is (refl, At-some chars at 4 s le h)))
        | inl e ↦ rw e (
            some_string-Tracks chars (walk_string m chars at) (read_string s)
              (walk_string_lem m chars v at s h))
      ]))

  pub walk_field_lem :
      (at : ℕ) (s : Str) → At chars at s → Tracks chars (walk_field m chars at) (read_field s)
  unfolding walk_field read_field
  walk_field_lem at s h =
      let (at1, e1, h1) = skip_from_lem at s h in
      rw e1 (
        Tracks-bind chars (walk_string m chars at1) (read_string (skip_space s)) _ _
          (walk_string_lem m chars v at1 (skip_space s) h1)
          λ name at2 s2 h2.
            let (at3, e3, h3) = skip_from_lem at2 s2 h2 in
            rw e3 (
              expect_lem b':' at3 (skip_space s2) _ _ h3 λ at4 s4 h4.
                let (at5, e5, h5) = skip_from_lem at4 s4 h4 in
                rw e5 (
                  Tracks-bind chars (walk_value m chars at5) (read_value (skip_space s4)) _ _
                    (walk_value_lem at5 (skip_space s4) h5)
                    λ read at6 s6 h6.
                      let (at7, e7, h7) = skip_from_lem at6 s6 h6 in rw e7 (refl, h7))))
