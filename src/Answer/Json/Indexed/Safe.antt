-- ===== src/Answer/Json/Indexed/Safe.antt =====
-- The walk over the JSON of an answer never panics.
use owid_rust.Prelude.{
  ℕ, zero, suc, ◌+◌, ◌≤◌, ◌<◌, ◌≡◌, refl, List, [], ◌∷◌, ◌++◌, ◌>>=◌, append_assoc, true, false,
  some, ok, err, length, get_elem?, ◌==◌, arith, inl, inr, Bool-cases, Option-cases, Result-cases,
}
use owid_rust.Text.{Str}
use owid_rust.Platform.{Machine}
use owid_rust.Error.{Error}
use owid_rust.Panics.{Checked, returns, bind, value, add}
use owid_rust.Answer.Json.{
  Reads, Field, not_json, skip_space, read_field, push_field, next_field, read_fields, at_end,
  all_fields, object_body, expect, read_flat_object,
}
use owid_rust.Answer.Json.Rounds.{read_fields-ne-none}
use owid_rust.Answer.Json.Indexed.{
  is_char, require, skip_from, walk_field, field_round, walk_fields, walk_end, walk_body,
  walk_object, walk_flat_object,
}
use owid_rust.Answer.Json.Indexed.Steps.{
  IsVec, At, Tracks, Tracks-ok, Tracks-err, length-At, get_elem?-At, get_elem?-At-end, At-next,
  add-At,
}
use owid_rust.Answer.Json.Indexed.Chars.{prepend}
use owid_rust.Answer.Json.Indexed.Entry.{skip_from_lem, walk_field_lem}

push_field-prepend :
    (fields : List Field) (field : Field) (read : Reads (List Field)) (r : Reads (List Field))
    → push_field field (some read) ≡ some r
    → prepend (fields ++ field ∷ []) read ≡ prepend fields r
push_field-prepend fields field (ok (more, s)) r h =
    let is : ok (field ∷ more, s) ≡ r = cc in rw (← is) (rw append_assoc)
push_field-prepend fields field (err e) r h = let is : err e ≡ r = cc in rw (← is) refl

module _ (m : Machine) (chars : Str) (v : IsVec m chars) where
  -- A loop that comes to what the model's does in so many rounds.
  abbrev Follows : ℕ → (List Field → ℕ → Checked (List Field × ℕ) Error) → Type 0
  Follows rounds more =
      (fields : List Field) (at : ℕ) (s : Str) (r : Reads (List Field))
      → At chars at s
      → read_fields rounds s ≡ some r
      → Tracks chars (more fields at) (prepend fields r)

  field_round_lem :
      (rounds : ℕ) (more : List Field → ℕ → Checked (List Field × ℕ) Error) (fields : List Field)
      (field : Field) (at : ℕ) (s : Str) (r : Reads (List Field))
      → Follows rounds more
      → At chars at s
      → next_field (read_fields rounds) (ok (field, s)) ≡ some r
      → Tracks chars
          (field_round m chars more (get_elem? chars at) (fields ++ field ∷ []) at)
          (prepend fields r)
  field_round_lem rounds more fields field at [] r f h e =
      let is : err not_json ≡ r = cc in rw (get_elem?-At-end chars at h) (rw (← is) refl)
  field_round_lem rounds more fields field at (c ∷ s) r f h e = rw (get_elem?-At chars at c s h) (
      rw (add-At m chars v at 1 (c ∷ s) (omega arith) h) (elim (Bool-cases (c == b'}')) [
        | inl closed ↦
            let is : ok (field ∷ [], s) ≡ r = cc (rw closed at e) in
            rw closed (rw (← is) (refl, At-next chars at c s h))
        | inr open_ ↦ elim (Bool-cases (c == b',')) [
          | inr other ↦
              let is : err not_json ≡ r = cc (rw (open_, other) at e) in
              rw (open_, other) (rw (← is) refl)
          | inl comma ↦
              let step : push_field field (read_fields rounds s) ≡ some r =
                rw (open_, comma) at e in
              rw (open_, comma)
                (elim (Option-cases (read_fields rounds s)) [
                  | inl none_left ↦ cc (rw none_left at step)
                  | inr (read, e1) ↦
                      rw (← push_field-prepend fields field read r (rw e1 at step))
                        (f (fields ++ field ∷ []) (at + 1) s read (At-next chars at c s h) e1)
                ])
        ]
      ]))

  walk_fields_lem :
      (k rounds : ℕ) (fields : List Field) (at : ℕ) (s : Str) (r : Reads (List Field))
      → At chars at s
      → rounds ≤ k
      → read_fields rounds s ≡ some r
      → Tracks chars (walk_fields m chars k fields at) (prepend fields r)
  unfolding walk_fields read_fields
  walk_fields_lem k zero fields at s r h le e = cc
  walk_fields_lem zero (suc rounds) fields at s r h le e = absurd (omega arith)
  walk_fields_lem (suc k) (suc rounds) fields at s r h le e =
      let walked = walk_field_lem m chars v at s h in
      elim (Result-cases (read_field s)) [
        | inr (error, e1) ↦
            let is : err error ≡ r = cc (rw e1 at e) in
            rw (Tracks-err chars (walk_field m chars at) error (rw e1 at walked)) (rw (← is) refl)
        | inl ((field, s1), e1) ↦
            let (at1, e2, h1) =
              Tracks-ok chars (walk_field m chars at) field s1 (rw e1 at walked) in
            rw e2 (
              field_round_lem rounds (walk_fields m chars k) fields field at1 s1 r
                (λ more next rest read there found.
                  walk_fields_lem k rounds more next rest read there (omega arith) found)
                h1 (rw e1 at e))
      ]

  require_lem :
      (fields : List Field) (at : ℕ) (s : Str)
      → At chars at s
      → bind (returns (require (at == length chars))) (λ u. value fields)
        ≡ returns (at_end fields s)
  require_lem fields at [] h =
      let size = length-At chars at [] h in
      let within = h.within in
      let all : (at == length chars) ≡ true = ground (arith, size, within) in rw all refl
  require_lem fields at (c ∷ s) h =
      let size = length-At chars at (c ∷ s) h in
      let short : (at == length chars) ≡ false = ground (arith, size) in rw short refl

  walk_end_lem :
      (fields : List Field) (at : ℕ) (s : Str)
      → At chars at s
      → walk_end m chars fields at ≡ returns (at_end fields (skip_space s))
  walk_end_lem fields at s h =
      let (next, e, there) = skip_from_lem m chars v at s h in
      rw e (require_lem fields next (skip_space s) there)

  walk_body_lem :
      (rounds at : ℕ) (s : Str)
      → At chars at s
      → length s < rounds
      → rounds ≤ suc (length chars)
      → walk_body m chars at ≡ returns (all_fields (read_fields rounds s))
  walk_body_lem rounds at s h enough le = elim (Option-cases (read_fields rounds s)) [
    | inl none_left ↦ absurd (read_fields-ne-none rounds s enough none_left)
    | inr (ok (fields, left), e) ↦
        let (next, walked, there) =
          Tracks-ok chars (walk_fields m chars (suc (length chars)) [] at) fields left
            (walk_fields_lem (suc (length chars)) rounds [] at s (ok (fields, left)) h le e) in
        rw e (rw walked (walk_end_lem fields next left there))
    | inr (err error, e) ↦ rw e (
        rw
          (Tracks-err chars (walk_fields m chars (suc (length chars)) [] at) error
            (walk_fields_lem (suc (length chars)) rounds [] at s (err error) h le e))
          refl)
  ]

  walk_object_lem :
      (at : ℕ) (s : Str) → At chars at s → walk_object m chars at ≡ returns (object_body s)
  walk_object_lem at [] h =
      rw (get_elem?-At-end chars at h) (walk_body_lem 1 at [] h (omega arith) (omega arith))
  walk_object_lem at (c ∷ s) h = elim (Bool-cases (c == b'}')) [
    | inl closed ↦ rw (get_elem?-At chars at c s h) (
        rw closed (
          rw (add-At m chars v at 1 (c ∷ s) (omega arith) h)
            (walk_end_lem [] (at + 1) s (At-next chars at c s h))))
    | inr open_ ↦ rw (get_elem?-At chars at c s h) (
        rw open_ (
          walk_body_lem (suc (length (c ∷ s))) at (c ∷ s) h (omega arith)
            (omega (arith, length-At chars at (c ∷ s) h))))
  ]

  opened :
      (at : ℕ) (s : Str)
      → At chars at s
      → bind
          (returns (require (is_char (get_elem? chars at) b'{')))
          (λ u. bind (add m at 1) λ next. bind (skip_from m chars next) (walk_object m chars))
        ≡ returns (expect b'{' s >>= λ rest. object_body (skip_space rest))
  opened at [] h = rw (get_elem?-At-end chars at h) refl
  opened at (c ∷ s) h = elim (Bool-cases (c == b'{')) [
    | inr other ↦ rw (get_elem?-At chars at c s h) (rw other refl)
    | inl brace ↦
        let (next, e, there) = skip_from_lem m chars v (at + 1) s (At-next chars at c s h) in
        rw (get_elem?-At chars at c s h) (
          rw brace (
            rw (add-At m chars v at 1 (c ∷ s) (omega arith) h)
              (rw e (walk_object_lem next (skip_space s) there))))
  ]

  -- No answer makes its reader panic: whatever text a creator sends, and Rust can hold as a vector
  -- of characters on a target of 32 bits or more, each index, slice and sum that
  -- `read_flat_object` takes is in range, its loops end, and it returns what the model does.
  pub walk_flat_object_lem : walk_flat_object m chars ≡ returns (read_flat_object chars)
  unfolding walk_flat_object read_flat_object
  walk_flat_object_lem =
      let (next, e, there) =
        skip_from_lem m chars v 0 chars (record { within = omega arith; left = refl }) in
      rw e (opened next (skip_space chars) there)
