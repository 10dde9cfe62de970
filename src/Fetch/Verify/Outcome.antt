-- ===== src/Fetch/Verify/Outcome.antt =====
-- What the outcomes of the check mean.
use owid_rust.Prelude.{
  ℕ, ◌+◌, ◌≤◌, ◌≡◌, refl, List, [], ◌∷◌, Bool, true, false, Option, none, some, Result, ok, err,
  not, ◌&&◌, length, any, ◌==◌, ◌↔◌, arith, ◌⊎◌, inl, inr, Bool-cases, Option-cases, Result-cases,
}
use owid_rust.Text.{Str}
use owid_rust.Platform.{Machine, Chrono, P256}
use owid_rust.Error.{Error}
use owid_rust.Io.{u32_max, minutes_since_base}
use owid_rust.Owid.{Owid}
use owid_rust.Status.{of, valid, invalid}
use owid_rust.Creator.{verify_with_public_key}
use owid_rust.Fetch.{KeyAnswer, near_edge, answer_covers}
use owid_rust.Fetch.Url.{end_point_of, key_url_at, public_key_url}
use owid_rust.Fetch.Verify.{
  verify, Creators, beyond, is_ok_true, neighbour_accepts, try_neighbours, neighbour_verifies,
  judge, verify_at_url, verify_status,
}

-- No further apart than the clocks of a creator's machines may be.
abbrev pub IsNear : ℕ → ℕ → Type 0
IsNear minute edge = (minute ≤ edge + 15) × (edge ≤ minute + 15)

-- The minute before the first of the span stated, where the OWID's is near that edge, and the minute
-- after its last, where the OWID's is near that one and a u32 holds the minute after it.
abbrev pub IsBefore : ℕ → KeyAnswer → ℕ → Type 0
IsBefore minute tried at = (at + 1 ≡ tried.first) × IsNear minute tried.first

abbrev pub IsAfter : ℕ → KeyAnswer → ℕ → Type 0
IsAfter minute tried at = (at ≡ tried.last + 1) × (at ≤ u32_max) × IsNear minute tried.last

abbrev pub IsJustBeyond : ℕ → KeyAnswer → ℕ → Type 0
IsJustBeyond minute tried at = IsBefore minute tried at ⊎ IsAfter minute tried at

-- The minutes asked for beyond the key tried are at most two, and they are just these: the minute
-- before the first of the span that the creator stated for it, where the OWID's minute is within
-- 15 of that first, and the minute after the last, where the OWID's is within 15 of that last and a
-- u32 holds the minute after it.
pub beyond_lem :
    (minute : ℕ) (tried : KeyAnswer) (at : ℕ)
    → (length (beyond minute tried) ≤ 2)
      × ((any (λ asked. asked == at) (beyond minute tried) ≡ true) ↔ IsJustBeyond minute tried at)
unfolding beyond near_edge
beyond_lem minute tried at = ground arith

of-invalid : (r : Result Bool Error) → of r ≡ invalid → r ≡ ok false
unfolding of
of-invalid (ok false) h = refl
of-invalid (ok true) h = cc
of-invalid (err (Error.unsupported_version n)) h = cc
of-invalid (err (Error.invalid_signature_length n)) h = cc
of-invalid (err (Error.invalid_domain s)) h = cc
of-invalid (err (Error.domain_too_long)) h = cc
of-invalid (err (Error.date_out_of_range)) h = cc
of-invalid (err (Error.payload_too_large n)) h = cc
of-invalid (err (Error.implementation_capacity_exceeded n)) h = cc
of-invalid (err (Error.key s)) h = cc
of-invalid (err (Error.key_missing s)) h = cc
of-invalid (err (Error.invalid_key_format s)) h = cc
of-invalid (err (Error.http s)) h = cc
of-invalid (err (Error.parse e)) h = cc

pub of-valid : (r : Result Bool Error) → of r ≡ valid → r ≡ ok true
unfolding of
of-valid (ok true) h = refl
of-valid (ok false) h = cc
of-valid (err (Error.unsupported_version n)) h = cc
of-valid (err (Error.invalid_signature_length n)) h = cc
of-valid (err (Error.invalid_domain s)) h = cc
of-valid (err (Error.domain_too_long)) h = cc
of-valid (err (Error.date_out_of_range)) h = cc
of-valid (err (Error.payload_too_large n)) h = cc
of-valid (err (Error.implementation_capacity_exceeded n)) h = cc
of-valid (err (Error.key s)) h = cc
of-valid (err (Error.key_missing s)) h = cc
of-valid (err (Error.invalid_key_format s)) h = cc
of-valid (err (Error.http s)) h = cc
of-valid (err (Error.parse e)) h = cc

module _ (m : Machine) (c : Chrono) (p : P256) (k : Creators) (owid : Owid c) where
  -- The key verifies the OWID, and is what its creator answered with for the URL asked, or at the
  -- end point asked for some minute.
  abbrev pub IsVouched : Str → Type 0
  IsVouched url =
      (state : k.State) × (asked : Str) × (answer : KeyAnswer) × ((k.key_at_url state asked).0
        ≡ ok answer)
      × (verify_with_public_key m c p owid answer.pem ≡ ok true)
      × ((asked ≡ url) ⊎ ((minute : ℕ) × (asked ≡ key_url_at (end_point_of url) minute)))

  is_ok_true-eq : (r : Result Bool Error) → is_ok_true r ≡ true → r ≡ ok true
  is_ok_true-eq (ok true) h = refl
  is_ok_true-eq (ok false) h = cc
  is_ok_true-eq (err e) h = cc

  and-right : (a b : Bool) → (a && b) ≡ true → b ≡ true
  and-right true b h = h
  and-right false b h = cc

  try_neighbours-IsVouched :
      (url : Str) (tried : KeyAnswer) (ats : List ℕ) (state : k.State)
      → (try_neighbours m c p k owid state (end_point_of url) tried ats).0 ≡ true
      → IsVouched url
  unfolding try_neighbours
  try_neighbours-IsVouched url tried [] state h = cc
  try_neighbours-IsVouched url tried (at ∷ rest) state h =
      let asked = key_url_at (end_point_of url) at in
      elim (Result-cases (k.key_at_url state (key_url_at (end_point_of url) at)).0) [
        | inl (neighbour, e) ↦
            elim (Bool-cases (neighbour_accepts m c p k owid tried (ok neighbour))) [
              | inl a ↦
                  (state, asked, neighbour, e, is_ok_true-eq _ (and-right _ _ a), inr (at, refl))
              | inr a ↦ try_neighbours-IsVouched url tried rest _ (rw (e, a) at h)
            ]
        | inr (error, e) ↦ try_neighbours-IsVouched url tried rest _ (rw e at h)
      ]

  neighbour_verifies-IsVouched :
      (state : k.State) (url : Str) (minute : ℕ) (tried : KeyAnswer)
      → (neighbour_verifies m c p k owid state url minute tried).0 ≡ true
      → IsVouched url
  unfolding neighbour_verifies
  neighbour_verifies-IsVouched state url minute tried h = elim (Bool-cases tried.known) [
    | inl e ↦ try_neighbours-IsVouched url tried (beyond minute tried) state (simp e at h)
    | inr e ↦ cc (rw e at h)
  ]

  judge-true :
      (answer : KeyAnswer) (minute : ℕ) (r : Bool × k.State)
      → (judge m c p k owid answer minute r).0 ≡ ok true
      → r.0 ≡ true
  judge-true answer minute (true, state) h = refl
  judge-true answer minute (false, state) h =
      elim (Bool-cases (answer.known && not (answer_covers answer minute))) [
        | inl e ↦ cc (rw e at h)
        | inr e ↦ cc (rw e at h)
      ]

  -- An OWID is reported as valid only where a key that its creator answered with, for the URL asked
  -- or for a minute at that end point, verifies its signature.
  pub verify_status-valid :
      (state : k.State) (scheme : Str)
      → (verify_status m c p k owid state scheme).0 ≡ valid
      → IsVouched (public_key_url owid scheme)
  unfolding verify_status verify verify_at_url
  verify_status-valid state scheme h =
      let r = of-valid _ h in
      let url = public_key_url owid scheme in
      elim (Result-cases (k.key_at_url state url).0) [
        | inl (answer, e) ↦ elim (Result-cases (verify_with_public_key m c p owid answer.pem)) [
          | inl (true, v) ↦ (state, url, answer, e, v, inl refl)
          | inl (false, v) ↦ elim (Option-cases (minutes_since_base c owid.date)) [
            | inl d ↦ cc (rw (e, v, d) at r)
            | inr (minute, d) ↦
                neighbour_verifies-IsVouched _ url minute answer
                  (judge-true answer minute _ (rw (e, v, d) at r))
          ]
          | inr (error, v) ↦ cc (rw (e, v) at r)
        ]
        | inr (error, e) ↦ cc (rw e at r)
      ]

  -- The creator did not state that the key was out of force at the OWID's date.
  abbrev pub IsUndisputed : Option ℕ → KeyAnswer → Type 0
  IsUndisputed none answer = Unit {0}
  IsUndisputed (some minute) answer = (answer.known && not (answer_covers answer minute)) ≡ false

  judge-false :
      (answer : KeyAnswer) (minute : ℕ) (r : Bool × k.State)
      → (judge m c p k owid answer minute r).0 ≡ ok false
      → IsUndisputed (some minute) answer
  judge-false answer minute (true, state) h = cc
  judge-false answer minute (false, state) h =
      elim (Bool-cases (answer.known && not (answer_covers answer minute))) [
        | inl e ↦ cc (rw e at h)
        | inr e ↦ e
      ]

  -- An OWID is reported as invalid only where the creator answered with a key that could be read,
  -- the signature does not match under it, and the creator did not state that the key was out of
  -- force at the OWID's date. An outage or a key that cannot be read is never reported so.
  pub verify_status-invalid :
      (state : k.State) (scheme : Str)
      → (verify_status m c p k owid state scheme).0 ≡ invalid
      → (answer : KeyAnswer) × ((k.key_at_url state (public_key_url owid scheme)).0 ≡ ok answer)
        × (verify_with_public_key m c p owid answer.pem ≡ ok false)
        × IsUndisputed (minutes_since_base c owid.date) answer
  unfolding verify_status verify verify_at_url
  verify_status-invalid state scheme h =
      let r = of-invalid _ h in
      let url = public_key_url owid scheme in
      elim (Result-cases (k.key_at_url state url).0) [
        | inl (answer, e) ↦ elim (Result-cases (verify_with_public_key m c p owid answer.pem)) [
          | inl (true, v) ↦ cc (rw (e, v) at r)
          | inl (false, v) ↦ elim (Option-cases (minutes_since_base c owid.date)) [
            | inl d ↦ (answer, e, v, rw d tt)
            | inr (minute, d) ↦
                (answer, e, v, rw d (judge-false answer minute _ (rw (e, v, d) at r)))
          ]
          | inr (error, v) ↦ cc (rw (e, v) at r)
        ]
        | inr (error, e) ↦ cc (rw e at r)
      ]
