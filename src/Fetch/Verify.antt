-- ===== src/Fetch/Verify.antt =====
-- fetch.rs: the check of an OWID under the key that its creator answers with. `key_at_url` is the
-- code's own, given here as what the check needs of it: the answer to a URL, the state that the
-- cache and the transport are in passed on.
pub mod Outcome
pub mod Beyond
use owid_rust.Prelude.{
  ℕ, ◌+◌, ◌-◌, List, [], ◌∷◌, ◌++◌, Bool, true, false, Option, none, some, Result, ok, err, not,
  ◌&&◌, ltb, ◌==◌, if◌then◌else◌,
}
use owid_rust.Text.{Str, text}
use owid_rust.Text.Same.{same}
use owid_rust.Error.{Error}
use owid_rust.Platform.{Machine, Chrono, P256}
use owid_rust.Io.{u32_max, minutes_since_base}
use owid_rust.Owid.{Owid}
use owid_rust.Creator.{verify_with_public_key}
use owid_rust.Status
use owid_rust.Status.{SignatureStatus}
use owid_rust.Fetch.Url.{end_point_of, key_url_at, public_key_url}
use owid_rust.Fetch.{KeyAnswer, near_edge, answer_covers}

-- `key_at_url`.
pub record Creators : Type 1 where
  pub State : Type 0
  pub key_at_url : State → Str → Result KeyAnswer Error × State

abbrev pub not_in_force : Error
not_in_force = Error.http (
    text
      "the creator states that the key it answered with was not in force at the OWID's date, so the signature could not be checked")

-- The minutes just beyond the edges that the OWID's minute is near.
unfoldable pub beyond : ℕ → KeyAnswer → List ℕ
beyond minute tried =
    (if ltb 0 tried.first && near_edge minute tried.first then (tried.first - 1) ∷ [] else [])
    ++ (if ltb tried.last u32_max && near_edge minute tried.last then (tried.last + 1) ∷ [] else [])

abbrev pub is_ok_true : Result Bool Error → Bool
is_ok_true (ok answer) = answer
is_ok_true (err e) = false

module _ (m : Machine) (c : Chrono) (p : P256) (k : Creators) (owid : Owid c) where
  -- Whether the answer holds another key than the one tried, and that key verifies.
  abbrev pub neighbour_accepts : KeyAnswer → Result KeyAnswer Error → Bool
  neighbour_accepts tried (err e) = false
  neighbour_accepts tried (ok neighbour) =
      not (same neighbour.pem tried.pem)
      && is_ok_true (verify_with_public_key m c p owid neighbour.pem)

  -- The loop over the minutes beyond.
  unfoldable pub try_neighbours : k.State → Str → KeyAnswer → List ℕ → Bool × k.State
  try_neighbours state end_point tried [] = (false, state)
  try_neighbours state end_point tried (at ∷ rest) =
      let (answer, next) = k.key_at_url state (key_url_at end_point at) in
      let others = try_neighbours next end_point tried rest in
      if neighbour_accepts tried answer then (true, next) else others

  unfoldable pub neighbour_verifies : k.State → Str → ℕ → KeyAnswer → Bool × k.State
  unfolding try_neighbours beyond
  neighbour_verifies state url minute tried =
      if not tried.known
      then (false, state)
      else try_neighbours state (end_point_of url) tried (beyond minute tried)

  abbrev pub judge : KeyAnswer → ℕ → Bool × k.State → Result Bool Error × k.State
  judge answer minute (true, state) = (ok true, state)
  judge answer minute (false, state) =
      if answer.known && not (answer_covers answer minute)
      then (err not_in_force, state)
      else (ok false, state)

  abbrev pub after_key :
      Str → Option ℕ → KeyAnswer → k.State → Result Bool Error → Result Bool Error × k.State
  after_key url date answer state (err e) = (err e, state)
  after_key url date answer state (ok true) = (ok true, state)
  after_key url none answer state (ok false) = (ok false, state)
  after_key url (some minute) answer state (ok false) =
      judge answer minute (neighbour_verifies state url minute answer)

  abbrev pub after_fetch :
      Str → Option ℕ → Result KeyAnswer Error × k.State → Result Bool Error × k.State
  after_fetch url date (err e, state) = (err e, state)
  after_fetch url date (ok answer, state) =
      after_key url date answer state (verify_with_public_key m c p owid answer.pem)

  unfoldable pub verify_at_url : k.State → Str → Result Bool Error × k.State
  unfolding neighbour_verifies
  verify_at_url state url =
      after_fetch url (minutes_since_base c owid.date) (k.key_at_url state url)

  unfoldable pub verify : k.State → Str → Result Bool Error × k.State
  unfolding verify_at_url
  verify state scheme = verify_at_url state (public_key_url owid scheme)

  unfoldable pub verify_status : k.State → Str → SignatureStatus × k.State
  unfolding verify
  verify_status state scheme = let (result, next) = verify state scheme in (Status.of result, next)
