-- ===== src/Fetch/Verify/Beyond.antt =====
-- The keys on either side of the one selected: an OWID signed by a machine whose clock is not quite
-- at its creator's schedule.
use owid_rust.Prelude.{
  ℕ, ◌+◌, ◌-◌, ltb, ◌&&◌, if◌then◌else◌, ◌≡◌, refl, ap, List, [], ◌∷◌, Bool, true, false, some, ok,
  ◌⊎◌, inl, inr, Bool-cases, arith,
}
use owid_rust.Text.{Str}
use owid_rust.Text.Same.{same, same→≡}
use owid_rust.Platform.{Machine, Chrono, P256}
use owid_rust.Io.{u32_max, minutes_since_base}
use owid_rust.Owid.{Owid}
use owid_rust.Creator.{verify_with_public_key}
use owid_rust.Fetch.{KeyAnswer, near_edge}
use owid_rust.Fetch.Url.{end_point_of, key_url_at, public_key_url}
use owid_rust.Fetch.Verify.{
  Creators, beyond, neighbour_accepts, judge, try_neighbours, neighbour_verifies, verify_at_url,
  verify,
}
use owid_rust.Fetch.Verify.Outcome.{IsNear, IsBefore, IsAfter}

-- There is no minute before to ask for.
abbrev pub IsFarFromFirst : ℕ → KeyAnswer → Type 0
IsFarFromFirst minute tried = (tried.first ≡ 0) ⊎ (¬ IsNear minute tried.first)

beyond-before :
    (minute : ℕ) (tried : KeyAnswer) (at : ℕ)
    → IsBefore minute tried at
    → (rest : List ℕ) × (beyond minute tried ≡ at ∷ rest)
unfolding beyond near_edge
beyond-before minute tried at (edge, near) =
    let back : tried.first - 1 ≡ at = omega arith in
    let there : (ltb 0 tried.first && near_edge minute tried.first) ≡ true = ground arith in
    (
      if ltb tried.last u32_max && near_edge minute tried.last then (tried.last + 1) ∷ [] else [],
      rw there (rw back refl),
    )

beyond-after :
    (minute : ℕ) (tried : KeyAnswer) (at : ℕ)
    → IsFarFromFirst minute tried
    → IsAfter minute tried at
    → beyond minute tried ≡ at ∷ []
unfolding beyond near_edge
beyond-after minute tried at far after = ground arith

beyond-both :
    (minute : ℕ) (tried : KeyAnswer) (earlier at : ℕ)
    → IsBefore minute tried earlier
    → IsAfter minute tried at
    → beyond minute tried ≡ earlier ∷ at ∷ []
unfolding beyond near_edge
beyond-both minute tried earlier at before after = ground arith

module _ (m : Machine) (c : Chrono) (p : P256) (k : Creators) (owid : Owid c) where
  -- The key that verifies is not the one that does not.
  other_key :
      (tried neighbour : KeyAnswer)
      → verify_with_public_key m c p owid tried.pem ≡ ok false
      → verify_with_public_key m c p owid neighbour.pem ≡ ok true
      → neighbour_accepts m c p k owid tried (ok neighbour) ≡ true
  other_key tried neighbour no_match match_ = elim (Bool-cases (same neighbour.pem tried.pem)) [
    | inl e ↦
        let pem = same→≡ neighbour.pem tried.pem e in
        cc (ap (verify_with_public_key m c p owid) pem)
    | inr e ↦ rw (e, match_) refl
  ]

  -- The state in which a neighbouring minute is asked for, after the first answer left `between`:
  -- that one itself, or what the minute before the span left where both are asked for.
  abbrev pub IsAskedIn : Str → ℕ → KeyAnswer → ℕ → k.State → k.State → Type 0
  IsAskedIn end_point minute tried at between state =
      (IsBefore minute tried at × (state ≡ between))
      ⊎ ((IsFarFromFirst minute tried × IsAfter minute tried at × (state ≡ between))
          ⊎ ((earlier : ℕ) × IsBefore minute tried earlier
              × IsAfter minute tried at
              × (state ≡ (k.key_at_url between (key_url_at end_point earlier)).1)))

  found :
      (end_point : Str) (tried neighbour : KeyAnswer) (at : ℕ) (rest : List ℕ) (state : k.State)
      → (k.key_at_url state (key_url_at end_point at)).0 ≡ ok neighbour
      → neighbour_accepts m c p k owid tried (ok neighbour) ≡ true
      → (try_neighbours m c p k owid state end_point tried (at ∷ rest)).0 ≡ true
  unfolding try_neighbours
  found end_point tried neighbour at rest state second accepts = rw (second, accepts) refl

  found_later :
      (end_point : Str) (tried : KeyAnswer) (earlier : ℕ) (rest : List ℕ) (state : k.State)
      → (try_neighbours m c p k owid
          (k.key_at_url state (key_url_at end_point earlier)).1
          end_point
          tried
          rest).0
        ≡ true
      → (try_neighbours m c p k owid state end_point tried (earlier ∷ rest)).0 ≡ true
  unfolding try_neighbours
  found_later end_point tried earlier rest state later =
      elim (Bool-cases (
        neighbour_accepts m c p k owid tried
          (k.key_at_url state (key_url_at end_point earlier)).0)) [
            | inl e ↦ rw e refl
            | inr e ↦ rw e later
          ]

  try_neighbours-beyond :
      (end_point : Str) (minute at : ℕ) (tried neighbour : KeyAnswer) (between asked : k.State)
      → IsAskedIn end_point minute tried at between asked
      → (k.key_at_url asked (key_url_at end_point at)).0 ≡ ok neighbour
      → neighbour_accepts m c p k owid tried (ok neighbour) ≡ true
      → (try_neighbours m c p k owid between end_point tried (beyond minute tried)).0 ≡ true
  try_neighbours-beyond end_point minute at tried neighbour between asked (inl (before, is)) second
        accepts =
      let (rest, ats) = beyond-before minute tried at before in
      rw (ats, ← is) (found end_point tried neighbour at rest asked second accepts)
  try_neighbours-beyond end_point minute at tried neighbour between asked
        (inr (inl (far, after, is))) second accepts =
      rw (beyond-after minute tried at far after, ← is)
        (found end_point tried neighbour at [] asked second accepts)
  try_neighbours-beyond end_point minute at tried neighbour between asked
        (inr (inr (earlier, before, after, is))) second accepts =
      rw (beyond-both minute tried earlier at before after) (
        found_later end_point tried earlier (at ∷ []) between
          (rw (← is) (found end_point tried neighbour at [] asked second accepts)))

  neighbour_verifies-known :
      (state : k.State) (url : Str) (minute : ℕ) (tried : KeyAnswer)
      → tried.known ≡ true
      → (try_neighbours m c p k owid state (end_point_of url) tried (beyond minute tried)).0 ≡ true
      → (neighbour_verifies m c p k owid state url minute tried).0 ≡ true
  unfolding neighbour_verifies
  neighbour_verifies-known state url minute tried stated sought = simp (stated, sought)

  judge-found :
      (tried : KeyAnswer) (minute : ℕ) (r : Bool × k.State)
      → r.0 ≡ true
      → (judge m c p k owid tried minute r).0 ≡ ok true
  judge-found tried minute (true, state) h = refl
  judge-found tried minute (false, state) h = cc

  -- An OWID whose signature does not match under the key answered for its minute verifies all the
  -- same where its minute is within 15 of an edge of the span that the creator stated for that key,
  -- and the creator's answer for the minute just beyond that edge, in the state that the cache and
  -- the transport have come to when it is asked for, is a key that verifies it.
  pub verify-beyond :
      (state between asked : k.State) (scheme : Str) (minute at : ℕ) (tried neighbour : KeyAnswer)
      → minutes_since_base c owid.date ≡ some minute
      → k.key_at_url state (public_key_url owid scheme) ≡ (ok tried, between)
      → tried.known ≡ true
      → IsAskedIn (end_point_of (public_key_url owid scheme)) minute tried at between asked
      → (k.key_at_url asked (key_url_at (end_point_of (public_key_url owid scheme)) at)).0
        ≡ ok neighbour
      → verify_with_public_key m c p owid tried.pem ≡ ok false
      → verify_with_public_key m c p owid neighbour.pem ≡ ok true
      → (verify m c p k owid state scheme).0 ≡ ok true
  unfolding verify verify_at_url
  verify-beyond state between asked scheme minute at tried neighbour dated first stated comes second
        no_match match_ =
      let url = public_key_url owid scheme in
      rw first (
        rw no_match (
          rw dated (
            judge-found tried minute (neighbour_verifies m c p k owid between url minute tried) (
              neighbour_verifies-known between url minute tried stated (
                try_neighbours-beyond (end_point_of url) minute at tried neighbour between asked
                  comes second (other_key tried neighbour no_match match_))))))
