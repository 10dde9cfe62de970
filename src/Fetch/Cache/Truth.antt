-- ===== src/Fetch/Cache/Truth.antt =====
-- The cache against the creators' schedules: `in_force` gives the key that a creator signs with
-- at a minute. It is what the answers are about, and is not known to the program.
use owid_rust.Prelude.{
  some_inj, ℕ, ◌-◌, ◌≤◌, ◌<◌, min, max, ◌≡◌, refl, sym, ap, ◌∙◌, subst, List, Bool, true, false,
  Option, none, some, get_elem?, any, position, All, All-append, leb, ltb, arith, inl, inr,
  Bool-cases, Option-cases,
}
use owid_rust.Text.{Str}
use owid_rust.Text.Same.{same, same→≡}
use owid_rust.Fetch.{HeldKey, settled}
use owid_rust.Fetch.Cache.{
  Cache, Keys, Span, get, widen, any_other, overlaps, set_span, add_flags, flagged, span_of, hold,
  hold_keys, hold_among, make_room, push,
}
use owid_rust.Fetch.Cache.Spans.{
  Everywhere, get-Everywhere, put-Everywhere, get_or_default-Everywhere, update-All,
  position-get_elem?,
}

module _ (in_force : Str → ℕ → Str) where
  -- A creator does not come back to a key that it has left.
  abbrev pub IsRotation : Type 0
  IsRotation =
      (name : Str) (a m b : ℕ)
      → a ≤ m
      → m ≤ b
      → in_force name a ≡ in_force name b
      → in_force name m ≡ in_force name a

  -- A key is the one in force from one minute to another.
  abbrev pub Spans : Str → Str → ℕ → ℕ → Type 0
  Spans name pem first last = (m : ℕ) → first ≤ m → m ≤ last → in_force name m ≡ pem

  abbrev pub IsTrue : Str → HeldKey → Type 0
  IsTrue name key = key.first ≤ key.last × Spans name key.pem key.first key.last

  abbrev pub AreTrue : Keys → Type 0
  AreTrue = Everywhere (λ name. All (IsTrue name))

  -- An answer says what is so: the key is in force from the start stated to the end stated, or
  -- up to what is settled where no later end is stated, or at the minute asked about.
  abbrev pub IsHonest : Option ℕ → Str → Option ℕ → Bool → Str → Option ℕ → Option ℕ → Type 0
  IsHonest clock name minute recent pem (some start) (some end) =
      (start < end → Spans name pem start (end - 1))
      × (end ≤ start → Spans name pem start (max start (settled clock)))
  IsHonest clock name minute recent pem (some start) none =
      Spans name pem start (max start (settled clock))
  IsHonest clock name (some minute) false pem none end = in_force name minute ≡ pem
  IsHonest clock name (some minute) true pem none end = Unit {0}
  IsHonest clock name none recent pem none end = Unit {0}

  abbrev IsSpan : Str → Str → Option Span → Type 0
  IsSpan name pem none = Unit {0}
  IsSpan name pem (some span) = span.first ≤ span.last × Spans name pem span.first span.last

  span_of-IsSpan :
      (clock : Option ℕ) (name : Str) (minute : Option ℕ) (recent : Bool) (pem : Str)
      (start end : Option ℕ)
      → IsHonest clock name minute recent pem start end
      → IsSpan name pem (span_of start end minute recent clock)
  unfolding span_of
  span_of-IsSpan clock name minute recent pem (some start) (some end) (h, k) =
      elim (Bool-cases (ltb start end)) [
        | inl e ↦ rw e (ground arith, h (ground arith))
        | inr e ↦ rw e (ground arith, k (ground arith))
      ]
  span_of-IsSpan clock name minute recent pem (some start) none h = (ground arith, h)
  span_of-IsSpan clock name (some minute) false pem none end h =
      (ground arith, λ m a b. let e : m ≡ minute = omega arith in rw e h)
  span_of-IsSpan clock name (some minute) true pem none end h = tt
  span_of-IsSpan clock name none recent pem none end h = tt

  module _ (rotates : IsRotation) where
    -- Two spans of one key are part of one span.
    union-Spans :
        (name pem : Str) (a b c d : ℕ)
        → a ≤ b
        → c ≤ d
        → Spans name pem a b
        → Spans name pem c d
        → (min a c ≤ max b d) × Spans name pem (min a c) (max b d)
    union-Spans name pem a b c d le le' s s' = (
      omega arith,
      λ m lo hi.
          let low : in_force name (min a c) ≡ pem = elim (Bool-cases (leb a c)) [
            | inl e ↦ let at : min a c ≡ a = ground arith in rw at (s a (omega arith) le)
            | inr e ↦ let at : min a c ≡ c = ground arith in rw at (s' c (omega arith) le')
          ] in
          let high : in_force name (max b d) ≡ pem = elim (Bool-cases (leb d b)) [
            | inl e ↦ let at : max b d ≡ b = ground arith in rw at (s b le (omega arith))
            | inr e ↦ let at : max b d ≡ d = ground arith in rw at (s' d le' (omega arith))
          ] in
          rotates name (min a c) m (max b d) lo hi (low ∙ sym high) ∙ low,
    )

    widen-All :
        (name pem : Str) (keys : List HeldKey) (index first last : ℕ) (key : HeldKey)
        → get_elem? keys index ≡ some key
        → key.pem ≡ pem
        → first ≤ last
        → Spans name pem first last
        → All (IsTrue name) keys
        → All (IsTrue name) (widen keys index first last).0
    unfolding widen
    widen-All name pem keys index first last key at same_pem le spans hs =
        elim (Bool-cases
          (any_other (overlaps (min first key.first) (max last key.last)) keys index)) [
            | inl e ↦ rw (at, e) hs
            | inr e ↦
                rw (at, e)
                  (update-All (IsTrue name) keys index _ hs λ k at' (le', spans').
                    let eq : key ≡ k = some_inj (sym at ∙ at') in
                    let pem_k : k.pem ≡ pem = ap (λ x. x.pem) (sym eq) ∙ same_pem in
                    let spans_k = subst (λ p. Spans name p first last) (sym pem_k) spans in
                    subst (λ y. IsTrue name (set_span (min first y.first) (max last y.last) k))
                      (sym eq)
                      (union-Spans name k.pem first last k.first k.last le le' spans_k spans'))
          ]

    flagged-All :
        (name : Str) (span : Span) (index : ℕ) (r : List HeldKey × Bool)
        → All (IsTrue name) r.0
        → All (IsTrue name) (flagged span index r)
    flagged-All name span index (keys, true) hs =
        update-All (IsTrue name) keys index (add_flags span) hs λ k at h. h
    flagged-All name span index (keys, false) hs = hs

    make_room-AreTrue : (cache : Cache) → AreTrue cache.keys → AreTrue (make_room cache).keys
    make_room-AreTrue cache h = elim (Bool-cases (leb 1024 cache.held)) [
      | inl e ↦ rw e tt
      | inr e ↦ rw e h
    ]

    push-AreTrue :
        (cache : Cache) (name pem : Str) (span : Span)
        → span.first ≤ span.last
        → Spans name pem span.first span.last
        → AreTrue cache.keys
        → AreTrue (push cache name pem span).keys
    push-AreTrue cache name pem span le spans h =
        put-Everywhere (λ name. All (IsTrue name)) cache.keys name _ h
          (All-append (IsTrue name) _ _
            (get_or_default-Everywhere (λ n. All (IsTrue n)) cache.keys name h tt)
            ((le, spans), tt))

    hold_keys-AreTrue :
        (cache : Cache) (name pem : Str) (span : Span) (held : Option (List HeldKey))
        → get cache.keys name ≡ held
        → span.first ≤ span.last
        → Spans name pem span.first span.last
        → AreTrue cache.keys
        → AreTrue (hold_keys cache name pem span held).keys
    unfolding hold_keys hold_among
    hold_keys-AreTrue cache name pem span none at le spans h =
        push-AreTrue (make_room cache) name pem span le spans (make_room-AreTrue cache h)
    hold_keys-AreTrue cache name pem span (some keys) at le spans h =
        let among = get-Everywhere (λ name. All (IsTrue name)) cache.keys name h at in
        elim (Option-cases (position (λ key. same key.pem pem) keys)) [
          | inl e ↦ elim (Bool-cases (any (overlaps span.first span.last) keys)) [
            | inl o ↦ rw (e, o) h
            | inr o ↦
                rw (e, o)
                  (push-AreTrue (make_room cache) name pem span le spans
                    (make_room-AreTrue cache h))
          ]
          | inr (index, e) ↦
              let (key, found, is_same) =
                position-get_elem? (λ key. same key.pem pem) keys index e in
              rw e (
                put-Everywhere (λ name. All (IsTrue name)) cache.keys name _ h
                  (flagged-All name span index _ (
                    widen-All name pem keys index _ _ key found (same→≡ _ _ is_same) le spans
                      among)))
        ]

    pub hold-AreTrue :
        (clock : Option ℕ) (cache : Cache) (name : Str) (minute : Option ℕ) (recent : Bool)
        (pem : Str) (start end : Option ℕ)
        → IsHonest clock name minute recent pem start end
        → AreTrue cache.keys
        → AreTrue (hold clock cache name minute recent pem start end).0.keys
    unfolding hold
    hold-AreTrue clock cache name minute recent pem start end honest h =
        elim (Option-cases (span_of start end minute recent clock)) [
          | inl e ↦ rw e h
          | inr (span, e) ↦
              let (le, spans) : IsSpan name pem (some span) =
                rw e at (span_of-IsSpan clock name minute recent pem start end honest) in
              rw e (hold_keys-AreTrue cache name pem span _ refl le spans h)
        ]
