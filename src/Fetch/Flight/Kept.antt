-- ===== src/Fetch/Flight/Kept.antt =====
-- What is under way plays no part in what is held.
use owid_rust.Prelude.{
  ℕ, ◌≡◌, refl, ap, List, Bool, Option, none, some, Result, ok, err, any, leb, Bool-cases, inl, inr,
  position,
}
use owid_rust.Text.{Str}
use owid_rust.Text.Same.{same}
use owid_rust.Error.{Error}
use owid_rust.Fetch.{HeldKey, maximum_cached_keys}
use owid_rust.Fetch.Cache.{
  Cache, Span, hold, hold_span, span_of, hold_keys, hold_among, add_new, overlaps, get as held_at,
}
use owid_rust.Fetch.Url.{end_point_of, minute_of}
use owid_rust.Fetch.Request.{Stated}
use owid_rust.Fetch.Flight.{Outcome, outcome_of}

-- The cache with other fetches under way.
abbrev pub flying : Cache → List (Str × ℕ) → Cache
flying cache entries = record cache { in_flight = entries }

add_new-flying :
    (cache : Cache) (entries : List (Str × ℕ)) (end_point pem : Str) (span : Span)
    (keys : List HeldKey)
    → add_new (flying cache entries) end_point pem span keys
      ≡ flying (add_new cache end_point pem span keys) entries
add_new-flying cache entries end_point pem span keys =
    elim (Bool-cases (any (overlaps span.first span.last) keys)) [
      | inl e ↦ simp e
      | inr e ↦ elim (Bool-cases (leb maximum_cached_keys cache.held)) [
        | inl f ↦ simp (e, f)
        | inr f ↦ simp (e, f)
      ]
    ]

hold_among-flying :
    (cache : Cache) (entries : List (Str × ℕ)) (end_point pem : Str) (span : Span)
    (keys : List HeldKey) (index : Option ℕ)
    → hold_among (flying cache entries) end_point pem span keys index
      ≡ flying (hold_among cache end_point pem span keys index) entries
unfolding hold_among
hold_among-flying cache entries end_point pem span keys none =
    add_new-flying cache entries end_point pem span keys
hold_among-flying cache entries end_point pem span keys (some index) = refl

hold_keys-flying :
    (cache : Cache) (entries : List (Str × ℕ)) (end_point pem : Str) (span : Span)
    (keys : Option (List HeldKey))
    → hold_keys (flying cache entries) end_point pem span keys
      ≡ flying (hold_keys cache end_point pem span keys) entries
unfolding hold_keys
hold_keys-flying cache entries end_point pem span none =
    elim (Bool-cases (leb maximum_cached_keys cache.held)) [ inl f ↦ simp f | inr f ↦ simp f ]
hold_keys-flying cache entries end_point pem span (some keys) =
    hold_among-flying cache entries end_point pem span keys
      (position (λ key. same key.pem pem) keys)

hold_span-flying :
    (cache : Cache) (entries : List (Str × ℕ)) (end_point pem : Str) (span : Option Span)
    → hold_span (flying cache entries) end_point pem span
      ≡ flying (hold_span cache end_point pem span) entries
hold_span-flying cache entries end_point pem none = refl
hold_span-flying cache entries end_point pem (some span) =
    hold_keys-flying cache entries end_point pem span (held_at cache.keys end_point)

abbrev pub also_flying : List (Str × ℕ) → Cache × Outcome → Cache × Outcome
also_flying entries held = (flying held.0 entries, held.1)

pub outcome_of-flying :
    (clock : Option ℕ) (cache : Cache) (entries : List (Str × ℕ)) (url : Str) (is_recent : Bool)
    (response : Result Stated Error)
    → outcome_of clock (flying cache entries) url is_recent response
      ≡ also_flying entries (outcome_of clock cache url is_recent response)
unfolding outcome_of hold
outcome_of-flying clock cache entries url is_recent (err e) = refl
outcome_of-flying clock cache entries url is_recent (ok (pem, from, to)) =
    simp
      (hold_span-flying cache entries (end_point_of url) pem
        (span_of from to (minute_of url) is_recent clock))
      refl

pub outcome_of-in_flight :
    (clock : Option ℕ) (cache : Cache) (url : Str) (is_recent : Bool)
    (response : Result Stated Error)
    → (outcome_of clock cache url is_recent response).0.in_flight ≡ cache.in_flight
outcome_of-in_flight clock cache url is_recent response =
    ap (λ held. held.0.in_flight)
      (outcome_of-flying clock cache cache.in_flight url is_recent response)
