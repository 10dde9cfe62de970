-- ===== src/Fetch/Cache/Count.antt =====
-- The bookkeeping of the cache: its counter, its limit, and spans that do not overlap.
use owid_rust.Prelude.{
  ℕ, zero, suc, ◌+◌, ◌≤◌, min, max, ◌≡◌, refl, ◌∙◌, List, [], ◌∷◌, ◌++◌, Bool, Option, none, some,
  get_elem?, any, position, All, length, length-append, leb, arith, inl, inr, Bool-cases,
  Option-cases,
}
use owid_rust.Text.{Str}
use owid_rust.Text.Same.{same}
use owid_rust.Fetch.{HeldKey, maximum_cached_keys}
use owid_rust.Fetch.Cache.{
  Cache, Keys, Span, get, put, update, get_or_default, widen, any_other, overlaps, set_span,
  add_flags, flagged, span_of, hold, hold_keys, hold_among, make_room, push,
}
use owid_rust.Fetch.Cache.Spans.{
  Everywhere, get-Everywhere, put-Everywhere, get_or_default-Everywhere,
}
use owid_rust.Fetch.Cache.Apart.{
  IsClear, Apart, any-All, set_span-Apart, add_flags-Apart, append-Apart,
}

abbrev pub total : Keys → ℕ
total [] = 0
total ((name, keys) ∷ rest) = length keys + total rest

total-put :
    (ks : Keys) (name : Str) (keys : List HeldKey)
    → total (put ks name keys) + length (get_or_default (get ks name)) ≡ total ks + length keys
total-put [] name keys = omega arith
total-put ((n, k) ∷ rest) name keys = elim (Bool-cases (same n name)) [
  | inl e ↦ rw e (omega arith)
  | inr e ↦ rw e (omega (arith, total-put rest name keys))
]

length-update :
    (keys : List HeldKey) (i : ℕ) (f : HeldKey → HeldKey) → length (update keys i f) ≡ length keys
length-update [] i f = refl
length-update (k ∷ keys) zero f = refl
length-update (k ∷ keys) (suc i) f = omega (arith, length-update keys i f)

flagged-widen :
    (keys : List HeldKey) (span : Span) (i first last : ℕ)
    → Apart keys
    → (length (flagged span i (widen keys i first last)) ≡ length keys)
      × Apart (flagged span i (widen keys i first last))
unfolding widen
flagged-widen keys span i first last apart = elim (Option-cases (get_elem? keys i)) [
  | inl e ↦ rw e (refl, apart)
  | inr (k, e) ↦
      elim (Bool-cases (any_other (overlaps (min first k.first) (max last k.last)) keys i)) [
        | inl o ↦ rw (e, o) (refl, apart)
        | inr o ↦
            rw (e, o)
              (
                length-update (update keys i (set_span _ _)) i (add_flags span)
                    ∙ length-update keys i (set_span _ _),
                add_flags-Apart _ i span (set_span-Apart keys i _ _ o apart),
              )
      ]
]

-- The counter is the number of keys held, the number is within the limit, and the spans held
-- for one end point do not overlap.
abbrev pub IsWellFormed : Cache → Type 0
IsWellFormed cache =
    (cache.held ≡ total cache.keys)
    × (cache.held ≤ maximum_cached_keys)
    × Everywhere (λ name. Apart) cache.keys

push-IsWellFormed :
    (cache : Cache) (name pem : Str) (span : Span)
    → All (IsClear span.first span.last) (get_or_default (get (make_room cache).keys name))
    → IsWellFormed cache
    → IsWellFormed (push (make_room cache) name pem span)
push-IsWellFormed cache name pem span clear (count, limit, apart) =
    elim (Bool-cases (leb 1024 cache.held)) [
      | inl e ↦ rw e (refl, omega arith, ((tt, tt), tt))
      | inr e ↦
          let held = get_or_default (get cache.keys name) in
          let kept = get_or_default-Everywhere (λ n. Apart) cache.keys name apart tt in
          let new : HeldKey = record {
            pem = pem;
            first = span.first;
            last = span.last;
            explicit = span.explicit;
            open_ended = span.open_ended;
          } in
          rw e (
            omega (
              arith,
              count,
              total-put cache.keys name (held ++ (new ∷ [])),
              length-append held (new ∷ []),
            ),
            ground arith,
            put-Everywhere (λ n. Apart) cache.keys name _ apart
                (append-Apart held new (rw e at clear) kept),
          )
    ]

make_room-All :
    (cache : Cache) (name : Str) (keys : List HeldKey) (P : HeldKey → Type 0)
    → get cache.keys name ≡ some keys
    → All P keys
    → All P (get_or_default (get (make_room cache).keys name))
make_room-All cache name keys P at h = elim (Bool-cases (leb 1024 cache.held)) [
  | inl e ↦ rw e tt
  | inr e ↦ rw (e, at) h
]

make_room-none :
    (cache : Cache) (name : Str) (P : HeldKey → Type 0)
    → get cache.keys name ≡ none
    → All P (get_or_default (get (make_room cache).keys name))
make_room-none cache name P at = elim (Bool-cases (leb 1024 cache.held)) [
  | inl e ↦ rw e tt
  | inr e ↦ rw (e, at) tt
]

hold_keys-IsWellFormed :
    (cache : Cache) (name pem : Str) (span : Span) (held : Option (List HeldKey))
    → get cache.keys name ≡ held
    → IsWellFormed cache
    → IsWellFormed (hold_keys cache name pem span held)
unfolding hold_keys hold_among
hold_keys-IsWellFormed cache name pem span none at h =
    push-IsWellFormed cache name pem span (make_room-none cache name _ at) h
hold_keys-IsWellFormed cache name pem span (some keys) at (count, limit, apart) =
    elim (Option-cases (position (λ key. same key.pem pem) keys)) [
      | inl e ↦ elim (Bool-cases (any (overlaps span.first span.last) keys)) [
        | inl o ↦ rw (e, o) (count, limit, apart)
        | inr o ↦
            rw (e, o)
              (push-IsWellFormed cache name pem span
                (make_room-All cache name keys _ at (any-All _ _ keys o)) (count, limit, apart))
      ]
      | inr (i, e) ↦
          let (same_length, still) =
            flagged-widen keys span i span.first span.last
              (get-Everywhere (λ n. Apart) cache.keys name apart at) in
          let there : get_or_default (get cache.keys name) ≡ keys = rw at refl in
          let new = flagged span i (widen keys i span.first span.last) in
          let counted = total-put cache.keys name new in
          rw e (
            omega (arith, count, same_length, rw there at counted),
            limit,
            put-Everywhere (λ n. Apart) cache.keys name _ apart still,
          )
    ]

-- Whatever a creator answers, at whatever moment, `hold` keeps the cache well formed: the
-- counter is the number of keys, there are 1024 at most, and no two keys that one end point
-- answered with are held for the same minute.
pub hold-IsWellFormed :
    (clock : Option ℕ) (cache : Cache) (name : Str) (minute : Option ℕ) (recent : Bool) (pem : Str)
    (start end : Option ℕ)
    → IsWellFormed cache
    → IsWellFormed (hold clock cache name minute recent pem start end).0
unfolding hold
hold-IsWellFormed clock cache name minute recent pem start end h =
    elim (Option-cases (span_of start end minute recent clock)) [
      | inl e ↦ rw e h
      | inr (span, e) ↦ rw e (hold_keys-IsWellFormed cache name pem span _ refl h)
    ]
