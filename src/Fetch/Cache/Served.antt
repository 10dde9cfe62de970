-- ===== src/Fetch/Cache/Served.antt =====
-- What the cache serves in a run of the program.
use owid_rust.Prelude.{
  some_inj, ℕ, ◌≤◌, ◌≡◌, refl, sym, ap, ◌∙◌, [], Bool, true, Option, some, All, leb, leb→le, inl,
  inr, Bool-cases, Option-cases,
}
use owid_rust.Text.{Str}
use owid_rust.Fetch.{HeldKey, KeyAnswer, stated}
use owid_rust.Fetch.Cache.{Cache, get, find, get_or_default, held_for, serves, hold, clear_cache}
use owid_rust.Fetch.Cache.Spans.{get_or_default-Everywhere, find-All}
use owid_rust.Fetch.Cache.Truth.{IsRotation, IsHonest, IsTrue, AreTrue, hold-AreTrue}

-- The caches that a run of the program can hold: empty at the start, then changed by honest
-- answers, each at its own moment, and by `clear_cache`, in any order.
pub data Reachable (in_force : Str → ℕ → Str) : Cache → Type 0 where
  at_start : Reachable in_force (record { keys = []; held = 0; in_flight = [] })
  answered :
      (clock : Option ℕ) {cache : Cache} (name : Str) (minute : Option ℕ) (recent : Bool)
      (pem : Str) (start end : Option ℕ)
      → Reachable in_force cache
      → IsHonest in_force clock name minute recent pem start end
      → Reachable in_force (hold clock cache name minute recent pem start end).0
  cleared : {cache : Cache} → Reachable in_force cache → Reachable in_force (clear_cache cache)

Reachable-AreTrue :
    (in_force : Str → ℕ → Str)
    → IsRotation in_force
    → {cache : Cache} → Reachable in_force cache
    → AreTrue in_force cache.keys
unfolding clear_cache
Reachable-AreTrue in_force rotates at_start = tt
Reachable-AreTrue in_force rotates (answered clock name minute recent pem start end r honest) =
    hold-AreTrue in_force rotates clock _ name minute recent pem start end honest
      (Reachable-AreTrue in_force rotates r)
Reachable-AreTrue in_force rotates (cleared r) = tt

stated-pem : (key : HeldKey) → (stated key).pem ≡ key.pem
unfolding stated
stated-pem key = elim (Bool-cases key.explicit) [
  | inl e ↦ rw e refl
  | inr e ↦ elim (Bool-cases key.open_ended) [ inl o ↦ rw (e, o) refl | inr o ↦ rw (e, o) refl ]
]

serves-bounds :
    (key : HeldKey) (minute : ℕ) (recent : Bool)
    → serves minute recent key ≡ true
    → (key.first ≤ minute) × (minute ≤ key.last)
serves-bounds key minute recent h = elim (Bool-cases (leb key.first minute)) [
  | inl e ↦ elim (Bool-cases (leb minute key.last)) [
    | inl o ↦ (leb→le _ _ e, leb→le _ _ o)
    | inr o ↦ cc (rw (e, o) at h)
  ]
  | inr e ↦ cc (rw e at h)
]

-- The cache serves no wrong key: where creators do not return to a key that they have left and
-- every answer held was true of its creator's schedule, whatever the order of the answers, their
-- moments and the clearing of the cache, a key that the cache serves for a minute is the one in
-- force at that minute.
pub held_for-in_force :
    (in_force : Str → ℕ → Str)
    → IsRotation in_force
    → {cache : Cache} {answer : KeyAnswer} (name : Str) (minute : ℕ) (recent : Bool)
    → Reachable in_force cache
    → held_for cache name minute recent ≡ some answer
    → answer.pem ≡ in_force name minute
unfolding held_for
held_for-in_force in_force rotates {cache} {answer} name minute recent r h =
    let all =
      get_or_default-Everywhere (λ n. All (IsTrue in_force n)) cache.keys name
        (Reachable-AreTrue in_force rotates r) tt in
    elim (Option-cases (find (serves minute recent) (get_or_default (get cache.keys name)))) [
      | inl e ↦ cc (rw e at h)
      | inr (key, e) ↦
          let ((le, spans), serving) = find-All (IsTrue in_force name) _ _ all e in
          let is_answer : stated key ≡ answer = some_inj (rw e at h) in
          let (lo, hi) = serves-bounds key minute recent serving in
          ap (λ a. a.pem) (sym is_answer) ∙ stated-pem key ∙ sym (spans minute lo hi)
    ]
