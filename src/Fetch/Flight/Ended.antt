-- ===== src/Fetch/Flight/Ended.antt =====
-- Whoever sleeps is woken: the invariant through the end of a fetch.
use owid_rust.Prelude.{
  ℕ, ◌≡◌, List, [], Bool, true, false, Option, none, some, ◌==◌, any, ==_iff, inl, inr, Bool-cases,
}
use owid_rust.Text.{Str}
use owid_rust.Fetch.Flight.{
  Outcome, InFlight, Caller, World, asking, polling, pending, leading, dropping, removed, set, wake,
  ended, wake_all, end_flight,
}
use owid_rust.Fetch.Flight.Waiting.{IsAwake, Makes, IsKnown, IsRegistered, set-P, IsRegistered-set}
use owid_rust.Fetch.Flight.Awake.{made_beside, pending-IsRegistered}

-- Nobody sleeps once woken, and who is woken still makes what it made.
pub wake-P :
    (P : Caller → Type 0) (caller : Caller)
    → P caller
    → ((url : Str) (is_recent : Bool) (id : ℕ)
        → P (pending url is_recent id)
        → P (polling url is_recent id))
    → P (wake caller)
wake-P P (pending url is_recent id) p h = h url is_recent id p
wake-P P Caller.idle p h = p
wake-P P (asking url is_recent) p h = p
wake-P P (polling url is_recent id) p h = p
wake-P P (leading url is_recent id) p h = p
wake-P P (dropping url id outcome) p h = p
wake-P P (removed id outcome) p h = p
wake-P P (Caller.done result) p h = p

wake-IsRegistered :
    (flights : ℕ → InFlight) (j : ℕ) (caller : Caller) → IsRegistered flights j (wake caller)
wake-IsRegistered flights j (pending url is_recent id) = tt
wake-IsRegistered flights j Caller.idle = tt
wake-IsRegistered flights j (asking url is_recent) = tt
wake-IsRegistered flights j (polling url is_recent id) = tt
wake-IsRegistered flights j (leading url is_recent id) = tt
wake-IsRegistered flights j (dropping url id outcome) = tt
wake-IsRegistered flights j (removed id outcome) = tt
wake-IsRegistered flights j (Caller.done result) = tt

pub wake_all-P :
    (P : Caller → Type 0) (wakers : List ℕ) (callers : ℕ → Caller) (j : ℕ)
    → (any (λ i. i == j) wakers ≡ true → P (wake (callers j)))
    → (any (λ i. i == j) wakers ≡ false → P (callers j))
    → P (wake_all wakers callers j)
wake_all-P P wakers callers j woken left = elim (Bool-cases (any (λ i. i == j) wakers)) [
  | inl e ↦ rw e (woken e)
  | inr e ↦ rw e (left e)
]

ended-IsKnown : (next : ℕ) (outcome : Option Outcome) → IsKnown next (ended outcome)
ended-IsKnown next none = tt
ended-IsKnown next (some outcome) = tt

ended-IsRegistered :
    (flights : ℕ → InFlight) (j : ℕ) (outcome : Option Outcome)
    → IsRegistered flights j (ended outcome)
ended-IsRegistered flights j none = tt
ended-IsRegistered flights j (some outcome) = tt

abbrev over : Option Outcome → InFlight
over outcome = record { finished = true; outcome = outcome; wakers = [] }

-- The sleepers of the fetch that ends are all woken.
end_flight-IsRegistered :
    (w : World) (i id : ℕ) (outcome : Option Outcome) (j : ℕ)
    → IsRegistered w.flights j (w.callers j)
    → any (λ k. k == j) (w.flights id).wakers ≡ false
    → IsRegistered (set w.flights id (over outcome)) j (set w.callers i (ended outcome) j)
end_flight-IsRegistered w i id outcome j r unheard = elim (Bool-cases (i == j)) [
  | inl e ↦ rw e (ended-IsRegistered (set w.flights id (over outcome)) j outcome)
  | inr e ↦ rw e (
      IsRegistered-set w.flights id (over outcome) j (w.callers j) r (λ u b is.
        let (open_, there) = pending-IsRegistered w.flights j (w.callers j) u b id r is in cc))
]

pub end_flight-IsAwake :
    (w : World) (i id : ℕ) (outcome : Option Outcome)
    → w.callers i ≡ removed id outcome
    → IsAwake w
    → IsAwake (end_flight w i id outcome)
unfolding end_flight
end_flight-IsAwake w i id outcome at a =
    let moved_to = set w.callers i (ended outcome) in
    let known =
      set-P (λ j x. IsKnown w.next x) w.callers i (ended outcome) (ended-IsKnown w.next outcome)
        (λ j ne. a.known j) in
    record {
      known = λ j.
          wake_all-P (IsKnown w.next) (w.flights id).wakers moved_to j
            (λ e. wake-P (IsKnown w.next) (moved_to j) (known j) (λ u b k h. h)) (λ e. known j);
      registered = λ j.
          wake_all-P (IsRegistered (set w.flights id (over outcome)) j) (w.flights id).wakers
            moved_to j (λ e. wake-IsRegistered (set w.flights id (over outcome)) j (moved_to j))
            (end_flight-IsRegistered w i id outcome j (a.registered j));
      made = λ k lt open_. elim (Bool-cases (id == k)) [
        | inl e ↦ let over_now : true ≡ false = rw e at open_ in cc
        | inr e ↦
            let (j, makes) =
              made_beside w.callers i (ended outcome) k
                (λ makes. let same_id : id ≡ k = (rw at at makes) in cc ((==_iff id k).1 same_id))
                (a.made k lt (rw e at open_)) in
            (
              j,
              wake_all-P (λ x. Makes x k) (w.flights id).wakers moved_to j
                  (λ f. wake-P (λ x. Makes x k) (moved_to j) makes (λ u b n h. h)) (λ f. makes),
            )
      ];
      started = a.started;
    }
