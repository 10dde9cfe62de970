-- ===== src/Fetch/Flight/Awake.antt =====
-- Who sleeps has left a waker: the invariant through a poll.
use owid_rust.Prelude.{
  ℕ, ◌<◌, ◌≡◌, ◌≢◌, refl, sym, subst, List, [], ◌∷◌, ◌++◌, Bool, true, false, ◌==◌, any, map_err,
  arith, ==_iff, inl, inr, Bool-cases, Option-cases, if◌then◌else◌,
}
use owid_rust.Text.{Str}
use owid_rust.Fetch.Flight.{
  InFlight, Caller, World, asking, pending, into_error, set, register, retain_others, after_wait,
  poll_finished,
}
use owid_rust.Fetch.Flight.Waiting.{
  IsAwake, moved-IsAwake, Makes, IsKnown, IsRegistered, set_same, set-P, IsRegistered-set,
}

any-append : (p : ℕ → Bool) (xs : List ℕ) (x : ℕ) → p x ≡ true → any p (xs ++ x ∷ []) ≡ true
any-append p [] x h = rw h refl
any-append p (y ∷ xs) x h = elim (Bool-cases (p y)) [
  | inl e ↦ rw e refl
  | inr e ↦ rw e (any-append p xs x h)
]

any-left : (p : ℕ → Bool) (xs ys : List ℕ) → any p xs ≡ true → any p (xs ++ ys) ≡ true
any-left p [] ys h = cc
any-left p (x ∷ xs) ys h = elim (Bool-cases (p x)) [
  | inl e ↦ rw e refl
  | inr e ↦ rw e (any-left p xs ys (rw e at h))
]

retain_others-any :
    (wakers : List ℕ) (i j : ℕ)
    → i ≢ j
    → any (λ k. k == j) wakers ≡ true
    → any (λ k. k == j) (retain_others wakers i) ≡ true
retain_others-any [] i j ne h = cc
retain_others-any (k ∷ wakers) i j ne h = elim (Bool-cases (k == i)) [
  | inl e ↦
      let is_i = (==_iff k i).0 e in
      let not_j : (k == j) ≡ false = ground arith in
      rw e (retain_others-any wakers i j ne (rw not_j at h))
  | inr e ↦ elim (Bool-cases (k == j)) [
    | inl f ↦ rw (e, f) refl
    | inr f ↦ rw (e, f) (retain_others-any wakers i j ne (rw f at h))
  ]
]

register-any :
    (flight : InFlight) (i j : ℕ)
    → any (λ k. k == j) flight.wakers ≡ true
    → any (λ k. k == j) (register flight i).wakers ≡ true
register-any flight i j h = elim (Bool-cases (i == j)) [
  | inl e ↦ any-append (λ k. k == j) (retain_others flight.wakers i) i e
  | inr e ↦
      any-left (λ k. k == j) (retain_others flight.wakers i) (i ∷ [])
        (retain_others-any flight.wakers i j (λ is. cc ((==_iff i j).1 is)) h)
]

pub pending-IsRegistered :
    (flights : ℕ → InFlight) (j : ℕ) (caller : Caller) (url : Str) (is_recent : Bool) (id : ℕ)
    → IsRegistered flights j caller
    → caller ≡ pending url is_recent id
    → ((flights id).finished ≡ false) × (any (λ k. k == j) (flights id).wakers ≡ true)
pending-IsRegistered flights j caller url is_recent id r e = rw e at r

-- Who makes which fetch, where the one caller that moves made none.
pub made_beside :
    (callers : ℕ → Caller) (i : ℕ) (caller : Caller) (id : ℕ)
    → ¬ Makes (callers i) id
    → (j : ℕ) × Makes (callers j) id
    → (j : ℕ) × Makes (set callers i caller j) id
made_beside callers i caller id nobody (j, makes) = elim (Bool-cases (i == j)) [
  | inl e ↦
      let same_place = (==_iff i j).0 e in
      absurd (nobody (subst (λ k. Makes (callers k) id) (sym same_place) makes))
  | inr e ↦ (j, rw e makes)
]

set-finished :
    (flights : ℕ → InFlight) (id k : ℕ) (flight : InFlight)
    → (flights id).finished ≡ false
    → (set flights id flight k).finished ≡ false
    → (flights k).finished ≡ false
set-finished flights id k flight h e = elim (Bool-cases (id == k)) [
  | inl t ↦ subst (λ n. (flights n).finished ≡ false) ((==_iff id k).0 t) h
  | inr t ↦ rw t at e
]

abbrev asleep : World → ℕ → Str → Bool → ℕ → World
asleep w i url is_recent id = record w {
  flights = set w.flights id (register (w.flights id) i);
  callers = set w.callers i (pending url is_recent id);
}

asleep-IsAwake :
    (w : World) (i : ℕ) (url : Str) (is_recent : Bool) (id : ℕ)
    → id < w.next
    → ((k : ℕ) → ¬ Makes (w.callers i) k)
    → (w.flights id).finished ≡ false
    → IsAwake w
    → IsAwake (asleep w i url is_recent id)
asleep-IsAwake w i url is_recent id lt nobody e a = record {
  known =
      set-P (λ j x. IsKnown w.next x) w.callers i (pending url is_recent id) lt (λ j ne. a.known j);
  registered =
      set-P (λ j x. IsRegistered (set w.flights id (register (w.flights id) i)) j x) w.callers i
        (pending url is_recent id)
        (subst (λ f. (f.finished ≡ false) × (any (λ k. k == i) f.wakers ≡ true))
          (sym (set_same w.flights id (register (w.flights id) i)))
          (
            e,
            any-append (λ k. k == i) (retain_others (w.flights id).wakers i) i
                ((==_iff i i).1 refl),
          ))
        (λ j ne.
          IsRegistered-set w.flights id (register (w.flights id) i) j (w.callers j) (a.registered j)
            (λ u b is.
              let (open_, there) =
                pending-IsRegistered w.flights j (w.callers j) u b id (a.registered j) is in
              (open_, register-any (w.flights id) i j there)));
  made = λ k older open_.
      made_beside w.callers i (pending url is_recent id) k (nobody k)
        (a.made k older (set-finished w.flights id k (register (w.flights id) i) e open_));
  started = a.started;
}

pub poll_finished-IsAwake :
    (w : World) (i : ℕ) (url : Str) (is_recent : Bool) (id : ℕ)
    → id < w.next
    → ((k : ℕ) → ¬ Makes (w.callers i) k)
    → IsAwake w
    → IsAwake (poll_finished w i url is_recent id)
unfolding poll_finished
poll_finished-IsAwake w i url is_recent id lt nobody a = elim (Bool-cases (w.flights id).finished) [
  | inl e ↦ elim (Option-cases (w.flights id).outcome) [
    | inl o ↦
        rw (e, o)
          (moved-IsAwake w w.cache i (asking url is_recent) a a.started tt tt
            (λ k makes. absurd (nobody k makes)))
    | inr (outcome, o) ↦
        rw (e, o)
          (moved-IsAwake w w.cache i (Caller.done (map_err into_error outcome)) a a.started tt tt
            (λ k makes. absurd (nobody k makes)))
  ]
  | inr e ↦
      subst
        (λ b. IsAwake (
          if b
          then record w {
            callers = set w.callers i (after_wait url is_recent (w.flights id).outcome);
          }
          else asleep w i url is_recent id))
        (sym e) (asleep-IsAwake w i url is_recent id lt nobody e a)
]
