-- ===== src/Fetch/Flight/Only.antt =====
-- A leader's entry and its end, and one request at a time in every world that events lead to.
use owid_rust.Prelude.{
  some_inj, ℕ, ◌≡◌, refl, sym, ◌∙◌, subst, List, [], ◌∷◌, Bool, Option, none, some,
}
use owid_rust.Text.{Str}
use owid_rust.Fetch.Flight.{
  Outcome, World, leading, dropping, removed, set, get, delete, remove_entry, ended, end_flight,
}
use owid_rust.Fetch.Flight.Run.{
  Event, start, turn, poll, respond, drop_leader, drop_waiter, remove, finish, clear, step, run,
  initial,
}
use owid_rust.Fetch.Flight.Waiting.{Makes, IsAwake, set-P}
use owid_rust.Fetch.Flight.Ended.{wake-P, wake_all-P}
use owid_rust.Fetch.Flight.Steps.{step-IsAwake, initial-IsAwake}
use owid_rust.Fetch.Flight.Events.{on_remove-P, on_finish-P}
use owid_rust.Fetch.Flight.Made.{end_flight-made}
use owid_rust.Fetch.Flight.Single.{IsEntered, IsSingle, made_before, IsEntered-delete}
use owid_rust.Fetch.Flight.Alone.{
  start-IsSingle, turn-IsSingle, poll-IsSingle, respond-IsSingle, drop_leader-IsSingle,
  drop_waiter-IsSingle,
}

remove_entry-IsSingle :
    (w : World) (i : ℕ) (url : Str) (id : ℕ) (o : Option Outcome)
    → w.callers i ≡ dropping url id o
    → IsSingle w
    → IsSingle (remove_entry w i url id o)
unfolding remove_entry
remove_entry-IsSingle w i url id o at s = record {
  single = λ k a b ma mb.
      let back : Makes (removed id o) k → Makes (w.callers i) k = λ makes. rw at makes in
      s.single k a b (made_before w.callers i a (removed id o) k back ma)
        (made_before w.callers i b (removed id o) k back mb);
  entered =
      set-P (λ j x. IsEntered (delete w.cache.in_flight url) x) w.callers i (removed id o) tt
        (λ j ne.
          IsEntered-delete w.cache.in_flight url id (w.callers j) (rw at at (s.entered i))
            (λ makes. ne (s.single id i j (subst (λ x. Makes x id) (sym at) refl) makes))
            (s.entered j));
}

ended-IsEntered :
    (entries : List (Str × ℕ)) (outcome : Option Outcome) → IsEntered entries (ended outcome)
ended-IsEntered entries none = tt
ended-IsEntered entries (some outcome) = tt

end_flight-IsSingle :
    (w : World) (i id : ℕ) (o : Option Outcome) → IsSingle w → IsSingle (end_flight w i id o)
unfolding end_flight
end_flight-IsSingle w i id o s =
    let later = set w.callers i (ended o) in
    let wakers = (w.flights id).wakers in
    let entered =
      set-P (λ j x. IsEntered w.cache.in_flight x) w.callers i (ended o)
        (ended-IsEntered w.cache.in_flight o) (λ j ne. s.entered j) in
    record {
      single = λ k a b ma mb.
          s.single k a b (end_flight-made w i id o k a ma) (end_flight-made w i id o k b mb);
      entered = λ j.
          wake_all-P (IsEntered w.cache.in_flight) wakers later j
            (λ e. wake-P (IsEntered w.cache.in_flight) (later j) (entered j) (λ u r k h. tt))
            (λ e. entered j);
    }

-- The cache is not cleared.
abbrev pub IsKept : List Event → Type 0
IsKept [] = Unit {0}
IsKept (clear ∷ events) = ⊥
IsKept (start i clock url ∷ events) = IsKept events
IsKept (turn i ∷ events) = IsKept events
IsKept (poll i ∷ events) = IsKept events
IsKept (respond i clock response ∷ events) = IsKept events
IsKept (drop_leader i ∷ events) = IsKept events
IsKept (drop_waiter i ∷ events) = IsKept events
IsKept (remove i ∷ events) = IsKept events
IsKept (finish i ∷ events) = IsKept events

run-IsSingle :
    (events : List Event) (w : World)
    → IsKept events
    → IsAwake w
    → IsSingle w
    → IsSingle (run events w)
unfolding step
run-IsSingle [] w kept a s = s
run-IsSingle (clear ∷ events) w kept a s = absurd kept
run-IsSingle (start i clock url ∷ events) w kept a s =
    run-IsSingle events (step (start i clock url) w) kept (step-IsAwake (start i clock url) w a)
      (start-IsSingle w i clock url s)
run-IsSingle (turn i ∷ events) w kept a s =
    run-IsSingle events (step (turn i) w) kept (step-IsAwake (turn i) w a) (turn-IsSingle w i a s)
run-IsSingle (poll i ∷ events) w kept a s =
    run-IsSingle events (step (poll i) w) kept (step-IsAwake (poll i) w a) (poll-IsSingle w i s)
run-IsSingle (respond i clock response ∷ events) w kept a s =
    run-IsSingle events (step (respond i clock response) w) kept
      (step-IsAwake (respond i clock response) w a) (respond-IsSingle w i clock response s)
run-IsSingle (drop_leader i ∷ events) w kept a s =
    run-IsSingle events (step (drop_leader i) w) kept (step-IsAwake (drop_leader i) w a)
      (drop_leader-IsSingle w i s)
run-IsSingle (drop_waiter i ∷ events) w kept a s =
    run-IsSingle events (step (drop_waiter i) w) kept (step-IsAwake (drop_waiter i) w a)
      (drop_waiter-IsSingle w i s)
run-IsSingle (remove i ∷ events) w kept a s =
    run-IsSingle events (step (remove i) w) kept (step-IsAwake (remove i) w a) (
      on_remove-P IsSingle w i (w.callers i) refl s
        λ url id o at. remove_entry-IsSingle w i url id o at s)
run-IsSingle (finish i ∷ events) w kept a s =
    run-IsSingle events (step (finish i) w) kept (step-IsAwake (finish i) w a)
      (on_finish-P IsSingle w i (w.callers i) refl s λ id o at. end_flight-IsSingle w i id o s)

-- One request for a URL at a time: in every world that events other than a clearing of the cache
-- lead to, two callers that await the transport about one URL are the same caller, and the fetch
-- they make is the one that the map of the fetches under way holds for the URL, for which a caller
-- that asks next waits.
pub run-leads_once :
    (events : List Event) (i j : ℕ) (url : Str) (first second : Bool) (id k : ℕ)
    → IsKept events
    → (run events initial).callers i ≡ leading url first id
    → (run events initial).callers j ≡ leading url second k
    → (i ≡ j) × (get (run events initial).cache.in_flight url ≡ some id)
run-leads_once events i j url first second id k kept at_i at_j =
    let w = run events initial in
    let s =
      run-IsSingle events initial kept initial-IsAwake
        (record { single = λ id a b ma mb. absurd ma; entered = λ a. tt }) in
    let held_i : get w.cache.in_flight url ≡ some id = rw at_i at (s.entered i) in
    let held_j : get w.cache.in_flight url ≡ some k = rw at_j at (s.entered j) in
    (
      s.single id i j (subst (λ x. Makes x id) (sym at_i) refl)
          (subst (λ x. Makes x id) (sym at_j) (some_inj (sym held_j ∙ held_i))),
      held_i,
    )
