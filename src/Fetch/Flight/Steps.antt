-- ===== src/Fetch/Flight/Steps.antt =====
-- The invariant of the fetches under way holds in every world that events lead to.
use owid_rust.Prelude.{
  ℕ, ◌<◌, ◌≡◌, refl, sym, subst, List, [], ◌∷◌, Bool, Option, none, some, Result, ok, arith,
}
use owid_rust.Text.{Str}
use owid_rust.Error.{Error}
use owid_rust.Fetch.{KeyAnswer}
use owid_rust.Fetch.Cache.{clear_cache}
use owid_rust.Fetch.Url.{minute_of}
use owid_rust.Fetch.Request.{Stated}
use owid_rust.Fetch.Flight.{
  Caller, World, asking, polling, dropping, removed, get, delete, take_turn, held_answer, ask,
  outcome_of, remove_entry, is_recent_url,
}
use owid_rust.Fetch.Flight.Run.{
  Event, start, turn, poll, respond, drop_leader, drop_waiter, remove, finish, clear, on_turn,
  on_poll, on_respond, on_drop_leader, on_drop_waiter, on_remove, step, run, initial,
}
use owid_rust.Fetch.Flight.Waiting.{
  AreStarted, IsAwake, moved-IsAwake, AreStarted-delete, get-started, lead-IsAwake,
}
use owid_rust.Fetch.Flight.Events.{
  on_start-P, on_turn-P, on_poll-P, on_respond-P, on_drop_leader-P, on_drop_waiter-P, on_remove-P,
  on_finish-P,
}
use owid_rust.Fetch.Flight.Kept.{outcome_of-in_flight}
use owid_rust.Fetch.Flight.Awake.{poll_finished-IsAwake}
use owid_rust.Fetch.Flight.Ended.{end_flight-IsAwake}

take_turn-IsAwake :
    (w : World) (i : ℕ) (url : Str) (is_recent : Bool) (answer : Option KeyAnswer)
    (flight : Option ℕ)
    → w.callers i ≡ asking url is_recent
    → get w.cache.in_flight url ≡ flight
    → IsAwake w
    → IsAwake (take_turn w i url is_recent answer flight)
take_turn-IsAwake w i url is_recent (some answer) flight at e a =
    moved-IsAwake w w.cache i (Caller.done (ok answer)) a a.started tt tt
      (λ k makes. rw at at makes)
take_turn-IsAwake w i url is_recent none (some id) at e a =
    moved-IsAwake w w.cache i (polling url is_recent id) a a.started
      (get-started w.cache.in_flight w.next url a.started e) tt (λ k makes. rw at at makes)
take_turn-IsAwake w i url is_recent none none at e a = lead-IsAwake w i url is_recent at a

turn-IsAwake : (w : World) (i : ℕ) → IsAwake w → IsAwake (on_turn w i (w.callers i))
unfolding ask
turn-IsAwake w i a = on_turn-P IsAwake w i (w.callers i) refl a λ url r at.
    take_turn-IsAwake w i url r (held_answer w.cache url (minute_of url) r)
      (get w.cache.in_flight url) at refl a

poll-IsAwake : (w : World) (i : ℕ) → IsAwake w → IsAwake (on_poll w i (w.callers i))
poll-IsAwake w i a =
    on_poll-P IsAwake w i (w.callers i) refl a
      (λ url r id at.
        poll_finished-IsAwake w i url r id (rw at at (a.known i)) (λ k makes. rw at at makes) a)
      (λ url r id at.
        poll_finished-IsAwake w i url r id (rw at at (a.known i)) (λ k makes. rw at at makes) a)

pub respond-IsAwake :
    (w : World) (i : ℕ) (clock : Option ℕ) (response : Result Stated Error) (caller : Caller)
    → w.callers i ≡ caller
    → IsAwake w
    → IsAwake (on_respond w i clock response caller)
respond-IsAwake w i clock response caller is a =
    on_respond-P IsAwake w i clock response caller is a λ url r id at.
      let held = outcome_of clock w.cache url r response in
      moved-IsAwake w held.0 i (dropping url id (some held.1)) a
        (subst (λ entries. AreStarted entries w.next)
          (sym (outcome_of-in_flight clock w.cache url r response)) a.started)
        (rw at at (a.known i)) tt (λ k makes. rw at at makes)

pub drop_leader-IsAwake :
    (w : World) (i : ℕ) (caller : Caller)
    → w.callers i ≡ caller
    → IsAwake w
    → IsAwake (on_drop_leader w i caller)
drop_leader-IsAwake w i caller is a = on_drop_leader-P IsAwake w i caller is a λ url r id at.
    moved-IsAwake w w.cache i (dropping url id none) a a.started (rw at at (a.known i)) tt
      (λ k makes. rw at at makes)

drop_waiter-IsAwake : (w : World) (i : ℕ) → IsAwake w → IsAwake (on_drop_waiter w i (w.callers i))
drop_waiter-IsAwake w i a =
    on_drop_waiter-P IsAwake w i (w.callers i) refl a
      (λ url r id at.
        moved-IsAwake w w.cache i Caller.idle a a.started tt tt (λ k makes. rw at at makes))
      (λ url r id at.
        moved-IsAwake w w.cache i Caller.idle a a.started tt tt (λ k makes. rw at at makes))

pub remove-IsAwake :
    (w : World) (i : ℕ) (caller : Caller)
    → w.callers i ≡ caller
    → IsAwake w
    → IsAwake (on_remove w i caller)
unfolding remove_entry
remove-IsAwake w i caller is a = on_remove-P IsAwake w i caller is a λ url id o at.
    moved-IsAwake w (record w.cache { in_flight = delete w.cache.in_flight url }) i (removed id o) a
      (AreStarted-delete w.cache.in_flight w.next url a.started) (rw at at (a.known i)) tt
      (λ k makes. rw at at makes)

pub step-IsAwake : (event : Event) (w : World) → IsAwake w → IsAwake (step event w)
unfolding step clear_cache
step-IsAwake (start i clock url) w a = on_start-P IsAwake w i clock url (w.callers i) refl a λ at.
    moved-IsAwake w w.cache i (asking url (is_recent_url clock (minute_of url))) a a.started tt tt
      (λ k makes. rw at at makes)
step-IsAwake (turn i) w a = turn-IsAwake w i a
step-IsAwake (poll i) w a = poll-IsAwake w i a
step-IsAwake (respond i clock response) w a =
    respond-IsAwake w i clock response (w.callers i) refl a
step-IsAwake (drop_leader i) w a = drop_leader-IsAwake w i (w.callers i) refl a
step-IsAwake (drop_waiter i) w a = drop_waiter-IsAwake w i a
step-IsAwake (remove i) w a = remove-IsAwake w i (w.callers i) refl a
step-IsAwake (finish i) w a =
    on_finish-P IsAwake w i (w.callers i) refl a λ id o at. end_flight-IsAwake w i id o at a
step-IsAwake clear w a = record {
  known = a.known;
  registered = a.registered;
  made = a.made;
  started = tt;
}

not_below_zero : (n : ℕ) → ¬ (n < 0)
not_below_zero n h = omega arith

pub initial-IsAwake : IsAwake initial
initial-IsAwake = record {
  known = λ i. tt;
  registered = λ i. tt;
  made = λ id lt open_. absurd (not_below_zero id lt);
  started = tt;
}

pub run-IsAwake : (events : List Event) (w : World) → IsAwake w → IsAwake (run events w)
run-IsAwake [] w a = a
run-IsAwake (event ∷ events) w a = run-IsAwake events (step event w) (step-IsAwake event w a)

pub reached-IsAwake : (events : List Event) → IsAwake (run events initial)
reached-IsAwake events = run-IsAwake events initial initial-IsAwake
