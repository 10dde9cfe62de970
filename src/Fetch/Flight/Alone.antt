-- ===== src/Fetch/Flight/Alone.antt =====
-- One request at a time, through every event but the clearing of the cache.
use owid_rust.Prelude.{
  ℕ, ◌≡◌, refl, sym, subst, Bool, Option, none, some, Result, if◌then◌else◌, Bool-cases, inl, inr,
  map_err, ok,
}
use owid_rust.Text.{Str}
use owid_rust.Error.{Error}
use owid_rust.Fetch.{KeyAnswer}
use owid_rust.Fetch.Url.{minute_of}
use owid_rust.Fetch.Request.{Stated}
use owid_rust.Fetch.Flight.{
  Outcome, Caller, World, polling, asking, pending, dropping, into_error, set, get, register,
  after_wait, poll_finished, outcome_of, held_answer, ask, take_turn, is_recent_url,
}
use owid_rust.Fetch.Flight.Run.{
  on_start, on_turn, on_poll, on_respond, on_drop_leader, on_drop_waiter,
}
use owid_rust.Fetch.Flight.Waiting.{IsAwake}
use owid_rust.Fetch.Flight.Events.{
  on_start-P, on_turn-P, on_poll-P, on_respond-P, on_drop_leader-P, on_drop_waiter-P,
}
use owid_rust.Fetch.Flight.Kept.{outcome_of-in_flight}
use owid_rust.Fetch.Flight.Single.{IsSingle, moved-IsSingle, lead-IsSingle}

pub start-IsSingle :
    (w : World) (i : ℕ) (clock : Option ℕ) (url : Str)
    → IsSingle w
    → IsSingle (on_start w i clock url (w.callers i))
start-IsSingle w i clock url s = on_start-P IsSingle w i clock url (w.callers i) refl s λ at.
    moved-IsSingle w w.flights w.cache i (asking url (is_recent_url clock (minute_of url))) s refl
      tt (λ id makes. absurd makes)

pub take_turn-IsSingle :
    (w : World) (i : ℕ) (url : Str) (is_recent : Bool) (answer : Option KeyAnswer)
    (flight : Option ℕ)
    → get w.cache.in_flight url ≡ flight
    → IsAwake w
    → IsSingle w
    → IsSingle (take_turn w i url is_recent answer flight)
take_turn-IsSingle w i url is_recent (some answer) flight e a s =
    moved-IsSingle w w.flights w.cache i (Caller.done (ok answer)) s refl tt
      (λ id makes. absurd makes)
take_turn-IsSingle w i url is_recent none (some id) e a s =
    moved-IsSingle w w.flights w.cache i (polling url is_recent id) s refl tt
      (λ id makes. absurd makes)
take_turn-IsSingle w i url is_recent none none e a s = lead-IsSingle w i url is_recent e a s

pub turn-IsSingle :
    (w : World) (i : ℕ) → IsAwake w → IsSingle w → IsSingle (on_turn w i (w.callers i))
unfolding ask
turn-IsSingle w i a s = on_turn-P IsSingle w i (w.callers i) refl s λ url r at.
    take_turn-IsSingle w i url r (held_answer w.cache url (minute_of url) r)
      (get w.cache.in_flight url) refl a s

pub after_wait-IsSingle :
    (w : World) (i : ℕ) (url : Str) (is_recent : Bool) (outcome : Option Outcome)
    → IsSingle w
    → IsSingle (record w { callers = set w.callers i (after_wait url is_recent outcome) })
after_wait-IsSingle w i url is_recent none s =
    moved-IsSingle w w.flights w.cache i (asking url is_recent) s refl tt (λ id makes. absurd makes)
after_wait-IsSingle w i url is_recent (some outcome) s =
    moved-IsSingle w w.flights w.cache i (Caller.done (map_err into_error outcome)) s refl tt
      (λ id makes. absurd makes)

pub poll_finished-IsSingle :
    (w : World) (i : ℕ) (url : Str) (is_recent : Bool) (id : ℕ)
    → IsSingle w
    → IsSingle (poll_finished w i url is_recent id)
unfolding poll_finished
poll_finished-IsSingle w i url r id s = elim (Bool-cases (w.flights id).finished) [
  | inl e ↦ rw e (after_wait-IsSingle w i url r (w.flights id).outcome s)
  | inr e ↦
      subst
        (λ b. IsSingle (
          if b
          then record w { callers = set w.callers i (after_wait url r (w.flights id).outcome) }
          else record w {
            flights = set w.flights id (register (w.flights id) i);
            callers = set w.callers i (pending url r id);
          }))
        (sym e)
        (moved-IsSingle w (set w.flights id (register (w.flights id) i)) w.cache i
          (pending url r id) s refl tt (λ id makes. absurd makes))
]

pub poll-IsSingle : (w : World) (i : ℕ) → IsSingle w → IsSingle (on_poll w i (w.callers i))
poll-IsSingle w i s =
    on_poll-P IsSingle w i (w.callers i) refl s
      (λ url r id at. poll_finished-IsSingle w i url r id s)
      (λ url r id at. poll_finished-IsSingle w i url r id s)

pub respond-IsSingle :
    (w : World) (i : ℕ) (clock : Option ℕ) (response : Result Stated Error)
    → IsSingle w
    → IsSingle (on_respond w i clock response (w.callers i))
respond-IsSingle w i clock response s =
    on_respond-P IsSingle w i clock response (w.callers i) refl s λ url r id at.
      let held = outcome_of clock w.cache url r response in
      moved-IsSingle w w.flights held.0 i (dropping url id (some held.1)) s
        (outcome_of-in_flight clock w.cache url r response) (rw at at (s.entered i))
        (λ k makes. rw at makes)

pub drop_leader-IsSingle :
    (w : World) (i : ℕ) → IsSingle w → IsSingle (on_drop_leader w i (w.callers i))
drop_leader-IsSingle w i s = on_drop_leader-P IsSingle w i (w.callers i) refl s λ url r id at.
    moved-IsSingle w w.flights w.cache i (dropping url id none) s refl (rw at at (s.entered i))
      (λ k makes. rw at makes)

pub drop_waiter-IsSingle :
    (w : World) (i : ℕ) → IsSingle w → IsSingle (on_drop_waiter w i (w.callers i))
drop_waiter-IsSingle w i s =
    let left =
      moved-IsSingle w w.flights w.cache i Caller.idle s refl tt (λ id makes. absurd makes) in
    on_drop_waiter-P IsSingle w i (w.callers i) refl s (λ url r id at. left) (λ url r id at. left)
