-- ===== src/Fetch/Flight/Untouched.antt =====
-- The events that leave the keys held as they are.
use owid_rust.Prelude.{ℕ, ◌≡◌, refl, [], Bool, Option, none, some, Bool-cases, inl, inr}
use owid_rust.Text.{Str}
use owid_rust.Fetch.{KeyAnswer}
use owid_rust.Fetch.Flight.{
  World, get, poll_finished, take_turn, held_answer, ask, remove_entry, end_flight,
}
use owid_rust.Fetch.Flight.Run.{
  on_start, on_turn, on_poll, on_drop_leader, on_drop_waiter, on_remove, on_finish,
}
use owid_rust.Fetch.Flight.Events.{
  on_start-P, on_turn-P, on_poll-P, on_drop_leader-P, on_drop_waiter-P, on_remove-P, on_finish-P,
}
use owid_rust.Fetch.Url.{minute_of}
use owid_rust.Fetch.Flight.Kept.{flying}

-- Two worlds hold the same keys.
abbrev pub HoldsAs : World → World → Type 0
HoldsAs w v = flying w.cache [] ≡ flying v.cache []

pub start-HoldsAs :
    (w : World) (i : ℕ) (clock : Option ℕ) (url : Str)
    → HoldsAs (on_start w i clock url (w.callers i)) w
start-HoldsAs w i clock url =
    on_start-P (λ v. HoldsAs v w) w i clock url (w.callers i) refl refl λ at. refl

take_turn-HoldsAs :
    (w : World) (i : ℕ) (url : Str) (is_recent : Bool) (answer : Option KeyAnswer)
    (flight : Option ℕ)
    → HoldsAs (take_turn w i url is_recent answer flight) w
take_turn-HoldsAs w i url is_recent (some answer) flight = refl
take_turn-HoldsAs w i url is_recent none (some id) = refl
take_turn-HoldsAs w i url is_recent none none = refl

pub turn-HoldsAs : (w : World) (i : ℕ) → HoldsAs (on_turn w i (w.callers i)) w
unfolding ask
turn-HoldsAs w i =
    on_turn-P (λ v. HoldsAs v w) w i (w.callers i) refl refl
      λ url r at.
        take_turn-HoldsAs w i url r (held_answer w.cache url (minute_of url) r)
          (get w.cache.in_flight url)

poll_finished-HoldsAs :
    (w : World) (i : ℕ) (url : Str) (is_recent : Bool) (id : ℕ)
    → HoldsAs (poll_finished w i url is_recent id) w
unfolding poll_finished
poll_finished-HoldsAs w i url is_recent id = elim (Bool-cases (w.flights id).finished) [
  | inl e ↦ simp e
  | inr e ↦ simp e
]

pub poll-HoldsAs : (w : World) (i : ℕ) → HoldsAs (on_poll w i (w.callers i)) w
poll-HoldsAs w i =
    on_poll-P (λ v. HoldsAs v w) w i (w.callers i) refl refl
      (λ url r id at. poll_finished-HoldsAs w i url r id)
      (λ url r id at. poll_finished-HoldsAs w i url r id)

pub drop_leader-HoldsAs : (w : World) (i : ℕ) → HoldsAs (on_drop_leader w i (w.callers i)) w
drop_leader-HoldsAs w i =
    on_drop_leader-P (λ v. HoldsAs v w) w i (w.callers i) refl refl λ url r id at. refl

pub drop_waiter-HoldsAs : (w : World) (i : ℕ) → HoldsAs (on_drop_waiter w i (w.callers i)) w
drop_waiter-HoldsAs w i =
    on_drop_waiter-P (λ v. HoldsAs v w) w i (w.callers i) refl refl (λ url r id at. refl)
      (λ url r id at. refl)

pub remove-HoldsAs : (w : World) (i : ℕ) → HoldsAs (on_remove w i (w.callers i)) w
unfolding remove_entry
remove-HoldsAs w i = on_remove-P (λ v. HoldsAs v w) w i (w.callers i) refl refl λ url id o at. refl

pub finish-HoldsAs : (w : World) (i : ℕ) → HoldsAs (on_finish w i (w.callers i)) w
unfolding end_flight
finish-HoldsAs w i = on_finish-P (λ v. HoldsAs v w) w i (w.callers i) refl refl λ id o at. refl
