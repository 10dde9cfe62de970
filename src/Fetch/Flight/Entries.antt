-- ===== src/Fetch/Flight/Entries.antt =====
-- The map of the fetches under way in every world that events lead to.
use owid_rust.Prelude.{
  ℕ, ◌≡◌, refl, sym, subst, List, [], ◌∷◌, false, Option, none, some, ◌==◌, ==_iff, Bool-cases, inl,
  inr,
}
use owid_rust.Text.{Str}
use owid_rust.Text.Same.{same, same_refl}
use owid_rust.Fetch.Cache.{clear_cache}
use owid_rust.Fetch.Url.{minute_of}
use owid_rust.Fetch.Flight.{
  Outcome, Caller, World, asking, dropping, removed, set, get, delete, held_answer, ask, outcome_of,
  remove_entry, ended, wake_all, end_flight, is_recent_url,
}
use owid_rust.Fetch.Flight.Run.{
  Event, start, turn, poll, respond, drop_leader, drop_waiter, remove, finish, clear, step, run,
  initial,
}
use owid_rust.Fetch.Flight.Waiting.{Makes, IsAwake}
use owid_rust.Fetch.Flight.Ended.{wake-P, wake_all-P}
use owid_rust.Fetch.Flight.Events.{
  on_start-P, on_turn-P, on_poll-P, on_respond-P, on_drop_leader-P, on_drop_waiter-P, on_remove-P,
  on_finish-P,
}
use owid_rust.Fetch.Flight.Kept.{outcome_of-in_flight}
use owid_rust.Fetch.Flight.Steps.{step-IsAwake, initial-IsAwake}
use owid_rust.Fetch.Flight.Single.{made_before}
use owid_rust.Fetch.Flight.Made.{end_flight-made, end_flight-Makes_none}
use owid_rust.Fetch.Flight.Open.{
  Leads, AreLed, AreLed-map, Leads-set, IsOpen, moved-IsOpen, take_turn-IsOpen,
  poll_finished-IsOpen,
}

-- The entries that are left when those of one URL are taken away are led by others.
AreLed-delete :
    (callers : ℕ → Caller) (i : ℕ) (url : Str) (k : ℕ) (outcome : Option Outcome)
    (entries : List (Str × ℕ))
    → callers i ≡ dropping url k outcome
    → AreLed callers entries
    → AreLed (set callers i (removed k outcome)) (delete entries url)
AreLed-delete callers i url k outcome [] at h = tt
AreLed-delete callers i url k outcome ((name, id) ∷ rest) at ((j, leads), hs) =
    let others = AreLed-delete callers i url k outcome rest at hs in
    elim (Bool-cases (same name url)) [
      | inl e ↦ rw e others
      | inr e ↦
          let other_url : ¬ (url ≡ name) =
            λ is. cc (subst (λ t. same t url ≡ false) (sym is) e, same_refl url) in
          rw e (
            (
              j,
              Leads-set callers i (removed k outcome) j name id
                  (λ own.
                    let (is, same_id) : (url ≡ name) × (k ≡ id) = (rw at at own) in
                    absurd (other_url is))
                  leads,
            ),
            others,
          )
    ]

remove_entry-IsOpen :
    (w : World) (i : ℕ) (url : Str) (id : ℕ) (outcome : Option Outcome)
    → w.callers i ≡ dropping url id outcome
    → IsOpen w
    → IsOpen (remove_entry w i url id outcome)
unfolding remove_entry
remove_entry-IsOpen w i url id outcome at o =
    let back : (k : ℕ) → Makes (removed id outcome) k → Makes (w.callers i) k =
      λ k makes. rw at makes in
    record {
      sole = λ k a b ma mb.
          o.sole k a b (made_before w.callers i a (removed id outcome) k (back k) ma)
            (made_before w.callers i b (removed id outcome) k (back k) mb);
      unfinished = λ j k makes.
          o.unfinished j k (made_before w.callers i j (removed id outcome) k (back k) makes);
      led = AreLed-delete w.callers i url id outcome w.cache.in_flight at o.led;
    }

-- Whoever makes another fetch than the one that ends goes on making it.
end_flight-unfinished :
    (w : World) (i id : ℕ) (outcome : Option Outcome)
    → w.callers i ≡ removed id outcome
    → IsOpen w
    → (j k : ℕ) → Makes ((end_flight w i id outcome).callers j) k
    → ((end_flight w i id outcome).flights k).finished ≡ false
unfolding end_flight
end_flight-unfinished w i id outcome at o j k makes = elim (Bool-cases (id == k)) [
  | inl e ↦
      let same_id = (==_iff id k).0 e in
      let before = end_flight-made w i id outcome k j makes in
      let ender : Makes (w.callers i) k = subst (λ x. Makes x k) (sym at) same_id in
      absurd (
        end_flight-Makes_none w i id outcome k (
          subst (λ n. Makes ((end_flight w i id outcome).callers n) k) (o.sole k j i before ender)
            makes))
  | inr e ↦ rw e (o.unfinished j k (end_flight-made w i id outcome k j makes))
]

end_flight-IsOpen :
    (w : World) (i id : ℕ) (outcome : Option Outcome)
    → w.callers i ≡ removed id outcome
    → IsOpen w
    → IsOpen (end_flight w i id outcome)
unfolding end_flight
end_flight-IsOpen w i id outcome at o =
    let later = set w.callers i (ended outcome) in
    let wakers = (w.flights id).wakers in
    let on : (j : ℕ) (name : Str) (k : ℕ)
        → Leads (w.callers j) name k
        → Leads (wake_all wakers later j) name k =
      λ j name k leads.
        let still =
          Leads-set w.callers i (ended outcome) j name k (λ own. absurd (rw at at own)) leads in
        wake_all-P (λ x. Leads x name k) wakers later j
          (λ e. wake-P (λ x. Leads x name k) (later j) still (λ u r n h. h)) (λ e. still) in
    record {
      sole = λ k a b ma mb.
          o.sole k a b (end_flight-made w i id outcome k a ma)
            (end_flight-made w i id outcome k b mb);
      unfinished = end_flight-unfinished w i id outcome at o;
      led = AreLed-map w.callers (wake_all wakers later) w.cache.in_flight on o.led;
    }

step-IsOpen : (event : Event) (w : World) → IsAwake w → IsOpen w → IsOpen (step event w)
unfolding step ask clear_cache
step-IsOpen (start i clock url) w a o = on_start-P IsOpen w i clock url (w.callers i) refl o λ at.
    moved-IsOpen w w.flights w.cache i (asking url (is_recent_url clock (minute_of url))) o
      (λ k e. e) refl (λ id makes. absurd makes) (λ name id leads. absurd (rw at at leads))
step-IsOpen (turn i) w a o = on_turn-P IsOpen w i (w.callers i) refl o λ url r at.
    take_turn-IsOpen w i url r (held_answer w.cache url (minute_of url) r)
      (get w.cache.in_flight url) at a o
step-IsOpen (poll i) w a o =
    on_poll-P IsOpen w i (w.callers i) refl o
      (λ url r id at. poll_finished-IsOpen w i url r id (λ name k leads. rw at at leads) o)
      (λ url r id at. poll_finished-IsOpen w i url r id (λ name k leads. rw at at leads) o)
step-IsOpen (respond i clock response) w a o =
    on_respond-P IsOpen w i clock response (w.callers i) refl o λ url r id at.
      let held = outcome_of clock w.cache url r response in
      moved-IsOpen w w.flights held.0 i (dropping url id (some held.1)) o (λ k e. e)
        (outcome_of-in_flight clock w.cache url r response) (λ k makes. rw at makes)
        (λ name k leads. rw at at leads)
step-IsOpen (drop_leader i) w a o = on_drop_leader-P IsOpen w i (w.callers i) refl o λ url r id at.
    moved-IsOpen w w.flights w.cache i (dropping url id none) o (λ k e. e) refl
      (λ k makes. rw at makes) (λ name k leads. rw at at leads)
step-IsOpen (drop_waiter i) w a o =
    on_drop_waiter-P IsOpen w i (w.callers i) refl o
      (λ url r id at.
        moved-IsOpen w w.flights w.cache i Caller.idle o (λ k e. e) refl (λ k makes. absurd makes)
          (λ name k leads. absurd (rw at at leads)))
      (λ url r id at.
        moved-IsOpen w w.flights w.cache i Caller.idle o (λ k e. e) refl (λ k makes. absurd makes)
          (λ name k leads. absurd (rw at at leads)))
step-IsOpen (remove i) w a o =
    on_remove-P IsOpen w i (w.callers i) refl o
      λ url id outcome at. remove_entry-IsOpen w i url id outcome at o
step-IsOpen (finish i) w a o =
    on_finish-P IsOpen w i (w.callers i) refl o
      λ id outcome at. end_flight-IsOpen w i id outcome at o
step-IsOpen clear w a o = record { sole = o.sole; unfinished = o.unfinished; led = tt }

run-IsOpen : (events : List Event) (w : World) → IsAwake w → IsOpen w → IsOpen (run events w)
run-IsOpen [] w a o = o
run-IsOpen (event ∷ events) w a o =
    run-IsOpen events (step event w) (step-IsAwake event w a) (step-IsOpen event w a o)

pub reached-IsOpen : (events : List Event) → IsOpen (run events initial)
reached-IsOpen events =
    run-IsOpen events initial initial-IsAwake (record {
      sole = λ id a b ma mb. absurd ma;
      unfinished = λ i id makes. absurd makes;
      led = tt;
    })
