-- ===== src/Fetch/Flight/Shared.antt =====
-- The callers of one fetch: whoever waits comes to what the caller that makes the fetch comes to.
use owid_rust.Prelude.{
  ℕ, ◌≡◌, ◌≢◌, refl, sym, ◌∙◌, subst, List, [], ◌∷◌, Bool, false, Option, none, some, Result, any,
  map_err, ◌==◌, Bool-cases, inl, inr,
}
use owid_rust.Text.{Str}
use owid_rust.Error.{Error}
use owid_rust.Fetch.Request.{Stated}
use owid_rust.Fetch.Flight.{
  Outcome, Caller, World, polling, pending, leading, dropping, removed, into_error, after_wait,
  poll_finished, conclude, outcome_of, remove_entry, wake, ended, end_flight,
}
use owid_rust.Fetch.Flight.Run.{
  Event, poll, respond, remove, finish, on_poll, on_respond, on_remove, on_finish, step, run,
  initial,
}
use owid_rust.Fetch.Flight.Waiting.{Makes, IsKnown-pending, set_same, set_other}
use owid_rust.Fetch.Flight.Events.{on_poll-P}
use owid_rust.Fetch.Flight.Awake.{pending-IsRegistered}
use owid_rust.Fetch.Flight.Steps.{reached-IsAwake}
use owid_rust.Fetch.Flight.Woken.{
  pending_ne, poll-finished, maker-wakes, answered_and_polled, left_to_do, comes_to,
}

wake-ended : (outcome : Option Outcome) → wake (ended outcome) ≡ ended outcome
wake-ended none = refl
wake-ended (some outcome) = refl

-- Whatever the others wait for, the caller whose leader was dropped is where its outcome leaves it.
pub end_flight-leader :
    (w : World) (j id : ℕ) (outcome : Option Outcome)
    → (end_flight w j id outcome).callers j ≡ ended outcome
unfolding end_flight
end_flight-leader w j id outcome = elim (Bool-cases (any (λ k. k == j) (w.flights id).wakers)) [
  | inl e ↦ rw (e, set_same w.callers j (ended outcome)) (wake-ended outcome)
  | inr e ↦ rw (e, set_same w.callers j (ended outcome)) refl
]

poll_finished-other :
    (w : World) (i j : ℕ) (url : Str) (is_recent : Bool) (id : ℕ)
    → i ≢ j
    → (poll_finished w i url is_recent id).callers j ≡ w.callers j
unfolding poll_finished
poll_finished-other w i j url is_recent id apart = elim (Bool-cases (w.flights id).finished) [
  | inl e ↦ rw e (set_other w.callers i j (after_wait url is_recent (w.flights id).outcome) apart)
  | inr e ↦ simp (e, set_other w.callers i j (pending url is_recent id) apart)
]

poll-other : (w : World) (i j : ℕ) → i ≢ j → (on_poll w i (w.callers i)).callers j ≡ w.callers j
poll-other w i j apart =
    on_poll-P (λ v. v.callers j ≡ w.callers j) w i (w.callers i) refl refl
      (λ url r id at. poll_finished-other w i j url r id apart)
      (λ url r id at. poll_finished-other w i j url r id apart)

leader_dropped :
    (w : World) (i j : ℕ) (name : Str) (id : ℕ) (outcome : Option Outcome)
    → w.callers j ≡ dropping name id outcome
    → i ≢ j
    → (run (remove j ∷ finish j ∷ poll i ∷ []) w).callers j ≡ ended outcome
unfolding step remove_entry
leader_dropped w i j name id outcome at apart =
    let cleared = remove_entry w j name id outcome in
    subst (λ x. (run (finish j ∷ poll i ∷ []) (on_remove w j x)).callers j ≡ ended outcome) (sym at)
      (subst (λ x. (step (poll i) (on_finish cleared j x)).callers j ≡ ended outcome)
        (sym (set_same w.callers j (removed id outcome)))
        (poll-other (end_flight cleared j id outcome) i j apart
          ∙ end_flight-leader cleared j id outcome))

leader_answered :
    (w : World) (i j : ℕ) (clock : Option ℕ) (response : Result Stated Error) (name : Str)
    (asked : Bool) (id : ℕ)
    → w.callers j ≡ leading name asked id
    → i ≢ j
    → (run (respond j clock response ∷ remove j ∷ finish j ∷ poll i ∷ []) w).callers j
      ≡ Caller.done (map_err into_error (outcome_of clock w.cache name asked response).1)
unfolding step
leader_answered w i j clock response name asked id at apart =
    let answer = outcome_of clock w.cache name asked response in
    subst
      (λ x.
        (run (remove j ∷ finish j ∷ poll i ∷ []) (on_respond w j clock response x)).callers j
        ≡ Caller.done (map_err into_error answer.1))
      (sym at)
      (leader_dropped (conclude w j name id answer) i j name id (some answer.1)
        (set_same w.callers j (dropping name id (some answer.1))) apart)

-- No caller is left asleep: in every world that events lead to, the fetch that a sleeper waits for
-- has not ended, some caller makes it, and once that one has done what it has left to do, whatever
-- the transport answers, the sleeper has been woken, with no event of its own; its next poll then
-- takes it to what the fetch came to, or back to asking where its leader was dropped.
pub run-wakes :
    (events : List Event) (i : ℕ) (url : Str) (is_recent : Bool) (id : ℕ) (clock : Option ℕ)
    (response : Result Stated Error)
    → (run events initial).callers i ≡ pending url is_recent id
    → let w = run events initial in
      ((w.flights id).finished ≡ false)
      × ((j : ℕ) × Makes (w.callers j) id
          × (let later = run (left_to_do j clock response (w.callers j)) w in
              (later.callers i ≡ polling url is_recent id)
              × ((step (poll i) later).callers i
                  ≡ after_wait url is_recent (comes_to clock w.cache response (w.callers j)))))
run-wakes events i url is_recent id clock response at =
    let w = run events initial in
    let a = reached-IsAwake events in
    let (open_, there) =
      pending-IsRegistered w.flights i (w.callers i) url is_recent id (a.registered i) at in
    let (j, makes) =
      a.made id (IsKnown-pending w.next id url is_recent (w.callers i) at (a.known i)) open_ in
    let (awake, over) =
      maker-wakes w i j clock response url is_recent id (w.callers j) a at refl makes in
    (
      open_,
      (
        j,
        makes,
        (
          awake,
          poll-finished (run (left_to_do j clock response (w.callers j)) w) i url is_recent id
              (comes_to clock w.cache response (w.callers j)) awake over,
        ),
      ),
    )

-- The callers of one fetch come to one result: where a caller sleeps on the fetch that another is
-- making, then whatever the transport answers, the one that makes it and the one that sleeps both
-- return what the answer came to for the one that makes it.
pub run-shares :
    (events : List Event) (i j : ℕ) (clock : Option ℕ) (response : Result Stated Error)
    (url name : Str) (is_recent asked : Bool) (id : ℕ)
    → (run events initial).callers i ≡ pending url is_recent id
    → (run events initial).callers j ≡ leading name asked id
    → let w = run events initial in
      let later = run (respond j clock response ∷ remove j ∷ finish j ∷ poll i ∷ []) w in
      let result =
        Caller.done (map_err into_error (outcome_of clock w.cache name asked response).1) in
      (later.callers i ≡ result) × (later.callers j ≡ result)
run-shares events i j clock response url name is_recent asked id at_i at_j =
    let w = run events initial in
    let apart =
      pending_ne w.callers i j (leading name asked id) url is_recent id at_i at_j (λ e. cc) in
    (
      answered_and_polled w i j clock response url name is_recent asked id (reached-IsAwake events)
          at_i at_j,
      leader_answered w i j clock response name asked id at_j (λ e. apart (sym e)),
    )
