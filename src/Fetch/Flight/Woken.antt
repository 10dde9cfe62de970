-- ===== src/Fetch/Flight/Woken.antt =====
-- What becomes of a caller that waits for the fetch of another.
use owid_rust.Prelude.{
  ℕ, ◌≡◌, ◌≢◌, refl, sym, ap, ◌∙◌, subst, List, [], ◌∷◌, Bool, true, Option, none, some, Result,
  any, map_err, if◌then◌else◌, ◌==◌,
}
use owid_rust.Text.{Str}
use owid_rust.Error.{Error}
use owid_rust.Fetch.Cache.{Cache}
use owid_rust.Fetch.Request.{Stated}
use owid_rust.Fetch.Flight.{
  Outcome, Caller, World, polling, pending, leading, dropping, removed, into_error, set, register,
  after_wait, poll_finished, conclude, outcome_of, remove_entry, wake, ended, wake_all, end_flight,
  asking,
}
use owid_rust.Fetch.Flight.Run.{
  Event, poll, respond, remove, finish, on_poll, on_respond, on_remove, on_finish, step, run,
}
use owid_rust.Fetch.Flight.Waiting.{Makes, IsAwake, set_same, set_other}
use owid_rust.Fetch.Flight.Awake.{pending-IsRegistered}
use owid_rust.Fetch.Flight.Steps.{remove-IsAwake, respond-IsAwake}

-- The places of two callers that stand at different points differ.
pub pending_ne :
    (callers : ℕ → Caller) (i j : ℕ) (caller : Caller) (url : Str) (is_recent : Bool) (id : ℕ)
    → callers i ≡ pending url is_recent id
    → callers j ≡ caller
    → (pending url is_recent id ≢ caller)
    → j ≢ i
pending_ne callers i j caller url is_recent id at_i at_j ne same_place =
    ne (sym at_i ∙ ap callers (sym same_place) ∙ at_j)

pub woken :
    (wakers : List ℕ) (callers : ℕ → Caller) (i : ℕ)
    → any (λ k. k == i) wakers ≡ true
    → wake_all wakers callers i ≡ wake (callers i)
woken wakers callers i e = rw e refl

pub end_flight-callers :
    (w : World) (i j : ℕ) (url : Str) (is_recent : Bool) (id : ℕ) (outcome : Option Outcome)
    → IsAwake w
    → w.callers i ≡ pending url is_recent id
    → w.callers j ≡ removed id outcome
    → (end_flight w j id outcome).callers i ≡ polling url is_recent id
unfolding end_flight
end_flight-callers w i j url is_recent id outcome a at_i at_j =
    let apart =
      pending_ne w.callers i j (removed id outcome) url is_recent id at_i at_j (λ e. cc) in
    let (open_, there) =
      pending-IsRegistered w.flights i (w.callers i) url is_recent id (a.registered i) at_i in
    woken (w.flights id).wakers (set w.callers j (ended outcome)) i there
    ∙ ap wake (set_other w.callers j i (ended outcome) apart ∙ at_i)

-- A poll of a fetch that has ended.
pub poll-finished :
    (w : World) (i : ℕ) (url : Str) (is_recent : Bool) (id : ℕ) (outcome : Option Outcome)
    → w.callers i ≡ polling url is_recent id
    → w.flights id ≡ record { finished = true; outcome = outcome; wakers = [] }
    → (step (poll i) w).callers i ≡ after_wait url is_recent outcome
unfolding step poll_finished
poll-finished w i url is_recent id outcome at over =
    subst (λ x. (on_poll w i x).callers i ≡ after_wait url is_recent outcome) (sym at)
      (subst
        (λ f.
          (if f.finished
              then record w { callers = set w.callers i (after_wait url is_recent f.outcome) }
              else record w {
                flights = set w.flights id (register f i);
                callers = set w.callers i (pending url is_recent id);
              }).callers
            i
          ≡ after_wait url is_recent outcome)
        (sym over) (set_same w.callers i (after_wait url is_recent outcome)))

-- The fetch has ended with the outcome, and the caller that slept on it has been woken.
abbrev pub IsWoken : World → ℕ → Str → Bool → ℕ → Option Outcome → Type 0
IsWoken w i url is_recent id outcome =
    (w.callers i ≡ polling url is_recent id)
    × (w.flights id ≡ record { finished = true; outcome = outcome; wakers = [] })

ended-IsWoken :
    (w : World) (i j : ℕ) (url : Str) (is_recent : Bool) (id : ℕ) (outcome : Option Outcome)
    → IsAwake w
    → w.callers i ≡ pending url is_recent id
    → w.callers j ≡ removed id outcome
    → IsWoken (run (finish j ∷ []) w) i url is_recent id outcome
unfolding step end_flight
ended-IsWoken w i j url is_recent id outcome a at_i at_j =
    subst (λ x. IsWoken (on_finish w j x) i url is_recent id outcome) (sym at_j)
      (
        end_flight-callers w i j url is_recent id outcome a at_i at_j,
        set_same w.flights id (record { finished = true; outcome = outcome; wakers = [] }),
      )

-- The steps that follow where a leader is dropped, with an outcome or without.
dropped-IsWoken :
    (w : World) (i j : ℕ) (url name : Str) (is_recent : Bool) (id : ℕ) (outcome : Option Outcome)
    → IsAwake w
    → w.callers i ≡ pending url is_recent id
    → w.callers j ≡ dropping name id outcome
    → IsWoken (run (remove j ∷ finish j ∷ []) w) i url is_recent id outcome
unfolding step remove_entry
dropped-IsWoken w i j url name is_recent id outcome a at_i at_j =
    let apart =
      pending_ne w.callers i j (dropping name id outcome) url is_recent id at_i at_j (λ e. cc) in
    subst (λ x. IsWoken (run (finish j ∷ []) (on_remove w j x)) i url is_recent id outcome)
      (sym at_j)
      (ended-IsWoken (remove_entry w j name id outcome) i j url is_recent id outcome
        (remove-IsAwake w j (dropping name id outcome) at_j a)
        (set_other w.callers j i (removed id outcome) apart ∙ at_i)
        (set_same w.callers j (removed id outcome)))

answered-IsWoken :
    (w : World) (i j : ℕ) (clock : Option ℕ) (response : Result Stated Error) (url name : Str)
    (is_recent asked : Bool) (id : ℕ)
    → IsAwake w
    → w.callers i ≡ pending url is_recent id
    → w.callers j ≡ leading name asked id
    → IsWoken
        (run (respond j clock response ∷ remove j ∷ finish j ∷ []) w)
        i
        url
        is_recent
        id
        (some (outcome_of clock w.cache name asked response).1)
unfolding step
answered-IsWoken w i j clock response url name is_recent asked id a at_i at_j =
    let apart =
      pending_ne w.callers i j (leading name asked id) url is_recent id at_i at_j (λ e. cc) in
    let answer = outcome_of clock w.cache name asked response in
    subst
      (λ x.
        IsWoken (run (remove j ∷ finish j ∷ []) (on_respond w j clock response x)) i url is_recent
          id (some answer.1))
      (sym at_j)
      (dropped-IsWoken (conclude w j name id answer) i j url name is_recent id (some answer.1)
        (respond-IsAwake w j clock response (leading name asked id) at_j a)
        (set_other w.callers j i (dropping name id (some answer.1)) apart ∙ at_i)
        (set_same w.callers j (dropping name id (some answer.1))))

pub answered_and_polled :
    (w : World) (i j : ℕ) (clock : Option ℕ) (response : Result Stated Error) (url name : Str)
    (is_recent asked : Bool) (id : ℕ)
    → IsAwake w
    → w.callers i ≡ pending url is_recent id
    → w.callers j ≡ leading name asked id
    → (run (respond j clock response ∷ remove j ∷ finish j ∷ poll i ∷ []) w).callers i
      ≡ Caller.done (map_err into_error (outcome_of clock w.cache name asked response).1)
answered_and_polled w i j clock response url name is_recent asked id a at_i at_j =
    let (awake, over) =
      answered-IsWoken w i j clock response url name is_recent asked id a at_i at_j in
    poll-finished (run (respond j clock response ∷ remove j ∷ finish j ∷ []) w) i url is_recent id
      (some (outcome_of clock w.cache name asked response).1) awake over

-- The events that are left to whoever makes a fetch, the transport answering.
abbrev pub left_to_do : ℕ → Option ℕ → Result Stated Error → Caller → List Event
left_to_do j clock response (leading url is_recent id) =
    respond j clock response ∷ remove j ∷ finish j ∷ []
left_to_do j clock response (dropping url id outcome) = remove j ∷ finish j ∷ []
left_to_do j clock response (removed id outcome) = finish j ∷ []
left_to_do j clock response caller = []

-- What the fetch comes to by them: nothing, where its leader was dropped part way through.
abbrev pub comes_to : Option ℕ → Cache → Result Stated Error → Caller → Option Outcome
comes_to clock cache response (leading url is_recent id) =
    some (outcome_of clock cache url is_recent response).1
comes_to clock cache response (dropping url id outcome) = outcome
comes_to clock cache response (removed id outcome) = outcome
comes_to clock cache response caller = none

pub maker-wakes :
    (w : World) (i j : ℕ) (clock : Option ℕ) (response : Result Stated Error) (url : Str)
    (is_recent : Bool) (id : ℕ) (maker : Caller)
    → IsAwake w
    → w.callers i ≡ pending url is_recent id
    → w.callers j ≡ maker
    → Makes maker id
    → IsWoken
        (run (left_to_do j clock response maker) w)
        i
        url
        is_recent
        id
        (comes_to clock w.cache response maker)
maker-wakes w i j clock response url is_recent id (leading name asked k) a at_i at_j makes =
    answered-IsWoken w i j clock response url name is_recent asked id a at_i
      (at_j ∙ ap (leading name asked) makes)
maker-wakes w i j clock response url is_recent id (dropping name k outcome) a at_i at_j makes =
    dropped-IsWoken w i j url name is_recent id outcome a at_i
      (at_j ∙ ap (λ n. dropping name n outcome) makes)
maker-wakes w i j clock response url is_recent id (removed k outcome) a at_i at_j makes =
    ended-IsWoken w i j url is_recent id outcome a at_i (at_j ∙ ap (λ n. removed n outcome) makes)
maker-wakes w i j clock response url is_recent id Caller.idle a at_i at_j makes = absurd makes
maker-wakes w i j clock response url is_recent id (asking u r) a at_i at_j makes = absurd makes
maker-wakes w i j clock response url is_recent id (polling u r k) a at_i at_j makes = absurd makes
maker-wakes w i j clock response url is_recent id (pending u r k) a at_i at_j makes = absurd makes
maker-wakes w i j clock response url is_recent id (Caller.done o) a at_i at_j makes = absurd makes
