-- ===== src/Fetch/Flight/Honest.antt =====
-- What the callers take from the cache while answers come in, in any order, that are true.
use owid_rust.Prelude.{
  ℕ, ◌≡◌, refl, sym, ap, ◌∙◌, subst, List, [], ◌∷◌, Bool, Option, none, some, Result, ok, err,
}
use owid_rust.Text.{Str}
use owid_rust.Error.{Error}
use owid_rust.Fetch.{KeyAnswer}
use owid_rust.Fetch.Cache.{Cache, held_for, clear_cache}
use owid_rust.Fetch.Cache.Truth.{IsRotation, IsHonest}
use owid_rust.Fetch.Cache.Served.{Reachable, at_start, answered, cleared, held_for-in_force}
use owid_rust.Fetch.Url.{end_point_of, minute_of}
use owid_rust.Fetch.Request.{Stated}
use owid_rust.Fetch.Flight.{
  Caller, World, asking, polling, leading, get, take_turn, held_answer, ask, outcome_of,
}
use owid_rust.Fetch.Flight.Run.{
  Event, start, turn, poll, respond, drop_leader, drop_waiter, remove, finish, clear, on_turn,
  on_respond, step, run, initial,
}
use owid_rust.Fetch.Flight.Waiting.{set_same}
use owid_rust.Fetch.Flight.Untouched.{
  start-HoldsAs, turn-HoldsAs, poll-HoldsAs, drop_leader-HoldsAs, drop_waiter-HoldsAs,
  remove-HoldsAs, finish-HoldsAs,
}
use owid_rust.Fetch.Flight.Events.{on_respond-P}
use owid_rust.Fetch.Flight.Kept.{flying, outcome_of-flying}

module _ (in_force : Str → ℕ → Str) where
  -- The answer that a leader is handed, if it is taken, is true of its creator's schedule.
  abbrev pub IsHonestTo : Caller → Option ℕ → Result Stated Error → Type 0
  IsHonestTo (leading url is_recent id) clock (ok (pem, from, to)) =
      IsHonest in_force clock (end_point_of url) (minute_of url) is_recent pem from to
  IsHonestTo caller clock response = Unit {0}

  abbrev pub IsHonestEvent : Event → World → Type 0
  IsHonestEvent (respond i clock response) w = IsHonestTo (w.callers i) clock response
  IsHonestEvent event w = Unit {0}

  abbrev pub AreHonest : List Event → World → Type 0
  AreHonest [] w = Unit {0}
  AreHonest (event ∷ events) w = IsHonestEvent event w × AreHonest events (step event w)

  -- The keys held are those of a cache that honest answers lead to.
  abbrev pub Holds : World → Type 0
  Holds w = Reachable in_force (flying w.cache [])

  outcome_of-Holds :
      (w : World) (clock : Option ℕ) (url : Str) (is_recent : Bool) (id : ℕ)
      (response : Result Stated Error)
      → IsHonestTo (leading url is_recent id) clock response
      → Holds w
      → Reachable in_force (flying (outcome_of clock w.cache url is_recent response).0 [])
  unfolding outcome_of
  outcome_of-Holds w clock url r id (ok (pem, from, to)) honest holds =
      subst (λ held. Reachable in_force held.0)
        (outcome_of-flying clock w.cache [] url r (ok (pem, from, to)))
        (answered clock (end_point_of url) (minute_of url) r pem from to holds honest)
  outcome_of-Holds w clock url r id (err e) honest holds = holds

  respond-Holds :
      (w : World) (i : ℕ) (clock : Option ℕ) (response : Result Stated Error)
      → IsHonestTo (w.callers i) clock response
      → Holds w
      → Holds (on_respond w i clock response (w.callers i))
  respond-Holds w i clock response honest holds =
      on_respond-P Holds w i clock response (w.callers i) refl holds
        λ url r id at. outcome_of-Holds w clock url r id response (rw at at honest) holds

  same-Reachable : {a b : Cache} → a ≡ b → Reachable in_force b → Reachable in_force a
  same-Reachable e holds = subst (Reachable in_force) (sym e) holds

  step-Holds : (event : Event) (w : World) → IsHonestEvent event w → Holds w → Holds (step event w)
  unfolding step clear_cache
  step-Holds (start i clock url) w honest holds = same-Reachable (start-HoldsAs w i clock url) holds
  step-Holds (turn i) w honest holds = same-Reachable (turn-HoldsAs w i) holds
  step-Holds (poll i) w honest holds = same-Reachable (poll-HoldsAs w i) holds
  step-Holds (respond i clock response) w honest holds =
      respond-Holds w i clock response honest holds
  step-Holds (drop_leader i) w honest holds = same-Reachable (drop_leader-HoldsAs w i) holds
  step-Holds (drop_waiter i) w honest holds = same-Reachable (drop_waiter-HoldsAs w i) holds
  step-Holds (remove i) w honest holds = same-Reachable (remove-HoldsAs w i) holds
  step-Holds (finish i) w honest holds = same-Reachable (finish-HoldsAs w i) holds
  step-Holds clear w honest holds = cleared holds

  run-Holds :
      (events : List Event) (w : World) → AreHonest events w → Holds w → Holds (run events w)
  run-Holds [] w honest holds = holds
  run-Holds (event ∷ events) w (now, later) holds =
      run-Holds events (step event w) later (step-Holds event w now holds)

  abbrev answer_of_caller : Caller → Option KeyAnswer
  answer_of_caller (Caller.done (ok answer)) = some answer
  answer_of_caller caller = none

  take_turn-held :
      (w : World) (i : ℕ) (url : Str) (is_recent : Bool) (held : Option KeyAnswer)
      (flight : Option ℕ) {answer : KeyAnswer}
      → (take_turn w i url is_recent held flight).callers i ≡ Caller.done (ok answer)
      → held ≡ some answer
  take_turn-held w i url is_recent (some held) flight e =
      ap answer_of_caller (sym (set_same w.callers i (Caller.done (ok held))) ∙ e)
  take_turn-held w i url is_recent none (some id) e =
      cc (ap answer_of_caller (sym (set_same w.callers i (polling url is_recent id)) ∙ e))
  take_turn-held w i url is_recent none none e =
      cc (ap answer_of_caller (sym (set_same w.callers i (leading url is_recent w.next)) ∙ e))

  -- A caller is served no wrong key from the cache, however the callers interleave: where creators
  -- do not return to a key that they have left, and every answer that a leader was handed was true
  -- of its creator's schedule, a caller that asks for a URL that names a minute, and that its turn
  -- takes straight to an answer, has the key that was in force at that minute.
  pub turn-in_force :
      (events : List Event) (i minute : ℕ) (url : Str) (is_recent : Bool) {answer : KeyAnswer}
      → IsRotation in_force
      → AreHonest events initial
      → (run events initial).callers i ≡ asking url is_recent
      → minute_of url ≡ some minute
      → (step (turn i) (run events initial)).callers i ≡ Caller.done (ok answer)
      → answer.pem ≡ in_force (end_point_of url) minute
  unfolding step ask held_for
  turn-in_force events i minute url is_recent {answer} rotates honest at named e =
      let w = run events initial in
      let holds = run-Holds events initial honest at_start in
      let turned : (take_turn w i url is_recent (held_answer w.cache url (minute_of url) is_recent)
              (get w.cache.in_flight url)).callers
            i
          ≡ Caller.done (ok answer) =
        subst (λ x. (on_turn w i x).callers i ≡ Caller.done (ok answer)) at e in
      let held =
        take_turn-held w i url is_recent (held_answer w.cache url (minute_of url) is_recent)
          (get w.cache.in_flight url) turned in
      held_for-in_force in_force rotates (end_point_of url) minute is_recent holds
        (rw named at held)
