-- ===== src/Tests/Flights.antt =====
-- Two callers of one URL: the theorems at the events that lead to a wait, and some runs.
use owid_rust.Prelude.{
  ℕ, ◌≡◌, refl, List, [], ◌∷◌, ◌++◌, false, none, some, Result, ok, err, map_err,
}
use owid_rust.Text.{Str, text}
use owid_rust.Error.{Error}
use owid_rust.Fetch.{known, stated, recent}
use owid_rust.Fetch.Cache.{hold, held_for, span_of, hold_keys, clear_cache}
use owid_rust.Fetch.Url.{split, add_digits, end_point_of, minute_of, query_of}
use owid_rust.Fetch.Request.{Stated}
use owid_rust.Fetch.Flight.{
  Caller, pending, polling, asking, leading, into_error, after_wait, outcome_of, ask, poll_finished,
  remove_entry, end_flight, get,
}
use owid_rust.Fetch.Flight.Run.{
  Event, start, turn, poll, respond, remove, finish, drop_leader, clear, step, run, initial,
}
use owid_rust.Fetch.Flight.Woken.{left_to_do, comes_to}
use owid_rust.Fetch.Flight.Waiting.{Makes}
use owid_rust.Fetch.Flight.Shared.{run-wakes, run-shares}
use owid_rust.Fetch.Flight.Honest.{AreHonest, turn-in_force}
use owid_rust.Fetch.Flight.Only.{run-leads_once}

abbrev url : Str
url = text "u"

-- The first caller leads, the second waits.
abbrev two_callers : List Event
two_callers = start 0 none url ∷ turn 0 ∷ start 1 none url ∷ turn 1 ∷ poll 1 ∷ []

first_leads : (run two_callers initial).callers 0 ≡ leading url false 0
unfolding query_of step ask poll_finished minute_of
first_leads = refl

second_waits : (run two_callers initial).callers 1 ≡ pending url false 0
unfolding query_of step ask poll_finished minute_of
second_waits = refl

abbrev refusal : Result Stated Error
refusal = err (Error.http (text "down"))

run-wakes_example :
    let w = run two_callers initial in
    ((w.flights 0).finished ≡ false)
    × ((j : ℕ) × Makes (w.callers j) 0
        × (let later = run (left_to_do j none refusal (w.callers j)) w in
            (later.callers 1 ≡ polling url false 0)
            × ((step (poll 1) later).callers 1
                ≡ after_wait url false (comes_to none w.cache refusal (w.callers j)))))
run-wakes_example = run-wakes two_callers 1 url false 0 none refusal second_waits

abbrev refused : Caller
refused =
    Caller.done
      (map_err into_error (outcome_of none (run two_callers initial).cache url false refusal).1)

run-shares_example :
    ((run
          (respond 0 none refusal ∷ remove 0 ∷ finish 0 ∷ poll 1 ∷ [])
          (run two_callers initial)).callers
        1
      ≡ refused)
    × ((run
            (respond 0 none refusal ∷ remove 0 ∷ finish 0 ∷ poll 1 ∷ [])
            (run two_callers initial)).callers
          0
        ≡ refused)
run-shares_example =
    run-shares two_callers 1 0 none refusal url url false false 0 second_waits first_leads

abbrev first : ℕ
first = 0

run-leads_once_example :
    (first ≡ first) × (get (run two_callers initial).cache.in_flight url ≡ some 0)
run-leads_once_example =
    run-leads_once two_callers 0 0 url false false 0 0 tt first_leads first_leads

-- After the leader is dropped without an outcome the second caller makes the fetch.
abandoned :
    (run
        (two_callers ++ (drop_leader 0 ∷ remove 0 ∷ finish 0 ∷ poll 1 ∷ turn 1 ∷ []))
        initial).callers
      1
    ≡ leading url false 1
unfolding query_of step ask poll_finished remove_entry end_flight minute_of
abandoned = refl

-- Where the cache is cleared during a fetch, the end of that fetch takes away the entry of the one
-- that another caller makes of the same URL by then, and a third caller makes a fetch of its own.
cleared :
    let w =
      run
        (start 0 none url
          ∷ turn 0
          ∷ clear
          ∷ start 1 none url
          ∷ turn 1
          ∷ drop_leader 0
          ∷ remove 0
          ∷ start 2 none url
          ∷ turn 2
          ∷ [])
        initial in
    (w.callers 1 ≡ leading url false 1) × (w.callers 2 ≡ leading url false 2)
unfolding query_of step ask remove_entry clear_cache minute_of
cleared = (refl, refl)

abbrev before_wait : List Event
before_wait = start 0 none url ∷ turn 0 ∷ start 1 none url ∷ []

-- A creator with one key, which answers the first caller about minute 7; the second asks after it.
abbrev dated_url : Str
dated_url = text "u?date=7"

abbrev one_key : Str → ℕ → Str
one_key name minute = text "k"

abbrev answered_before : List Event
answered_before =
    start 0 none dated_url
    ∷ turn 0
    ∷ respond 0 none (ok (text "k", some 5, some 10))
    ∷ remove 0
    ∷ finish 0
    ∷ start 1 none dated_url
    ∷ []

names_minute : minute_of dated_url ≡ some 7
unfolding minute_of query_of split add_digits
names_minute = refl

true_of_it : AreHonest one_key answered_before initial
unfolding minute_of query_of split add_digits end_point_of step ask remove_entry end_flight held_for
true_of_it = (tt, (tt, ((λ le m lo hi. refl, λ le m lo hi. refl), (tt, (tt, (tt, tt))))))

second_asks : (run answered_before initial).callers 1 ≡ asking dated_url false
unfolding minute_of query_of split add_digits end_point_of step ask remove_entry end_flight held_for
    hold outcome_of recent
second_asks = refl

second_served :
    (step (turn 1) (run answered_before initial)).callers 1
    ≡ Caller.done (ok (known (text "k") 5 9))
unfolding minute_of query_of split add_digits end_point_of step ask remove_entry end_flight held_for
    hold outcome_of recent span_of hold_keys stated
second_served = refl

turn-in_force_example : text "k" ≡ one_key (end_point_of dated_url) 7
turn-in_force_example =
    turn-in_force one_key answered_before 1 7 dated_url false (λ name a m b le later same. refl)
      true_of_it second_asks names_minute second_served
