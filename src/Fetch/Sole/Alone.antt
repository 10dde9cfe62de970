-- ===== src/Fetch/Sole/Alone.antt =====
-- The events of one caller, where nobody fetches the URL, come to what `key_at_url` comes to alone.
use owid_rust.Prelude.{
  ℕ, ◌≡◌, refl, sym, ap, ◌∙◌, subst, List, [], ◌∷◌, Bool, Option, none, some, Result, ok, map_err,
  Bool-cases, inl, inr,
}
use owid_rust.Text.{Str}
use owid_rust.Text.Same.{same, same_refl}
use owid_rust.Error.{Error}
use owid_rust.Fetch.{KeyAnswer}
use owid_rust.Fetch.Cache.{Cache}
use owid_rust.Fetch.Url.{minute_of}
use owid_rust.Fetch.Request.{Stated}
use owid_rust.Fetch.Flight.{
  Outcome, Caller, World, asking, leading, dropping, removed, into_error, set, get, delete, lead,
  take_turn, held_answer, ask, conclude, outcome_of, remove_entry, ended, end_flight, is_recent_url,
}
use owid_rust.Fetch.Flight.Run.{
  start, turn, respond, remove, finish, on_start, on_turn, on_respond, on_remove, on_finish, step,
  run,
}
use owid_rust.Fetch.Flight.Waiting.{set_same}
use owid_rust.Fetch.Flight.Kept.{outcome_of-in_flight, flying, outcome_of-flying}
use owid_rust.Fetch.Flight.Shared.{end_flight-leader}
use owid_rust.Fetch.Sole.{sole_key_at_url, held_or_requested, returned}

delete-get-none :
    (entries : List (Str × ℕ)) (url : Str) → get entries url ≡ none → delete entries url ≡ entries
delete-get-none [] url e = refl
delete-get-none ((name, id) ∷ rest) url e = elim (Bool-cases (same name url)) [
  | inl t ↦ cc (rw t at e)
  | inr t ↦ rw t (ap (λ kept. (name, id) ∷ kept) (delete-get-none rest url (rw t at e)))
]

-- Where a caller is done with a cache.
abbrev IsDoneWith : ℕ → Caller → Cache → World → Type 0
IsDoneWith i caller cache w = (w.callers i ≡ caller) × (w.cache ≡ cache)

removed_alone :
    (w : World) (i id : ℕ) (url : Str) (outcome : Option Outcome)
    → w.callers i ≡ dropping url id outcome
    → IsDoneWith i
        (ended outcome)
        (flying w.cache (delete w.cache.in_flight url))
        (run (remove i ∷ finish i ∷ []) w)
unfolding step remove_entry end_flight
removed_alone w i id url outcome at =
    let cleared = remove_entry w i url id outcome in
    subst (λ x. IsDoneWith i (ended outcome) cleared.cache (step (finish i) (on_remove w i x)))
      (sym at)
      (subst (λ x. IsDoneWith i (ended outcome) cleared.cache (on_finish cleared i x))
        (sym (set_same w.callers i (removed id outcome)))
        (end_flight-leader cleared i id outcome, refl))

responded_alone :
    (w : World) (i id : ℕ) (clock : Option ℕ) (url : Str) (is_recent : Bool)
    (response : Result Stated Error)
    → w.callers i ≡ leading url is_recent id
    → let (cache, outcome) = outcome_of clock w.cache url is_recent response in
      IsDoneWith i
        (Caller.done (map_err into_error outcome))
        (flying cache (delete cache.in_flight url))
        (run (respond i clock response ∷ remove i ∷ finish i ∷ []) w)
unfolding step
responded_alone w i id clock url is_recent response at =
    let answer = outcome_of clock w.cache url is_recent response in
    subst
      (λ x.
        IsDoneWith i (Caller.done (map_err into_error answer.1))
          (flying answer.0 (delete answer.0.in_flight url))
          (run (remove i ∷ finish i ∷ []) (on_respond w i clock response x)))
      (sym at)
      (removed_alone (conclude w i url id answer) i id url (some answer.1)
        (set_same w.callers i (dropping url id (some answer.1))))

done_alone :
    (w : World) (i : ℕ) (clock : Option ℕ) (response : Result Stated Error)
    (result : Result KeyAnswer Error)
    → w.callers i ≡ Caller.done result
    → IsDoneWith i
        (Caller.done result)
        w.cache
        (run (respond i clock response ∷ remove i ∷ finish i ∷ []) w)
unfolding step
done_alone w i clock response result at = rw at (rw at (rw at (at, refl)))

lead_alone :
    (w : World) (i : ℕ) (clock : Option ℕ) (url : Str) (is_recent : Bool)
    (response : Result Stated Error)
    → get w.cache.in_flight url ≡ none
    → let (answer, cache) = returned (outcome_of clock w.cache url is_recent response) in
      IsDoneWith i
        (Caller.done answer)
        cache
        (run (respond i clock response ∷ remove i ∷ finish i ∷ []) (lead w i url is_recent))
lead_alone w i clock url is_recent response vacant =
    let entries = (url, w.next) ∷ w.cache.in_flight in
    let held = outcome_of clock w.cache url is_recent response in
    let later =
      run (respond i clock response ∷ remove i ∷ finish i ∷ []) (lead w i url is_recent) in
    let left : delete entries url ≡ held.0.in_flight = rw (same_refl url) (
      delete-get-none w.cache.in_flight url vacant
      ∙ sym (outcome_of-in_flight clock w.cache url is_recent response)) in
    let (answered, kept) =
      subst
        (λ a.
          IsDoneWith i (Caller.done (map_err into_error a.1))
            (flying a.0 (delete a.0.in_flight url)) later)
        (outcome_of-flying clock w.cache entries url is_recent response)
        (responded_alone (lead w i url is_recent) i w.next clock url is_recent response
          (set_same w.callers i (leading url is_recent w.next))) in
    (answered, kept ∙ ap (flying held.0) left)

take_turn_alone :
    (w : World) (i : ℕ) (clock : Option ℕ) (url : Str) (is_recent : Bool)
    (response : Result Stated Error) (held : Option KeyAnswer)
    → get w.cache.in_flight url ≡ none
    → let (answer, cache) = held_or_requested clock w.cache url is_recent response held in
      IsDoneWith i (Caller.done answer) cache (
        run
          (respond i clock response ∷ remove i ∷ finish i ∷ [])
          (take_turn w i url is_recent held none))
take_turn_alone w i clock url is_recent response none vacant =
    lead_alone w i clock url is_recent response vacant
take_turn_alone w i clock url is_recent response (some answer) vacant =
    done_alone (record w { callers = set w.callers i (Caller.done (ok answer)) }) i clock response
      (ok answer) (set_same w.callers i (Caller.done (ok answer)))

turn_alone :
    (w : World) (i : ℕ) (clock : Option ℕ) (url : Str) (response : Result Stated Error)
    → w.callers i ≡ asking url (is_recent_url clock (minute_of url))
    → get w.cache.in_flight url ≡ none
    → let (answer, cache) = sole_key_at_url clock w.cache url response in
      IsDoneWith i
        (Caller.done answer)
        cache
        (run (turn i ∷ respond i clock response ∷ remove i ∷ finish i ∷ []) w)
unfolding step ask sole_key_at_url
turn_alone w i clock url response at vacant =
    let is_recent = is_recent_url clock (minute_of url) in
    let (answer, cache) = sole_key_at_url clock w.cache url response in
    let held = held_answer w.cache url (minute_of url) is_recent in
    let rest = respond i clock response ∷ remove i ∷ finish i ∷ [] in
    subst (λ x. IsDoneWith i (Caller.done answer) cache (run rest (on_turn w i x))) (sym at)
      (subst
        (λ f.
          IsDoneWith i (Caller.done answer) cache (run rest (take_turn w i url is_recent held f)))
        (sym vacant) (take_turn_alone w i clock url is_recent response held vacant))

-- A caller that nobody else disturbs, of a URL that nobody fetches: the events of its call, whatever
-- the other callers wait for, leave it with the answer that `key_at_url` comes to alone: what the
-- cache holds for the URL, or else what the request came to, the cache as the request leaves it.
pub run-alone :
    (w : World) (i : ℕ) (clock : Option ℕ) (url : Str) (response : Result Stated Error)
    → w.callers i ≡ Caller.idle
    → get w.cache.in_flight url ≡ none
    → let later =
        run (start i clock url ∷ turn i ∷ respond i clock response ∷ remove i ∷ finish i ∷ []) w in
      let (answer, cache) = sole_key_at_url clock w.cache url response in
      (later.callers i ≡ Caller.done answer) × (later.cache ≡ cache)
unfolding step
run-alone w i clock url response at vacant =
    let (answer, cache) = sole_key_at_url clock w.cache url response in
    let asks = asking url (is_recent_url clock (minute_of url)) in
    let rest = turn i ∷ respond i clock response ∷ remove i ∷ finish i ∷ [] in
    subst (λ x. IsDoneWith i (Caller.done answer) cache (run rest (on_start w i clock url x)))
      (sym at)
      (turn_alone (record w { callers = set w.callers i asks }) i clock url response
        (set_same w.callers i asks) vacant)
