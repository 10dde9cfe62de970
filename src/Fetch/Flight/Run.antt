-- ===== src/Fetch/Flight/Run.antt =====
-- fetch.rs: `key_at_url` and the fetches under way as events, one caller at a time.
use owid_rust.Prelude.{ℕ, List, [], ◌∷◌, Option, none, Result}
use owid_rust.Text.{Str}
use owid_rust.Error.{Error}
use owid_rust.Fetch.Cache.{clear_cache}
use owid_rust.Fetch.Url.{minute_of}
use owid_rust.Fetch.Request.{Stated}
use owid_rust.Fetch.Flight.{
  default, Caller, World, Caller.idle, asking, polling, pending, leading, dropping, removed, set,
  ask, poll_finished, conclude, outcome_of, remove_entry, end_flight, is_recent_url,
}

pub data Event : Type 0 where
  start : (i : ℕ) → (clock : Option ℕ) → (url : Str) → Event
  turn : (i : ℕ) → Event
  poll : (i : ℕ) → Event
  respond : (i : ℕ) → (clock : Option ℕ) → Result Stated Error → Event
  drop_leader : (i : ℕ) → Event  -- the future of the caller is dropped part way through
  drop_waiter : (i : ℕ) → Event
  remove : (i : ℕ) → Event
  finish : (i : ℕ) → Event
  clear : Event

-- An event that does not fit where its caller stands changes nothing.
abbrev pub on_start : World → ℕ → Option ℕ → Str → Caller → World
on_start w i clock url idle = record w {
  callers = set w.callers i (asking url (is_recent_url clock (minute_of url)));
}
on_start w i clock url caller = w

abbrev pub on_turn : World → ℕ → Caller → World
on_turn w i (asking url is_recent) = ask w i url is_recent
on_turn w i caller = w

-- A future may be polled without having been woken.
abbrev pub on_poll : World → ℕ → Caller → World
on_poll w i (polling url is_recent id) = poll_finished w i url is_recent id
on_poll w i (pending url is_recent id) = poll_finished w i url is_recent id
on_poll w i caller = w

abbrev pub on_respond : World → ℕ → Option ℕ → Result Stated Error → Caller → World
on_respond w i clock response (leading url is_recent id) =
    conclude w i url id (outcome_of clock w.cache url is_recent response)
on_respond w i clock response caller = w

abbrev pub on_drop_leader : World → ℕ → Caller → World
on_drop_leader w i (leading url is_recent id) = record w {
  callers = set w.callers i (dropping url id none);
}
on_drop_leader w i caller = w

abbrev pub on_drop_waiter : World → ℕ → Caller → World
on_drop_waiter w i (polling url is_recent id) = record w { callers = set w.callers i idle }
on_drop_waiter w i (pending url is_recent id) = record w { callers = set w.callers i idle }
on_drop_waiter w i caller = w

abbrev pub on_remove : World → ℕ → Caller → World
on_remove w i (dropping url id outcome) = remove_entry w i url id outcome
on_remove w i caller = w

abbrev pub on_finish : World → ℕ → Caller → World
on_finish w i (removed id outcome) = end_flight w i id outcome
on_finish w i caller = w

unfoldable pub step : Event → World → World
step (start i clock url) w = on_start w i clock url (w.callers i)
step (turn i) w = on_turn w i (w.callers i)
step (poll i) w = on_poll w i (w.callers i)
step (respond i clock response) w = on_respond w i clock response (w.callers i)
step (drop_leader i) w = on_drop_leader w i (w.callers i)
step (drop_waiter i) w = on_drop_waiter w i (w.callers i)
step (remove i) w = on_remove w i (w.callers i)
step (finish i) w = on_finish w i (w.callers i)
step clear w = record w { cache = clear_cache w.cache }

abbrev pub run : List Event → World → World
run [] w = w
run (event ∷ events) w = run events (step event w)

-- No key held, no fetch under way and no caller.
abbrev pub initial : World
initial = record {
  cache = record { keys = []; held = 0; in_flight = [] };
  flights = λ id. default;
  next = 0;
  callers = λ i. idle;
}
