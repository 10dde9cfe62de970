-- ===== src/Fetch/Flight.antt =====
-- fetch.rs: `key_at_url` and the fetches under way, for any number of callers in any order. Each
-- event (Run) is what one caller does between two points where others can run: the cache and the state
-- of a fetch are locked within one event, and no lock is held from one event to the next.
pub mod Run
pub mod Waiting
pub mod Events
pub mod Awake
pub mod Ended
pub mod Steps
pub mod Woken
pub mod Shared
pub mod Single
pub mod Alone
pub mod Made
pub mod Only
pub mod Open
pub mod Entries
pub mod Wait
pub mod Kept
pub mod Untouched
pub mod Honest
use owid_rust.Prelude.{
  ℕ, suc, List, [], ◌∷◌, ◌++◌, Bool, true, false, Option, none, some, Result, ok, err, ◌==◌, any,
  not, map_err, if◌then◌else◌,
}
use owid_rust.Text.{Str}
use owid_rust.Text.Same.{same}
use owid_rust.Error.{Error}
use owid_rust.Display.{to_string}
use owid_rust.Fetch.{KeyAnswer, recent}
use owid_rust.Fetch.Cache.{Cache, held_for, hold, clear_cache}
use owid_rust.Fetch.Url.{end_point_of, minute_of}
use owid_rust.Fetch.Request.{Stated}

pub data FetchFailure : Type 0 where
  http : Str → FetchFailure
  key : Str → FetchFailure

unfoldable pub into_error : FetchFailure → Error
into_error (http message) = Error.http message
into_error (key message) = Error.key message

abbrev pub Outcome : Type 0
Outcome = Result KeyAnswer FetchFailure

-- A waker is known by the number of its caller.
pub record InFlight : Type 0 where
  pub finished : Bool
  pub outcome : Option Outcome
  pub wakers : List ℕ

abbrev pub default : InFlight
default = record { finished = false; outcome = none; wakers = [] }

-- Where a caller of `key_at_url` stands, with the local values that are live there.
pub data Caller : Type 0 where
  idle : Caller
  asking : (url : Str) → (is_recent : Bool) → Caller  -- head of the loop
  polling : (url : Str) → (is_recent : Bool) → (id : ℕ) → Caller  -- before a poll of `Finished`
  pending : (url : Str) → (is_recent : Bool) → (id : ℕ) → Caller  -- polled, and not woken since
  leading : (url : Str) → (is_recent : Bool) → (id : ℕ) → Caller  -- awaits the transport
  dropping : (url : Str) → (id : ℕ) → Option Outcome → Caller  -- start of `Leader::drop`
  removed : (id : ℕ) → Option Outcome → Caller  -- `drop`, the cache unlocked
  done : Result KeyAnswer Error → Caller

pub record World : Type 0 where
  pub cache : Cache
  pub flights : ℕ → InFlight
  pub next : ℕ  -- the number of the next fetch
  pub callers : ℕ → Caller

abbrev pub set {ℓ} : {A : Type ℓ} → (ℕ → A) → ℕ → A → ℕ → A
set f i x j = if i == j then x else f j

-- The hash map of the fetches under way.
abbrev pub get : List (Str × ℕ) → Str → Option ℕ
get [] url = none
get ((name, id) ∷ rest) url = if same name url then some id else get rest url

abbrev pub delete : List (Str × ℕ) → Str → List (Str × ℕ)
delete [] url = []
delete ((name, id) ∷ rest) url =
    let kept = delete rest url in if same name url then kept else (name, id) ∷ kept

abbrev pub is_recent_url : Option ℕ → Option ℕ → Bool
is_recent_url clock none = false
is_recent_url clock (some minute) = recent clock minute

abbrev pub held_answer : Cache → Str → Option ℕ → Bool → Option KeyAnswer
held_answer cache url none is_recent = none
held_answer cache url (some minute) is_recent = held_for cache (end_point_of url) minute is_recent

-- The block that holds the lock: an answer from the cache, or a turn to wait or to lead.
abbrev pub lead : World → ℕ → Str → Bool → World
lead w i url is_recent = record w {
  cache = record w.cache { in_flight = (url, w.next) ∷ w.cache.in_flight };
  flights = set w.flights w.next default;
  next = suc w.next;
  callers = set w.callers i (leading url is_recent w.next);
}

abbrev pub take_turn : World → ℕ → Str → Bool → Option KeyAnswer → Option ℕ → World
take_turn w i url is_recent (some answer) flight = record w {
  callers = set w.callers i (done (ok answer));
}
take_turn w i url is_recent none (some id) = record w {
  callers = set w.callers i (polling url is_recent id);
}
take_turn w i url is_recent none none = lead w i url is_recent

unfoldable pub ask : World → ℕ → Str → Bool → World
ask w i url is_recent =
    take_turn w i url is_recent (held_answer w.cache url (minute_of url) is_recent)
      (get w.cache.in_flight url)

-- `Finished::poll`: one entry for each waiting caller.
abbrev pub retain_others : List ℕ → ℕ → List ℕ
retain_others [] i = []
retain_others (j ∷ wakers) i =
    let kept = retain_others wakers i in if j == i then kept else j ∷ kept

abbrev pub register : InFlight → ℕ → InFlight
register flight i = record flight { wakers = retain_others flight.wakers i ++ (i ∷ []) }

abbrev pub after_wait : Str → Bool → Option Outcome → Caller
after_wait url is_recent none = asking url is_recent
after_wait url is_recent (some outcome) = done (map_err into_error outcome)

unfoldable pub poll_finished : World → ℕ → Str → Bool → ℕ → World
poll_finished w i url is_recent id =
    if (w.flights id).finished
    then record w { callers = set w.callers i (after_wait url is_recent (w.flights id).outcome) }
    else record w {
      flights = set w.flights id (register (w.flights id) i);
      callers = set w.callers i (pending url is_recent id);
    }

-- The match on what the request came to.
abbrev pub failure : Error → FetchFailure
failure (Error.http message) = http message
failure other = key (to_string other)

abbrev pub held_outcome : Cache × KeyAnswer → Cache × Outcome
held_outcome (cache, answer) = (cache, ok answer)

unfoldable pub outcome_of : Option ℕ → Cache → Str → Bool → Result Stated Error → Cache × Outcome
outcome_of clock cache url is_recent (ok (pem, from, to)) =
    held_outcome (hold clock cache (end_point_of url) (minute_of url) is_recent pem from to)
outcome_of clock cache url is_recent (err e) = (cache, err (failure e))

abbrev pub conclude : World → ℕ → Str → ℕ → Cache × Outcome → World
conclude w i url id (cache, outcome) = record w {
  cache = cache;
  callers = set w.callers i (dropping url id (some outcome));
}

-- `Leader::drop` removes the entry of its URL, then ends the fetch and wakes who waits for it.
unfoldable pub remove_entry : World → ℕ → Str → ℕ → Option Outcome → World
remove_entry w i url id outcome = record w {
  cache = record w.cache { in_flight = delete w.cache.in_flight url };
  callers = set w.callers i (removed id outcome);
}

abbrev pub wake : Caller → Caller
wake (pending url is_recent id) = polling url is_recent id
wake caller = caller

abbrev pub ended : Option Outcome → Caller
ended none = idle
ended (some outcome) = done (map_err into_error outcome)

abbrev pub wake_all : List ℕ → (ℕ → Caller) → ℕ → Caller
wake_all wakers callers j = if any (λ i. i == j) wakers then wake (callers j) else callers j

unfoldable pub end_flight : World → ℕ → ℕ → Option Outcome → World
end_flight w i id outcome = record w {
  flights = set w.flights id (record { finished = true; outcome = outcome; wakers = [] });
  callers = wake_all (w.flights id).wakers (set w.callers i (ended outcome));
}
