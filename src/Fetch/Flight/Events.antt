-- ===== src/Fetch/Flight/Events.antt =====
-- What an event does, by where its caller stands: to prove a property of the world that it leads to
-- is to prove it where the event fits, the property holding before.
use owid_rust.Prelude.{ℕ, ◌≡◌, Bool, Option, none, Result}
use owid_rust.Text.{Str}
use owid_rust.Error.{Error}
use owid_rust.Fetch.Url.{minute_of}
use owid_rust.Fetch.Request.{Stated}
use owid_rust.Fetch.Flight.{
  Outcome, Caller, World, asking, polling, pending, leading, dropping, removed, ask, poll_finished,
  conclude, outcome_of, remove_entry, end_flight, is_recent_url,
}
use owid_rust.Fetch.Flight.Run.{
  on_start, on_turn, on_poll, on_respond, on_drop_leader, on_drop_waiter, on_remove, on_finish,
}
use owid_rust.Fetch.Flight.Waiting.{moved}

pub on_start-P :
    (P : World → Type 0) (w : World) (i : ℕ) (clock : Option ℕ) (url : Str) (caller : Caller)
    → w.callers i ≡ caller
    → P w
    → (w.callers i ≡ Caller.idle
        → P (moved w w.cache i (asking url (is_recent_url clock (minute_of url)))))
    → P (on_start w i clock url caller)
on_start-P P w i clock url Caller.idle at p h = h at
on_start-P P w i clock url (asking u r) at p h = p
on_start-P P w i clock url (polling u r id) at p h = p
on_start-P P w i clock url (pending u r id) at p h = p
on_start-P P w i clock url (leading u r id) at p h = p
on_start-P P w i clock url (dropping u id o) at p h = p
on_start-P P w i clock url (removed id o) at p h = p
on_start-P P w i clock url (Caller.done o) at p h = p

pub on_turn-P :
    (P : World → Type 0) (w : World) (i : ℕ) (caller : Caller)
    → w.callers i ≡ caller
    → P w
    → ((url : Str) (is_recent : Bool)
        → w.callers i ≡ asking url is_recent
        → P (ask w i url is_recent))
    → P (on_turn w i caller)
on_turn-P P w i Caller.idle at p h = p
on_turn-P P w i (asking u r) at p h = h u r at
on_turn-P P w i (polling u r id) at p h = p
on_turn-P P w i (pending u r id) at p h = p
on_turn-P P w i (leading u r id) at p h = p
on_turn-P P w i (dropping u id o) at p h = p
on_turn-P P w i (removed id o) at p h = p
on_turn-P P w i (Caller.done o) at p h = p

pub on_poll-P :
    (P : World → Type 0) (w : World) (i : ℕ) (caller : Caller)
    → w.callers i ≡ caller
    → P w
    → ((url : Str) (is_recent : Bool) (id : ℕ)
        → w.callers i ≡ polling url is_recent id
        → P (poll_finished w i url is_recent id))
    → ((url : Str) (is_recent : Bool) (id : ℕ)
        → w.callers i ≡ pending url is_recent id
        → P (poll_finished w i url is_recent id))
    → P (on_poll w i caller)
on_poll-P P w i Caller.idle at p h h1 = p
on_poll-P P w i (asking u r) at p h h1 = p
on_poll-P P w i (polling u r id) at p h h1 = h u r id at
on_poll-P P w i (pending u r id) at p h h1 = h1 u r id at
on_poll-P P w i (leading u r id) at p h h1 = p
on_poll-P P w i (dropping u id o) at p h h1 = p
on_poll-P P w i (removed id o) at p h h1 = p
on_poll-P P w i (Caller.done o) at p h h1 = p

pub on_respond-P :
    (P : World → Type 0) (w : World) (i : ℕ) (clock : Option ℕ) (response : Result Stated Error)
    (caller : Caller)
    → w.callers i ≡ caller
    → P w
    → ((url : Str) (is_recent : Bool) (id : ℕ)
        → w.callers i ≡ leading url is_recent id
        → P (conclude w i url id (outcome_of clock w.cache url is_recent response)))
    → P (on_respond w i clock response caller)
on_respond-P P w i clock response Caller.idle at p h = p
on_respond-P P w i clock response (asking u r) at p h = p
on_respond-P P w i clock response (polling u r id) at p h = p
on_respond-P P w i clock response (pending u r id) at p h = p
on_respond-P P w i clock response (leading u r id) at p h = h u r id at
on_respond-P P w i clock response (dropping u id o) at p h = p
on_respond-P P w i clock response (removed id o) at p h = p
on_respond-P P w i clock response (Caller.done o) at p h = p

pub on_drop_leader-P :
    (P : World → Type 0) (w : World) (i : ℕ) (caller : Caller)
    → w.callers i ≡ caller
    → P w
    → ((url : Str) (is_recent : Bool) (id : ℕ)
        → w.callers i ≡ leading url is_recent id
        → P (moved w w.cache i (dropping url id none)))
    → P (on_drop_leader w i caller)
on_drop_leader-P P w i Caller.idle at p h = p
on_drop_leader-P P w i (asking u r) at p h = p
on_drop_leader-P P w i (polling u r id) at p h = p
on_drop_leader-P P w i (pending u r id) at p h = p
on_drop_leader-P P w i (leading u r id) at p h = h u r id at
on_drop_leader-P P w i (dropping u id o) at p h = p
on_drop_leader-P P w i (removed id o) at p h = p
on_drop_leader-P P w i (Caller.done o) at p h = p

pub on_drop_waiter-P :
    (P : World → Type 0) (w : World) (i : ℕ) (caller : Caller)
    → w.callers i ≡ caller
    → P w
    → ((url : Str) (is_recent : Bool) (id : ℕ)
        → w.callers i ≡ polling url is_recent id
        → P (moved w w.cache i Caller.idle))
    → ((url : Str) (is_recent : Bool) (id : ℕ)
        → w.callers i ≡ pending url is_recent id
        → P (moved w w.cache i Caller.idle))
    → P (on_drop_waiter w i caller)
on_drop_waiter-P P w i Caller.idle at p h h1 = p
on_drop_waiter-P P w i (asking u r) at p h h1 = p
on_drop_waiter-P P w i (polling u r id) at p h h1 = h u r id at
on_drop_waiter-P P w i (pending u r id) at p h h1 = h1 u r id at
on_drop_waiter-P P w i (leading u r id) at p h h1 = p
on_drop_waiter-P P w i (dropping u id o) at p h h1 = p
on_drop_waiter-P P w i (removed id o) at p h h1 = p
on_drop_waiter-P P w i (Caller.done o) at p h h1 = p

pub on_remove-P :
    (P : World → Type 0) (w : World) (i : ℕ) (caller : Caller)
    → w.callers i ≡ caller
    → P w
    → ((url : Str) (id : ℕ) (outcome : Option Outcome)
        → w.callers i ≡ dropping url id outcome
        → P (remove_entry w i url id outcome))
    → P (on_remove w i caller)
on_remove-P P w i Caller.idle at p h = p
on_remove-P P w i (asking u r) at p h = p
on_remove-P P w i (polling u r id) at p h = p
on_remove-P P w i (pending u r id) at p h = p
on_remove-P P w i (leading u r id) at p h = p
on_remove-P P w i (dropping u id o) at p h = h u id o at
on_remove-P P w i (removed id o) at p h = p
on_remove-P P w i (Caller.done o) at p h = p

pub on_finish-P :
    (P : World → Type 0) (w : World) (i : ℕ) (caller : Caller)
    → w.callers i ≡ caller
    → P w
    → ((id : ℕ) (outcome : Option Outcome)
        → w.callers i ≡ removed id outcome
        → P (end_flight w i id outcome))
    → P (on_finish w i caller)
on_finish-P P w i Caller.idle at p h = p
on_finish-P P w i (asking u r) at p h = p
on_finish-P P w i (polling u r id) at p h = p
on_finish-P P w i (pending u r id) at p h = p
on_finish-P P w i (leading u r id) at p h = p
on_finish-P P w i (dropping u id o) at p h = p
on_finish-P P w i (removed id o) at p h = h id o at
on_finish-P P w i (Caller.done o) at p h = p
