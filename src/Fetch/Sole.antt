-- ===== src/Fetch/Sole.antt =====
-- fetch.rs: `key_at_url` where no other caller is under way, over a transport that passes its state
-- on. It is what the check of an OWID takes the keys from.
pub mod Alone
pub mod Journey
use owid_rust.Prelude.{ℕ, Bool, Option, none, some, Result, ok, map_err}
use owid_rust.Text.{Str}
use owid_rust.Platform.{Chrono, P256, Rfc3339}
use owid_rust.Error.{Error}
use owid_rust.Fetch.{KeyAnswer}
use owid_rust.Fetch.Cache.{Cache}
use owid_rust.Fetch.Url.{minute_of}
use owid_rust.Fetch.Request.{FetchResponse, Stated, request_public_key}
use owid_rust.Fetch.Verify.{Creators}
use owid_rust.Fetch.Flight.{Outcome, into_error, is_recent_url, held_answer, outcome_of}

-- `PublicKeyFetch`.
pub record Transport : Type 1 where
  pub State : Type 0
  pub fetch : State → Str → Result FetchResponse Error × State

abbrev pub returned : Cache × Outcome → Result KeyAnswer Error × Cache
returned (cache, outcome) = (map_err into_error outcome, cache)

-- The answer held, or what the request comes to.
abbrev pub held_or_requested :
    Option ℕ
    → Cache
    → Str
    → Bool
    → Result Stated Error
    → Option KeyAnswer
    → Result KeyAnswer Error × Cache
held_or_requested clock cache url is_recent response (some answer) = (ok answer, cache)
held_or_requested clock cache url is_recent response none =
    returned (outcome_of clock cache url is_recent response)

-- `response` is what the request would come to; where a held key covers the minute it is not made.
unfoldable pub sole_key_at_url :
    Option ℕ → Cache → Str → Result Stated Error → Result KeyAnswer Error × Cache
sole_key_at_url clock cache url response =
    let is_recent = is_recent_url clock (minute_of url) in
    held_or_requested clock cache url is_recent response
      (held_answer cache url (minute_of url) is_recent)

module _ (p : P256) {c : Chrono} (r : Rfc3339 c) (t : Transport) where
  abbrev pub after_request :
      Option ℕ
      → Cache
      → Str
      → Option KeyAnswer
      → t.State
      → Result FetchResponse Error × t.State
      → Result KeyAnswer Error × (Cache × t.State)
  after_request clock cache url (some answer) state fetched = (ok answer, (cache, state))
  after_request clock cache url none state (fetched, next) =
      let (answer, later) = sole_key_at_url clock cache url (request_public_key p r url fetched) in
      (answer, (later, next))

  -- The creators as a client sees them through its cache, at one minute of the clock.
  abbrev pub creators : Option ℕ → Creators
  creators clock = record {
    State = Cache × t.State;
    key_at_url = λ (cache, state) url.
        after_request clock cache url
          (held_answer cache url (minute_of url) (is_recent_url clock (minute_of url))) state
          (t.fetch state url);
  }
