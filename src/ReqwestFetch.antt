-- ===== src/ReqwestFetch.antt =====
-- reqwest_fetch.rs: the built in transport, over the crate reqwest.
pub mod Unanswered
use owid_rust.Prelude.{ℕ, Result, ok, err, map_err}
use owid_rust.Text.{Str}
use owid_rust.Error.{Error}
use owid_rust.Fetch.Request.{FetchResponse}
use owid_rust.Fetch.Sole.{Transport}

-- The calls of reqwest. The state is that of the network: `send` is `get(url).send()`, and `text`
-- reads the body to its end.
pub record Reqwest : Type 1 where
  pub State : Type 0
  pub Policy : Type 0
  pub Client : Type 0
  pub Response : Type 0
  pub Failure : Type 0
  pub no_redirect : Policy  -- `Policy::none()`
  pub build : (redirect : Policy) → (timeout_seconds : ℕ) → Result Client Failure
  pub send : Client → State → Str → Result Response Failure × State
  pub status : Response → ℕ
  pub text : Response → State → Result Str Failure × State
  pub error_text : Failure → Str  -- `to_string`

abbrev pub key_fetch_timeout_seconds : ℕ
key_fetch_timeout_seconds = 10

module _ (q : Reqwest) where
  abbrev pub http_failure : q.Failure → Error
  http_failure e = Error.http (q.error_text e)

  unfoldable pub new : Result q.Client Error
  new = map_err http_failure (q.build q.no_redirect key_fetch_timeout_seconds)

  abbrev pub with_status : ℕ → Result Str q.Failure × q.State → Result FetchResponse Error × q.State
  with_status status (ok body, state) = (ok (record { status = status; body = body }), state)
  with_status status (err e, state) = (err (http_failure e), state)

  abbrev pub read_text :
      Result q.Response q.Failure × q.State → Result FetchResponse Error × q.State
  read_text (err e, state) = (err (http_failure e), state)
  read_text (ok response, state) = with_status (q.status response) (q.text response state)

  unfoldable pub fetch : q.Client → q.State → Str → Result FetchResponse Error × q.State
  fetch client state url = read_text (q.send client state url)

  abbrev pub reqwest_fetch : q.Client → Transport
  reqwest_fetch client = record { State = q.State; fetch = fetch client }
