-- ===== src/Tests/Transport.antt =====
-- The built in transport, over a network that answers every URL with a redirect.
use owid_rust.Prelude.{ℕ, suc, ◌≡◌, ◌≢◌, refl, ap, none, Result, ok, err, arith}
use owid_rust.Text.{Str, text}
use owid_rust.Error.{Error}
use owid_rust.Status.{key_unavailable}
use owid_rust.Fetch.Request.{FetchResponse}
use owid_rust.Fetch.Url.{public_key_url}
use owid_rust.Fetch.Verify.{verify_status}
use owid_rust.Fetch.Sole.{creators}
use owid_rust.ReqwestFetch.{Reqwest, reqwest_fetch, fetch}
use owid_rust.ReqwestFetch.Unanswered.{verify_status-unanswered}
use owid_rust.Tests.Sample.{machine, clock}
use owid_rust.Tests.Signing.{toy, created}
use owid_rust.Tests.Answers.{written_moments}
use owid_rust.Tests.Journey.{empty_cache, nothing_held}

-- The state counts the requests.
abbrev elsewhere : Reqwest
elsewhere = record {
  State = ℕ;
  Policy = Unit;
  Client = Unit;
  Response = ℕ;
  Failure = Unit;
  no_redirect = tt;
  build = λ redirect timeout. ok tt;
  send = λ client requests url. (ok 301, suc requests);
  status = λ response. response;
  text = λ response requests. (ok (text "moved"), requests);
  error_text = λ failure. text "failed";
}

abbrev status_of : Result FetchResponse Error → ℕ
status_of (ok response) = response.status
status_of (err e) = 200

redirects :
    (url body : Str) → (fetch elsewhere tt 0 url).0 ≢ ok (record { status = 200; body = body })
unfolding fetch
redirects url body e =
    let same_status : status_of (fetch elsewhere tt 0 url).0 ≡ 200 = ap status_of e in ground arith

verify_status-unanswered_example :
    verify_status machine clock toy
      (creators toy written_moments (reqwest_fetch elsewhere tt) none)
      created
      (empty_cache, 0)
      (text "https")
    ≡ (
      key_unavailable,
      (empty_cache, (fetch elsewhere tt 0 (public_key_url created (text "https"))).1),
    )
verify_status-unanswered_example =
    verify_status-unanswered toy written_moments elsewhere tt machine created none empty_cache 0
      (text "https") (nothing_held _ _ _) (redirects (public_key_url created (text "https")))

-- One request was made.
one_request : (fetch elsewhere tt 0 (public_key_url created (text "https"))).1 ≡ 1
unfolding fetch
one_request = refl
