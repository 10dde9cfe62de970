-- ===== src/ReqwestFetch/Unanswered.antt =====
-- What the check of an OWID comes to where the creator's key cannot be had.
use owid_rust.Prelude.{
  ℕ, ◌≡◌, ◌≢◌, refl, ap, ◌∙◌, false, Option, none, Result, ok, err, ltb, leb, ◌==◌, ◌&&◌, ==_iff,
  Bool-cases, inl, inr,
}
use owid_rust.Text.{Str}
use owid_rust.Platform.{Machine, Chrono, P256, Rfc3339}
use owid_rust.Error.{Error}
use owid_rust.Status.{key_unavailable, of}
use owid_rust.Owid.{Owid}
use owid_rust.Fetch.Cache.{Cache}
use owid_rust.Fetch.Url.{minute_of, public_key_url}
use owid_rust.Fetch.Request.{FetchResponse, read_response, request_public_key, redirected, refused}
use owid_rust.Fetch.Verify.{verify_status, verify, verify_at_url}
use owid_rust.Fetch.Flight.{is_recent_url, held_answer, outcome_of, into_error}
use owid_rust.Fetch.Sole.{creators, sole_key_at_url}
use owid_rust.ReqwestFetch.{Reqwest, with_status, read_text, fetch, reqwest_fetch}

-- The error is one of the transport.
abbrev IsHttp : Error → Type 0
IsHttp e = (message : Str) × (e ≡ Error.http message)

module _ (q : Reqwest) where
  with_status-IsHttp :
      (status : ℕ) (got : Result Str q.Failure × q.State) (e : Error)
      → (with_status q status got).0 ≡ err e
      → IsHttp e
  with_status-IsHttp status (ok body, state) e h = cc
  with_status-IsHttp status (err failure, state) e h = (q.error_text failure, cc)

  read_text-IsHttp :
      (got : Result q.Response q.Failure × q.State) (e : Error)
      → (read_text q got).0 ≡ err e
      → IsHttp e
  read_text-IsHttp (err failure, state) e h = (q.error_text failure, cc)
  read_text-IsHttp (ok response, state) e h =
      with_status-IsHttp (q.status response) (q.text response state) e h

  fetch-IsHttp :
      (client : q.Client) (state : q.State) (url : Str) (e : Error)
      → (fetch q client state url).0 ≡ err e
      → IsHttp e
  unfolding fetch
  fetch-IsHttp client state url e h = read_text-IsHttp (q.send client state url) e h

module _ (p : P256) {c : Chrono} (r : Rfc3339 c) where
  -- A response of another status than 200 gives no key.
  read_response-IsHttp :
      (url : Str) (response : FetchResponse)
      → (response.status == 200) ≡ false
      → (e : Error) × IsHttp e × (read_response p r url response ≡ err e)
  unfolding read_response
  read_response-IsHttp url response other =
      elim (Bool-cases (leb 300 response.status && ltb response.status 400)) [
        | inl e ↦ (redirected response.status url, (_, refl), simp e)
        | inr e ↦ (refused response.status url, (_, refl), simp (e, other))
      ]

  request_public_key-IsHttp :
      (url : Str) (fetched : Result FetchResponse Error)
      → ((e : Error) → fetched ≡ err e → IsHttp e)
      → ((body : Str) → fetched ≢ ok (record { status = 200; body = body }))
      → (message : Str) × (request_public_key p r url fetched ≡ err (Error.http message))
  unfolding request_public_key
  request_public_key-IsHttp url (err e) http unanswered =
      let (message, is) = http e refl in (message, ap (λ x. err x) is)
  request_public_key-IsHttp url (ok response) http unanswered =
      elim (Bool-cases (response.status == 200)) [
        | inl e ↦ absurd (
            unanswered response.body (
              ap (λ status. ok (record { status = status; body = response.body }))
                ((==_iff response.status 200).0 e)))
        | inr e ↦
            let (error, (message, is), refusal) = read_response-IsHttp url response e in
            (message, refusal ∙ ap (λ x. err x) is)
      ]

  -- A creator whose key cannot be had makes the check say so: over the built in transport, where the
  -- cache has no answer for the OWID's URL and the one request for it is answered in no other way
  -- than with a 200 whose body can be read, be it that the request failed, that a redirect or another
  -- status came back or that the body could not be read, the OWID is reported as key unavailable,
  -- and neither the cache nor the network has changed but by that one request.
  pub verify_status-unanswered :
      (q : Reqwest) (client : q.Client) (m : Machine) (owid : Owid c) (clock : Option ℕ)
      (cache : Cache) (state : q.State) (scheme : Str)
      → held_answer cache
          (public_key_url owid scheme)
          (minute_of (public_key_url owid scheme))
          (is_recent_url clock (minute_of (public_key_url owid scheme)))
        ≡ none
      → ((body : Str)
          → (fetch q client state (public_key_url owid scheme)).0
            ≢ ok (record { status = 200; body = body }))
      → verify_status m c p (creators p r (reqwest_fetch q client) clock) owid (cache, state) scheme
        ≡ (key_unavailable, (cache, (fetch q client state (public_key_url owid scheme)).1))
  unfolding verify_status verify verify_at_url of sole_key_at_url outcome_of into_error
  verify_status-unanswered q client m owid clock cache state scheme empty unanswered =
      let url = public_key_url owid scheme in
      let (message, refusal) =
        request_public_key-IsHttp url (fetch q client state url).0 (fetch-IsHttp q client state url)
          unanswered in
      rw empty (rw empty (rw refusal refl))
