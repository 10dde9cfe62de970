-- ===== src/Fetch/Request/Accepted.antt =====
-- When a key is taken from an answer.
use owid_rust.Prelude.{◌≡◌, ◌↔◌, refl, sym, ◌∙◌, none, Result, ok, ok_unique, >>=-eq-ok, arith}
use owid_rust.Text.{Str}
use owid_rust.Platform.{Chrono, P256, Rfc3339}
use owid_rust.Error.{Error}
use owid_rust.Answer.{PublicKeyAnswer, validate}
use owid_rust.Answer.Json.{parse}
use owid_rust.Fetch.Request.{
  FetchResponse, Stated, stated_in, read_body, read_response, request_public_key,
}

module _ (p : P256) {c : Chrono} (r : Rfc3339 c) where
  -- What an answer has to be for its key to be taken.
  abbrev pub IsAccepted : Result FetchResponse Error → Stated → Type 0
  IsAccepted fetched stated =
      (response : FetchResponse) × (answer : PublicKeyAnswer c) × (fetched ≡ ok response)
      × (response.status ≡ 200)
      × (parse r response.body ≡ ok answer)
      × (validate p answer none ≡ ok tt)
      × (stated ≡ stated_in p r answer)

  read_200 :
      (url : Str) (response : FetchResponse) (stated : Stated)
      → read_response p r url response ≡ ok stated
      → response.status ≡ 200
  unfolding read_response
  read_200 url response stated h = ground arith

  read_response_200 :
      (url : Str) (response : FetchResponse)
      → response.status ≡ 200
      → read_response p r url response ≡ read_body p r response.body
  unfolding read_response
  read_response_200 url response h = simp h refl

  -- A key is taken from an answer exactly where the transport handed back a 200 with the JSON of an
  -- answer that passes the check: no redirect, no other status and no other body gives a key.
  pub request_public_key_iff :
      (url : Str) (fetched : Result FetchResponse Error) (stated : Stated)
      → (request_public_key p r url fetched ≡ ok stated) ↔ IsAccepted fetched stated
  unfolding request_public_key read_response
  request_public_key_iff url fetched stated = (
    λ h.
        let (response, got, h1) = >>=-eq-ok fetched _ h in
        let is_200 = read_200 url response stated h1 in
        let (answer, parsed, h2) =
          >>=-eq-ok (parse r response.body) _ (sym (read_response_200 url response is_200) ∙ h1) in
        let (checked, valid, h3) = >>=-eq-ok (validate p answer none) _ h2 in
        let same : stated ≡ stated_in p r answer = ok_unique refl (sym h3) in
        (response, answer, got, is_200, parsed, valid, same),
    λ (response, answer, got, is_200, parsed, valid, same).
        rw got (read_response_200 url response is_200 ∙ rw (parsed, valid, same) refl),
  )
