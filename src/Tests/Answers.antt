-- ===== src/Tests/Answers.antt =====
-- The answer to a request for a key, at a schedule of two keys.
use owid_rust.Prelude.{
  ℕ, ◌≡◌, ◌≢◌, ◌↔◌, refl, List, [], ◌∷◌, Option, none, some, ok, err, Result, arith,
}
use owid_rust.Text.{Str, text, is_whitespace}
use owid_rust.Platform.{Rfc3339}
use owid_rust.Crypto.{new_verify_only, from_verifying_key}
use owid_rust.Schedule.{DatedPublicKey, new}
use owid_rust.Answer
use owid_rust.Answer.{PublicKeyAnswer, validate}
use owid_rust.Answer.Json.{parse, read_fields, read_flat_object, not_json}
use owid_rust.Answer.Json.Indexed.{
  walk_flat_object, walk_space, walk_fields, walk_field, walk_string, walk_chars, walk_value,
}
use owid_rust.Answer.Json.Indexed.Steps.{IsVec}
use owid_rust.Answer.Json.Indexed.Safe.{walk_flat_object_lem}
use owid_rust.Panics.{returns}
use owid_rust.Answer.Write.{to_json}
use owid_rust.Answer.Json.RoundTrip.{parse-to_json}
use owid_rust.Answer.Json.Rounds.{read_fields-ne-none}
use owid_rust.Endpoints.{public_key_response_at, serves_format}
use owid_rust.Endpoints.Served.{public_key_response_at_lem}
use owid_rust.Fetch.Request.{FetchResponse, read_response, request_public_key}
use owid_rust.Text.Decimal.{digits_onto}
use owid_rust.Io.{minutes_since_base}
use owid_rust.Fetch.Request.Accepted.{request_public_key_iff, IsAccepted}
use owid_rust.Error.{Error}
use owid_rust.Tests.Sample.{machine, clock, clock-IsChrono}
use owid_rust.Tests.Signing.{toy}

abbrev first_key : DatedPublicKey clock
first_key = record { starts_at = 10; public_key_pem = 65 ∷ 3 ∷ [] }

abbrev two_keys : List (DatedPublicKey clock)
two_keys = record { starts_at = 20; public_key_pem = 65 ∷ 4 ∷ [] } ∷ first_key ∷ []

-- At the moment the key ends, it has ended.
ended :
    validate toy (Answer.new clock (65 ∷ 3 ∷ []) (some 10) (some 20)) (some 20)
    ≡ err (
        Error.key
          (text "the public key answer states a key that had ended at the moment asked about"))
unfolding validate Answer.new new_verify_only is_whitespace
ended = refl

-- The text of a moment is one character, its number.
abbrev read_moment : Str → Option ℕ
read_moment (moment ∷ []) = some moment
read_moment _ = none

abbrev pub written_moments : Rfc3339 clock
written_moments = record { to_rfc3339 = λ moment. moment ∷ []; parse_from_rfc3339 = read_moment }

-- A key of characters that are escaped, from moment 40 on.
abbrev dated : PublicKeyAnswer clock
dated = record {
  format = text "spki";
  public_key = 34 ∷ 92 ∷ 10 ∷ 65 ∷ [];
  valid_from = some 40;
  valid_to = none;
}

parse-to_json_example : parse written_moments (to_json written_moments dated) ≡ ok dated
parse-to_json_example = parse-to_json written_moments dated (some 40) none (40, refl, refl) refl

-- An answer of one field, with an escape, and one that breaks off in the escape.
abbrev escaped_answer : Str
escaped_answer = text "{\"a\" : \"\\u0041\"}"

abbrev broken_answer : Str
broken_answer = text "{\"a\":\"\\u00"

escaped_answer-IsVec : IsVec machine escaped_answer
escaped_answer-IsVec = record { width = omega arith; held = omega arith }

walk_flat_object_lem_example :
    walk_flat_object machine escaped_answer ≡ returns (read_flat_object escaped_answer)
walk_flat_object_lem_example = walk_flat_object_lem machine escaped_answer escaped_answer-IsVec

escaped_answer_read : read_flat_object escaped_answer ≡ ok ((97 ∷ [], some (65 ∷ [])) ∷ [])
unfolding read_flat_object is_whitespace
escaped_answer_read = refl

broken_answer_walk : walk_flat_object machine broken_answer ≡ returns (err not_json)
unfolding walk_flat_object walk_space is_whitespace walk_fields walk_field walk_string walk_chars
    walk_value
broken_answer_walk = refl

read_fields-ne-none_example : read_fields 6 (text "\"a\"xx") ≢ none
read_fields-ne-none_example = read_fields-ne-none 6 (text "\"a\"xx") (omega arith)

pub readable : (k : ℕ) → new_verify_only toy (65 ∷ k ∷ []) ≡ ok (from_verifying_key toy k)
unfolding new_verify_only is_whitespace
readable k = refl

public_key_response_at_lem_example :
    public_key_response_at toy clock written_moments (new two_keys) (some (text "pkcs")) none 15
    ≡ ok (400, [])
unfolding serves_format
public_key_response_at_lem_example =
    public_key_response_at_lem clock-IsChrono toy written_moments two_keys (some (text "pkcs")) none
      15 ((from_verifying_key toy 4, readable 4), ((from_verifying_key toy 3, readable 3), tt))

-- A 200 with the answer about the first key.
abbrev first_answer : PublicKeyAnswer clock
first_answer = record {
  format = text "spki";
  public_key = 65 ∷ 3 ∷ [];
  valid_from = some 1577836860;
  valid_to = none;
}

abbrev fetched : Result FetchResponse Error
fetched = ok (record { status = 200; body = to_json written_moments first_answer })

request_public_key_iff_example :
    (request_public_key toy written_moments (text "u") fetched ≡ ok (65 ∷ 3 ∷ [], some 1, none))
    ↔ IsAccepted toy written_moments fetched (65 ∷ 3 ∷ [], some 1, none)
request_public_key_iff_example =
    request_public_key_iff toy written_moments (text "u") fetched (65 ∷ 3 ∷ [], some 1, none)

taken : request_public_key toy written_moments (text "u") fetched ≡ ok (65 ∷ 3 ∷ [], some 1, none)
unfolding validate new_verify_only is_whitespace minutes_since_base
taken = request_public_key_iff_example.1 (
  record { status = 200; body = to_json written_moments first_answer },
  first_answer,
  refl,
  refl,
  parse-to_json written_moments first_answer (some 1577836860) none (1577836860, refl, refl) refl,
  refl,
  refl,
)

redirect_refused :
    request_public_key toy written_moments (text "u") (ok (record { status = 301; body = [] }))
    ≡ err (
        Error.http (
          text "the public key end point answered a redirect (301) for u, which is never followed"))
unfolding request_public_key read_response digits_onto
redirect_refused = refl
