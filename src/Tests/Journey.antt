-- ===== src/Tests/Journey.antt =====
-- An OWID from its creator to its client, and a caller alone: the theorems at the toy creator.
use owid_rust.Prelude.{
  ℕ, ◌≡◌, refl, List, [], ◌∷◌, Option, none, some, true, ◌+◌, Bool, Result, ok, err, arith,
}
use owid_rust.Text.{Str, text}
use owid_rust.Error.{Error}
use owid_rust.Version.{version3}
use owid_rust.Status.{valid}
use owid_rust.Envelope.{envelope}
use owid_rust.Reading.{from_byte_array}
use owid_rust.Reading.RoundTrip.{cut_date}
use owid_rust.Crypto.{from_verifying_key, subject_public_key_info}
use owid_rust.Schedule.{DatedPublicKey, new, next_start_after}
use owid_rust.Answer
use owid_rust.Answer.{spki_format}
use owid_rust.Text.Decimal.{decimal}
use owid_rust.Schedule.Choice.{latest}
use owid_rust.Endpoints.Moment.{moment_of, public_key_response_at-decimal}
use owid_rust.Answer.Write.{to_json}
use owid_rust.Endpoints.{serves_format, public_key_response_at}
use owid_rust.Endpoints.Served.{answer_for, public_key_response_at_lem}
use owid_rust.Endpoints.Taken.{IsTaken, request_public_key-public_key_response_at}
use owid_rust.Fetch.Cache.{Cache, held_for}
use owid_rust.Fetch.Request.{Stated}
use owid_rust.Fetch.Verify.{verify_status}
use owid_rust.Fetch.Flight.{Caller, held_answer}
use owid_rust.Fetch.Flight.Run.{start, turn, respond, remove, finish, run, initial}
use owid_rust.Fetch.Sole.{Transport, creators, sole_key_at_url}
use owid_rust.Fetch.Sole.Alone.{run-alone}
use owid_rust.Fetch.Sole.Journey.{verify_status-received}
use owid_rust.Endpoints.{asked_about, not_empty}
use owid_rust.Tests.Sample.{machine, clock, clock-IsChrono}
use owid_rust.Tests.Signing.{toy, toy-IsP256, creator, created, now, made, sent}
use owid_rust.Tests.Answers.{written_moments, readable}

abbrev only_key : DatedPublicKey clock
only_key = record { starts_at = 10; public_key_pem = 65 ∷ 3 ∷ [] }

abbrev schedule : List (DatedPublicKey clock)
schedule = only_key ∷ []

abbrev body : Str
body =
    to_json written_moments
      (Answer.new clock (65 ∷ 3 ∷ []) (some 10) (next_start_after (new schedule) only_key))

served :
    public_key_response_at toy clock written_moments (new schedule) none none now ≡ ok (200, body)
unfolding serves_format
served =
    public_key_response_at_lem clock-IsChrono toy written_moments schedule none none now
      ((from_verifying_key toy 3, readable 3), tt)

request_public_key-public_key_response_at_example :
    IsTaken clock-IsChrono toy written_moments schedule
      (text "u")
      (asked_about toy clock written_moments (not_empty none) now)
      body
request_public_key-public_key_response_at_example =
    request_public_key-public_key_response_at clock-IsChrono toy written_moments schedule none none
      now (text "u") body ((from_verifying_key toy 3, readable 3), tt) (refl, tt) served

-- A transport that hands back the one answer to every URL.
abbrev pub transport : Transport
transport = record { State = Unit; fetch = λ s url. (ok (record { status = 200; body = body }), s) }

abbrev pub empty_cache : Cache
empty_cache = record { keys = []; held = 0; in_flight = [] }

pub nothing_held :
    (url : Str) (minute : Option ℕ) (is_recent : Bool)
    → held_answer empty_cache url minute is_recent ≡ none
unfolding held_for
nothing_held url none is_recent = refl
nothing_held url (some minute) is_recent = refl

verify_status-received_example :
    (from_byte_array machine clock (envelope created 5) ≡ ok (cut_date created))
    × ((verify_status machine clock toy
          (creators toy written_moments transport none)
          (cut_date created)
          (empty_cache, tt)
          (text "https")).0
        ≡ valid)
unfolding subject_public_key_info
verify_status-received_example =
    verify_status-received clock-IsChrono toy written_moments transport machine toy-IsP256 creator
      now version3 (1 ∷ 2 ∷ []) created (envelope created 5) schedule none none now now only_key
      body none empty_cache tt (text "https") (omega arith) (λ key h. cc) (omega arith) refl made
      sent ((from_verifying_key toy 3, readable 3), tt) (refl, tt) refl refl refl served refl
      (nothing_held _ _ _)

abbrev refusal : Result Stated Error
refusal = err (Error.http (text "down"))

run-alone_example :
    let later =
      run
        (start 0 none (text "u") ∷ turn 0 ∷ respond 0 none refusal ∷ remove 0 ∷ finish 0 ∷ [])
        initial in
    let (answer, cache) = sole_key_at_url none initial.cache (text "u") refusal in
    (later.callers 0 ≡ Caller.done answer) × (later.cache ≡ cache)
run-alone_example = run-alone initial 0 none (text "u") refusal refl refl

abbrev minute_five : ℕ
minute_five = moment_of clock-IsChrono toy written_moments 5 now

public_key_response_at-decimal_example :
    (public_key_response_at toy clock written_moments
        (new schedule)
        (some spki_format)
        (some (decimal 5))
        now
      ≡ ok (
          answer_for clock-IsChrono toy written_moments schedule
            (latest clock-IsChrono minute_five schedule)))
    × (clock.before minute_five (1577836800 + 300) ≡ true)
    × (clock.before minute_five now ≡ true)
public_key_response_at-decimal_example =
    public_key_response_at-decimal clock-IsChrono toy written_moments schedule 5 now (omega arith)
      ((from_verifying_key toy 3, readable 3), tt)
