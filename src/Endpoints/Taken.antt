-- ===== src/Endpoints/Taken.antt =====
-- A creator and its client: what the client takes from the answer that the creator sends.
use owid_rust.Prelude.{
  ℕ, ◌≡◌, refl, ◌∙◌, ap, subst, List, [], ◌∷◌, true, Option, none, some, Result, ok, err, ok_unique,
  All, inl, inr, Bool-cases, Option-cases, arith, ltb,
}
use owid_rust.Text.{Str}
use owid_rust.Platform.{Chrono, IsChrono, P256, Rfc3339}
use owid_rust.Error.{Error}
use owid_rust.Crypto.{new_verify_only}
use owid_rust.Schedule.{DatedPublicKey, insert, sort_by_key, new, next_start_after}
use owid_rust.Schedule.Choice.{latest}
use owid_rust.Schedule.InForce.{key_in_force-new}
use owid_rust.Schedule.Until.{All-map}
use owid_rust.Answer
use owid_rust.Answer.{PublicKeyAnswer, validate, ◌>>◌, check_key, check_order, check_asked}
use owid_rust.Answer.Write.{to_json}
use owid_rust.Answer.Json.RoundTrip.{IsRead, parse-to_json}
use owid_rust.Answer.Scheduled.{validate-key_in_force, next_start_after-some}
use owid_rust.Endpoints.{
  serves_format, not_empty, Asked, about, malformed, asked_about, public_key_response_at,
}
use owid_rust.Endpoints.Served.{
  latest-P, IsReadable, answer_for, answer_about, public_key_response_at_lem,
}
use owid_rust.Fetch.Request.{Stated, minute_at, request_public_key}
use owid_rust.Fetch.Request.Accepted.{request_public_key_iff}

unless_last :
    (a b k o last : Result (Unit {0}) Error)
    → (a >> (b >> (k >> (o >> last)))) ≡ ok tt
    → (a >> (b >> (k >> (o >> ok tt)))) ≡ ok tt
unless_last (err e) b k o last h = h
unless_last (ok a) (err e) k o last h = h
unless_last (ok a) (ok b) (err e) o last h = h
unless_last (ok a) (ok b) (ok k) (err e) last h = h
unless_last (ok a) (ok b) (ok k) (ok o) last h = refl

-- An answer that passes the check about a moment passes the one about none.
validate-none :
    (p : P256) {c : Chrono} (answer : PublicKeyAnswer c) (asked : c.DateTime)
    → validate p answer (some asked) ≡ ok tt
    → validate p answer none ≡ ok tt
unfolding validate
validate-none p {c} answer asked e =
    unless_last _ _ (check_key p (new_verify_only p answer.public_key))
      (check_order c answer.valid_from answer.valid_to)
      (check_asked c answer.valid_from answer.valid_to (some asked)) e

other_status : (sent : ℕ × Str) (body : Str) → ltb 200 sent.0 ≡ true → sent ≡ (200, body) → ⊥
other_status sent body above e = let status : sent.0 ≡ 200 = ap (λ x. x.0) e in ground arith

module _ {c : Chrono} (h : IsChrono c) (p : P256) (r : Rfc3339 c) where
  -- The text that is sent of the start of a key is read as that start.
  abbrev pub IsExact : DatedPublicKey c → Type 0
  IsExact key = r.parse_from_rfc3339 (r.to_rfc3339 key.starts_at) ≡ some key.starts_at

  All-insert :
      (P : DatedPublicKey c → Type 0) (key : DatedPublicKey c) (keys : List (DatedPublicKey c))
      → P key
      → All P keys
      → All P (insert key keys)
  All-insert P key [] hk hs = (hk, tt)
  All-insert P key (other ∷ keys) hk (ho, hs) =
      elim (Bool-cases (c.before key.starts_at other.starts_at)) [
        | inl e ↦ rw e (hk, (ho, hs))
        | inr e ↦ rw e (ho, All-insert P key keys hk hs)
      ]

  All-sort_by_key :
      (P : DatedPublicKey c → Type 0) (keys : List (DatedPublicKey c))
      → All P keys
      → All P (sort_by_key keys)
  All-sort_by_key P [] hs = tt
  All-sort_by_key P (key ∷ keys) (hk, hs) =
      All-insert P key (sort_by_key keys) hk (All-sort_by_key P keys hs)

  next_start_after-IsRead :
      (keys : List (DatedPublicKey c)) (key : DatedPublicKey c)
      → All IsExact keys
      → IsRead r (next_start_after (new keys) key) (next_start_after (new keys) key)
  unfolding new
  next_start_after-IsRead keys key exact =
      elim (Option-cases (next_start_after (sort_by_key keys) key)) [
        | inl e ↦ rw e refl
        | inr (next, e) ↦ rw e (
          next,
          next_start_after-some h (λ x. r.parse_from_rfc3339 (r.to_rfc3339 x) ≡ some x)
              (sort_by_key keys) key
              (All-map _ _ (sort_by_key keys) (λ other f later. f)
                (All-sort_by_key IsExact keys exact))
              e,
          refl,
        )
      ]

  abbrev pub stated_of : List (DatedPublicKey c) → DatedPublicKey c → Stated
  stated_of keys key = (
    key.public_key_pem,
    minute_at c (some key.starts_at),
    minute_at c (next_start_after (new keys) key),
  )

  -- What was made of the latest started key is taken as that key and its span.
  request_public_key-answer_for :
      (keys : List (DatedPublicKey c)) (key : DatedPublicKey c) (asked : c.DateTime) (url : Str)
      → All (IsReadable h p r) keys
      → All IsExact keys
      → latest h asked keys ≡ some key
      → request_public_key p r url
          (ok (record { status = 200; body = (answer_for h p r keys (some key)).1 }))
        ≡ ok (stated_of keys key)
  unfolding Answer.new
  request_public_key-answer_for keys key asked url readable exact l =
      let next = next_start_after (new keys) key in
      let answer = Answer.new c key.public_key_pem (some key.starts_at) next in
      let (crypto, reads) = latest-P h (IsReadable h p r) asked keys readable l in
      let valid =
        validate-key_in_force h p keys key asked crypto (key_in_force-new h asked keys ∙ l) reads in
      (request_public_key_iff p r url (ok (record { status = 200; body = to_json r answer }))
          (stated_of keys key)).1
        (
          record { status = 200; body = to_json r answer },
          answer,
          refl,
          refl,
          parse-to_json r answer (some key.starts_at) next
              (key.starts_at, latest-P h IsExact asked keys exact l, refl)
              (next_start_after-IsRead keys key exact),
          validate-none p answer asked valid,
          refl,
        )

  -- What a client makes of a 200 that was sent about a moment.
  abbrev pub IsTaken : List (DatedPublicKey c) → Str → Asked c → Str → Type 0
  IsTaken keys url question body =
      (asked : c.DateTime) × (key : DatedPublicKey c) × (question ≡ about asked)
      × (latest h asked keys ≡ some key)
      × (request_public_key p r url (ok (record { status = 200; body = body }))
          ≡ ok (stated_of keys key))

  answer_about-IsTaken :
      (keys : List (DatedPublicKey c)) (url : Str) (question : Asked c) (body : Str)
      → All (IsReadable h p r) keys
      → All IsExact keys
      → answer_about h p r keys question ≡ (200, body)
      → IsTaken keys url question body
  answer_about-IsTaken keys url malformed body readable exact e =
      absurd (other_status (400, []) body refl e)
  answer_about-IsTaken keys url (about asked) body readable exact e =
      elim (Option-cases (latest h asked keys)) [
        | inl l ↦ absurd (other_status (404, []) body refl (rw l at e))
        | inr (key, l) ↦
            let sent : (answer_for h p r keys (some key)).1 ≡ body = ap (λ x. x.1) (rw l at e) in
            (
              asked,
              key,
              refl,
              l,
              subst
                  (λ b.
                    request_public_key p r url (ok (record { status = 200; body = b }))
                    ≡ ok (stated_of keys key))
                  sent (request_public_key-answer_for keys key asked url readable exact l),
            )
      ]

  -- A creator and its client agree: of a schedule whose keys can all be read, and whose starts are
  -- read as what they were from the texts that are sent of them, whatever 200 the creator sends is
  -- taken by the client as the latest key that had started at the moment that the request asked
  -- about, with the minute of its start and the minute of the next start of the schedule.
  pub request_public_key-public_key_response_at :
      (keys : List (DatedPublicKey c)) (format date : Option Str) (now : c.DateTime)
      (url body : Str)
      → All (IsReadable h p r) keys
      → All IsExact keys
      → public_key_response_at p c r (new keys) format date now ≡ ok (200, body)
      → IsTaken keys url (asked_about p c r (not_empty date) now) body
  request_public_key-public_key_response_at keys format date now url body readable exact e =
      let reply = public_key_response_at_lem h p r keys format date now readable in
      elim (Bool-cases (serves_format format)) [
        | inl served ↦
            answer_about-IsTaken keys url (asked_about p c r (not_empty date) now) body readable
              exact (ok_unique (rw served at reply) e)
        | inr refused ↦
            absurd (other_status (400, []) body refl (ok_unique (rw refused at reply) e))
      ]
