-- ===== src/Fetch/Sole/Journey.antt =====
-- The way of an OWID: made and sent by a creator, read and checked by a client that asks the creator
-- for its key.
use owid_rust.Prelude.{
  some_inj, ℕ, ◌≡◌, refl, sym, ap, ◌∙◌, List, true, Option, none, some, ok, All, length, ltb,
  Bool-cases, inl, inr,
}
use owid_rust.Text.{Str}
use owid_rust.Text.Utf8.RoundTrip.{IsChar}
use owid_rust.Platform.{Machine, Chrono, IsChrono, P256, IsP256, Rfc3339}
use owid_rust.Version.{Version}
use owid_rust.Status.{valid, of}
use owid_rust.Io.{Bytes}
use owid_rust.Owid.{Owid, as_byte_array}
use owid_rust.Envelope.Capacity.{IsWide}
use owid_rust.Reading.{from_byte_array}
use owid_rust.Reading.RoundTrip.{cut_date}
use owid_rust.Crypto.{subject_public_key_info}
use owid_rust.Creator.{
  Creator, create_version, verify_with_public_key, verify_status_with_public_key,
}
use owid_rust.Creator.Verifies.{IsPaired}
use owid_rust.Creator.Received.{verify_status_with_public_key-received}
use owid_rust.Schedule.{DatedPublicKey, new}
use owid_rust.Schedule.Choice.{latest}
use owid_rust.Endpoints.{Asked, about, asked_about, not_empty, public_key_response_at}
use owid_rust.Endpoints.Served.{IsReadable}
use owid_rust.Endpoints.Taken.{IsExact, stated_of, request_public_key-public_key_response_at}
use owid_rust.Fetch.{KeyAnswer, answer_stated}
use owid_rust.Fetch.Cache.{Cache, hold}
use owid_rust.Fetch.Url.{minute_of, public_key_url}
use owid_rust.Fetch.Request.{Stated, request_public_key}
use owid_rust.Fetch.Verify.{Creators, verify_status, verify, verify_at_url}
use owid_rust.Fetch.Verify.Outcome.{of-valid}
use owid_rust.Fetch.Flight.{is_recent_url, held_answer, outcome_of}
use owid_rust.Fetch.Sole.{Transport, creators, sole_key_at_url}

answer_stated-pem : (pem : Str) (from to : Option ℕ) → (answer_stated pem from to).pem ≡ pem
unfolding answer_stated
answer_stated-pem pem none to = refl
answer_stated-pem pem (some start) none = refl
answer_stated-pem pem (some start) (some end) = elim (Bool-cases (ltb start end)) [
  | inl e ↦ rw e refl
  | inr e ↦ rw e refl
]

about_unique :
    {c : Chrono} {a b : c.DateTime} {question : Asked c}
    → question ≡ about a
    → question ≡ about b
    → a ≡ b
about_unique e f = cc

-- A key that is accepted where it is fetched for the OWID's own URL makes the OWID valid.
accepted-valid :
    (m : Machine) (c : Chrono) (p : P256) (k : Creators) (owid : Owid c) (state : k.State)
    (scheme : Str) (answer : KeyAnswer)
    → (k.key_at_url state (public_key_url owid scheme)).0 ≡ ok answer
    → verify_with_public_key m c p owid answer.pem ≡ ok true
    → (verify_status m c p k owid state scheme).0 ≡ valid
unfolding verify_status verify verify_at_url of
accepted-valid m c p k owid state scheme answer fetched accepted = rw (fetched, accepted) refl

module _ {c : Chrono} (h : IsChrono c) (p : P256) (r : Rfc3339 c) (t : Transport) where
  -- The answer that a client without a held key takes from a request holds the key that was stated.
  key_at_url-stated :
      (clock : Option ℕ) (cache : Cache) (state : t.State) (url : Str) (stated : Stated)
      → held_answer cache url (minute_of url) (is_recent_url clock (minute_of url)) ≡ none
      → request_public_key p r url (t.fetch state url).0 ≡ ok stated
      → ((creators p r t clock).key_at_url (cache, state) url).0
        ≡ ok (answer_stated stated.0 stated.1 stated.2)
  unfolding sole_key_at_url outcome_of hold
  key_at_url-stated clock cache state url stated empty requested =
      rw (empty, requested) (rw empty refl)

  -- An OWID from its creator to its client: a creator makes it and sends it as bytes, and answers
  -- the request for its key with a 200 about a moment at which the latest started key of its
  -- schedule is the one that it signs with. A client that is sent the bytes, that holds no key for
  -- the URL, and whose transport hands back that answer to the OWID's URL, reads the OWID, its date
  -- cut to the minute or hour, and reports it as valid. The pair of keys belongs together, `usize`
  -- has 32 bits or more and the payload can be reserved, the keys of the schedule can be read, and
  -- their starts are read as what they were from the texts that are sent of them.
  pub verify_status-received :
      (m : Machine) (p256 : IsP256 p) (creator : Creator p) (now : c.DateTime) (version : Version)
      (payload : Bytes) (owid : Owid c) (bytes : Bytes) (keys : List (DatedPublicKey c))
      (format date : Option Str) (served_at asked : c.DateTime) (key : DatedPublicKey c)
      (body : Str) (clock : Option ℕ) (cache : Cache) (state : t.State) (scheme : Str)
      → IsWide m
      → IsPaired p creator.crypto
      → All IsChar creator.domain
      → m.can_reserve (length payload) ≡ true
      → create_version m c p now creator version payload ≡ ok owid
      → as_byte_array m owid ≡ ok bytes
      → All (IsReadable h p r) keys
      → All (IsExact h p r) keys
      → asked_about p c r (not_empty date) served_at ≡ about asked
      → latest h asked keys ≡ some key
      → subject_public_key_info p creator.crypto ≡ ok key.public_key_pem
      → public_key_response_at p c r (new keys) format date served_at ≡ ok (200, body)
      → (t.fetch state (public_key_url (cut_date owid) scheme)).0
        ≡ ok (record { status = 200; body = body })
      → held_answer cache
          (public_key_url (cut_date owid) scheme)
          (minute_of (public_key_url (cut_date owid) scheme))
          (is_recent_url clock (minute_of (public_key_url (cut_date owid) scheme)))
        ≡ none
      → (from_byte_array m c bytes ≡ ok (cut_date owid))
        × ((verify_status m c p (creators p r t clock) (cut_date owid) (cache, state) scheme).0
            ≡ valid)
  unfolding verify_status_with_public_key
  verify_status-received m p256 creator now version payload owid bytes keys format date served_at
        asked key body clock cache state scheme wide paired chars room made wrote readable exact
        question in_force published sent fetched empty =
      let url = public_key_url (cut_date owid) scheme in
      let (read, checks) =
        verify_status_with_public_key-received m c p p256 creator h now version payload owid bytes
          key.public_key_pem wide paired chars made wrote published room in
      let (at, other, question', in_force', taken) =
        request_public_key-public_key_response_at h p r keys format date served_at url body readable
          exact sent in
      let same_key : other ≡ key =
        some_inj (
          sym in_force' ∙ ap (λ x. latest h x keys) (about_unique question' question) ∙ in_force) in
      let stated = stated_of h p r keys key in
      let requested : request_public_key p r url (t.fetch state url).0 ≡ ok stated =
        ap (request_public_key p r url) fetched
        ∙ taken
        ∙ ap (λ k. ok (stated_of h p r keys k)) same_key in
      let answer = answer_stated stated.0 stated.1 stated.2 in
      let accepted : verify_with_public_key m c p (cut_date owid) answer.pem ≡ ok true =
        ap (verify_with_public_key m c p (cut_date owid))
          (answer_stated-pem stated.0 stated.1 stated.2)
        ∙ of-valid _ checks in
      (
        read,
        accepted-valid m c p (creators p r t clock) (cut_date owid) (cache, state) scheme answer
            (key_at_url-stated clock cache state url stated empty requested) accepted,
      )
