-- ===== src/Endpoints/Served.antt =====
-- What the end points answer, of the keys in the order in which they were supplied.
use owid_rust.Prelude.{
  some_inj, ℕ, ◌≡◌, refl, ◌∙◌, subst, List, [], ◌∷◌, Option, none, some, ok, All, inl, inr,
  Bool-cases, Option-cases, if◌then◌else◌,
}
use owid_rust.Text.{Str}
use owid_rust.Platform.{Chrono, IsChrono, P256, Rfc3339}
use owid_rust.Crypto.{Crypto, new_verify_only}
use owid_rust.Schedule.{DatedPublicKey, new, key_in_force, next_start_after}
use owid_rust.Schedule.Choice.{latest}
use owid_rust.Schedule.InForce.{key_in_force-new}
use owid_rust.Answer
use owid_rust.Answer.{validate}
use owid_rust.Answer.Write.{to_json}
use owid_rust.Answer.Scheduled.{validate-key_in_force}
use owid_rust.Endpoints.{
  serves_format, public_key_answer, not_empty, Asked, about, malformed, asked_about, served,
  respond, public_key_response_at,
}

module _ {c : Chrono} (h : IsChrono c) where
  pub latest-P :
      (P : DatedPublicKey c → Type 0) (at : c.DateTime) (keys : List (DatedPublicKey c))
      {key : DatedPublicKey c}
      → All P keys
      → latest h at keys ≡ some key
      → P key
  latest-P P at [] hs e = cc
  latest-P P at (k ∷ keys) (hk, hs) e = elim (Bool-cases (c.before k.starts_at at)) [
    | inl s ↦ elim (Option-cases (latest h at keys)) [
      | inl o ↦ subst P (some_inj (rw (s, o) at e)) hk
      | inr (b, o) ↦ elim (Bool-cases (c.before b.starts_at k.starts_at)) [
        | inl t ↦ subst P (some_inj (rw (s, o, t) at e)) hk
        | inr t ↦ latest-P P at keys hs (o ∙ (rw (s, o, t) at e))
      ]
    ]
    | inr s ↦ latest-P P at keys hs (rw s at e)
  ]

  module _ (p : P256) (r : Rfc3339 c) where
    -- The key can be read.
    abbrev pub IsReadable : DatedPublicKey c → Type 0
    IsReadable key = (crypto : Crypto p) × (new_verify_only p key.public_key_pem ≡ ok crypto)

    abbrev pub answer_for : List (DatedPublicKey c) → Option (DatedPublicKey c) → ℕ × Str
    answer_for keys none = (404, [])
    answer_for keys (some key) = (
      200,
      to_json r
          (Answer.new c key.public_key_pem (some key.starts_at) (next_start_after (new keys) key)),
    )

    abbrev pub answer_about : List (DatedPublicKey c) → Asked c → ℕ × Str
    answer_about keys malformed = (400, [])
    answer_about keys (about asked) = answer_for keys (latest h asked keys)

    served-latest :
        (keys : List (DatedPublicKey c)) (asked : c.DateTime) (o : Option (DatedPublicKey c))
        → All IsReadable keys
        → key_in_force (new keys) asked ≡ o
        → latest h asked keys ≡ o
        → served p c r (new keys) asked o ≡ ok (answer_for keys o)
    unfolding public_key_answer
    served-latest keys asked none readable e l = refl
    served-latest keys asked (some key) readable e l =
        let (crypto, reads) = latest-P IsReadable asked keys readable l in
        rw (validate-key_in_force h p keys key asked crypto e reads) refl

    -- A creator whose keys can all be read answers every request, and never with an error: 400 for
    -- a format that it does not serve or a date that is no count of minutes, 404 where no key has
    -- started at the moment asked about, which is now at the latest, and else 200 with the latest
    -- key that has, its start and the next start of the schedule.
    pub public_key_response_at_lem :
        (keys : List (DatedPublicKey c)) (format date : Option Str) (now : c.DateTime)
        → All IsReadable keys
        → public_key_response_at p c r (new keys) format date now
          ≡ ok (
              if serves_format format
              then answer_about keys (asked_about p c r (not_empty date) now)
              else (400, []))
    unfolding public_key_response_at
    public_key_response_at_lem keys format date now readable =
        elim (Bool-cases (serves_format format)) [
          | inr e ↦ rw e refl
          | inl e ↦ rw e (respond-about (asked_about p c r (not_empty date) now))
        ]
      where
        respond-about :
            (asked : Asked c) → respond p c r (new keys) asked ≡ ok (answer_about keys asked)
        respond-about malformed = refl
        respond-about (about asked) = rw (key_in_force-new h asked keys) (
            served-latest keys asked (latest h asked keys) readable (key_in_force-new h asked keys)
              refl)
