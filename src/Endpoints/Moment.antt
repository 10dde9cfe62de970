-- ===== src/Endpoints/Moment.antt =====
-- The moment that a request for a key is answered about.
use owid_rust.Prelude.{
  ℕ, ◌<◌, ◌^◌, ◌≡◌, ap, ◌∙◌, List, [], true, false, some, ok, All, Bool-cases, inl, inr,
}
use owid_rust.Text.Decimal.{decimal}
use owid_rust.Platform.{Chrono, IsChrono, P256, Rfc3339}
use owid_rust.Io.{base_date}
use owid_rust.Schedule.{DatedPublicKey, new}
use owid_rust.Schedule.Choice.{latest}
use owid_rust.Answer.{spki_format}
use owid_rust.Endpoints.{
  serves_format, not_empty, about, min_moment, asked_minute, asked_about, public_key_response_at,
}
use owid_rust.Endpoints.Served.{IsReadable, answer_for, answer_about, public_key_response_at_lem}
use owid_rust.Fetch.Url.RoundTrip.{parse_u32-decimal, digits_onto-cons}

module _ {c : Chrono} (h : IsChrono c) (p : P256) (r : Rfc3339 c) where
  -- The moment that a request about a minute is answered about.
  abbrev pub moment_of : ℕ → c.DateTime → c.DateTime
  moment_of minute now = min_moment p c r (c.add (base_date c) (c.minutes minute)) now

  before_refl : (a : c.DateTime) → c.before a a ≡ true
  before_refl a = elim (h.before_total a a) [ inl t ↦ t | inr t ↦ t ]

  other_way : (a b : c.DateTime) → c.before a b ≡ false → c.before b a ≡ true
  other_way a b e = elim (h.before_total a b) [ inl t ↦ cc | inr t ↦ t ]

  min_moment-before :
      (a b : c.DateTime)
      → (c.before (min_moment p c r a b) a ≡ true) × (c.before (min_moment p c r a b) b ≡ true)
  min_moment-before a b = elim (Bool-cases (c.before a b)) [
    | inl e ↦ rw e (before_refl a, e)
    | inr e ↦ rw e (other_way a b e, before_refl b)
  ]

  asked_about-decimal :
      (minute : ℕ) (now : c.DateTime)
      → minute < 2 ^ 32
      → asked_about p c r (not_empty (some (decimal minute))) now ≡ about (moment_of minute now)
  asked_about-decimal minute now bound =
      let (d, s, written) = digits_onto-cons 19 minute [] in
      rw written
        (ap (λ n. asked_minute p c r n now) (rw written at (parse_u32-decimal minute bound)))

  -- A request that a client makes, which asks for the one encoding served and names a minute in
  -- decimal, is answered, by a creator whose keys can be read, with the latest key that had started
  -- at that minute or at the moment of the request, whichever is earlier, and with 404 where none
  -- had: no u32 of minutes is refused.
  pub public_key_response_at-decimal :
      (keys : List (DatedPublicKey c)) (minute : ℕ) (now : c.DateTime)
      → minute < 2 ^ 32
      → All (IsReadable h p r) keys
      → let asked = moment_of minute now in
        (public_key_response_at p c r (new keys) (some spki_format) (some (decimal minute)) now
          ≡ ok (answer_for h p r keys (latest h asked keys)))
        × (c.before asked (c.add (base_date c) (c.minutes minute)) ≡ true)
        × (c.before asked now ≡ true)
  unfolding serves_format
  public_key_response_at-decimal keys minute now bound readable =
      let (by_minute, by_now) = min_moment-before (c.add (base_date c) (c.minutes minute)) now in
      (
        public_key_response_at_lem h p r keys (some spki_format) (some (decimal minute)) now
              readable
            ∙ ap (λ question. ok (answer_about h p r keys question))
                (asked_about-decimal minute now bound),
        by_minute,
        by_now,
      )
