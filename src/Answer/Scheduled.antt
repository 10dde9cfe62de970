-- ===== src/Answer/Scheduled.antt =====
-- The answer that a creator makes from its schedule, under its own check.
use owid_rust.Prelude.{
  some_inj, ◌≡◌, refl, sym, ◌∙◌, subst, List, [], ◌∷◌, true, false, none, some, ok, All, inl, inr,
  Bool-cases, Option-cases,
}
use owid_rust.Text.{Str}
use owid_rust.Platform.{Chrono, IsChrono, P256}
use owid_rust.Crypto.{Crypto, is_blank, new_verify_only}
use owid_rust.Schedule.{DatedPublicKey, sort_by_key, new, key_in_force, next_start_after}
use owid_rust.Schedule.Choice.{Starts, latest, sort_by_key-IsSorted, true≢false, other_way}
use owid_rust.Schedule.InForce.{key_at-latest}
use owid_rust.Schedule.Until.{latest-Starts, All-map}
use owid_rust.Answer
use owid_rust.Answer.{PublicKeyAnswer, validate}

module _ {c : Chrono} (h : IsChrono c) where
  latest-none :
      (at : c.DateTime) (keys : List (DatedPublicKey c))
      → latest h at keys ≡ none
      → All (λ other. c.before other.starts_at at ≡ false) keys
  latest-none at [] e = tt
  latest-none at (k ∷ keys) e = elim (Bool-cases (c.before k.starts_at at)) [
    | inl s ↦ elim (Option-cases (latest h at keys)) [
      | inl o ↦ cc (rw (s, o) at e)
      | inr (b, o) ↦ elim (Bool-cases (c.before b.starts_at k.starts_at)) [
        | inl t ↦ cc (rw (s, o, t) at e)
        | inr t ↦ cc (rw (s, o, t) at e)
      ]
    ]
    | inr s ↦ (s, latest-none at keys (rw s at e))
  ]

  -- A start that the schedule gives as the next is one of its starts, later than the key's.
  pub next_start_after-some :
      (P : c.DateTime → Type 0) (keys : List (DatedPublicKey c)) (key : DatedPublicKey c)
      {next : c.DateTime}
      → All (λ other. c.before other.starts_at key.starts_at ≡ false → P other.starts_at) keys
      → next_start_after keys key ≡ some next
      → P next
  unfolding next_start_after
  next_start_after-some P [] key hs e = cc
  next_start_after-some P (o ∷ keys) key (ho, hs) e =
      elim (Bool-cases (c.before o.starts_at key.starts_at)) [
        | inl s ↦ next_start_after-some P keys key hs (rw s at e)
        | inr s ↦ elim (Option-cases (next_start_after keys key)) [
          | inl r ↦ subst P (some_inj (rw (s, r) at e)) (ho s)
          | inr (n, r) ↦ elim (Bool-cases (c.before o.starts_at n)) [
            | inl t ↦ subst P (some_inj (rw (s, r, t) at e)) (ho s)
            | inr t ↦ next_start_after-some P keys key hs (r ∙ (rw (s, r, t) at e))
          ]
        ]
      ]

  refl_before : (a : c.DateTime) → c.before a a ≡ true
  refl_before a = elim (h.before_total a a) [ inl t ↦ t | inr t ↦ t ]

  latest-All :
      (at : c.DateTime) (keys : List (DatedPublicKey c)) {key : DatedPublicKey c}
      → latest h at keys ≡ some key
      → All (λ other. Starts h other at → Starts h other key.starts_at) keys
  latest-All at [] e = cc
  latest-All at (k ∷ keys) {key} e = elim (Bool-cases (c.before k.starts_at at)) [
    | inl s ↦ elim (Option-cases (latest h at keys)) [
      | inl o ↦
          subst (λ x. All (λ other. Starts h other at → Starts h other x.starts_at) (k ∷ keys))
            (some_inj (rw (s, o) at e))
            (
              λ u. refl_before k.starts_at,
              All-map _ _ keys (λ other f u. absurd (true≢false (sym u ∙ f)))
                  (latest-none at keys o),
            )
      | inr (b, o) ↦ elim (Bool-cases (c.before b.starts_at k.starts_at)) [
        | inl t ↦
            subst (λ x. All (λ other. Starts h other at → Starts h other x.starts_at) (k ∷ keys))
              (some_inj (rw (s, o, t) at e))
              (
                λ u. refl_before k.starts_at,
                All-map _ _ keys (λ other f u. h.before_trans _ _ _ (f u) t) (latest-All at keys o),
              )
        | inr t ↦
            subst (λ x. All (λ other. Starts h other at → Starts h other x.starts_at) (k ∷ keys))
              (some_inj (rw (s, o, t) at e)) (λ u. other_way h _ _ t, latest-All at keys o)
      ]
    ]
    | inr s ↦ (λ u. absurd (true≢false (sym u ∙ s)), latest-All at keys (rw s at e))
  ]

  readable_dense :
      (p : P256) (pem : Str) {crypto : Crypto p}
      → new_verify_only p pem ≡ ok crypto
      → is_blank pem ≡ false
  unfolding new_verify_only
  readable_dense p pem e = elim (Bool-cases (is_blank pem)) [ inl b ↦ cc (rw b at e) | inr b ↦ b ]

  is_later :
      {other key at : c.DateTime}
      → (c.before other at ≡ true → c.before other key ≡ true)
      → c.before other key ≡ false
      → c.before other at ≡ false
  is_later {other} {key} {at} f s = elim (Bool-cases (c.before other at)) [
    | inl e ↦ absurd (true≢false (sym (f e) ∙ s))
    | inr e ↦ e
  ]

  -- The answer that states the key in force at a moment and the next start of the schedule passes
  -- the check about that moment, where the key can be read.
  pub validate-key_in_force :
      (p : P256) (keys : List (DatedPublicKey c)) (key : DatedPublicKey c) (asked : c.DateTime)
      (crypto : Crypto p)
      → key_in_force (new keys) asked ≡ some key
      → new_verify_only p key.public_key_pem ≡ ok crypto
      → validate p
          (Answer.new c key.public_key_pem (some key.starts_at) (next_start_after (new keys) key))
          (some asked)
        ≡ ok tt
  unfolding validate Answer.new key_in_force new
  validate-key_in_force p keys key asked crypto e readable =
      let sorted = sort_by_key keys in
      let is_latest = sym (key_at-latest h asked sorted (sort_by_key-IsSorted h keys)) ∙ e in
      let started = latest-Starts h asked sorted is_latest in
      let dense = readable_dense p key.public_key_pem readable in
      elim (Option-cases (next_start_after (sort_by_key keys) key)) [
        | inl n ↦ rw (dense, readable, n, started) refl
        | inr (next, n) ↦
            let (after_start, after_asked) =
              next_start_after-some
                (λ x. (c.before x key.starts_at ≡ false) × (c.before x asked ≡ false)) sorted key
                (All-map _ _ sorted (λ other f later_start. (later_start, is_later f later_start))
                  (latest-All asked sorted is_latest))
                n in
            rw (dense, readable, n, after_start, started, after_asked) refl
      ]
