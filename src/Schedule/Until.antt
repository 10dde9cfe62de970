-- ===== src/Schedule/Until.antt =====
-- How long a key stays in force, and which key it is.
use owid_rust.Prelude.{
  some_inj, ◌≡◌, refl, sym, ◌∙◌, subst, List, [], ◌∷◌, true, false, Option, none, some, All, inl,
  inr, Bool-cases, Option-cases,
}
use owid_rust.Platform.{Chrono, IsChrono}
use owid_rust.Schedule.{DatedPublicKey, sort_by_key, new, key_in_force, next_start_after, min_start}
use owid_rust.Schedule.Choice.{Starts, latest, sort_by_key-IsSorted, true≢false}
use owid_rust.Schedule.InForce.{key_at-latest}

-- The moment comes before the next start, if there is one.
abbrev pub IsBeforeNext : (c : Chrono) → c.DateTime → Option c.DateTime → Type 0
IsBeforeNext c at none = Unit {0}
IsBeforeNext c at (some next) = c.before next at ≡ false

pub All-map :
    {c : Chrono} (P Q : DatedPublicKey c → Type 0) (keys : List (DatedPublicKey c))
    → ((key : DatedPublicKey c) → P key → Q key)
    → All P keys
    → All Q keys
All-map P Q [] f hs = tt
All-map P Q (k ∷ keys) f (hk, hs) = (f k hk, All-map P Q keys f hs)

module _ {c : Chrono} (h : IsChrono c) where
  -- The test of a start at or before a moment, refused, refuses each later start.
  refuse_later :
      {a b m : c.DateTime} → c.before a b ≡ true → c.before a m ≡ false → c.before b m ≡ false
  refuse_later {a} {b} {m} le past = elim (Bool-cases (c.before b m)) [
    | inl e ↦ absurd (true≢false (sym (h.before_trans a b m le e) ∙ past))
    | inr e ↦ e
  ]

  min_start-IsBeforeNext :
      (at moment : c.DateTime) (rest : Option c.DateTime)
      → IsBeforeNext c at (min_start c moment rest)
      → (c.before moment at ≡ false) × IsBeforeNext c at rest
  min_start-IsBeforeNext at moment none b = (b, tt)
  min_start-IsBeforeNext at moment (some other) b = elim (Bool-cases (c.before moment other)) [
    | inl e ↦ let past = rw e at b in (past, refuse_later e past)
    | inr e ↦
        let past = rw e at b in
        elim (h.before_total moment other) [
          | inl t ↦ absurd (true≢false (sym t ∙ e))
          | inr t ↦ (refuse_later t past, past)
        ]
  ]

  next_start_after-All :
      (keys : List (DatedPublicKey c)) (key : DatedPublicKey c) (at : c.DateTime)
      → IsBeforeNext c at (next_start_after keys key)
      → All (λ other. Starts h other at → Starts h other key.starts_at) keys
  unfolding next_start_after
  next_start_after-All [] key at b = tt
  next_start_after-All (other ∷ keys) key at b =
      elim (Bool-cases (c.before other.starts_at key.starts_at)) [
        | inl e ↦ (λ s. e, next_start_after-All keys key at (rw e at b))
        | inr e ↦
            let (past, rest) =
              min_start-IsBeforeNext at other.starts_at (next_start_after keys key) (rw e at b) in
            (λ s. absurd (true≢false (sym s ∙ past)), next_start_after-All keys key at rest)
      ]

  pub latest-Starts :
      (at : c.DateTime) (keys : List (DatedPublicKey c)) {key : DatedPublicKey c}
      → latest h at keys ≡ some key
      → Starts h key at
  latest-Starts at [] e = cc
  latest-Starts at (k ∷ keys) {key} e = elim (Bool-cases (c.before k.starts_at at)) [
    | inl s ↦ elim (Option-cases (latest h at keys)) [
      | inl o ↦ subst (λ x. Starts h x at) (some_inj (rw (s, o) at e)) s
      | inr (b, o) ↦ elim (Bool-cases (c.before b.starts_at k.starts_at)) [
        | inl t ↦ subst (λ x. Starts h x at) (some_inj (rw (s, o, t) at e)) s
        | inr t ↦ latest-Starts at keys (o ∙ (rw (s, o, t) at e))
      ]
    ]
    | inr s ↦ latest-Starts at keys (rw s at e)
  ]

  latest-congr :
      (m n : c.DateTime) (keys : List (DatedPublicKey c))
      → c.before m n ≡ true
      → All (λ other. Starts h other n → Starts h other m) keys
      → latest h n keys ≡ latest h m keys
  latest-congr m n [] le hs = refl
  latest-congr m n (k ∷ keys) le (hk, hs) =
      let rest = latest-congr m n keys le hs in
      elim (Bool-cases (c.before k.starts_at m)) [
        | inl e ↦ rw (e, h.before_trans _ _ _ e le, rest) refl
        | inr e ↦ elim (Bool-cases (c.before k.starts_at n)) [
          | inl f ↦ absurd (true≢false (sym (hk f) ∙ e))
          | inr f ↦ rw (e, f) rest
        ]
      ]

  -- A key that is in force at a moment is in force at every moment from then until the next start
  -- that the schedule gives for it, and for good where there is none.
  pub key_in_force-next_start_after :
      (keys : List (DatedPublicKey c)) (key : DatedPublicKey c) (m n : c.DateTime)
      → key_in_force (new keys) m ≡ some key
      → c.before m n ≡ true
      → IsBeforeNext c n (next_start_after (new keys) key)
      → key_in_force (new keys) n ≡ some key
  unfolding key_in_force new
  key_in_force-next_start_after keys key m n e le b =
      let sorted = sort_by_key-IsSorted h keys in
      let is_latest = sym (key_at-latest h m (sort_by_key keys) sorted) ∙ e in
      let started = latest-Starts m (sort_by_key keys) is_latest in
      let alike =
        All-map _ _ (sort_by_key keys) (λ other f s. h.before_trans _ _ _ (f s) started)
          (next_start_after-All (sort_by_key keys) key n b) in
      key_at-latest h n (sort_by_key keys) sorted
      ∙ latest-congr m n (sort_by_key keys) le alike
      ∙ is_latest
