-- ===== src/Schedule/Choice.antt =====
-- What the schedule promises, of the keys in the order in which they were supplied.
use owid_rust.Prelude.{
  ◌≡◌, ◌≢◌, refl, sym, ◌∙◌, ap, List, [], ◌∷◌, true, false, Option, none, some, if◌then◌else◌, All,
  inl, inr, Bool-cases,
}
use owid_rust.Platform.{Chrono, IsChrono}
use owid_rust.Schedule.{DatedPublicKey, insert, sort_by_key}

pub true≢false : true ≢ false
true≢false e = cc

module _ {c : Chrono} (h : IsChrono c) where
  abbrev pub Starts : DatedPublicKey c → c.DateTime → Type 0
  Starts key at = c.before key.starts_at at ≡ true

  -- The later of a key and of what the keys after it gave; the key where they start together.
  abbrev pub later : DatedPublicKey c → Option (DatedPublicKey c) → Option (DatedPublicKey c)
  later key none = some key
  later key (some other) = if c.before other.starts_at key.starts_at then some key else some other

  -- The latest of the keys that have started, the one supplied first among those that start
  -- together.
  abbrev pub latest : c.DateTime → List (DatedPublicKey c) → Option (DatedPublicKey c)
  latest at [] = none
  latest at (key ∷ keys) =
      if c.before key.starts_at at then later key (latest at keys) else latest at keys

  abbrev pub IsSorted : List (DatedPublicKey c) → Type 0
  IsSorted [] = Unit {0}
  IsSorted (key ∷ keys) = All (λ other. Starts key other.starts_at) keys × IsSorted keys

  insert-All :
      (P : DatedPublicKey c → Type 0) (key : DatedPublicKey c) (keys : List (DatedPublicKey c))
      → P key
      → All P keys
      → All P (insert key keys)
  insert-All P key [] hk hs = (hk, tt)
  insert-All P key (other ∷ keys) hk (ho, hs) =
      elim (Bool-cases (c.before key.starts_at other.starts_at)) [
        | inl e ↦ rw e (hk, (ho, hs))
        | inr e ↦ rw e (ho, insert-All P key keys hk hs)
      ]

  All-trans :
      (key other : DatedPublicKey c) (keys : List (DatedPublicKey c))
      → Starts key other.starts_at
      → All (λ k. Starts other k.starts_at) keys
      → All (λ k. Starts key k.starts_at) keys
  All-trans key other [] le hs = tt
  All-trans key other (k ∷ keys) le (hk, hs) =
      (h.before_trans _ _ _ le hk, All-trans key other keys le hs)

  pub other_way : (a b : c.DateTime) → c.before a b ≡ false → c.before b a ≡ true
  other_way a b e = elim (h.before_total a b) [ inl t ↦ cc | inr t ↦ t ]

  insert-IsSorted :
      (key : DatedPublicKey c) (keys : List (DatedPublicKey c))
      → IsSorted keys
      → IsSorted (insert key keys)
  insert-IsSorted key [] s = (tt, tt)
  insert-IsSorted key (other ∷ keys) (ho, s) =
      elim (Bool-cases (c.before key.starts_at other.starts_at)) [
        | inl e ↦ rw e ((e, All-trans key other keys e ho), (ho, s))
        | inr e ↦ rw e (
          insert-All (λ k. Starts other k.starts_at) key keys (other_way _ _ e) ho,
          insert-IsSorted key keys s,
        )
      ]

  pub sort_by_key-IsSorted : (keys : List (DatedPublicKey c)) → IsSorted (sort_by_key keys)
  sort_by_key-IsSorted [] = tt
  sort_by_key-IsSorted (key ∷ keys) = insert-IsSorted key _ (sort_by_key-IsSorted keys)

  -- A key that is strictly later than another may be taken after it.
  later_swap :
      (key other : DatedPublicKey c) (o : Option (DatedPublicKey c))
      → c.before key.starts_at other.starts_at ≡ false
      → later other (later key o) ≡ later key (later other o)
  later_swap key other none e = rw (e, other_way _ _ e) refl
  later_swap key other (some k) e =
      let o = other_way _ _ e in
      elim (Bool-cases (c.before k.starts_at key.starts_at)) [
        | inl n ↦ elim (Bool-cases (c.before k.starts_at other.starts_at)) [
          | inl l ↦ rw (n, l, e, o) refl
          | inr l ↦ rw (n, l, e, n) refl
        ]
        | inr n ↦ elim (Bool-cases (c.before k.starts_at other.starts_at)) [
          | inl l ↦ absurd (true≢false (sym (h.before_trans _ _ _ l o) ∙ n))
          | inr l ↦ rw (n, l, n) refl
        ]
      ]

  latest-insert :
      (at : c.DateTime) (key : DatedPublicKey c) (keys : List (DatedPublicKey c))
      → latest at (insert key keys) ≡ latest at (key ∷ keys)
  latest-insert at key [] = refl
  latest-insert at key (other ∷ keys) = elim (Bool-cases (c.before key.starts_at other.starts_at)) [
    | inl e ↦ rw e refl
    | inr e ↦
        let ih = latest-insert at key keys in
        elim (Bool-cases (c.before other.starts_at at)) [
          | inl o ↦ elim (Bool-cases (c.before key.starts_at at)) [
            | inl k ↦
                rw (e, o, k)
                  (ap (later other) (rw k at ih) ∙ later_swap key other (latest at keys) e)
            | inr k ↦ rw (e, o, k) (ap (later other) (rw k at ih))
          ]
          | inr o ↦ rw (e, o) ih
        ]
  ]

  pub latest-sort_by_key :
      (at : c.DateTime) (keys : List (DatedPublicKey c))
      → latest at (sort_by_key keys) ≡ latest at keys
  latest-sort_by_key at [] = refl
  latest-sort_by_key at (key ∷ keys) =
      latest-insert at key (sort_by_key keys)
      ∙ ap (λ o. if c.before key.starts_at at then later key o else o) (latest-sort_by_key at keys)
