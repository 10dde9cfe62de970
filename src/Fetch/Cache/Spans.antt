-- ===== src/Fetch/Cache/Spans.antt =====
-- What holds of every key held, through the operations of the cache on its lists.
use owid_rust.Prelude.{
  some_inj, ℕ, zero, suc, ◌≡◌, refl, sym, subst, List, [], ◌∷◌, Bool, true, some, get_elem?,
  position, All, inl, inr, Bool-cases, Option-cases, map-suc-ne-zero, map-suc-eq-some,
}
use owid_rust.Text.{Str}
use owid_rust.Text.Same.{same, same→≡}
use owid_rust.Fetch.{HeldKey}
use owid_rust.Fetch.Cache.{Keys, get, put, find, update, get_or_default}

pub position-get_elem? {ℓ} :
    {A : Type ℓ} (p : A → Bool) (xs : List A) (i : ℕ)
    → position p xs ≡ some i
    → (x : A) × (get_elem? xs i ≡ some x) × (p x ≡ true)
position-get_elem? p [] i h = cc
position-get_elem? p (x ∷ xs) zero h = elim (Bool-cases (p x)) [
  | inl e ↦ (x, refl, e)
  | inr e ↦ absurd (map-suc-ne-zero _ (rw e at h))
]
position-get_elem? p (x ∷ xs) (suc i) h = elim (Bool-cases (p x)) [
  | inl e ↦ cc (rw e at h)
  | inr e ↦ position-get_elem? p xs i (map-suc-eq-some _ i (rw e at h))
]

module _ (P : HeldKey → Type 0) where
  pub find-All :
      (p : HeldKey → Bool) (keys : List HeldKey) {key : HeldKey}
      → All P keys
      → find p keys ≡ some key
      → P key × (p key ≡ true)
  find-All p [] hs h = cc
  find-All p (k ∷ keys) (hk, hs) h = elim (Bool-cases (p k)) [
    | inl e ↦ subst (λ x. P x × (p x ≡ true)) (some_inj (rw e at h)) (hk, e)
    | inr e ↦ find-All p keys hs (rw e at h)
  ]

  pub update-All :
      (keys : List HeldKey) (i : ℕ) (f : HeldKey → HeldKey)
      → All P keys
      → ((key : HeldKey) → get_elem? keys i ≡ some key → P key → P (f key))
      → All P (update keys i f)
  update-All [] i f hs step = tt
  update-All (k ∷ keys) zero f (hk, hs) step = (step k refl hk, hs)
  update-All (k ∷ keys) (suc i) f (hk, hs) step = (hk, update-All keys i f hs step)

-- A property of the list of keys held for a name, at every name.
module _ (P : Str → List HeldKey → Type 0) where
  abbrev pub Everywhere : Keys → Type 0
  Everywhere [] = Unit {0}
  Everywhere ((name, keys) ∷ rest) = P name keys × Everywhere rest

  pub get-Everywhere :
      (ks : Keys) (name : Str) {keys : List HeldKey}
      → Everywhere ks
      → get ks name ≡ some keys
      → P name keys
  get-Everywhere [] name hs h = cc
  get-Everywhere ((n, k) ∷ rest) name (hk, hs) h = elim (Bool-cases (same n name)) [
    | inl e ↦ subst (P name) (some_inj (rw e at h)) (subst (λ x. P x k) (same→≡ n name e) hk)
    | inr e ↦ get-Everywhere rest name hs (rw e at h)
  ]

  pub put-Everywhere :
      (ks : Keys) (name : Str) (keys : List HeldKey)
      → Everywhere ks
      → P name keys
      → Everywhere (put ks name keys)
  put-Everywhere [] name keys hs h = (h, tt)
  put-Everywhere ((n, k) ∷ rest) name keys (hk, hs) h = elim (Bool-cases (same n name)) [
    | inl e ↦ rw e (subst (λ x. P x keys) (sym (same→≡ n name e)) h, hs)
    | inr e ↦ rw e (hk, put-Everywhere rest name keys hs h)
  ]

  pub get_or_default-Everywhere :
      (ks : Keys) (name : Str) → Everywhere ks → P name [] → P name (get_or_default (get ks name))
  get_or_default-Everywhere ks name h empty = elim (Option-cases (get ks name)) [
    | inl e ↦ rw e empty
    | inr (keys, e) ↦ rw e (get-Everywhere ks name h e)
  ]
