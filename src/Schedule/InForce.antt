-- ===== src/Schedule/InForce.antt =====
-- The search by index for the key in force, against the latest key that has started.
use owid_rust.Prelude.{
  some_inj, ℕ, zero, suc, ◌≤◌, ◌≡◌, ◌≢◌, refl, sym, ◌∙◌, ap, subst, List, [], ◌∷◌, Bool, true,
  false, Option, some, get_elem?, if◌then◌else◌, All, inl, inr, Bool-cases, Option-cases, arith,
}
use owid_rust.Platform.{Chrono, IsChrono}
use owid_rust.Schedule.{
  DatedPublicKey, sort_by_key, new, after_first, rposition, same_start, first_of_start, key_at,
  key_in_force,
}
use owid_rust.Schedule.Choice.{
  Starts, later, latest, IsSorted, sort_by_key-IsSorted, latest-sort_by_key, true≢false,
}

ne-some : {n : ℕ} → suc n ≢ 0
ne-some h = omega arith

shift : Bool → ℕ → ℕ
shift same zero = if same then 0 else 1
shift same (suc v) = suc (suc v)

after_first-found :
    (here : Bool) (o : Option ℕ) (i : ℕ) → o ≡ some i → after_first here o ≡ some (suc i)
after_first-found here o i e = rw e refl

module _ {ℓ} {A : Type ℓ} where
  get_elem?-All :
      (P : A → Type 0) (xs : List A) (i : ℕ) {x : A} → All P xs → get_elem? xs i ≡ some x → P x
  get_elem?-All P [] i hs h = cc
  get_elem?-All P (y ∷ xs) zero (hy, hs) h = let e : y ≡ _ = cc in subst P e hy
  get_elem?-All P (y ∷ xs) (suc i) (hy, hs) h = get_elem?-All P xs i hs h

  get_elem?-below :
      (xs : List A) (i j : ℕ) {x : A}
      → get_elem? xs i ≡ some x
      → j ≤ i
      → (y : A) × (get_elem? xs j ≡ some y)
  get_elem?-below [] i j h le = cc
  get_elem?-below (y ∷ xs) i zero h le = (y, refl)
  get_elem?-below (y ∷ xs) zero (suc j) h le = absurd (omega arith)
  get_elem?-below (y ∷ xs) (suc i) (suc j) h le = get_elem?-below xs i j h (omega arith)

module _ {c : Chrono} where
  rposition-found :
      (p : DatedPublicKey c → Bool) (keys : List (DatedPublicKey c)) (i : ℕ)
      → rposition p keys ≡ some i
      → (key : DatedPublicKey c) × (get_elem? keys i ≡ some key) × (p key ≡ true)
  rposition-found p [] i h = cc
  rposition-found p (k ∷ keys) zero h = elim (Option-cases (rposition p keys)) [
    | inl e ↦ elim (Bool-cases (p k)) [
      | inl here ↦ (k, refl, here)
      | inr here ↦ cc (rw (e, here) at h)
    ]
    | inr (j, e) ↦ absurd (ne-some (some_inj (rw e at h)))
  ]
  rposition-found p (k ∷ keys) (suc i) h = elim (Option-cases (rposition p keys)) [
    | inl e ↦ elim (Bool-cases (p k)) [
      | inl here ↦ absurd (ne-some (sym (some_inj (rw (e, here) at h))))
      | inr here ↦ cc (rw (e, here) at h)
    ]
    | inr (j, e) ↦ rposition-found p keys i (e ∙ ap some (omega (arith, some_inj (rw e at h))))
  ]

  first_of_start-cons :
      (key : DatedPublicKey c) (keys : List (DatedPublicKey c)) (i : ℕ)
      → first_of_start (key ∷ keys) (suc i)
        ≡ shift (same_start (some key) (get_elem? keys 0)) (first_of_start keys i)
  unfolding shift
  first_of_start-cons key keys zero = refl
  first_of_start-cons key keys (suc i) =
      elim (Bool-cases (same_start (get_elem? keys i) (get_elem? keys (suc i)))) [
        | inl e ↦ rw e (first_of_start-cons key keys i)
        | inr e ↦ rw e refl
      ]

  first_of_start-le : (keys : List (DatedPublicKey c)) (i : ℕ) → first_of_start keys i ≤ i
  first_of_start-le keys zero = omega arith
  first_of_start-le keys (suc i) =
      elim (Bool-cases (same_start (get_elem? keys i) (get_elem? keys (suc i)))) [
        | inl e ↦ rw e (omega (arith, first_of_start-le keys i))
        | inr e ↦ rw e (omega arith)
      ]

  first_of_start_stops :
      (keys : List (DatedPublicKey c)) (i v : ℕ)
      → first_of_start keys i ≡ suc v
      → same_start (get_elem? keys v) (get_elem? keys (suc v)) ≡ false
  first_of_start_stops keys zero v h = absurd (omega arith)
  first_of_start_stops keys (suc i) v h =
      elim (Bool-cases (same_start (get_elem? keys i) (get_elem? keys (suc i)))) [
        | inl e ↦ first_of_start_stops keys i v (rw e at h)
        | inr e ↦
            let at : i ≡ v = omega (arith, rw e at h) in
            subst (λ j. same_start (get_elem? keys j) (get_elem? keys (suc j)) ≡ false) at e
      ]

module _ {c : Chrono} (h : IsChrono c) where
  refl_before : (a : c.DateTime) → c.before a a ≡ true
  refl_before a = elim (h.before_total a a) [ inl t ↦ t | inr t ↦ t ]

  same_refl : (a b : c.DateTime) → a ≡ b → c.same a b ≡ true
  same_refl a b e = (h.same_iff a b).1 e

  same-before : (a b : c.DateTime) → c.before a b ≡ true → c.same a b ≡ c.before b a
  same-before a b le = elim (Bool-cases (c.before b a)) [
    | inl e ↦ same_refl a b (h.before_antisym a b le e) ∙ sym e
    | inr e ↦ elim (Bool-cases (c.same a b)) [
      | inl s ↦
          let eq = (h.same_iff a b).0 s in
          absurd (true≢false (sym (subst (λ x. c.before x a ≡ true) eq (refl_before a)) ∙ e))
      | inr s ↦ s ∙ sym e
    ]
  ]

  sorted_step :
      (keys : List (DatedPublicKey c)) (v : ℕ) {a b : DatedPublicKey c}
      → IsSorted h keys
      → get_elem? keys v ≡ some a
      → get_elem? keys (suc v) ≡ some b
      → Starts h a b.starts_at
  sorted_step [] v s at at' = cc
  sorted_step (k ∷ keys) zero {a} {b} (hk, s) at at' =
      subst (λ x. Starts h x b.starts_at) (some_inj at)
        (get_elem?-All (λ x. Starts h k x.starts_at) keys 0 hk at')
  sorted_step (k ∷ keys) (suc v) (hk, s) at at' = sorted_step keys v s at at'

  -- A key that starts at or before all others, put before them.
  in_force_cons :
      (key : DatedPublicKey c) (keys : List (DatedPublicKey c)) (i w : ℕ) (found : DatedPublicKey c)
      → All (λ other. Starts h key other.starts_at) keys
      → IsSorted h keys
      → get_elem? keys i ≡ some found
      → first_of_start keys i ≡ w
      → get_elem? (key ∷ keys) (shift (same_start (some key) (get_elem? keys 0)) w)
        ≡ later h key (get_elem? keys w)
  unfolding shift
  in_force_cons key [] i zero found hk s e w = cc
  in_force_cons key (k ∷ keys) i zero found (hk, hs) s e w =
      let test = same-before key.starts_at k.starts_at hk in
      elim (Bool-cases (c.before k.starts_at key.starts_at)) [
        | inl t ↦ rw (test, t) refl
        | inr t ↦ rw (test, t) refl
      ]
  in_force_cons key keys i (suc v) found hk s e w =
      let reached : suc v ≤ i = omega (arith, first_of_start-le keys i, w) in
      let (b, at_b) = get_elem?-below keys i (suc v) e reached in
      let (a, at_a) = get_elem?-below keys i v e (omega arith) in
      let stopped = rw (at_a, at_b) at (first_of_start_stops keys i v w) in
      let a_le_b = sorted_step keys v s at_a at_b in
      let key_le_a = get_elem?-All (λ x. Starts h key x.starts_at) keys v hk at_a in
      elim (Bool-cases (c.before b.starts_at key.starts_at)) [
        | inl t ↦
            let b_le_a = h.before_trans _ _ _ t key_le_a in
            absurd (true≢false (sym b_le_a ∙ sym (same-before _ _ a_le_b) ∙ stopped))
        | inr t ↦ rw (at_b, t) refl
      ]

  pub key_at-latest :
      (at : c.DateTime) (keys : List (DatedPublicKey c))
      → IsSorted h keys
      → key_at keys (rposition (λ key. c.before key.starts_at at) keys) ≡ latest h at keys
  key_at-latest at [] s = refl
  key_at-latest at (key ∷ keys) (hk, s) =
      let started : DatedPublicKey c → Bool = λ key. c.before key.starts_at at in
      let ih = key_at-latest at keys s in
      elim (Option-cases (rposition (λ key. c.before key.starts_at at) keys)) [
        | inl e ↦
            let none_there = rw e at ih in
            elim (Bool-cases (c.before key.starts_at at)) [
              | inl t ↦ rw (e, t, sym none_there) refl
              | inr t ↦ rw (e, t) none_there
            ]
        | inr (i, e) ↦
            let (found, there, before) =
              rposition-found (λ key. c.before key.starts_at at) keys i e in
            let key_le = get_elem?-All (λ x. Starts h key x.starts_at) keys i hk there in
            let t = h.before_trans _ _ _ key_le before in
            rw (e, t, first_of_start-cons key keys i)
              (in_force_cons key keys i (first_of_start keys i) found hk s there refl
                ∙ ap (later h key) (rw e at ih))
      ]

  -- The key in force at a moment, found by index among the sorted keys, is the latest of the keys
  -- supplied that starts at or before it, the one supplied first where several start together,
  -- and there is none where every key starts later.
  pub key_in_force-new :
      (at : c.DateTime) (keys : List (DatedPublicKey c))
      → key_in_force (new keys) at ≡ latest h at keys
  unfolding key_in_force new
  key_in_force-new at keys =
      key_at-latest at (sort_by_key keys) (sort_by_key-IsSorted h keys)
      ∙ latest-sort_by_key h at keys
