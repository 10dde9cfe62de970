-- ===== src/Schedule/Order.antt =====
-- The keys of a schedule may be supplied in any order.
use mathlib.Core.List.{Permᴰ}
use owid_rust.Prelude.{
  ◌≡◌, ◌≢◌, refl, sym, ◌∙◌, ap, subst, List, [], ◌∷◌, true, false, All, inl, inr, Bool-cases,
}
use owid_rust.Platform.{Chrono, IsChrono}
use owid_rust.Schedule.{DatedPublicKey, insert, sort_by_key, new}
use owid_rust.Schedule.Choice.{true≢false, other_way}

-- The keys start at different moments.
abbrev pub AreDistinct : {c : Chrono} → List (DatedPublicKey c) → Type 0
AreDistinct [] = Unit {0}
AreDistinct (key ∷ keys) = All (λ other. key.starts_at ≢ other.starts_at) keys × AreDistinct keys

module _ {c : Chrono} where
  All-Permᴰ :
      (P : DatedPublicKey c → Type 0) (xs ys : List (DatedPublicKey c))
      → Permᴰ xs ys
      → All P xs
      → All P ys
  All-Permᴰ P xs ys Permᴰ.nil h = tt
  All-Permᴰ P (a ∷ xs) (b ∷ ys) (Permᴰ.cons e p) (ha, hs) = (subst P e ha, All-Permᴰ P xs ys p hs)
  All-Permᴰ P (a ∷ b ∷ xs) (x ∷ y ∷ ys) (Permᴰ.swap e d) (ha, (hb, hs)) =
      (subst P d hb, (subst P e ha, hs))
  All-Permᴰ P xs ys (Permᴰ.trans {l₂ = zs} p q) h = All-Permᴰ P zs ys q (All-Permᴰ P xs zs p h)

  AreDistinct-Permᴰ :
      (xs ys : List (DatedPublicKey c)) → Permᴰ xs ys → AreDistinct xs → AreDistinct ys
  AreDistinct-Permᴰ xs ys Permᴰ.nil h = tt
  AreDistinct-Permᴰ (a ∷ xs) (b ∷ ys) (Permᴰ.cons e p) (ha, hs) = (
    subst (λ t. All (λ other. t.starts_at ≢ other.starts_at) ys) e (All-Permᴰ _ xs ys p ha),
    AreDistinct-Permᴰ xs ys p hs,
  )
  AreDistinct-Permᴰ (a ∷ b ∷ xs) (x ∷ y ∷ ys) (Permᴰ.swap e d) ((ne, ha), (hb, hs)) =
      subst (λ t. AreDistinct (t ∷ y ∷ xs)) d
        (subst (λ t. AreDistinct (b ∷ t ∷ xs)) e (((λ q. ne (sym q)), hb), (ha, hs)))
  AreDistinct-Permᴰ xs ys (Permᴰ.trans {l₂ = zs} p q) h =
      AreDistinct-Permᴰ zs ys q (AreDistinct-Permᴰ xs zs p h)

module _ {c : Chrono} (h : IsChrono c) where
  -- One of two moments that differ comes first, and the other does not.
  one_way : (a b : c.DateTime) → a ≢ b → c.before a b ≡ true → c.before b a ≡ false
  one_way a b ne le = elim (Bool-cases (c.before b a)) [
    | inl ge ↦ absurd (ne (h.before_antisym a b le ge))
    | inr e ↦ e
  ]

  -- A key that does not come before a third does not come before one that does.
  not_past :
      (a b k : DatedPublicKey c)
      → c.before b.starts_at k.starts_at ≡ true
      → c.before a.starts_at k.starts_at ≡ false
      → c.before a.starts_at b.starts_at ≡ false
  not_past a b k bk ak = elim (Bool-cases (c.before a.starts_at b.starts_at)) [
    | inl ab ↦ absurd (true≢false (sym (h.before_trans _ _ _ ab bk) ∙ ak))
    | inr e ↦ e
  ]

  insert_comm :
      (a b : DatedPublicKey c) (keys : List (DatedPublicKey c))
      → a.starts_at ≢ b.starts_at
      → insert a (insert b keys) ≡ insert b (insert a keys)
  insert_comm a b [] ne = elim (Bool-cases (c.before a.starts_at b.starts_at)) [
    | inl e ↦ rw (e, one_way _ _ ne e) refl
    | inr e ↦ rw (e, other_way h _ _ e) refl
  ]
  insert_comm a b (k ∷ keys) ne = elim (Bool-cases (c.before b.starts_at k.starts_at)) [
    | inr bk ↦ elim (Bool-cases (c.before a.starts_at k.starts_at)) [
      | inr ak ↦ rw (bk, ak) (rw bk (ap (λ t. k ∷ t) (insert_comm a b keys ne)))
      | inl ak ↦ let ba = not_past b a k ak bk in rw (bk, ak) (rw (ba, bk) refl)
    ]
    | inl bk ↦ elim (Bool-cases (c.before a.starts_at k.starts_at)) [
      | inr ak ↦ let ab = not_past a b k bk ak in rw (bk, ak) (rw (ab, bk) refl)
      | inl ak ↦ elim (Bool-cases (c.before a.starts_at b.starts_at)) [
        | inl ab ↦ let ba = one_way _ _ ne ab in rw (bk, ak) (rw (ab, ba) (rw bk refl))
        | inr ab ↦ let ba = other_way h _ _ ab in rw (bk, ak) (rw (ab, ba) refl)
      ]
    ]
  ]

  -- The keys may be supplied in any order: of keys that start at different moments, each two
  -- orders make the same schedule.
  pub new-Perm : (xs ys : List (DatedPublicKey c)) → Permᴰ xs ys → AreDistinct xs → new xs ≡ new ys
  unfolding new
  new-Perm xs ys Permᴰ.nil distinct = refl
  new-Perm (a ∷ xs) (b ∷ ys) (Permᴰ.cons e p) (ha, hs) =
      ap (λ key. insert key (sort_by_key xs)) e ∙ ap (insert b) (new-Perm xs ys p hs)
  new-Perm (a ∷ b ∷ xs) (x ∷ y ∷ ys) (Permᴰ.swap e d) ((ne, ha), hs) =
      insert_comm a b (sort_by_key xs) ne
      ∙ ap (λ key. insert key (insert a (sort_by_key xs))) d
      ∙ ap (λ key. insert x (insert key (sort_by_key xs))) e
  new-Perm xs ys (Permᴰ.trans {l₂ = zs} p q) distinct =
      new-Perm xs zs p distinct ∙ new-Perm zs ys q (AreDistinct-Permᴰ xs zs p distinct)
