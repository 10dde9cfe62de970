-- ===== src/Fetch/Cache/Apart.antt =====
-- Spans of the keys held that do not overlap, and the changes that keep them so.
use owid_rust.Prelude.{
  ℕ, zero, suc, ◌≡◌, refl, List, [], ◌∷◌, ◌++◌, Bool, true, false, any, All, All-append, leb, ◌||◌,
  inl, inr, Bool-cases,
}
use owid_rust.Fetch.{HeldKey}
use owid_rust.Fetch.Cache.{Span, update, any_other, overlaps, set_span, add_flags}
use owid_rust.Fetch.Cache.Spans.{update-All}

abbrev pub IsClear : ℕ → ℕ → HeldKey → Type 0
IsClear first last key = overlaps first last key ≡ false

-- No two keys of the list cover a minute together.
abbrev pub Apart : List HeldKey → Type 0
Apart [] = Unit {0}
Apart (key ∷ keys) = All (IsClear key.first key.last) keys × Apart keys

or_false : (a b : Bool) → (a || b) ≡ false → (a ≡ false) × (b ≡ false)
or_false true b h = cc
or_false false b h = (refl, h)

pub any-All :
    (first last : ℕ) (keys : List HeldKey)
    → any (overlaps first last) keys ≡ false
    → All (IsClear first last) keys
any-All first last [] h = tt
any-All first last (k ∷ keys) h = let (a, b) = or_false _ _ h in (a, any-All first last keys b)

IsClear-sym : (a b : HeldKey) → IsClear a.first a.last b → IsClear b.first b.last a
IsClear-sym a b h = elim (Bool-cases (leb a.first b.last)) [
  | inl e ↦ elim (Bool-cases (leb b.first a.last)) [ inl o ↦ cc | inr o ↦ rw o refl ]
  | inr e ↦ elim (Bool-cases (leb b.first a.last)) [ inl o ↦ rw (o, e) refl | inr o ↦ rw o refl ]
]

pub set_span-Apart :
    (keys : List HeldKey) (i first last : ℕ)
    → any_other (overlaps first last) keys i ≡ false
    → Apart keys
    → Apart (update keys i (set_span first last))
set_span-Apart [] i first last h apart = tt
set_span-Apart (k ∷ keys) zero first last h (hk, hs) = (any-All first last keys h, hs)
set_span-Apart (k ∷ keys) (suc i) first last h (hk, hs) =
    let (a, b) = or_false _ _ h in
    (
      update-All (IsClear k.first k.last) keys i _ hk
          (λ o at clear. IsClear-sym (set_span first last o) k a),
      set_span-Apart keys i first last b hs,
    )

pub add_flags-Apart :
    (keys : List HeldKey) (i : ℕ) (span : Span)
    → Apart keys
    → Apart (update keys i (add_flags span))
add_flags-Apart [] i span apart = tt
add_flags-Apart (k ∷ keys) zero span apart = apart
add_flags-Apart (k ∷ keys) (suc i) span (hk, hs) = (
  update-All (IsClear k.first k.last) keys i _ hk (λ o at clear. clear),
  add_flags-Apart keys i span hs,
)

pub append-Apart :
    (keys : List HeldKey) (key : HeldKey)
    → All (IsClear key.first key.last) keys
    → Apart keys
    → Apart (keys ++ (key ∷ []))
append-Apart [] key h apart = (tt, tt)
append-Apart (k ∷ keys) key (h, hs) (hk, apart) = (
  All-append (IsClear k.first k.last) keys (key ∷ []) hk (IsClear-sym key k h, tt),
  append-Apart keys key hs apart,
)
