-- ===== src/Text/Same.antt =====
-- Two texts compared, as `==` of `str` does.
use owid_rust.Prelude.{
  ◌≡◌, refl, Bool, true, false, ◌&&◌, [], ◌∷◌, ◌==◌, ==_iff, Bool-cases, inl, inr,
}
use owid_rust.Text.{Str}

abbrev pub same : Str → Str → Bool
same [] [] = true
same [] (d ∷ t) = false
same (c ∷ s) [] = false
same (c ∷ s) (d ∷ t) = (c == d) && same s t

pub same→≡ : (s t : Str) → same s t ≡ true → s ≡ t
same→≡ [] [] h = refl
same→≡ [] (d ∷ t) h = cc
same→≡ (c ∷ s) [] h = cc
same→≡ (c ∷ s) (d ∷ t) h = elim (Bool-cases (c == d)) [
  | inl e ↦ cc ((==_iff c d).0 e, same→≡ s t (rw e at h))
  | inr e ↦ cc (rw e at h)
]

pub same_refl : (s : Str) → same s s ≡ true
same_refl [] = refl
same_refl (c ∷ s) = rw ((==_iff c c).1 refl, same_refl s)
