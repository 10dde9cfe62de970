-- ===== src/Fetch/Flight/Single.antt =====
-- One request at a time: whoever makes a fetch of a URL is the only one, until the cache is cleared.
use owid_rust.Prelude.{
  some_inj, ℕ, ◌<◌, ◌≡◌, refl, sym, ap, ◌∙◌, subst, List, [], ◌∷◌, Bool, false, none, some, arith,
  ◌==◌, ==_iff, Bool-cases, inl, inr,
}
use owid_rust.Text.{Str}
use owid_rust.Text.Same.{same, same→≡, same_refl}
use owid_rust.Fetch.Cache.{Cache}
use owid_rust.Fetch.Flight.{
  InFlight, Caller, World, polling, asking, pending, leading, dropping, removed, set, get, delete,
  lead,
}
use owid_rust.Fetch.Flight.Waiting.{Makes, IsKnown, IsAwake, set-P}

-- A leader that still holds its entry finds its own fetch there.
abbrev pub IsEntered : List (Str × ℕ) → Caller → Type 0
IsEntered entries (leading url is_recent id) = get entries url ≡ some id
IsEntered entries (dropping url id outcome) = get entries url ≡ some id
IsEntered entries caller = Unit {0}

-- No two callers make one fetch.
abbrev pub IsSole : World → Type 0
IsSole w = (id i j : ℕ) → Makes (w.callers i) id → Makes (w.callers j) id → i ≡ j

pub record IsSingle (w : World) : Type 0 where
  pub single : IsSole w
  pub entered : (i : ℕ) → IsEntered w.cache.in_flight (w.callers i)

-- What a caller makes after one of them moved on is what it made before.
pub made_before :
    (callers : ℕ → Caller) (i j : ℕ) (caller : Caller) (id : ℕ)
    → (Makes caller id → Makes (callers i) id)
    → Makes (set callers i caller j) id
    → Makes (callers j) id
made_before callers i j caller id back makes = elim (Bool-cases (i == j)) [
  | inl e ↦ subst (λ k. Makes (callers k) id) ((==_iff i j).0 e) (back (rw e at makes))
  | inr e ↦ rw e at makes
]

pub moved-IsSingle :
    (w : World) (flights : ℕ → InFlight) (cache : Cache) (i : ℕ) (caller : Caller)
    → IsSingle w
    → cache.in_flight ≡ w.cache.in_flight
    → IsEntered w.cache.in_flight caller
    → ((id : ℕ) → Makes caller id → Makes (w.callers i) id)
    → IsSingle (record w { flights = flights; cache = cache; callers = set w.callers i caller })
moved-IsSingle w flights cache i caller s same_entries h back = record {
  single = λ id a b ma mb.
      s.single id a b (made_before w.callers i a caller id (back id) ma)
        (made_before w.callers i b caller id (back id) mb);
  entered =
      subst (λ entries. (j : ℕ) → IsEntered entries (set w.callers i caller j)) (sym same_entries)
        (set-P (λ j x. IsEntered w.cache.in_flight x) w.callers i caller h (λ j ne. s.entered j));
}

pub Makes-IsKnown :
    (next : ℕ) (caller : Caller) (id : ℕ) → IsKnown next caller → Makes caller id → id < next
Makes-IsKnown next (leading url r k) id h e = subst (λ n. n < next) e h
Makes-IsKnown next (dropping url k o) id h e = subst (λ n. n < next) e h
Makes-IsKnown next (removed k o) id h e = subst (λ n. n < next) e h
Makes-IsKnown next Caller.idle id h e = absurd e
Makes-IsKnown next (asking url r) id h e = absurd e
Makes-IsKnown next (polling url r k) id h e = absurd e
Makes-IsKnown next (pending url r k) id h e = absurd e
Makes-IsKnown next (Caller.done o) id h e = absurd e

get-cons :
    (entries : List (Str × ℕ)) (url name : Str) (id k : ℕ)
    → get entries url ≡ none
    → get entries name ≡ some k
    → get ((url, id) ∷ entries) name ≡ some k
get-cons entries url name id k vacant there = elim (Bool-cases (same url name)) [
  | inl e ↦ cc (vacant, there, ap (get entries) (same→≡ url name e))
  | inr e ↦ rw e there
]

IsEntered-cons :
    (entries : List (Str × ℕ)) (url : Str) (id : ℕ) (caller : Caller)
    → get entries url ≡ none
    → IsEntered entries caller
    → IsEntered ((url, id) ∷ entries) caller
IsEntered-cons entries url id (leading name r k) vacant h = get-cons entries url name id k vacant h
IsEntered-cons entries url id (dropping name k o) vacant h = get-cons entries url name id k vacant h
IsEntered-cons entries url id (removed k o) vacant h = tt
IsEntered-cons entries url id Caller.idle vacant h = tt
IsEntered-cons entries url id (asking name r) vacant h = tt
IsEntered-cons entries url id (polling name r k) vacant h = tt
IsEntered-cons entries url id (pending name r k) vacant h = tt
IsEntered-cons entries url id (Caller.done o) vacant h = tt

-- The new fetch has a number that nobody's has.
apart : {m n : ℕ} → m ≡ n → ¬ (n < m)
apart e h = omega arith

pub lead-IsSole :
    (w : World) (i : ℕ) (url : Str) (is_recent : Bool)
    → IsAwake w
    → IsSole w
    → IsSole (lead w i url is_recent)
lead-IsSole w i url is_recent k s id a b ma mb = elim (Bool-cases (i == a)) [
  | inl e ↦ elim (Bool-cases (i == b)) [
    | inl f ↦ ground arith
    | inr f ↦
        let newest : w.next ≡ id = rw e at ma in
        let older = Makes-IsKnown w.next (w.callers b) id (k.known b) (rw f at mb) in
        absurd (apart newest older)
  ]
  | inr e ↦ elim (Bool-cases (i == b)) [
    | inl f ↦
        let newest : w.next ≡ id = rw f at mb in
        let older = Makes-IsKnown w.next (w.callers a) id (k.known a) (rw e at ma) in
        absurd (apart newest older)
    | inr f ↦ s id a b (rw e at ma) (rw f at mb)
  ]
]

pub lead-IsSingle :
    (w : World) (i : ℕ) (url : Str) (is_recent : Bool)
    → get w.cache.in_flight url ≡ none
    → IsAwake w
    → IsSingle w
    → IsSingle (lead w i url is_recent)
lead-IsSingle w i url is_recent vacant k s = record {
  single = lead-IsSole w i url is_recent k s.single;
  entered =
      set-P (λ j x. IsEntered ((url, w.next) ∷ w.cache.in_flight) x) w.callers i
        (leading url is_recent w.next) (rw (same_refl url) refl)
        (λ j ne. IsEntered-cons w.cache.in_flight url w.next (w.callers j) vacant (s.entered j));
}

pub get-delete :
    (entries : List (Str × ℕ)) (url name : Str)
    → same url name ≡ false
    → get (delete entries url) name ≡ get entries name
get-delete [] url name e = refl
get-delete ((key, id) ∷ rest) url name e = elim (Bool-cases (same key url)) [
  | inl f ↦
      let other : same key name ≡ false =
        subst (λ t. same t name ≡ false) (sym (same→≡ key url f)) e in
      rw (f, other) (get-delete rest url name e)
  | inr f ↦ elim (Bool-cases (same key name)) [
    | inl g ↦ rw (f, g) refl
    | inr g ↦ rw (f, g) (get-delete rest url name e)
  ]
]

-- Taking an entry away leaves every other fetch its own.
pub IsEntered-delete :
    (entries : List (Str × ℕ)) (url : Str) (id : ℕ) (caller : Caller)
    → get entries url ≡ some id
    → ¬ Makes caller id
    → IsEntered entries caller
    → IsEntered (delete entries url) caller
IsEntered-delete entries url id (leading name r k) there other h =
    elim (Bool-cases (same url name)) [
      | inl e ↦
          absurd (other (some_inj (sym h ∙ ap (get entries) (sym (same→≡ url name e)) ∙ there)))
      | inr e ↦ get-delete entries url name e ∙ h
    ]
IsEntered-delete entries url id (dropping name k o) there other h =
    elim (Bool-cases (same url name)) [
      | inl e ↦
          absurd (other (some_inj (sym h ∙ ap (get entries) (sym (same→≡ url name e)) ∙ there)))
      | inr e ↦ get-delete entries url name e ∙ h
    ]
IsEntered-delete entries url id (removed k o) there other h = tt
IsEntered-delete entries url id Caller.idle there other h = tt
IsEntered-delete entries url id (asking name r) there other h = tt
IsEntered-delete entries url id (polling name r k) there other h = tt
IsEntered-delete entries url id (pending name r k) there other h = tt
IsEntered-delete entries url id (Caller.done o) there other h = tt
