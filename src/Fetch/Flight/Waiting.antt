-- ===== src/Fetch/Flight/Waiting.antt =====
-- Who waits for whom: the invariant of the fetches under way, and the events that move one caller.
use owid_rust.Prelude.{
  some_inj, ℕ, suc, ◌<◌, ◌≡◌, ◌≢◌, refl, sym, ap, subst, List, [], ◌∷◌, Bool, true, false, some,
  ◌==◌, any, arith, ==_iff, inl, inr, Bool-cases,
}
use owid_rust.Text.{Str}
use owid_rust.Text.Same.{same}
use owid_rust.Fetch.Cache.{Cache}
use owid_rust.Fetch.Flight.{
  InFlight, default, Caller, World, asking, polling, pending, leading, dropping, removed, set, get,
  delete, lead,
}

-- The fetch that a caller is making.
abbrev pub Makes : Caller → ℕ → Type 0
Makes (leading url is_recent k) id = k ≡ id
Makes (dropping url k outcome) id = k ≡ id
Makes (removed k outcome) id = k ≡ id
Makes caller id = ⊥

-- The fetch that a caller knows is one that was started.
abbrev pub IsKnown : ℕ → Caller → Type 0
IsKnown next (polling url is_recent id) = id < next
IsKnown next (pending url is_recent id) = id < next
IsKnown next (leading url is_recent id) = id < next
IsKnown next (dropping url id outcome) = id < next
IsKnown next (removed id outcome) = id < next
IsKnown next caller = Unit {0}

-- Whoever sleeps has left its waker with a fetch that has not ended.
abbrev pub IsRegistered : (ℕ → InFlight) → ℕ → Caller → Type 0
IsRegistered flights i (pending url is_recent id) =
    ((flights id).finished ≡ false) × (any (λ j. j == i) (flights id).wakers ≡ true)
IsRegistered flights i caller = Unit {0}

abbrev pub AreStarted : List (Str × ℕ) → ℕ → Type 0
AreStarted [] next = Unit {0}
AreStarted ((name, id) ∷ rest) next = (id < next) × AreStarted rest next

pub record IsAwake (w : World) : Type 0 where
  pub known : (i : ℕ) → IsKnown w.next (w.callers i)
  pub registered : (i : ℕ) → IsRegistered w.flights i (w.callers i)
  pub made :
      (id : ℕ) → id < w.next → (w.flights id).finished ≡ false → (i : ℕ) × Makes (w.callers i) id
  pub started : AreStarted w.cache.in_flight w.next

pub set_same {ℓ} : {A : Type ℓ} (f : ℕ → A) (i : ℕ) (x : A) → set f i x i ≡ x
set_same f i x = let e : (i == i) ≡ true = (==_iff i i).1 refl in rw e refl

pub set_other {ℓ} : {A : Type ℓ} (f : ℕ → A) (i j : ℕ) (x : A) → i ≢ j → set f i x j ≡ f j
set_other f i j x ne = elim (Bool-cases (i == j)) [
  | inl e ↦ absurd (ne ((==_iff i j).0 e))
  | inr e ↦ rw e refl
]

-- To prove a property at every place of a family with one place set.
pub set-P {ℓ} :
    {A : Type ℓ} (P : ℕ → A → Type 0) (f : ℕ → A) (i : ℕ) (x : A)
    → P i x
    → ((j : ℕ) → i ≢ j → P j (f j))
    → (j : ℕ) → P j (set f i x j)
set-P P f i x hx hf j = elim (Bool-cases (i == j)) [
  | inl e ↦ let same_place = (==_iff i j).0 e in rw e (subst (λ k. P k x) same_place hx)
  | inr e ↦ rw e (hf j λ same_place. cc ((==_iff i j).1 same_place))
]

-- A caller that moves on, the fetches left alone.
lt_irrefl : (n : ℕ) → ¬ (n < n)
lt_irrefl n h = omega arith

abbrev pub moved : World → Cache → ℕ → Caller → World
moved w cache i caller = record w { cache = cache; callers = set w.callers i caller }

pub moved-IsAwake :
    (w : World) (cache : Cache) (i : ℕ) (caller : Caller)
    → IsAwake w
    → AreStarted cache.in_flight w.next
    → IsKnown w.next caller
    → IsRegistered w.flights i caller
    → ((id : ℕ) → Makes (w.callers i) id → Makes caller id)
    → IsAwake (moved w cache i caller)
moved-IsAwake w cache i caller a s k r m = record {
  known = set-P (λ j x. IsKnown w.next x) w.callers i caller k (λ j ne. a.known j);
  registered =
      set-P (λ j x. IsRegistered w.flights j x) w.callers i caller r (λ j ne. a.registered j);
  made = λ id lt open_.
      let (j, makes) = a.made id lt open_ in
      elim (Bool-cases (i == j)) [
        | inl e ↦
            let same_place = (==_iff i j).0 e in
            (
              i,
              subst (λ x. Makes x id) (sym (set_same w.callers i caller))
                  (m id (subst (λ k. Makes (w.callers k) id) (sym same_place) makes)),
            )
        | inr e ↦ (j, rw e makes)
      ];
  started = s;
}

IsKnown-suc : (next : ℕ) (caller : Caller) → IsKnown next caller → IsKnown (suc next) caller
IsKnown-suc next Caller.idle h = tt
IsKnown-suc next (asking url is_recent) h = tt
IsKnown-suc next (polling url is_recent id) h = omega arith
IsKnown-suc next (pending url is_recent id) h = omega arith
IsKnown-suc next (leading url is_recent id) h = omega arith
IsKnown-suc next (dropping url id outcome) h = omega arith
IsKnown-suc next (removed id outcome) h = omega arith
IsKnown-suc next (Caller.done r) h = tt

AreStarted-suc :
    (entries : List (Str × ℕ)) (next : ℕ) → AreStarted entries next → AreStarted entries (suc next)
AreStarted-suc [] next h = tt
AreStarted-suc ((name, id) ∷ rest) next (h, hs) = (omega arith, AreStarted-suc rest next hs)

pub AreStarted-delete :
    (entries : List (Str × ℕ)) (next : ℕ) (url : Str)
    → AreStarted entries next
    → AreStarted (delete entries url) next
AreStarted-delete [] next url h = tt
AreStarted-delete ((name, id) ∷ rest) next url (h, hs) = elim (Bool-cases (same name url)) [
  | inl e ↦ rw e (AreStarted-delete rest next url hs)
  | inr e ↦ rw e (h, AreStarted-delete rest next url hs)
]

pub get-started :
    (entries : List (Str × ℕ)) (next : ℕ) (url : Str) {id : ℕ}
    → AreStarted entries next
    → get entries url ≡ some id
    → id < next
get-started [] next url h e = cc
get-started ((name, k) ∷ rest) next url (h, hs) e = elim (Bool-cases (same name url)) [
  | inl t ↦ subst (λ n. n < next) (some_inj (rw t at e)) h
  | inr t ↦ get-started rest next url hs (rw t at e)
]

-- A change of the fetches that keeps every sleeper of one that has not ended registered.
pub IsRegistered-set :
    (flights : ℕ → InFlight) (id : ℕ) (flight : InFlight) (j : ℕ) (caller : Caller)
    → IsRegistered flights j caller
    → ((url : Str) (is_recent : Bool)
        → caller ≡ pending url is_recent id
        → (flight.finished ≡ false) × (any (λ k. k == j) flight.wakers ≡ true))
    → IsRegistered (set flights id flight) j caller
IsRegistered-set flights id flight j (pending url is_recent k) r h = elim (Bool-cases (id == k)) [
  | inl e ↦
      let same_id = (==_iff id k).0 e in
      rw e (h url is_recent (ap (pending url is_recent) (sym same_id)))
  | inr e ↦ rw e r
]
IsRegistered-set flights id flight j Caller.idle r h = tt
IsRegistered-set flights id flight j (asking url is_recent) r h = tt
IsRegistered-set flights id flight j (polling url is_recent k) r h = tt
IsRegistered-set flights id flight j (leading url is_recent k) r h = tt
IsRegistered-set flights id flight j (dropping url k outcome) r h = tt
IsRegistered-set flights id flight j (removed k outcome) r h = tt
IsRegistered-set flights id flight j (Caller.done result) r h = tt

pub IsKnown-pending :
    (next id : ℕ) (url : Str) (is_recent : Bool) (caller : Caller)
    → caller ≡ pending url is_recent id
    → IsKnown next caller
    → id < next
IsKnown-pending next id url is_recent caller e h = rw e at h

pub lead-IsAwake :
    (w : World) (i : ℕ) (url : Str) (is_recent : Bool)
    → w.callers i ≡ asking url is_recent
    → IsAwake w
    → IsAwake (lead w i url is_recent)
lead-IsAwake w i url is_recent asks a = record {
  known =
      set-P (λ j x. IsKnown (suc w.next) x) w.callers i _ (omega arith)
        (λ j ne. IsKnown-suc w.next (w.callers j) (a.known j));
  registered =
      set-P (λ j x. IsRegistered (set w.flights w.next default) j x) w.callers i _ tt
        (λ j ne.
          IsRegistered-set w.flights w.next default j (w.callers j) (a.registered j) (λ u b e.
            absurd
              (lt_irrefl w.next (IsKnown-pending w.next w.next u b (w.callers j) e (a.known j)))));
  made = λ id lt open_. elim (Bool-cases (w.next == id)) [
    | inl e ↦ (i, rw (set_same w.callers i (leading url is_recent w.next)) ((==_iff w.next id).0 e))
    | inr e ↦
        let older : id < w.next = ground arith in
        let (j, makes) = a.made id older (rw e at open_) in
        (
          j,
          elim (Bool-cases (i == j)) [
            | inl f ↦
                let same_place = (==_iff i j).0 f in
                absurd (
                  subst (λ x. Makes x id) asks
                    (subst (λ k. Makes (w.callers k) id) (sym same_place) makes))
            | inr f ↦ rw f makes
          ],
        )
  ];
  started = (omega arith, AreStarted-suc w.cache.in_flight w.next a.started);
}
