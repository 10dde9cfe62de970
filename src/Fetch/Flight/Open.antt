-- ===== src/Fetch/Flight/Open.antt =====
-- The map of the fetches under way holds no fetch that has ended.
use owid_rust.Prelude.{
  ℕ, ◌≡◌, refl, sym, subst, List, [], ◌∷◌, Bool, false, Option, none, some, ok, ◌==◌, ==_iff,
  Bool-cases, inl, inr, if◌then◌else◌, map_err,
}
use owid_rust.Text.{Str}
use owid_rust.Fetch.{KeyAnswer}
use owid_rust.Fetch.Cache.{Cache}
use owid_rust.Fetch.Flight.{
  Outcome, InFlight, Caller, World, asking, polling, pending, leading, dropping, removed, default,
  into_error, set, lead, take_turn, register, after_wait, poll_finished,
}
use owid_rust.Fetch.Flight.Waiting.{Makes, IsAwake, set_same}
use owid_rust.Fetch.Flight.Single.{IsSole, made_before, lead-IsSole}

-- The caller makes the fetch of the URL, and its entry has not been removed by it.
abbrev pub Leads : Caller → Str → ℕ → Type 0
Leads (leading name is_recent k) url id = (name ≡ url) × (k ≡ id)
Leads (dropping name k outcome) url id = (name ≡ url) × (k ≡ id)
Leads caller url id = ⊥

-- Every entry of the map is of a fetch that some caller leads.
abbrev pub AreLed : (ℕ → Caller) → List (Str × ℕ) → Type 0
AreLed callers [] = Unit {0}
AreLed callers ((url, id) ∷ rest) = ((j : ℕ) × Leads (callers j) url id) × AreLed callers rest

pub record IsOpen (w : World) : Type 0 where
  pub sole : IsSole w
  pub unfinished : (i id : ℕ) → Makes (w.callers i) id → (w.flights id).finished ≡ false
  pub led : AreLed w.callers w.cache.in_flight

pub Leads-Makes : (caller : Caller) (url : Str) (id : ℕ) → Leads caller url id → Makes caller id
Leads-Makes (leading name r k) url id (e, f) = f
Leads-Makes (dropping name k o) url id (e, f) = f
Leads-Makes Caller.idle url id h = absurd h
Leads-Makes (asking name r) url id h = absurd h
Leads-Makes (polling name r k) url id h = absurd h
Leads-Makes (pending name r k) url id h = absurd h
Leads-Makes (removed k o) url id h = absurd h
Leads-Makes (Caller.done o) url id h = absurd h

pub AreLed-map :
    (callers later : ℕ → Caller) (entries : List (Str × ℕ))
    → ((j : ℕ) (url : Str) (id : ℕ) → Leads (callers j) url id → Leads (later j) url id)
    → AreLed callers entries
    → AreLed later entries
AreLed-map callers later [] f h = tt
AreLed-map callers later ((url, id) ∷ rest) f ((j, leads), hs) =
    ((j, f j url id leads), AreLed-map callers later rest f hs)

-- A leader that is not the one that moves leads on.
pub Leads-set :
    (callers : ℕ → Caller) (i : ℕ) (caller : Caller) (j : ℕ) (url : Str) (id : ℕ)
    → (Leads (callers i) url id → Leads caller url id)
    → Leads (callers j) url id
    → Leads (set callers i caller j) url id
Leads-set callers i caller j url id f leads = elim (Bool-cases (i == j)) [
  | inl e ↦
      let same_place = (==_iff i j).0 e in
      rw e (f (subst (λ k. Leads (callers k) url id) (sym same_place) leads))
  | inr e ↦ rw e leads
]

pub moved-IsOpen :
    (w : World) (flights : ℕ → InFlight) (cache : Cache) (i : ℕ) (caller : Caller)
    → IsOpen w
    → ((k : ℕ) → (w.flights k).finished ≡ false → (flights k).finished ≡ false)
    → cache.in_flight ≡ w.cache.in_flight
    → ((id : ℕ) → Makes caller id → Makes (w.callers i) id)
    → ((url : Str) (id : ℕ) → Leads (w.callers i) url id → Leads caller url id)
    → IsOpen (record w { flights = flights; cache = cache; callers = set w.callers i caller })
moved-IsOpen w flights cache i caller o keeps same_entries back on = record {
  sole = λ id a b ma mb.
      o.sole id a b (made_before w.callers i a caller id (back id) ma)
        (made_before w.callers i b caller id (back id) mb);
  unfinished = λ j id makes.
      keeps id (o.unfinished j id (made_before w.callers i j caller id (back id) makes));
  led = subst (AreLed (set w.callers i caller)) (sym same_entries) (
      AreLed-map w.callers (set w.callers i caller) w.cache.in_flight
        (λ j url id. Leads-set w.callers i caller j url id (on url id)) o.led);
}

-- A fetch that starts has a number that no caller's has, so it ends none.
lead-unfinished :
    (w : World) (i : ℕ) (url : Str) (is_recent : Bool)
    → IsAwake w
    → IsOpen w
    → (j id : ℕ) → Makes (set w.callers i (leading url is_recent w.next) j) id
    → (set w.flights w.next default id).finished ≡ false
lead-unfinished w i url is_recent a o j id makes = elim (Bool-cases (w.next == id)) [
  | inl e ↦ rw e refl
  | inr e ↦ elim (Bool-cases (i == j)) [
    | inl f ↦ let newest : w.next ≡ id = rw f at makes in cc ((==_iff w.next id).1 newest)
    | inr f ↦ rw e (o.unfinished j id (rw f at makes))
  ]
]

lead-IsOpen :
    (w : World) (i : ℕ) (url : Str) (is_recent : Bool)
    → w.callers i ≡ asking url is_recent
    → IsAwake w
    → IsOpen w
    → IsOpen (lead w i url is_recent)
lead-IsOpen w i url is_recent at a o = record {
  sole = lead-IsSole w i url is_recent a o.sole;
  unfinished = lead-unfinished w i url is_recent a o;
  led = (
    (
      i,
      subst (λ x. Leads x url w.next) (sym (set_same w.callers i (leading url is_recent w.next)))
          (refl, refl),
    ),
    AreLed-map w.callers (set w.callers i (leading url is_recent w.next)) w.cache.in_flight
        (λ j name id.
          Leads-set w.callers i (leading url is_recent w.next) j name id
            (λ leads. absurd (rw at at leads)))
        o.led,
  );
}

pub take_turn-IsOpen :
    (w : World) (i : ℕ) (url : Str) (is_recent : Bool) (answer : Option KeyAnswer)
    (flight : Option ℕ)
    → w.callers i ≡ asking url is_recent
    → IsAwake w
    → IsOpen w
    → IsOpen (take_turn w i url is_recent answer flight)
take_turn-IsOpen w i url is_recent (some answer) flight at a o =
    moved-IsOpen w w.flights w.cache i (Caller.done (ok answer)) o (λ k e. e) refl
      (λ id makes. absurd makes) (λ name id leads. absurd (rw at at leads))
take_turn-IsOpen w i url is_recent none (some id) at a o =
    moved-IsOpen w w.flights w.cache i (polling url is_recent id) o (λ k e. e) refl
      (λ id makes. absurd makes) (λ name id leads. absurd (rw at at leads))
take_turn-IsOpen w i url is_recent none none at a o = lead-IsOpen w i url is_recent at a o

register-unfinished :
    (flights : ℕ → InFlight) (id i k : ℕ)
    → (flights k).finished ≡ false
    → (set flights id (register (flights id) i) k).finished ≡ false
register-unfinished flights id i k h = elim (Bool-cases (id == k)) [
  | inl e ↦ rw e (subst (λ n. (flights n).finished ≡ false) (sym ((==_iff id k).0 e)) h)
  | inr e ↦ rw e h
]

after_wait-IsOpen :
    (w : World) (i : ℕ) (url : Str) (is_recent : Bool) (outcome : Option Outcome)
    → ((name : Str) (id : ℕ) → ¬ Leads (w.callers i) name id)
    → IsOpen w
    → IsOpen (record w { callers = set w.callers i (after_wait url is_recent outcome) })
after_wait-IsOpen w i url is_recent none leads_none o =
    moved-IsOpen w w.flights w.cache i (asking url is_recent) o (λ k e. e) refl
      (λ id makes. absurd makes) (λ name id leads. absurd (leads_none name id leads))
after_wait-IsOpen w i url is_recent (some outcome) leads_none o =
    moved-IsOpen w w.flights w.cache i (Caller.done (map_err into_error outcome)) o (λ k e. e) refl
      (λ id makes. absurd makes) (λ name id leads. absurd (leads_none name id leads))

pub poll_finished-IsOpen :
    (w : World) (i : ℕ) (url : Str) (is_recent : Bool) (id : ℕ)
    → ((name : Str) (k : ℕ) → ¬ Leads (w.callers i) name k)
    → IsOpen w
    → IsOpen (poll_finished w i url is_recent id)
unfolding poll_finished
poll_finished-IsOpen w i url r id leads_none o = elim (Bool-cases (w.flights id).finished) [
  | inl e ↦ rw e (after_wait-IsOpen w i url r (w.flights id).outcome leads_none o)
  | inr e ↦
      subst
        (λ b. IsOpen (
          if b
          then record w { callers = set w.callers i (after_wait url r (w.flights id).outcome) }
          else record w {
            flights = set w.flights id (register (w.flights id) i);
            callers = set w.callers i (pending url r id);
          }))
        (sym e)
        (moved-IsOpen w (set w.flights id (register (w.flights id) i)) w.cache i (pending url r id)
          o (register-unfinished w.flights id i) refl (λ k makes. absurd makes)
          (λ name k leads. absurd (leads_none name k leads)))
]
