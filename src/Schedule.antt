-- ===== src/Schedule.antt =====
-- schedule.rs: the keys of a creator, and the key in force at a moment.
pub mod Choice
pub mod InForce
pub mod Until
pub mod Order
use owid_rust.Prelude.{
  ℕ, zero, suc, List, [], ◌∷◌, Bool, false, Option, none, some, get_elem?, if◌then◌else◌, not,
}
use owid_rust.Text.{Str}
use owid_rust.Platform.{Chrono}

pub record DatedPublicKey (c : Chrono) : Type 0 where
  pub starts_at : c.DateTime
  pub public_key_pem : Str

abbrev pub after_first : Bool → Option ℕ → Option ℕ
after_first here (some index) = some (suc index)
after_first here none = if here then some 0 else none

abbrev pub min_start : (c : Chrono) → c.DateTime → Option c.DateTime → Option c.DateTime
min_start c moment none = some moment
min_start c moment (some other) = if c.before moment other then some moment else some other

module _ {c : Chrono} where
  -- `sort_by_key` keeps the order of the keys with one start.
  abbrev pub insert : DatedPublicKey c → List (DatedPublicKey c) → List (DatedPublicKey c)
  insert key [] = key ∷ []
  insert key (other ∷ keys) =
      if c.before key.starts_at other.starts_at then key ∷ other ∷ keys else other ∷ insert key keys

  abbrev pub sort_by_key : List (DatedPublicKey c) → List (DatedPublicKey c)
  sort_by_key [] = []
  sort_by_key (key ∷ keys) = insert key (sort_by_key keys)

  -- `PublicKeySchedule::new`, which holds the keys alone.
  unfoldable pub new : List (DatedPublicKey c) → List (DatedPublicKey c)
  new keys = sort_by_key keys

  -- `iter().rposition(..)`
  abbrev pub rposition : (DatedPublicKey c → Bool) → List (DatedPublicKey c) → Option ℕ
  rposition p [] = none
  rposition p (key ∷ keys) = after_first (p key) (rposition p keys)

  -- An index past the end would panic; both are below the one that was found.
  abbrev pub same_start : Option (DatedPublicKey c) → Option (DatedPublicKey c) → Bool
  same_start (some key) (some other) = c.same key.starts_at other.starts_at
  same_start _ _ = false

  -- The loop: down to the first of the keys that start with the one at the index.
  abbrev pub first_of_start : List (DatedPublicKey c) → ℕ → ℕ
  first_of_start keys zero = zero
  first_of_start keys (suc index) =
      let rest = first_of_start keys index in
      if same_start (get_elem? keys index) (get_elem? keys (suc index)) then rest else suc index

  abbrev pub key_at : List (DatedPublicKey c) → Option ℕ → Option (DatedPublicKey c)
  key_at keys none = none
  key_at keys (some index) = get_elem? keys (first_of_start keys index)

  unfoldable pub key_in_force : List (DatedPublicKey c) → c.DateTime → Option (DatedPublicKey c)
  key_in_force keys at = key_at keys (rposition (λ key. c.before key.starts_at at) keys)

  -- `filter(..).map(..).min()`
  unfoldable pub next_start_after : List (DatedPublicKey c) → DatedPublicKey c → Option c.DateTime
  next_start_after [] key = none
  next_start_after (other ∷ keys) key =
      let rest = next_start_after keys key in
      if not (c.before other.starts_at key.starts_at)
      then min_start c other.starts_at rest
      else rest

  -- `now` is `Utc::now()`.
  unfoldable pub current : c.DateTime → List (DatedPublicKey c) → Option (DatedPublicKey c)
  unfolding key_in_force
  current now keys = key_in_force keys now
