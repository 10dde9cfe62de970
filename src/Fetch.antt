-- ===== src/Fetch.antt =====
-- fetch.rs: the keys that a creator answered with, the spans they cover, and what is asked.
pub mod Cache
pub mod Verify
pub mod Url
pub mod Request
pub mod Flight
pub mod Sole
use owid_rust.Prelude.{
  ℕ, ◌+◌, ◌-◌, ◌≤◌, Bool, true, false, Option, none, some, leb, ltb, ◌&&◌, if◌then◌else◌,
}
use owid_rust.Text.{Str}
use owid_rust.Io.{u32_max}

abbrev pub maximum_cached_keys : ℕ
maximum_cached_keys = 1024

abbrev pub clock_drift_allowance_minutes : ℕ
clock_drift_allowance_minutes = 15

pub record HeldKey : Type 0 where
  pub pem : Str
  pub first : ℕ
  pub last : ℕ
  pub explicit : Bool
  pub open_ended : Bool

pub record KeyAnswer : Type 0 where
  pub pem : Str
  pub first : ℕ
  pub last : ℕ
  pub known : Bool

-- `HeldKey::covers`
abbrev pub covers : HeldKey → ℕ → Bool
covers key minute = leb key.first minute && leb minute key.last

abbrev pub known : Str → ℕ → ℕ → KeyAnswer
known pem first last = record { pem = pem; first = first; last = last; known = true }

abbrev pub unknown : Str → KeyAnswer
unknown pem = record { pem = pem; first = 0; last = 0; known = false }

-- `KeyAnswer::stated`
unfoldable pub answer_stated : Str → Option ℕ → Option ℕ → KeyAnswer
answer_stated pem none end = unknown pem
answer_stated pem (some start) none = known pem start u32_max
answer_stated pem (some start) (some end) =
    if ltb start end then known pem start (end - 1) else known pem start u32_max

-- `HeldKey::stated`
unfoldable pub stated : HeldKey → KeyAnswer
stated key =
    if key.explicit
    then known key.pem key.first key.last
    else if key.open_ended
    then known key.pem key.first u32_max
    else unknown key.pem

-- `KeyAnswer::covers`
unfoldable pub answer_covers : KeyAnswer → ℕ → Bool
answer_covers answer minute = answer.known && leb answer.first minute && leb minute answer.last

-- `a.abs_diff(b)`
abbrev abs_diff : ℕ → ℕ → ℕ
abs_diff a b = if ltb a b then b - a else a - b

unfoldable pub near_edge : ℕ → ℕ → Bool
near_edge minute edge = leb (abs_diff minute edge) clock_drift_allowance_minutes

-- `minutes_since_base(&Utc::now()).unwrap_or(u32::MAX)`, from the count at the call.
abbrev pub minute_now : Option ℕ → ℕ
minute_now none = u32_max
minute_now (some minute) = minute

-- The latest minute that no clock inside the allowance reads as its present.
abbrev pub settled : Option ℕ → ℕ
settled clock = minute_now clock - clock_drift_allowance_minutes

unfoldable pub recent : Option ℕ → ℕ → Bool
recent clock minute = ltb (settled clock) minute
