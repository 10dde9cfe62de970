-- ===== src/Tests/Keys.antt =====
-- The schedule and the cache of keys: the theorems at small ones, and some runs.
use mathlib.Core.List.{Permᴰ}
use owid_rust.Prelude.{
  ℕ, ◌≡◌, refl, List, [], ◌∷◌, true, false, none, some, arith, ltb, if◌then◌else◌,
}
use owid_rust.Text.{Str, text}
use owid_rust.Fetch.{known, stated, answer_stated}
use owid_rust.Fetch.Cache.{Cache, hold, held_for, span_of, hold_keys, hold_among, widen}
use owid_rust.Fetch.Cache.Truth.{IsRotation}
use owid_rust.Fetch.Cache.Served.{Reachable, at_start, answered, held_for-in_force}
use owid_rust.Fetch.Cache.Count.{IsWellFormed, hold-IsWellFormed}
use owid_rust.Schedule.{DatedPublicKey, new, key_in_force, next_start_after}
use owid_rust.Schedule.Choice.{latest}
use owid_rust.Schedule.InForce.{key_in_force-new}
use owid_rust.Schedule.Until.{key_in_force-next_start_after}
use owid_rust.Schedule.Order.{AreDistinct, new-Perm}
use owid_rust.Tests.Sample.{clock, clock-IsChrono}

-- Every creator signs with one key up to minute 99 and with another from minute 100 on.
abbrev key_text : ℕ → Str
key_text minute = if ltb minute 100 then text "first" else text "second"

abbrev rotating : Str → ℕ → Str
rotating name minute = key_text minute

rotating-IsRotation : IsRotation rotating
rotating-IsRotation name a m b am mb same = ground arith

abbrev empty_cache : Cache
empty_cache = record { keys = []; held = 0; in_flight = [] }

-- An answer about minute 20 that states the span from 10 to 99, the next key starting at 100.
abbrev one_held : Cache
one_held = record {
  keys =
      (
        text "a",
        record { pem = text "first"; first = 10; last = 99; explicit = true; open_ended = false }
            ∷ [],
      )
      ∷ [];
  held = 1;
  in_flight = [];
}

run_once :
    hold (some 500) empty_cache (text "a") (some 20) false (text "first") (some 10) (some 100)
    ≡ (one_held, known (text "first") 10 99)
unfolding hold span_of hold_keys answer_stated
run_once = refl

one_held-Reachable : Reachable rotating one_held
unfolding hold span_of hold_keys answer_stated
one_held-Reachable =
    answered (some 500) (text "a") (some 20) false (text "first") (some 10) (some 100) at_start
      (λ le m lo hi. ground arith, λ le. absurd (omega arith))

served : held_for one_held (text "a") 50 false ≡ some (known (text "first") 10 99)
unfolding held_for stated
served = refl

held_for-in_force_example : text "first" ≡ rotating (text "a") 50
held_for-in_force_example =
    held_for-in_force rotating rotating-IsRotation (text "a") 50 false one_held-Reachable served

hold-IsWellFormed_example :
    IsWellFormed
      (hold (some 500) one_held (text "a") (some 120) false (text "second") (some 100) none).0
hold-IsWellFormed_example =
    hold-IsWellFormed (some 500) one_held (text "a") (some 120) false (text "second") (some 100)
      none (refl, omega arith, ((tt, tt), tt))

-- An answer whose span meets that of another key is not held.
refused_overlap :
    (hold (some 500) one_held (text "a") (some 60) false (text "other") (some 50) (some 60)).0
    ≡ one_held
unfolding hold span_of hold_keys hold_among
refused_overlap = refl

-- A key confirmed again has its span widened.
widened :
    held_for
      (hold (some 500) one_held (text "a") (some 5) false (text "first") none none).0
      (text "a")
      7
      false
    ≡ some (known (text "first") 5 99)
unfolding hold span_of hold_keys hold_among held_for stated widen
widened = refl

abbrev dated : ℕ → ℕ → DatedPublicKey clock
dated start name = record { starts_at = start; public_key_pem = name ∷ [] }

-- Supplied out of order, two of them with one start.
abbrev supplied : List (DatedPublicKey clock)
supplied = dated 30 3 ∷ dated 10 1 ∷ dated 20 2 ∷ dated 20 4 ∷ []

key_in_force-new_example : key_in_force (new supplied) 25 ≡ latest clock-IsChrono 25 supplied
key_in_force-new_example = key_in_force-new clock-IsChrono 25 supplied

the_first_of_two : key_in_force (new supplied) 25 ≡ some (dated 20 2)
unfolding key_in_force new
the_first_of_two = refl

before_all : key_in_force (new supplied) 5 ≡ none
unfolding key_in_force new
before_all = refl

key_in_force-next_start_after_example : key_in_force (new supplied) 29 ≡ some (dated 20 2)
unfolding next_start_after new
key_in_force-next_start_after_example =
    key_in_force-next_start_after clock-IsChrono supplied (dated 20 2) 25 29 the_first_of_two refl
      refl

abbrev early : DatedPublicKey clock
early = record { starts_at = 10; public_key_pem = text "early" }

abbrev late : DatedPublicKey clock
late = record { starts_at = 20; public_key_pem = text "late" }

late_first-AreDistinct : AreDistinct (late ∷ early ∷ [])
late_first-AreDistinct = (((λ e. absurd (omega arith)), tt), (tt, tt))

new-Perm_example : new {c = clock} (late ∷ early ∷ []) ≡ new {c = clock} (early ∷ late ∷ [])
new-Perm_example =
    new-Perm clock-IsChrono (late ∷ early ∷ []) (early ∷ late ∷ []) (Permᴰ.swap refl refl)
      late_first-AreDistinct
