-- ===== src/Tests/Sample.antt =====
-- A machine of 64 bits that reserves up to a megabyte, a clock that counts seconds from 1970, and
-- an OWID of the current version.
use owid_rust.Prelude.{
  ℕ, zero, suc, ◌+◌, ◌-◌, ◌*◌, ◌/◌, ◌^◌, ◌<◌, ◌≡◌, refl, [], ◌∷◌, leb, ltb, ◌==◌, if◌then◌else◌,
  arith, ==_iff, le→leb,
}
use native.Mathlib.Nat.{mul-div_cancel}
use owid_rust.Prelude.Int.{ℤ, pos, negsuc, sub_ℕ}
use owid_rust.Text.{text}
use owid_rust.Text.Utf8.{as_bytes, encode_char}
use owid_rust.Platform.{Machine, Chrono, IsChrono}
use owid_rust.Version.{version3}
use owid_rust.Io.{Bytes, minutes_since_base}
use owid_rust.Owid.{Owid}
use owid_rust.Envelope.{IsEncodable}

abbrev pub machine : Machine
machine = record { usize_max = 2 ^ 64 - 1; can_reserve = λ n. leb n 1048576 }

-- Whole units of so many seconds, towards zero.
abbrev units : ℕ → ℤ → ℤ
units k (pos n) = pos (n / k)
units k (negsuc n) = if ltb (n + 1) k then pos 0 else negsuc ((n + 1) / k - 1)

abbrev pub clock : Chrono
clock = record {
  DateTime = ℕ;
  TimeDelta = ℤ;
  from_timestamp = λ s. s;
  difference = sub_ℕ;
  num_minutes = units 60;
  num_hours = units 3600;
  add = λ d t. elim t [ pos n ↦ d + n | negsuc n ↦ d - n - 1 ];
  minutes = λ n. pos (n * 60);
  hours = λ n. pos (n * 3600);
  before = leb;
  same = ◌==◌;
}

clock_units : (k s n : ℕ) → 0 < k → units k (sub_ℕ (s + n * k) s) ≡ pos n
clock_units k s n h =
    rw (le→leb s (s + n * k) (omega arith))
      (let e : s + n * k - s ≡ n * k = omega arith in rw (e, mul-div_cancel n h))

pub clock-IsChrono : IsChrono clock
clock-IsChrono = record {
  minutes_later = λ s n h le. clock_units 60 s n (omega arith);
  hours_later = λ s n h le. clock_units 3600 s n (omega arith);
  before_trans = λ a b d h k. ground arith;
  before_total = λ a b. ground arith;
  before_antisym = λ a b h k. ground arith;
  same_iff = ==_iff;
}

abbrev replicate : ℕ → ℕ → Bytes
replicate zero b = []
replicate (suc n) b = b ∷ replicate n b

-- 2020-01-01T00:05:30Z
abbrev pub sample : Owid clock
sample = record {
  version = version3;
  domain = text "a.b";
  date = 1577836800 + 330;
  payload = 1 ∷ 2 ∷ [];
  signature = replicate 64 7;
}

pub sample-IsEncodable : IsEncodable sample 5
unfolding minutes_since_base as_bytes encode_char
sample-IsEncodable = record {
  writable = record {
    known = ground arith;
    chars = omega arith;
    no_nul = refl;
    short = omega arith;
    dated = refl;
    sized = omega arith;
  };
  signed = refl;
}
