-- ===== src/Envelope.antt =====
-- The binary format that the documentation of the crate (src/lib.rs) tabulates, as a function of
-- the fields: version, domain with its terminator, date, payload length, payload, signature.
pub mod Write
pub mod Capacity
use owid_rust.Prelude.{
  ℕ, ◌+◌, ◌/◌, ◌%◌, ◌^◌, ◌≤◌, ◌<◌, ◌≡◌, ◌≢◌, List, [], ◌∷◌, ◌++◌, false, Option, none, some, length,
  any, ◌==◌, All,
}
use owid_rust.Prelude.Int.{try_below}
use owid_rust.Text.{Str}
use owid_rust.Text.Utf8.{as_bytes}
use owid_rust.Text.Utf8.RoundTrip.{IsChar, IsByte}
use owid_rust.Platform.{Chrono}
use owid_rust.Version.{Version, as_byte, empty, version1, version2, version3}
use owid_rust.Io.{
  Bytes, signature_length, maximum_domain_length, to_le_bytes, base_date, minutes_since_base,
}
use owid_rust.Owid.{Owid}

-- The count that stands for a date: hours in version 1, minutes later.
abbrev pub date_count : (c : Chrono) → Version → c.DateTime → Option ℕ
date_count c empty date = none
date_count c version1 date = try_below (2 ^ 16) (c.num_hours (c.difference date (base_date c)))
date_count c version2 date = minutes_since_base c date
date_count c version3 date = minutes_since_base c date

-- The date that a count stands for.
abbrev pub date_at : (c : Chrono) → Version → ℕ → c.DateTime
date_at c version1 n = c.add (base_date c) (c.hours n)
date_at c _ n = c.add (base_date c) (c.minutes n)

abbrev pub date_bytes : Version → ℕ → Bytes
date_bytes version1 n = n / 256 % 256 ∷ n % 256 ∷ []
date_bytes _ n = to_le_bytes n

-- The fields in their order, in front of `tail`.
unfoldable pub layout : Version → Str → ℕ → Bytes → Bytes → Bytes
layout version domain n payload tail =
    as_byte version
    ∷ (as_bytes domain
        ++ (0 ∷ (date_bytes version n ++ (to_le_bytes (length payload) ++ (payload ++ tail)))))

abbrev pub envelope : {c : Chrono} → Owid c → ℕ → Bytes
envelope owid n = layout owid.version owid.domain n owid.payload owid.signature

-- What the fields but the signature have to meet to be written, with the count for the date. That
-- the domain holds characters is Rust's promise for a `String`.
pub record IsWritable {c : Chrono} (owid : Owid c) (n : ℕ) : Type 0 where
  pub known : owid.version ≢ empty
  pub chars : All IsChar owid.domain
  pub no_nul : any (λ b. b == 0) (as_bytes owid.domain) ≡ false
  pub short : length (as_bytes owid.domain) ≤ maximum_domain_length
  pub dated : date_count c owid.version owid.date ≡ some n
  pub sized : length owid.payload < 2 ^ 32

pub record IsEncodable {c : Chrono} (owid : Owid c) (n : ℕ) : Type 0 where
  pub writable : IsWritable owid n
  pub signed : length owid.signature ≡ signature_length

-- The counts that a date field can carry.
abbrev pub IsCount : Version → ℕ → Type 0
IsCount version1 n = n < 2 ^ 16
IsCount _ n = n < 2 ^ 32

-- The fields that the format can carry.
pub record IsWellFormed (version : Version) (domain : Str) (n : ℕ) (payload signature : Bytes)
    : Type 0 where
  pub known : version ≢ empty
  pub chars : All IsChar domain
  pub no_nul : any (λ b. b == 0) (as_bytes domain) ≡ false
  pub short : length (as_bytes domain) ≤ maximum_domain_length
  pub counted : IsCount version n
  pub sized : length payload < 2 ^ 32
  pub signed : length signature ≡ signature_length
