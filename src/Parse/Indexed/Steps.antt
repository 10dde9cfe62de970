-- ===== src/Parse/Indexed/Steps.antt =====
-- Each step of the walk by index stays in range, and comes to what the model's step does.
use owid_rust.Prelude.{
  ℕ, ◌+◌, ◌≤◌, ◌<◌, ◌≡◌, some, ok, length, take, Bool-cases, ltb, ◌==◌, arith, Option-cases, inl,
  inr,
}
use owid_rust.Text.{Str}
use owid_rust.Text.Utf8.{from_utf8}
use owid_rust.Platform.{Machine, Chrono}
use owid_rust.Version.{Version, empty, version1, version2, version3}
use owid_rust.Io.{Bytes}
use owid_rust.Parse.{
  date_of, window, terminator, read_domain, date_length, read_date, from_le_bytes,
}
use owid_rust.Parse.Fields.{position-take-some}
use owid_rust.Parse.Indexed.{walk_domain, walk_le_bytes, date_walk, walk_date}
use owid_rust.Panics.{returns, value}
use owid_rust.Panics.InRange.{index_lem, slice_to_lem, add_lem}

pub walk_le_bytes_lem :
    (m : Machine) (bytes : Bytes) (at : ℕ)
    → at + 4 ≤ length bytes
    → length bytes ≤ m.usize_max
    → walk_le_bytes m bytes at ≡ value (from_le_bytes bytes at)
unfolding walk_le_bytes from_le_bytes
walk_le_bytes_lem m bytes at h fits =
    rw (index_lem bytes at 0 (omega arith), add_lem m at 1 (omega arith))
      (rw (index_lem bytes (at + 1) 0 (omega arith), add_lem m at 2 (omega arith))
        (rw (index_lem bytes (at + 2) 0 (omega arith), add_lem m at 3 (omega arith))
          (rw (index_lem bytes (at + 3) 0 (omega arith)))))

-- A terminator is found inside the bytes.
terminator-some : (bytes : Bytes) (end : ℕ) → terminator bytes ≡ some end → end < length bytes
terminator-some bytes end h =
    omega (arith, (position-take-some (λ b. b == 0) (window bytes) bytes end h).0)

pub walk_domain_lem :
    (m : Machine) (bytes : Bytes)
    → length bytes ≤ m.usize_max
    → walk_domain m bytes ≡ returns (read_domain bytes)
unfolding walk_domain read_domain
walk_domain_lem m bytes fits =
    rw (slice_to_lem bytes (window bytes) (omega arith)) (elim (Option-cases (terminator bytes)) [
      | inl e ↦ ground (arith, e)
      | inr (end, e) ↦
          let inside = terminator-some bytes end e in
          rw e (
            rw (slice_to_lem bytes end (omega (arith, inside)))
              (elim (Option-cases (from_utf8 (take end bytes))) [
                | inl none_read ↦ rw none_read
                | inr (s, read) ↦ rw read (rw (add_lem m end 1 (omega (arith, inside))))
              ]))
    ])

-- What is read of the domain lies inside the bytes.
pub read_domain-inside :
    (bytes : Bytes) (domain : Str) (used : ℕ)
    → read_domain bytes ≡ ok (domain, used)
    → used ≤ length bytes
unfolding read_domain
read_domain-inside bytes domain used h = elim (Option-cases (terminator bytes)) [
  | inl e ↦ ground (arith, e)
  | inr (end, e) ↦
      let inside = terminator-some bytes end e in
      elim (Option-cases (from_utf8 (take end bytes))) [
        | inl none_read ↦ ground (arith, e, none_read)
        | inr (s, read) ↦
            let next : used ≡ end + 1 = ground (arith, e, read) in omega (arith, inside, next)
      ]
]

module _ (m : Machine) (c : Chrono) where
  date_walk_lem :
      (bytes : Bytes) (version : Version)
      → date_length version ≤ length bytes
      → length bytes ≤ m.usize_max
      → date_walk m c bytes version ≡ value (date_of c bytes version)
  unfolding date_length
  date_walk_lem bytes version1 h fits =
      rw (index_lem bytes 0 0 (omega arith)) (rw (index_lem bytes 1 0 (omega arith)))
  date_walk_lem bytes version2 h fits = rw (walk_le_bytes_lem m bytes 0 (omega arith) fits)
  date_walk_lem bytes version3 h fits = rw (walk_le_bytes_lem m bytes 0 (omega arith) fits)
  date_walk_lem bytes empty h fits = rw (walk_le_bytes_lem m bytes 0 (omega arith) fits)

  pub walk_date_lem :
      (bytes : Bytes) (version : Version)
      → length bytes ≤ m.usize_max
      → walk_date m c bytes version ≡ returns (read_date c bytes version)
  unfolding walk_date read_date
  walk_date_lem bytes version fits = elim (Bool-cases (ltb (length bytes) (date_length version))) [
    | inl short ↦ rw short
    | inr long ↦ rw long (date_walk_lem bytes version (ground (arith, long)) fits)
  ]

  -- A date that was read lies inside the bytes.
  pub read_date-inside :
      (bytes : Bytes) (version : Version) (date : c.DateTime)
      → read_date c bytes version ≡ ok date
      → date_length version ≤ length bytes
  unfolding read_date
  read_date-inside bytes version date h = ground arith
