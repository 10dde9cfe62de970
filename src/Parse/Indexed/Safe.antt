-- ===== src/Parse/Indexed/Safe.antt =====
-- The walk of parse.rs by index never panics.
use owid_rust.Prelude.{
  ℕ, suc, ◌+◌, ◌-◌, ◌≤◌, ◌≡◌, refl, sym, ap, [], ◌∷◌, ok, ◌>>=◌, length, length-drop, drop, subst,
  Bool-cases, Result-cases, ltb, leb, ◌==◌, not, arith, inl, inr,
}
use owid_rust.Prelude.Int.{sub_ℕ}
use owid_rust.Text.{Str, text}
use owid_rust.Platform.{Machine, Chrono}
use owid_rust.Error.{ParseStatus, ParseDetail}
use owid_rust.Version.{Version, as_byte, empty, try_from}
use owid_rust.Io.{Bytes, signature_length}
use owid_rust.Owid.{Owid}
use owid_rust.Parse.{
  Extent, whole_buffer, prefix, read_domain, date_length, read_date, from_le_bytes, count_check,
  version_of, end_check, guard, read_rest, parse_one, parse_exact, parse_prefix,
}
use owid_rust.Parse.Steps.{Fits, count_check-ok, read_rest-ok, Header-parse_one}
use owid_rust.Parse.Converse.{Fits-le}
use owid_rust.Parse.Indexed.{walk_rest, walk_dated, walk_one, walk_exact, walk_prefix}
use owid_rust.Panics.{returns}
use owid_rust.Parse.Indexed.Steps.{
  walk_le_bytes_lem, walk_domain_lem, read_domain-inside, walk_date_lem, read_date-inside,
}
use owid_rust.Panics.InRange.{
  IsSlice, bind_lem, assert_lem, slice_from_lem, slice_lem, add_lem, sub_lem, less_signature_lem,
}

module _ (m : Machine) (c : Chrono) where
  walk_rest_lem :
      (buffer : Bytes) (extent : Extent) (at declared : ℕ) (version : Version) (domain : Str)
      (date : c.DateTime)
      → at ≤ length buffer
      → IsSlice m buffer
      → walk_rest m c buffer extent at declared version domain date
        ≡ returns (read_rest m c buffer extent at declared version domain date)
  unfolding walk_rest read_rest
  walk_rest_lem buffer extent at declared version domain date le s =
      rw (sub_lem (length buffer) at le) (
        rw (less_signature_lem (length buffer - at) (omega (arith, s.width, s.held))) (
          bind_lem (count_check extent declared (sub_ℕ (length buffer - at) signature_length)) _ _
            λ u count.
              let room =
                Fits-le extent (length buffer - at) declared
                  (count_check-ok extent (length buffer - at) declared count) in
              let inside : at + declared + 64 ≤ m.usize_max =
                omega (arith, s.width, s.held, room) in
              bind_lem (guard (leb declared m.usize_max) _ _) _ _ λ u1 e1.
                bind_lem (guard (m.can_reserve declared) _ _) _ _ λ u2 e2.
                  rw (add_lem m at declared (omega (arith, inside))) (
                    rw (slice_lem buffer at declared (omega (arith, room))) (
                      rw (add_lem m (at + declared) 64 inside) (
                        rw (slice_lem buffer (at + declared) 64 (omega (arith, room))) (
                          bind_lem (end_check extent (at + declared + 64) (length buffer)) _ _
                            λ u3 e3. refl))))))

  -- The walk from the date on.
  walk_dated_lem :
      (first : ℕ) (rest : Bytes) (extent : Extent) (version : Version) (domain : Str) (used : ℕ)
      → used ≤ length rest
      → IsSlice m (first ∷ rest)
      → walk_dated m c (first ∷ rest) extent version domain (1 + used)
        ≡ returns (
            read_date c (drop (1 + used) (first ∷ rest)) version >>= λ date.
            guard
              (not (ltb (length (first ∷ rest) - (1 + used + date_length version)) 4))
              ParseStatus.unexpected_end
              (ParseDetail.field (text "the payload length"))
            >>= λ u.
                read_rest m c
                  (first ∷ rest)
                  extent
                  (1 + used + date_length version + 4)
                  (from_le_bytes (first ∷ rest) (1 + used + date_length version))
                  version
                  domain
                  date)
  walk_dated_lem first rest extent version domain used inside s =
      let buffer = first ∷ rest in
      let fits : length buffer ≤ m.usize_max = omega (arith, s.held) in
      let tail : length (drop (1 + used) buffer) ≡ length buffer - (1 + used) =
        length-drop (1 + used) buffer in
      rw (slice_from_lem buffer (1 + used) (omega arith)) (
        rw (walk_date_lem m c (drop (1 + used) buffer) version (omega (arith, fits, tail))) (
          bind_lem (read_date c (drop (1 + used) buffer) version) _ _ λ date read.
            let dated = read_date-inside m c (drop (1 + used) buffer) version date read in
            let at = 1 + used + date_length version in
            let room : at ≤ length buffer = omega (arith, dated, tail) in
            rw (add_lem m (1 + used) (date_length version) (omega (arith, fits, room))) (
              rw (sub_lem (length buffer) at room) (
                bind_lem (guard (not (ltb (length buffer - at) 4)) _ _) _ _ λ u e.
                  let enough : at + 4 ≤ length buffer = ground (arith, e, room) in
                  rw (walk_le_bytes_lem m buffer at enough fits) (
                    rw (add_lem m at 4 (omega (arith, fits, enough))) (
                      walk_rest_lem buffer extent (at + 4) (from_le_bytes buffer at) version domain
                        date enough s))))))

  walk_one_lem :
      (buffer : Bytes) (extent : Extent)
      → IsSlice m buffer
      → walk_one m c buffer extent ≡ returns (parse_one m c buffer extent)
  unfolding walk_one parse_one
  walk_one_lem [] extent s = refl
  walk_one_lem (first ∷ rest) extent s =
      let fits : suc (length rest) ≤ m.usize_max = omega (arith, s.held) in
      bind_lem (version_of first (try_from first)) _ _ λ version e.
        rw (slice_from_lem (first ∷ rest) 1 (omega arith)) (
          rw (walk_domain_lem m rest (omega (arith, fits))) (
            bind_lem (read_domain rest) _ _ λ field read.
              let used = field.1 in
              let inside = read_domain-inside rest field.0 used read in
              rw (add_lem m 1 used (omega (arith, fits, inside)))
                (walk_dated_lem first rest extent version field.0 used inside s)))

  -- What a successful read used: no more than there is, and all of it where it has to be.
  abbrev Used : Extent → ℕ → ℕ → Type 0
  Used whole_buffer total used = used ≡ total
  Used prefix total used = used ≤ total

  Fits-Used :
      (extent : Extent) (total at declared : ℕ)
      → at ≤ total
      → Fits extent (total - at) declared
      → Used extent total (at + declared + signature_length)
  Fits-Used whole_buffer total at declared le h = omega arith
  Fits-Used prefix total at declared le h = omega arith

  parse_one-Used :
      (buffer : Bytes) (extent : Extent) (owid : Owid c) (used : ℕ)
      → parse_one m c buffer extent ≡ ok (owid, used)
      → Used extent (length buffer) used
  unfolding parse_one
  parse_one-Used [] extent owid used e = cc
  parse_one-Used (first ∷ rest) extent owid used e =
      let (version, domain, field, date, header, read) =
        Header-parse_one m c first rest extent (owid, used) e in
      let at = 1 + field + date_length version + 4 in
      let (fits, room, result) =
        read_rest-ok m c (first ∷ rest) extent at _ version domain date (owid, used) read in
      subst (Used extent (length (first ∷ rest))) (sym (ap (λ r. r.1) result))
        (Fits-Used extent (length (first ∷ rest)) at _ (omega (arith, header.enough)) fits)

  walk_exact_lem :
      (buffer : Bytes) → IsSlice m buffer → walk_exact m c buffer ≡ returns (parse_exact m c buffer)
  unfolding walk_exact parse_exact
  walk_exact_lem buffer s = rw (walk_one_lem buffer whole_buffer s) (
      bind_lem (parse_one m c buffer whole_buffer) _ _
        λ r e. rw (assert_lem r.1 (length buffer) (parse_one-Used buffer whole_buffer r.0 r.1 e)))

  walk_prefix_lem :
      (buffer : Bytes)
      → IsSlice m buffer
      → walk_prefix m c buffer ≡ returns (parse_prefix m c buffer)
  unfolding walk_prefix parse_prefix
  walk_prefix_lem [] s = refl
  walk_prefix_lem (first ∷ rest) s = elim (Bool-cases (first == as_byte empty)) [
    | inl marker ↦ rw marker (rw (slice_from_lem (first ∷ rest) 1 (omega arith)))
    | inr present ↦ rw present (
        rw (walk_one_lem (first ∷ rest) prefix s)
          (elim (Result-cases (parse_one m c (first ∷ rest) prefix)) [
            | inr (error, e) ↦ rw e
            | inl (r, e) ↦ rw e (
                rw (
                  slice_from_lem (first ∷ rest) r.1
                    (parse_one-Used (first ∷ rest) prefix r.0 r.1 e)))
          ]))
  ]

  -- No buffer makes a read panic: on any slice that Rust can hold, with `usize` of 64 bits at most,
  -- each index, slice, sum and difference that the two reads take on their walk is in range, the
  -- assertion of a debug build included, and they return what `parse_exact` and `parse_prefix` of
  -- the model do.
  pub walk_exact-walk_prefix :
      (buffer : Bytes)
      → IsSlice m buffer
      → (walk_exact m c buffer ≡ returns (parse_exact m c buffer))
        × (walk_prefix m c buffer ≡ returns (parse_prefix m c buffer))
  walk_exact-walk_prefix buffer s = (walk_exact_lem buffer s, walk_prefix_lem buffer s)
