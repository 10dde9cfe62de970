-- ===== src/Tests/Drift.antt =====
-- A creator that changed its key while a machine of its own still signed with the one before: the
-- theorems on the neighbouring keys, at a client that holds both.
use owid_rust.Prelude.{
  ◌≡◌, ◌≤◌, ◌↔◌, refl, [], ◌∷◌, true, false, none, some, ok, length, any, ◌==◌, arith, inl,
}
use owid_rust.Text.{text}
use owid_rust.Text.Decimal.{digits_onto}
use owid_rust.Version.{as_byte}
use owid_rust.Io.{minutes_since_base}
use owid_rust.Fetch.{known, stated, near_edge}
use owid_rust.Fetch.Cache.{Cache, held_for}
use owid_rust.Fetch.Url.{
  end_point_of, minute_of, key_url_at, public_key_url, query_of, split, add_digits,
}
use owid_rust.Fetch.Url.RoundTrip.{key_url_at-read}
use owid_rust.Fetch.Verify.{beyond, verify}
use owid_rust.Fetch.Verify.Outcome.{beyond_lem, IsJustBeyond}
use owid_rust.Fetch.Verify.Beyond.{verify-beyond}
use owid_rust.Fetch.Sole.{creators}
use owid_rust.Tests.Sample.{machine, clock}
use owid_rust.Tests.Signing.{toy, created, accepted, refused}
use owid_rust.Tests.Answers.{written_moments}
use owid_rust.Tests.Journey.{transport}

-- The minute of the OWID is 5, and the second key came into force at it.
abbrev both_held : Cache
both_held = record {
  keys =
      (
        text "https://a.b/owid/api/v3/public-key",
        record { pem = 65 ∷ 3 ∷ []; first = 0; last = 4; explicit = true; open_ended = false }
            ∷ record {
              pem = 65 ∷ 4 ∷ [];
              first = 5;
              last = 100;
              explicit = true;
              open_ended = false;
            }
            ∷ [],
      )
      ∷ [];
  held = 2;
  in_flight = [];
}

verify-beyond_example :
    (verify machine clock toy
      (creators toy written_moments transport none)
      created
      (both_held, tt)
      (text "https")).0
    ≡ ok true
unfolding minutes_since_base public_key_url held_for stated end_point_of key_url_at minute_of
    query_of split add_digits digits_onto as_byte
verify-beyond_example =
    verify-beyond machine clock toy (creators toy written_moments transport none) created
      (both_held, tt) (both_held, tt) (both_held, tt) (text "https") 5 4 (known (65 ∷ 4 ∷ []) 5 100)
      (known (65 ∷ 3 ∷ []) 0 4) refl refl refl
      (inl ((omega arith, (omega arith, omega arith)), refl)) refl refused accepted

beyond_lem_example :
    (length (beyond 110 (known [] 100 115)) ≤ 2)
    × ((any (λ asked. asked == 116) (beyond 110 (known [] 100 115)) ≡ true)
        ↔ IsJustBeyond 110 (known [] 100 115) 116)
beyond_lem_example = beyond_lem 110 (known [] 100 115) 116

two_beyond : beyond 110 (known [] 100 115) ≡ 99 ∷ 116 ∷ []
unfolding beyond near_edge
two_beyond = refl

key_url_at-read_example :
    (end_point_of (key_url_at (text "https://a.b/k") 4294967295) ≡ text "https://a.b/k")
    × (minute_of (key_url_at (text "https://a.b/k") 4294967295) ≡ some 4294967295)
key_url_at-read_example =
    key_url_at-read (text "https://a.b/k") 4294967295 (ground arith) (omega arith)

-- An end point that holds a question mark is not read as itself, nor is the minute.
questioned :
    (end_point_of (key_url_at (text "https://a?date=7&/k") 42) ≡ text "https://a")
    × (minute_of (key_url_at (text "https://a?date=7&/k") 42) ≡ some 7)
unfolding key_url_at end_point_of minute_of query_of split add_digits
questioned = (refl, refl)
