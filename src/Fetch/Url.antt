-- ===== src/Fetch/Url.antt =====
-- fetch.rs: the URL that asks for the key of a minute, and what is read from a URL.
pub mod RoundTrip
use owid_rust.Prelude.{
  ℕ, zero, suc, ◌+◌, ◌-◌, ◌*◌, ◌/◌, ◌%◌, ◌^◌, List, [], ◌∷◌, ◌++◌, Bool, true, false, Option, none,
  some, ltb, leb, ◌==◌, ◌&&◌, if◌then◌else◌,
}
use owid_rust.Text.{Str, text}
use owid_rust.Text.Decimal.{decimal}
use owid_rust.Platform.{Chrono}
use owid_rust.Version.{as_byte}
use owid_rust.Io.{minutes_since_base}
use owid_rust.Owid.{Owid}

-- `parse::<u32>().ok()`
abbrev pub is_digit : ℕ → Bool
is_digit c = leb 48 c && leb c 57

unfoldable pub add_digits : ℕ → Str → Option ℕ
add_digits value [] = some value
add_digits value (c ∷ s) =
    let rest = add_digits (value * 10 + (c - 48)) s in
    if is_digit c then (if ltb (value * 10 + (c - 48)) (2 ^ 32) then rest else none) else none

abbrev pub some_digits : Str → Option ℕ
some_digits [] = none
some_digits (c ∷ s) = add_digits 0 (c ∷ s)

-- A plus sign may stand before the digits.
abbrev pub parse_u32 : Str → Option ℕ
parse_u32 [] = none
parse_u32 (c ∷ s) = if c == 43 then some_digits s else some_digits (c ∷ s)

-- `split_once('?')`, before and after.
unfoldable pub end_point_of : Str → Str
end_point_of [] = []
end_point_of (c ∷ url) = let rest = end_point_of url in if c == 63 then [] else c ∷ rest

unfoldable pub query_of : Str → Option Str
query_of [] = none
query_of (c ∷ url) = let rest = query_of url in if c == 63 then some url else rest

-- `split('&')`
abbrev pub onto_first : ℕ → List Str → List Str
onto_first c [] = (c ∷ []) ∷ []
onto_first c (piece ∷ pieces) = (c ∷ piece) ∷ pieces

unfoldable pub split : Str → List Str
split [] = [] ∷ []
split (c ∷ s) = let rest = split s in if c == 38 then [] ∷ rest else onto_first c rest

abbrev pub strip_prefix : Str → Str → Option Str
strip_prefix [] s = some s
strip_prefix (c ∷ p) [] = none
strip_prefix (c ∷ p) (d ∷ s) = if c == d then strip_prefix p s else none

abbrev pub first_of : Option Str → Option Str → Option Str
first_of (some s) rest = some s
first_of none rest = rest

abbrev pub find_prefixed : Str → List Str → Option Str
find_prefixed p [] = none
find_prefixed p (piece ∷ pieces) = first_of (strip_prefix p piece) (find_prefixed p pieces)

abbrev pub minute_in : Option Str → Option ℕ
minute_in none = none
minute_in (some s) = parse_u32 s

abbrev pub date_in : Option Str → Option ℕ
date_in none = none
date_in (some query) = minute_in (find_prefixed (text "date=") (split query))

unfoldable pub minute_of : Str → Option ℕ
minute_of url = date_in (query_of url)

unfoldable pub key_url_at : Str → ℕ → Str
key_url_at end_point minute =
    end_point ++ (text "?date=" ++ (decimal minute ++ text "&format=spki"))

abbrev pub dated_url : Str → Option ℕ → Str
dated_url end_point (some minutes) = key_url_at end_point minutes
dated_url end_point none = end_point ++ text "?format=spki"

abbrev pub key_end_point : {c : Chrono} → Owid c → Str → Str
key_end_point owid scheme =
    scheme
    ++ (text "://"
        ++ (owid.domain
            ++ (text "/owid/api/v" ++ (decimal (as_byte owid.version) ++ text "/public-key"))))

unfoldable pub public_key_url : {c : Chrono} → Owid c → Str → Str
unfolding key_url_at
public_key_url {c} owid scheme =
    dated_url (key_end_point owid scheme) (minutes_since_base c owid.date)
