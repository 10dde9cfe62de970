-- ===== src/Text/Decimal.antt =====
-- Numbers written in decimal, as `format!` writes them.
use owid_rust.Prelude.{ℕ, zero, suc, ◌+◌, ◌/◌, ◌%◌, [], ◌∷◌, ltb, if◌then◌else◌}
use owid_rust.Prelude.Int.{ℤ, pos, negsuc}
use owid_rust.Text.{Str}

-- The decimal digits of a number in front of a text, each round for one digit.
unfoldable pub digits_onto : ℕ → ℕ → Str → Str
digits_onto zero n tail = tail
digits_onto (suc rounds) n tail =
    let more = digits_onto rounds (n / 10) ((48 + n % 10) ∷ tail) in
    if ltb n 10 then (48 + n) ∷ tail else more

-- A number of 64 bits has twenty digits at most.
abbrev pub decimal : ℕ → Str
decimal n = digits_onto 20 n []

abbrev pub signed_decimal : ℤ → Str
signed_decimal (pos n) = decimal n
signed_decimal (negsuc n) = b'-' ∷ decimal (n + 1)
