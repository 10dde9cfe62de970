-- ===== src/Endpoints.antt =====
-- endpoints.rs: what a creator answers a request for its public key with.
pub mod Served
pub mod Taken
pub mod Moment
use owid_rust.Prelude.{
  ℕ, List, [], ◌∷◌, ◌++◌, Bool, true, Option, none, some, Result, ok, err, ◌>>=◌, not,
  if◌then◌else◌,
}
use owid_rust.Text.{Str, text}
use owid_rust.Text.Same.{same}
use owid_rust.Platform.{Chrono, P256, Rfc3339}
use owid_rust.Error.{Error}
use owid_rust.Version.{Version, as_byte}
use owid_rust.Io.{base_date}
use owid_rust.Crypto.{subject_public_key_info}
use owid_rust.Creator.{Creator}
use owid_rust.Schedule.{DatedPublicKey, key_in_force, next_start_after}
use owid_rust.Answer
use owid_rust.Answer.{spki_format, validate}
use owid_rust.Answer.Write.{to_json}
use owid_rust.Fetch.Url.{parse_u32}
use owid_rust.Text.Decimal.{decimal}

unfoldable pub public_key_path : Version → Str
public_key_path version = text "/owid/api/v" ++ (decimal (as_byte version) ++ text "/public-key")

unfoldable pub serves_format : Option Str → Bool
serves_format none = true
serves_format (some format) = same format spki_format

abbrev pub unwrap_or_default : Option Str → Str
unwrap_or_default none = []
unwrap_or_default (some s) = s

-- `filter(|date| !date.is_empty())`
abbrev pub not_empty : Option Str → Option Str
not_empty none = none
not_empty (some []) = none
not_empty (some (c ∷ s)) = some (c ∷ s)

-- What a request asks about.
pub data Asked (c : Chrono) : Type 0 where
  about : c.DateTime → Asked c
  malformed : Asked c

module _ (p : P256) (c : Chrono) (r : Rfc3339 c) where
  unfoldable pub public_key_answer :
      Str → Option c.DateTime → Option c.DateTime → Option c.DateTime → Result Str Error
  public_key_answer public_key_pem valid_from valid_to asked =
      let answer = Answer.new c public_key_pem valid_from valid_to in
      validate p answer asked >>= λ _. ok (to_json r answer)

  unfoldable pub public_key_response : Creator p → Option Str → Result Str Error
  unfolding public_key_answer
  public_key_response creator format =
      if not (serves_format format)
      then err (Error.invalid_key_format (unwrap_or_default format))
      else do pem ← subject_public_key_info p creator.crypto; public_key_answer pem none none none

  -- `Ord::min`
  abbrev pub min_moment : c.DateTime → c.DateTime → c.DateTime
  min_moment a b = if c.before a b then a else b

  abbrev pub asked_minute : Option ℕ → c.DateTime → Asked c
  asked_minute none now = malformed
  asked_minute (some minutes) now = about (min_moment (c.add (base_date c) (c.minutes minutes)) now)

  abbrev pub asked_about : Option Str → c.DateTime → Asked c
  asked_about none now = about now
  asked_about (some date) now = asked_minute (parse_u32 date) now

  abbrev pub served :
      List (DatedPublicKey c) → c.DateTime → Option (DatedPublicKey c) → Result (ℕ × Str) Error
  served schedule asked none = ok (404, [])
  served schedule asked (some key) =
      public_key_answer key.public_key_pem (some key.starts_at) (next_start_after schedule key)
        (some asked)
      >>= λ body. ok (200, body)

  abbrev pub respond : List (DatedPublicKey c) → Asked c → Result (ℕ × Str) Error
  respond schedule malformed = ok (400, [])
  respond schedule (about asked) = served schedule asked (key_in_force schedule asked)

  unfoldable pub public_key_response_at :
      List (DatedPublicKey c) → Option Str → Option Str → c.DateTime → Result (ℕ × Str) Error
  unfolding public_key_answer
  public_key_response_at schedule format date now =
      if not (serves_format format)
      then ok (400, [])
      else respond schedule (asked_about (not_empty date) now)
