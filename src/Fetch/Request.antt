-- ===== src/Fetch/Request.antt =====
-- fetch.rs: the request for a key, and what its answer means.
pub mod Accepted
use owid_rust.Prelude.{
  ℕ, ◌++◌, Bool, Option, none, some, Result, ok, err, ◌>>=◌, ltb, leb, ◌==◌, ◌&&◌, not,
  if◌then◌else◌,
}
use owid_rust.Text.{Str, text}
use owid_rust.Platform.{Chrono, P256, Rfc3339}
use owid_rust.Error.{Error}
use owid_rust.Io.{minutes_since_base}
use owid_rust.Answer.{PublicKeyAnswer, validate}
use owid_rust.Answer.Json.{parse}
use owid_rust.Text.Decimal.{decimal}

pub record FetchResponse : Type 0 where
  pub status : ℕ
  pub body : Str

-- The key, and the minutes that the creator states it from and to.
abbrev pub Stated : Type 0
Stated = Str × Option ℕ × Option ℕ

abbrev pub redirected : ℕ → Str → Error
redirected status url = Error.http (
    text "the public key end point answered a redirect ("
    ++ (decimal status ++ (text ") for " ++ (url ++ text ", which is never followed"))))

abbrev pub refused : ℕ → Str → Error
refused status url =
    Error.http
      (text "the public key end point answered " ++ (decimal status ++ (text " for " ++ url)))

-- `and_then`
abbrev pub minute_at : (c : Chrono) → Option c.DateTime → Option ℕ
minute_at c none = none
minute_at c (some moment) = minutes_since_base c moment

module _ (p : P256) {c : Chrono} (r : Rfc3339 c) where
  abbrev pub stated_in : PublicKeyAnswer c → Stated
  stated_in answer = (answer.public_key, minute_at c answer.valid_from, minute_at c answer.valid_to)

  abbrev pub read_body : Str → Result Stated Error
  read_body body = do answer ← parse r body; checked ← validate p answer none; ok (stated_in answer)

  unfoldable pub read_response : Str → FetchResponse → Result Stated Error
  read_response url response =
      if leb 300 response.status && ltb response.status 400
      then err (redirected response.status url)
      else if not (response.status == 200)
      then err (refused response.status url)
      else read_body response.body

  -- `fetch` is the transport's answer to the URL.
  unfoldable pub request_public_key : Str → Result FetchResponse Error → Result Stated Error
  unfolding read_response
  request_public_key url fetched = do response ← fetched; read_response url response
