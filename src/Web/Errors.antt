-- ===== src/Web/Errors.antt =====
-- apps/web/src/server/api.ts: `apiErrorResponse`. `NextResponse.json` is the framework's, and an
-- argument; the line that it logs is left out.
use canalis.Base.{ℕ, String, Option, none, some, Bool, true, false, ◌&&◌, ltb, if◌then◌else◌}
use canalis.Base.Int.{pos}
use canalis.Base.Dict.{Dict, insert}
use canalis.Base.Text.{show_ℤ}
use canalis.Base.Action.{Thrown, own}
use canalis.Application.Errors.{
  ApplicationErrorCode, Details, ApplicationError, validation_error, rate_limited,
  retry_after_seconds,
}

-- What a route answers, with the headers in the order in which they were set.
pub record Response : Type 0 where
  pub status : ℕ
  pub body : String
  pub headers : Dict String

-- The `error` object of the body; no code stands for "INTERNAL_ERROR".
pub record ErrorEnvelope : Type 0 where
  pub code : Option ApplicationErrorCode
  pub message : String
  pub details : Option Details

abbrev is_validation : ApplicationErrorCode → Bool
is_validation validation_error = true
is_validation _ = false

abbrev is_rate_limited : ApplicationErrorCode → Bool
is_rate_limited rate_limited = true
is_rate_limited _ = false

abbrev safe_details : ApplicationError → Option Details
safe_details e = if is_validation e.code && ltb e.status 500 then e.details else none

-- `Math.max(1, Math.ceil(Number(detail?.retryAfterSeconds ?? 60)))`
abbrev retry_after : Option Details → ℕ
retry_after (some (retry_after_seconds n)) = if ltb 1 n then n else 1
retry_after _ = 60

unfoldable pub api_error_response :
    (json : ErrorEnvelope → ℕ → Response) → Thrown ApplicationError → Response
api_error_response json (own e) =
    let response =
      json (record { code = some e.code; message = e.message; details = safe_details e })
        e.status in
    if is_rate_limited e.code
    then record response {
      headers = insert "retry-after" (show_ℤ (pos (retry_after e.details))) response.headers;
    }
    else response
api_error_response json _ =
    json
      (record { code = none; message = "Canalis could not complete the request."; details = none })
      500
