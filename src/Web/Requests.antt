-- ===== src/Web/Requests.antt =====
-- apps/web/src/server/security.ts: the fingerprint and the idempotency key of a request, and how
-- its errors are made. SHA-256, the random identifiers and the framework's JSON responses are
-- arguments, and so is the configured lifetime of a record, which `boundedEnv` reads.
use Prim.Native.Char.{code}
use canalis.Base.{
  ℕ, String, Option, none, some, [], ◌∷◌, Bool, true, ◌&&◌, ◌||◌, ltb, leb, eqb, if◌then◌else◌,
  truthy,
}
use canalis.Base.Text.{template, trim, byte_length}
use canalis.Base.Dict.{Dict}
use canalis.Base.Result.{Result}
use canalis.Base.Action.{Action, own, pure, throw}
use canalis.Application.Errors.{
  ApplicationErrorCode, ApplicationError, request_body_too_large, idempotency_key_invalid,
}
use canalis.Web.Errors.{Response, ErrorEnvelope}

pub record Request : Type 0 where
  pub method : String
  pub body : String
  pub idempotency_key : Option String

pub record Platform : Type 0 where
  pub sha256 : String → String
  pub random_uuid : String
  pub json : ErrorEnvelope → ℕ → Response
  -- `new Response(body, { status, headers })`, which throws at some statuses.
  pub new_response : (body : String) → (status : ℕ) → Dict String → Result Response
  pub ttl_seconds : ℕ

abbrev pub refusal : ApplicationErrorCode → String → ℕ → ApplicationError
refusal c message status = record { code = c; message = message; status = status; details = none }

-- One character of `EXPLICIT_KEY_PATTERN`.
abbrev pub is_key_char : ℕ → Bool
is_key_char c =
    (leb 65 c && leb c 90)
    || (leb 97 c && leb c 122)
    || (leb 48 c && leb c 57)
    || eqb c 46
    || eqb c 95
    || eqb c 58
    || eqb c 45

all_key_chars : String → Bool
all_key_chars String.[] = true
all_key_chars (String.◌∷◌ c s) = is_key_char (code c) && all_key_chars s

-- `EXPLICIT_KEY_PATTERN.test(key)`: a text of such characters has a byte for each.
unfoldable pub explicit_key_pattern : String → Bool
unfolding all_key_chars
explicit_key_pattern key = leb 8 (byte_length key) && leb (byte_length key) 128 && all_key_chars key

abbrev pub trimmed : Option String → Option String
trimmed none = none
trimmed (some s) = some (trim s)

abbrev pub or_empty : Option String → String
or_empty none = ""
or_empty (some s) = s

abbrev pub body_too_large : ApplicationError
body_too_large = refusal request_body_too_large "Request body is too large." 413

abbrev pub key_invalid : ApplicationError
key_invalid =
    refusal idempotency_key_invalid
      "Idempotency-Key must be 8–128 characters using letters, numbers, dot, underscore, colon, or hyphen."
      400

module _ {S : Type 0} where
  abbrev pub request_fingerprint :
      Platform → Request → (operation : String) → Option String → Action S ApplicationError String
  request_fingerprint p request operation resource_key =
      if ltb 65536 (byte_length request.body)
      then throw (own body_too_large)
      else pure (
          p.sha256 (
            template (
              request.method
              ∷ "\n"
              ∷ operation
              ∷ "\n"
              ∷ or_empty resource_key
              ∷ "\n"
              ∷ request.body
              ∷ [])))

  abbrev pub idempotency_key : Platform → Request → Action S ApplicationError String
  idempotency_key p request =
      let explicit = trimmed request.idempotency_key in
      if truthy explicit
      then if explicit_key_pattern (or_empty explicit)
        then pure (or_empty explicit)
        else throw (own key_invalid)
      else pure (template ("auto_" ∷ p.random_uuid ∷ []))
