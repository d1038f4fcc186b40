-- ===== src/Publish/Error.antt =====
-- The errors of apps/api/src/publish/error.ts, what else may be thrown, and `sanitizePublishFailure` of
-- apps/api/src/security/redact.ts.
use Prim.Native.String.{String, [], ◌∷◌, ◌++◌, count}
use consisten_cy.Base.{
  ℕ, zero, suc, ◌-◌, Bool, true, false, ◌&&◌, Option, none, some, if◌then◌else◌,
}
use consisten_cy.Jobs.Clip.{take}
use consisten_cy.Jobs.Outbox.{text_eq}

pub data PublishErrorKind : Type 0 where
  transient permanent rate_limited : PublishErrorKind

pub record PublishError : Type 0 where
  pub message : String
  pub kind : PublishErrorKind
  pub status : Option ℕ
  pub retry_at : Option ℕ

abbrev pub permanent_publish_error : String → Option ℕ → PublishError
permanent_publish_error message status = record {
  message = message;
  kind = permanent;
  status = status;
  retry_at = none;
}

abbrev pub transient_publish_error : String → Option ℕ → Option ℕ → PublishError
transient_publish_error message status retry_at = record {
  message = message;
  kind = transient;
  status = status;
  retry_at = retry_at;
}

abbrev pub rate_limited_publish_error : String → Option ℕ → Option ℕ → PublishError
rate_limited_publish_error message status retry_at = record {
  message = message;
  kind = rate_limited;
  status = status;
  retry_at = retry_at;
}

-- What an error that is none of these tells: `message` is the text of the value where it has no
-- message, the headers are those of its response.
pub record OtherError : Type 0 where
  pub name : Option String
  pub message : String
  pub status : Option ℕ
  pub code : Option String
  pub cause_code : Option String
  pub x_ratelimit_remaining : Option String
  pub x_ratelimit_reset : Option String
  pub retry_after : Option String

pub data Thrown : Type 0 where
  publish_error : PublishError → Thrown
  other_error : OtherError → Thrown

-- `text.startsWith(prefix)`.
unfoldable pub starts_with : String → String → Bool
starts_with [] text = true
starts_with (p ∷ prefix) [] = false
starts_with (p ∷ prefix) (c ∷ text) = text_eq (p ∷ []) (c ∷ []) && starts_with prefix text

-- `text.split(token).join("[REDACTED]")`, where `skip` more characters belong to a token that was found.
unfoldable pub redact_from : String → ℕ → String → String
redact_from token skip [] = []
redact_from token zero (c ∷ text) =
    let inside = redact_from token (count token - 1) text in
    let outside = redact_from token zero text in
    if starts_with token (c ∷ text) then "[REDACTED]" ++ inside else c ∷ outside
redact_from token (suc skip) (c ∷ text) = redact_from token skip text

abbrev pub redact_token : Option String → String → String
redact_token none message = message
redact_token (some token) message =
    if text_eq token "" then message else redact_from token 0 message

module _ (sanitize_public_error : String → String) where
  abbrev pub sanitize_publish_failure : PublishError → Option String → String
  sanitize_publish_failure error token =
      take 500 (sanitize_public_error (redact_token token error.message))
