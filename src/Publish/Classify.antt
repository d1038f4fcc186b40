-- ===== src/Publish/Classify.antt =====
-- `classifyGitHubError` of apps/api/src/publish/githubPublisher.ts.
use Prim.Native.Char.{Char, code}
use Prim.Native.String.{String, [], ◌∷◌}
use consisten_cy.Base.{
  ℕ, ◌+◌, ◌-◌, ◌*◌, Bool, false, ◌&&◌, ◌||◌, Option, none, some, ltb, leb, ◌==◌, if◌then◌else◌,
}
use consisten_cy.Jobs.Clip.{take}
use consisten_cy.Jobs.Outbox.{text_eq}
use consisten_cy.Publish.Error.{
  PublishError, permanent_publish_error, transient_publish_error, rate_limited_publish_error,
  OtherError, Thrown, publish_error, other_error,
}

-- `value === text`, `value === n`, `left ?? right`.
abbrev pub is_text : Option String → String → Bool
is_text none text = false
is_text (some own) text = text_eq own text

abbrev pub is_number : Option ℕ → ℕ → Bool
is_number none n = false
is_number (some own) n = own == n

abbrev pub is_between : ℕ → ℕ → Option ℕ → Bool
is_between low high none = false
is_between low high (some n) = leb low n && leb n high

abbrev pub or_else : Option String → Option String → Option String
or_else none right = right
or_else (some left) right = some left

-- `Number(text)` of a text of digits; others are not numbers.
abbrev digit : Char → Option ℕ
digit c = if leb 48 (code c) && leb (code c) 57 then some (code c - 48) else none

unfoldable pub number_from : ℕ → String → Option ℕ
number_from n [] = some n
number_from n (c ∷ text) = elim (digit c) [ none ↦ none | some d ↦ number_from (n * 10 + d) text ]

abbrev pub time_of : ℕ → Option ℕ → Option ℕ
time_of now none = none
time_of now (some n) = some (if ltb 1000000000 n then n * 1000 else now + n * 1000)

-- The time of a header: seconds since 1970 where it is large, and else from now on.
abbrev pub retry_time : ℕ → Option String → Option ℕ
retry_time now none = none
retry_time now (some header) =
    if text_eq header "" then none else time_of now (number_from 0 header)

abbrev pub is_abort : OtherError → Bool
is_abort e = is_text e.name "AbortError" || is_text e.name "DOMException"

abbrev pub is_network_failure : OtherError → Bool
is_network_failure e =
    let found = or_else e.code e.cause_code in
    is_text found "EPIPE"
    || is_text found "ECONNRESET"
    || is_text found "ETIMEDOUT"
    || is_text found "ENOTFOUND"
    || is_text e.name "FetchError"

abbrev pub is_rate_limit : OtherError → Bool
is_rate_limit e =
    is_number e.status 429 || is_number e.status 403 && is_text e.x_ratelimit_remaining "0"

abbrev pub is_server_failure : OtherError → Bool
is_server_failure e = is_number e.status 408 || is_between 500 599 e.status

abbrev pub is_refusal : OtherError → Bool
is_refusal e =
    is_number e.status 401
    || is_number e.status 403
    || is_number e.status 404
    || is_number e.status 422

module _ (sanitize_public_error : String → String) (now : ℕ) where
  unfoldable pub classified : OtherError → PublishError
  classified e =
      let message = take 500 (sanitize_public_error e.message) in
      let retry_at = retry_time now (or_else e.x_ratelimit_reset e.retry_after) in
      if is_abort e
      then transient_publish_error "Operation aborted" e.status none
      else if is_network_failure e
      then transient_publish_error message e.status none
      else if is_rate_limit e
      then rate_limited_publish_error message e.status retry_at
      else if is_server_failure e
      then transient_publish_error message e.status retry_at
      else if is_refusal e
      then permanent_publish_error message e.status
      else if is_between 400 499 e.status
      then permanent_publish_error message e.status
      else transient_publish_error message e.status none

  unfoldable pub classify_github_error : Thrown → PublishError
  classify_github_error (publish_error e) = e
  classify_github_error (other_error e) = classified e
