-- ===== src/Broker/Calls.antt =====
-- The broker of packages/kernel/src/capability/broker.ts under any sequence of calls.
use consisten_cy.Base.{ℕ, String, Bool, List, [], ◌∷◌}
use consisten_cy.Identity.{Text}
use consisten_cy.Broker.Data.{IssueRequest, AuthoriseRequest, ReservationToken, Broker}
use consisten_cy.Broker.Operations.{
  issue, revoke, authorise, commit_tokens, release_tokens, release_all_tokens,
}

-- The calls with what they draw: `issues now handle id`, `authorises now reservation_id`.
pub data Call : Type 0 where
  issues : ℕ → String → String → IssueRequest → Call
  revokes : ℕ → String → String → Call
  authorises : ℕ → String → AuthoriseRequest → Call
  commits : ReservationToken → ℕ → ℕ → Call
  releases : ReservationToken → Call
  releases_all : String → Call

module _ (minimatch : Text → Text → Bool) where
  unfoldable pub step : Call → Broker → Broker
  step (issues now handle id request) b = (issue now handle id request b).1
  step (revokes now handle revoked_by) b = (revoke now handle revoked_by b).1
  step (authorises now id request) b = (authorise minimatch now id request b).1
  step (commits token tokens cost) b = commit_tokens token tokens cost b
  step (releases token) b = release_tokens token b
  step (releases_all handle) b = (release_all_tokens handle b).1

  unfoldable pub run : List Call → Broker → Broker
  run [] b = b
  run (call ∷ calls) b = run calls (step call b)
