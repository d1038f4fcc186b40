-- ===== src/Gateway.antt =====
-- The gateway of system calls: packages/kernel/src/syscall/types.ts and authorize.ts. A handler is
-- awaited: what else is called of the broker meanwhile, and what the handler gives, are arguments.
pub mod Invoke
pub mod Settles
pub mod Tests
use consisten_cy.Base.{
  ℕ, String, Bool, true, false, Option, none, some, List, [], ◌∷◌, ok, err, Result, if◌then◌else◌,
}
use consisten_cy.Identity.{Text}
use consisten_cy.Capability.{
  Action, action_eq, repo_read, repo_search, repo_diff, repo_write, evidence_read, evidence_write,
  ast_query, llm_invoke, github_publish, workspace_read, workspace_write, audit_read,
}
use consisten_cy.Broker.Data.{AuthoriseRequest, ReservationToken, Broker, BrokerFault}
use consisten_cy.Broker.Operations.{authorise, commit_tokens, release_tokens}
use consisten_cy.Broker.Calls.{Call, run}

pub data EffectClass : Type 0 where
  pure_effect read_effect revertible_effect commit_effect : EffectClass

pub data DispatchPolicy : Type 0 where
  direct intent : DispatchPolicy

-- The description, which nothing reads, is left out.
pub record SyscallDefinition : Type 0 where
  pub action : Action
  pub effect : EffectClass
  pub dispatch : DispatchPolicy

abbrev defines : Action → EffectClass → DispatchPolicy → SyscallDefinition
defines action effect dispatch = record { action = action; effect = effect; dispatch = dispatch }

unfoldable pub syscall_definitions : List SyscallDefinition
syscall_definitions =
    defines ast_query pure_effect direct
    ∷ defines repo_read read_effect direct
    ∷ defines repo_search read_effect direct
    ∷ defines repo_diff read_effect direct
    ∷ defines evidence_read read_effect direct
    ∷ defines workspace_read read_effect direct
    ∷ defines audit_read read_effect direct
    ∷ defines workspace_write revertible_effect direct
    ∷ defines evidence_write revertible_effect direct
    ∷ defines llm_invoke commit_effect direct
    ∷ defines repo_write commit_effect intent
    ∷ defines github_publish commit_effect intent
    ∷ []

unfoldable pub find_definition : Action → List SyscallDefinition → Option SyscallDefinition
find_definition action [] = none
find_definition action (d ∷ rest) =
    if action_eq d.action action then some d else find_definition action rest

unfoldable pub get_syscall_definition : Action → Option SyscallDefinition
get_syscall_definition action = find_definition action syscall_definitions

-- `def?.dispatch === "intent"`.
abbrev pub is_intent : Option SyscallDefinition → Bool
is_intent none = false
is_intent (some d) = elim d.dispatch [ intent ↦ true | direct ↦ false ]

pub record SyscallOutcome (T : Type 0) : Type 0 where
  pub value : T
  pub tokens : Option ℕ
  pub cost_usd_micros : Option ℕ

-- What `invoke` throws; `handler_failed` has the handler's own error.
pub data InvokeFault (H : Type 0) : Type 0 where
  coordinator_required : Action → InvokeFault H
  refused : BrokerFault → InvokeFault H
  handler_failed : H → InvokeFault H

abbrev pub or_zero : Option ℕ → ℕ
or_zero none = 0
or_zero (some n) = n

abbrev pub committed : {T : Type 0} → Option ReservationToken → SyscallOutcome T → Broker → Broker
committed none outcome b = b
committed (some token) outcome b =
    commit_tokens token (or_zero outcome.tokens) (or_zero outcome.cost_usd_micros) b

abbrev pub released : Option ReservationToken → Broker → Broker
released none b = b
released (some token) b = release_tokens token b

module _ {H T : Type 0} where
  -- After the handler: its usage is committed, or the reservation is released and its error thrown.
  abbrev pub finish :
      Option ReservationToken
      → Result H (SyscallOutcome T)
      → Broker
      → Result (InvokeFault H) T × Broker
  finish token (ok outcome) b = (ok outcome.value, committed token outcome b)
  finish token (err e) b = (err (handler_failed e), released token b)

module _ (minimatch : Text → Text → Bool) {H T : Type 0} where
  -- After the authorisation: on a denial the handler is not called, and nothing else is either.
  abbrev pub handle :
      List Call
      → Result H (SyscallOutcome T)
      → Result BrokerFault (Option ReservationToken) × Broker
      → Result (InvokeFault H) T × Broker
  handle meanwhile handled (err e, b) = (err (refused e), b)
  handle meanwhile handled (ok token, b) = finish token handled (run minimatch meanwhile b)

  unfoldable pub invoke :
      ℕ
      → String
      → AuthoriseRequest
      → List Call
      → Result H (SyscallOutcome T)
      → Broker
      → Result (InvokeFault H) T × Broker
  invoke now id request meanwhile handled b =
      if is_intent (get_syscall_definition request.action)
      then (err (coordinator_required request.action), b)
      else handle meanwhile handled (authorise minimatch now id request b)
