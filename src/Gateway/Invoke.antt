-- ===== src/Gateway/Invoke.antt =====
-- What `invoke` of packages/kernel/src/syscall/authorize.ts does on each of its paths.
use consisten_cy.Base.{
  ℕ, ◌≡◌, ◌≢◌, ◌↔◌, ◌⊎◌, inl, inr, refl, sym, ◌∙◌, subst, String, Bool, true, List, [], ◌∷◌, ◌++◌,
  arith, Result, err, Result-cases, Bool-cases,
}
use consisten_cy.Identity.{Text}
use consisten_cy.Capability.{Action, DenyReason, repo_write, github_publish}
use consisten_cy.Audit.{deny}
use consisten_cy.Broker.Data.{AuthoriseRequest, Broker, denied}
use consisten_cy.Broker.Operations.{authorise}
use consisten_cy.Broker.Calls.{Call}
use consisten_cy.Broker.Decisions.{
  IsOk, IsPermitted, authorise-IsPermitted, authorise_denied, entry,
}
use consisten_cy.Broker.Allows.{authorise_throws}
use consisten_cy.Gateway.{
  SyscallOutcome, coordinator_required, refused, get_syscall_definition, syscall_definitions,
  find_definition, is_intent, handle, invoke,
}

intent_lem :
    (a : Action)
    → (is_intent (get_syscall_definition a) ≡ true) ↔ ((a ≡ repo_write) ⊎ (a ≡ github_publish))
unfolding get_syscall_definition syscall_definitions find_definition
intent_lem a = ground arith

module _ (minimatch : Text → Text → Bool) {H T : Type 0} where
  -- A call for the coordinator is refused before anything is asked of the broker, whoever makes it;
  -- these are the calls that write a repository or publish.
  pub invoke_coordinated :
      (now : ℕ) (id : String) (request : AuthoriseRequest) (meanwhile : List Call)
      (handled : Result H (SyscallOutcome T)) (b : Broker)
      → (request.action ≡ repo_write) ⊎ (request.action ≡ github_publish)
      → invoke minimatch now id request meanwhile handled b
        ≡ (err (coordinator_required request.action), b)
  unfolding invoke
  invoke_coordinated now id request meanwhile handled b h =
      rw ((intent_lem request.action).1 h) refl

  pub direct :
      (now : ℕ) (id : String) (request : AuthoriseRequest) (meanwhile : List Call)
      (handled : Result H (SyscallOutcome T)) (b : Broker)
      → request.action ≢ repo_write
      → request.action ≢ github_publish
      → invoke minimatch now id request meanwhile handled b
        ≡ handle minimatch meanwhile handled (authorise minimatch now id request b)
  unfolding invoke
  direct now id request meanwhile handled b w p =
      elim (Bool-cases (is_intent (get_syscall_definition request.action))) [
        | inr f ↦ rw f refl
        | inl t ↦ absurd (ground (arith, (intent_lem request.action).0 t))
      ]

  -- Where the broker permits nothing, the handler's result and what is called meanwhile do not
  -- matter: a denial is thrown, and the journal gets it with its reason and nothing else changes.
  pub invoke_denied :
      (now : ℕ) (id : String) (request : AuthoriseRequest) (meanwhile : List Call)
      (handled : Result H (SyscallOutcome T)) (b : Broker)
      → request.action ≢ repo_write
      → request.action ≢ github_publish
      → ¬ IsPermitted minimatch now request b
      → (reason : DenyReason) × (invoke minimatch now id request meanwhile handled b ≡ (
        err (refused (denied reason)),
        record b { journal = b.journal ++ entry now request b (deny reason) ∷ [] },
      ))
  invoke_denied now id request meanwhile handled b w p forbidden =
      elim (Result-cases (authorise minimatch now id request b).0) [
        | inl (o, e) ↦ absurd (
            forbidden
              ((authorise-IsPermitted minimatch now id request b).0 (subst IsOk (sym e) tt)))
        | inr (f, e) ↦
            let (reason, same) = authorise_throws minimatch now id request b f e in
            let denial : (authorise minimatch now id request b).0 ≡ err (denied reason) =
              ground arith in
            let after = authorise_denied minimatch now id request b reason denial in
            (reason, direct now id request meanwhile handled b w p ∙ rw (denial, after) refl)
      ]
