-- ===== src/Gateway/Tests.antt =====
-- Calls through the gateway of packages/kernel/src/syscall/authorize.ts.
use consisten_cy.Base.{ℕ, ◌≡◌, ◌≢◌, none, some, [], ◌∷◌, ◌++◌, ok, err, string_dec}
use consisten_cy.Base.Dict
use consisten_cy.Identity.{Resource}
use consisten_cy.Capability.{
  DenyReason, repo_read, repo_write, github_publish, ring_allowed_kinds, capability_issuable_ring,
}
use consisten_cy.Audit.{deny}
use consisten_cy.Budget.{open_account}
use consisten_cy.Broker.Data.{AuthoriseRequest, denied}
use consisten_cy.Broker.Calls.{releases_all}
use consisten_cy.Broker.Operations.{issue}
use consisten_cy.Broker.Decisions.{IsPermitted, entry, authorise-IsPermitted}
use consisten_cy.Broker.Tests.{admits_a, reading, issued, empty, reading_allowed}
use consisten_cy.Gateway.{SyscallOutcome, refused, invoke}
use consisten_cy.Gateway.Invoke.{invoke_denied}
use consisten_cy.Gateway.Settles.{IsFresh, Charges, invoke_failed, invoke_served}

abbrev outcome : SyscallOutcome ℕ
outcome = record { value = 7; tokens = some 12; cost_usd_micros = none }

abbrev publishing : AuthoriseRequest
publishing = record reading {
  action = github_publish;
  resource = Resource.github_publish "repo" none;
}

reads : repo_read ≢ repo_write
reads = λ e. cc

keeps_quiet : repo_read ≢ github_publish
keeps_quiet = λ e. cc

not-IsPermitted : ¬ IsPermitted admits_a 50 reading empty
unfolding Dict.get
not-IsPermitted p = cc (p.found)

invoke_denied_example :
    (reason : DenyReason) × (invoke admits_a {H = ℕ} 50 "res" reading
        (releases_all "h" ∷ [])
        (ok outcome)
        empty
      ≡ (
        err (refused (denied reason)),
        record empty { journal = empty.journal ++ entry 50 reading empty (deny reason) ∷ [] },
      ))
invoke_denied_example =
    invoke_denied admits_a 50 "res" reading (releases_all "h" ∷ []) (ok outcome) empty reads
      keeps_quiet not-IsPermitted

issued-IsFresh : IsFresh "res" "h" issued
unfolding issue Dict.get Dict.set string_dec ring_allowed_kinds capability_issuable_ring
    open_account
issued-IsFresh a e = cc e

invoke_failed_example :
    (invoke admits_a {H = ℕ} {T = ℕ} 50 "res" reading [] (err 3) issued).1.accountants
    ≡ issued.accountants
invoke_failed_example =
    invoke_failed admits_a ℕ 50 "res" reading 3 issued reads keeps_quiet issued-IsFresh

permitted : IsPermitted admits_a 50 reading issued
permitted = (authorise-IsPermitted admits_a 50 "res" reading issued).0 reading_allowed

invoke_served_example :
    ((invoke admits_a {H = ℕ} 50 "res" reading [] (ok outcome) issued).0 ≡ ok 7)
    × Charges reading outcome issued
        (invoke admits_a {H = ℕ} 50 "res" reading [] (ok outcome) issued).1
invoke_served_example =
    invoke_served admits_a 50 "res" reading outcome issued reads keeps_quiet issued-IsFresh
      permitted
