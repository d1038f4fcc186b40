-- ===== src/Commit/Tests.antt =====
-- Submissions to the coordinator of packages/kernel/src/commit/coordinator.ts.
use consisten_cy.Base.{◌≡◌, refl, none, some, List, [], ◌∷◌, string_dec}
use consisten_cy.Base.Dict
use consisten_cy.Identity.{Principal, PrincipalKind, Resource}
use consisten_cy.Capability.{github_publish, ring_allowed_kinds, capability_issuable_ring}
use consisten_cy.Broker.Data.{IssueRequest, Broker}
use consisten_cy.Broker.Checks.{check_record, match_resource}
use consisten_cy.Broker.Operations.{issue, authorise}
use consisten_cy.Broker.Decisions.{IsPermitted}
use consisten_cy.Broker.Tests.{admits_a, empty}
use consisten_cy.Gateway.Settles.{IsFresh}
use consisten_cy.Commit.Data.{CommitAcceptRequest, CommitReceipt, CommitReceiptStatus, Coordinator}
use consisten_cy.Commit.Operations.{
  returns, as_duplicate, authorise_request, submit, settle, find_pending, remove_pending, Event,
  submits, settles, step, run, new_coordinator,
}
use consisten_cy.Commit.Invariant.{Inv, acceptances, bit}
use consisten_cy.Commit.Once.{run_accepts_once, run-Inv, new_coordinator-Inv}
use consisten_cy.Commit.Duplicates.{handed_for, accepted_for_good}
use consisten_cy.Commit.Denied.{submit_unauthorised}

abbrev kernel : Principal
kernel = record { id = "kernel"; kind = PrincipalKind.kernel; run_id = none }

abbrev publishing : IssueRequest
publishing = record {
  subject = kernel;
  action = github_publish;
  resource = Resource.github_publish "repo" (some 5);
  scope = none;
  expires_at = none;
  budget = none;
}

abbrev broker : Broker
broker = (issue 1 "h" "id" publishing empty).1

abbrev request : CommitAcceptRequest
request = record {
  principal = kernel;
  handle = "h";
  action = github_publish;
  resource = Resource.github_publish "repo" (some 5);
  idempotency_key = "key";
  payload_hash = some "hash";
  run_id = none;
}

abbrev receipt : CommitReceipt
receipt = record {
  intent_id = "commit_1";
  idempotency_key = "key";
  accepted_at = 4;
  status = CommitReceiptStatus.accepted;
}

-- A submission, a second one while the sink is awaited, the sink's receipt, and a third.
abbrev events : List Event
events =
    submits 2 "commit_1" "res" request
    ∷ submits 3 "commit_2" "res" request
    ∷ settles 0 (some receipt)
    ∷ submits 5 "commit_3" "res" request
    ∷ []

run_accepts_once_example :
    acceptances "key" (run admits_a events (new_coordinator broker)).journal
    ≡ bit (Dict.has "key" (run admits_a events (new_coordinator broker)).receipts)
run_accepts_once_example = run_accepts_once admits_a events broker "key"

abbrev done : Coordinator
done = run admits_a events (new_coordinator broker)

done_receipt : Dict.get "key" done.receipts ≡ some receipt
unfolding run step submit settle find_pending remove_pending new_coordinator issue authorise
    Dict.get Dict.set string_dec check_record match_resource ring_allowed_kinds
    capability_issuable_ring
done_receipt = refl

done-Inv : Inv done
done-Inv = run-Inv admits_a events (new_coordinator broker) (new_coordinator-Inv broker)

accepted_for_good_example :
    (submit admits_a 9 "commit_4" "res" request (run admits_a (settles 0 none ∷ []) done)
      ≡ (returns (as_duplicate receipt), run admits_a (settles 0 none ∷ []) done))
    × (handed_for "key" (run admits_a (settles 0 none ∷ []) done).handed
        ≡ handed_for "key" done.handed)
accepted_for_good_example =
    accepted_for_good admits_a (settles 0 none ∷ []) done receipt 9 "commit_4" "res" request
      done-Inv done_receipt refl

not-IsPermitted : ¬ IsPermitted admits_a 2 (authorise_request request) empty
unfolding Dict.get
not-IsPermitted p = cc (p.found)

submit_unauthorised_example :
    (submit admits_a 2 "commit_1" "res" request (new_coordinator empty)).1.handed
    ≡ (new_coordinator empty).handed
unfolding new_coordinator
submit_unauthorised_example =
    submit_unauthorised admits_a 2 "commit_1" "res" request (new_coordinator empty) not-IsPermitted

broker-IsFresh : IsFresh "res" "h" broker
unfolding issue Dict.get Dict.set string_dec ring_allowed_kinds capability_issuable_ring
broker-IsFresh a e = cc e
