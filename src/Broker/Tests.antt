-- ===== src/Broker/Tests.antt =====
-- Runs of the broker of packages/kernel/src/capability/broker.ts.
use consisten_cy.Base.{
  ◌≡◌, ◌≢◌, ◌↔◌, refl, ap, String, Bool, true, false, none, some, [], ◌∷◌, ◌++◌, inl, inr, err,
  arith, string_dec,
}
use consisten_cy.Base.Dict
use consisten_cy.Identity.{Principal, PrincipalKind, Resource, Text}
use consisten_cy.Identity.Paths.{normalise_resource_path, split, join, has_parent}
use consisten_cy.Capability.{
  DenyReason, repo_read, unknown_capability, ring_allowed_kinds, capability_issuable_ring,
}
use consisten_cy.Audit.{deny}
use consisten_cy.Budget.{CapabilityBudget, open_account}
use consisten_cy.Broker.Data.{IssueRequest, AuthoriseRequest, Broker, denied}
use consisten_cy.Broker.Checks.{same}
use consisten_cy.Broker.Operations.{issue, revoke, authorise, new_record}
use consisten_cy.Broker.Calls.{issues, authorises, step, run}
use consisten_cy.Broker.Grant.{IsAhead}
use consisten_cy.Broker.Decisions.{
  IsOk, IsPermitted, authorise-IsPermitted, authorise_denied, entry,
}
use consisten_cy.Broker.Issue.{MayHold, IsCovered, issue-IsOk, issue-authorise}
use consisten_cy.Broker.Accounts.{AllWithin, step-AllWithin}
use consisten_cy.Broker.Revocation.{revoked_for_good}

-- A pattern that admits the paths that start with `a`.
abbrev pub admits_a : Text → Text → Bool
admits_a [] pattern = false
admits_a (c ∷ path) pattern = elim (Prim.Native.Nat.compare c 97) [
  | Prim.Native.Nat.Ordering.eq ↦ true
  | _ ↦ false
]

abbrev pub reviewer : Principal
reviewer = record { id = "agent:r"; kind = PrincipalKind.agent; run_id = some "run" }

abbrev pub limits : CapabilityBudget
limits = record { max_calls = some 2; max_tokens = none; max_cost_usd_micros = none }

abbrev pub wish : IssueRequest
wish = record {
  subject = reviewer;
  action = repo_read;
  resource = Resource.repository "repo";
  scope = some (record { sha = some "sha"; paths = some ([] ∷ []) });
  expires_at = some 100;
  budget = some limits;
}

abbrev pub reading : AuthoriseRequest
reading = record {
  principal = reviewer;
  handle = "h";
  action = repo_read;
  resource = Resource.repository "repo";
  path = some (97 ∷ []);
  sha = some "sha";
  tokens_to_reserve = none;
}

abbrev pub empty : Broker
empty = record { records = []; accountants = []; journal = []; changes = [] }

abbrev pub issued : Broker
issued = (issue 1 "h" "id" wish empty).1

no_account : Dict.get "h" empty.accountants ≡ none
unfolding Dict.get
no_account = refl

a_normalised : normalise_resource_path (97 ∷ []) ≡ some (97 ∷ [])
unfolding normalise_resource_path split join has_parent
a_normalised = refl

wish-IsCovered : IsCovered admits_a 50 "h" wish reading
unfolding open_account Dict.total
wish-IsCovered = record {
  same_handle = refl;
  owner = refl;
  action = refl;
  covers = refl;
  in_scope = (inr refl, (97 ∷ [], 97 ∷ [], refl, a_normalised, inl refl));
  in_run = inr (inr tt);
  ahead = ground arith;
  room = record { calls = ground arith; tokens = tt; cost = tt };
}

issue-authorise_example : IsOk (authorise admits_a 50 "res" reading issued).0
issue-authorise_example =
    issue-authorise admits_a 1 50 "h" "id" "res" wish reading empty tt (ground arith) no_account
      wish-IsCovered

pub reading_allowed : IsOk (authorise admits_a 50 "res" reading issued).0
reading_allowed =
    issue-authorise admits_a 1 50 "h" "id" "res" wish reading empty tt (ground arith) no_account
      wish-IsCovered

issue-IsOk_example :
    IsOk (issue 1 "h" "id" wish empty).0
    ↔ (MayHold PrincipalKind.agent repo_read × IsAhead 1 (some 100))
issue-IsOk_example = issue-IsOk 1 "h" "id" wish empty

authorise-IsPermitted_example :
    IsOk (authorise admits_a 50 "res" reading issued).0 ↔ IsPermitted admits_a 50 reading issued
authorise-IsPermitted_example = authorise-IsPermitted admits_a 50 "res" reading issued

reading_unknown : (authorise admits_a 50 "res" reading empty).0 ≡ err (denied unknown_capability)
unfolding authorise Dict.get
reading_unknown = refl

authorise_denied_example : (authorise admits_a 50 "res" reading empty).1 ≡ record empty {
  journal = empty.journal ++ entry 50 reading empty (deny unknown_capability) ∷ [];
}
authorise_denied_example =
    authorise_denied admits_a 50 "res" reading empty unknown_capability reading_unknown

the_record : Dict.get "h" issued.records ≡ some (new_record 1 "h" "id" wish)
unfolding issue Dict.get Dict.set string_dec ring_allowed_kinds capability_issuable_ring
the_record = refl

abbrev other : String
other = "k"

k_is_other : other ≢ "h"
unfolding string_dec
k_is_other e = let apart : false ≡ true = ap (λ (s : String). same s "h") e in cc apart

revoked_for_good_example :
    (authorise admits_a 60 "res" reading (
      run admits_a
        (issues 51 other "id2" wish ∷ authorises 52 "r2" reading ∷ [])
        (revoke 50 "h" "kernel" issued).1)).0
    ≡ err (denied DenyReason.revoked)
revoked_for_good_example =
    revoked_for_good admits_a 50 60 "kernel" "res"
      (issues 51 other "id2" wish ∷ authorises 52 "r2" reading ∷ []) reading issued
      (new_record 1 "h" "id" wish) the_record (k_is_other, (tt, tt))

nothing : AllWithin empty
unfolding Dict.get
nothing h a e = cc

issued-AllWithin : AllWithin issued
unfolding issue step
issued-AllWithin = step-AllWithin admits_a (issues 1 "h" "id" wish) empty refl nothing

step-AllWithin_example : AllWithin (step admits_a (authorises 50 "res" reading) issued)
step-AllWithin_example =
    step-AllWithin admits_a (authorises 50 "res" reading) issued refl issued-AllWithin
