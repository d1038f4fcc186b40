-- ===== src/Broker/Revocation.antt =====
-- Revocation is for good: packages/kernel/src/capability/broker.ts, over every sequence of calls.
use consisten_cy.Base.{
  ℕ, ◌≡◌, ◌≢◌, refl, sym, subst, String, Bool, true, some, List, [], ◌∷◌, arith, err, All,
  Option-cases, inl, inr, string_dec,
}
use consisten_cy.Base.Dict
use consisten_cy.Base.Dict.{Dict}
use consisten_cy.Identity.{Text}
use consisten_cy.Capability.{DenyReason}
use consisten_cy.Budget
use consisten_cy.Budget.{Accountant}
use consisten_cy.Broker.Data.{CapabilityRecord, IssueRequest, AuthoriseRequest, Broker, denied}
use consisten_cy.Broker.Checks.{check_record}
use consisten_cy.Broker.Calls.{
  Call, issues, revokes, authorises, commits, releases, releases_all, step, run,
}
use consisten_cy.Broker.Operations.{
  issue, revoke, authorise, decide, settle, new_record, commit_tokens, release_tokens,
  release_all_tokens, on_account,
}

-- Handles are drawn at random, so an issue does not draw one that is in use.
abbrev pub DrawsOther : String → Call → Type 0
DrawsOther handle (issues now drawn id request) = drawn ≢ handle
DrawsOther handle _ = Unit

abbrev pub IsRevoked : String → Broker → Type 0
IsRevoked handle b =
    (c : CapabilityRecord) × (Dict.get handle b.records ≡ some c) × (c.revoked ≡ true)

issue-IsRevoked :
    (h : String) (now : ℕ) (drawn id : String) (request : IssueRequest) (b : Broker)
    → drawn ≢ h
    → IsRevoked h b
    → IsRevoked h (issue now drawn id request b).1
unfolding issue
issue-IsRevoked h now drawn id request b other (c, e, r) =
    (c, ground (arith, Dict.get-set drawn h (new_record now drawn id request) b.records), r)

revoke-IsRevoked :
    (h : String) (now : ℕ) (handle by : String) (b : Broker)
    → IsRevoked h b
    → IsRevoked h (revoke now handle by b).1
unfolding revoke
revoke-IsRevoked h now handle by b (c, e, r) = elim (Option-cases (Dict.get handle b.records)) [
  | inl f ↦ rw (f, revoke) (c, e, r)
  | inr (d, f) ↦ elim (string_dec handle h) [
    | yes same ↦
        rw (f, revoke)
          (
            record d { revoked = true },
            ground (arith, Dict.get-set handle h (record d { revoked = true }) b.records),
            refl,
          )
    | no other ↦
        rw (f, revoke)
          (c, ground (arith, Dict.get-set handle h (record d { revoked = true }) b.records), r)
  ]
]

-- Only `issue` and `revoke` write records.
settle_records :
    (handle : String) (r : Budget.ReserveResult × Accountant) (b : Broker)
    → (settle handle r b).1.records ≡ b.records
settle_records handle r b = ground arith

pub authorise_records :
    (minimatch : Text → Text → Bool) (now : ℕ) (id : String) (request : AuthoriseRequest)
    (b : Broker)
    → (authorise minimatch now id request b).1.records ≡ b.records
unfolding authorise
authorise_records minimatch now id request b =
    elim (Option-cases (Dict.get request.handle b.records)) [
      | inl e ↦ rw e refl
      | inr (c, e) ↦ rw e (elim (Option-cases (check_record minimatch now request c)) [
        | inr (reason, denial) ↦ rw (decide, denial) refl
        | inl fine ↦
            rw (decide, fine)
              (elim (Option-cases c.budget) [
                | inl f ↦ rw f refl
                | inr (limits, f) ↦ elim (Option-cases (Dict.get request.handle b.accountants)) [
                  | inl g ↦ rw (f, g) refl
                  | inr (a, g) ↦ rw (f, g) (settle_records request.handle _ b)
                ]
              ])
      ])
    ]

on_account_records :
    (handle : String) (f : Accountant → Accountant) (b : Broker)
    → (on_account handle f b).records ≡ b.records
on_account_records handle f b = elim (Option-cases (Dict.get handle b.accountants)) [
  | inl e ↦ rw (e, on_account) refl
  | inr (a, e) ↦ rw (e, on_account) refl
]

release_all_records :
    (handle : String) (b : Broker) → (release_all_tokens handle b).1.records ≡ b.records
unfolding release_all_tokens
release_all_records handle b = elim (Option-cases (Dict.get handle b.accountants)) [
  | inl e ↦ rw (e, release_all_tokens) refl
  | inr (a, e) ↦ rw (e, release_all_tokens) refl
]

keeps-IsRevoked :
    (h : String) (b b' : Broker) → b'.records ≡ b.records → IsRevoked h b → IsRevoked h b'
keeps-IsRevoked h b b' same (c, e, r) = (c, subst (λ d. Dict.get h d ≡ some c) (sym same) e, r)

module _ (minimatch : Text → Text → Bool) where
  step-IsRevoked :
      (h : String) (call : Call) (b : Broker)
      → DrawsOther h call
      → IsRevoked h b
      → IsRevoked h (step minimatch call b)
  unfolding step commit_tokens release_tokens
  step-IsRevoked h (issues now drawn id request) b other r =
      issue-IsRevoked h now drawn id request b other r
  step-IsRevoked h (revokes now handle by) b other r = revoke-IsRevoked h now handle by b r
  step-IsRevoked h (authorises now id request) b other r =
      keeps-IsRevoked h b (authorise minimatch now id request b).1
        (authorise_records minimatch now id request b) r
  step-IsRevoked h (commits token tokens cost) b other r =
      keeps-IsRevoked h b (commit_tokens token tokens cost b)
        (on_account_records token.handle (Budget.commit token.reservation_id tokens cost) b) r
  step-IsRevoked h (releases token) b other r =
      keeps-IsRevoked h b (release_tokens token b)
        (on_account_records token.handle (Budget.release token.reservation_id) b) r
  step-IsRevoked h (releases_all handle) b other r =
      keeps-IsRevoked h b (release_all_tokens handle b).1 (release_all_records handle b) r

  run-IsRevoked :
      (h : String) (calls : List Call) (b : Broker)
      → All (DrawsOther h) calls
      → IsRevoked h b
      → IsRevoked h (run minimatch calls b)
  unfolding run
  run-IsRevoked h [] b other r = r
  run-IsRevoked h (call ∷ calls) b other r =
      run-IsRevoked h calls (step minimatch call b) other.1 (step-IsRevoked h call b other.0 r)

  revoked_denies :
      (now : ℕ) (id : String) (request : AuthoriseRequest) (b : Broker)
      → IsRevoked request.handle b
      → (authorise minimatch now id request b).0 ≡ err (denied DenyReason.revoked)
  unfolding authorise check_record
  revoked_denies now id request b (c, e, r) = rw (e, decide, r) refl

  -- Once a known capability is revoked, its handle is denied as revoked, whatever is called between,
  -- whoever asks and whatever for, if no issue in between draws the same handle again.
  pub revoked_for_good :
      (now later : ℕ) (by id : String) (calls : List Call) (request : AuthoriseRequest) (b : Broker)
      (c : CapabilityRecord)
      → Dict.get request.handle b.records ≡ some c
      → All (DrawsOther request.handle) calls
      → (authorise minimatch later id request
          (run minimatch calls (revoke now request.handle by b).1)).0
        ≡ err (denied DenyReason.revoked)
  unfolding revoke
  revoked_for_good now later by id calls request b c found others =
      revoked_denies later id request (run minimatch calls (revoke now request.handle by b).1) (
        run-IsRevoked request.handle calls (revoke now request.handle by b).1 others (
          record c { revoked = true },
          ground (
            arith,
            found,
            Dict.get-set request.handle request.handle (record c { revoked = true }) b.records,
          ),
          refl,
        ))
