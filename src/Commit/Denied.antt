-- ===== src/Commit/Denied.antt =====
-- What a submission may do to the sink and to the budget: packages/kernel/src/commit/coordinator.ts.
use consisten_cy.Base.{
  ℕ, ◌≡◌, refl, sym, ◌∙◌, subst, ap, String, Bool, err, Result-cases, Bool-cases, Option-cases, inl,
  inr,
}
use consisten_cy.Base.Dict
use consisten_cy.Base.Dict.{Dict}
use consisten_cy.Identity.{Text}
use consisten_cy.Broker.Operations.{authorise}
use consisten_cy.Broker.Decisions.{IsOk, IsPermitted, authorise-IsPermitted, authorise_denied}
use consisten_cy.Broker.Allows.{authorise-Allows, authorise_throws}
use consisten_cy.Gateway.Settles.{IsFresh, released_lem}
use consisten_cy.Commit.Data.{CommitAcceptRequest, Coordinator}
use consisten_cy.Commit.Operations.{is_commit_action, authorise_request, start, submit}

module _ (minimatch : Text → Text → Bool) where
  start_unauthorised :
      (now : ℕ) (id reservation : String) (request : CommitAcceptRequest) (c : Coordinator)
      → ¬ IsPermitted minimatch now (authorise_request request) c.broker
      → (start minimatch now id reservation request c).handed ≡ c.handed
  start_unauthorised now id reservation request c forbidden =
      elim (Option-cases request.payload_hash) [
        | inl e ↦ rw (start, e) refl
        | inr (hash, e) ↦
            elim (Result-cases
              (authorise minimatch now reservation (authorise_request request) c.broker).0) [
                | inl (o, good) ↦ absurd (
                    forbidden (
                      (authorise-IsPermitted minimatch now reservation (authorise_request request)
                          c.broker).0
                        (subst IsOk (sym good) tt)))
                | inr (f, bad) ↦ rw (start, e, bad) refl
              ]
      ]

  -- A submission that the broker does not permit gives nothing to the sink, whatever else it meets.
  pub submit_unauthorised :
      (now : ℕ) (id reservation : String) (request : CommitAcceptRequest) (c : Coordinator)
      → ¬ IsPermitted minimatch now (authorise_request request) c.broker
      → (submit minimatch now id reservation request c).1.handed ≡ c.handed
  unfolding submit
  submit_unauthorised now id reservation request c forbidden =
      elim (Bool-cases (is_commit_action request.action)) [
        | inr f ↦ rw f refl
        | inl t ↦ elim (Option-cases (Dict.get request.idempotency_key c.receipts)) [
          | inr (r, e) ↦ rw (t, e) refl
          | inl e ↦ elim (Option-cases (Dict.get request.idempotency_key c.in_flight)) [
            | inr (p, f) ↦ rw (t, e, f) refl
            | inl f ↦ rw (t, e, f) (start_unauthorised now id reservation request c forbidden)
          ]
        ]
      ]

  start_accounts :
      (now : ℕ) (id reservation : String) (request : CommitAcceptRequest) (c : Coordinator)
      → IsFresh reservation request.handle c.broker
      → (start minimatch now id reservation request c).broker.accountants ≡ c.broker.accountants
  start_accounts now id reservation request c fresh = elim (Option-cases request.payload_hash) [
    | inl e ↦ rw (start, e) refl
    | inr (hash, e) ↦
        let asked = authorise_request request in
        elim (Result-cases (authorise minimatch now reservation asked c.broker).0) [
          | inl (o, good) ↦
              rw (start, e, good)
                (released_lem reservation asked c.broker o
                  (authorise minimatch now reservation asked c.broker).1 fresh
                  (authorise-Allows minimatch now reservation asked c.broker o good))
          | inr (f, bad) ↦
              let (reason, same) =
                authorise_throws minimatch now reservation asked c.broker f bad in
              let after =
                authorise_denied minimatch now reservation asked c.broker reason
                  (bad ∙ ap err same) in
              rw (start, e, bad, after) refl
        ]
  ]

  -- A submission costs nothing: every account is as it was, if the id drawn for the reservation was
  -- new.
  pub submit_accounts :
      (now : ℕ) (id reservation : String) (request : CommitAcceptRequest) (c : Coordinator)
      → IsFresh reservation request.handle c.broker
      → (submit minimatch now id reservation request c).1.broker.accountants ≡ c.broker.accountants
  unfolding submit
  submit_accounts now id reservation request c fresh =
      elim (Bool-cases (is_commit_action request.action)) [
        | inr f ↦ rw f refl
        | inl t ↦ elim (Option-cases (Dict.get request.idempotency_key c.receipts)) [
          | inr (r, e) ↦ rw (t, e) refl
          | inl e ↦ elim (Option-cases (Dict.get request.idempotency_key c.in_flight)) [
            | inr (p, f) ↦ rw (t, e, f) refl
            | inl f ↦ rw (t, e, f) (start_accounts now id reservation request c fresh)
          ]
        ]
      ]
