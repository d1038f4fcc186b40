-- ===== src/Publish/Ended.antt =====
-- About attempts that are not aborted: `processClaimedItem` of apps/api/src/publish/worker.ts.
use consisten_cy.Base.{
  ℕ, ◌≡◌, String, false, Option, none, some, Bool-cases, inl, inr, refl, sym, subst, if◌then◌else◌,
  Result-cases,
}
use consisten_cy.Jobs.Data.{ReviewJob, PublishOutboxItem, JobQueue}
use consisten_cy.Jobs.Operations.{get}
use consisten_cy.Jobs.Lease.{Mark, success, published}
use consisten_cy.Publish.Error.{PublishError, sanitize_publish_failure}
use consisten_cy.Publish.Classify.{is_number}
use consisten_cy.Publish.Data.{PublishWorker, Attempt, Ending, left, commented, thrown}
use consisten_cy.Publish.Worker.{
  missing, options, classify, second_failure, refreshed, first_failure, with_token, with_report,
  ending, mark_of, decide, failure_mark,
}

pub record IsNotAborted {R : Type 0} (a : Attempt R) : Type 0 where
  pub at_start : a.is_aborted ≡ false
  pub with_the_token : a.is_aborted_with_token ≡ false
  pub after_comment : a.is_aborted_after_comment ≡ false
  pub after_second : a.is_aborted_after_second ≡ false
  pub not_stopped : a.is_stopped ≡ false

abbrev IsEnded : Ending → Type 0
IsEnded left = ⊥
IsEnded _ = Unit

module _ (sanitize_public_error : String → String) (now : ℕ) where
  second-IsEnded :
      (token : String) (e : PublishError)
      → IsEnded (second_failure sanitize_public_error now token e)
  second-IsEnded token e = elim (Bool-cases (is_number e.status 401)) [
    | inl t ↦ rw t tt
    | inr f ↦ rw f tt
  ]

  module _ {R : Type 0} (a : Attempt R) (item : PublishOutboxItem) (n : IsNotAborted a) where
    refreshed-IsEnded :
        (job : ReviewJob R) (report : R) (token : String)
        → IsEnded (refreshed sanitize_public_error now a item job report token)
    unfolding refreshed
    refreshed-IsEnded job report token = elim (Result-cases (a.fresh_token job)) [
      | inr (e, t) ↦ rw (refreshed, t) (second-IsEnded token (classify sanitize_public_error now e))
      | inl (fresh, t) ↦ elim (Result-cases (a.second_comment (options report job fresh item))) [
        | inr (e, c) ↦
            rw (refreshed, t, c) (second-IsEnded fresh (classify sanitize_public_error now e))
        | inl (id, c) ↦ rw (refreshed, t, c, n.after_second) tt
      ]
    ]

    first-IsEnded :
        (job : ReviewJob R) (report : R) (token : String) (e : PublishError)
        → IsEnded (first_failure sanitize_public_error now a item job report token e)
    first-IsEnded job report token e = elim (Bool-cases (is_number e.status 401)) [
      | inl t ↦ rw t (refreshed-IsEnded job report token)
      | inr f ↦ rw f tt
    ]

    token-IsEnded :
        (job : ReviewJob R) (report : R) (token : String)
        → IsEnded (with_token sanitize_public_error now a item job report token)
    unfolding with_token
    token-IsEnded job report token =
        elim (Result-cases (a.comment (options report job token item))) [
          | inr (e, c) ↦
              rw (with_token, n.with_the_token, c)
                (first-IsEnded job report token (classify sanitize_public_error now e))
          | inl (id, c) ↦ rw (with_token, n.with_the_token, c, n.after_comment) tt
        ]

    report-IsEnded :
        (job : ReviewJob R) (report : Option R)
        → IsEnded (with_report sanitize_public_error now a item job report)
    unfolding with_report
    report-IsEnded job none = tt
    report-IsEnded job (some report) = elim (Result-cases (a.token job)) [
      | inr (e, t) ↦ rw (with_report, t) tt
      | inl (token, t) ↦ rw (with_report, t) (token-IsEnded job report token)
    ]

    ending-IsEnded :
        (job : Option (ReviewJob R)) → IsEnded (ending sanitize_public_error now a item job)
    unfolding ending
    ending-IsEnded none =
        subst (λ b. IsEnded (if b then left else missing item)) (sym n.at_start) tt
    ending-IsEnded (some job) =
        subst
          (λ b.
            IsEnded
              (if b then left else with_report sanitize_public_error now a item job job.result))
          (sym n.at_start) (report-IsEnded job job.result)

    mark_of-some :
        (worker : PublishWorker) (e : Ending)
        → IsEnded e
        → (m : Mark) × (mark_of sanitize_public_error now worker a item e ≡ some m)
    unfolding mark_of
    mark_of-some worker left h = absurd h
    mark_of-some worker (commented id) h = (success published (some id), refl)
    mark_of-some worker (thrown caught token) h =
        let e = classify sanitize_public_error now caught in
        (
          failure_mark sanitize_public_error now worker item a.jitter
              (sanitize_publish_failure sanitize_public_error e token) e,
          rw n.not_stopped refl,
        )

    pub decide-some :
        (worker : PublishWorker) (q : JobQueue R)
        → (m : Mark) × (decide sanitize_public_error now worker a item q ≡ some m)
    unfolding decide
    decide-some worker q =
        mark_of-some worker (ending sanitize_public_error now a item (get item.job_id q))
          (ending-IsEnded (get item.job_id q))
