-- ===== src/Jobs/JobSteps.antt =====
-- The methods of apps/api/src/jobQueue.ts on jobs keep the agreement of status and outbox.
use consisten_cy.Base.{
  ℕ, ◌≡◌, subst, String, Bool, Option, none, [], ◌∷◌, Bool-cases, Option-cases, inl, inr,
}
use consisten_cy.Base.Dict
use consisten_cy.Base.Dict.{Dict}
use consisten_cy.Jobs.Data.{
  JobStatus, queued, running, awaiting_publish, publishing, succeeded, publish_failed, cancelled,
  ReviewJob, JobQueue, CreateReviewJobInput,
}
use consisten_cy.Jobs.Operations.{
  value_or, enqueue, new_job, next_queued, claim_next_queued, mark_failed, update_status, fail_each,
}
use consisten_cy.Jobs.Outbox.{mark_succeeded}
use consisten_cy.Jobs.Invariant.{Fits, Inv, put_job-Inv, mark_running-Inv, mark_failed-Inv}

-- The statuses that a caller may give to a job at any time.
abbrev pub IsEnding : JobStatus → Type 0
IsEnding queued = ⊥
IsEnding awaiting_publish = ⊥
IsEnding publishing = ⊥
IsEnding _ = Unit

module _ {R : Type 0} where
  pub claim_next-Inv : (now : ℕ) (q : JobQueue R) → Inv q → Inv (claim_next_queued now q).1
  unfolding claim_next_queued
  claim_next-Inv now q v = elim (Option-cases (next_queued q)) [
    | inl e ↦ rw (claim_next_queued, e) v
    | inr (job, e) ↦ rw (claim_next_queued, e) (mark_running-Inv now job.id q v)
  ]

  pub update_status-Inv :
      (now : ℕ) (id : String) (s : JobStatus) (error : Option String) (q : JobQueue R)
      → IsEnding s
      → Inv q
      → Inv (update_status now id s error q).1
  unfolding update_status
  update_status-Inv now id running error q i v = mark_running-Inv now id q v
  update_status-Inv now id JobStatus.failed error q i v =
      mark_failed-Inv now id (value_or error "Job failed") q v
  update_status-Inv now id succeeded error q i v = elim (Option-cases (Dict.get id q.jobs)) [
    | inl e ↦ rw (update_status, e) v
    | inr (job, e) ↦ rw (update_status, e) (put_job-Inv id _ q tt v)
  ]
  update_status-Inv now id publish_failed error q i v = elim (Option-cases (Dict.get id q.jobs)) [
    | inl e ↦ rw (update_status, e) v
    | inr (job, e) ↦ rw (update_status, e) (put_job-Inv id _ q tt v)
  ]
  update_status-Inv now id cancelled error q i v = elim (Option-cases (Dict.get id q.jobs)) [
    | inl e ↦ rw (update_status, e) v
    | inr (job, e) ↦ rw (update_status, e) (put_job-Inv id _ q tt v)
  ]
  update_status-Inv now id queued error q i v = absurd i
  update_status-Inv now id awaiting_publish error q i v = absurd i
  update_status-Inv now id publishing error q i v = absurd i

  pub fail_each-Inv :
      (test : ReviewJob R → Bool) (message : String) (now : ℕ) (entries : Dict (ReviewJob R))
      (q : JobQueue R)
      → Inv q
      → Inv (fail_each test message now entries q).1
  unfolding fail_each
  fail_each-Inv test message now [] q v = v
  fail_each-Inv test message now ((key, job) ∷ entries) q v = elim (Bool-cases (test job)) [
    | inl t ↦ rw t (
        fail_each-Inv test message now entries (mark_failed now job.id message q).1
          (mark_failed-Inv now job.id message q v))
    | inr f ↦ rw f (fail_each-Inv test message now entries q v)
  ]

  pub mark_succeeded-Inv :
      (parse : R → Option R) (now : ℕ) (id : String) (report : R) (q : JobQueue R)
      → Inv q
      → Inv (mark_succeeded parse now id report q).1
  unfolding mark_succeeded
  mark_succeeded-Inv parse now id report q v = elim (Option-cases (Dict.get id q.jobs)) [
    | inl e ↦ rw (mark_succeeded, e) v
    | inr (job, e) ↦ elim (Option-cases (parse report)) [
      | inl p ↦ rw (mark_succeeded, e, p) v
      | inr (r, p) ↦ rw (mark_succeeded, e, p) (put_job-Inv id _ q tt v)
    ]
  ]

  pub enqueue-Inv :
      (now : ℕ) (id : String) (input : CreateReviewJobInput R) (q : JobQueue R)
      → Dict.get id q.jobs ≡ none
      → Inv q
      → Inv (enqueue now id input q).1
  unfolding enqueue
  enqueue-Inv now id input q fresh v =
      put_job-Inv id (new_job now id input) q
        (subst (λ o. Fits o (Dict.get id q.publish_outbox)) fresh (v.fits id)) v
