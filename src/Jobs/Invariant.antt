-- ===== src/Jobs/Invariant.antt =====
-- How the status of a job and its outbox agree in the queue of apps/api/src/jobQueue.ts.
use consisten_cy.Base.{
  ℕ, ◌≡◌, subst, String, true, Option, none, some, List, [], ◌∷◌, arith, Bool-cases, Option-cases,
  inl, inr, ◌⊎◌, string_dec,
}
use consisten_cy.Base.Dict
use consisten_cy.Base.Dict.{Dict}
use consisten_cy.Jobs.Data.{
  JobStatus, queued, running, awaiting_publish, publishing, PublishOutboxStatus, leased, retrying,
  PublishOutboxItem, ReviewJob, JobQueue, CommentStatus,
}
use consisten_cy.Jobs.Status.{job_status_eq_lem}
use consisten_cy.Jobs.Operations.{put_job, set_comment, mark_running, is_queued, mark_failed}

abbrev pub IsWaiting : PublishOutboxStatus → Type 0
IsWaiting s = (s ≡ PublishOutboxStatus.pending) ⊎ (s ≡ retrying)

-- The one item of a job that waits to be published.
pub record Waits (o : Option (List PublishOutboxItem)) : Type 0 where
  pub item : PublishOutboxItem
  pub only : o ≡ some (item ∷ [])
  pub target : item.target ≡ "github_comment"
  pub waiting : IsWaiting item.status

-- The one item of a job that is being published.
pub record IsPublished (o : Option (List PublishOutboxItem)) : Type 0 where
  pub item : PublishOutboxItem
  pub expires : ℕ
  pub only : o ≡ some (item ∷ [])
  pub target : item.target ≡ "github_comment"
  pub is_leased : item.status ≡ leased
  pub until : item.lease_expires_at ≡ some expires

abbrev pub Agrees : JobStatus → Option (List PublishOutboxItem) → Type 0
Agrees queued o = o ≡ none
Agrees running o = o ≡ none
Agrees awaiting_publish o = Waits o
Agrees publishing o = IsPublished o
Agrees _ o = Unit

abbrev pub Fits : {R : Type 0} → Option (ReviewJob R) → Option (List PublishOutboxItem) → Type 0
Fits none o = o ≡ none
Fits (some job) o = Agrees job.status o

module _ {R : Type 0} where
  pub record Inv (q : JobQueue R) : Type 0 where
    pub distinct : Dict.HasDistinctKeys q.publish_outbox
    pub fits : (j : String) → Fits (Dict.get j q.jobs) (Dict.get j q.publish_outbox)

  pub put_job-Inv :
      (id : String) (job : ReviewJob R) (q : JobQueue R)
      → Agrees job.status (Dict.get id q.publish_outbox)
      → Inv q
      → Inv (put_job id job q)
  put_job-Inv id job q a v = record {
    distinct = v.distinct;
    fits = λ j. elim (string_dec id j) [
      | yes e ↦
          let here : Dict.get j (Dict.set id job q.jobs) ≡ some job =
            ground (arith, Dict.get-set id j job q.jobs) in
          rw here (subst (λ k. Agrees job.status (Dict.get k q.publish_outbox)) e a)
      | no n ↦
          let kept : Dict.get j (Dict.set id job q.jobs) ≡ Dict.get j q.jobs =
            ground (arith, Dict.get-set id j job q.jobs) in
          rw kept (v.fits j)
    ];
  }

  pub set_comment-Inv :
      (id : String) (c : CommentStatus) (q : JobQueue R) → Inv q → Inv (set_comment id c q)
  set_comment-Inv id c q v = record { distinct = v.distinct; fits = v.fits }

  -- What holds of the job of an id.
  pub fits_some :
      (id : String) (job : ReviewJob R) (q : JobQueue R)
      → Dict.get id q.jobs ≡ some job
      → Inv q
      → Agrees job.status (Dict.get id q.publish_outbox)
  fits_some id job q e v = subst (λ o. Fits o (Dict.get id q.publish_outbox)) e (v.fits id)

  queued-is : (job : ReviewJob R) → is_queued job ≡ true → job.status ≡ queued
  queued-is job h = job_status_eq_lem job.status queued h

  pub mark_running-Inv :
      (now : ℕ) (id : String) (q : JobQueue R) → Inv q → Inv (mark_running now id q).1
  unfolding mark_running
  mark_running-Inv now id q v = elim (Option-cases (Dict.get id q.jobs)) [
    | inl e ↦ rw (mark_running, e) v
    | inr (job, e) ↦ elim (Bool-cases (is_queued job)) [
      | inr f ↦ rw (mark_running, e, f) v
      | inl t ↦
          rw (mark_running, e, t)
            (put_job-Inv id _ q
              (subst (λ s. Agrees s (Dict.get id q.publish_outbox)) (queued-is job t)
                (fits_some id job q e v))
              v)
    ]
  ]

  pub mark_failed-Inv :
      (now : ℕ) (id error : String) (q : JobQueue R) → Inv q → Inv (mark_failed now id error q).1
  unfolding mark_failed
  mark_failed-Inv now id error q v = elim (Option-cases (Dict.get id q.jobs)) [
    | inl e ↦ rw (mark_failed, e) v
    | inr (job, e) ↦ rw (mark_failed, e) (put_job-Inv id _ q tt v)
  ]

  -- A job and its outbox are written together.
  pub write-Inv :
      (id : String) (job : ReviewJob R) (items : List PublishOutboxItem) (q : JobQueue R)
      → Agrees job.status (some items)
      → Inv q
      → Inv (record q {
        jobs = Dict.set id job q.jobs;
        publish_outbox = Dict.set id items q.publish_outbox;
      })
  write-Inv id job items q a v = record {
    distinct = Dict.set-HasDistinctKeys id items q.publish_outbox v.distinct;
    fits = λ j. elim (string_dec id j) [
      | yes e ↦
          let job_here : Dict.get j (Dict.set id job q.jobs) ≡ some job =
            ground (arith, Dict.get-set id j job q.jobs) in
          let items_here : Dict.get j (Dict.set id items q.publish_outbox) ≡ some items =
            ground (arith, Dict.get-set id j items q.publish_outbox) in
          rw (job_here, items_here) a
      | no n ↦
          let job_kept : Dict.get j (Dict.set id job q.jobs) ≡ Dict.get j q.jobs =
            ground (arith, Dict.get-set id j job q.jobs) in
          let items_kept : Dict.get j (Dict.set id items q.publish_outbox)
              ≡ Dict.get j q.publish_outbox =
            ground (arith, Dict.get-set id j items q.publish_outbox) in
          rw (job_kept, items_kept) (v.fits j)
    ];
  }
