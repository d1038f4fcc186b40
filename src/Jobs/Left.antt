-- ===== src/Jobs/Left.antt =====
-- About the statuses by which a job has left the queue of apps/api/src/jobQueue.ts.
use consisten_cy.Base.{
  ℕ, ◌≡◌, ◌≢◌, sym, subst, String, Bool, Option, none, some, [], ◌∷◌, arith, inl, inr, ◌⊎◌,
  Bool-cases, Option-cases, string_dec,
}
use consisten_cy.Base.Dict
use consisten_cy.Base.Dict.{Dict}
use consisten_cy.Jobs.Data.{
  JobStatus, queued, running, awaiting_publish, publishing, succeeded, publish_failed, cancelled,
  ReviewJob, JobQueue, PublicationPolicy, github_comment, disabled,
}
use consisten_cy.Jobs.Operations.{
  put_job, is_queued, next_queued, mark_running, claim_next_queued, mark_failed, update_status,
  fail_each,
}
use consisten_cy.Jobs.Outbox.{
  mark_succeeded, persist_found, persist_report_and_enqueue_publish, published_by, is_past,
  is_reportable,
}
use consisten_cy.Jobs.Lease.{Mark, success, retry, give_up, mark}
use consisten_cy.Jobs.Settled.{advance_of, mark_lem}

-- The job is there and has left the queue.
abbrev pub HasStatus : {R : Type 0} → Option (ReviewJob R) → Type 0
HasStatus none = ⊥
HasStatus (some job) = job.status ≢ queued

module _ {R : Type 0} (j : String) where
  abbrev pub HasLeft : Dict (ReviewJob R) → Type 0
  HasLeft jobs = HasStatus (Dict.get j jobs)

  pub set-HasLeft :
      (id : String) (job : ReviewJob R) (jobs : Dict (ReviewJob R))
      → job.status ≢ queued
      → HasLeft jobs
      → HasLeft (Dict.set id job jobs)
  set-HasLeft id job jobs n h = elim (string_dec id j) [
    | yes e ↦
        let here : Dict.get j (Dict.set id job jobs) ≡ some job =
          ground (arith, Dict.get-set id j job jobs) in
        subst HasStatus (sym here) n
    | no other ↦
        let kept : Dict.get j (Dict.set id job jobs) ≡ Dict.get j jobs =
          ground (arith, Dict.get-set id j job jobs) in
        subst HasStatus (sym kept) h
  ]

  pub set_other-HasLeft :
      (id : String) (job : ReviewJob R) (jobs : Dict (ReviewJob R))
      → id ≢ j
      → HasLeft jobs
      → HasLeft (Dict.set id job jobs)
  set_other-HasLeft id job jobs n h =
      let kept : Dict.get j (Dict.set id job jobs) ≡ Dict.get j jobs =
        ground (arith, Dict.get-set id j job jobs) in
      subst HasStatus (sym kept) h

  pub mark_running-HasLeft :
      (now : ℕ) (id : String) (q : JobQueue R)
      → HasLeft q.jobs
      → HasLeft (mark_running now id q).1.jobs
  unfolding mark_running
  mark_running-HasLeft now id q h = elim (Option-cases (Dict.get id q.jobs)) [
    | inl e ↦ rw (mark_running, e) h
    | inr (job, e) ↦ elim (Bool-cases (is_queued job)) [
      | inr f ↦ rw (mark_running, e, f) h
      | inl t ↦ rw (mark_running, e, t) (set-HasLeft id _ q.jobs (λ x. absurd (ground arith)) h)
    ]
  ]

  pub claim_next-HasLeft :
      (now : ℕ) (q : JobQueue R) → HasLeft q.jobs → HasLeft (claim_next_queued now q).1.jobs
  unfolding claim_next_queued
  claim_next-HasLeft now q h = elim (Option-cases (next_queued q)) [
    | inl e ↦ rw (claim_next_queued, e) h
    | inr (job, e) ↦ rw (claim_next_queued, e) (mark_running-HasLeft now job.id q h)
  ]

  pub mark_failed-HasLeft :
      (now : ℕ) (id error : String) (q : JobQueue R)
      → HasLeft q.jobs
      → HasLeft (mark_failed now id error q).1.jobs
  unfolding mark_failed
  mark_failed-HasLeft now id error q h = elim (Option-cases (Dict.get id q.jobs)) [
    | inl e ↦ rw (mark_failed, e) h
    | inr (job, e) ↦ rw (mark_failed, e) (set-HasLeft id _ q.jobs (λ x. absurd (ground arith)) h)
  ]

  set_by_hand :
      (now : ℕ) (id : String) (s : JobStatus) (error : Option String) (job : ReviewJob R)
      (jobs : Dict (ReviewJob R))
      → (id ≢ j) ⊎ (s ≢ queued)
      → HasLeft jobs
      → HasLeft (Dict.set id (record job { status = s; error = error; updated_at = now }) jobs)
  set_by_hand now id s error job jobs (inl other) h = set_other-HasLeft id _ jobs other h
  set_by_hand now id s error job jobs (inr n) h = set-HasLeft id _ jobs n h

  by_hand :
      (now : ℕ) (id : String) (s : JobStatus) (error : Option String) (q : JobQueue R)
      → (id ≢ j) ⊎ (s ≢ queued)
      → HasLeft q.jobs
      → HasLeft
          (elim (Dict.get id q.jobs) as (λ _. Option (ReviewJob R) × JobQueue R) [
            | none ↦ (none, q)
            | some job ↦
                let updated = record job { status = s; error = error; updated_at = now } in
                (some updated, put_job id updated q)
          ]).1.jobs
  by_hand now id s error q n h = elim (Option-cases (Dict.get id q.jobs)) [
    | inl e ↦ rw e h
    | inr (job, e) ↦ rw e (set_by_hand now id s error job q.jobs n h)
  ]

  -- Nobody puts the job back by hand.
  pub update_status-HasLeft :
      (now : ℕ) (id : String) (s : JobStatus) (error : Option String) (q : JobQueue R)
      → (id ≢ j) ⊎ (s ≢ queued)
      → HasLeft q.jobs
      → HasLeft (update_status now id s error q).1.jobs
  unfolding update_status
  update_status-HasLeft now id running error q n h = mark_running-HasLeft now id q h
  update_status-HasLeft now id JobStatus.failed error q n h = mark_failed-HasLeft now id _ q h
  update_status-HasLeft now id queued error q n h = by_hand now id queued error q n h
  update_status-HasLeft now id awaiting_publish error q n h =
      by_hand now id awaiting_publish error q n h
  update_status-HasLeft now id publishing error q n h = by_hand now id publishing error q n h
  update_status-HasLeft now id succeeded error q n h = by_hand now id succeeded error q n h
  update_status-HasLeft now id publish_failed error q n h =
      by_hand now id publish_failed error q n h
  update_status-HasLeft now id cancelled error q n h = by_hand now id cancelled error q n h

  pub fail_each-HasLeft :
      (test : ReviewJob R → Bool) (message : String) (now : ℕ) (entries : Dict (ReviewJob R))
      (q : JobQueue R)
      → HasLeft q.jobs
      → HasLeft (fail_each test message now entries q).1.jobs
  unfolding fail_each
  fail_each-HasLeft test message now [] q h = h
  fail_each-HasLeft test message now ((key, job) ∷ entries) q h = elim (Bool-cases (test job)) [
    | inl t ↦ rw t (
        fail_each-HasLeft test message now entries (mark_failed now job.id message q).1
          (mark_failed-HasLeft now job.id message q h))
    | inr f ↦ rw f (fail_each-HasLeft test message now entries q h)
  ]

  pub mark-HasLeft :
      (now : ℕ) (id owner : String) (g : ℕ) (m : Mark) (q : JobQueue R)
      → HasLeft q.jobs
      → HasLeft (mark now id owner g m q).1.jobs
  mark-HasLeft now id owner g m q h = elim (mark_lem now id owner g m q) [
    | inl refused ↦ subst (λ r. HasLeft r.1.jobs) (sym refused) h
    | inr w ↦
        subst (λ r. HasLeft r.1.jobs) (sym w.done) (set-HasLeft w.j _ q.jobs (advanced m w.job) h)
  ]
    where
      advanced : (m : Mark) (job : ReviewJob R) → (advance_of now m job).status ≢ queued
      advanced (success outcome external_id) job e = absurd (ground arith)
      advanced (retry error backoff) job e = absurd (ground arith)
      advanced (give_up error) job e = absurd (ground arith)

  module _ (parse : R → Option R) where
    pub mark_succeeded-HasLeft :
        (now : ℕ) (id : String) (report : R) (q : JobQueue R)
        → HasLeft q.jobs
        → HasLeft (mark_succeeded parse now id report q).1.jobs
    unfolding mark_succeeded
    mark_succeeded-HasLeft now id report q h = elim (Option-cases (Dict.get id q.jobs)) [
      | inl e ↦ rw (mark_succeeded, e) h
      | inr (job, e) ↦ elim (Option-cases (parse report)) [
        | inl p ↦ rw (mark_succeeded, e, p) h
        | inr (r, p) ↦
            rw (mark_succeeded, e, p) (set-HasLeft id _ q.jobs (λ x. absurd (ground arith)) h)
      ]
    ]

    published_by-HasLeft :
        (policy : PublicationPolicy) (now : ℕ) (item_id id : String) (report : R)
        (job : ReviewJob R) (q : JobQueue R)
        → HasLeft q.jobs
        → HasLeft (published_by policy now item_id id report job q).1.jobs
    unfolding published_by
    published_by-HasLeft disabled now item_id id report job q h =
        set-HasLeft id _ q.jobs (λ x. absurd (ground arith)) h
    published_by-HasLeft github_comment now item_id id report job q h =
        set-HasLeft id _ q.jobs (λ x. absurd (ground arith)) h

    persist_found-HasLeft :
        (now : ℕ) (item_id id : String) (report : R) (job : ReviewJob R) (q : JobQueue R)
        → HasLeft q.jobs
        → HasLeft (persist_found parse now item_id id report job q).1.jobs
    unfolding persist_found
    persist_found-HasLeft now item_id id report job q h = elim (Bool-cases (is_past job.status)) [
      | inl t ↦ rw t h
      | inr f ↦ elim (Bool-cases (is_reportable job.status)) [
        | inr n ↦ rw (f, n) h
        | inl t ↦ elim (Option-cases (parse report)) [
          | inl p ↦ rw (f, t, p) h
          | inr (r, p) ↦
              rw (f, t, p) (published_by-HasLeft job.publication_policy now item_id id r job q h)
        ]
      ]
    ]

    pub persist-HasLeft :
        (now : ℕ) (item_id id : String) (report : R) (q : JobQueue R)
        → HasLeft q.jobs
        → HasLeft (persist_report_and_enqueue_publish parse now item_id id report q).1.jobs
    unfolding persist_report_and_enqueue_publish
    persist-HasLeft now item_id id report q h = elim (Option-cases (Dict.get id q.jobs)) [
      | inl e ↦ rw (persist_report_and_enqueue_publish, e) h
      | inr (job, e) ↦
          rw (persist_report_and_enqueue_publish, e)
            (persist_found-HasLeft now item_id id report job q h)
    ]
