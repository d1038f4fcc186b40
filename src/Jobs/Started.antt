-- ===== src/Jobs/Started.antt =====
-- About the starting of jobs: `markRunning` and `claimNextQueued` of apps/api/src/jobQueue.ts.
use consisten_cy.Base.{
  ℕ, ◌≡◌, ◌≢◌, refl, sym, ap, subst, String, ◌&&◌, Option, none, some, List, [], ◌∷◌, ◌++◌, arith,
  inl, inr, ◌⊎◌, All, Bool-cases, Option-cases, string_dec, ltb, length,
}
use consisten_cy.Base.Dict
use consisten_cy.Base.Dict.{Dict}
use consisten_cy.Jobs.Data.{
  queued, running, awaiting_publish, job_status_eq, ReviewJob, JobQueue, PublishOutboxItem,
  WebhookDeliveryStatus, DeliveryInput, WebhookJobInput,
}
use consisten_cy.Jobs.Status.{job_status_eq_lem}
use consisten_cy.Jobs.Operations.{
  is_queued, next_queued, mark_running, claim_next_queued, enqueue, recover_stale_running_jobs,
  fail_interrupted_running_jobs, record_webhook_delivery, accept_webhook_job,
  update_report_comment_status, is_running, is_stale,
}
use consisten_cy.Jobs.Outbox.{lease}
use consisten_cy.Jobs.Lease.{
  is_claimable, publishing_from, claim_items, claim_entries, claim_publish_outbox_item,
}
use consisten_cy.Jobs.Calls.{
  Call, enqueues, claims_next, marks_running, marks_succeeded, marks_failed, persists, claims,
  settles, updates, accepts, records, recovers, interrupts, comments, step, run,
}
use consisten_cy.Jobs.Left.{
  HasStatus, HasLeft, set-HasLeft, set_other-HasLeft, mark_running-HasLeft, claim_next-HasLeft,
  mark_failed-HasLeft, update_status-HasLeft, fail_each-HasLeft, mark-HasLeft,
  mark_succeeded-HasLeft, persist-HasLeft,
}

module _ {R : Type 0} (j : String) where
  module _ (owner : String) (duration now limit : ℕ) where
    publishing_from-HasLeft :
        (id : String) (job : ReviewJob R) (jobs : Dict (ReviewJob R))
        → HasLeft j jobs
        → HasLeft j (publishing_from now id job jobs)
    publishing_from-HasLeft id job jobs h =
        elim (Bool-cases (job_status_eq job.status awaiting_publish)) [
          | inl t ↦ rw t (set-HasLeft j id _ jobs (λ x. absurd (ground arith)) h)
          | inr f ↦ rw f h
        ]

    claim_items-HasLeft :
        (id : String) (job : ReviewJob R) (items taken : List PublishOutboxItem)
        (jobs : Dict (ReviewJob R))
        → HasLeft j jobs
        → HasLeft j (claim_items owner duration now limit id job items taken jobs).jobs
    unfolding claim_items
    claim_items-HasLeft id job [] taken jobs h = h
    claim_items-HasLeft id job (i ∷ items) taken jobs h =
        elim (Bool-cases (ltb (length taken) limit && is_claimable now job i)) [
          | inl t ↦ rw t (
              claim_items-HasLeft id job items (taken ++ lease owner duration now i ∷ [])
                (publishing_from now id job jobs) (publishing_from-HasLeft id job jobs h))
          | inr f ↦ rw f (claim_items-HasLeft id job items taken jobs h)
        ]

    claim_entries-HasLeft :
        (entries : Dict (List PublishOutboxItem)) (taken : List PublishOutboxItem)
        (jobs : Dict (ReviewJob R))
        → HasLeft j jobs
        → HasLeft j (claim_entries owner duration now limit entries taken jobs).jobs
    unfolding claim_entries
    claim_entries-HasLeft [] taken jobs h = h
    claim_entries-HasLeft ((id, items) ∷ entries) taken jobs h =
        elim (Option-cases (Dict.get id jobs)) [
          | inl e ↦ rw (claim_entries, e) (claim_entries-HasLeft entries taken jobs h)
          | inr (job, e) ↦
              let own = claim_items owner duration now limit id job items taken jobs in
              rw (claim_entries, e)
                (claim_entries-HasLeft entries own.taken own.jobs
                  (claim_items-HasLeft id job items taken jobs h))
        ]

    claim-HasLeft :
        (q : JobQueue R)
        → HasLeft j q.jobs
        → HasLeft j (claim_publish_outbox_item owner duration now limit q).1.jobs
    unfolding claim_publish_outbox_item
    claim-HasLeft q h = claim_entries-HasLeft q.publish_outbox [] q.jobs h

  record-HasLeft :
      (now : ℕ) (at : Option ℕ) (s : WebhookDeliveryStatus) (input : DeliveryInput) (q : JobQueue R)
      → HasLeft j q.jobs
      → HasLeft j (record_webhook_delivery now at s input q).1.jobs
  unfolding record_webhook_delivery
  record-HasLeft now at s input q h =
      elim (Option-cases (Dict.get input.delivery_id q.deliveries)) [
        | inl e ↦ rw (record_webhook_delivery, e) h
        | inr (d, e) ↦ rw (record_webhook_delivery, e) h
      ]

  accept-HasLeft :
      (now : ℕ) (id : String) (input : WebhookJobInput R) (q : JobQueue R)
      → id ≢ j
      → HasLeft j q.jobs
      → HasLeft j (accept_webhook_job now id input q).1.jobs
  unfolding accept_webhook_job enqueue
  accept-HasLeft now id input q n h =
      elim (Option-cases (Dict.get input.delivery.delivery_id q.deliveries)) [
        | inl e ↦
            rw (accept_webhook_job, e)
              (set_other-HasLeft j id _ _ n (record-HasLeft now none _ input.delivery q h))
        | inr (d, e) ↦ rw (accept_webhook_job, e) h
      ]

  module _ (parse : R → Option R) where
    -- The call draws no such id for a new job, and does not put the job back into the queue by hand.
    abbrev pub KeepsOut : Call R → Type 0
    KeepsOut (enqueues now id input) = id ≢ j
    KeepsOut (accepts now id input) = id ≢ j
    KeepsOut (updates now id s error) = (id ≢ j) ⊎ (s ≢ queued)
    KeepsOut _ = Unit

    step-HasLeft :
        (call : Call R) (q : JobQueue R)
        → KeepsOut call
        → HasLeft j q.jobs
        → HasLeft j (step parse call q).jobs
    unfolding step enqueue recover_stale_running_jobs fail_interrupted_running_jobs
        update_report_comment_status
    step-HasLeft (enqueues now id input) q k h = set_other-HasLeft j id _ q.jobs k h
    step-HasLeft (claims_next now) q k h = claim_next-HasLeft j now q h
    step-HasLeft (marks_running now id) q k h = mark_running-HasLeft j now id q h
    step-HasLeft (marks_succeeded now id report) q k h =
        mark_succeeded-HasLeft j parse now id report q h
    step-HasLeft (marks_failed now id error) q k h = mark_failed-HasLeft j now id error q h
    step-HasLeft (persists now item_id id report) q k h =
        persist-HasLeft j parse now item_id id report q h
    step-HasLeft (claims owner duration now limit) q k h =
        claim-HasLeft owner duration now limit q h
    step-HasLeft (settles now id owner g m) q k h = mark-HasLeft j now id owner g m q h
    step-HasLeft (updates now id s error) q k h = update_status-HasLeft j now id s error q k h
    step-HasLeft (accepts now id input) q k h = accept-HasLeft now id input q k h
    step-HasLeft (records now at s input) q k h = record-HasLeft now at s input q h
    step-HasLeft (recovers now cutoff) q k h =
        fail_each-HasLeft j (is_stale cutoff) _ now q.jobs q h
    step-HasLeft (interrupts now) q k h = fail_each-HasLeft j is_running _ now q.jobs q h
    step-HasLeft (comments id s error) q k h = h

    run-HasLeft :
        (calls : List (Call R)) (q : JobQueue R)
        → All KeepsOut calls
        → HasLeft j q.jobs
        → HasLeft j (run parse calls q).jobs
    unfolding run
    run-HasLeft [] q k h = h
    run-HasLeft (call ∷ calls) q k h =
        run-HasLeft calls (step parse call q) k.1 (step-HasLeft call q k.0 h)

  refuses : (now : ℕ) (q : JobQueue R) → HasLeft j q.jobs → mark_running now j q ≡ (none, q)
  unfolding mark_running
  refuses now q h = elim (Option-cases (Dict.get j q.jobs)) [
    | inl e ↦ rw (mark_running, e) refl
    | inr (job, e) ↦ elim (Bool-cases (is_queued job)) [
      | inr f ↦ rw (mark_running, e, f) refl
      | inl t ↦ absurd (subst HasStatus e h (job_status_eq_lem job.status queued t))
    ]
  ]

  elsewhere :
      (now : ℕ) (id : String) (q : JobQueue R)
      → id ≢ j
      → Dict.get j (mark_running now id q).1.jobs ≡ Dict.get j q.jobs
  unfolding mark_running
  elsewhere now id q n = elim (Option-cases (Dict.get id q.jobs)) [
    | inl e ↦ rw (mark_running, e) refl
    | inr (job, e) ↦ elim (Bool-cases (is_queued job)) [
      | inr f ↦ rw (mark_running, e, f) refl
      | inl t ↦
          rw (mark_running, e, t)
            (let updated = record job {
              status = running;
              started_at = some now;
              updated_at = now;
            } in
              ground (arith, Dict.get-set id j updated q.jobs))
    ]
  ]

  passes_over :
      (now : ℕ) (q : JobQueue R)
      → HasLeft j q.jobs
      → Dict.get j (claim_next_queued now q).1.jobs ≡ Dict.get j q.jobs
  unfolding claim_next_queued
  passes_over now q h = elim (Option-cases (next_queued q)) [
    | inl e ↦ rw (claim_next_queued, e) refl
    | inr (job, e) ↦ elim (string_dec job.id j) [
      | yes same ↦
          rw (claim_next_queued, e)
            (subst (λ x. Dict.get j (mark_running now x q).1.jobs ≡ Dict.get j q.jobs) (sym same)
              (ap (λ r. Dict.get j r.1.jobs) (refuses now q h)))
      | no other ↦ rw (claim_next_queued, e) (elsewhere now job.id q other)
    ]
  ]

-- A job that has left the queue is not started again, whatever is called in between, if no new job
-- draws its id and nobody puts it back by hand: to mark it as running is refused and changes nothing,
-- and a claim of the next job leaves it as it is.
pub started_once :
    {R : Type 0} (parse : R → Option R) (now : ℕ) (j : String) (calls : List (Call R))
    (q : JobQueue R)
    → HasLeft j q.jobs
    → All (KeepsOut j parse) calls
    → let later = run parse calls q in
      (mark_running now j later ≡ (none, later))
      × (Dict.get j (claim_next_queued now later).1.jobs ≡ Dict.get j later.jobs)
started_once parse now j calls q h k =
    let left = run-HasLeft j parse calls q k h in
    (refuses j now (run parse calls q) left, passes_over j now (run parse calls q) left)
