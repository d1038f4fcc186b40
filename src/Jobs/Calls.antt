-- ===== src/Jobs/Calls.antt =====
-- The queue of apps/api/src/jobQueue.ts under any sequence of calls.
use consisten_cy.Base.{ℕ, String, Option, List, [], ◌∷◌}
use consisten_cy.Jobs.Data.{
  JobStatus, WebhookDeliveryStatus, GitHubCommentStatus, CreateReviewJobInput, DeliveryInput,
  WebhookJobInput, JobQueue,
}
use consisten_cy.Jobs.Operations.{
  enqueue, mark_running, claim_next_queued, mark_failed, update_status, recover_stale_running_jobs,
  fail_interrupted_running_jobs, record_webhook_delivery, accept_webhook_job,
  update_report_comment_status,
}
use consisten_cy.Jobs.Outbox.{mark_succeeded, persist_report_and_enqueue_publish}
use consisten_cy.Jobs.Lease.{claim_publish_outbox_item, Mark, mark}

-- The calls at their times, with what they draw: `enqueues now job_id`, `persists now item_id id`,
-- `accepts now job_id`; `claims owner duration now limit`, `settles now id owner generation`.
pub data Call (R : Type 0) : Type 0 where
  enqueues : ℕ → String → CreateReviewJobInput R → Call R
  claims_next : ℕ → Call R
  marks_running : ℕ → String → Call R
  marks_succeeded : ℕ → String → R → Call R
  marks_failed : ℕ → String → String → Call R
  persists : ℕ → String → String → R → Call R
  claims : String → ℕ → ℕ → ℕ → Call R
  settles : ℕ → String → String → ℕ → Mark → Call R
  updates : ℕ → String → JobStatus → Option String → Call R
  accepts : ℕ → String → WebhookJobInput R → Call R
  records : ℕ → Option ℕ → WebhookDeliveryStatus → DeliveryInput → Call R
  recovers : ℕ → ℕ → Call R
  interrupts : ℕ → Call R
  comments : String → GitHubCommentStatus → Option String → Call R

module _ {R : Type 0} (parse : R → Option R) where
  unfoldable pub step : Call R → JobQueue R → JobQueue R
  step (enqueues now id input) q = (enqueue now id input q).1
  step (claims_next now) q = (claim_next_queued now q).1
  step (marks_running now id) q = (mark_running now id q).1
  step (marks_succeeded now id report) q = (mark_succeeded parse now id report q).1
  step (marks_failed now id error) q = (mark_failed now id error q).1
  step (persists now item_id id report) q =
      (persist_report_and_enqueue_publish parse now item_id id report q).1
  step (claims owner duration now limit) q =
      (claim_publish_outbox_item owner duration now limit q).1
  step (settles now id owner generation m) q = (mark now id owner generation m q).1
  step (updates now id status error) q = (update_status now id status error q).1
  step (accepts now job_id input) q = (accept_webhook_job now job_id input q).1
  step (records now at status input) q = (record_webhook_delivery now at status input q).1
  step (recovers now cutoff) q = (recover_stale_running_jobs now cutoff q).1
  step (interrupts now) q = (fail_interrupted_running_jobs now q).1
  step (comments id status error) q = update_report_comment_status id status error q

  unfoldable pub run : List (Call R) → JobQueue R → JobQueue R
  run [] q = q
  run (call ∷ calls) q = run calls (step call q)
