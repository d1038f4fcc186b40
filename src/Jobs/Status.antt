-- ===== src/Jobs/Status.antt =====
-- Equal statuses in apps/api/src/jobQueue.ts are the same.
use consisten_cy.Base.{ℕ, zero, suc, ◌≡◌, refl, sym, ap, ◌∙◌, true, arith}
use consisten_cy.Jobs.Data.{
  JobStatus, queued, running, awaiting_publish, publishing, succeeded, publish_failed, cancelled,
  job_status_rank, job_status_eq, PublishOutboxStatus, leased, retrying, outbox_status_rank,
  outbox_status_eq,
}

-- The status with the place.
at_rank : ℕ → PublishOutboxStatus
at_rank zero = PublishOutboxStatus.pending
at_rank (suc zero) = leased
at_rank (suc (suc zero)) = retrying
at_rank (suc (suc (suc zero))) = PublishOutboxStatus.published
at_rank (suc (suc (suc (suc zero)))) = PublishOutboxStatus.failed
at_rank (suc (suc (suc (suc (suc n))))) = PublishOutboxStatus.skipped

at_rank-rank : (s : PublishOutboxStatus) → at_rank (outbox_status_rank s) ≡ s
unfolding at_rank
at_rank-rank PublishOutboxStatus.pending = refl
at_rank-rank leased = refl
at_rank-rank retrying = refl
at_rank-rank PublishOutboxStatus.published = refl
at_rank-rank PublishOutboxStatus.failed = refl
at_rank-rank PublishOutboxStatus.skipped = refl

pub outbox_status_eq_lem : (a b : PublishOutboxStatus) → outbox_status_eq a b ≡ true → a ≡ b
outbox_status_eq_lem a b h =
    let same : outbox_status_rank a ≡ outbox_status_rank b = ground arith in
    sym (at_rank-rank a) ∙ ap at_rank same ∙ at_rank-rank b

job_at_rank : ℕ → JobStatus
job_at_rank zero = queued
job_at_rank (suc zero) = running
job_at_rank (suc (suc zero)) = awaiting_publish
job_at_rank (suc (suc (suc zero))) = publishing
job_at_rank (suc (suc (suc (suc zero)))) = succeeded
job_at_rank (suc (suc (suc (suc (suc zero))))) = JobStatus.failed
job_at_rank (suc (suc (suc (suc (suc (suc zero)))))) = publish_failed
job_at_rank (suc (suc (suc (suc (suc (suc (suc n))))))) = cancelled

job_at_rank-rank : (s : JobStatus) → job_at_rank (job_status_rank s) ≡ s
unfolding job_at_rank
job_at_rank-rank queued = refl
job_at_rank-rank running = refl
job_at_rank-rank awaiting_publish = refl
job_at_rank-rank publishing = refl
job_at_rank-rank succeeded = refl
job_at_rank-rank JobStatus.failed = refl
job_at_rank-rank publish_failed = refl
job_at_rank-rank cancelled = refl

pub job_status_eq_lem : (a b : JobStatus) → job_status_eq a b ≡ true → a ≡ b
job_status_eq_lem a b h =
    let same : job_status_rank a ≡ job_status_rank b = ground arith in
    sym (job_at_rank-rank a) ∙ ap job_at_rank same ∙ job_at_rank-rank b
