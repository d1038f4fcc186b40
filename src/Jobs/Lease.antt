-- ===== src/Jobs/Lease.antt =====
-- Leases on the outbox: `claimPublishOutboxItem` and the three methods by which a worker settles what it
-- claimed, in apps/api/src/jobQueue.ts.
use consisten_cy.Base.{
  ℕ, ◌+◌, String, Bool, true, false, ◌&&◌, ◌||◌, not, Option, none, some, List, [], ◌∷◌, ◌++◌, ltb,
  if◌then◌else◌, length,
}
use consisten_cy.Base.Dict
use consisten_cy.Base.Dict.{Dict}
use consisten_cy.Jobs.Data.{
  awaiting_publish, publishing, succeeded, publish_failed, job_status_eq, PublishOutboxStatus,
  retrying, GitHubCommentStatus, ReviewJob, CommentStatus, PublishOutboxItem, JobQueue,
}
use consisten_cy.Jobs.Clip.{take}
use consisten_cy.Jobs.Operations.{put_job, set_comment}
use consisten_cy.Jobs.Outbox.{
  lease, is_pending_or_retrying, is_expired_lease, find_item, replace_item, holds,
}

-- The rest of an outbox after the claim, the items that are claimed, and the jobs.
pub record Claimed (R A : Type 0) : Type 0 where
  pub items : List A
  pub taken : List PublishOutboxItem
  pub jobs : Dict (ReviewJob R)

module _ {R : Type 0} where
  abbrev pub is_claimable : ℕ → ReviewJob R → PublishOutboxItem → Bool
  is_claimable now job item =
      is_pending_or_retrying now job.status item || is_expired_lease now job.status item

  abbrev pub publishing_from : ℕ → String → ReviewJob R → Dict (ReviewJob R) → Dict (ReviewJob R)
  publishing_from now job_id job jobs =
      if job_status_eq job.status awaiting_publish
      then Dict.set job_id (record job { status = publishing; updated_at = now }) jobs
      else jobs

module _ {R : Type 0} (owner : String) (duration now limit : ℕ) where
  -- The loop over the items of one job, which is read before it. From the limit on it claims nothing.
  unfoldable pub claim_items :
      String
      → ReviewJob R
      → List PublishOutboxItem
      → List PublishOutboxItem
      → Dict (ReviewJob R)
      → Claimed R PublishOutboxItem
  claim_items job_id job [] taken jobs = record { items = []; taken = taken; jobs = jobs }
  claim_items job_id job (item ∷ items) taken jobs =
      let hit = ltb (length taken) limit && is_claimable now job item in
      let leased = lease owner duration now item in
      let rest =
        claim_items job_id job items (if hit then taken ++ leased ∷ [] else taken)
          (if hit then publishing_from now job_id job jobs else jobs) in
      record rest { items = (if hit then leased else item) ∷ rest.items }

  unfoldable pub claim_entries :
      Dict (List PublishOutboxItem)
      → List PublishOutboxItem
      → Dict (ReviewJob R)
      → Claimed R (String × List PublishOutboxItem)
  claim_entries [] taken jobs = record { items = []; taken = taken; jobs = jobs }
  claim_entries ((job_id, items) ∷ entries) taken jobs = elim (Dict.get job_id jobs) [
    | none ↦
        let rest = claim_entries entries taken jobs in
        record rest { items = (job_id, items) ∷ rest.items }
    | some job ↦
        let own = claim_items job_id job items taken jobs in
        let rest = claim_entries entries own.taken own.jobs in
        record rest { items = (job_id, own.items) ∷ rest.items }
  ]

  unfoldable pub claim_publish_outbox_item : JobQueue R → List PublishOutboxItem × JobQueue R
  claim_publish_outbox_item q =
      let c = claim_entries q.publish_outbox [] q.jobs in
      (c.taken, record q { jobs = c.jobs; publish_outbox = c.items })

module _ {R : Type 0} (id owner : String) (generation : ℕ) where
  -- What the three have in common: the item's lease and its job are checked, then the item, the job
  -- and the status of the comment are written.
  unfoldable pub settle :
      (PublishOutboxItem → PublishOutboxItem)
      → (ReviewJob R → ReviewJob R)
      → CommentStatus
      → JobQueue R
      → Bool × JobQueue R
  settle change advance comment q = elim (find_item id q.publish_outbox) [
    | none ↦ (false, q)
    | some (job_id, item) ↦ elim (Dict.get job_id q.jobs) [
      | none ↦ (false, q)
      | some job ↦ if not (holds owner generation item job.status) then (false, q) else (
        true,
        set_comment job_id comment (
            put_job job_id (advance job)
              (record q { publish_outbox = replace_item id (change item) q.publish_outbox })),
      )
    ]
  ]

-- `externalId ?? item.externalId`.
abbrev or_kept : Option String → Option String → Option String
or_kept none kept = kept
or_kept (some external_id) kept = some external_id

-- What a publication may end in.
pub data Outcome : Type 0 where
  published skipped : Outcome

abbrev pub item_status_of : Outcome → PublishOutboxStatus
item_status_of published = PublishOutboxStatus.published
item_status_of skipped = PublishOutboxStatus.skipped

abbrev pub comment_status_of : Outcome → GitHubCommentStatus
comment_status_of published = GitHubCommentStatus.published
comment_status_of skipped = GitHubCommentStatus.skipped

abbrev pub completed : ℕ → Outcome → Option String → PublishOutboxItem → PublishOutboxItem
completed now outcome external_id item = record item {
  status = item_status_of outcome;
  external_id = or_kept external_id item.external_id;
  lease_owner = none;
  lease_expires_at = none;
  updated_at = now;
}

abbrev pub to_retry : ℕ → String → ℕ → PublishOutboxItem → PublishOutboxItem
to_retry now error backoff item = record item {
  attempt_count = item.attempt_count + 1;
  status = retrying;
  next_attempt_at = some (now + backoff);
  last_error = some (take 500 error);
  lease_owner = none;
  lease_expires_at = none;
  updated_at = now;
}

abbrev pub given_up : ℕ → String → PublishOutboxItem → PublishOutboxItem
given_up now error item = record item {
  attempt_count = item.attempt_count + 1;
  status = PublishOutboxStatus.failed;
  last_error = some (take 500 error);
  lease_owner = none;
  lease_expires_at = none;
  updated_at = now;
}

module _ {R : Type 0} (now : ℕ) (id owner : String) (generation : ℕ) where
  unfoldable pub mark_publish_outbox_success :
      Outcome → Option String → JobQueue R → Bool × JobQueue R
  mark_publish_outbox_success outcome external_id =
      settle id owner generation (completed now outcome external_id)
        (λ (job : ReviewJob R). record job {
          status = succeeded;
          finished_at = some now;
          updated_at = now;
        })
        (record { status = comment_status_of outcome; error = none })

  unfoldable pub mark_publish_outbox_retry : String → ℕ → JobQueue R → Bool × JobQueue R
  mark_publish_outbox_retry error backoff =
      settle id owner generation (to_retry now error backoff)
        (λ (job : ReviewJob R). record job { status = awaiting_publish; updated_at = now })
        (record { status = GitHubCommentStatus.pending; error = some (take 500 error) })

  unfoldable pub mark_publish_outbox_failed : String → JobQueue R → Bool × JobQueue R
  mark_publish_outbox_failed error =
      settle id owner generation (given_up now error)
        (λ (job : ReviewJob R). record job {
          status = publish_failed;
          error = some (take 500 error);
          finished_at = some now;
          updated_at = now;
        })
        (record { status = GitHubCommentStatus.failed; error = some (take 500 error) })

-- How a worker settles what it claimed.
pub data Mark : Type 0 where
  success : Outcome → Option String → Mark
  retry : String → ℕ → Mark
  give_up : String → Mark

unfoldable pub mark : {R : Type 0} → ℕ → String → String → ℕ → Mark → JobQueue R → Bool × JobQueue R
mark now id owner generation (success outcome external_id) =
    mark_publish_outbox_success now id owner generation outcome external_id
mark now id owner generation (retry error backoff) =
    mark_publish_outbox_retry now id owner generation error backoff
mark now id owner generation (give_up error) =
    mark_publish_outbox_failed now id owner generation error
