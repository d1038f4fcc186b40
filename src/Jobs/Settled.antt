-- ===== src/Jobs/Settled.antt =====
-- What a settlement writes: `markPublishOutboxSuccess`, `markPublishOutboxRetry` and
-- `markPublishOutboxFailed` of apps/api/src/jobQueue.ts.
use consisten_cy.Base.{
  ℕ, ◌≡◌, refl, ◌∙◌, String, Bool, true, false, none, some, arith, Bool-cases, Option-cases, inl,
  inr, ◌⊎◌,
}
use consisten_cy.Base.Dict
use consisten_cy.Jobs.Data.{
  awaiting_publish, succeeded, publish_failed, GitHubCommentStatus, ReviewJob, CommentStatus,
  PublishOutboxItem, JobQueue,
}
use consisten_cy.Jobs.Clip.{take}
use consisten_cy.Jobs.Operations.{put_job, set_comment}
use consisten_cy.Jobs.Outbox.{find_item, replace_item, holds}
use consisten_cy.Jobs.Lease.{
  settle, completed, to_retry, given_up, comment_status_of, mark_publish_outbox_success,
  mark_publish_outbox_retry, mark_publish_outbox_failed, Mark, success, retry, give_up, mark,
}
use consisten_cy.Jobs.Items.{find_item-replace, find_item-id}

-- What a settlement makes of the item, the job and the status of the comment.
abbrev pub change_of : ℕ → Mark → PublishOutboxItem → PublishOutboxItem
change_of now (success outcome external_id) = completed now outcome external_id
change_of now (retry error backoff) = to_retry now error backoff
change_of now (give_up error) = given_up now error

abbrev pub advance_of : {R : Type 0} → ℕ → Mark → ReviewJob R → ReviewJob R
advance_of now (success outcome external_id) job = record job {
  status = succeeded;
  finished_at = some now;
  updated_at = now;
}
advance_of now (retry error backoff) job = record job {
  status = awaiting_publish;
  updated_at = now;
}
advance_of now (give_up error) job = record job {
  status = publish_failed;
  error = some (take 500 error);
  finished_at = some now;
  updated_at = now;
}

abbrev pub comment_of : Mark → CommentStatus
comment_of (success outcome external_id) = record {
  status = comment_status_of outcome;
  error = none;
}
comment_of (retry error backoff) = record {
  status = GitHubCommentStatus.pending;
  error = some (take 500 error);
}
comment_of (give_up error) = record {
  status = GitHubCommentStatus.failed;
  error = some (take 500 error);
}

pub change_of-id : (now : ℕ) (m : Mark) (i : PublishOutboxItem) → (change_of now m i).id ≡ i.id
change_of-id now (success outcome external_id) i = refl
change_of-id now (retry error backoff) i = refl
change_of-id now (give_up error) i = refl

module _ {R : Type 0} where
  abbrev pub settled_queue :
      String
      → String
      → (PublishOutboxItem → PublishOutboxItem)
      → (ReviewJob R → ReviewJob R)
      → CommentStatus
      → PublishOutboxItem
      → ReviewJob R
      → JobQueue R
      → JobQueue R
  settled_queue id j f advance comment i job q = set_comment j comment (
      put_job j (advance job)
        (record q { publish_outbox = replace_item id (f i) q.publish_outbox }))

  -- The settlement is refused, or this is what it finds and does.
  pub record Settling (id owner : String) (g : ℕ) (f : PublishOutboxItem → PublishOutboxItem)
      (advance : ReviewJob R → ReviewJob R) (comment : CommentStatus) (q : JobQueue R)
      (result : Bool × JobQueue R) : Type 0 where
    pub j : String
    pub item : PublishOutboxItem
    pub job : ReviewJob R
    pub found : find_item id q.publish_outbox ≡ some (j, item)
    pub there : Dict.get j q.jobs ≡ some job
    pub held : holds owner g item job.status ≡ true
    pub done : result ≡ (true, settled_queue id j f advance comment item job q)

  settle_lem :
      (id owner : String) (g : ℕ) (f : PublishOutboxItem → PublishOutboxItem)
      (advance : ReviewJob R → ReviewJob R) (comment : CommentStatus) (q : JobQueue R)
      → (settle id owner g f advance comment q ≡ (false, q))
        ⊎ Settling id owner g f advance comment q (settle id owner g f advance comment q)
  unfolding settle
  settle_lem id owner g f advance comment q = elim (Option-cases (find_item id q.publish_outbox)) [
    | inl e ↦ inl (rw (settle, e) refl)
    | inr ((j, i), e) ↦ elim (Option-cases (Dict.get j q.jobs)) [
      | inl n ↦ inl (rw (settle, e, n) refl)
      | inr (job, n) ↦ elim (Bool-cases (holds owner g i job.status)) [
        | inr x ↦ inl (rw (settle, e, n, x) refl)
        | inl x ↦ inr (record {
          j = j;
          item = i;
          job = job;
          found = e;
          there = n;
          held = x;
          done = rw (settle, e, n, x) refl;
        })
      ]
    ]
  ]

  -- It succeeds where the lease is held.
  settle_held :
      (id owner j : String) (g : ℕ) (f : PublishOutboxItem → PublishOutboxItem)
      (advance : ReviewJob R → ReviewJob R) (comment : CommentStatus) (i : PublishOutboxItem)
      (job : ReviewJob R) (q : JobQueue R)
      → find_item id q.publish_outbox ≡ some (j, i)
      → Dict.get j q.jobs ≡ some job
      → holds owner g i job.status ≡ true
      → settle id owner g f advance comment q ≡ (true, settled_queue id j f advance comment i job q)
  unfolding settle
  settle_held id owner j g f advance comment i job q e n x = rw (settle, e, n, x) refl

  module _ (now : ℕ) (id owner : String) (g : ℕ) where
    pub mark_lem :
        (m : Mark) (q : JobQueue R)
        → (mark now id owner g m q ≡ (false, q))
          ⊎ Settling id owner g
              (change_of now m)
              (advance_of now m)
              (comment_of m)
              q
              (mark now id owner g m q)
    unfolding mark mark_publish_outbox_success mark_publish_outbox_retry mark_publish_outbox_failed
    mark_lem (success outcome external_id) q = settle_lem id owner g _ _ _ q
    mark_lem (retry error backoff) q = settle_lem id owner g _ _ _ q
    mark_lem (give_up error) q = settle_lem id owner g _ _ _ q

    pub mark_held :
        (m : Mark) (j : String) (i : PublishOutboxItem) (job : ReviewJob R) (q : JobQueue R)
        → find_item id q.publish_outbox ≡ some (j, i)
        → Dict.get j q.jobs ≡ some job
        → holds owner g i job.status ≡ true
        → mark now id owner g m q
          ≡ (true, settled_queue id j (change_of now m) (advance_of now m) (comment_of m) i job q)
    unfolding mark mark_publish_outbox_success mark_publish_outbox_retry mark_publish_outbox_failed
    mark_held (success outcome external_id) j i job q e n x =
        settle_held id owner j g _ _ _ i job q e n x
    mark_held (retry error backoff) j i job q e n x = settle_held id owner j g _ _ _ i job q e n x
    mark_held (give_up error) j i job q e n x = settle_held id owner j g _ _ _ i job q e n x

  pub found_settled :
      (now : ℕ) (id j : String) (m : Mark) (i : PublishOutboxItem) (q : JobQueue R)
      → find_item id q.publish_outbox ≡ some (j, i)
      → find_item id (replace_item id (change_of now m i) q.publish_outbox)
        ≡ some (j, change_of now m i)
  found_settled now id j m i q e =
      find_item-replace id id (change_of now m i) q.publish_outbox
        (change_of-id now m i ∙ find_item-id id j i q.publish_outbox e)
      ∙ ground (arith, e)
