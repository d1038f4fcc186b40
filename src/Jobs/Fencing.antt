-- ===== src/Jobs/Fencing.antt =====
-- About leases as fences, for leases that are over and items that are settled, in
-- apps/api/src/jobQueue.ts.
use consisten_cy.Base.{ℕ, ◌≡◌, ◌≢◌, refl, String, Option, List, inl, inr}
use consisten_cy.Base.Dict.{Dict}
use consisten_cy.Jobs.Data.{PublishOutboxItem, JobQueue}
use consisten_cy.Jobs.Operations.{
  enqueue, recover_stale_running_jobs, fail_interrupted_running_jobs, update_report_comment_status,
  is_stale, is_running,
}
use consisten_cy.Jobs.Outbox.{find_item, persist_report_and_enqueue_publish}
use consisten_cy.Jobs.Lease.{
  Mark, success, retry, give_up, Outcome, published, skipped, mark, mark_publish_outbox_success,
  mark_publish_outbox_retry, mark_publish_outbox_failed, completed, to_retry, given_up,
}
use consisten_cy.Jobs.Calls.{
  Call, enqueues, claims_next, marks_running, marks_succeeded, marks_failed, persists, claims,
  settles, updates, accepts, records, recovers, interrupts, comments, step,
}
use consisten_cy.Jobs.Items.{find_item-persist}
use consisten_cy.Jobs.Moves.{
  Actor, claimer, settler, other, FollowsAt, FollowsAt-refl, claim-Follows, settle-Follows, Closes,
}
use consisten_cy.Jobs.Kept.{
  mark_running_outbox, mark_failed_outbox, claim_next_outbox, update_status_outbox,
  fail_each_outbox, mark_succeeded_outbox, record_outbox, accept_outbox, persist_outbox,
}

pub completed-Closes :
    (now : ℕ) (outcome : Outcome) (e : Option String) (i : PublishOutboxItem)
    → Closes i (completed now outcome e i)
completed-Closes now published e i = (refl, refl, inr (inl refl))
completed-Closes now skipped e i = (refl, refl, inr (inr (inr refl)))

-- A worker that settles.
pub mark-Follows :
    {R : Type 0} (k : String) (now : ℕ) (id owner : String) (generation : ℕ) (m : Mark)
    (q : JobQueue R)
    → FollowsAt
        (settler owner generation)
        (find_item k q.publish_outbox)
        (find_item k (mark now id owner generation m q).1.publish_outbox)
unfolding mark mark_publish_outbox_success mark_publish_outbox_retry mark_publish_outbox_failed
mark-Follows k now id owner g (success outcome e) q =
    settle-Follows k id owner g (completed now outcome e) _ _ q (completed-Closes now outcome e)
mark-Follows k now id owner g (retry error backoff) q =
    settle-Follows k id owner g (to_retry now error backoff) _ _ q
      (λ i. (refl, refl, inl (refl, refl)))
mark-Follows k now id owner g (give_up error) q =
    settle-Follows k id owner g (given_up now error) _ _ q (λ i. (refl, refl, inr (inr (inl refl))))

kept-Follows :
    (who : Actor) (k : String) (o o' : Dict (List PublishOutboxItem))
    → o' ≡ o
    → FollowsAt who (find_item k o) (find_item k o')
kept-Follows who k o o' e = rw e (FollowsAt-refl who (find_item k o))

-- Who makes a call.
abbrev pub actor_of : {R : Type 0} → Call R → Actor
actor_of (claims owner duration now limit) = claimer owner
actor_of (settles now id owner generation m) = settler owner generation
actor_of _ = other

module _ {R : Type 0} (parse : R → Option R) where
  -- The call does not draw the item's id again.
  abbrev pub IsFresh : String → Call R → Type 0
  IsFresh k (persists now item_id id report) = item_id ≢ k
  IsFresh k _ = Unit

  persist-Follows :
      (k : String) (now : ℕ) (item_id id : String) (report : R) (q : JobQueue R)
      → item_id ≢ k
      → FollowsAt other (find_item k q.publish_outbox) (
          find_item k
            (persist_report_and_enqueue_publish parse now item_id id report q).1.publish_outbox)
  persist-Follows k now item_id id report q apart =
      elim (persist_outbox parse now item_id id report q) [
        | inl e ↦ rw e (FollowsAt-refl other (find_item k q.publish_outbox))
        | inr e ↦
            rw (e, find_item-persist k now item_id id q.publish_outbox apart)
              (FollowsAt-refl other (find_item k q.publish_outbox))
      ]

  pub step-Follows :
      (k : String) (call : Call R) (q : JobQueue R)
      → IsFresh k call
      → FollowsAt
          (actor_of call)
          (find_item k q.publish_outbox)
          (find_item k (step parse call q).publish_outbox)
  unfolding step enqueue recover_stale_running_jobs fail_interrupted_running_jobs
      update_report_comment_status
  step-Follows k (enqueues now id input) q f = kept-Follows other k q.publish_outbox _ refl
  step-Follows k (claims_next now) q f =
      kept-Follows other k q.publish_outbox _ (claim_next_outbox now q)
  step-Follows k (marks_running now id) q f =
      kept-Follows other k q.publish_outbox _ (mark_running_outbox now id q)
  step-Follows k (marks_succeeded now id r) q f =
      kept-Follows other k q.publish_outbox _ (mark_succeeded_outbox parse now id r q)
  step-Follows k (marks_failed now id e) q f =
      kept-Follows other k q.publish_outbox _ (mark_failed_outbox now id e q)
  step-Follows k (persists now item_id id r) q f = persist-Follows k now item_id id r q f
  step-Follows k (claims owner duration now limit) q f = claim-Follows owner duration now limit k q
  step-Follows k (settles now id owner g m) q f = mark-Follows k now id owner g m q
  step-Follows k (updates now id s e) q f =
      kept-Follows other k q.publish_outbox _ (update_status_outbox now id s e q)
  step-Follows k (accepts now id input) q f =
      kept-Follows other k q.publish_outbox _ (accept_outbox now id input q)
  step-Follows k (records now at s input) q f =
      kept-Follows other k q.publish_outbox _ (record_outbox now at s input q)
  step-Follows k (recovers now cutoff) q f =
      kept-Follows other k q.publish_outbox _ (fail_each_outbox (is_stale cutoff) _ now q.jobs q)
  step-Follows k (interrupts now) q f =
      kept-Follows other k q.publish_outbox _ (fail_each_outbox is_running _ now q.jobs q)
  step-Follows k (comments id s e) q f = kept-Follows other k q.publish_outbox _ refl
