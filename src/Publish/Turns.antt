-- ===== src/Publish/Turns.antt =====
-- Turns of the worker of apps/api/src/publish/worker.ts, and what is asked of them.
use consisten_cy.Base.{ℕ, ◌<◌, ◌≤◌, ◌≡◌, String, some, List, [], ◌∷◌, ◌⊎◌, All}
use consisten_cy.Base.Dict
use consisten_cy.Jobs.Data.{
  awaiting_publish, succeeded, publish_failed, ReviewJob, PublishOutboxItem, JobQueue,
}
use consisten_cy.Jobs.Outbox.{find_item, outbox_of}
use consisten_cy.Jobs.Lease.{claim_publish_outbox_item}
use consisten_cy.Jobs.Invariant.{Inv}
use consisten_cy.Publish.Data.{PublishWorker, Attempt}
use consisten_cy.Publish.Worker.{decide, settle_item}
use consisten_cy.Publish.Ended.{IsNotAborted}

abbrev pub IsReached : ℕ → List PublishOutboxItem → Type 0
IsReached now = All (λ (i : PublishOutboxItem). (t : ℕ) → i.next_attempt_at ≡ some t → t ≤ now)

-- One turn of a worker: when it claims, and what its attempt gets.
pub record Turn (R : Type 0) : Type 0 where
  pub at : ℕ
  pub attempt : Attempt R

module _ {R : Type 0} (sanitize_public_error : String → String) (worker : PublishWorker) (limit : ℕ)
    (j : String) where
  abbrev pub claimed : Turn R → JobQueue R → JobQueue R
  claimed t q = (claim_publish_outbox_item worker.worker_id worker.lease_duration t.at limit q).1

  abbrev settle_first : Turn R → List PublishOutboxItem → JobQueue R → JobQueue R
  settle_first t [] q = q
  settle_first t (item ∷ items) q =
      settle_item sanitize_public_error t.at worker item
        (decide sanitize_public_error t.at worker t.attempt item q) q

  -- The worker claims what is due and tries to publish the comment of the job `j`.
  abbrev pub turn : Turn R → JobQueue R → JobQueue R
  turn t q = settle_first t (outbox_of j (claimed t q)) (claimed t q)

  -- The job is published or given up.
  abbrev pub IsOver : JobQueue R → Type 0
  IsOver q =
      (job : ReviewJob R) × (Dict.get j q.jobs ≡ some job)
      × ((job.status ≡ succeeded) ⊎ (job.status ≡ publish_failed))

  -- The job comes to its end with one of the turns.
  pub data Ends : List (Turn R) → JobQueue R → Type 0 where
    at_once : {turns : List (Turn R)} {q : JobQueue R} → IsOver q → Ends turns q
    after :
        {t : Turn R} {turns : List (Turn R)} {q : JobQueue R}
        → Ends turns (turn t q)
        → Ends (t ∷ turns) q

  -- No attempt is aborted, each turn is as late as the item asks for, and has room for all entries.
  abbrev pub AllReady : List (Turn R) → JobQueue R → Type 0
  AllReady [] q = Unit
  AllReady (t ∷ turns) q =
      IsNotAborted t.attempt
      × IsReached t.at (outbox_of j q)
      × (Dict.size q.publish_outbox ≤ limit)
      × AllReady turns (turn t q)

  -- The comment of the job waits for an attempt, of which some are left.
  pub record Waiting (item : PublishOutboxItem) (q : JobQueue R) : Type 0 where
    pub inv : Inv q
    pub job : ReviewJob R
    pub there : Dict.get j q.jobs ≡ some job
    pub status : job.status ≡ awaiting_publish
    pub entry : Dict.get j q.publish_outbox ≡ some (item ∷ [])
    pub found : find_item item.id q.publish_outbox ≡ some (j, item)
    pub attempts : item.attempt_count < worker.max_attempts
