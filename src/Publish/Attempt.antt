-- ===== src/Publish/Attempt.antt =====
-- What an attempt to publish makes of its item: `processClaimedItem` of apps/api/src/publish/worker.ts.
use consisten_cy.Base.{
  ℕ, ◌+◌, ◌<◌, ◌≡◌, refl, sym, ap, ◌∙◌, subst, String, ◌||◌, Option, some, List, arith, Bool-cases,
  Option-cases, inl, inr, ◌⊎◌, All, leb,
}
use consisten_cy.Jobs.Data.{PublishOutboxStatus, retrying, PublishOutboxItem, JobQueue}
use consisten_cy.Jobs.Outbox.{find_item, replace_item}
use consisten_cy.Jobs.Lease.{published, Mark, success, mark}
use consisten_cy.Jobs.Calls.{Call, run}
use consisten_cy.Jobs.Moves.{Actor, Moves, same, leases, settled, holds-leased, LetsGo-apart}
use consisten_cy.Jobs.Fencing.{IsFresh}
use consisten_cy.Jobs.Once.{IsOver, Moves-IsOver, OfItem, run-OfItem}
use consisten_cy.Jobs.Settled.{change_of, mark_lem, found_settled}
use consisten_cy.Jobs.Operations.{get}
use consisten_cy.Publish.Error.{PublishError, sanitize_publish_failure}
use consisten_cy.Publish.Data.{PublishWorker, Attempt, Ending, left, commented, thrown}
use consisten_cy.Publish.Worker.{
  is_permanent, failure_mark, mark_of, decide, settle_item, ending, classify,
}

-- The item is as it was claimed, or that lease is over.
abbrev IsClaimed : PublishOutboxItem → PublishOutboxItem → Type 0
IsClaimed claimed i = (i ≡ claimed) ⊎ IsOver claimed.lease_generation i

Moves-IsClaimed :
    {who : Actor} (claimed i i' : PublishOutboxItem)
    → Moves who i i'
    → IsClaimed claimed i
    → IsClaimed claimed i'
Moves-IsClaimed claimed i i' m (inr over) = inr (Moves-IsOver claimed.lease_generation m over)
Moves-IsClaimed claimed i i' same (inl e) = inl e
Moves-IsClaimed claimed i i' (leases owner duration now by waits) (inl e) =
    inr (inl (omega (arith, ap (λ (x : PublishOutboxItem). x.lease_generation) e)))
Moves-IsClaimed claimed i i' (settled i'' owner by own was g n) (inl e) =
    inr (inr (g ∙ ap (λ (x : PublishOutboxItem). x.lease_generation) e, LetsGo-apart i i'' n))

-- The item of an attempt after it is settled: published with the comment's id, given up, or to be tried
-- again while attempts are left.
pub data Settled (max_attempts : ℕ) (item i : PublishOutboxItem) : Type 0 where
  publishes :
      (comment_id : String)
      → i.status ≡ PublishOutboxStatus.published
      → i.external_id ≡ some comment_id
      → Settled max_attempts item i
  gives_up :
      i.status ≡ PublishOutboxStatus.failed
      → i.attempt_count ≡ item.attempt_count + 1
      → Settled max_attempts item i
  retries :
      i.status ≡ retrying
      → i.attempt_count ≡ item.attempt_count + 1
      → i.attempt_count < max_attempts
      → Settled max_attempts item i

module _ (sanitize_public_error : String → String) (now : ℕ) where
  failure-Settled :
      (worker : PublishWorker) (item : PublishOutboxItem) (jitter : ℕ) (message : String)
      (e : PublishError)
      → Settled worker.max_attempts item
          (change_of now (failure_mark sanitize_public_error now worker item jitter message e) item)
  unfolding failure_mark
  failure-Settled worker item jitter message e =
      elim (Bool-cases (is_permanent e.kind || leb worker.max_attempts (item.attempt_count + 1))) [
        | inl t ↦ rw t (gives_up refl refl)
        | inr f ↦ rw f (retries refl refl (ground arith))
      ]

  pub mark_of-Settled :
      {R : Type 0} (worker : PublishWorker) (a : Attempt R) (item : PublishOutboxItem) (e : Ending)
      (m : Mark)
      → mark_of sanitize_public_error now worker a item e ≡ some m
      → Settled worker.max_attempts item (change_of now m item)
  unfolding mark_of
  mark_of-Settled worker a item left m h = absurd (ground arith)
  mark_of-Settled worker a item (commented comment_id) m h =
      let same : success published (some comment_id) ≡ m = ground arith in
      subst (λ x. Settled worker.max_attempts item (change_of now x item)) same
        (publishes comment_id refl refl)
  mark_of-Settled worker a item (thrown caught token) m h = elim (Bool-cases a.is_stopped) [
    | inl t ↦ absurd (ground (arith, h))
    | inr f ↦
        let e = classify sanitize_public_error now caught in
        let message = sanitize_publish_failure sanitize_public_error e token in
        let same : failure_mark sanitize_public_error now worker item a.jitter message e ≡ m =
          ground (arith, h) in
        subst (λ x. Settled worker.max_attempts item (change_of now x item)) same
          (failure-Settled worker item a.jitter message e)
  ]

  Settled-or_kept :
      {R : Type 0} (worker : PublishWorker) (item : PublishOutboxItem) (m : Mark) (q : JobQueue R)
      → OfItem (IsClaimed item) (find_item item.id q.publish_outbox)
      → Settled worker.max_attempts item (change_of now m item)
      → let after = (mark now item.id worker.worker_id item.lease_generation m q).1 in
        (after ≡ q)
        ⊎ ((j' : String) × (i : PublishOutboxItem) × (find_item item.id q.publish_outbox
              ≡ some (j', item))
            × (find_item item.id after.publish_outbox ≡ some (j', i))
            × Settled worker.max_attempts item i)
  Settled-or_kept worker item m q claimed s =
      elim (mark_lem now item.id worker.worker_id item.lease_generation m q) [
        | inl refused ↦ inl (ap (λ r. r.1) refused)
        | inr w ↦ elim (subst (OfItem (IsClaimed item)) w.found claimed) [
          | inl own ↦
              let found : find_item item.id q.publish_outbox ≡ some (w.j, item) =
                w.found ∙ ap (λ x. some (w.j, x)) own in
              inr (
                w.j,
                change_of now m item,
                found,
                ap (λ r. find_item item.id r.1.publish_outbox) w.done
                    ∙ ap
                        (λ x.
                          find_item item.id
                            (replace_item item.id (change_of now m x) q.publish_outbox))
                        own
                    ∙ found_settled now item.id w.j m item q found,
                s,
              )
          | inr over ↦ absurd (elim over [
            | inl later ↦ ground (arith, w.held)
            | inr gone ↦
                gone.1
                  (holds-leased worker.worker_id item.lease_generation w.item w.job.status w.held)
          ])
        ]
      ]

  -- Whatever is called of the queue during an attempt, if no new item draws the same id, its end either
  -- changes nothing or finds the item as it was claimed and leaves it published with a comment's id,
  -- given up with one more attempt counted, or to be tried again with one more attempt counted and
  -- attempts left.
  pub settle_item_lem :
      {R : Type 0} (parse : R → Option R) (worker : PublishWorker) (a : Attempt R) (j : String)
      (item : PublishOutboxItem) (calls : List (Call R)) (q : JobQueue R)
      → find_item item.id q.publish_outbox ≡ some (j, item)
      → All (IsFresh parse item.id) calls
      → let before = run parse calls q in
        let after =
          settle_item sanitize_public_error now worker item
            (decide sanitize_public_error now worker a item q)
            before in
        (after ≡ before)
        ⊎ ((j' : String) × (i : PublishOutboxItem) × (find_item item.id before.publish_outbox
              ≡ some (j', item))
            × (find_item item.id after.publish_outbox ≡ some (j', i))
            × Settled worker.max_attempts item i)
  unfolding settle_item decide
  settle_item_lem parse worker a j item calls q found fresh =
      elim (Option-cases (decide sanitize_public_error now worker a item q)) [
        | inl e ↦ rw e (inl refl)
        | inr (m, e) ↦
            let before = run parse calls q in
            let claimed : OfItem (IsClaimed item) (find_item item.id before.publish_outbox) =
              run-OfItem parse (IsClaimed item) item.id calls q
                (λ who i i' moves. Moves-IsClaimed item i i' moves) fresh
                (subst (OfItem (IsClaimed item)) (sym found) (inl refl)) in
            rw e (
              Settled-or_kept worker item m before claimed (
                mark_of-Settled worker a item
                  (ending sanitize_public_error now a item (get item.job_id q)) m e))
      ]
