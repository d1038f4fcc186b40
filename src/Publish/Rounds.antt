-- ===== src/Publish/Rounds.antt =====
-- About the worker of apps/api/src/publish/worker.ts over the queue of
-- apps/api/src/jobQueue.ts, turn by turn.
use consisten_cy.Base.{
  ℕ, ◌+◌, ◌≤◌, ◌≡◌, refl, sym, ap, ◌∙◌, subst, String, true, Option, none, some, List, [], ◌∷◌,
  arith, inl, inr, length,
}
use consisten_cy.Base.Dict
use consisten_cy.Jobs.Data.{publishing, ReviewJob, PublishOutboxItem, JobQueue}
use consisten_cy.Jobs.Operations.{value_or}
use consisten_cy.Jobs.Outbox.{find_item, find_in, replace, holds, lease, outbox_of}
use consisten_cy.Jobs.Lease.{Mark, success, retry, give_up, mark}
use consisten_cy.Jobs.Items.{find_item-Located}
use consisten_cy.Jobs.Moves.{claimer, FollowsAt, claim-Follows}
use consisten_cy.Jobs.Invariant.{Inv}
use consisten_cy.Jobs.OutboxSteps.{mark-Inv, find_only}
use consisten_cy.Jobs.Claims.{claim-Inv}
use consisten_cy.Jobs.Progress.{claim_progress}
use consisten_cy.Jobs.Settled.{
  change_of, advance_of, comment_of, settled_queue, mark_held, found_settled,
}
use consisten_cy.Publish.Data.{PublishWorker}
use consisten_cy.Publish.Worker.{decide, settle_item}
use consisten_cy.Publish.Attempt.{Settled, publishes, gives_up, retries, mark_of-Settled}
use consisten_cy.Publish.Ended.{IsNotAborted, decide-some}
use consisten_cy.Publish.Turns.{
  IsReached, Turn, claimed, turn, Ends, at_once, after, AllReady, Waiting,
}

module _ {R : Type 0} (sanitize_public_error : String → String) (worker : PublishWorker) (limit : ℕ)
    (j : String) where
  -- The comment is leased to the worker.
  record Held (item : PublishOutboxItem) (q : JobQueue R) : Type 0 where
    pub inv : Inv q
    pub job : ReviewJob R
    pub there : Dict.get j q.jobs ≡ some job
    pub status : job.status ≡ publishing
    pub entry : Dict.get j q.publish_outbox ≡ some (item ∷ [])
    pub found : find_item item.id q.publish_outbox ≡ some (j, item)
    pub held : holds worker.worker_id item.lease_generation item job.status ≡ true

  abbrev leased_by : Turn R → PublishOutboxItem → PublishOutboxItem
  leased_by t item = lease worker.worker_id worker.lease_duration t.at item

  find_entry :
      (id : String) (item : PublishOutboxItem) (q : JobQueue R)
      (o : Option (String × PublishOutboxItem))
      → Inv q
      → Dict.get j q.publish_outbox ≡ some (item ∷ [])
      → find_item id q.publish_outbox ≡ o
      → (i : PublishOutboxItem) → FollowsAt (claimer worker.worker_id) (some (j, i)) o
      → o ≡ some (j, item)
  find_entry id item q none v e f i m = absurd m
  find_entry id item q (some (j', i')) v e f i m =
      let same : j' ≡ j = sym m.0 in
      let l =
        find_item-Located id j i' q.publish_outbox v.distinct (f ∙ ap (λ x. some (x, i')) same) in
      let only : l.items ≡ item ∷ [] = ground (arith, l.entry, e) in
      let own = find_only id item i' i' (ap (find_in id) (sym only) ∙ l.found) in
      λ k. some (same k, sym own.0 k)

  claim-Held :
      (t : Turn R) (item : PublishOutboxItem) (q : JobQueue R)
      → Waiting sanitize_public_error worker limit j item q
      → IsReached t.at (item ∷ [])
      → Dict.size q.publish_outbox ≤ limit
      → Held (leased_by t item) (claimed sanitize_public_error worker limit j t q)
  claim-Held t item q w reached room =
      let (job, there, status, entry, handed) =
        claim_progress worker.worker_id worker.lease_duration t.at limit j item w.job q w.inv
          w.there w.entry (inl (w.status, reached.0)) room in
      let inv = claim-Inv worker.worker_id worker.lease_duration t.at limit q w.inv in
      record {
        inv = inv;
        job = job;
        there = there;
        status = status;
        entry = entry;
        found =
            find_entry item.id (leased_by t item) (claimed sanitize_public_error worker limit j t q)
              (find_item item.id (claimed sanitize_public_error worker limit j t q).publish_outbox)
              inv entry refl item
              (subst
                (λ o. FollowsAt (claimer worker.worker_id) o (
                  find_item item.id
                    (claimed sanitize_public_error worker limit j t q).publish_outbox))
                w.found
                (claim-Follows worker.worker_id worker.lease_duration t.at limit item.id q));
        held = rw status (ground arith);
      }

  -- What the settlement of a held item leaves.
  record Written (now : ℕ) (m : Mark) (item : PublishOutboxItem) (q : JobQueue R) : Type 0 where
    pub inv : Inv q
    pub job : ReviewJob R
    pub there : Dict.get j q.jobs ≡ some (advance_of now m job)
    pub entry : Dict.get j q.publish_outbox ≡ some (change_of now m item ∷ [])
    pub found : find_item item.id q.publish_outbox ≡ some (j, change_of now m item)

  mark-Written :
      (now : ℕ) (m : Mark) (item : PublishOutboxItem) (q : JobQueue R)
      → Held item q
      → Written now m item (mark now item.id worker.worker_id item.lease_generation m q).1
  mark-Written now m item q h =
      let done =
        mark_held now item.id worker.worker_id item.lease_generation m j item h.job q h.found
          h.there h.held in
      let after =
        settled_queue item.id j (change_of now m) (advance_of now m) (comment_of m) item h.job q in
      let l = find_item-Located item.id j item q.publish_outbox h.inv.distinct h.found in
      let only : l.items ≡ item ∷ [] = ground (arith, l.entry, h.entry) in
      let own =
        find_only item.id item item (change_of now m item)
          (ap (find_in item.id) (sym only) ∙ l.found) in
      let same : (mark now item.id worker.worker_id item.lease_generation m q).1 ≡ after =
        ap (λ r. r.1) done in
      record {
        inv = mark-Inv now item.id worker.worker_id item.lease_generation m q h.inv;
        job = h.job;
        there =
            ap (λ x. Dict.get j x.jobs) same
            ∙ ground (arith, Dict.get-set j j (advance_of now m h.job) q.jobs);
        entry =
            ap (λ x. Dict.get j x.publish_outbox) same
            ∙ ap (Dict.get j) (
                l.written (change_of now m item)
                ∙ ap (λ x. Dict.set j x q.publish_outbox)
                    (ap (replace item.id (change_of now m item)) only ∙ own.1))
            ∙ ground (arith, Dict.get-set j j (change_of now m item ∷ []) q.publish_outbox);
        found =
            ap (λ x. find_item item.id x.publish_outbox) same
            ∙ found_settled now item.id j m item q h.found;
      }

  -- What one turn leaves, with the decision that it took.
  turn-Written :
      (t : Turn R) (item : PublishOutboxItem) (q : JobQueue R)
      → IsNotAborted t.attempt
      → Held item (claimed sanitize_public_error worker limit j t q)
      → (m : Mark) × Settled worker.max_attempts item (change_of t.at m item)
        × Written t.at m item (turn sanitize_public_error worker limit j t q)
  unfolding decide settle_item
  turn-Written t item q n h =
      let q' = claimed sanitize_public_error worker limit j t q in
      let (m, e) = decide-some sanitize_public_error t.at t.attempt item n worker q' in
      let first : outbox_of j q' ≡ item ∷ [] = rw h.entry refl in
      (
        m,
        mark_of-Settled sanitize_public_error t.at worker t.attempt item _ m e,
        rw (first, e) (mark-Written t.at m item q' h),
      )

  Ends-with :
      (t : Turn R) (turns : List (Turn R)) (m : Mark) (item : PublishOutboxItem) (q : JobQueue R)
      → Settled worker.max_attempts item (change_of t.at m item)
      → Written t.at m item q
      → ((new : PublishOutboxItem)
          → new.attempt_count ≡ item.attempt_count + 1
          → Waiting sanitize_public_error worker limit j new q
          → Ends sanitize_public_error worker limit j turns q)
      → Ends sanitize_public_error worker limit j turns q
  Ends-with t turns (success outcome external_id) item q s w go = at_once (_, w.there, inl refl)
  Ends-with t turns (give_up error) item q s w go = at_once (_, w.there, inr refl)
  Ends-with t turns (retry error backoff) item q (publishes comment_id p e) w go =
      absurd (ground arith)
  Ends-with t turns (retry error backoff) item q (gives_up f c) w go = absurd (ground arith)
  Ends-with t turns (retry error backoff) item q (retries r c l) w go =
      go (change_of t.at (retry error backoff) item) c (record {
        inv = w.inv;
        job = _;
        there = w.there;
        status = refl;
        entry = w.entry;
        found = w.found;
        attempts = l;
      })

  -- A comment that waits for an attempt is published or given up, and its job ends, within as many turns
  -- of the worker as attempts are left to it, if no attempt is aborted, each turn comes when the item
  -- asks for it or later, and each claim has room for all entries.
  pub publication-Ends :
      (turns : List (Turn R)) (item : PublishOutboxItem) (q : JobQueue R)
      → Waiting sanitize_public_error worker limit j item q
      → AllReady sanitize_public_error worker limit j turns q
      → worker.max_attempts ≤ item.attempt_count + length turns
      → Ends sanitize_public_error worker limit j turns q
  publication-Ends [] item q w ready enough = absurd (omega (arith, w.attempts))
  publication-Ends (t ∷ turns) item q w ready enough =
      let reached : IsReached t.at (item ∷ []) =
        subst (IsReached t.at) (ap (λ o. value_or o []) w.entry) ready.1 in
      let h = claim-Held t item q w reached ready.2 in
      let (m, s, written) = turn-Written t (leased_by t item) q ready.0 h in
      after (
        Ends-with t turns m (leased_by t item) (turn sanitize_public_error worker limit j t q) s
          written
          (λ new count next.
            publication-Ends turns new (turn sanitize_public_error worker limit j t q) next ready.3
              (omega (arith, count))))
