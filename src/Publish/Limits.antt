-- ===== src/Publish/Limits.antt =====
-- How many comments a worker has under way, how long it waits, and what it gives up at once:
-- apps/api/src/publish/worker.ts and githubPublisher.ts.
use consisten_cy.Base.{
  ℕ, ◌+◌, ◌*◌, ◌<◌, ◌≤◌, ◌≡◌, ◌≢◌, String, Bool, true, false, ◌&&◌, ◌↔◌, Option, none, some, List,
  [], ◌∷◌, ◌++◌, arith, Bool-cases, Option-cases, inl, inr, ◌⊎◌, length, length-append, ltb, ◌==◌,
  refl,
}
use consisten_cy.Base.Dict
use consisten_cy.Base.Dict.{Dict}
use consisten_cy.Jobs.Data.{ReviewJob, PublishOutboxItem, JobQueue}
use consisten_cy.Jobs.Operations.{get}
use consisten_cy.Jobs.Outbox.{lease}
use consisten_cy.Jobs.Lease.{
  is_claimable, publishing_from, claim_items, claim_entries, claim_publish_outbox_item,
}
use consisten_cy.Publish.Error.{permanent, OtherError}
use consisten_cy.Publish.Classify.{is_abort, is_network_failure, is_text, classified}
use consisten_cy.Publish.Data.{PublishWorker}
use consisten_cy.Publish.Worker.{
  own_backoff, backoff, power, begin, finish, give_up_missing, begin_item, begin_each, begin_if,
  has_report, free_slots, poll_once,
}

module _ {R : Type 0} (owner : String) (duration now limit : ℕ) where
  claim_items-IsWithin :
      (h : String) (job : ReviewJob R) (items taken : List PublishOutboxItem)
      (jobs : Dict (ReviewJob R))
      → length taken ≤ limit
      → length (claim_items owner duration now limit h job items taken jobs).taken ≤ limit
  unfolding claim_items
  claim_items-IsWithin h job [] taken jobs le = le
  claim_items-IsWithin h job (i ∷ items) taken jobs le =
      elim (Bool-cases (ltb (length taken) limit && is_claimable now job i)) [
        | inr f ↦ rw f (claim_items-IsWithin h job items taken jobs le)
        | inl t ↦
            let room : length taken < limit = ground arith in
            rw t (
              claim_items-IsWithin h job items (taken ++ lease owner duration now i ∷ [])
                (publishing_from now h job jobs)
                (omega (arith, length-append {0} taken (lease owner duration now i ∷ []))))
      ]

  claim_entries-IsWithin :
      (entries : Dict (List PublishOutboxItem)) (taken : List PublishOutboxItem)
      (jobs : Dict (ReviewJob R))
      → length taken ≤ limit
      → length (claim_entries owner duration now limit entries taken jobs).taken ≤ limit
  unfolding claim_entries
  claim_entries-IsWithin [] taken jobs le = le
  claim_entries-IsWithin ((h, items) ∷ entries) taken jobs le =
      elim (Option-cases (Dict.get h jobs)) [
        | inl e ↦ rw (claim_entries, e) (claim_entries-IsWithin entries taken jobs le)
        | inr (job, e) ↦
            let own = claim_items owner duration now limit h job items taken jobs in
            rw (claim_entries, e)
              (claim_entries-IsWithin entries own.taken own.jobs
                (claim_items-IsWithin h job items taken jobs le))
      ]

  claim-IsWithin :
      (q : JobQueue R) → length (claim_publish_outbox_item owner duration now limit q).0 ≤ limit
  unfolding claim_publish_outbox_item
  claim-IsWithin q = claim_entries-IsWithin q.publish_outbox [] q.jobs (omega arith)

module _ {R : Type 0} (sanitize_public_error : String → String) (now : ℕ) where
  -- What is under way beside what was, and how much at most.
  abbrev Begins : PublishWorker → ℕ → List PublishOutboxItem × PublishWorker × JobQueue R → Type 0
  Begins worker room (begun, worker', q) =
      (worker'.active_claims ≡ worker.active_claims + length begun)
      × (length begun ≤ room)
      × (worker'.concurrency ≡ worker.concurrency)

  begin_each_lem :
      (items : List PublishOutboxItem) (worker : PublishWorker) (q : JobQueue R)
      → Begins worker (length items) (begin_each sanitize_public_error now items worker q)
  unfolding begin_each
  begin_each_lem [] worker q = (omega arith, omega arith, refl)
  begin_each_lem (item ∷ items) worker q = elim (Bool-cases (has_report (get item.job_id q))) [
    | inl t ↦
        let (others, room, limit) = begin_each_lem items (begin worker) q in
        rw (begin_item, t) (omega (arith, others), omega (arith, room), limit)
    | inr f ↦
        let (others, room, limit) =
          begin_each_lem items (finish (begin worker))
            (give_up_missing sanitize_public_error now worker item q) in
        rw (begin_item, f) (omega (arith, others), omega (arith, room), limit)
  ]

  begin_if-IsWithin :
      (running : Bool) (claimed : List PublishOutboxItem) (worker : PublishWorker) (q : JobQueue R)
      → worker.active_claims + length claimed ≤ worker.concurrency
      → let (begun, worker', q') = begin_if sanitize_public_error now running claimed worker q in
        (worker'.active_claims ≡ worker.active_claims + length begun)
        × (worker'.active_claims ≤ worker.concurrency)
  begin_if-IsWithin false claimed worker q le = (omega arith, omega arith)
  begin_if-IsWithin true claimed worker q le =
      let (begun, room, _) = begin_each_lem claimed worker q in (begun, omega (arith, begun, room))

-- A poll leaves as many attempts under way as it adds to those that were, and if these were at most the
-- limit before, they are after.
pub poll_once-IsWithin :
    {R : Type 0} (sanitize_public_error : String → String) (now : ℕ) (worker : PublishWorker)
    (q : JobQueue R)
    → worker.active_claims ≤ worker.concurrency
    → let (begun, worker', q') = poll_once sanitize_public_error now worker q in
      (worker'.active_claims ≡ worker.active_claims + length begun)
      × (worker'.active_claims ≤ worker.concurrency)
unfolding poll_once
poll_once-IsWithin sanitize_public_error now worker q le =
    elim (Bool-cases (free_slots worker == 0)) [
      | inl full ↦ rw full (omega arith, le)
      | inr some_free ↦
          let claim =
            claim_publish_outbox_item worker.worker_id worker.lease_duration now (free_slots worker)
              q in
          let within =
            claim-IsWithin worker.worker_id worker.lease_duration now (free_slots worker) q in
          rw some_free (
            begin_if-IsWithin sanitize_public_error now worker.running claim.0 worker claim.1
              (omega (arith, within)))
    ]

-- A worker without a backoff of its own waits at most a minute, or exactly until the time that the
-- response asked for; never less than that time, and never less than the doubled second or a minute.
pub backoff_lem :
    (worker : PublishWorker) (now attempt_count jitter : ℕ) (retry_at : Option ℕ)
    → worker.backoff_calculator ≡ none
    → let wait = backoff worker now attempt_count jitter retry_at in
      ((wait ≤ 60000) ⊎ (retry_at ≡ some (now + wait)))
      × ((t : ℕ) → retry_at ≡ some t → t ≤ now + wait)
      × ((1000 * power 2 attempt_count ≤ wait) ⊎ (60000 ≤ wait))
unfolding backoff own_backoff
backoff_lem worker now attempt_count jitter none e = rw e (ground arith)
backoff_lem worker now attempt_count jitter (some t) e = rw e (ground arith)

-- What makes an error of GitHub permanent: it is a client error that is no timeout and no rate limit,
-- and neither an abort nor a failure of the network.
abbrev pub IsPermanent : OtherError → Type 0
IsPermanent e =
    (status : ℕ) × (e.status ≡ some status)
    × (400 ≤ status)
    × (status < 500)
    × (status ≢ 408)
    × (status ≢ 429)
    × ((status ≡ 403) → is_text e.x_ratelimit_remaining "0" ≡ false)
    × (is_abort e ≡ false)
    × (is_network_failure e ≡ false)

-- An error is classified as permanent exactly if it is a client error other than a timeout or a rate
-- limit, and neither an abort nor a failure of the network.
pub classified-IsPermanent :
    (sanitize_public_error : String → String) (now : ℕ) (e : OtherError)
    → ((classified sanitize_public_error now e).kind ≡ permanent) ↔ IsPermanent e
unfolding classified
classified-IsPermanent sanitize_public_error now e = elim (Option-cases e.status) [
  | inl n ↦ rw n (ground arith)
  | inr (status, s) ↦ rw s (ground arith)
]
