-- ===== src/Jobs/Operations.antt =====
-- The methods of `InMemoryJobQueue` in apps/api/src/jobQueue.ts on jobs, deliveries and the status of
-- comments. Ids that are drawn are arguments; a method that returns a value and changes the queue
-- gives both.
use consisten_cy.Base.{
  ℕ, suc, String, Bool, true, false, ◌&&◌, not, Option, none, some, List, [], ◌∷◌, ltb,
  if◌then◌else◌, string_dec, ite,
}
use consisten_cy.Base.Dict
use consisten_cy.Base.Dict.{Dict}
use consisten_cy.Jobs.Data.{
  JobStatus, queued, running, job_status_eq, ReviewAccessMode, github_app, PublicationPolicy,
  github_comment, disabled, WebhookDeliveryStatus, GitHubCommentStatus, ReviewJob,
  CreateReviewJobInput, WebhookDelivery, DeliveryInput, WebhookJobInput, WebhookAcceptance,
  CommentStatus, JobQueue,
}

-- `value ?? other`, and `array.find(test)`.
abbrev pub value_or {ℓ} : {A : Type ℓ} → Option A → A → A
value_or none other = other
value_or (some a) other = a

unfoldable pub find {ℓ} : {A : Type ℓ} → (A → Bool) → List A → Option A
find test [] = none
find test (a ∷ rest) = if test a then some a else find test rest

abbrev is_github_app : ReviewAccessMode → Bool
is_github_app github_app = true
is_github_app _ = false

abbrev policy_for : ReviewAccessMode → Option PublicationPolicy → PublicationPolicy
policy_for github_app given = value_or given github_comment
policy_for _ given = disabled

abbrev is_before : ℕ → Option ℕ → Bool
is_before cutoff none = false
is_before cutoff (some started_at) = ltb started_at cutoff

abbrev pub received : ℕ → WebhookDeliveryStatus → DeliveryInput → WebhookDelivery
received at status input = record {
  delivery_id = input.delivery_id;
  event = input.event;
  action = input.action;
  received_at = at;
  status = status;
}

module _ {R : Type 0} where
  abbrev pub put_job : String → ReviewJob R → JobQueue R → JobQueue R
  put_job id job q = record q { jobs = Dict.set id job q.jobs }

  abbrev pub set_comment : String → CommentStatus → JobQueue R → JobQueue R
  set_comment id status q = record q { comment_statuses = Dict.set id status q.comment_statuses }

  abbrev pub new_job : ℕ → String → CreateReviewJobInput R → ReviewJob R
  new_job now id input =
      let access_mode = value_or input.access_mode github_app in
      record {
        id = id;
        kind = input.kind;
        status = queued;
        delivery_id = input.delivery_id;
        repository = input.repository;
        repository_id = input.repository_id;
        repo_path = input.repo_path;
        installation_id = if is_github_app access_mode then input.installation_id else none;
        access_mode = access_mode;
        sender_login = input.sender_login;
        action = input.action;
        pull_request_number = input.pull_request_number;
        base_sha = input.base_sha;
        head_sha = input.head_sha;
        ref = input.ref;
        publication_policy = policy_for access_mode input.publication_policy;
        llm_provider = input.llm_provider;
        llm_model = input.llm_model;
        created_at = now;
        updated_at = now;
        started_at = input.started_at;
        finished_at = input.finished_at;
        result = input.result;
        error = input.error;
      }

  unfoldable pub enqueue :
      ℕ → String → CreateReviewJobInput R → JobQueue R → ReviewJob R × JobQueue R
  enqueue now id input q = (new_job now id input, put_job id (new_job now id input) q)

  -- The stable sort of `list`, the newest first.
  unfoldable pub insert : ReviewJob R → List (ReviewJob R) → List (ReviewJob R)
  insert a [] = a ∷ []
  insert a (b ∷ jobs) =
      let rest = insert a jobs in if ltb a.created_at b.created_at then b ∷ rest else a ∷ b ∷ jobs

  unfoldable pub newest_first : List (ReviewJob R) → List (ReviewJob R)
  newest_first [] = []
  newest_first (a ∷ jobs) = insert a (newest_first jobs)

  abbrev pub list : JobQueue R → List (ReviewJob R)
  list q = newest_first (Dict.values q.jobs)

  abbrev pub get : String → JobQueue R → Option (ReviewJob R)
  get id q = Dict.get id q.jobs

  abbrev pub is_queued : ReviewJob R → Bool
  is_queued job = job_status_eq job.status queued

  unfoldable pub next_queued : JobQueue R → Option (ReviewJob R)
  next_queued q = find is_queued (list q)

  unfoldable pub mark_running : ℕ → String → JobQueue R → Option (ReviewJob R) × JobQueue R
  mark_running now id q = elim (get id q) [
    | none ↦ (none, q)
    | some job ↦
        if not (is_queued job)
        then (none, q)
        else let updated = record job {
          status = running;
          started_at = some now;
          updated_at = now;
        } in
          (some updated, put_job id updated q)
  ]

  unfoldable pub claim_next_queued : ℕ → JobQueue R → Option (ReviewJob R) × JobQueue R
  claim_next_queued now q = elim (next_queued q) [
    | none ↦ (none, q)
    | some job ↦ mark_running now job.id q
  ]

  unfoldable pub mark_failed : ℕ → String → String → JobQueue R → Option (ReviewJob R) × JobQueue R
  mark_failed now id error q = elim (get id q) [
    | none ↦ (none, q)
    | some job ↦
        let updated = record job {
          status = JobStatus.failed;
          error = some error;
          finished_at = some now;
          updated_at = now;
        } in
        (some updated, put_job id updated q)
  ]

  unfoldable pub update_status :
      ℕ → String → JobStatus → Option String → JobQueue R → Option (ReviewJob R) × JobQueue R
  update_status now id running error q = mark_running now id q
  update_status now id JobStatus.failed error q = mark_failed now id (value_or error "Job failed") q
  update_status now id status error q = elim (get id q) [
    | none ↦ (none, q)
    | some job ↦
        let updated = record job { status = status; error = error; updated_at = now } in
        (some updated, put_job id updated q)
  ]

  -- The loop of `recoverStaleRunningJobs` and of `failInterruptedRunningJobs`.
  unfoldable pub fail_each :
      (ReviewJob R → Bool) → String → ℕ → Dict (ReviewJob R) → JobQueue R → ℕ × JobQueue R
  fail_each test message now [] q = (0, q)
  fail_each test message now ((key, job) ∷ entries) q =
      let (recovered, q') =
        fail_each test message now entries
          (if test job then (mark_failed now job.id message q).1 else q) in
      (if test job then suc recovered else recovered, q')

  abbrev pub is_running : ReviewJob R → Bool
  is_running job = job_status_eq job.status running

  abbrev pub is_stale : ℕ → ReviewJob R → Bool
  is_stale cutoff job = is_running job && is_before cutoff job.started_at

  unfoldable pub recover_stale_running_jobs : ℕ → ℕ → JobQueue R → ℕ × JobQueue R
  recover_stale_running_jobs now cutoff q =
      fail_each (is_stale cutoff) "Job execution timed out while running" now q.jobs q

  unfoldable pub fail_interrupted_running_jobs : ℕ → JobQueue R → ℕ × JobQueue R
  fail_interrupted_running_jobs now q =
      fail_each is_running "Job interrupted by API restart" now q.jobs q

  unfoldable pub record_webhook_delivery :
      ℕ
      → Option ℕ
      → WebhookDeliveryStatus
      → DeliveryInput
      → JobQueue R
      → WebhookAcceptance R × JobQueue R
  record_webhook_delivery now received_at status input q =
      elim (Dict.get input.delivery_id q.deliveries) [
        | some existing ↦ (record { duplicate = true; delivery = existing; job = none }, q)
        | none ↦
            let delivery = received (value_or received_at now) status input in
            (
              record { duplicate = false; delivery = delivery; job = none },
              record q { deliveries = Dict.set input.delivery_id delivery q.deliveries },
            )
      ]

  abbrev pub is_of_delivery : String → ReviewJob R → Bool
  is_of_delivery id job = elim job.delivery_id [
    | none ↦ false
    | some own ↦ ite (string_dec own id) true false
  ]

  unfoldable pub accept_webhook_job :
      ℕ → String → WebhookJobInput R → JobQueue R → WebhookAcceptance R × JobQueue R
  accept_webhook_job now job_id input q =
      let delivery_id = input.delivery.delivery_id in
      elim (Dict.get delivery_id q.deliveries) [
        | some existing ↦ (
          record {
            duplicate = true;
            delivery = existing;
            job = find (is_of_delivery delivery_id) (Dict.values q.jobs);
          },
          q,
        )
        | none ↦
            let (accepted, q') =
              record_webhook_delivery now none WebhookDeliveryStatus.enqueued input.delivery q in
            let (job, q'') =
              enqueue now job_id (record input.job { delivery_id = some delivery_id }) q' in
            (record { duplicate = false; delivery = accepted.delivery; job = some job }, q'')
      ]

  unfoldable pub update_report_comment_status :
      String → GitHubCommentStatus → Option String → JobQueue R → JobQueue R
  update_report_comment_status job_id status error =
      set_comment job_id (record { status = status; error = error })
