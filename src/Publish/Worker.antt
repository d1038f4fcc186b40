-- ===== src/Publish/Worker.antt =====
-- `pollOnce` and `processClaimedItem` of `PublishWorker` in apps/api/src/publish/worker.ts.
use Prim.Native.String.{String, ◌++◌}
use consisten_cy.Base.{
  ℕ, ◌+◌, ◌-◌, ◌*◌, Bool, true, false, ◌||◌, Option, none, some, List, [], ◌∷◌, ok, err, ltb, leb,
  ◌==◌, if◌then◌else◌, zero, suc,
}
use consisten_cy.Base.Dict
use consisten_cy.Jobs.Data.{ReviewJob, PublishOutboxItem, JobQueue}
use consisten_cy.Jobs.Operations.{get}
use consisten_cy.Jobs.Lease.{
  claim_publish_outbox_item, published, Mark, success, retry, give_up, mark,
}
use consisten_cy.Publish.Error.{
  PublishErrorKind, permanent, PublishError, permanent_publish_error, Thrown, publish_error,
  sanitize_publish_failure,
}
use consisten_cy.Publish.Classify.{is_number, classify_github_error}
use consisten_cy.Publish.Data.{
  PublishWorker, PublishToGitHubOptions, Attempt, Ending, left, commented, thrown,
}

abbrev smaller : ℕ → ℕ → ℕ
smaller a b = if leb a b then a else b

abbrev larger : ℕ → ℕ → ℕ
larger a b = if leb a b then b else a

unfoldable pub power : ℕ → ℕ → ℕ
power base zero = 1
power base (suc n) = base * power base n

abbrev pub is_permanent : PublishErrorKind → Bool
is_permanent permanent = true
is_permanent _ = false

-- The time to wait before the next attempt.
unfoldable pub own_backoff : Option (ℕ → ℕ) → ℕ → ℕ → ℕ
own_backoff none attempt_count jitter = smaller (1000 * power 2 attempt_count + jitter) 60000
own_backoff (some calculate) attempt_count jitter = calculate attempt_count

unfoldable pub backoff : PublishWorker → ℕ → ℕ → ℕ → Option ℕ → ℕ
backoff worker now attempt_count jitter none =
    own_backoff worker.backoff_calculator attempt_count jitter
backoff worker now attempt_count jitter (some retry_at) =
    let own = own_backoff worker.backoff_calculator attempt_count jitter in
    if ltb now retry_at then larger own (retry_at - now) else own

abbrev pub published_as : Bool → String → Ending
published_as is_aborted comment_id = if is_aborted then left else commented comment_id

abbrev pub missing_error : PublishOutboxItem → PublishError
missing_error item =
    permanent_publish_error ("Job or report missing for outbox item " ++ item.id) none

abbrev pub missing : PublishOutboxItem → Ending
missing item = thrown (publish_error (missing_error item)) none

module _ {R : Type 0} where
  abbrev pub options : R → ReviewJob R → String → PublishOutboxItem → PublishToGitHubOptions R
  options report job token item = record {
    report = report;
    repository_full_name = job.repository;
    pull_request_number = job.pull_request_number;
    token = token;
    external_id = item.external_id;
  }

module _ (sanitize_public_error : String → String) (now : ℕ) where
  abbrev pub classify : Thrown → PublishError
  classify = classify_github_error sanitize_public_error now

  -- What is thrown after the token was renewed.
  abbrev pub second_failure : String → PublishError → Ending
  second_failure token e =
      if is_number e.status 401
      then thrown
          (publish_error (
            permanent_publish_error ("Authentication failed after token refresh: " ++ e.message)
              (some 401)))
          (some token)
      else thrown (publish_error e) (some token)

  module _ {R : Type 0} (a : Attempt R) (item : PublishOutboxItem) where
    -- With a renewed token.
    unfoldable pub refreshed : ReviewJob R → R → String → Ending
    refreshed job report token = elim (a.fresh_token job) [
      | err e ↦ second_failure token (classify e)
      | ok fresh ↦ elim (a.second_comment (options report job fresh item)) [
        | err e ↦ second_failure fresh (classify e)
        | ok comment_id ↦ published_as a.is_aborted_after_second comment_id
      ]
    ]

    abbrev pub first_failure : ReviewJob R → R → String → PublishError → Ending
    first_failure job report token e =
        if is_number e.status 401
        then refreshed job report token
        else thrown (publish_error e) (some token)

    unfoldable pub with_token : ReviewJob R → R → String → Ending
    with_token job report token =
        if a.is_aborted_with_token then left else elim (a.comment (options report job token item)) [
          | err e ↦ first_failure job report token (classify e)
          | ok comment_id ↦ published_as a.is_aborted_after_comment comment_id
        ]

    unfoldable pub with_report : ReviewJob R → Option R → Ending
    with_report job none = missing item
    with_report job (some report) = elim (a.token job) [
      | err e ↦ thrown e none
      | ok token ↦ with_token job report token
    ]

    unfoldable pub ending : Option (ReviewJob R) → Ending
    ending none = if a.is_aborted then left else missing item
    ending (some job) = if a.is_aborted then left else with_report job job.result

  -- How the item is settled, if it is.
  unfoldable pub failure_mark : PublishWorker → PublishOutboxItem → ℕ → String → PublishError → Mark
  failure_mark worker item jitter message e =
      if is_permanent e.kind || leb worker.max_attempts (item.attempt_count + 1)
      then give_up message
      else retry message (backoff worker now item.attempt_count jitter e.retry_at)

  unfoldable pub mark_of :
      {R : Type 0} → PublishWorker → Attempt R → PublishOutboxItem → Ending → Option Mark
  mark_of worker a item left = none
  mark_of worker a item (commented comment_id) = some (success published (some comment_id))
  mark_of worker a item (thrown caught token) =
      if a.is_stopped
      then none
      else some (
          failure_mark worker item a.jitter
            (sanitize_publish_failure sanitize_public_error (classify caught) token)
            (classify caught))

  -- The attempt is decided on the queue as it is when it starts, and settled on the queue as it is then.
  unfoldable pub decide :
      {R : Type 0} → PublishWorker → Attempt R → PublishOutboxItem → JobQueue R → Option Mark
  decide worker a item q = mark_of worker a item (ending a item (get item.job_id q))

  unfoldable pub settle_item :
      {R : Type 0} → PublishWorker → PublishOutboxItem → Option Mark → JobQueue R → JobQueue R
  settle_item worker item none q = q
  settle_item worker item (some m) q =
      (mark now item.id worker.worker_id item.lease_generation m q).1

-- `processClaimedItem` up to its first wait, and at its end.
abbrev pub begin : PublishWorker → PublishWorker
begin worker = record worker { active_claims = worker.active_claims + 1 }

abbrev pub finish : PublishWorker → PublishWorker
finish worker = record worker { active_claims = worker.active_claims - 1 }

abbrev pub free_slots : PublishWorker → ℕ
free_slots worker = worker.concurrency - worker.active_claims

abbrev pub has_report : {R : Type 0} → Option (ReviewJob R) → Bool
has_report none = false
has_report (some job) = Dict.is_some job.result

module _ {R : Type 0} (sanitize_public_error : String → String) (now : ℕ) where
  -- The item of a job or a report that is missing is given up at once.
  unfoldable pub give_up_missing : PublishWorker → PublishOutboxItem → JobQueue R → JobQueue R
  give_up_missing worker item q =
      let e = missing_error item in
      settle_item sanitize_public_error now worker item
        (some (
          failure_mark sanitize_public_error now worker item 0
            (sanitize_publish_failure sanitize_public_error e none) e))
        q

  -- One claimed item: whether it comes to a first wait, and is under way after it.
  abbrev pub begin_item :
      PublishOutboxItem → PublishWorker → JobQueue R → Bool × PublishWorker × JobQueue R
  begin_item item worker q =
      if has_report (get item.job_id q)
      then (true, begin worker, q)
      else (false, finish (begin worker), give_up_missing worker item q)

  unfoldable pub begin_each :
      List PublishOutboxItem
      → PublishWorker
      → JobQueue R
      → List PublishOutboxItem × PublishWorker × JobQueue R
  begin_each [] worker q = ([], worker, q)
  begin_each (item ∷ items) worker q =
      let (waits, worker', q') = begin_item item worker q in
      let (rest, worker'', q'') = begin_each items worker' q' in
      (if waits then item ∷ rest else rest, worker'', q'')

  -- The loop over the claimed items, which stops if the worker was stopped.
  abbrev pub begin_if :
      Bool
      → List PublishOutboxItem
      → PublishWorker
      → JobQueue R
      → List PublishOutboxItem × PublishWorker × JobQueue R
  begin_if true claimed worker q = begin_each claimed worker q
  begin_if false claimed worker q = ([], worker, q)

  -- The items that are under way after the poll, and what is left of the rest.
  unfoldable pub poll_once :
      PublishWorker → JobQueue R → List PublishOutboxItem × PublishWorker × JobQueue R
  poll_once worker q =
      if free_slots worker == 0
      then ([], worker, q)
      else let (claimed, q') =
          claim_publish_outbox_item worker.worker_id worker.lease_duration now (free_slots worker)
            q in
        begin_if worker.running claimed worker q'
