-- ===== src/Jobs/Outbox.antt =====
-- The methods of `InMemoryJobQueue` in apps/api/src/jobQueue.ts on the outbox.
use consisten_cy.Base.{
  ℕ, ◌+◌, String, Bool, true, false, ◌&&◌, ◌||◌, not, Option, none, some, List, [], ◌∷◌, ◌++◌,
  Result, ok, err, leb, ◌==◌, if◌then◌else◌, string_dec, ite,
}
use consisten_cy.Base.Dict
use consisten_cy.Base.Dict.{Dict}
use consisten_cy.Jobs.Data.{
  JobStatus, running, awaiting_publish, publishing, succeeded, publish_failed, job_status_eq,
  PublishOutboxStatus, leased, retrying, outbox_status_eq, PublicationPolicy, github_comment,
  disabled, GitHubCommentStatus, ReviewJob, PublishOutboxItem, JobQueue, JobFault, job_not_found,
  invalid_job_status, invalid_report,
}
use consisten_cy.Jobs.Operations.{value_or, get, put_job, set_comment}

abbrev pub new_item : ℕ → String → String → PublishOutboxItem
new_item now item_id job_id = record {
  id = item_id;
  job_id = job_id;
  target = "github_comment";
  status = PublishOutboxStatus.pending;
  attempt_count = 0;
  next_attempt_at = none;
  lease_owner = none;
  lease_expires_at = none;
  lease_generation = 0;
  last_error = none;
  external_id = none;
  created_at = now;
  updated_at = now;
}

abbrev pub text_eq : String → String → Bool
text_eq a b = ite (string_dec a b) true false

-- `items.some(item => item.target === target)`.
unfoldable pub has_target : String → List PublishOutboxItem → Bool
has_target target [] = false
has_target target (item ∷ items) = text_eq item.target target || has_target target items

abbrev pub with_item : ℕ → String → String → List PublishOutboxItem → List PublishOutboxItem
with_item now item_id job_id items =
    if has_target "github_comment" items then items else items ++ new_item now item_id job_id ∷ []

-- No time, or one that is reached.
abbrev pub is_due : ℕ → Option ℕ → Bool
is_due now none = true
is_due now (some at) = leb at now

abbrev pub has_expired : ℕ → Option ℕ → Bool
has_expired now none = false
has_expired now (some at) = leb at now

abbrev pub is_pending_or_retrying : ℕ → JobStatus → PublishOutboxItem → Bool
is_pending_or_retrying now status item =
    (outbox_status_eq item.status PublishOutboxStatus.pending
      || outbox_status_eq item.status retrying)
    && is_due now item.next_attempt_at
    && job_status_eq status awaiting_publish

abbrev pub is_expired_lease : ℕ → JobStatus → PublishOutboxItem → Bool
is_expired_lease now status item =
    outbox_status_eq item.status leased
    && has_expired now item.lease_expires_at
    && job_status_eq status publishing

abbrev pub lease : String → ℕ → ℕ → PublishOutboxItem → PublishOutboxItem
lease owner duration now item = record item {
  status = leased;
  lease_owner = some owner;
  lease_expires_at = some (now + duration);
  lease_generation = item.lease_generation + 1;
  updated_at = now;
}

-- The first item with the id, over all jobs.
unfoldable pub find_in : String → List PublishOutboxItem → Option PublishOutboxItem
find_in id [] = none
find_in id (item ∷ items) = if text_eq item.id id then some item else find_in id items

abbrev pub beside :
    String
    → Option PublishOutboxItem
    → Option (String × PublishOutboxItem)
    → Option (String × PublishOutboxItem)
beside job_id none rest = rest
beside job_id (some item) rest = some (job_id, item)

unfoldable pub find_item :
    String → Dict (List PublishOutboxItem) → Option (String × PublishOutboxItem)
find_item id [] = none
find_item id ((job_id, items) ∷ entries) = beside job_id (find_in id items) (find_item id entries)

-- `items[index] = item` where the index is that of the first item with the id.
unfoldable pub replace :
    String → PublishOutboxItem → List PublishOutboxItem → List PublishOutboxItem
replace id new [] = []
replace id new (item ∷ items) =
    if text_eq item.id id then new ∷ items else item ∷ replace id new items

unfoldable pub replace_item :
    String → PublishOutboxItem → Dict (List PublishOutboxItem) → Dict (List PublishOutboxItem)
replace_item id new [] = []
replace_item id new ((job_id, items) ∷ entries) =
    if Dict.is_some (find_in id items)
    then (job_id, replace id new items) ∷ entries
    else (job_id, items) ∷ replace_item id new entries

abbrev pub is_owner : Option String → String → Bool
is_owner none owner = false
is_owner (some own) owner = text_eq own owner

-- The lease that a worker holds is the one that it was given, and the job is being published.
abbrev pub holds : String → ℕ → PublishOutboxItem → JobStatus → Bool
holds owner generation item status =
    outbox_status_eq item.status leased
    && is_owner item.lease_owner owner
    && item.lease_generation == generation
    && job_status_eq status publishing

-- The publication is under way or over, and the call changes nothing.
abbrev pub is_past : JobStatus → Bool
is_past publishing = true
is_past succeeded = true
is_past publish_failed = true
is_past _ = false

-- A report is expected.
abbrev pub is_reportable : JobStatus → Bool
is_reportable running = true
is_reportable awaiting_publish = true
is_reportable _ = false

module _ {R : Type 0} where
  abbrev pub outbox_of : String → JobQueue R → List PublishOutboxItem
  outbox_of job_id q = value_or (Dict.get job_id q.publish_outbox) []

  abbrev pub get_publish_outbox : String → JobQueue R → List PublishOutboxItem
  get_publish_outbox = outbox_of

  abbrev pub skipped_publication :
      ℕ → String → R → ReviewJob R → JobQueue R → ReviewJob R × JobQueue R
  skipped_publication now id report job q =
      let updated = record job {
        status = succeeded;
        result = some report;
        finished_at = some now;
        updated_at = now;
      } in
      (
        updated,
        set_comment id (record { status = GitHubCommentStatus.skipped; error = none })
            (put_job id updated q),
      )

  abbrev pub awaiting : ℕ → R → ReviewJob R → ReviewJob R
  awaiting now report job = record job {
    status = awaiting_publish;
    result = some report;
    updated_at = now;
  }

  abbrev pub enqueued_publication :
      ℕ → String → String → R → ReviewJob R → JobQueue R → ReviewJob R × JobQueue R
  enqueued_publication now item_id id report job q =
      let q' =
        set_comment id (record { status = GitHubCommentStatus.pending; error = none })
          (put_job id (awaiting now report job) q) in
      (
        awaiting now report job,
        record q' {
          publish_outbox =
              Dict.set id (with_item now item_id id (outbox_of id q')) q'.publish_outbox;
        },
      )

  unfoldable pub published_by :
      PublicationPolicy
      → ℕ
      → String
      → String
      → R
      → ReviewJob R
      → JobQueue R
      → ReviewJob R × JobQueue R
  published_by disabled now item_id id report job q = skipped_publication now id report job q
  published_by github_comment now item_id id report job q =
      enqueued_publication now item_id id report job q

  abbrev as_ok : ReviewJob R × JobQueue R → Result JobFault (ReviewJob R) × JobQueue R
  as_ok r = (ok r.0, r.1)

  module _ (parse : R → Option R) where
    unfoldable pub mark_succeeded :
        ℕ → String → R → JobQueue R → Result JobFault (Option (ReviewJob R)) × JobQueue R
    mark_succeeded now id result q = elim (get id q) [
      | none ↦ (ok none, q)
      | some job ↦ elim (parse result) [
        | none ↦ (err invalid_report, q)
        | some report ↦
            let updated = record job {
              status = succeeded;
              result = some report;
              finished_at = some now;
              updated_at = now;
            } in
            (ok (some updated), put_job id updated q)
      ]
    ]

    unfoldable pub persist_found :
        ℕ
        → String
        → String
        → R
        → ReviewJob R
        → JobQueue R
        → Result JobFault (ReviewJob R) × JobQueue R
    persist_found now item_id id result job q =
        if is_past job.status
        then (ok job, q)
        else if not (is_reportable job.status)
        then (err (invalid_job_status job.status), q)
        else elim (parse result) [
          | none ↦ (err invalid_report, q)
          | some report ↦ as_ok (published_by job.publication_policy now item_id id report job q)
        ]

    unfoldable pub persist_report_and_enqueue_publish :
        ℕ → String → String → R → JobQueue R → Result JobFault (ReviewJob R) × JobQueue R
    persist_report_and_enqueue_publish now item_id id result q = elim (get id q) [
      | none ↦ (err (job_not_found id), q)
      | some job ↦ persist_found now item_id id result job q
    ]
