-- ===== src/Jobs/Kept.antt =====
-- About the methods of apps/api/src/jobQueue.ts that do not write to the outbox.
use consisten_cy.Base.{
  ℕ, ◌≡◌, refl, ◌∙◌, String, Bool, Option, List, [], ◌∷◌, arith, Bool-cases, Option-cases, inl, inr,
  ◌⊎◌,
}
use consisten_cy.Base.Dict
use consisten_cy.Base.Dict.{Dict}
use consisten_cy.Jobs.Data.{
  JobStatus, PublicationPolicy, github_comment, disabled, PublishOutboxItem, ReviewJob, JobQueue,
  WebhookJobInput, DeliveryInput,
}
use consisten_cy.Jobs.Operations.{
  value_or, enqueue, mark_running, next_queued, claim_next_queued, mark_failed, update_status,
  fail_each, record_webhook_delivery, accept_webhook_job,
}
use consisten_cy.Jobs.Outbox.{
  published_by, persist_found, with_item, is_past, is_reportable, mark_succeeded,
  persist_report_and_enqueue_publish,
}

pub mark_running_outbox :
    {R : Type 0} (now : ℕ) (id : String) (q : JobQueue R)
    → (mark_running now id q).1.publish_outbox ≡ q.publish_outbox
unfolding mark_running
mark_running_outbox now id q = ground arith

pub mark_failed_outbox :
    {R : Type 0} (now : ℕ) (id error : String) (q : JobQueue R)
    → (mark_failed now id error q).1.publish_outbox ≡ q.publish_outbox
unfolding mark_failed
mark_failed_outbox now id error q = ground arith

pub claim_next_outbox :
    {R : Type 0} (now : ℕ) (q : JobQueue R)
    → (claim_next_queued now q).1.publish_outbox ≡ q.publish_outbox
unfolding claim_next_queued
claim_next_outbox now q = elim (Option-cases (next_queued q)) [
  | inl e ↦ rw (claim_next_queued, e) refl
  | inr (job, e) ↦ rw (claim_next_queued, e) (mark_running_outbox now job.id q)
]

pub update_status_outbox :
    {R : Type 0} (now : ℕ) (id : String) (s : JobStatus) (error : Option String) (q : JobQueue R)
    → (update_status now id s error q).1.publish_outbox ≡ q.publish_outbox
unfolding update_status
update_status_outbox now id s error q =
    ground (
      arith,
      mark_running_outbox now id q,
      mark_failed_outbox now id (value_or error "Job failed") q,
    )

pub fail_each_outbox :
    {R : Type 0} (test : ReviewJob R → Bool) (message : String) (now : ℕ)
    (entries : Dict (ReviewJob R)) (q : JobQueue R)
    → (fail_each test message now entries q).1.publish_outbox ≡ q.publish_outbox
unfolding fail_each
fail_each_outbox test message now [] q = refl
fail_each_outbox test message now ((key, job) ∷ entries) q = elim (Bool-cases (test job)) [
  | inl t ↦ rw t (
      fail_each_outbox test message now entries (mark_failed now job.id message q).1
      ∙ mark_failed_outbox now job.id message q)
  | inr f ↦ rw f (fail_each_outbox test message now entries q)
]

pub mark_succeeded_outbox :
    {R : Type 0} (parse : R → Option R) (now : ℕ) (id : String) (report : R) (q : JobQueue R)
    → (mark_succeeded parse now id report q).1.publish_outbox ≡ q.publish_outbox
unfolding mark_succeeded
mark_succeeded_outbox parse now id report q = ground arith

pub record_outbox :
    {R : Type 0} (now : ℕ) (at : Option ℕ) (s : _) (input : DeliveryInput) (q : JobQueue R)
    → (record_webhook_delivery now at s input q).1.publish_outbox ≡ q.publish_outbox
unfolding record_webhook_delivery
record_outbox now at s input q = ground arith

pub accept_outbox :
    {R : Type 0} (now : ℕ) (job_id : String) (input : WebhookJobInput R) (q : JobQueue R)
    → (accept_webhook_job now job_id input q).1.publish_outbox ≡ q.publish_outbox
unfolding accept_webhook_job enqueue record_webhook_delivery
accept_outbox now job_id input q = ground arith

-- The outbox with the item of a job that is to be published.
abbrev pub enlisted :
    ℕ → String → String → Dict (List PublishOutboxItem) → Dict (List PublishOutboxItem)
enlisted now item_id id outbox =
    Dict.set id (with_item now item_id id (value_or (Dict.get id outbox) [])) outbox

published_by_outbox :
    {R : Type 0} (policy : PublicationPolicy) (now : ℕ) (item_id id : String) (report : R)
    (job : ReviewJob R) (q : JobQueue R)
    → ((published_by policy now item_id id report job q).1.publish_outbox ≡ q.publish_outbox)
      ⊎ ((published_by policy now item_id id report job q).1.publish_outbox
          ≡ enlisted now item_id id q.publish_outbox)
unfolding published_by
published_by_outbox disabled now item_id id report job q = inl refl
published_by_outbox github_comment now item_id id report job q = inr refl

persist_found_outbox :
    {R : Type 0} (parse : R → Option R) (now : ℕ) (item_id id : String) (report : R)
    (job : ReviewJob R) (q : JobQueue R)
    → ((persist_found parse now item_id id report job q).1.publish_outbox ≡ q.publish_outbox)
      ⊎ ((persist_found parse now item_id id report job q).1.publish_outbox
          ≡ enlisted now item_id id q.publish_outbox)
unfolding persist_found
persist_found_outbox parse now item_id id report job q = elim (Bool-cases (is_past job.status)) [
  | inl t ↦ rw t (inl refl)
  | inr f ↦ elim (Bool-cases (is_reportable job.status)) [
    | inr n ↦ rw (f, n) (inl refl)
    | inl t ↦ elim (Option-cases (parse report)) [
      | inl e ↦ rw (f, t, e) (inl refl)
      | inr (r, e) ↦
          rw (f, t, e) (published_by_outbox job.publication_policy now item_id id r job q)
    ]
  ]
]

pub persist_outbox :
    {R : Type 0} (parse : R → Option R) (now : ℕ) (item_id id : String) (report : R)
    (q : JobQueue R)
    → ((persist_report_and_enqueue_publish parse now item_id id report q).1.publish_outbox
        ≡ q.publish_outbox)
      ⊎ ((persist_report_and_enqueue_publish parse now item_id id report q).1.publish_outbox
          ≡ enlisted now item_id id q.publish_outbox)
unfolding persist_report_and_enqueue_publish
persist_outbox parse now item_id id report q = elim (Option-cases (Dict.get id q.jobs)) [
  | inl e ↦ rw (persist_report_and_enqueue_publish, e) (inl refl)
  | inr (job, e) ↦
      rw (persist_report_and_enqueue_publish, e)
        (persist_found_outbox parse now item_id id report job q)
]
