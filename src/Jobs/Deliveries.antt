-- ===== src/Jobs/Deliveries.antt =====
-- About the deliveries and what the methods of apps/api/src/jobQueue.ts do to them.
use consisten_cy.Base.{
  ℕ, ◌≡◌, refl, ◌∙◌, String, Bool, Option, none, some, [], ◌∷◌, arith, Bool-cases, Option-cases,
  inl, inr,
}
use consisten_cy.Base.Dict
use consisten_cy.Base.Dict.{Dict}
use consisten_cy.Jobs.Data.{
  JobStatus, PublicationPolicy, github_comment, disabled, ReviewJob, JobQueue, WebhookDelivery,
  WebhookDeliveryStatus, DeliveryInput, WebhookJobInput, CommentStatus, PublishOutboxItem,
}
use consisten_cy.Jobs.Operations.{
  value_or, enqueue, mark_running, next_queued, claim_next_queued, mark_failed, update_status,
  fail_each, record_webhook_delivery, accept_webhook_job, received,
}
use consisten_cy.Jobs.Outbox.{
  find_item, holds, is_past, is_reportable, published_by, persist_found, mark_succeeded,
  persist_report_and_enqueue_publish,
}
use consisten_cy.Jobs.Lease.{
  settle, Mark, success, retry, give_up, mark, mark_publish_outbox_success,
  mark_publish_outbox_retry, mark_publish_outbox_failed,
}

module _ {R : Type 0} where
  pub mark_running_deliveries :
      (now : ℕ) (id : String) (q : JobQueue R) → (mark_running now id q).1.deliveries ≡ q.deliveries
  unfolding mark_running
  mark_running_deliveries now id q = ground arith

  pub mark_failed_deliveries :
      (now : ℕ) (id error : String) (q : JobQueue R)
      → (mark_failed now id error q).1.deliveries ≡ q.deliveries
  unfolding mark_failed
  mark_failed_deliveries now id error q = ground arith

  pub claim_next_deliveries :
      (now : ℕ) (q : JobQueue R) → (claim_next_queued now q).1.deliveries ≡ q.deliveries
  unfolding claim_next_queued
  claim_next_deliveries now q = elim (Option-cases (next_queued q)) [
    | inl e ↦ rw (claim_next_queued, e) refl
    | inr (job, e) ↦ rw (claim_next_queued, e) (mark_running_deliveries now job.id q)
  ]

  pub update_status_deliveries :
      (now : ℕ) (id : String) (s : JobStatus) (error : Option String) (q : JobQueue R)
      → (update_status now id s error q).1.deliveries ≡ q.deliveries
  unfolding update_status
  update_status_deliveries now id s error q = ground (
    arith,
    mark_running_deliveries now id q,
    mark_failed_deliveries now id (value_or error "Job failed") q,
  )

  pub fail_each_deliveries :
      (test : ReviewJob R → Bool) (message : String) (now : ℕ) (entries : Dict (ReviewJob R))
      (q : JobQueue R)
      → (fail_each test message now entries q).1.deliveries ≡ q.deliveries
  unfolding fail_each
  fail_each_deliveries test message now [] q = refl
  fail_each_deliveries test message now ((key, job) ∷ entries) q = elim (Bool-cases (test job)) [
    | inl t ↦ rw t (
        fail_each_deliveries test message now entries (mark_failed now job.id message q).1
        ∙ mark_failed_deliveries now job.id message q)
    | inr f ↦ rw f (fail_each_deliveries test message now entries q)
  ]

  pub published_by_deliveries :
      (policy : PublicationPolicy) (now : ℕ) (item_id id : String) (report : R) (job : ReviewJob R)
      (q : JobQueue R)
      → (published_by policy now item_id id report job q).1.deliveries ≡ q.deliveries
  unfolding published_by
  published_by_deliveries disabled now item_id id report job q = refl
  published_by_deliveries github_comment now item_id id report job q = refl

  pub persist_found_deliveries :
      (parse : R → Option R) (now : ℕ) (item_id id : String) (report : R) (job : ReviewJob R)
      (q : JobQueue R)
      → (persist_found parse now item_id id report job q).1.deliveries ≡ q.deliveries
  unfolding persist_found
  persist_found_deliveries parse now item_id id report job q =
      elim (Bool-cases (is_past job.status)) [
        | inl t ↦ rw t refl
        | inr f ↦ elim (Bool-cases (is_reportable job.status)) [
          | inr n ↦ rw (f, n) refl
          | inl t ↦ elim (Option-cases (parse report)) [
            | inl p ↦ rw (f, t, p) refl
            | inr (r, p) ↦
                rw (f, t, p) (published_by_deliveries job.publication_policy now item_id id r job q)
          ]
        ]
      ]

  pub persist_deliveries :
      (parse : R → Option R) (now : ℕ) (item_id id : String) (report : R) (q : JobQueue R)
      → (persist_report_and_enqueue_publish parse now item_id id report q).1.deliveries
        ≡ q.deliveries
  unfolding persist_report_and_enqueue_publish
  persist_deliveries parse now item_id id report q = elim (Option-cases (Dict.get id q.jobs)) [
    | inl e ↦ rw (persist_report_and_enqueue_publish, e) refl
    | inr (job, e) ↦
        rw (persist_report_and_enqueue_publish, e)
          (persist_found_deliveries parse now item_id id report job q)
  ]

  pub mark_succeeded_deliveries :
      (parse : R → Option R) (now : ℕ) (id : String) (report : R) (q : JobQueue R)
      → (mark_succeeded parse now id report q).1.deliveries ≡ q.deliveries
  unfolding mark_succeeded
  mark_succeeded_deliveries parse now id report q = ground arith

  pub settle_deliveries :
      (id owner : String) (g : ℕ) (f : PublishOutboxItem → PublishOutboxItem)
      (advance : ReviewJob R → ReviewJob R) (comment : CommentStatus) (q : JobQueue R)
      → (settle id owner g f advance comment q).1.deliveries ≡ q.deliveries
  unfolding settle
  settle_deliveries id owner g f advance comment q =
      elim (Option-cases (find_item id q.publish_outbox)) [
        | inl e ↦ rw (settle, e) refl
        | inr ((j, i), e) ↦ elim (Option-cases (Dict.get j q.jobs)) [
          | inl n ↦ rw (settle, e, n) refl
          | inr (job, n) ↦ elim (Bool-cases (holds owner g i job.status)) [
            | inr x ↦ rw (settle, e, n, x) refl
            | inl x ↦ rw (settle, e, n, x) refl
          ]
        ]
      ]

  pub mark_deliveries :
      (now : ℕ) (id owner : String) (g : ℕ) (m : Mark) (q : JobQueue R)
      → (mark now id owner g m q).1.deliveries ≡ q.deliveries
  unfolding mark mark_publish_outbox_success mark_publish_outbox_retry mark_publish_outbox_failed
  mark_deliveries now id owner g (success outcome e) q = settle_deliveries id owner g _ _ _ q
  mark_deliveries now id owner g (retry error backoff) q = settle_deliveries id owner g _ _ _ q
  mark_deliveries now id owner g (give_up error) q = settle_deliveries id owner g _ _ _ q

  -- A delivery that is there stays there.
  abbrev pub Received : String → WebhookDelivery → JobQueue R → Type 0
  Received d delivery q = Dict.get d q.deliveries ≡ some delivery

  pub record-Received :
      (d : String) (delivery : WebhookDelivery) (now : ℕ) (at : Option ℕ)
      (s : WebhookDeliveryStatus) (input : DeliveryInput) (q : JobQueue R)
      → Received d delivery q
      → Received d delivery (record_webhook_delivery now at s input q).1
  unfolding record_webhook_delivery
  record-Received d delivery now at s input q h =
      elim (Option-cases (Dict.get input.delivery_id q.deliveries)) [
        | inr (other, e) ↦ rw (record_webhook_delivery, e) h
        | inl e ↦
            rw (record_webhook_delivery, e)
              (ground (
                arith,
                Dict.get-set input.delivery_id d (received (value_or at now) s input) q.deliveries,
              ))
      ]

  pub accept-Received :
      (d : String) (delivery : WebhookDelivery) (now : ℕ) (id : String) (input : WebhookJobInput R)
      (q : JobQueue R)
      → Received d delivery q
      → Received d delivery (accept_webhook_job now id input q).1
  unfolding accept_webhook_job enqueue
  accept-Received d delivery now id input q h =
      elim (Option-cases (Dict.get input.delivery.delivery_id q.deliveries)) [
        | inr (other, e) ↦ rw (accept_webhook_job, e) h
        | inl e ↦
            rw (accept_webhook_job, e)
              (record-Received d delivery now none WebhookDeliveryStatus.enqueued input.delivery q
                h)
      ]
