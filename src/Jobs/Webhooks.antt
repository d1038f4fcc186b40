-- ===== src/Jobs/Webhooks.antt =====
-- About deliveries that come again: the webhook methods of apps/api/src/jobQueue.ts.
use consisten_cy.Base.{
  ℕ, ◌≡◌, refl, sym, ap, ◌∙◌, subst, String, true, Option, some, List, [], ◌∷◌, arith, Option-cases,
  inl, inr,
}
use consisten_cy.Base.Dict
use consisten_cy.Base.Dict.{Dict}
use consisten_cy.Jobs.Data.{JobQueue, WebhookDelivery, WebhookDeliveryStatus, WebhookJobInput}
use consisten_cy.Jobs.Operations.{
  enqueue, record_webhook_delivery, accept_webhook_job, recover_stale_running_jobs,
  fail_interrupted_running_jobs, update_report_comment_status, is_stale, is_running, received,
}
use consisten_cy.Jobs.Lease.{claim_publish_outbox_item}
use consisten_cy.Jobs.Calls.{
  Call, enqueues, claims_next, marks_running, marks_succeeded, marks_failed, persists, claims,
  settles, updates, accepts, records, recovers, interrupts, comments, step, run,
}
use consisten_cy.Jobs.Deliveries.{
  Received, record-Received, accept-Received, mark_running_deliveries, mark_failed_deliveries,
  claim_next_deliveries, update_status_deliveries, fail_each_deliveries, persist_deliveries,
  mark_succeeded_deliveries, mark_deliveries,
}

module _ {R : Type 0} (parse : R → Option R) (d : String) (delivery : WebhookDelivery) where
  step-Received :
      (call : Call R) (q : JobQueue R)
      → Received d delivery q
      → Received d delivery (step parse call q)
  unfolding step enqueue recover_stale_running_jobs fail_interrupted_running_jobs
      update_report_comment_status claim_publish_outbox_item
  step-Received (enqueues now id input) q h = h
  step-Received (claims_next now) q h = ap (Dict.get d) (claim_next_deliveries now q) ∙ h
  step-Received (marks_running now id) q h = ap (Dict.get d) (mark_running_deliveries now id q) ∙ h
  step-Received (marks_succeeded now id r) q h =
      ap (Dict.get d) (mark_succeeded_deliveries parse now id r q) ∙ h
  step-Received (marks_failed now id e) q h =
      ap (Dict.get d) (mark_failed_deliveries now id e q) ∙ h
  step-Received (persists now item_id id r) q h =
      ap (Dict.get d) (persist_deliveries parse now item_id id r q) ∙ h
  step-Received (claims owner duration now limit) q h = h
  step-Received (settles now id owner g m) q h =
      ap (Dict.get d) (mark_deliveries now id owner g m q) ∙ h
  step-Received (updates now id s e) q h =
      ap (Dict.get d) (update_status_deliveries now id s e q) ∙ h
  step-Received (accepts now id input) q h = accept-Received d delivery now id input q h
  step-Received (records now at s input) q h = record-Received d delivery now at s input q h
  step-Received (recovers now cutoff) q h =
      ap (Dict.get d) (fail_each_deliveries (is_stale cutoff) _ now q.jobs q) ∙ h
  step-Received (interrupts now) q h =
      ap (Dict.get d) (fail_each_deliveries is_running _ now q.jobs q) ∙ h
  step-Received (comments id s e) q h = h

  run-Received :
      (calls : List (Call R)) (q : JobQueue R)
      → Received d delivery q
      → Received d delivery (run parse calls q)
  unfolding run
  run-Received [] q h = h
  run-Received (call ∷ calls) q h = run-Received calls (step parse call q) (step-Received call q h)

-- After an acceptance its delivery is there.
accepted-Received :
    {R : Type 0} (now : ℕ) (id : String) (input : WebhookJobInput R) (q : JobQueue R)
    → Received input.delivery.delivery_id
        (accept_webhook_job now id input q).0.delivery
        (accept_webhook_job now id input q).1
unfolding accept_webhook_job enqueue record_webhook_delivery
accepted-Received now id input q =
    elim (Option-cases (Dict.get input.delivery.delivery_id q.deliveries)) [
      | inr (other, e) ↦ rw (accept_webhook_job, e) e
      | inl e ↦
          rw (accept_webhook_job, e, record_webhook_delivery, e)
            (ground (
              arith,
              Dict.get-set input.delivery.delivery_id input.delivery.delivery_id
                  (received now WebhookDeliveryStatus.enqueued input.delivery) q.deliveries,
            ))
    ]

again :
    {R : Type 0} (now : ℕ) (id : String) (input : WebhookJobInput R) (q : JobQueue R)
    (delivery : WebhookDelivery)
    → Dict.get input.delivery.delivery_id q.deliveries ≡ some delivery
    → ((accept_webhook_job now id input q).0.duplicate ≡ true)
      × ((accept_webhook_job now id input q).0.delivery ≡ delivery)
      × ((accept_webhook_job now id input q).1 ≡ q)
unfolding accept_webhook_job
again now id input q delivery e = rw (accept_webhook_job, e) (refl, refl, refl)

-- A delivery that is accepted again, whatever is called in between and whatever the second call asks
-- for, is a duplicate: the delivery that was received first is returned, and no job is added nor
-- anything else changed.
pub accept_once :
    {R : Type 0} (parse : R → Option R) (now now' : ℕ) (id id' : String)
    (input input' : WebhookJobInput R) (calls : List (Call R)) (q : JobQueue R)
    → input'.delivery.delivery_id ≡ input.delivery.delivery_id
    → let (first, q1) = accept_webhook_job now id input q in
      let (second, q2) = accept_webhook_job now' id' input' (run parse calls q1) in
      (second.duplicate ≡ true) × (second.delivery ≡ first.delivery) × (q2 ≡ run parse calls q1)
accept_once parse now now' id id' input input' calls q same =
    let first = accept_webhook_job now id input q in
    let there : Dict.get input'.delivery.delivery_id (run parse calls first.1).deliveries
        ≡ some first.0.delivery =
      subst (λ (d : String). Received d first.0.delivery (run parse calls first.1)) (sym same)
        (run-Received parse input.delivery.delivery_id first.0.delivery calls first.1
          (accepted-Received now id input q)) in
    again now' id' input' (run parse calls first.1) first.0.delivery there
