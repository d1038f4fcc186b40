-- ===== src/Jobs/History.antt =====
-- The queue of apps/api/src/jobQueue.ts after any calls.
use consisten_cy.Base.{
  ℕ, ◌≡◌, refl, ap, ◌∙◌, String, Option, none, List, [], ◌∷◌, arith, Option-cases, inl, inr,
}
use consisten_cy.Base.Dict
use consisten_cy.Base.Dict.{Dict}
use consisten_cy.Jobs.Data.{JobQueue, WebhookDeliveryStatus, DeliveryInput, WebhookJobInput}
use consisten_cy.Jobs.Operations.{
  record_webhook_delivery, accept_webhook_job, recover_stale_running_jobs,
  fail_interrupted_running_jobs, update_report_comment_status, is_stale, is_running,
}
use consisten_cy.Jobs.Calls.{
  Call, enqueues, claims_next, marks_running, marks_succeeded, marks_failed, persists, claims,
  settles, updates, accepts, records, recovers, interrupts, comments, step, run,
}
use consisten_cy.Jobs.Invariant.{Inv, mark_running-Inv, mark_failed-Inv, set_comment-Inv}
use consisten_cy.Jobs.JobSteps.{
  IsEnding, claim_next-Inv, update_status-Inv, fail_each-Inv, mark_succeeded-Inv, enqueue-Inv,
}
use consisten_cy.Jobs.OutboxSteps.{persist-Inv, mark-Inv}
use consisten_cy.Jobs.Claims.{claim-Inv}

abbrev pub new_queue : {R : Type 0} → JobQueue R
new_queue = record { jobs = []; deliveries = []; comment_statuses = []; publish_outbox = [] }

new_queue-Inv : {R : Type 0} → Inv (new_queue {R = R})
unfolding Dict.get
new_queue-Inv = record { distinct = tt; fits = λ j. refl }

module _ {R : Type 0} (parse : R → Option R) where
  -- A new job draws an id that no job has, and no caller puts a job back into the queue or moves it
  -- to a step of the publication by hand.
  abbrev pub Allowed : Call R → JobQueue R → Type 0
  Allowed (enqueues now id input) q = Dict.get id q.jobs ≡ none
  Allowed (accepts now id input) q = Dict.get id q.jobs ≡ none
  Allowed (updates now id status error) q = IsEnding status
  Allowed _ q = Unit

  abbrev pub AllAllowed : List (Call R) → JobQueue R → Type 0
  AllAllowed [] q = Unit
  AllAllowed (call ∷ calls) q = Allowed call q × AllAllowed calls (step parse call q)

  record-Inv :
      (now : ℕ) (at : Option ℕ) (s : WebhookDeliveryStatus) (input : DeliveryInput) (q : JobQueue R)
      → Inv q
      → Inv (record_webhook_delivery now at s input q).1
  unfolding record_webhook_delivery
  record-Inv now at s input q v = elim (Option-cases (Dict.get input.delivery_id q.deliveries)) [
    | inr (d, e) ↦ rw (record_webhook_delivery, e) v
    | inl e ↦ rw (record_webhook_delivery, e) (record { distinct = v.distinct; fits = v.fits })
  ]

  record_jobs :
      (now : ℕ) (at : Option ℕ) (s : WebhookDeliveryStatus) (input : DeliveryInput) (q : JobQueue R)
      → (record_webhook_delivery now at s input q).1.jobs ≡ q.jobs
  unfolding record_webhook_delivery
  record_jobs now at s input q = ground arith

  accept-Inv :
      (now : ℕ) (id : String) (input : WebhookJobInput R) (q : JobQueue R)
      → Dict.get id q.jobs ≡ none
      → Inv q
      → Inv (accept_webhook_job now id input q).1
  unfolding accept_webhook_job
  accept-Inv now id input q fresh v =
      elim (Option-cases (Dict.get input.delivery.delivery_id q.deliveries)) [
        | inr (d, e) ↦ rw (accept_webhook_job, e) v
        | inl e ↦
            rw (accept_webhook_job, e)
              (enqueue-Inv now id _ _
                (ap (Dict.get id)
                    (record_jobs now none WebhookDeliveryStatus.enqueued input.delivery q)
                  ∙ fresh)
                (record-Inv now none WebhookDeliveryStatus.enqueued input.delivery q v))
      ]

  pub step-Inv : (call : Call R) (q : JobQueue R) → Allowed call q → Inv q → Inv (step parse call q)
  unfolding step recover_stale_running_jobs fail_interrupted_running_jobs
      update_report_comment_status
  step-Inv (enqueues now id input) q a v = enqueue-Inv now id input q a v
  step-Inv (claims_next now) q a v = claim_next-Inv now q v
  step-Inv (marks_running now id) q a v = mark_running-Inv now id q v
  step-Inv (marks_succeeded now id report) q a v = mark_succeeded-Inv parse now id report q v
  step-Inv (marks_failed now id error) q a v = mark_failed-Inv now id error q v
  step-Inv (persists now item_id id report) q a v = persist-Inv parse now item_id id report q v
  step-Inv (claims owner duration now limit) q a v = claim-Inv owner duration now limit q v
  step-Inv (settles now id owner g m) q a v = mark-Inv now id owner g m q v
  step-Inv (updates now id status error) q a v = update_status-Inv now id status error q a v
  step-Inv (accepts now id input) q a v = accept-Inv now id input q a v
  step-Inv (records now at s input) q a v = record-Inv now at s input q v
  step-Inv (recovers now cutoff) q a v = fail_each-Inv (is_stale cutoff) _ now q.jobs q v
  step-Inv (interrupts now) q a v = fail_each-Inv is_running _ now q.jobs q v
  step-Inv (comments id s e) q a v = set_comment-Inv id _ q v

  kept-Inv :
      (calls : List (Call R)) (q : JobQueue R)
      → AllAllowed calls q
      → Inv q
      → Inv (run parse calls q)
  unfolding run
  kept-Inv [] q a v = v
  kept-Inv (call ∷ calls) q a v = kept-Inv calls (step parse call q) a.1 (step-Inv call q a.0 v)

  -- After any calls on a new queue, a queued or running job has no outbox, a job that awaits its
  -- publication has one item that waits, and a job that is being published has one that is leased until
  -- some time; this holds where new jobs draw new ids and no status is set by hand to queued,
  -- awaiting_publish or publishing.
  pub run_agrees :
      (calls : List (Call R)) → AllAllowed calls new_queue → Inv (run parse calls new_queue)
  run_agrees calls a = kept-Inv calls new_queue a new_queue-Inv
