-- ===== src/Jobs/Tests.antt =====
-- The queue of apps/api/src/jobQueue.ts on small inputs: one job, whose comment is published by `w`.
use mathlib.Core.List.{Memᴰ}
use consisten_cy.Base.{
  ap, ◌≤◌, ◌≡◌, ◌≢◌, refl, String, true, false, Option, none, some, List, [], ◌∷◌, arith,
  string_dec, All, inl, ◌⊎◌,
}
use consisten_cy.Base.Dict
use consisten_cy.Base.Dict.{Dict}
use consisten_cy.Jobs.Data.{
  queued, pull_request, running, publishing, GitHubCommentStatus, CreateReviewJobInput,
  WebhookJobInput, ReviewJob, JobQueue, PublishOutboxItem,
}
use consisten_cy.Jobs.Operations.{
  new_job, insert, newest_first, find, enqueue, next_queued, mark_running, claim_next_queued,
  accept_webhook_job,
}
use consisten_cy.Jobs.Outbox.{
  text_eq, new_item, awaiting, has_target, find_in, find_item, replace, replace_item, lease,
  published_by, persist_found, persist_report_and_enqueue_publish,
}
use consisten_cy.Jobs.Lease.{
  claim_items, claim_entries, claim_publish_outbox_item, settle, mark, success, retry, give_up,
  published, mark_publish_outbox_success,
}
use consisten_cy.Jobs.Calls.{
  Call, enqueues, claims_next, persists, claims, settles, comments, step, run,
}
use consisten_cy.Jobs.Invariant.{Inv}
use consisten_cy.Jobs.History.{new_queue, AllAllowed, run_agrees}
use consisten_cy.Jobs.Fencing.{IsFresh}
use consisten_cy.Jobs.Once.{settled_once, superseded}
use consisten_cy.Jobs.Served.{IsDue}
use consisten_cy.Jobs.Progress.{claim_progress}
use consisten_cy.Jobs.Webhooks.{accept_once}
use consisten_cy.Jobs.Protocol.{Refines, run-Refines}
use consisten_cy.Jobs.Left.{HasLeft}
use consisten_cy.Jobs.Started.{KeepsOut, started_once}
use consisten_cy.Jobs.Queued.{next_queued-IsNext}

-- Reports are texts, and each is taken as it is.
abbrev pub parse : String → Option String
parse report = some report

abbrev input : CreateReviewJobInput String
input = record {
  kind = pull_request;
  delivery_id = none;
  repository = "o/r";
  repository_id = none;
  repo_path = none;
  installation_id = some 5;
  access_mode = none;
  sender_login = none;
  action = none;
  pull_request_number = some 1;
  base_sha = none;
  head_sha = none;
  ref = none;
  publication_policy = none;
  llm_provider = none;
  llm_model = none;
  started_at = none;
  finished_at = none;
  result = none;
  error = none;
}

abbrev hook : WebhookJobInput String
hook = record {
  delivery = record { delivery_id = "d"; event = "pull_request"; action = none };
  job = input;
}

-- The job `j` is run and its report is to be published as item `i`.
abbrev opening : List (Call String)
opening = enqueues 1 "j" input ∷ claims_next 2 ∷ persists 3 "i" "j" "report" ∷ []

abbrev pub waiting : JobQueue String
waiting = run parse opening new_queue

-- `w` has leased the item, until 14.
abbrev pub leased_once : JobQueue String
leased_once = run parse (claims "w" 10 4 5 ∷ []) waiting

-- The lease has run out and the item is leased again.
abbrev leased_again : JobQueue String
leased_again = run parse (claims "v" 10 14 5 ∷ []) leased_once

opening-AllAllowed : AllAllowed parse opening new_queue
unfolding step enqueue Dict.get
opening-AllAllowed = (refl, (tt, (tt, tt)))

pub waiting-Inv : Inv waiting
waiting-Inv = run_agrees parse opening opening-AllAllowed

run_agrees_example : Inv waiting
run_agrees_example = run_agrees parse opening opening-AllAllowed

next_queued-IsNext_example :
    let q = run parse (enqueues 1 "j" input ∷ enqueues 2 "k" input ∷ []) new_queue in
    ((next_queued q ≡ none)
      × ((id : String) (job : ReviewJob String)
          → Dict.get id q.jobs ≡ some job
          → job.status ≢ queued))
    ⊎ ((next : ReviewJob String) × (next_queued q ≡ some next)
        × (next.status ≡ queued)
        × ((id : String) (job : ReviewJob String)
            → Dict.get id q.jobs ≡ some job
            → job.status ≡ queued
            → job.created_at ≤ next.created_at))
next_queued-IsNext_example =
    next_queued-IsNext (run parse (enqueues 1 "j" input ∷ enqueues 2 "k" input ∷ []) new_queue)

abbrev pub the_item : PublishOutboxItem
the_item = new_item 3 "i" "j"

abbrev leased_item : PublishOutboxItem
leased_item = lease "v" 10 14 (lease "w" 10 4 the_item)

abbrev pub calls_between : List (Call String)
calls_between = claims "v" 10 20 5 ∷ comments "j" GitHubCommentStatus.pending none ∷ []

pub between-IsFresh : All (IsFresh parse "i") calls_between
between-IsFresh = (tt, (tt, tt))

settled_there : (mark 6 "i" "w" 1 (success published (some "c")) leased_once).0 ≡ true
unfolding run step enqueue next_queued newest_first insert find mark_running claim_next_queued
    Dict.get Dict.set Dict.values persist_report_and_enqueue_publish persist_found published_by
    has_target claim_publish_outbox_item claim_entries claim_items settle mark
    mark_publish_outbox_success find_item find_in replace_item replace string_dec
settled_there = refl

settled_once_example :
    let q = (mark 6 "i" "w" 1 (success published (some "c")) leased_once).1 in
    mark 25 "i" "v" 1 (give_up "late") (run parse calls_between q)
    ≡ (false, run parse calls_between q)
settled_once_example =
    settled_once parse 6 25 1 "i" "w" "v" (success published (some "c")) (give_up "late")
      calls_between leased_once settled_there between-IsFresh

found_again : find_item "i" leased_again.publish_outbox ≡ some ("j", leased_item)
unfolding run step enqueue next_queued newest_first insert find mark_running claim_next_queued
    Dict.get Dict.set Dict.values persist_report_and_enqueue_publish persist_found published_by
    has_target claim_publish_outbox_item claim_entries claim_items settle mark
    mark_publish_outbox_success find_item find_in replace_item replace string_dec
found_again = refl

superseded_example :
    mark 20 "i" "w" 1 (retry "timeout" 1000) (run parse calls_between leased_again)
    ≡ (false, run parse calls_between leased_again)
superseded_example =
    superseded parse 20 1 "i" "w" "j" leased_item (retry "timeout" 1000) calls_between leased_again
      found_again (omega arith) between-IsFresh

abbrev pub waiting_job : ReviewJob String
waiting_job =
    awaiting 3 "report"
      (record (new_job 1 "j" input) { status = running; started_at = some 2; updated_at = 2 })

pub waiting_job_there : Dict.get "j" waiting.jobs ≡ some waiting_job
unfolding run step enqueue next_queued newest_first insert find mark_running claim_next_queued
    Dict.get Dict.set Dict.values persist_report_and_enqueue_publish persist_found published_by
    has_target claim_publish_outbox_item claim_entries claim_items settle mark
    mark_publish_outbox_success find_item find_in replace_item replace string_dec
waiting_job_there = refl

pub waiting_item_there : Dict.get "j" waiting.publish_outbox ≡ some (the_item ∷ [])
unfolding run step enqueue next_queued newest_first insert find mark_running claim_next_queued
    Dict.get Dict.set Dict.values persist_report_and_enqueue_publish persist_found published_by
    has_target claim_publish_outbox_item claim_entries claim_items settle mark
    mark_publish_outbox_success find_item find_in replace_item replace string_dec
waiting_item_there = refl

pub waiting_found : find_item "i" waiting.publish_outbox ≡ some ("j", the_item)
unfolding run step enqueue next_queued newest_first insert find mark_running claim_next_queued
    Dict.get Dict.set Dict.values persist_report_and_enqueue_publish persist_found published_by
    has_target claim_publish_outbox_item claim_entries claim_items find_item find_in string_dec
waiting_found = refl

run-Refines_example :
    Refines
      (claims "w" 10 4 5 ∷ calls_between)
      "i"
      "j"
      the_item
      (run parse (claims "w" 10 4 5 ∷ calls_between) waiting)
run-Refines_example =
    run-Refines parse "i" "j" the_item (claims "w" 10 4 5 ∷ calls_between) waiting waiting_found
      (tt, between-IsFresh)

leased_once-HasLeft : HasLeft "j" leased_once.jobs
unfolding run step enqueue next_queued newest_first insert find mark_running claim_next_queued
    Dict.get Dict.set Dict.values persist_report_and_enqueue_publish persist_found published_by
    has_target claim_publish_outbox_item claim_entries claim_items settle mark
    mark_publish_outbox_success find_item find_in replace_item replace string_dec
leased_once-HasLeft e = absurd (ground arith)

abbrev other : String
other = "k"

-- The item is settled, another job comes and is started.
abbrev calls_after : List (Call String)
calls_after =
    settles 6 "i" "w" 1 (success published (some "c")) ∷ enqueues 7 other input ∷ claims_next 8 ∷ []

k_is_other : other ≢ "j"
unfolding string_dec
k_is_other e = let apart : false ≡ true = ap (λ (s : String). text_eq s "j") e in cc apart

after-KeepsOut : All (KeepsOut "j" parse) calls_after
after-KeepsOut = (tt, (k_is_other, (tt, tt)))

started_once_example :
    let later = run parse calls_after leased_once in
    (mark_running 9 "j" later ≡ (none, later))
    × (Dict.get "j" (claim_next_queued 9 later).1.jobs ≡ Dict.get "j" later.jobs)
started_once_example =
    started_once parse 9 "j" calls_after leased_once leased_once-HasLeft after-KeepsOut

waiting-IsDue : IsDue 4 waiting_job the_item
waiting-IsDue = inl (refl, λ t e. absurd (ground arith))

pub waiting_size : Dict.size waiting.publish_outbox ≤ 5
unfolding run step enqueue next_queued newest_first insert find mark_running claim_next_queued
    Dict.get Dict.size Dict.set Dict.values persist_report_and_enqueue_publish persist_found
    published_by has_target claim_publish_outbox_item claim_entries claim_items settle mark
    mark_publish_outbox_success find_item find_in replace_item replace string_dec
waiting_size = omega arith

claim_progress_example :
    let (taken, q) = claim_publish_outbox_item "w" 10 4 5 waiting in
    (job : ReviewJob String) × (Dict.get "j" q.jobs ≡ some job)
    × (job.status ≡ publishing)
    × (Dict.get "j" q.publish_outbox ≡ some (lease "w" 10 4 the_item ∷ []))
    × Memᴰ (lease "w" 10 4 the_item) taken
claim_progress_example =
    claim_progress "w" 10 4 5 "j" the_item waiting_job waiting waiting-Inv waiting_job_there
      waiting_item_there waiting-IsDue waiting_size

accept_once_example :
    let (first, q1) = accept_webhook_job 1 "j" hook (new_queue {R = String}) in
    let (second, q2) = accept_webhook_job 9 "k" hook (run parse (claims_next 2 ∷ []) q1) in
    (second.duplicate ≡ true)
    × (second.delivery ≡ first.delivery)
    × (q2 ≡ run parse (claims_next 2 ∷ []) q1)
accept_once_example = accept_once parse 1 9 "j" "k" hook hook (claims_next 2 ∷ []) new_queue refl
