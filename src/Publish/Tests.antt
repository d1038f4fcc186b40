-- ===== src/Publish/Tests.antt =====
-- The worker of apps/api/src/publish/worker.ts on the comment of one job.
use consisten_cy.Base.{
  ◌+◌, ◌≤◌, ◌≡◌, refl, String, true, false, none, some, List, [], ◌∷◌, arith, ◌⊎◌, ◌↔◌, ok, err,
  string_dec, length,
}
use consisten_cy.Base.Dict
use consisten_cy.Jobs.Data.{PublishOutboxItem}
use consisten_cy.Jobs.Operations.{
  insert, newest_first, find, enqueue, next_queued, mark_running, claim_next_queued,
}
use consisten_cy.Jobs.Outbox.{
  has_target, find_in, find_item, lease, published_by, persist_found,
  persist_report_and_enqueue_publish,
}
use consisten_cy.Jobs.Lease.{claim_items, claim_entries, claim_publish_outbox_item}
use consisten_cy.Jobs.Calls.{step, run}
use consisten_cy.Jobs.Tests.{
  parse, waiting, leased_once, the_item, waiting_job, waiting_job_there, waiting_item_there,
  waiting_found, waiting_size, waiting-Inv, calls_between, between-IsFresh,
}
use consisten_cy.Publish.Error.{publish_error, transient_publish_error, permanent, OtherError}
use consisten_cy.Publish.Classify.{classified}
use consisten_cy.Publish.Data.{PublishWorker, Attempt}
use consisten_cy.Publish.Worker.{decide, settle_item, poll_once}
use consisten_cy.Publish.Attempt.{Settled, settle_item_lem}
use consisten_cy.Publish.Turns.{Turn, Ends, AllReady, Waiting}
use consisten_cy.Publish.Rounds.{publication-Ends}
use consisten_cy.Publish.Limits.{poll_once-IsWithin, IsPermanent, classified-IsPermanent}

abbrev redact : String → String
redact text = text

abbrev worker : PublishWorker
worker = record {
  poll_interval = 1;
  lease_duration = 10;
  publish_timeout = 3;
  max_attempts = 1;
  concurrency = 5;
  backoff_calculator = none;
  worker_id = "w";
  running = true;
  active_claims = 0;
}

-- The comment cannot be made.
abbrev failing : Attempt String
failing = record {
  token = λ job. ok "t";
  comment = λ o. err (publish_error (transient_publish_error "down" (some 503) none));
  fresh_token = λ job. ok "t2";
  second_comment = λ o. ok "c";
  is_aborted = false;
  is_aborted_with_token = false;
  is_aborted_after_comment = false;
  is_aborted_after_second = false;
  is_stopped = false;
  jitter = 17;
}

abbrev turns : List (Turn String)
turns = record { at = 4; attempt = failing } ∷ []

leased_found : find_item "i" leased_once.publish_outbox ≡ some ("j", lease "w" 10 4 the_item)
unfolding run step enqueue next_queued newest_first insert find mark_running claim_next_queued
    Dict.get Dict.set Dict.values persist_report_and_enqueue_publish persist_found published_by
    has_target claim_publish_outbox_item claim_entries claim_items find_item find_in string_dec
leased_found = refl

settle_item_lem_example :
    let item = lease "w" 10 4 the_item in
    let before = run parse calls_between leased_once in
    let after =
      settle_item redact 5 worker item (decide redact 5 worker failing item leased_once) before in
    (after ≡ before)
    ⊎ ((j' : String) × (i : PublishOutboxItem) × (find_item "i" before.publish_outbox
          ≡ some (j', item))
        × (find_item "i" after.publish_outbox ≡ some (j', i))
        × Settled 1 item i)
settle_item_lem_example =
    settle_item_lem redact 5 parse worker failing "j" (lease "w" 10 4 the_item) calls_between
      leased_once leased_found between-IsFresh

waiting-Waiting : Waiting redact worker 5 "j" the_item waiting
waiting-Waiting = record {
  inv = waiting-Inv;
  job = waiting_job;
  there = waiting_job_there;
  status = refl;
  entry = waiting_item_there;
  found = waiting_found;
  attempts = omega arith;
}

turns-AllReady : AllReady redact worker 5 "j" turns waiting
unfolding run step enqueue next_queued newest_first insert find mark_running claim_next_queued
    Dict.get Dict.set Dict.values persist_report_and_enqueue_publish persist_found published_by
    has_target claim_publish_outbox_item claim_entries claim_items find_item find_in string_dec
turns-AllReady = (
  record {
    at_start = refl;
    with_the_token = refl;
    after_comment = refl;
    after_second = refl;
    not_stopped = refl;
  },
  ((λ t e. absurd (ground arith)), tt),
  waiting_size,
  tt,
)

publication-Ends_example : Ends redact worker 5 "j" turns waiting
publication-Ends_example =
    publication-Ends redact worker 5 "j" turns the_item waiting waiting-Waiting turns-AllReady
      (omega arith)

poll_once-IsWithin_example :
    let (begun, worker', q') = poll_once redact 4 worker waiting in
    (worker'.active_claims ≡ 0 + length begun) × (worker'.active_claims ≤ 5)
poll_once-IsWithin_example = poll_once-IsWithin redact 4 worker waiting (omega arith)

-- A comment on a pull request that does not exist.
abbrev not_found : OtherError
not_found = record {
  name = some "HttpError";
  message = "Not Found";
  status = some 404;
  code = none;
  cause_code = none;
  x_ratelimit_remaining = some "4999";
  x_ratelimit_reset = none;
  retry_after = none;
}

classified-IsPermanent_example :
    ((classified redact 5 not_found).kind ≡ permanent) ↔ IsPermanent not_found
classified-IsPermanent_example = classified-IsPermanent redact 5 not_found
