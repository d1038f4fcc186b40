-- ===== src/Publish/Data.antt =====
-- The state of `PublishWorker` in apps/api/src/publish/worker.ts, what it is made from, and what one
-- attempt gets from outside.
use consisten_cy.Base.{
  ℕ, ◌+◌, String, Bool, true, false, Option, Result, ok, err, leb, if◌then◌else◌,
}
use consisten_cy.Jobs.Data.{ReviewJob}
use consisten_cy.Jobs.Operations.{value_or}
use consisten_cy.Publish.Error.{Thrown}

pub record PublishWorkerDependencies : Type 0 where
  pub poll_interval : Option ℕ
  pub lease_duration : Option ℕ
  pub publish_timeout : Option ℕ
  pub safety_margin : Option ℕ
  pub max_attempts : Option ℕ
  pub concurrency : Option ℕ
  pub backoff_calculator : Option (ℕ → ℕ)
  pub worker_id : Option String

pub record PublishWorker : Type 0 where
  pub poll_interval : ℕ
  pub lease_duration : ℕ
  pub publish_timeout : ℕ
  pub max_attempts : ℕ
  pub concurrency : ℕ
  pub backoff_calculator : Option (ℕ → ℕ)
  pub worker_id : String
  pub running : Bool
  pub active_claims : ℕ

-- The lease is not longer than the time to publish and the margin.
pub data WorkerFault : Type 0 where
  lease_too_short : ℕ → ℕ → WorkerFault

abbrev of_dependencies : String → PublishWorkerDependencies → PublishWorker
of_dependencies drawn_id deps = record {
  poll_interval = value_or deps.poll_interval 1000;
  lease_duration = value_or deps.lease_duration 30000;
  publish_timeout = value_or deps.publish_timeout 15000;
  max_attempts = value_or deps.max_attempts 3;
  concurrency = value_or deps.concurrency 1;
  backoff_calculator = deps.backoff_calculator;
  worker_id = value_or deps.worker_id drawn_id;
  running = false;
  active_claims = 0;
}

unfoldable pub construct : String → PublishWorkerDependencies → Result WorkerFault PublishWorker
construct drawn_id deps =
    let worker = of_dependencies drawn_id deps in
    let needed = worker.publish_timeout + value_or deps.safety_margin 5000 in
    if leb worker.lease_duration needed
    then err (lease_too_short worker.lease_duration needed)
    else ok worker

abbrev pub start : PublishWorker → PublishWorker
start worker = record worker { running = true }

abbrev pub stop : PublishWorker → PublishWorker
stop worker = record worker { running = false }

pub record PublishToGitHubOptions (R : Type 0) : Type 0 where
  pub report : R
  pub repository_full_name : String
  pub pull_request_number : Option ℕ
  pub token : String
  pub external_id : Option String

-- What one attempt gets: the tokens and the comment's ids or what was thrown instead, whether its signal
-- was aborted at each of the places where that is asked, whether it was aborted by `stop` at last, and
-- the random part of the default backoff.
pub record Attempt (R : Type 0) : Type 0 where
  pub token : ReviewJob R → Result Thrown String
  pub comment : PublishToGitHubOptions R → Result Thrown String
  pub fresh_token : ReviewJob R → Result Thrown String
  pub second_comment : PublishToGitHubOptions R → Result Thrown String
  pub is_aborted : Bool
  pub is_aborted_with_token : Bool
  pub is_aborted_after_comment : Bool
  pub is_aborted_after_second : Bool
  pub is_stopped : Bool
  pub jitter : ℕ

-- How an attempt ends before it is settled: it leaves, it has a comment, or something is thrown while
-- some token is held.
pub data Ending : Type 0 where
  left : Ending
  commented : String → Ending
  thrown : Thrown → Option String → Ending
