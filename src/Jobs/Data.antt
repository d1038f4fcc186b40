-- ===== src/Jobs/Data.antt =====
-- Jobs, outbox items and the queue's state: the types of apps/api/src/jobQueue.ts and the fields of
-- `InMemoryJobQueue`, with `publishOutboxItemSchema` of packages/schema/src/job.ts. A report is of any
-- type.
use consisten_cy.Base.{ℕ, String, Bool, Option, List, ◌==◌}
use consisten_cy.Base.Dict.{Dict}

pub data JobStatus : Type 0 where
  queued running awaiting_publish publishing succeeded failed publish_failed cancelled : JobStatus

pub data PublishOutboxStatus : Type 0 where
  pending leased retrying published failed skipped : PublishOutboxStatus

pub data ReviewJobKind : Type 0 where
  pull_request push : ReviewJobKind

pub data ReviewAccessMode : Type 0 where
  github_app public_read local_git : ReviewAccessMode

pub data PublicationPolicy : Type 0 where
  github_comment disabled : PublicationPolicy

pub data WebhookDeliveryStatus : Type 0 where
  enqueued ignored failed : WebhookDeliveryStatus

pub data GitHubCommentStatus : Type 0 where
  pending published failed skipped : GitHubCommentStatus

pub record ReviewJob (R : Type 0) : Type 0 where
  pub id : String
  pub kind : ReviewJobKind
  pub status : JobStatus
  pub delivery_id : Option String
  pub repository : String
  pub repository_id : Option String
  pub repo_path : Option String
  pub installation_id : Option ℕ
  pub access_mode : ReviewAccessMode
  pub sender_login : Option String
  pub action : Option String
  pub pull_request_number : Option ℕ
  pub base_sha : Option String
  pub head_sha : Option String
  pub ref : Option String
  pub publication_policy : PublicationPolicy
  pub llm_provider : Option String
  pub llm_model : Option String
  pub created_at : ℕ
  pub updated_at : ℕ
  pub started_at : Option ℕ
  pub finished_at : Option ℕ
  pub result : Option R
  pub error : Option String

pub record CreateReviewJobInput (R : Type 0) : Type 0 where
  pub kind : ReviewJobKind
  pub delivery_id : Option String
  pub repository : String
  pub repository_id : Option String
  pub repo_path : Option String
  pub installation_id : Option ℕ
  pub access_mode : Option ReviewAccessMode
  pub sender_login : Option String
  pub action : Option String
  pub pull_request_number : Option ℕ
  pub base_sha : Option String
  pub head_sha : Option String
  pub ref : Option String
  pub publication_policy : Option PublicationPolicy
  pub llm_provider : Option String
  pub llm_model : Option String
  pub started_at : Option ℕ
  pub finished_at : Option ℕ
  pub result : Option R
  pub error : Option String

pub record WebhookDelivery : Type 0 where
  pub delivery_id : String
  pub event : String
  pub action : Option String
  pub received_at : ℕ
  pub status : WebhookDeliveryStatus

-- The delivery of an input, before it is received.
pub record DeliveryInput : Type 0 where
  pub delivery_id : String
  pub event : String
  pub action : Option String

pub record WebhookJobInput (R : Type 0) : Type 0 where
  pub delivery : DeliveryInput
  pub job : CreateReviewJobInput R

pub record WebhookAcceptance (R : Type 0) : Type 0 where
  pub duplicate : Bool
  pub delivery : WebhookDelivery
  pub job : Option (ReviewJob R)

pub record CommentStatus : Type 0 where
  pub status : GitHubCommentStatus
  pub error : Option String

pub record PublishOutboxItem : Type 0 where
  pub id : String
  pub job_id : String
  pub target : String
  pub status : PublishOutboxStatus
  pub attempt_count : ℕ
  pub next_attempt_at : Option ℕ
  pub lease_owner : Option String
  pub lease_expires_at : Option ℕ
  pub lease_generation : ℕ
  pub last_error : Option String
  pub external_id : Option String
  pub created_at : ℕ
  pub updated_at : ℕ

pub record JobQueue (R : Type 0) : Type 0 where
  pub jobs : Dict (ReviewJob R)
  pub deliveries : Dict WebhookDelivery
  pub comment_statuses : Dict CommentStatus
  pub publish_outbox : Dict (List PublishOutboxItem)

-- What is thrown: the job is unknown, its status does not allow the call, or the schema refuses the
-- report.
pub data JobFault : Type 0 where
  job_not_found : String → JobFault
  invalid_job_status : JobStatus → JobFault
  invalid_report : JobFault

-- `a === b` on the statuses, by their places.
abbrev pub job_status_rank : JobStatus → ℕ
job_status_rank queued = 0
job_status_rank running = 1
job_status_rank awaiting_publish = 2
job_status_rank publishing = 3
job_status_rank succeeded = 4
job_status_rank failed = 5
job_status_rank publish_failed = 6
job_status_rank cancelled = 7

abbrev pub job_status_eq : JobStatus → JobStatus → Bool
job_status_eq a b = job_status_rank a == job_status_rank b

abbrev pub outbox_status_rank : PublishOutboxStatus → ℕ
outbox_status_rank PublishOutboxStatus.pending = 0
outbox_status_rank leased = 1
outbox_status_rank retrying = 2
outbox_status_rank PublishOutboxStatus.published = 3
outbox_status_rank PublishOutboxStatus.failed = 4
outbox_status_rank PublishOutboxStatus.skipped = 5

abbrev pub outbox_status_eq : PublishOutboxStatus → PublishOutboxStatus → Bool
outbox_status_eq a b = outbox_status_rank a == outbox_status_rank b
