-- ===== src/Jobs/OutboxSteps.antt =====
-- The methods of apps/api/src/jobQueue.ts that write a job with its outbox keep their agreement.
use consisten_cy.Base.{
  ℕ, ◌≡◌, refl, sym, ap, ◌∙◌, subst, String, true, Option, some, List, [], ◌∷◌, arith, Bool-cases,
  Option-cases, inl, inr, string_dec,
}
use consisten_cy.Base.Dict
use consisten_cy.Base.Dict.{Dict}
use consisten_cy.Jobs.Data.{
  JobStatus, queued, running, awaiting_publish, publishing, succeeded, publish_failed, cancelled,
  PublishOutboxItem, ReviewJob, JobQueue, CommentStatus, PublicationPolicy, github_comment,
  disabled,
}
use consisten_cy.Jobs.Status.{job_status_eq_lem}
use consisten_cy.Jobs.Operations.{value_or, put_job, set_comment}
use consisten_cy.Jobs.Outbox.{
  has_target, with_item, new_item, persist_report_and_enqueue_publish, persist_found, published_by,
  awaiting, is_past, is_reportable, enqueued_publication,
}
use consisten_cy.Jobs.Outbox.{find_in, find_item, replace, replace_item, holds}
use consisten_cy.Jobs.Lease.{
  settle, Mark, success, retry, give_up, mark, mark_publish_outbox_success,
  mark_publish_outbox_retry, mark_publish_outbox_failed, to_retry,
}
use consisten_cy.Jobs.Items.{find_item-Located}
use consisten_cy.Jobs.Invariant.{
  Waits, IsPublished, Agrees, Inv, put_job-Inv, set_comment-Inv, write-Inv, fits_some,
}

reportable-Waits :
    (now : ℕ) (item_id id : String) (s : JobStatus) (o : Option (List PublishOutboxItem))
    → is_reportable s ≡ true
    → Agrees s o
    → Waits (some (with_item now item_id id (value_or o [])))
unfolding has_target
reportable-Waits now item_id id running o t a =
    rw a (record { item = new_item now item_id id; only = refl; target = refl; waiting = inl refl })
reportable-Waits now item_id id awaiting_publish o t w = rw w.only (record {
  item = w.item;
  only = ground (arith, w.target);
  target = w.target;
  waiting = w.waiting;
})
reportable-Waits now item_id id queued o t a = cc
reportable-Waits now item_id id publishing o t a = cc
reportable-Waits now item_id id succeeded o t a = cc
reportable-Waits now item_id id JobStatus.failed o t a = cc
reportable-Waits now item_id id publish_failed o t a = cc
reportable-Waits now item_id id cancelled o t a = cc

module _ {R : Type 0} where
  enlist-Inv :
      (now : ℕ) (item_id id : String) (report : R) (job : ReviewJob R) (q : JobQueue R)
      → Dict.get id q.jobs ≡ some job
      → is_reportable job.status ≡ true
      → Inv q
      → Inv (enqueued_publication now item_id id report job q).1
  enlist-Inv now item_id id report job q e t v = set_comment-Inv id _ _ (
      write-Inv id (awaiting now report job) _ q
        (reportable-Waits now item_id id job.status (Dict.get id q.publish_outbox) t
          (fits_some id job q e v))
        v)

  published_by-Inv :
      (policy : PublicationPolicy) (now : ℕ) (item_id id : String) (report : R) (job : ReviewJob R)
      (q : JobQueue R)
      → Dict.get id q.jobs ≡ some job
      → is_reportable job.status ≡ true
      → Inv q
      → Inv (published_by policy now item_id id report job q).1
  unfolding published_by
  published_by-Inv disabled now item_id id report job q e t v =
      set_comment-Inv id _ _ (put_job-Inv id _ q tt v)
  published_by-Inv github_comment now item_id id report job q e t v =
      enlist-Inv now item_id id report job q e t v

  persist_found-Inv :
      (parse : R → Option R) (now : ℕ) (item_id id : String) (report : R) (job : ReviewJob R)
      (q : JobQueue R)
      → Dict.get id q.jobs ≡ some job
      → Inv q
      → Inv (persist_found parse now item_id id report job q).1
  unfolding persist_found
  persist_found-Inv parse now item_id id report job q e v = elim (Bool-cases (is_past job.status)) [
    | inl t ↦ rw t v
    | inr f ↦ elim (Bool-cases (is_reportable job.status)) [
      | inr n ↦ rw (f, n) v
      | inl t ↦ elim (Option-cases (parse report)) [
        | inl p ↦ rw (f, t, p) v
        | inr (r, p) ↦
            rw (f, t, p) (published_by-Inv job.publication_policy now item_id id r job q e t v)
      ]
    ]
  ]

  pub persist-Inv :
      (parse : R → Option R) (now : ℕ) (item_id id : String) (report : R) (q : JobQueue R)
      → Inv q
      → Inv (persist_report_and_enqueue_publish parse now item_id id report q).1
  unfolding persist_report_and_enqueue_publish
  persist-Inv parse now item_id id report q v = elim (Option-cases (Dict.get id q.jobs)) [
    | inl e ↦ rw (persist_report_and_enqueue_publish, e) v
    | inr (job, e) ↦
        rw (persist_report_and_enqueue_publish, e)
          (persist_found-Inv parse now item_id id report job q e v)
  ]

pub find_only :
    (id : String) (own i new : PublishOutboxItem)
    → find_in id (own ∷ []) ≡ some i
    → (own ≡ i) × (replace id new (own ∷ []) ≡ new ∷ [])
unfolding find_in replace
find_only id own i new h = elim (string_dec own.id id) [
  | yes e ↦ (ground arith, ground arith)
  | no n ↦ absurd (ground arith)
]

-- What a settlement writes to the item agrees with what it writes to the job.
abbrev pub Settles :
    {R : Type 0} → (PublishOutboxItem → PublishOutboxItem) → (ReviewJob R → ReviewJob R) → Type 0
Settles {R} f advance =
    (i : PublishOutboxItem) (job : ReviewJob R)
    → i.target ≡ "github_comment"
    → Agrees (advance job).status (some (f i ∷ []))

module _ {R : Type 0} where
  settle_found :
      (id j : String) (f : PublishOutboxItem → PublishOutboxItem)
      (advance : ReviewJob R → ReviewJob R) (comment : CommentStatus) (i : PublishOutboxItem)
      (job : ReviewJob R) (q : JobQueue R)
      → Settles f advance
      → find_item id q.publish_outbox ≡ some (j, i)
      → Dict.get j q.jobs ≡ some job
      → job.status ≡ publishing
      → Inv q
      → Inv (
          set_comment j comment (
            put_job j
              (advance job)
              (record q { publish_outbox = replace_item id (f i) q.publish_outbox })))
  settle_found id j f advance comment i job q s found there status v =
      let l = find_item-Located id j i q.publish_outbox v.distinct found in
      let p : IsPublished (Dict.get j q.publish_outbox) =
        subst (λ (x : JobStatus). Agrees x (Dict.get j q.publish_outbox)) status
          (fits_some j job q there v) in
      let only : l.items ≡ p.item ∷ [] = ground (arith, l.entry, p.only) in
      let own = find_only id p.item i (f i) (ap (find_in id) (sym only) ∙ l.found) in
      let target : i.target ≡ "github_comment" =
        ap (λ (x : PublishOutboxItem). x.target) (sym own.0) ∙ p.target in
      rw (l.written (f i), only, own.1)
        (set_comment-Inv j comment _ (write-Inv j (advance job) (f i ∷ []) q (s i job target) v))

  settle-Inv :
      (id owner : String) (g : ℕ) (f : PublishOutboxItem → PublishOutboxItem)
      (advance : ReviewJob R → ReviewJob R) (comment : CommentStatus) (q : JobQueue R)
      → Settles f advance
      → Inv q
      → Inv (settle id owner g f advance comment q).1
  unfolding settle
  settle-Inv id owner g f advance comment q s v =
      elim (Option-cases (find_item id q.publish_outbox)) [
        | inl e ↦ rw (settle, e) v
        | inr ((j, i), e) ↦ elim (Option-cases (Dict.get j q.jobs)) [
          | inl n ↦ rw (settle, e, n) v
          | inr (job, n) ↦ elim (Bool-cases (holds owner g i job.status)) [
            | inr x ↦ rw (settle, e, n, x) v
            | inl x ↦
                rw (settle, e, n, x)
                  (settle_found id j f advance comment i job q s e n
                    (job_status_eq_lem job.status publishing (ground arith)) v)
          ]
        ]
      ]

  pub mark-Inv :
      (now : ℕ) (id owner : String) (g : ℕ) (m : Mark) (q : JobQueue R)
      → Inv q
      → Inv (mark now id owner g m q).1
  unfolding mark mark_publish_outbox_success mark_publish_outbox_retry mark_publish_outbox_failed
  mark-Inv now id owner g (success outcome e) q v = settle-Inv id owner g _ _ _ q (λ i job t. tt) v
  mark-Inv now id owner g (retry error backoff) q v =
      settle-Inv id owner g (to_retry now error backoff) _ _ q
        (λ i job t. record {
          item = to_retry now error backoff i;
          only = refl;
          target = t;
          waiting = inr refl;
        })
        v
  mark-Inv now id owner g (give_up error) q v = settle-Inv id owner g _ _ _ q (λ i job t. tt) v
