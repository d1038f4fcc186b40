-- ===== src/Jobs/Room.antt =====
-- The places that a claim takes: `claimPublishOutboxItem` of apps/api/src/jobQueue.ts.
use consisten_cy.Base.{
  ℕ, ◌+◌, ◌≤◌, ◌≡◌, refl, ap, ◌∙◌, String, false, ◌&&◌, some, List, [], ◌∷◌, ◌++◌, arith,
  Bool-cases, Option-cases, inl, inr, ltb, length, length-append,
}
use consisten_cy.Base.Dict
use consisten_cy.Base.Dict.{Dict}
use consisten_cy.Jobs.Data.{
  JobStatus, queued, running, awaiting_publish, publishing, succeeded, publish_failed, cancelled,
  job_status_eq, PublishOutboxItem, ReviewJob,
}
use consisten_cy.Jobs.Outbox.{lease}
use consisten_cy.Jobs.Lease.{is_claimable, publishing_from, claim_items, claim_entries}
use consisten_cy.Jobs.Invariant.{Agrees}
use consisten_cy.Jobs.ClaimSteps.{claim_hit, claim_missed, claim_items_quiet}

-- One list begins with the other.
abbrev pub Extends : List PublishOutboxItem → List PublishOutboxItem → Type 0
Extends taken more = (added : List PublishOutboxItem) × (more ≡ taken ++ added)

append_nil : (l : List PublishOutboxItem) → l ≡ l ++ []
append_nil [] = refl
append_nil (x ∷ l) = ap (λ r. x ∷ r) (append_nil l)

append_assoc : (a b c : List PublishOutboxItem) → (a ++ b) ++ c ≡ a ++ (b ++ c)
append_assoc [] b c = refl
append_assoc (x ∷ a) b c = ap (λ r. x ∷ r) (append_assoc a b c)

pub Extends-trans : (a b c : List PublishOutboxItem) → Extends a b → Extends b c → Extends a c
Extends-trans a b c (x, e) (y, f) = (x ++ y, f ∙ ap (λ r. r ++ y) e ∙ append_assoc a x y)

module _ {R : Type 0} (owner : String) (duration now limit : ℕ) where
  pub claim_items-Extends :
      (h : String) (job : ReviewJob R) (items taken : List PublishOutboxItem)
      (jobs : Dict (ReviewJob R))
      → Extends taken (claim_items owner duration now limit h job items taken jobs).taken
  unfolding claim_items
  claim_items-Extends h job [] taken jobs = ([], append_nil taken)
  claim_items-Extends h job (i ∷ items) taken jobs =
      elim (Bool-cases (ltb (length taken) limit && is_claimable now job i)) [
        | inr f ↦ rw f (claim_items-Extends h job items taken jobs)
        | inl t ↦ rw t (
            Extends-trans taken (taken ++ lease owner duration now i ∷ []) _
              (lease owner duration now i ∷ [], refl)
              (claim_items-Extends h job items (taken ++ lease owner duration now i ∷ [])
                (publishing_from now h job jobs)))
      ]

  pub claim_entries-Extends :
      (entries : Dict (List PublishOutboxItem)) (taken : List PublishOutboxItem)
      (jobs : Dict (ReviewJob R))
      → Extends taken (claim_entries owner duration now limit entries taken jobs).taken
  unfolding claim_entries
  claim_entries-Extends [] taken jobs = ([], append_nil taken)
  claim_entries-Extends ((h, items) ∷ entries) taken jobs = elim (Option-cases (Dict.get h jobs)) [
    | inl e ↦ rw (claim_entries, e) (claim_entries-Extends entries taken jobs)
    | inr (job, e) ↦
        let own = claim_items owner duration now limit h job items taken jobs in
        rw (claim_entries, e)
          (Extends-trans taken own.taken _ (claim_items-Extends h job items taken jobs)
            (claim_entries-Extends entries own.taken own.jobs))
  ]

  -- The entries of one job take at most one place.
  one_more :
      (h : String) (job : ReviewJob R) (i : PublishOutboxItem) (taken : List PublishOutboxItem)
      (jobs : Dict (ReviewJob R))
      → length (claim_items owner duration now limit h job (i ∷ []) taken jobs).taken
        ≤ length taken + 1
  one_more h job i taken jobs =
      elim (Bool-cases (ltb (length taken) limit && is_claimable now job i)) [
        | inr f ↦ rw (claim_missed owner duration now limit h job i taken jobs f) (omega arith)
        | inl t ↦
            rw (claim_hit owner duration now limit h job i taken jobs t)
              (omega (arith, length-append {0} taken (lease owner duration now i ∷ [])))
      ]

  quiet_more :
      (h : String) (job : ReviewJob R) (items taken : List PublishOutboxItem)
      (jobs : Dict (ReviewJob R)) (s : JobStatus)
      → job.status ≡ s
      → job_status_eq s awaiting_publish ≡ false
      → job_status_eq s publishing ≡ false
      → length (claim_items owner duration now limit h job items taken jobs).taken
        ≤ length taken + 1
  quiet_more h job items taken jobs s e f g =
      rw
        (claim_items_quiet owner duration now limit h job items taken jobs (ground arith)
          (ground arith))
        (omega arith)

  pub at_most_one :
      (h : String) (job : ReviewJob R) (items taken : List PublishOutboxItem)
      (jobs : Dict (ReviewJob R)) (s : JobStatus)
      → job.status ≡ s
      → Agrees s (some items)
      → length (claim_items owner duration now limit h job items taken jobs).taken
        ≤ length taken + 1
  at_most_one h job items taken jobs awaiting_publish e w =
      let only : items ≡ w.item ∷ [] = ground (arith, w.only) in
      rw only (one_more h job w.item taken jobs)
  at_most_one h job items taken jobs publishing e p =
      let only : items ≡ p.item ∷ [] = ground (arith, p.only) in
      rw only (one_more h job p.item taken jobs)
  at_most_one h job items taken jobs queued e a =
      quiet_more h job items taken jobs queued e refl refl
  at_most_one h job items taken jobs running e a =
      quiet_more h job items taken jobs running e refl refl
  at_most_one h job items taken jobs succeeded e a =
      quiet_more h job items taken jobs succeeded e refl refl
  at_most_one h job items taken jobs JobStatus.failed e a =
      quiet_more h job items taken jobs JobStatus.failed e refl refl
  at_most_one h job items taken jobs publish_failed e a =
      quiet_more h job items taken jobs publish_failed e refl refl
  at_most_one h job items taken jobs cancelled e a =
      quiet_more h job items taken jobs cancelled e refl refl
