-- ===== src/Jobs/ClaimSteps.antt =====
-- A claim in apps/api/src/jobQueue.ts keeps the agreement of the jobs and their outbox.
use consisten_cy.Base.{
  ℕ, ◌+◌, ◌≡◌, ◌≢◌, refl, ◌∙◌, String, true, false, ◌&&◌, none, some, List, [], ◌∷◌, ◌++◌, arith,
  Bool-cases, Option-cases, inl, inr, ltb, length, string_dec,
}
use consisten_cy.Base.Dict
use consisten_cy.Base.Dict.{Dict}
use consisten_cy.Jobs.Data.{
  awaiting_publish, publishing, job_status_eq, PublishOutboxItem, ReviewJob,
}
use consisten_cy.Jobs.Outbox.{lease}
use consisten_cy.Jobs.Lease.{Claimed, is_claimable, publishing_from, claim_items, claim_entries}
use consisten_cy.Jobs.Invariant.{IsWaiting, IsPublished, Fits}

leased-IsPublished :
    (owner : String) (duration now : ℕ) (i : PublishOutboxItem)
    → i.target ≡ "github_comment"
    → IsPublished (some (lease owner duration now i ∷ []))
leased-IsPublished owner duration now i t = record {
  item = lease owner duration now i;
  expires = now + duration;
  only = refl;
  target = t;
  is_leased = refl;
  until = refl;
}

module _ {R : Type 0} (owner : String) (duration now limit : ℕ) where
  -- Only the job of the items is written.
  publishing_from_other :
      (h j : String) (job : ReviewJob R) (jobs : Dict (ReviewJob R))
      → h ≢ j
      → Dict.get j (publishing_from now h job jobs) ≡ Dict.get j jobs
  publishing_from_other h j job jobs apart =
      ground (arith, Dict.get-set h j (record job { status = publishing; updated_at = now }) jobs)

  pub claim_items_other :
      (h j : String) (job : ReviewJob R) (items taken : List PublishOutboxItem)
      (jobs : Dict (ReviewJob R))
      → h ≢ j
      → Dict.get j (claim_items owner duration now limit h job items taken jobs).jobs
        ≡ Dict.get j jobs
  unfolding claim_items
  claim_items_other h j job [] taken jobs apart = refl
  claim_items_other h j job (i ∷ items) taken jobs apart =
      elim (Bool-cases (ltb (length taken) limit && is_claimable now job i)) [
        | inr f ↦ rw f (claim_items_other h j job items taken jobs apart)
        | inl t ↦ rw t (
            claim_items_other h j job items (taken ++ lease owner duration now i ∷ [])
              (publishing_from now h job jobs) apart
            ∙ publishing_from_other h j job jobs apart)
      ]

  -- No job of another status is written, and none of its items is claimed.
  pub claim_items_quiet :
      (h : String) (job : ReviewJob R) (items taken : List PublishOutboxItem)
      (jobs : Dict (ReviewJob R))
      → job_status_eq job.status awaiting_publish ≡ false
      → job_status_eq job.status publishing ≡ false
      → claim_items owner duration now limit h job items taken jobs
        ≡ record { items = items; taken = taken; jobs = jobs }
  unfolding claim_items
  claim_items_quiet h job [] taken jobs a p = refl
  claim_items_quiet h job (i ∷ items) taken jobs a p =
      let no_hit : (ltb (length taken) limit && is_claimable now job i) ≡ false = ground arith in
      rw (no_hit, claim_items_quiet h job items taken jobs a p) refl

  pub claim_entries_absent :
      (j : String) (entries : Dict (List PublishOutboxItem)) (taken : List PublishOutboxItem)
      (jobs : Dict (ReviewJob R))
      → Dict.get j entries ≡ none
      → (Dict.get j (claim_entries owner duration now limit entries taken jobs).items ≡ none)
        × (Dict.get j (claim_entries owner duration now limit entries taken jobs).jobs
            ≡ Dict.get j jobs)
  unfolding claim_entries Dict.get
  claim_entries_absent j [] taken jobs e = (refl, refl)
  claim_entries_absent j ((h, items) ∷ entries) taken jobs e = elim (string_dec h j) [
    | yes same ↦ absurd (ground arith)
    | no n ↦ elim (Option-cases (Dict.get h jobs)) [
      | inl f ↦
          let rest = claim_entries_absent j entries taken jobs (ground arith) in
          rw (claim_entries, f) (ground (arith, rest.0), rest.1)
      | inr (job, f) ↦
          let own = claim_items owner duration now limit h job items taken jobs in
          let rest = claim_entries_absent j entries own.taken own.jobs (ground arith) in
          rw (claim_entries, f)
            (ground (arith, rest.0), rest.1 ∙ claim_items_other h j job items taken jobs n)
    ]
  ]

  -- One item is claimed, or not.
  pub claim_hit :
      (h : String) (job : ReviewJob R) (i : PublishOutboxItem) (taken : List PublishOutboxItem)
      (jobs : Dict (ReviewJob R))
      → (ltb (length taken) limit && is_claimable now job i) ≡ true
      → claim_items owner duration now limit h job (i ∷ []) taken jobs ≡ record {
        items = lease owner duration now i ∷ [];
        taken = taken ++ lease owner duration now i ∷ [];
        jobs = publishing_from now h job jobs;
      }
  unfolding claim_items
  claim_hit h job i taken jobs t = rw t refl

  pub claim_missed :
      (h : String) (job : ReviewJob R) (i : PublishOutboxItem) (taken : List PublishOutboxItem)
      (jobs : Dict (ReviewJob R))
      → (ltb (length taken) limit && is_claimable now job i) ≡ false
      → claim_items owner duration now limit h job (i ∷ []) taken jobs
        ≡ record { items = i ∷ []; taken = taken; jobs = jobs }
  unfolding claim_items
  claim_missed h job i taken jobs f = rw f refl

  pub publishing_from_awaiting :
      (h : String) (job : ReviewJob R) (jobs : Dict (ReviewJob R))
      → job.status ≡ awaiting_publish
      → Dict.get h (publishing_from now h job jobs)
        ≡ some (record job { status = publishing; updated_at = now })
  publishing_from_awaiting h job jobs s =
      let t : job_status_eq job.status awaiting_publish ≡ true = ground arith in
      rw t (
        ground
          (arith, Dict.get-set h h (record job { status = publishing; updated_at = now }) jobs))

  pub publishing_from_there :
      (h : String) (job : ReviewJob R) (jobs : Dict (ReviewJob R))
      → job.status ≡ publishing
      → publishing_from now h job jobs ≡ jobs
  publishing_from_there h job jobs s =
      let f : job_status_eq job.status awaiting_publish ≡ false = ground arith in rw f refl

  -- The result of the loop over the items of one job fits.
  abbrev pub FitsAt : String → Claimed R PublishOutboxItem → Type 0
  FitsAt h c = Fits (Dict.get h c.jobs) (some c.items)

  pub claim_waiting :
      (h : String) (job : ReviewJob R) (i : PublishOutboxItem) (taken : List PublishOutboxItem)
      (jobs : Dict (ReviewJob R))
      → Dict.get h jobs ≡ some job
      → job.status ≡ awaiting_publish
      → i.target ≡ "github_comment"
      → IsWaiting i.status
      → FitsAt h (claim_items owner duration now limit h job (i ∷ []) taken jobs)
  claim_waiting h job i taken jobs there s t w =
      elim (Bool-cases (ltb (length taken) limit && is_claimable now job i)) [
        | inr f ↦
            rw (claim_missed h job i taken jobs f, there, s)
              (record { item = i; only = refl; target = t; waiting = w })
        | inl x ↦
            rw (claim_hit h job i taken jobs x, publishing_from_awaiting h job jobs s)
              (leased-IsPublished owner duration now i t)
      ]

  pub claim_published :
      (h : String) (job : ReviewJob R) (p : PublishOutboxItem) (taken : List PublishOutboxItem)
      (jobs : Dict (ReviewJob R))
      → Dict.get h jobs ≡ some job
      → job.status ≡ publishing
      → IsPublished (some (p ∷ []))
      → p.target ≡ "github_comment"
      → FitsAt h (claim_items owner duration now limit h job (p ∷ []) taken jobs)
  claim_published h job p taken jobs there s v t =
      elim (Bool-cases (ltb (length taken) limit && is_claimable now job p)) [
        | inr f ↦ rw (claim_missed h job p taken jobs f, there, s) v
        | inl x ↦
            rw (claim_hit h job p taken jobs x, publishing_from_there h job jobs s, there, s)
              (leased-IsPublished owner duration now p t)
      ]
