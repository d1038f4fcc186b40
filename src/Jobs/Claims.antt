-- ===== src/Jobs/Claims.antt =====
-- A claim in apps/api/src/jobQueue.ts keeps the agreement of the jobs and their outbox, over all
-- entries.
use consisten_cy.Base.{
  ℕ, ◌≡◌, ◌≢◌, refl, sym, subst, String, false, Option, none, some, List, [], ◌∷◌, arith,
  Option-cases, inl, inr, string_dec,
}
use consisten_cy.Base.Dict
use consisten_cy.Base.Dict.{Dict}
use consisten_cy.Jobs.Data.{
  JobStatus, queued, running, awaiting_publish, publishing, succeeded, publish_failed, cancelled,
  job_status_eq, PublishOutboxItem, ReviewJob, JobQueue,
}
use consisten_cy.Jobs.Lease.{claim_items, claim_entries, claim_publish_outbox_item}
use consisten_cy.Jobs.Invariant.{IsPublished, Agrees, Fits, Inv}
use consisten_cy.Jobs.ClaimSteps.{
  FitsAt, claim_waiting, claim_published, claim_items_quiet, claim_items_other,
  claim_entries_absent,
}

pub get_here : {V : Type 0} (j : String) (v : V) (d : Dict V) → Dict.get j ((j, v) ∷ d) ≡ some v
unfolding Dict.get
get_here j v d = ground arith

pub get_there :
    {V : Type 0} (h j : String) (v : V) (d : Dict V)
    → h ≢ j
    → Dict.get j ((h, v) ∷ d) ≡ Dict.get j d
unfolding Dict.get
get_there h j v d n = ground arith

module _ {R : Type 0} (owner : String) (duration now limit : ℕ) where
  quiet-Fits :
      (h : String) (job : ReviewJob R) (items taken : List PublishOutboxItem)
      (jobs : Dict (ReviewJob R)) (s : JobStatus)
      → Dict.get h jobs ≡ some job
      → job.status ≡ s
      → Agrees s (some items)
      → job_status_eq s awaiting_publish ≡ false
      → job_status_eq s publishing ≡ false
      → FitsAt owner duration now limit h
          (claim_items owner duration now limit h job items taken jobs)
  quiet-Fits h job items taken jobs s there e a f g =
      rw
        (
          claim_items_quiet owner duration now limit h job items taken jobs (ground arith)
              (ground arith),
          there,
          e,
        )
        a

  claim_items-Fits :
      (h : String) (job : ReviewJob R) (items taken : List PublishOutboxItem)
      (jobs : Dict (ReviewJob R)) (s : JobStatus)
      → Dict.get h jobs ≡ some job
      → job.status ≡ s
      → Agrees s (some items)
      → FitsAt owner duration now limit h
          (claim_items owner duration now limit h job items taken jobs)
  claim_items-Fits h job items taken jobs queued there e a =
      quiet-Fits h job items taken jobs queued there e a refl refl
  claim_items-Fits h job items taken jobs running there e a =
      quiet-Fits h job items taken jobs running there e a refl refl
  claim_items-Fits h job items taken jobs awaiting_publish there e w =
      let only : items ≡ w.item ∷ [] = ground (arith, w.only) in
      rw only
        (claim_waiting owner duration now limit h job w.item taken jobs there e w.target w.waiting)
  claim_items-Fits h job items taken jobs publishing there e p =
      let only : items ≡ p.item ∷ [] = ground (arith, p.only) in
      rw only (
        claim_published owner duration now limit h job p.item taken jobs there e
          (subst (λ (x : List PublishOutboxItem). IsPublished (some x)) only p) p.target)
  claim_items-Fits h job items taken jobs succeeded there e a =
      quiet-Fits h job items taken jobs succeeded there e a refl refl
  claim_items-Fits h job items taken jobs JobStatus.failed there e a =
      quiet-Fits h job items taken jobs JobStatus.failed there e a refl refl
  claim_items-Fits h job items taken jobs publish_failed there e a =
      quiet-Fits h job items taken jobs publish_failed there e a refl refl
  claim_items-Fits h job items taken jobs cancelled there e a =
      quiet-Fits h job items taken jobs cancelled there e a refl refl

  -- The first entry, after the claim.
  first-Fits :
      (h : String) (items : List PublishOutboxItem) (entries : Dict (List PublishOutboxItem))
      (taken : List PublishOutboxItem) (jobs : Dict (ReviewJob R))
      → Dict.get h entries ≡ none
      → Fits (Dict.get h jobs) (some items)
      → Fits
          (Dict.get h
            (claim_entries owner duration now limit ((h, items) ∷ entries) taken jobs).jobs)
          (Dict.get h
            (claim_entries owner duration now limit ((h, items) ∷ entries) taken jobs).items)
  unfolding claim_entries
  first-Fits h items entries taken jobs fresh f = elim (Option-cases (Dict.get h jobs)) [
    | inl e ↦ absurd (
        let wrong : ◌≡◌ {A = Option (List PublishOutboxItem)} (some items) none =
          subst (λ o. Fits o (some items)) e f in
        ground arith)
    | inr (job, e) ↦
        let own = claim_items owner duration now limit h job items taken jobs in
        let rest = claim_entries owner duration now limit entries own.taken own.jobs in
        let kept =
          claim_entries_absent owner duration now limit h entries own.taken own.jobs fresh in
        rw (claim_entries, e, kept.1, get_here h own.items rest.items)
          (claim_items-Fits h job items taken jobs job.status e refl
            (subst (λ o. Fits o (some items)) e f))
  ]

  pub claim_entries-Fits :
      (j : String) (entries : Dict (List PublishOutboxItem)) (taken : List PublishOutboxItem)
      (jobs : Dict (ReviewJob R))
      → Dict.HasDistinctKeys entries
      → Fits (Dict.get j jobs) (Dict.get j entries)
      → Fits
          (Dict.get j (claim_entries owner duration now limit entries taken jobs).jobs)
          (Dict.get j (claim_entries owner duration now limit entries taken jobs).items)
  unfolding claim_entries
  claim_entries-Fits j [] taken jobs d f = f
  claim_entries-Fits j ((h, items) ∷ entries) taken jobs d f = elim (string_dec h j) [
    | yes e ↦
        subst
          (λ (x : String).
            Fits
              (Dict.get x
                (claim_entries owner duration now limit ((h, items) ∷ entries) taken jobs).jobs)
              (Dict.get x
                (claim_entries owner duration now limit ((h, items) ∷ entries) taken jobs).items))
          e
          (first-Fits h items entries taken jobs d.0 (
            subst (λ o. Fits (Dict.get h jobs) o) (get_here h items entries)
              (subst (λ (x : String). Fits (Dict.get x jobs) (Dict.get x ((h, items) ∷ entries)))
                (sym e) f)))
    | no n ↦ elim (Option-cases (Dict.get h jobs)) [
      | inl none_there ↦
          rw
            (
              claim_entries,
              none_there,
              get_there h j items (claim_entries owner duration now limit entries taken jobs).items
                  n,
            )
            (claim_entries-Fits j entries taken jobs d.1
              (subst (λ o. Fits (Dict.get j jobs) o) (get_there h j items entries n) f))
      | inr (job, there) ↦
          let own = claim_items owner duration now limit h job items taken jobs in
          let rest = claim_entries owner duration now limit entries own.taken own.jobs in
          rw (claim_entries, there, get_there h j own.items rest.items n)
            (claim_entries-Fits j entries own.taken own.jobs d.1 (
              rw (claim_items_other owner duration now limit h j job items taken jobs n)
                (subst (λ o. Fits (Dict.get j jobs) o) (get_there h j items entries n) f)))
    ]
  ]

  claim_entries-HasDistinctKeys :
      (entries : Dict (List PublishOutboxItem)) (taken : List PublishOutboxItem)
      (jobs : Dict (ReviewJob R))
      → Dict.HasDistinctKeys entries
      → Dict.HasDistinctKeys (claim_entries owner duration now limit entries taken jobs).items
  unfolding claim_entries
  claim_entries-HasDistinctKeys [] taken jobs d = tt
  claim_entries-HasDistinctKeys ((h, items) ∷ entries) taken jobs d =
      elim (Option-cases (Dict.get h jobs)) [
        | inl e ↦
            rw (claim_entries, e)
              (
                (claim_entries_absent owner duration now limit h entries taken jobs d.0).0,
                claim_entries-HasDistinctKeys entries taken jobs d.1,
              )
        | inr (job, e) ↦
            let own = claim_items owner duration now limit h job items taken jobs in
            rw (claim_entries, e)
              (
                (claim_entries_absent owner duration now limit h entries own.taken own.jobs d.0).0,
                claim_entries-HasDistinctKeys entries own.taken own.jobs d.1,
              )
      ]

  pub claim-Inv :
      (q : JobQueue R) → Inv q → Inv (claim_publish_outbox_item owner duration now limit q).1
  unfolding claim_publish_outbox_item
  claim-Inv q v = record {
    distinct = claim_entries-HasDistinctKeys q.publish_outbox [] q.jobs v.distinct;
    fits = λ j. claim_entries-Fits j q.publish_outbox [] q.jobs v.distinct (v.fits j);
  }
