-- ===== src/Jobs/Served.antt =====
-- About one job that is due in a claim: `claimPublishOutboxItem` of apps/api/src/jobQueue.ts.
use mathlib.Core.List.{Memᴰ}
use mathlib.Core.List.Memᴰ
use consisten_cy.Base.{
  ℕ, ◌<◌, ◌≤◌, ◌≡◌, refl, sym, ap, ◌∙◌, subst, String, true, ◌&&◌, Option, none, some, List, [],
  ◌∷◌, arith, inl, inr, ◌⊎◌, ltb, length,
}
use consisten_cy.Base.Dict
use consisten_cy.Base.Dict.{Dict}
use consisten_cy.Jobs.Data.{
  JobStatus, awaiting_publish, publishing, leased, PublishOutboxItem, ReviewJob,
}
use consisten_cy.Jobs.Outbox.{lease, is_due}
use consisten_cy.Jobs.Lease.{Claimed, is_claimable, publishing_from, claim_items, claim_entries}
use consisten_cy.Jobs.Invariant.{IsWaiting, Waits, IsPublished, Agrees}
use consisten_cy.Jobs.ClaimSteps.{
  claim_hit, publishing_from_awaiting, publishing_from_there, claim_entries_absent,
}
use consisten_cy.Jobs.Claims.{get_here}
use consisten_cy.Jobs.Room.{claim_entries-Extends}

-- The item waits and its time is reached, or its lease is over.
abbrev pub IsDue : {R : Type 0} → ℕ → ReviewJob R → PublishOutboxItem → Type 0
IsDue now job item =
    ((job.status ≡ awaiting_publish) × ((t : ℕ) → item.next_attempt_at ≡ some t → t ≤ now))
    ⊎ ((job.status ≡ publishing) × (t : ℕ) × (item.lease_expires_at ≡ some t) × (t ≤ now))

reached-is_due : (now : ℕ) (o : Option ℕ) → ((t : ℕ) → o ≡ some t → t ≤ now) → is_due now o ≡ true
reached-is_due now none d = refl
reached-is_due now (some t) d = ground (arith, d t refl)

module _ {R : Type 0} (owner : String) (duration now limit : ℕ) where
  -- The item is leased to the owner and handed out, and its job is being published.
  pub record Served (j : String) (item : PublishOutboxItem)
      (q : Claimed R (String × List PublishOutboxItem)) : Type 0 where
    pub entry : Dict.get j q.items ≡ some (lease owner duration now item ∷ [])
    pub job : ReviewJob R
    pub there : Dict.get j q.jobs ≡ some job
    pub status : job.status ≡ publishing
    pub handed : Memᴰ (lease owner duration now item) q.taken

  published_job :
      (h : String) (job : ReviewJob R) (jobs : Dict (ReviewJob R)) (item : PublishOutboxItem)
      → Dict.get h jobs ≡ some job
      → IsDue now job item
      → (job' : ReviewJob R) × (Dict.get h (publishing_from now h job jobs) ≡ some job')
        × (job'.status ≡ publishing)
  published_job h job jobs item there (inl d) = (
    record job { status = publishing; updated_at = now },
    publishing_from_awaiting owner duration now limit h job jobs d.0,
    refl,
  )
  published_job h job jobs item there (inr d) =
      (job, rw (publishing_from_there owner duration now limit h job jobs d.0) there, d.0)

  due-claimable :
      (job : ReviewJob R) (item : PublishOutboxItem)
      → Agrees job.status (some (item ∷ []))
      → IsDue now job item
      → is_claimable now job item ≡ true
  due-claimable job item a (inl (s, d)) =
      let w : Waits (some (item ∷ [])) =
        subst (λ (x : JobStatus). Agrees x (some (item ∷ []))) s a in
      let same : w.item ≡ item = ground (arith, w.only) in
      let waiting : IsWaiting item.status =
        subst (λ (x : PublishOutboxItem). IsWaiting x.status) same w.waiting in
      let due : is_due now item.next_attempt_at ≡ true =
        reached-is_due now item.next_attempt_at d in
      elim waiting [ inl e ↦ ground arith | inr e ↦ ground arith ]
  due-claimable job item a (inr (s, t, e, le)) =
      let p : IsPublished (some (item ∷ [])) =
        subst (λ (x : JobStatus). Agrees x (some (item ∷ []))) s a in
      let same : p.item ≡ item = ground (arith, p.only) in
      let is_leased : item.status ≡ leased =
        ap (λ (x : PublishOutboxItem). x.status) (sym same) ∙ p.is_leased in
      rw (s, is_leased, e) (ground arith)

  pub first-Served :
      (h : String) (item : PublishOutboxItem) (job : ReviewJob R)
      (entries : Dict (List PublishOutboxItem)) (taken : List PublishOutboxItem)
      (jobs : Dict (ReviewJob R))
      → Dict.get h entries ≡ none
      → Dict.get h jobs ≡ some job
      → Agrees job.status (some (item ∷ []))
      → IsDue now job item
      → length taken < limit
      → Served h item (claim_entries owner duration now limit ((h, item ∷ []) ∷ entries) taken jobs)
  unfolding claim_entries
  first-Served h item job entries taken jobs fresh there a d room =
      let hit : (ltb (length taken) limit && is_claimable now job item) ≡ true =
        ground (arith, due-claimable job item a d) in
      let own = claim_items owner duration now limit h job (item ∷ []) taken jobs in
      let own_is = claim_hit owner duration now limit h job item taken jobs hit in
      let rest = claim_entries owner duration now limit entries own.taken own.jobs in
      let kept = claim_entries_absent owner duration now limit h entries own.taken own.jobs fresh in
      let (job', found, s) = published_job h job jobs item there d in
      let (added, more) =
        claim_entries-Extends owner duration now limit entries own.taken own.jobs in
      rw (claim_entries, there)
        (record {
          entry =
              get_here h own.items rest.items
              ∙ ap (λ (c : Claimed R PublishOutboxItem). some c.items) own_is;
          job = job';
          there =
              kept.1 ∙ ap (λ (c : Claimed R PublishOutboxItem). Dict.get h c.jobs) own_is ∙ found;
          status = s;
          handed =
              subst (λ l. Memᴰ (lease owner duration now item) l) (sym more)
                (Memᴰ.append_left added (
                  subst
                    (λ (c : Claimed R PublishOutboxItem).
                      Memᴰ (lease owner duration now item) c.taken)
                    (sym own_is) (Memᴰ.append_right taken (Memᴰ.head refl))));
        })
