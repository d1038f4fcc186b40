-- ===== src/Jobs/Progress.antt =====
-- About what a claim serves: `claimPublishOutboxItem` of apps/api/src/jobQueue.ts.
use mathlib.Core.List.{Memᴰ}
use consisten_cy.Base.{
  ℕ, ◌+◌, ◌≤◌, ◌≡◌, ◌≢◌, refl, sym, ◌∙◌, subst, String, none, some, List, [], ◌∷◌, arith,
  Option-cases, inl, inr, length, string_dec,
}
use consisten_cy.Base.Dict
use consisten_cy.Base.Dict.{Dict}
use consisten_cy.Jobs.Data.{publishing, PublishOutboxItem, ReviewJob, JobQueue}
use consisten_cy.Jobs.Outbox.{lease}
use consisten_cy.Jobs.Lease.{claim_items, claim_entries, claim_publish_outbox_item}
use consisten_cy.Jobs.Invariant.{Agrees, Fits, Inv}
use consisten_cy.Jobs.ClaimSteps.{claim_items_other}
use consisten_cy.Jobs.Claims.{get_here, get_there}
use consisten_cy.Jobs.Room.{at_most_one}
use consisten_cy.Jobs.Served.{IsDue, Served, first-Served}

absent_apart :
    {V : Type 0} (h j : String) (entries : Dict V) (v : V)
    → Dict.get h entries ≡ none
    → Dict.get j entries ≡ some v
    → h ≢ j
absent_apart h j entries v e f same =
    let found : Dict.get h entries ≡ some v =
      subst (λ (x : String). Dict.get x entries ≡ some v) (sym same) f in
    absurd (ground arith)

get_nothing : {V : Type 0} (j : String) → Dict.get {V = V} j [] ≡ none
unfolding Dict.get
get_nothing j = refl

nothing_fits : (items : List PublishOutboxItem) → ¬ (some items ≡ none)
nothing_fits items e = absurd (ground arith)

module _ {R : Type 0} (owner : String) (duration now limit : ℕ) where
  -- The entries fit the jobs, and there is room for one item of each.
  record HasRoom (entries : Dict (List PublishOutboxItem)) (taken : List PublishOutboxItem)
      (jobs : Dict (ReviewJob R)) : Type 0 where
    pub distinct : Dict.HasDistinctKeys entries
    pub fits :
        (j : String) (items : List PublishOutboxItem)
        → Dict.get j entries ≡ some items
        → Fits (Dict.get j jobs) (some items)
    pub room : length taken + Dict.size entries ≤ limit

  rest-HasRoom :
      (h : String) (items taken : List PublishOutboxItem) (entries : Dict (List PublishOutboxItem))
      (jobs : Dict (ReviewJob R)) (job : ReviewJob R)
      → Dict.get h jobs ≡ some job
      → HasRoom ((h, items) ∷ entries) taken jobs
      → HasRoom entries
          (claim_items owner duration now limit h job items taken jobs).taken
          (claim_items owner duration now limit h job items taken jobs).jobs
  unfolding Dict.size
  rest-HasRoom h items taken entries jobs job there v =
      let a : Agrees job.status (some items) =
        subst (λ o. Fits o (some items)) there (v.fits h items (get_here h items entries)) in
      record {
        distinct = v.distinct.1;
        fits = λ j own f.
            let apart = absent_apart h j entries own v.distinct.0 f in
            rw (claim_items_other owner duration now limit h j job items taken jobs apart)
              (v.fits j own (get_there h j items entries apart ∙ f));
        room = omega (
          arith,
          v.room,
          at_most_one owner duration now limit h job items taken jobs job.status refl a,
        );
      }

  serve :
      (j : String) (item : PublishOutboxItem) (job : ReviewJob R)
      (entries : Dict (List PublishOutboxItem)) (taken : List PublishOutboxItem)
      (jobs : Dict (ReviewJob R))
      → HasRoom entries taken jobs
      → Dict.get j entries ≡ some (item ∷ [])
      → Dict.get j jobs ≡ some job
      → IsDue now job item
      → Served owner duration now limit j item
          (claim_entries owner duration now limit entries taken jobs)
  unfolding claim_entries Dict.size
  serve j item job [] taken jobs v e there d =
      absurd (nothing_fits (item ∷ []) (sym e ∙ get_nothing j))
  serve j item job ((h, items) ∷ entries) taken jobs v e there d = elim (string_dec h j) [
    | yes same ↦
        let there' : Dict.get h jobs ≡ some job =
          subst (λ (x : String). Dict.get x jobs ≡ some job) (sym same) there in
        let only : items ≡ item ∷ [] =
          (let both : some items ≡ some (item ∷ []) =
              sym (get_here h items entries)
              ∙ subst (λ (x : String). Dict.get x ((h, items) ∷ entries) ≡ some (item ∷ []))
                  (sym same) e in
            ground arith) in
        let a : Agrees job.status (some (item ∷ [])) =
          subst (λ (x : List PublishOutboxItem). Agrees job.status (some x)) only
            (subst (λ o. Fits o (some items)) there' (v.fits h items (get_here h items entries))) in
        subst
          (λ (x : String).
            Served owner duration now limit x item
              (claim_entries owner duration now limit ((h, items) ∷ entries) taken jobs))
          same
          (subst
            (λ (x : List PublishOutboxItem).
              Served owner duration now limit h item
                (claim_entries owner duration now limit ((h, x) ∷ entries) taken jobs))
            (sym only)
            (first-Served owner duration now limit h item job entries taken jobs v.distinct.0 there'
              a d (omega (arith, v.room))))
    | no n ↦ elim (Option-cases (Dict.get h jobs)) [
      | inl f ↦ absurd (
          nothing_fits items
            (subst (λ o. Fits o (some items)) f (v.fits h items (get_here h items entries))))
      | inr (other, f) ↦
          let own = claim_items owner duration now limit h other items taken jobs in
          let rest = claim_entries owner duration now limit entries own.taken own.jobs in
          let s =
            serve j item job entries own.taken own.jobs
              (rest-HasRoom h items taken entries jobs other f v)
              (sym (get_there h j items entries n) ∙ e)
              (claim_items_other owner duration now limit h j other items taken jobs n ∙ there) d in
          rw (claim_entries, f)
            (record {
              entry = get_there h j own.items rest.items n ∙ s.entry;
              job = s.job;
              there = s.there;
              status = s.status;
              handed = s.handed;
            })
    ]
  ]

-- In a queue whose jobs and outbox agree no publication is stuck: if the item of a job waits and its
-- time is reached, or its lease is over, a claim with room for all entries leases it to the worker,
-- hands it out, and leaves its job as being published.
pub claim_progress :
    {R : Type 0} (owner : String) (duration now limit : ℕ) (j : String) (item : PublishOutboxItem)
    (job : ReviewJob R) (q : JobQueue R)
    → Inv q
    → Dict.get j q.jobs ≡ some job
    → Dict.get j q.publish_outbox ≡ some (item ∷ [])
    → IsDue now job item
    → Dict.size q.publish_outbox ≤ limit
    → let (taken, q') = claim_publish_outbox_item owner duration now limit q in
      (job' : ReviewJob R) × (Dict.get j q'.jobs ≡ some job')
      × (job'.status ≡ publishing)
      × (Dict.get j q'.publish_outbox ≡ some (lease owner duration now item ∷ []))
      × Memᴰ (lease owner duration now item) taken
unfolding claim_publish_outbox_item
claim_progress owner duration now limit j item job q v there entry due room =
    let s =
      serve owner duration now limit j item job q.publish_outbox [] q.jobs
        (record {
          distinct = v.distinct;
          fits = λ k items f. subst (λ o. Fits (Dict.get k q.jobs) o) f (v.fits k);
          room = omega arith;
        })
        entry there due in
    (s.job, s.there, s.status, s.entry, s.handed)
