-- ===== src/Jobs/Protocol.antt =====
-- About the publication of one comment as a protocol of leases, for the outbox of
-- apps/api/src/jobQueue.ts.
use consisten_cy.Base.{
  ◌⊎◌, ℕ, ◌+◌, ◌≡◌, refl, sym, ap, ◌∙◌, subst, String, Option, none, some, List, [], ◌∷◌, inl, inr,
  All,
}
use consisten_cy.Jobs.Data.{PublishOutboxStatus, leased, retrying, PublishOutboxItem, JobQueue}
use consisten_cy.Jobs.Operations.{value_or}
use consisten_cy.Jobs.Outbox.{find_item, lease}
use consisten_cy.Jobs.Calls.{Call, step, run}
use consisten_cy.Jobs.Moves.{
  Actor, claimer, settler, Moves, same, leases, settled, IsOpen, IsClosed, LetsGo, FollowsAt,
}
use consisten_cy.Jobs.Fencing.{IsFresh, step-Follows, actor_of}

-- A publication waits, after some attempts and leases; or one worker holds its lease of some
-- generation; or it is over.
pub data Publication : Type 0 where
  waits : (attempts generation : ℕ) → Publication
  held : (attempts generation : ℕ) → String → Publication
  over : Publication

-- A lease is granted to the worker that claims, or taken over by it, under the next generation; its
-- holder alone, under the generation of its lease, puts the publication back with one more attempt, or
-- ends it.
pub data Transition : Actor → Publication → Publication → Type 0 where
  grants :
      {a g : ℕ} (owner : String) → Transition (claimer owner) (waits a g) (held a (g + 1) owner)
  takes_over :
      {a g : ℕ} {owner : String} (owner' : String)
      → Transition (claimer owner') (held a g owner) (held a (g + 1) owner')
  puts_back :
      {a g : ℕ} {owner : String} → Transition (settler owner g) (held a g owner) (waits (a + 1) g)
  ends : {a g : ℕ} {owner : String} → Transition (settler owner g) (held a g owner) over

-- One actor makes a transition or none.
abbrev pub Makes : Actor → Publication → Publication → Type 0
Makes who p p' = (p ≡ p') ⊎ Transition who p p'

-- The calls one after the other, each with at most one transition, by the one who makes the call.
abbrev pub Reaches : {R : Type 0} → List (Call R) → Publication → Publication → Type 0
Reaches [] p r = p ≡ r
Reaches (call ∷ calls) p r = (p' : Publication) × Makes (actor_of call) p p' × Reaches calls p' r

-- The publication that an item stands for: times, errors and the comment's id are forgotten.
abbrev pub publication_by : PublishOutboxStatus → PublishOutboxItem → Publication
publication_by PublishOutboxStatus.pending i = waits i.attempt_count i.lease_generation
publication_by retrying i = waits i.attempt_count i.lease_generation
publication_by leased i = held i.attempt_count i.lease_generation (value_or i.lease_owner "")
publication_by PublishOutboxStatus.published i = over
publication_by PublishOutboxStatus.failed i = over
publication_by PublishOutboxStatus.skipped i = over

abbrev pub publication : PublishOutboxItem → Publication
publication i = publication_by i.status i

by_status :
    (i : PublishOutboxItem) (s : PublishOutboxStatus)
    → i.status ≡ s
    → publication i ≡ publication_by s i
by_status i s e = ap (λ x. publication_by x i) e

closed-over : (i : PublishOutboxItem) → IsClosed i.status → publication i ≡ over
closed-over i (inl e) = by_status i _ e
closed-over i (inr (inl e)) = by_status i _ e
closed-over i (inr (inr e)) = by_status i _ e

leases-Makes :
    (i : PublishOutboxItem) (owner : String) (duration now : ℕ)
    → IsOpen i.status
    → Makes (claimer owner) (publication i) (publication (lease owner duration now i))
leases-Makes i owner duration now (inl e) = rw (by_status i _ e) (inr (grants owner))
leases-Makes i owner duration now (inr (inl e)) = rw (by_status i _ e) (inr (grants owner))
leases-Makes i owner duration now (inr (inr e)) = rw (by_status i _ e) (inr (takes_over owner))

settled-Makes :
    (i i' : PublishOutboxItem) (owner : String)
    → i.lease_owner ≡ some owner
    → i.status ≡ leased
    → i'.lease_generation ≡ i.lease_generation
    → LetsGo i i'
    → Makes (settler owner i.lease_generation) (publication i) (publication i')
settled-Makes i i' owner own l g (inr c) =
    let before : publication i ≡ held i.attempt_count i.lease_generation owner =
      by_status i _ l ∙ ap (λ o. held i.attempt_count i.lease_generation (value_or o "")) own in
    rw (before, closed-over i' c) (inr ends)
settled-Makes i i' owner own l g (inl (w, a)) =
    let before : publication i ≡ held i.attempt_count i.lease_generation owner =
      by_status i _ l ∙ ap (λ o. held i.attempt_count i.lease_generation (value_or o "")) own in
    let back : publication i' ≡ waits (i.attempt_count + 1) i.lease_generation =
      by_status i' _ w
      ∙ ap (λ n. waits n i'.lease_generation) a
      ∙ ap (λ n. waits (i.attempt_count + 1) n) g in
    rw (before, back) (inr puts_back)

Moves-Makes :
    {i i' : PublishOutboxItem} (who : Actor)
    → Moves who i i'
    → Makes who (publication i) (publication i')
Moves-Makes who same = inl refl
Moves-Makes {i} who (leases owner duration now by w) =
    subst (λ x. Makes x (publication i) (publication (lease owner duration now i))) (sym by)
      (leases-Makes i owner duration now w)
Moves-Makes {i} who (settled i' owner by own l g n) =
    subst (λ x. Makes x (publication i) (publication i')) (sym by)
      (settled-Makes i i' owner own l g n)

-- The item of an id after some calls, for the job that it had, and how its publication got there.
pub record Refines {R : Type 0} (calls : List (Call R)) (id j : String) (i : PublishOutboxItem)
    (q : JobQueue R) : Type 0 where
  pub item : PublishOutboxItem
  pub found : find_item id q.publish_outbox ≡ some (j, item)
  pub reaches : Reaches calls (publication i) (publication item)

-- The same for one step.
record Steps {R : Type 0} (who : Actor) (id j : String) (i : PublishOutboxItem) (q : JobQueue R)
    : Type 0 where
  pub item : PublishOutboxItem
  pub found : find_item id q.publish_outbox ≡ some (j, item)
  pub makes : Makes who (publication i) (publication item)

step-Steps :
    {R : Type 0} (who : Actor) (id j : String) (i : PublishOutboxItem) (q : JobQueue R)
    (o : Option (String × PublishOutboxItem))
    → find_item id q.publish_outbox ≡ o
    → FollowsAt who (some (j, i)) o
    → Steps who id j i q
step-Steps who id j i q none e f = absurd f
step-Steps who id j i q (some (j', i')) e f = record {
  item = i';
  found = e ∙ ap (λ x. some (x, i')) (sym f.0);
  makes = Moves-Makes who f.1;
}

-- The outbox refines the protocol of leases: whatever is called of the queue, if no new item draws the
-- same id, the item of an id remains the item of its job, and each call makes at most one transition of
-- its publication: a worker's claim leases it to that worker under the next generation, be it free or
-- held; a settlement by its holder, under the generation of the lease, puts it back with one more
-- attempt counted or ends it; every other call, a settlement by another worker or under another
-- generation included, makes none.
pub run-Refines :
    {R : Type 0} (parse : R → Option R) (id j : String) (i : PublishOutboxItem)
    (calls : List (Call R)) (q : JobQueue R)
    → find_item id q.publish_outbox ≡ some (j, i)
    → All (IsFresh parse id) calls
    → Refines calls id j i (run parse calls q)
unfolding run
run-Refines parse id j i [] q found fresh = record { item = i; found = found; reaches = refl }
run-Refines parse id j i (call ∷ calls) q found fresh =
    let after = step parse call q in
    let next = step-Steps (actor_of call) id j i after (find_item id after.publish_outbox) refl (
      subst (λ o. FollowsAt (actor_of call) o (find_item id after.publish_outbox)) found
        (step-Follows parse id call q fresh.0)) in
    let rest = run-Refines parse id j next.item calls after next.found fresh.1 in
    record {
      item = rest.item;
      found = rest.found;
      reaches = (publication next.item, next.makes, rest.reaches);
    }
