-- ===== src/Jobs/Moves.antt =====
-- How calls of apps/api/src/jobQueue.ts change an item of the outbox.
use consisten_cy.Base.{
  ◌+◌, ℕ, ◌≡◌, ◌≢◌, refl, sym, ◌∙◌, subst, String, true, ◌&&◌, Option, none, some, List, [], ◌∷◌,
  ◌++◌, arith, string_dec, Bool-cases, Option-cases, inl, inr, ◌⊎◌, ltb, length,
}
use consisten_cy.Base.Dict
use consisten_cy.Base.Dict.{Dict}
use consisten_cy.Jobs.Data.{
  JobStatus, PublishOutboxStatus, leased, retrying, outbox_status_eq, PublishOutboxItem, ReviewJob,
  JobQueue, CommentStatus,
}
use consisten_cy.Jobs.Outbox.{find_in, find_item, beside, lease, holds, replace_item}
use consisten_cy.Jobs.Lease.{
  is_claimable, publishing_from, claim_items, claim_entries, claim_publish_outbox_item, settle,
}
use consisten_cy.Jobs.Status.{outbox_status_eq_lem}
use consisten_cy.Jobs.Items.{find_item-replace, find_item-id}

-- The item waits for a worker or is leased to one.
abbrev pub IsOpen : PublishOutboxStatus → Type 0
IsOpen s = (s ≡ PublishOutboxStatus.pending) ⊎ (s ≡ retrying) ⊎ (s ≡ leased)

-- The item is published, given up or skipped.
abbrev pub IsClosed : PublishOutboxStatus → Type 0
IsClosed s =
    (s ≡ PublishOutboxStatus.published)
    ⊎ (s ≡ PublishOutboxStatus.failed)
    ⊎ (s ≡ PublishOutboxStatus.skipped)

-- A lease is let go: one more attempt is counted and the item waits again, or it is closed.
abbrev pub LetsGo : PublishOutboxItem → PublishOutboxItem → Type 0
LetsGo i i' =
    ((i'.status ≡ retrying) × (i'.attempt_count ≡ i.attempt_count + 1)) ⊎ IsClosed i'.status

pub LetsGo-apart : (i i' : PublishOutboxItem) → LetsGo i i' → i'.status ≢ leased
LetsGo-apart i i' (inl (w, c)) h = absurd (ground arith)
LetsGo-apart i i' (inr (inl e)) h = absurd (ground arith)
LetsGo-apart i i' (inr (inr (inl e))) h = absurd (ground arith)
LetsGo-apart i i' (inr (inr (inr e))) h = absurd (ground arith)

-- Who makes a call: a worker that claims, a worker that settles under the generation that it was given,
-- or someone else.
pub data Actor : Type 0 where
  claimer : String → Actor
  settler : String → ℕ → Actor
  other : Actor

-- A claimer may lease the item; a settler may let go the lease that it holds.
pub data Moves (who : Actor) (i : PublishOutboxItem) : PublishOutboxItem → Type 0 where
  same : Moves who i i
  leases :
      (owner : String) (duration now : ℕ)
      → who ≡ claimer owner
      → IsOpen i.status
      → Moves who i (lease owner duration now i)
  settled :
      (i' : PublishOutboxItem) (owner : String)
      → who ≡ settler owner i.lease_generation
      → i.lease_owner ≡ some owner
      → i.status ≡ leased
      → i'.lease_generation ≡ i.lease_generation
      → LetsGo i i'
      → Moves who i i'

abbrev pub Follows : Actor → Option PublishOutboxItem → Option PublishOutboxItem → Type 0
Follows who none none = Unit
Follows who (some i) (some i') = Moves who i i'
Follows _ _ _ = ⊥

-- The item of an id stays the item of its job.
abbrev pub FollowsAt :
    Actor → Option (String × PublishOutboxItem) → Option (String × PublishOutboxItem) → Type 0
FollowsAt who none none = Unit
FollowsAt who (some (j, i)) (some (j', i')) = (j ≡ j') × Moves who i i'
FollowsAt _ _ _ = ⊥

pub FollowsAt-refl : (who : Actor) (o : Option (String × PublishOutboxItem)) → FollowsAt who o o
FollowsAt-refl who none = tt
FollowsAt-refl who (some (j, i)) = (refl, same)

Follows-refl : (who : Actor) (o : Option PublishOutboxItem) → Follows who o o
Follows-refl who none = tt
Follows-refl who (some i) = same

beside-FollowsAt :
    (who : Actor) (j : String) (o o' : Option PublishOutboxItem)
    (r r' : Option (String × PublishOutboxItem))
    → Follows who o o'
    → FollowsAt who r r'
    → FollowsAt who (beside j o r) (beside j o' r')
beside-FollowsAt who j none none r r' f g = g
beside-FollowsAt who j (some i) (some i') r r' f g = (refl, f)
beside-FollowsAt who j none (some i') r r' f g = absurd f
beside-FollowsAt who j (some i) none r r' f g = absurd f

claimable-IsOpen :
    {R : Type 0} (now : ℕ) (job : ReviewJob R) (i : PublishOutboxItem)
    → is_claimable now job i ≡ true
    → IsOpen i.status
claimable-IsOpen now job i h =
    elim (Bool-cases (outbox_status_eq i.status PublishOutboxStatus.pending)) [
      | inl e ↦ inl (outbox_status_eq_lem i.status PublishOutboxStatus.pending e)
      | inr n ↦ elim (Bool-cases (outbox_status_eq i.status retrying)) [
        | inl e ↦ inr (inl (outbox_status_eq_lem i.status retrying e))
        | inr m ↦ inr (inr (outbox_status_eq_lem i.status leased (ground arith)))
      ]
    ]

find_in_here :
    (k : String) (i : PublishOutboxItem) (items : List PublishOutboxItem)
    → i.id ≡ k
    → find_in k (i ∷ items) ≡ some i
unfolding find_in
find_in_here k i items e = ground arith

find_in_there :
    (k : String) (i : PublishOutboxItem) (items : List PublishOutboxItem)
    → i.id ≢ k
    → find_in k (i ∷ items) ≡ find_in k items
unfolding find_in
find_in_there k i items e = ground arith

cons-Follows :
    (who : Actor) (k : String) (i i' : PublishOutboxItem) (items items' : List PublishOutboxItem)
    → i'.id ≡ i.id
    → Moves who i i'
    → Follows who (find_in k items) (find_in k items')
    → Follows who (find_in k (i ∷ items)) (find_in k (i' ∷ items'))
cons-Follows who k i i' items items' e m rest = elim (string_dec i.id k) [
  | yes h ↦ rw (find_in_here k i items h, find_in_here k i' items' (e ∙ h)) m
  | no n ↦ rw (find_in_there k i items n, find_in_there k i' items' (λ h. n (sym e ∙ h))) rest
]

module _ {R : Type 0} (owner : String) (duration now limit : ℕ) where
  claim_items-Follows :
      (k j : String) (job : ReviewJob R) (items taken : List PublishOutboxItem)
      (jobs : Dict (ReviewJob R))
      → Follows
          (claimer owner)
          (find_in k items)
          (find_in k (claim_items owner duration now limit j job items taken jobs).items)
  unfolding claim_items
  claim_items-Follows k j job [] taken jobs = Follows-refl (claimer owner) (find_in k [])
  claim_items-Follows k j job (i ∷ items) taken jobs =
      elim (Bool-cases (ltb (length taken) limit && is_claimable now job i)) [
        | inr f ↦ rw f (
            cons-Follows (claimer owner) k i i items _ refl same
              (claim_items-Follows k j job items taken jobs))
        | inl t ↦ rw t (
            cons-Follows (claimer owner) k i (lease owner duration now i) items _ refl
              (leases owner duration now refl (claimable-IsOpen now job i (ground arith)))
              (claim_items-Follows k j job items (taken ++ lease owner duration now i ∷ [])
                (publishing_from now j job jobs)))
      ]

  claim_entries-Follows :
      (k : String) (entries : Dict (List PublishOutboxItem)) (taken : List PublishOutboxItem)
      (jobs : Dict (ReviewJob R))
      → FollowsAt
          (claimer owner)
          (find_item k entries)
          (find_item k (claim_entries owner duration now limit entries taken jobs).items)
  unfolding claim_entries find_item
  claim_entries-Follows k [] taken jobs = tt
  claim_entries-Follows k ((j, items) ∷ entries) taken jobs =
      elim (Option-cases (Dict.get j jobs)) [
        | inl e ↦
            rw (claim_entries, e)
              (beside-FollowsAt (claimer owner) j (find_in k items) (find_in k items) _ _
                (Follows-refl (claimer owner) (find_in k items))
                (claim_entries-Follows k entries taken jobs))
        | inr (job, e) ↦
            rw (claim_entries, e)
              (beside-FollowsAt (claimer owner) j (find_in k items) _ _ _
                (claim_items-Follows k j job items taken jobs)
                (claim_entries-Follows k entries
                  (claim_items owner duration now limit j job items taken jobs).taken
                  (claim_items owner duration now limit j job items taken jobs).jobs))
      ]

  pub claim-Follows :
      (k : String) (q : JobQueue R)
      → FollowsAt
          (claimer owner)
          (find_item k q.publish_outbox)
          (find_item k (claim_publish_outbox_item owner duration now limit q).1.publish_outbox)
  unfolding claim_publish_outbox_item
  claim-Follows k q = claim_entries-Follows k q.publish_outbox [] q.jobs

-- What a worker writes to the item of its lease.
abbrev pub Closes : PublishOutboxItem → PublishOutboxItem → Type 0
Closes i i' = (i'.id ≡ i.id) × (i'.lease_generation ≡ i.lease_generation) × LetsGo i i'

pub holds-leased :
    (owner : String) (generation : ℕ) (i : PublishOutboxItem) (status : JobStatus)
    → holds owner generation i status ≡ true
    → i.status ≡ leased
holds-leased owner generation i status h = outbox_status_eq_lem i.status leased (ground arith)

replaced-FollowsAt :
    (who : Actor) (k id j : String) (i i' : PublishOutboxItem)
    (outbox : Dict (List PublishOutboxItem))
    → find_item id outbox ≡ some (j, i)
    → i'.id ≡ id
    → Moves who i i'
    → FollowsAt who (find_item k outbox) (find_item k (replace_item id i' outbox))
replaced-FollowsAt who k id j i i' outbox found own m = elim (string_dec id k) [
  | yes e ↦
      let here : find_item k outbox ≡ some (j, i) =
        subst (λ x. find_item x outbox ≡ some (j, i)) e found in
      let there : find_item k (replace_item id i' outbox) ≡ some (j, i') =
        find_item-replace k id i' outbox own ∙ ground (arith, found) in
      rw (here, there) (refl, m)
  | no n ↦
      let there : find_item k (replace_item id i' outbox) ≡ find_item k outbox =
        find_item-replace k id i' outbox own ∙ ground arith in
      rw there (FollowsAt-refl who (find_item k outbox))
]

holds-owner :
    (owner : String) (generation : ℕ) (i : PublishOutboxItem) (status : JobStatus)
    → holds owner generation i status ≡ true
    → i.lease_owner ≡ some owner
holds-owner owner generation i status h = ground arith

held_generation :
    (owner : String) (generation : ℕ) (i : PublishOutboxItem) (status : JobStatus)
    → holds owner generation i status ≡ true
    → settler owner generation ≡ settler owner i.lease_generation
held_generation owner generation i status h = ground arith

-- A settlement moves the item of its id, if it succeeds, and no other item.
pub settle-Follows :
    {R : Type 0} (k id owner : String) (generation : ℕ) (f : PublishOutboxItem → PublishOutboxItem)
    (advance : ReviewJob R → ReviewJob R) (comment : CommentStatus) (q : JobQueue R)
    → ((i : PublishOutboxItem) → Closes i (f i))
    → FollowsAt
        (settler owner generation)
        (find_item k q.publish_outbox)
        (find_item k (settle id owner generation f advance comment q).1.publish_outbox)
unfolding settle
settle-Follows k id owner generation f advance comment q closes =
    elim (Option-cases (find_item id q.publish_outbox)) [
      | inl e ↦
          rw (settle, e) (FollowsAt-refl (settler owner generation) (find_item k q.publish_outbox))
      | inr ((j, i), e) ↦ elim (Option-cases (Dict.get j q.jobs)) [
        | inl h ↦
            rw (settle, e, h)
              (FollowsAt-refl (settler owner generation) (find_item k q.publish_outbox))
        | inr (job, h) ↦ elim (Bool-cases (holds owner generation i job.status)) [
          | inr x ↦
              rw (settle, e, h, x)
                (FollowsAt-refl (settler owner generation) (find_item k q.publish_outbox))
          | inl x ↦
              rw (settle, e, h, x)
                (replaced-FollowsAt (settler owner generation) k id j i (f i) q.publish_outbox e
                  ((closes i).0 ∙ find_item-id id j i q.publish_outbox e)
                  (settled (f i) owner (held_generation owner generation i job.status x)
                    (holds-owner owner generation i job.status x)
                    (holds-leased owner generation i job.status x) (closes i).1 (closes i).2))
        ]
      ]
    ]
