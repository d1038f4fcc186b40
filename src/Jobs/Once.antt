-- ===== src/Jobs/Once.antt =====
-- About the settlement of leases and items: apps/api/src/jobQueue.ts.
use consisten_cy.Base.{
  ℕ, ◌<◌, ◌≡◌, ◌≢◌, refl, sym, ◌∙◌, subst, String, Bool, true, false, Option, none, some, List, [],
  ◌∷◌, arith, Bool-cases, Option-cases, inl, inr, ◌⊎◌, All,
}
use consisten_cy.Base.Dict
use consisten_cy.Base.Dict.{Dict}
use consisten_cy.Jobs.Data.{leased, PublishOutboxItem, ReviewJob, JobQueue, CommentStatus}
use consisten_cy.Jobs.Outbox.{find_item, replace_item, holds}
use consisten_cy.Jobs.Lease.{
  settle, Mark, success, retry, give_up, mark, mark_publish_outbox_success,
  mark_publish_outbox_retry, mark_publish_outbox_failed, completed, to_retry, given_up,
}
use consisten_cy.Jobs.Calls.{Call, step, run}
use consisten_cy.Jobs.Items.{find_item-replace, find_item-id}
use consisten_cy.Jobs.Moves.{
  Actor, Moves, same, leases, settled, IsOpen, FollowsAt, Closes, holds-leased, LetsGo-apart,
}
use consisten_cy.Jobs.Fencing.{IsFresh, step-Follows, actor_of, completed-Closes}

-- The lease of generation `g` is over: the item has been leased again, or it is not leased.
abbrev pub IsOver : ℕ → PublishOutboxItem → Type 0
IsOver g i = (g < i.lease_generation) ⊎ ((i.lease_generation ≡ g) × (i.status ≢ leased))

pub Moves-IsOver :
    {who : Actor} {i i' : PublishOutboxItem} (g : ℕ) → Moves who i i' → IsOver g i → IsOver g i'
Moves-IsOver g same h = h
Moves-IsOver g (leases owner duration now by waits) (inl h) = inl (omega arith)
Moves-IsOver g (leases owner duration now by waits) (inr h) = inl (omega (arith, h.0))
Moves-IsOver g (settled i' owner by own l e n) (inl h) = inl (omega (arith, e))
Moves-IsOver g (settled i' owner by own l e n) (inr h) = absurd (h.1 l)

-- What holds of the item of an id.
abbrev pub OfItem : (PublishOutboxItem → Type 0) → Option (String × PublishOutboxItem) → Type 0
OfItem P none = ⊥
OfItem P (some (j, i)) = P i

FollowsAt-OfItem :
    (who : Actor) (P : PublishOutboxItem → Type 0) (o o' : Option (String × PublishOutboxItem))
    → ((i i' : PublishOutboxItem) → Moves who i i' → P i → P i')
    → FollowsAt who o o'
    → OfItem P o
    → OfItem P o'
FollowsAt-OfItem who P none o' k f h = absurd h
FollowsAt-OfItem who P (some (j, i)) none k f h = absurd f
FollowsAt-OfItem who P (some (j, i)) (some (j', i')) k f h = k i i' f.1 h

module _ {R : Type 0} (parse : R → Option R) where
  pub run-OfItem :
      (P : PublishOutboxItem → Type 0) (id : String) (calls : List (Call R)) (q : JobQueue R)
      → ((who : Actor) (i i' : PublishOutboxItem) → Moves who i i' → P i → P i')
      → All (IsFresh parse id) calls
      → OfItem P (find_item id q.publish_outbox)
      → OfItem P (find_item id (run parse calls q).publish_outbox)
  unfolding run
  run-OfItem P id [] q k fresh h = h
  run-OfItem P id (call ∷ calls) q k fresh h = run-OfItem P id calls (step parse call q) k fresh.1 (
      FollowsAt-OfItem (actor_of call) P (find_item id q.publish_outbox) _ (k (actor_of call))
        (step-Follows parse id call q fresh.0) h)

settle_over :
    {R : Type 0} (id owner : String) (g : ℕ) (f : PublishOutboxItem → PublishOutboxItem)
    (advance : ReviewJob R → ReviewJob R) (comment : CommentStatus) (q : JobQueue R)
    → OfItem (IsOver g) (find_item id q.publish_outbox)
    → settle id owner g f advance comment q ≡ (false, q)
unfolding settle
settle_over id owner g f advance comment q h = elim (Option-cases (find_item id q.publish_outbox)) [
  | inl e ↦ absurd (subst (OfItem (IsOver g)) e h)
  | inr ((j, i), e) ↦
      let over : IsOver g i = subst (OfItem (IsOver g)) e h in
      elim (Option-cases (Dict.get j q.jobs)) [
        | inl n ↦ rw (settle, e, n) refl
        | inr (job, n) ↦ elim (Bool-cases (holds owner g i job.status)) [
          | inr x ↦ rw (settle, e, n, x) refl
          | inl x ↦ absurd (elim over [
            | inl later ↦ ground arith
            | inr left ↦ left.1 (holds-leased owner g i job.status x)
          ])
        ]
      ]
]

mark_over :
    {R : Type 0} (now : ℕ) (id owner : String) (g : ℕ) (m : Mark) (q : JobQueue R)
    → OfItem (IsOver g) (find_item id q.publish_outbox)
    → mark now id owner g m q ≡ (false, q)
unfolding mark mark_publish_outbox_success mark_publish_outbox_retry mark_publish_outbox_failed
mark_over now id owner g (success outcome e) q h = settle_over id owner g _ _ _ q h
mark_over now id owner g (retry error backoff) q h = settle_over id owner g _ _ _ q h
mark_over now id owner g (give_up error) q h = settle_over id owner g _ _ _ q h

settle-true :
    {R : Type 0} (id owner : String) (g : ℕ) (f : PublishOutboxItem → PublishOutboxItem)
    (advance : ReviewJob R → ReviewJob R) (comment : CommentStatus) (q : JobQueue R)
    → ((i : PublishOutboxItem) → Closes i (f i))
    → (settle id owner g f advance comment q).0 ≡ true
    → OfItem (IsOver g) (find_item id (settle id owner g f advance comment q).1.publish_outbox)
unfolding settle
settle-true id owner g f advance comment q closes h =
    elim (Option-cases (find_item id q.publish_outbox)) [
      | inl e ↦ absurd (let x : ◌≡◌ {A = Bool} false true = (rw (settle, e) at h) in ground arith)
      | inr ((j, i), e) ↦ elim (Option-cases (Dict.get j q.jobs)) [
        | inl n ↦
            absurd (let x : ◌≡◌ {A = Bool} false true = (rw (settle, e, n) at h) in ground arith)
        | inr (job, n) ↦ elim (Bool-cases (holds owner g i job.status)) [
          | inr x ↦
              absurd
                (let y : ◌≡◌ {A = Bool} false true = (rw (settle, e, n, x) at h) in ground arith)
          | inl x ↦
              let there : find_item id (replace_item id (f i) q.publish_outbox) ≡ some (j, f i) =
                find_item-replace id id (f i) q.publish_outbox
                  ((closes i).0 ∙ find_item-id id j i q.publish_outbox e)
                ∙ ground (arith, e) in
              rw (settle, e, n, x, there)
                (inr ((closes i).1 ∙ ground arith, LetsGo-apart i (f i) (closes i).2))
        ]
      ]
    ]

mark-true :
    {R : Type 0} (now : ℕ) (id owner : String) (g : ℕ) (m : Mark) (q : JobQueue R)
    → (mark now id owner g m q).0 ≡ true
    → OfItem (IsOver g) (find_item id (mark now id owner g m q).1.publish_outbox)
unfolding mark mark_publish_outbox_success mark_publish_outbox_retry mark_publish_outbox_failed
mark-true now id owner g (success outcome e) q h =
    settle-true id owner g (completed now outcome e) _ _ q (completed-Closes now outcome e) h
mark-true now id owner g (retry error backoff) q h =
    settle-true id owner g (to_retry now error backoff) _ _ q (λ i. (refl, refl, inl (refl, refl)))
      h
mark-true now id owner g (give_up error) q h =
    settle-true id owner g (given_up now error) _ _ q (λ i. (refl, refl, inr (inr (inl refl)))) h

-- A settlement that succeeds is the last one of its lease: whatever is called afterwards, if no new
-- item draws the same id, every settlement of the same lease fails and changes nothing, whoever makes
-- it and whichever it is.
pub settled_once :
    {R : Type 0} (parse : R → Option R) (now now' g : ℕ) (id owner owner' : String) (m m' : Mark)
    (calls : List (Call R)) (q : JobQueue R)
    → (mark now id owner g m q).0 ≡ true
    → All (IsFresh parse id) calls
    → mark now' id owner' g m' (run parse calls (mark now id owner g m q).1)
      ≡ (false, run parse calls (mark now id owner g m q).1)
settled_once parse now now' g id owner owner' m m' calls q h fresh =
    mark_over now' id owner' g m' _ (
      run-OfItem parse (IsOver g) id calls _ (λ who i i' moves. Moves-IsOver g moves) fresh
        (mark-true now id owner g m q h))

-- Once an item has been leased anew, a worker that still holds an earlier lease of it can settle
-- nothing, whatever is called in between, if no new item draws the same id.
pub superseded :
    {R : Type 0} (parse : R → Option R) (now g : ℕ) (id owner j : String) (i : PublishOutboxItem)
    (m : Mark) (calls : List (Call R)) (q : JobQueue R)
    → find_item id q.publish_outbox ≡ some (j, i)
    → g < i.lease_generation
    → All (IsFresh parse id) calls
    → mark now id owner g m (run parse calls q) ≡ (false, run parse calls q)
superseded parse now g id owner j i m calls q found later fresh = mark_over now id owner g m _ (
    run-OfItem parse (IsOver g) id calls q (λ who a b moves. Moves-IsOver g moves) fresh
      (subst (OfItem (IsOver g)) (sym found) (inl later)))

Moves_final :
    (who : Actor) (i a b : PublishOutboxItem) → ¬ IsOpen i.status → Moves who a b → a ≡ i → b ≡ i
Moves_final who i a b closed same e = e
Moves_final who i a b closed (leases owner duration now by waits) e =
    absurd (closed (subst (λ (x : PublishOutboxItem). IsOpen x.status) e waits))
Moves_final who i a b closed (settled b' owner by own l g n) e =
    absurd (closed (subst (λ (x : PublishOutboxItem). IsOpen x.status) e (inr (inr l))))

FollowsAt-final :
    (who : Actor) (j : String) (i : PublishOutboxItem) (o : Option (String × PublishOutboxItem))
    → ¬ IsOpen i.status
    → FollowsAt who (some (j, i)) o
    → o ≡ some (j, i)
FollowsAt-final who j i none closed f = absurd f
FollowsAt-final who j i (some (j', i')) closed f =
    λ k. some (sym f.0 k, Moves_final who i i i' closed f.1 refl k)

-- An item that is published, skipped or given up stays as it is for good, whatever is called, if no
-- new item draws the same id: it is not claimed, retried or published again.
pub final_for_good :
    {R : Type 0} (parse : R → Option R) (id j : String) (i : PublishOutboxItem)
    (calls : List (Call R)) (q : JobQueue R)
    → find_item id q.publish_outbox ≡ some (j, i)
    → ¬ IsOpen i.status
    → All (IsFresh parse id) calls
    → find_item id (run parse calls q).publish_outbox ≡ some (j, i)
unfolding run
final_for_good parse id j i [] q found closed fresh = found
final_for_good parse id j i (call ∷ calls) q found closed fresh =
    final_for_good parse id j i calls (step parse call q)
      (FollowsAt-final (actor_of call) j i _ closed (
        subst (λ o. FollowsAt (actor_of call) o (find_item id (step parse call q).publish_outbox))
          found (step-Follows parse id call q fresh.0)))
      closed fresh.1
