-- ===== src/Commit/Once.antt =====
-- At most one intent is accepted for a key: packages/kernel/src/commit/coordinator.ts.
use consisten_cy.Base.{
  ℕ, ◌≡◌, refl, sym, ap, String, Bool, Option, none, some, List, [], ◌∷◌, ◌++◌, arith, Result, ok,
  err, Bool-cases, Option-cases, inl, inr,
}
use consisten_cy.Base.Dict
use consisten_cy.Base.Dict.{Dict}
use consisten_cy.Identity.{Text}
use consisten_cy.Audit.{AuditEvent}
use consisten_cy.Broker.Data.{BrokerFault, Broker, ReservationToken}
use consisten_cy.Broker.Operations.{authorise}
use consisten_cy.Commit.Data.{
  CommitReceipt, CommitAcceptRequest, Promise, persisting, failing, Coordinator, refused,
  not_canonical,
}
use consisten_cy.Commit.Operations.{
  is_commit_action, authorise_request, new_intent, promise, denial_of, hand_over, start, submit,
  settle_promise, find_pending, remove_pending, settle, Event, submits, settles, step, run,
  new_coordinator,
}
use consisten_cy.Commit.Invariant.{
  Inv, acceptances, open_for, bit, promised-Inv, forget-Inv, accepted-Inv,
}

append_nil : (es : List AuditEvent) → es ++ [] ≡ es
append_nil [] = refl
append_nil (e ∷ es) = ap (λ r. e ∷ r) (append_nil es)

denial_of_quiet :
    (now : ℕ) (request : CommitAcceptRequest) (e : BrokerFault) (k : String)
    → acceptances k (denial_of now request e) ≡ 0
unfolding acceptances
denial_of_quiet now request e k = ground arith

hand_over-Inv :
    (now : ℕ) (id hash : String) (request : CommitAcceptRequest)
    (r : Result BrokerFault (Option ReservationToken) × Broker) (c : Coordinator)
    → Dict.get request.idempotency_key c.in_flight ≡ none
    → Inv c
    → Inv (hand_over now id hash request r c)
unfolding acceptances
hand_over-Inv now id hash request (err e, b) c free v =
    promised-Inv (failing request.idempotency_key (refused e)) (denial_of now request e) c
      (hand_over now id hash request (err e, b) c) refl refl refl refl
      (denial_of_quiet now request e) free v
hand_over-Inv now id hash request (ok token, b) c free v =
    promised-Inv (persisting (new_intent now id hash request)) [] c
      (hand_over now id hash request (ok token, b) c) refl refl refl (sym (append_nil c.journal))
      (λ k. refl) free v

settle_promise-Inv :
    (number : ℕ) (answer : Option CommitReceipt) (p : Promise) (c : Coordinator)
    → find_pending number c.pending ≡ some p
    → Inv c
    → Inv (settle_promise answer p (record c { pending = remove_pending number c.pending })).1
settle_promise-Inv number (some receipt) (persisting intent) c found v =
    accepted-Inv number intent receipt c found v
settle_promise-Inv number none (persisting intent) c found v =
    forget-Inv number (persisting intent) c found v
settle_promise-Inv number answer (failing key e) c found v =
    forget-Inv number (failing key e) c found v

pub settle-Inv :
    (number : ℕ) (answer : Option CommitReceipt) (c : Coordinator)
    → Inv c
    → Inv (settle number answer c).1
unfolding settle
settle-Inv number answer c v = elim (Option-cases (find_pending number c.pending)) [
  | inl e ↦ rw (e, settle) v
  | inr (p, e) ↦ rw (e, settle) (settle_promise-Inv number answer p c e v)
]

pub new_coordinator-Inv : (b : Broker) → Inv (new_coordinator b)
unfolding new_coordinator Dict.get Dict.has acceptances open_for
new_coordinator-Inv b = record { distinct = tt; exclusive = λ k. omega arith; once = λ k. refl }

module _ (minimatch : Text → Text → Bool) where
  start-Inv :
      (now : ℕ) (id reservation : String) (request : CommitAcceptRequest) (c : Coordinator)
      → Dict.get request.idempotency_key c.in_flight ≡ none
      → Inv c
      → Inv (start minimatch now id reservation request c)
  start-Inv now id reservation request c free v = elim (Option-cases request.payload_hash) [
    | inl e ↦ rw (start, e) (hand_over_failing e)
    | inr (hash, e) ↦
        rw (start, e)
          (hand_over-Inv now id hash request
            (authorise minimatch now reservation (authorise_request request) c.broker) c free v)
  ]
    where
      hand_over_failing :
          request.payload_hash ≡ none
          → Inv (promise request.idempotency_key (failing request.idempotency_key not_canonical) c)
      hand_over_failing e =
          promised-Inv (failing request.idempotency_key not_canonical) [] c
            (promise request.idempotency_key (failing request.idempotency_key not_canonical) c) refl
            refl refl (sym (append_nil c.journal)) (λ k. unfold acceptances in refl) free v

  pub submit-Inv :
      (now : ℕ) (id reservation : String) (request : CommitAcceptRequest) (c : Coordinator)
      → Inv c
      → Inv (submit minimatch now id reservation request c).1
  unfolding submit
  submit-Inv now id reservation request c v = elim (Bool-cases (is_commit_action request.action)) [
    | inr f ↦ rw f v
    | inl t ↦ elim (Option-cases (Dict.get request.idempotency_key c.receipts)) [
      | inr (r, e) ↦ rw (t, e) v
      | inl e ↦ elim (Option-cases (Dict.get request.idempotency_key c.in_flight)) [
        | inr (p, f) ↦ rw (t, e, f) v
        | inl f ↦ rw (t, e, f) (start-Inv now id reservation request c f v)
      ]
    ]
  ]

  pub run-Inv : (events : List Event) (c : Coordinator) → Inv c → Inv (run minimatch events c)
  unfolding run step
  run-Inv [] c v = v
  run-Inv (submits now id reservation request ∷ events) c v =
      run-Inv events (submit minimatch now id reservation request c).1
        (submit-Inv now id reservation request c v)
  run-Inv (settles number answer ∷ events) c v =
      run-Inv events (settle number answer c).1 (settle-Inv number answer c v)

  -- Whatever is submitted to a new coordinator and however the sink answers, in whatever order, the
  -- journal has at most one acceptance of a key: one if the key has a receipt, and else none.
  pub run_accepts_once :
      (events : List Event) (b : Broker) (k : String)
      → acceptances k (run minimatch events (new_coordinator b)).journal
        ≡ bit (Dict.has k (run minimatch events (new_coordinator b)).receipts)
  run_accepts_once events b k = (run-Inv events (new_coordinator b) (new_coordinator-Inv b)).once k
