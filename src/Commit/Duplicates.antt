-- ===== src/Commit/Duplicates.antt =====
-- A key that was accepted: packages/kernel/src/commit/coordinator.ts answers it from its receipts.
use consisten_cy.Base.{
  ℕ, ◌+◌, ◌≡◌, ◌≢◌, refl, ◌∙◌, String, Bool, true, Option, none, some, List, [], ◌∷◌, ◌++◌, arith,
  Result, ok, err, Bool-cases, Option-cases, inl, inr, ite, string_dec,
}
use consisten_cy.Base.Dict
use consisten_cy.Identity.{Text}
use consisten_cy.Broker.Data.{BrokerFault, Broker, ReservationToken}
use consisten_cy.Broker.Operations.{authorise}
use consisten_cy.Commit.Data.{
  CommitIntent, CommitReceipt, CommitAcceptRequest, Promise, persisting, failing, Coordinator,
}
use consisten_cy.Commit.Operations.{
  returns, is_commit_action, as_duplicate, authorise_request, new_intent, hand_over, start, submit,
  settle_promise, find_pending, remove_pending, settle, Event, submits, settles, step, run,
}
use consisten_cy.Commit.Invariant.{Inv, bit_le, open_for-remove}
use consisten_cy.Commit.Once.{submit-Inv, settle-Inv}

-- How many intents of a key the sink was given.
unfoldable pub handed_for : String → List CommitIntent → ℕ
handed_for key [] = 0
handed_for key (i ∷ is) = ite (string_dec i.idempotency_key key) 1 0 + handed_for key is

handed_for-append :
    (key : String) (is js : List CommitIntent)
    → handed_for key (is ++ js) ≡ handed_for key is + handed_for key js
unfolding handed_for
handed_for-append key [] js = omega arith
handed_for-append key (i ∷ is) js = omega (arith, handed_for-append key is js)

-- The receipt of the key stays, and the sink is given no other intent of the key.
record Stays (key : String) (r : CommitReceipt) (c c' : Coordinator) : Type 0 where
  receipt : Dict.get key c'.receipts ≡ some r
  handed : handed_for key c'.handed ≡ handed_for key c.handed

hand_over-Stays :
    (now : ℕ) (id hash : String) (request : CommitAcceptRequest)
    (a : Result BrokerFault (Option ReservationToken) × Broker) (c : Coordinator) (key : String)
    (r : CommitReceipt)
    → Dict.get key c.receipts ≡ some r
    → Dict.get request.idempotency_key c.receipts ≡ none
    → Stays key r c (hand_over now id hash request a c)
hand_over-Stays now id hash request (err e, b) c key r h free = record {
  receipt = h;
  handed = refl;
}
hand_over-Stays now id hash request (ok token, b) c key r h free = record {
  receipt = h;
  handed =
      unfold handed_for in
      ground (arith, handed_for-append key c.handed (new_intent now id hash request ∷ []));
}

other_key :
    (number : ℕ) (intent : CommitIntent) (c : Coordinator) (key : String) (r : CommitReceipt)
    → Inv c
    → find_pending number c.pending ≡ some (persisting intent)
    → Dict.get key c.receipts ≡ some r
    → intent.idempotency_key ≢ key
unfolding Dict.has
other_key number intent c key r v found h same = absurd (
    ground (
      arith,
      v.exclusive key,
      bit_le (Dict.has key c.in_flight),
      open_for-remove key number (persisting intent) c.pending found,
    ))

settle_promise-Stays :
    (number : ℕ) (answer : Option CommitReceipt) (p : Promise) (c : Coordinator) (key : String)
    (r : CommitReceipt)
    → Inv c
    → find_pending number c.pending ≡ some p
    → Dict.get key c.receipts ≡ some r
    → Stays key r c
        (settle_promise answer p (record c { pending = remove_pending number c.pending })).1
settle_promise-Stays number (some receipt) (persisting intent) c key r v found h = record {
  receipt = ground (
    arith,
    Dict.get-set intent.idempotency_key key receipt c.receipts,
    other_key number intent c key r v found h,
  );
  handed = refl;
}
settle_promise-Stays number none (persisting intent) c key r v found h = record {
  receipt = h;
  handed = refl;
}
settle_promise-Stays number answer (failing k e) c key r v found h = record {
  receipt = h;
  handed = refl;
}

settle-Stays :
    (number : ℕ) (answer : Option CommitReceipt) (c : Coordinator) (key : String)
    (r : CommitReceipt)
    → Inv c
    → Dict.get key c.receipts ≡ some r
    → Stays key r c (settle number answer c).1
unfolding settle
settle-Stays number answer c key r v h = elim (Option-cases (find_pending number c.pending)) [
  | inl e ↦ rw (e, settle) (record { receipt = h; handed = refl })
  | inr (p, e) ↦ rw (e, settle) (settle_promise-Stays number answer p c key r v e h)
]

module _ (minimatch : Text → Text → Bool) where
  start-Stays :
      (now : ℕ) (id reservation : String) (request : CommitAcceptRequest) (c : Coordinator)
      (key : String) (r : CommitReceipt)
      → Dict.get key c.receipts ≡ some r
      → Dict.get request.idempotency_key c.receipts ≡ none
      → Stays key r c (start minimatch now id reservation request c)
  start-Stays now id reservation request c key r h free = elim (Option-cases request.payload_hash) [
    | inl e ↦ rw (start, e) (record { receipt = h; handed = refl })
    | inr (hash, e) ↦
        rw (start, e)
          (hand_over-Stays now id hash request
            (authorise minimatch now reservation (authorise_request request) c.broker) c key r h
            free)
  ]

  submit-Stays :
      (now : ℕ) (id reservation : String) (request : CommitAcceptRequest) (c : Coordinator)
      (key : String) (r : CommitReceipt)
      → Dict.get key c.receipts ≡ some r
      → Stays key r c (submit minimatch now id reservation request c).1
  unfolding submit
  submit-Stays now id reservation request c key r h =
      elim (Bool-cases (is_commit_action request.action)) [
        | inr f ↦ rw f (record { receipt = h; handed = refl })
        | inl t ↦ elim (Option-cases (Dict.get request.idempotency_key c.receipts)) [
          | inr (q, e) ↦ rw (t, e) (record { receipt = h; handed = refl })
          | inl e ↦ elim (Option-cases (Dict.get request.idempotency_key c.in_flight)) [
            | inr (p, f) ↦ rw (t, e, f) (record { receipt = h; handed = refl })
            | inl f ↦ rw (t, e, f) (start-Stays now id reservation request c key r h e)
          ]
        ]
      ]

  run-Stays :
      (events : List Event) (c : Coordinator) (key : String) (r : CommitReceipt)
      → Inv c
      → Dict.get key c.receipts ≡ some r
      → Stays key r c (run minimatch events c)
  unfolding run step
  run-Stays [] c key r v h = record { receipt = h; handed = refl }
  run-Stays (submits now id reservation request ∷ events) c key r v h =
      let c' = (submit minimatch now id reservation request c).1 in
      let one = submit-Stays now id reservation request c key r h in
      let rest =
        run-Stays events c' key r (submit-Inv minimatch now id reservation request c v)
          one.receipt in
      record { receipt = rest.receipt; handed = rest.handed ∙ one.handed }
  run-Stays (settles k answer ∷ events) c key r v h =
      let c' = (settle k answer c).1 in
      let one = settle-Stays k answer c key r v h in
      let rest = run-Stays events c' key r (settle-Inv k answer c v) one.receipt in
      record { receipt = rest.receipt; handed = rest.handed ∙ one.handed }

  -- Once a key has a receipt, whatever happens afterwards, a request with the key gets that receipt
  -- as a duplicate, whoever sends it and whatever it holds; nothing changes with it, and the sink has
  -- been given no further intent of the key since.
  pub accepted_for_good :
      (events : List Event) (c : Coordinator) (r : CommitReceipt) (now : ℕ)
      (id reservation : String) (request : CommitAcceptRequest)
      → Inv c
      → Dict.get request.idempotency_key c.receipts ≡ some r
      → is_commit_action request.action ≡ true
      → (submit minimatch now id reservation request (run minimatch events c)
          ≡ (returns (as_duplicate r), run minimatch events c))
        × (handed_for request.idempotency_key (run minimatch events c).handed
            ≡ handed_for request.idempotency_key c.handed)
  unfolding submit
  accepted_for_good events c r now id reservation request v h t =
      let s = run-Stays events c request.idempotency_key r v h in (rw (t, s.receipt) refl, s.handed)
