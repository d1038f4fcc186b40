-- ===== src/Commit/Invariant.antt =====
-- What holds between the steps of packages/kernel/src/commit/coordinator.ts.
use consisten_cy.Base.{
  ℕ, ◌+◌, ◌≡◌, sym, ◌∙◌, subst, ap, String, Bool, true, false, none, some, List, [], ◌∷◌, ◌++◌,
  arith, refl, ◌≤◌, ◌==◌, Bool-cases, inl, inr, ite, string_dec,
}
use consisten_cy.Base.Dict
use consisten_cy.Base.Dict.{Dict}
use consisten_cy.Audit.{AuditEvent, commit_intent_accepted}
use consisten_cy.Commit.Data.{
  CommitIntent, CommitReceipt, Promise, persisting, failing, Pending, Coordinator,
}
use consisten_cy.Commit.Operations.{
  acceptance, accepted_by_sink, forget, find_pending, remove_pending,
}

-- How many acceptances of a key the journal has.
abbrev pub counts : String → AuditEvent → ℕ
counts key (commit_intent_accepted a) = ite (string_dec a.idempotency_key key) 1 0
counts key _ = 0

unfoldable pub acceptances : String → List AuditEvent → ℕ
acceptances key [] = 0
acceptances key (e ∷ es) = counts key e + acceptances key es

acceptances-append :
    (key : String) (es fs : List AuditEvent)
    → acceptances key (es ++ fs) ≡ acceptances key es + acceptances key fs
unfolding acceptances
acceptances-append key [] fs = omega arith
acceptances-append key (e ∷ es) fs = omega (arith, acceptances-append key es fs)

abbrev pub bit : Bool → ℕ
bit true = 1
bit false = 0

-- The key for which a promise was made.
abbrev pub key_of : Promise → String
key_of (persisting intent) = intent.idempotency_key
key_of (failing key e) = key

abbrev pub is_for : String → Promise → ℕ
is_for key p = ite (string_dec (key_of p) key) 1 0

-- How many promises for a key are not settled.
unfoldable pub open_for : String → List Pending → ℕ
open_for key [] = 0
open_for key (p ∷ ps) = is_for key p.promise + open_for key ps

pub open_for-remove :
    (key : String) (number : ℕ) (p : Promise) (ps : List Pending)
    → find_pending number ps ≡ some p
    → open_for key ps ≡ is_for key p + open_for key (remove_pending number ps)
unfolding open_for find_pending remove_pending
open_for-remove key number p [] h = absurd (ground arith)
open_for-remove key number p (x ∷ ps) h = elim (Bool-cases (x.number == number)) [
  | inl t ↦ let same : x.promise ≡ p = ground (arith, h) in rw (t, same) refl
  | inr f ↦
      let rest = open_for-remove key number p ps (ground (arith, h)) in rw f (omega (arith, rest))
]

pub bit_le : (b : Bool) → bit b ≤ 1
bit_le true = omega arith
bit_le false = omega arith

-- The journal has one acceptance of a key that has a receipt and none of another; a key that is not in
-- flight has neither a receipt nor an open promise, and one that is has at most one of both.
pub record Inv (c : Coordinator) : Type 0 where
  pub distinct : Dict.HasDistinctKeys c.in_flight
  pub exclusive :
      (k : String)
      → open_for k c.pending + bit (Dict.has k c.receipts) ≤ bit (Dict.has k c.in_flight)
  pub once : (k : String) → acceptances k c.journal ≡ bit (Dict.has k c.receipts)

-- A new promise for a key that is not in flight, with what the journal gets.
pub promised-Inv :
    (p : Promise) (es : List AuditEvent) (c c' : Coordinator)
    → c'.in_flight ≡ Dict.set (key_of p) c.promises c.in_flight
    → c'.pending ≡ record { number = c.promises; promise = p } ∷ c.pending
    → c'.receipts ≡ c.receipts
    → c'.journal ≡ c.journal ++ es
    → ((k : String) → acceptances k es ≡ 0)
    → Dict.get (key_of p) c.in_flight ≡ none
    → Inv c
    → Inv c'
unfolding open_for Dict.has
promised-Inv p es c c' flight pending receipts journal quiet free v = record {
  distinct =
      subst Dict.HasDistinctKeys (sym flight)
        (Dict.set-HasDistinctKeys (key_of p) c.promises c.in_flight v.distinct);
  exclusive = λ k.
      rw (flight, pending, receipts)
        (ground (arith, v.exclusive k, free, Dict.get-set (key_of p) k c.promises c.in_flight));
  once = λ k.
      ap (acceptances k) journal
      ∙ (omega (arith, acceptances-append k c.journal es, quiet k, v.once k)
          ∙ ap (λ d. bit (Dict.has k d)) (sym receipts));
}

-- A promise is taken out and its key forgotten.
pub forget-Inv :
    (number : ℕ) (p : Promise) (c : Coordinator)
    → find_pending number c.pending ≡ some p
    → Inv c
    → Inv (forget (key_of p) (record c { pending = remove_pending number c.pending }))
unfolding Dict.has
forget-Inv number p c found v = record {
  distinct = Dict.delete-HasDistinctKeys (key_of p) c.in_flight v.distinct;
  exclusive = λ k. ground (
    arith,
    v.exclusive k,
    open_for-remove k number p c.pending found,
    Dict.get-delete (key_of p) k c.in_flight v.distinct,
  );
  once = v.once;
}

pub accepted-Inv :
    (number : ℕ) (intent : CommitIntent) (receipt : CommitReceipt) (c : Coordinator)
    → find_pending number c.pending ≡ some (persisting intent)
    → Inv c
    → Inv (accepted_by_sink intent receipt (record c { pending = remove_pending number c.pending }))
unfolding acceptances Dict.has
accepted-Inv number intent receipt c found v = record {
  distinct = v.distinct;
  exclusive = λ k. ground (
    arith,
    v.exclusive k,
    open_for-remove k number (persisting intent) c.pending found,
    Dict.get-set intent.idempotency_key k receipt c.receipts,
  );
  once = λ k. ground (
    arith,
    v.once k,
    v.exclusive k,
    open_for-remove k number (persisting intent) c.pending found,
    acceptances-append k c.journal (acceptance intent.created_at intent ∷ []),
    Dict.get-set intent.idempotency_key k receipt c.receipts,
  );
}
