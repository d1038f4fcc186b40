-- ===== src/Scheduler/Best.antt =====
-- The third pass of `admit` in packages/kernel/src/scheduler/scheduler.ts: which queued agent wins.
use consisten_cy.Base.{
  ◌≡◌, refl, String, true, false, Option, none, some, List, [], ◌∷◌, ◌++◌, arith, All, Bool-cases,
  Option-cases, inl, inr,
}
use consisten_cy.Base.Dict.{Dict}
use consisten_cy.Base.Int.{ℤ, ltb_ℤ}
use consisten_cy.Run.{Run}
use consisten_cy.Agent.{Agent}
use consisten_cy.Scheduler.Admit.{candidate, scan, beats, improve}

between :
    (q p : ℤ) (best : Option (String × ℤ))
    → beats q best ≡ false
    → beats p best ≡ true
    → ltb_ℤ q p ≡ true
between q p none low high = cc
between q p (some (b, z)) low high = ground arith

raises :
    (q p : ℤ) (best : Option (String × ℤ))
    → beats q best ≡ true
    → ltb_ℤ q p ≡ true
    → beats p best ≡ true
raises q p none high more = refl
raises q p (some (b, z)) high more = ground arith

module _ (agents : Dict Agent) (runs : Dict Run) where
  -- A queued id whose priority, if it competes, does not exceed `p`.
  abbrev pub AtMost : ℤ → String → Type 0
  AtMost p id = (q : ℤ) → candidate agents runs id ≡ some q → ltb_ℤ p q ≡ false

  -- A queued id whose priority, if it competes, is below `p`.
  abbrev pub Under : ℤ → String → Type 0
  Under p id = (q : ℤ) → candidate agents runs id ≡ some q → ltb_ℤ q p ≡ true

  abbrev pub Loses : Option (String × ℤ) → String → Type 0
  Loses best id = (q : ℤ) → candidate agents runs id ≡ some q → beats q best ≡ false

  -- `id` wins the queue: those before it are below its priority, those after it do not exceed it.
  pub record Wins (queue : List String) (id : String) (p : ℤ) : Type 0 where
    pub before : List String
    pub after : List String
    pub place : queue ≡ before ++ id ∷ after
    pub competes : candidate agents runs id ≡ some p
    pub earlier : All (Under p) before
    pub later : All (AtMost p) after

  -- The loop either keeps the best so far, which nobody beats, or finds a winner that beats it.
  pub data Scanned (queue : List String) (best : Option (String × ℤ))
      : Option (String × ℤ) → Type 0 where
    kept : All (Loses best) queue → Scanned queue best best
    found :
        (id : String) (p : ℤ)
        → beats p best ≡ true
        → Wins queue id p
        → Scanned queue best (some (id, p))

  skip :
      (i : String) (ids : List String) (best r : Option (String × ℤ))
      → candidate agents runs i ≡ none
      → Scanned ids best r
      → Scanned (i ∷ ids) best r
  skip i ids best r e (kept all) = kept ((λ q h. cc), all)
  skip i ids best r e (found id p b w) = found id p b (record {
    before = i ∷ w.before;
    after = w.after;
    place = cc (w.place);
    competes = w.competes;
    earlier = ((λ q h. cc), w.earlier);
    later = w.later;
  })

  lose :
      (i : String) (q : ℤ) (ids : List String) (best r : Option (String × ℤ))
      → candidate agents runs i ≡ some q
      → beats q best ≡ false
      → Scanned ids best r
      → Scanned (i ∷ ids) best r
  lose i q ids best r e low (kept all) = kept ((λ q' h. ground arith), all)
  lose i q ids best r e low (found id p b w) = found id p b (record {
    before = i ∷ w.before;
    after = w.after;
    place = cc (w.place);
    competes = w.competes;
    earlier = ((λ q' h. ground (arith, between q p best low b)), w.earlier);
    later = w.later;
  })

  win :
      (i : String) (q : ℤ) (ids : List String) (best r : Option (String × ℤ))
      → candidate agents runs i ≡ some q
      → beats q best ≡ true
      → Scanned ids (some (i, q)) r
      → Scanned (i ∷ ids) best r
  win i q ids best r e high (kept all) =
      found i q high
        (record { before = []; after = ids; place = refl; competes = e; earlier = tt; later = all })
  win i q ids best r e high (found id p b w) = found id p (raises q p best high b) (record {
    before = i ∷ w.before;
    after = w.after;
    place = cc (w.place);
    competes = w.competes;
    earlier = ((λ q' h. ground arith), w.earlier);
    later = w.later;
  })

  pub scan-Scanned :
      (queue : List String) (best : Option (String × ℤ))
      → Scanned queue best (scan agents runs queue best)
  unfolding scan
  scan-Scanned [] best = kept tt
  scan-Scanned (i ∷ ids) best = elim (Option-cases (candidate agents runs i)) [
    | inl e ↦ rw e (skip i ids best _ e (scan-Scanned ids best))
    | inr (q, e) ↦ elim (Bool-cases (beats q best)) [
      | inl high ↦
          rw (e, improve, high) (win i q ids best _ e high (scan-Scanned ids (some (i, q))))
      | inr low ↦ rw (e, improve, low) (lose i q ids best _ e low (scan-Scanned ids best))
    ]
  ]
