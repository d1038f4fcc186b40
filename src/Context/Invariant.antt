-- ===== src/Context/Invariant.antt =====
-- What holds of the manager of packages/kernel/src/context/manager.ts after any calls.
use consisten_cy.Base.{
  ◌≡◌, sym, subst, String, true, some, List, [], ◌∷◌, arith, inl, inr, ite, string_dec,
}
use consisten_cy.Base.Dict
use consisten_cy.Base.Dict.{Dict}
use consisten_cy.Context.Data.{Residency, ContextPage, ImageRecord, ContextManager}
use consisten_cy.Context.Operations.{save, retabled, child_of}
use consisten_cy.Context.Calls.{Call, step, run}
use consisten_cy.Context.Changes.{
  Changes, same, page, image, forked, put_in, taken_out, step-Changes,
}

-- Each image refers to each page once, and only to pages of the store.
pub record Inv (m : ContextManager) : Type 0 where
  pub distinct :
      (i : String) (r : ImageRecord) → Dict.get i m.images ≡ some r → Dict.HasDistinctKeys r.refs
  pub known :
      (i : String) (r : ImageRecord) (p : String)
      → Dict.get i m.images ≡ some r
      → Dict.has p r.refs ≡ true
      → Dict.has p m.pages ≡ true

-- An image that is written well.
saved-Inv :
    (id : String) (i : ImageRecord) (m : ContextManager)
    → Dict.HasDistinctKeys i.refs
    → ((p : String) → Dict.has p i.refs ≡ true → Dict.has p m.pages ≡ true)
    → Inv m
    → Inv (save id i m)
saved-Inv id i m d k v = record {
  distinct = λ j r h. elim (string_dec id j) [
    | yes e ↦
        let one : i ≡ r = ground (arith, Dict.get-set id j i m.images) in
        subst (λ (x : ImageRecord). Dict.HasDistinctKeys x.refs) one d
    | no e ↦ v.distinct j r (ground (arith, Dict.get-set id j i m.images))
  ];
  known = λ j r p h q. elim (string_dec id j) [
    | yes e ↦
        let one : i ≡ r = ground (arith, Dict.get-set id j i m.images) in
        k p (subst (λ (x : ImageRecord). Dict.has p x.refs ≡ true) (sym one) q)
    | no e ↦ v.known j r p (ground (arith, Dict.get-set id j i m.images)) q
  ];
}

has-set :
    {V : Type 0} (k j : String) (v : V) (d : Dict V)
    → Dict.has j (Dict.set k v d) ≡ ite (string_dec k j) true (Dict.has j d)
unfolding Dict.has
has-set k j v d = ground (arith, Dict.get-set k j v d)

has-delete :
    {V : Type 0} (k j : String) (d : Dict V)
    → Dict.HasDistinctKeys d
    → Dict.has j (Dict.delete k d) ≡ true
    → Dict.has j d ≡ true
unfolding Dict.has
has-delete k j d h q = ground (arith, Dict.get-delete k j d h)

has_nothing : (p : String) (refs : Dict Residency) → refs ≡ [] → Dict.has p refs ≡ true → ⊥
unfolding Dict.has Dict.get
has_nothing p refs e h = ground arith

nothing_distinct : (refs : Dict Residency) → refs ≡ [] → Dict.HasDistinctKeys refs
nothing_distinct refs e = subst Dict.HasDistinctKeys (sym e) tt

pub Changes-Inv : {m m' : ContextManager} → Changes m m' → Inv m → Inv m'
Changes-Inv same v = v
Changes-Inv {m} (page id p fresh) v = record {
  distinct = v.distinct;
  known = λ i r q h k. ground (arith, has-set id q p m.pages, v.known i r q h k);
}
Changes-Inv {m} (image id i fresh empty) v =
    saved-Inv id i m (nothing_distinct i.refs empty) (λ p h. absurd (has_nothing p i.refs empty h))
      v
Changes-Inv {m} (forked id parent_id parent found fresh) v =
    saved-Inv id (child_of id parent) m (v.distinct parent_id parent found)
      (λ p h. v.known parent_id parent p found h) v
Changes-Inv {m} (put_in id page_id r i found there guard) v =
    saved-Inv id (retabled (Dict.set page_id r i.refs) i) m
      (Dict.set-HasDistinctKeys page_id r i.refs (v.distinct id i found))
      (λ p h. elim (string_dec page_id p) [
        | yes e ↦
            subst (λ q. Dict.has q m.pages ≡ true) e
              (elim there [ inl t ↦ t | inr t ↦ v.known id i page_id found t ])
        | no e ↦ v.known id i p found (ground (arith, has-set page_id p r i.refs))
      ])
      v
Changes-Inv {m} (taken_out id page_id i found) v =
    saved-Inv id (retabled (Dict.delete page_id i.refs) i) m
      (Dict.delete-HasDistinctKeys page_id i.refs (v.distinct id i found))
      (λ p h. v.known id i p found (has-delete page_id p i.refs (v.distinct id i found) h)) v

-- Whatever is called but restore keeps the invariant: every image refers to each page at most once, and only to
-- pages of the store.
pub run-Inv :
    (hash : String → String) (calls : List Call) (m : ContextManager)
    → Inv m
    → Inv (run hash calls m)
unfolding run
run-Inv hash [] m v = v
run-Inv hash (call ∷ calls) m v =
    run-Inv hash calls (step hash call m) (Changes-Inv (step-Changes hash call m) v)

-- Pages are never changed or lost.
Changes-pages :
    {m m' : ContextManager} (id : String) (p : ContextPage)
    → Changes m m'
    → Dict.get id m.pages ≡ some p
    → Dict.get id m'.pages ≡ some p
Changes-pages id p same h = h
Changes-pages {m} id p (page j q fresh) h = ground (arith, Dict.get-set j id q m.pages)
Changes-pages id p (image j i fresh empty) h = h
Changes-pages id p (forked j k parent found fresh) h = h
Changes-pages id p (put_in j k r i found there guard) h = h
Changes-pages id p (taken_out j k i found) h = h

-- A page that is in the store stays there as it is, whatever is called but restore.
pub run_pages :
    (hash : String → String) (calls : List Call) (m : ContextManager) (id : String)
    (p : ContextPage)
    → Dict.get id m.pages ≡ some p
    → Dict.get id (run hash calls m).pages ≡ some p
unfolding run
run_pages hash [] m id p h = h
run_pages hash (call ∷ calls) m id p h =
    run_pages hash calls (step hash call m) id p (Changes-pages id p (step-Changes hash call m) h)
