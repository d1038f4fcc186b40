-- ===== src/Context/Changes.antt =====
-- What each call of packages/kernel/src/context/manager.ts may change.
use consisten_cy.Base.{
  ◌≡◌, refl, sym, subst, String, true, false, Option, none, some, [], arith, ◌⊎◌, inl, inr,
  Bool-cases, Option-cases,
}
use consisten_cy.Base.Dict
use consisten_cy.Base.Dict.{Dict}
use consisten_cy.Context.Data.{
  Residency, pinned, hot, hot, evicted, residency_eq, ContextPage, CreatePageSpec, ImageRecord,
  ContextManager,
}
use consisten_cy.Context.Operations.{
  Action, create_page, create_image, fork, attach_change, detach_change, set_residency_change,
  evict_change, page_in_change, on_attached, set_found, evict_found, page_in_found, save, retabled,
  child_of, new_page, given_or,
}
use consisten_cy.Context.Calls.{
  Call, creates_page, creates_image, forks, attaches, detaches, evicts, pages_in, sets, step,
  snapshot_keeps,
}

-- What a call does to the tables: nothing, or a new page, or a new image, or a new table of one image,
-- in which the residency of one page is changed.
pub data Changes (m : ContextManager) : ContextManager → Type 0 where
  same : Changes m m
  page :
      (id : String) (p : ContextPage)
      → Dict.get id m.pages ≡ none
      → Changes m (record m { pages = Dict.set id p m.pages })
  image :
      (id : String) (i : ImageRecord)
      → Dict.get id m.images ≡ none
      → i.refs ≡ []
      → Changes m (save id i m)
  forked :
      (id parent_id : String) (parent : ImageRecord)
      → Dict.get parent_id m.images ≡ some parent
      → Dict.get id m.images ≡ none
      → Changes m (save id (child_of id parent) m)
  put_in :
      (id page_id : String) (r : Residency) (i : ImageRecord)
      → Dict.get id m.images ≡ some i
      → (Dict.has page_id m.pages ≡ true) ⊎ (Dict.has page_id i.refs ≡ true)
      → (Dict.get page_id i.refs ≡ some pinned → residency_eq r evicted ≡ false)
      → Changes m (save id (retabled (Dict.set page_id r i.refs) i) m)
  taken_out :
      (id page_id : String) (i : ImageRecord)
      → Dict.get id m.images ≡ some i
      → Changes m (save id (retabled (Dict.delete page_id i.refs) i) m)

has-none : {V : Type 0} (k : String) (d : Dict V) → Dict.has k d ≡ false → Dict.get k d ≡ none
unfolding Dict.has
has-none k d h = ground arith

some-has :
    {V : Type 0} (k : String) (d : Dict V) (v : V) → Dict.get k d ≡ some v → Dict.has k d ≡ true
unfolding Dict.has
some-has k d v h = ground arith

create_page-Changes :
    (hash : String → String) (drawn : String) (spec : CreatePageSpec) (m : ContextManager)
    → Changes m (create_page hash drawn spec m).1
unfolding create_page
create_page-Changes hash drawn spec m =
    let id = given_or spec.id drawn in
    elim (Bool-cases (Dict.has id m.pages)) [
      | inl t ↦ rw t same
      | inr f ↦ rw f (page id (new_page hash id spec) (has-none id m.pages f))
    ]

create_image-Changes :
    (drawn : String) (given : Option String) (m : ContextManager)
    → Changes m (create_image drawn given m).1
unfolding create_image
create_image-Changes drawn given m =
    let id = given_or given drawn in
    elim (Bool-cases (Dict.has id m.images)) [
      | inl t ↦ rw t same
      | inr f ↦ rw f (
          image id (record { id = id; generation = 1; base = none; refs = [] })
            (has-none id m.images f) refl)
    ]

fork-Changes :
    (parent_id drawn : String) (given : Option String) (m : ContextManager)
    → Changes m (fork parent_id drawn given m).1
unfolding fork
fork-Changes parent_id drawn given m =
    let id = given_or given drawn in
    elim (Option-cases (Dict.get parent_id m.images)) [
      | inl e ↦ rw (e, fork) same
      | inr (parent, e) ↦ elim (Bool-cases (Dict.has id m.images)) [
        | inl t ↦ rw (e, fork, t) same
        | inr f ↦ rw (e, fork, f) (forked id parent_id parent e (has-none id m.images f))
      ]
    ]

attach-Changes :
    (id page_id : String) (r : Residency) (m : ContextManager)
    → Changes m (attach_change id page_id r m).1
unfolding attach_change
attach-Changes id page_id r m = elim (Bool-cases (Dict.has page_id m.pages)) [
  | inr f ↦ rw f same
  | inl t ↦ elim (Option-cases (Dict.get id m.images)) [
    | inl e ↦ rw (t, e) same
    | inr (i, e) ↦ elim (Bool-cases (Dict.has page_id i.refs)) [
      | inl u ↦ rw (t, e, u) same
      | inr f ↦
          rw (t, e, f)
            (put_in id page_id r i e (inl t)
              (λ p. absurd (ground (arith, has-none page_id i.refs f))))
    ]
  ]
]

detach-Changes :
    (id page_id : String) (m : ContextManager) → Changes m (detach_change id page_id m).1
unfolding detach_change
detach-Changes id page_id m = elim (Option-cases (Dict.get id m.images)) [
  | inl e ↦ rw (e, detach_change) same
  | inr (i, e) ↦ elim (Bool-cases (Dict.has page_id i.refs)) [
    | inr f ↦ rw (e, detach_change, f) same
    | inl t ↦ rw (e, detach_change, t) (taken_out id page_id i e)
  ]
]

on_attached-Changes :
    (id page_id : String) (f : ImageRecord → Residency → Action (Unit {0})) (m : ContextManager)
    → ((i : ImageRecord) (r : Residency)
        → Dict.get id m.images ≡ some i
        → Dict.get page_id i.refs ≡ some r
        → Changes m (f i r m).1)
    → Changes m (on_attached id page_id f m).1
on_attached-Changes id page_id f m k = elim (Option-cases (Dict.get id m.images)) [
  | inl e ↦ rw (e, on_attached) same
  | inr (i, e) ↦ elim (Option-cases (Dict.get page_id i.refs)) [
    | inl g ↦ rw (e, on_attached, g) same
    | inr (r, g) ↦ rw (e, on_attached, g) (k i r e g)
  ]
]

set_found-Changes :
    (id page_id : String) (to : Residency) (m : ContextManager) (i : ImageRecord) (r : Residency)
    → Dict.get id m.images ≡ some i
    → Dict.get page_id i.refs ≡ some r
    → Changes m (set_found id page_id to i r m).1
set_found-Changes id page_id to m i r e g = elim (Bool-cases (residency_eq r pinned)) [
  | inl p ↦ elim (Bool-cases (residency_eq to evicted)) [
    | inl q ↦ rw (set_found, p, q) same
    | inr q ↦
        rw (set_found, p, q) (put_in id page_id to i e (inr (some-has page_id i.refs r g)) (λ h. q))
  ]
  | inr p ↦
      rw (set_found, p)
        (put_in id page_id to i e (inr (some-has page_id i.refs r g)) (λ h. absurd (ground arith)))
]

evict_found-Changes :
    (id page_id : String) (m : ContextManager) (i : ImageRecord) (r : Residency)
    → Dict.get id m.images ≡ some i
    → Dict.get page_id i.refs ≡ some r
    → Changes m (evict_found id page_id i r m).1
evict_found-Changes id page_id m i r e g = elim (Bool-cases (residency_eq r pinned)) [
  | inl p ↦ rw (evict_found, p) same
  | inr p ↦ elim (Bool-cases (residency_eq r evicted)) [
    | inl q ↦ rw (evict_found, p, q) same
    | inr q ↦
        rw (evict_found, p, q)
          (put_in id page_id evicted i e (inr (some-has page_id i.refs r g))
            (λ h. absurd (ground arith)))
  ]
]

page_in_found-Changes :
    (id page_id : String) (m : ContextManager) (i : ImageRecord) (r : Residency)
    → Dict.get id m.images ≡ some i
    → Dict.get page_id i.refs ≡ some r
    → Changes m (page_in_found id page_id i r m).1
page_in_found-Changes id page_id m i r e g = elim (Bool-cases (residency_eq r evicted)) [
  | inr q ↦ rw (page_in_found, q) same
  | inl q ↦
      rw (page_in_found, q)
        (put_in id page_id hot i e (inr (some-has page_id i.refs r g)) (λ h. refl))
]

pub step-Changes :
    (hash : String → String) (call : Call) (m : ContextManager) → Changes m (step hash call m)
unfolding step set_residency_change evict_change page_in_change
step-Changes hash (creates_page drawn spec) m = create_page-Changes hash drawn spec m
step-Changes hash (creates_image drawn given) m = create_image-Changes drawn given m
step-Changes hash (forks parent drawn given) m = fork-Changes parent drawn given m
step-Changes hash (attaches id page_id r) m =
    subst (Changes m) (sym (snapshot_keeps (attach_change id page_id r) id m))
      (attach-Changes id page_id r m)
step-Changes hash (detaches id page_id) m =
    subst (Changes m) (sym (snapshot_keeps (detach_change id page_id) id m))
      (detach-Changes id page_id m)
step-Changes hash (evicts id page_id) m =
    subst (Changes m) (sym (snapshot_keeps (evict_change id page_id) id m))
      (on_attached-Changes id page_id (evict_found id page_id) m (evict_found-Changes id page_id m))
step-Changes hash (pages_in id page_id) m =
    subst (Changes m) (sym (snapshot_keeps (page_in_change id page_id) id m)) (
      on_attached-Changes id page_id (page_in_found id page_id) m
        (page_in_found-Changes id page_id m))
step-Changes hash (sets id page_id r) m =
    subst (Changes m) (sym (snapshot_keeps (set_residency_change id page_id r) id m))
      (on_attached-Changes id page_id (set_found id page_id r) m (set_found-Changes id page_id r m))
