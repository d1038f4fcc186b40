-- ===== src/Jobs/Queued.antt =====
-- About which job is next: `list` and `nextQueued` of apps/api/src/jobQueue.ts.
use consisten_cy.Base.{
  ◌≤◌, ◌≡◌, ◌≢◌, sym, ◌∙◌, subst, String, Option, none, some, List, [], ◌∷◌, arith, ltb, Bool-cases,
  Option-cases, inl, inr, ◌⊎◌, string_dec, All, All-map,
}
use consisten_cy.Base.Dict
use consisten_cy.Base.Dict.{Dict}
use consisten_cy.Jobs.Data.{queued, ReviewJob, JobQueue}
use consisten_cy.Jobs.Status.{job_status_eq_lem}
use consisten_cy.Jobs.Claims.{get_here, get_there}
use consisten_cy.Jobs.Operations.{find, insert, newest_first, is_queued, next_queued, list, get}

module _ {R : Type 0} where
  -- Each job is at least as new as all that follow.
  abbrev pub IsNewestFirst : List (ReviewJob R) → Type 0
  IsNewestFirst [] = Unit
  IsNewestFirst (a ∷ jobs) =
      All (λ (b : ReviewJob R). b.created_at ≤ a.created_at) jobs × IsNewestFirst jobs

  All-insert :
      (P : ReviewJob R → Type 0) (a : ReviewJob R) (jobs : List (ReviewJob R))
      → P a
      → All P jobs
      → All P (insert a jobs)
  unfolding insert
  All-insert P a [] p h = (p, tt)
  All-insert P a (b ∷ jobs) p h = elim (Bool-cases (ltb a.created_at b.created_at)) [
    | inl t ↦ rw t (h.0, All-insert P a jobs p h.1)
    | inr f ↦ rw f (p, h)
  ]

  insert-All :
      (P : ReviewJob R → Type 0) (a : ReviewJob R) (jobs : List (ReviewJob R))
      → All P (insert a jobs)
      → P a × All P jobs
  unfolding insert
  insert-All P a [] = λ h. h
  insert-All P a (b ∷ jobs) = elim (Bool-cases (ltb a.created_at b.created_at)) [
    | inl t ↦ rw t (λ h. let r = insert-All P a jobs h.1 in (r.0, (h.0, r.1)))
    | inr f ↦ rw f (λ h. h)
  ]

  insert-IsNewestFirst :
      (a : ReviewJob R) (jobs : List (ReviewJob R))
      → IsNewestFirst jobs
      → IsNewestFirst (insert a jobs)
  unfolding insert
  insert-IsNewestFirst a [] h = (tt, tt)
  insert-IsNewestFirst a (b ∷ jobs) h = elim (Bool-cases (ltb a.created_at b.created_at)) [
    | inl t ↦ rw t (
      All-insert (λ (x : ReviewJob R). x.created_at ≤ b.created_at) a jobs (ground arith) h.0,
      insert-IsNewestFirst a jobs h.1,
    )
    | inr f ↦
        let le : b.created_at ≤ a.created_at = ground arith in
        rw f ((le, All-map (λ x m. omega arith) jobs h.0), h)
  ]

  newest_first-IsNewestFirst : (jobs : List (ReviewJob R)) → IsNewestFirst (newest_first jobs)
  unfolding newest_first
  newest_first-IsNewestFirst [] = tt
  newest_first-IsNewestFirst (a ∷ jobs) =
      insert-IsNewestFirst a (newest_first jobs) (newest_first-IsNewestFirst jobs)

  newest_first-All :
      (P : ReviewJob R → Type 0) (jobs : List (ReviewJob R))
      → All P (newest_first jobs)
      → All P jobs
  unfolding newest_first
  newest_first-All P [] h = tt
  newest_first-All P (a ∷ jobs) h =
      let r = insert-All P a (newest_first jobs) h in (r.0, newest_first-All P jobs r.1)

  -- What the search of a sorted list finds.
  abbrev pub IsNext : List (ReviewJob R) → Option (ReviewJob R) → Type 0
  IsNext jobs none = All (λ (x : ReviewJob R). x.status ≢ queued) jobs
  IsNext jobs (some a) =
      (a.status ≡ queued)
      × All (λ (x : ReviewJob R). x.status ≡ queued → x.created_at ≤ a.created_at) jobs

  find-IsNext : (jobs : List (ReviewJob R)) → IsNewestFirst jobs → IsNext jobs (find is_queued jobs)
  unfolding find
  find-IsNext [] h = tt
  find-IsNext (a ∷ jobs) h = elim (Bool-cases (is_queued a)) [
    | inl t ↦
        rw t (
          job_status_eq_lem a.status queued t,
          ((λ q. omega arith), All-map (λ x le q. le) jobs h.0),
        )
    | inr f ↦ rw f (later (find is_queued jobs) (λ q. absurd (ground arith)) (find-IsNext jobs h.1))
  ]
    where
      later : (o : Option (ReviewJob R)) → (a.status ≢ queued) → IsNext jobs o → IsNext (a ∷ jobs) o
      later none n r = (n, r)
      later (some b) n r = (r.0, ((λ q. absurd (n q)), r.1))

  get-All :
      (P : ReviewJob R → Type 0) (id : String) (jobs : Dict (ReviewJob R)) (job : ReviewJob R)
      → Dict.get id jobs ≡ some job
      → All P (Dict.values jobs)
      → P job
  unfolding Dict.get Dict.values
  get-All P id [] job e h = absurd (ground arith)
  get-All P id ((key, other) ∷ entries) job e h = elim (string_dec key id) [
    | yes same ↦
        let here : some other ≡ some job =
          sym (get_here key other entries)
          ∙ subst (λ (x : String). Dict.get x ((key, other) ∷ entries) ≡ some job) (sym same) e in
        subst P (ground arith) h.0
    | no n ↦ get-All P id entries job (sym (get_there key id other entries n) ∙ e) h.1
  ]

  -- The next job is queued and as new as any queued job that the queue holds; there is none only if no
  -- job is queued.
  pub next_queued-IsNext :
      (q : JobQueue R)
      → ((next_queued q ≡ none)
          × ((id : String) (job : ReviewJob R) → get id q ≡ some job → job.status ≢ queued))
        ⊎ ((next : ReviewJob R) × (next_queued q ≡ some next)
            × (next.status ≡ queued)
            × ((id : String) (job : ReviewJob R)
                → get id q ≡ some job
                → job.status ≡ queued
                → job.created_at ≤ next.created_at))
  unfolding next_queued
  next_queued-IsNext q =
      let sorted = list q in
      let found = find-IsNext sorted (newest_first-IsNewestFirst (Dict.values q.jobs)) in
      elim (Option-cases (find is_queued sorted)) [
        | inl e ↦
            let none_queued =
              newest_first-All (λ x. x.status ≢ queued) (Dict.values q.jobs)
                (subst (IsNext sorted) e found) in
            inl (e, λ id job f. get-All (λ x. x.status ≢ queued) id q.jobs job f none_queued)
        | inr (next, e) ↦
            let h = subst (IsNext sorted) e found in
            let newest =
              newest_first-All (λ x. x.status ≡ queued → x.created_at ≤ next.created_at)
                (Dict.values q.jobs) h.1 in
            inr (
              next,
              e,
              h.0,
              λ id job f.
                  get-All (λ x. x.status ≡ queued → x.created_at ≤ next.created_at) id q.jobs job f
                    newest,
            )
      ]
