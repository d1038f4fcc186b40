-- ===== src/Context/Residency.antt =====
-- Pinning, eviction and the return of pages: packages/kernel/src/context/manager.ts.
use consisten_cy.Base.{
  ℕ, ◌+◌, ◌≡◌, refl, ◌∙◌, ap, String, false, Option, none, some, arith, string_dec,
}
use consisten_cy.Base.Dict
use consisten_cy.Base.Dict.{Dict}
use consisten_cy.Context.Data.{
  Residency, pinned, hot, evicted, residency_eq, ImageRecord, ContextManager,
}
use consisten_cy.Context.Operations.{
  save, retabled, child_of, evict, page_in, evict_change, page_in_change, evict_found, on_attached,
}
use consisten_cy.Context.Calls.{Call, step, snapshot_keeps}
use consisten_cy.Context.Changes.{
  Changes, same, page, image, forked, put_in, taken_out, step-Changes,
}
use consisten_cy.Context.Invariant.{Inv}

-- The residency of a page in an image, if both are there.
abbrev pub residency_in : String → Option ImageRecord → Option Residency
residency_in page_id none = none
residency_in page_id (some i) = Dict.get page_id i.refs

-- The page is resident or is not in the image any longer.
abbrev pub NotEvicted : Option Residency → Type 0
NotEvicted none = Unit
NotEvicted (some r) = residency_eq r evicted ≡ false

saved_pinned :
    (id page_id image_id : String) (i j : ImageRecord) (m : ContextManager)
    → Dict.get image_id m.images ≡ some i
    → Dict.get page_id i.refs ≡ some pinned
    → (id ≡ image_id → NotEvicted (Dict.get page_id j.refs))
    → NotEvicted (residency_in page_id (Dict.get image_id (save id j m).images))
saved_pinned id page_id image_id i j m h p k = elim (string_dec id image_id) [
  | yes e ↦
      let one : Dict.get image_id (save id j m).images ≡ some j =
        ground (arith, Dict.get-set id image_id j m.images) in
      rw one (k e)
  | no e ↦
      let one : Dict.get image_id (save id j m).images ≡ some i =
        ground (arith, Dict.get-set id image_id j m.images) in
      rw (one, p) refl
]

Changes_pinned :
    {m m' : ContextManager} (image_id page_id : String) (i : ImageRecord)
    → Changes m m'
    → Inv m
    → Dict.get image_id m.images ≡ some i
    → Dict.get page_id i.refs ≡ some pinned
    → NotEvicted (residency_in page_id (Dict.get image_id m'.images))
Changes_pinned image_id page_id i same v h p = rw (h, p) refl
Changes_pinned image_id page_id i (page id q fresh) v h p = rw (h, p) refl
Changes_pinned {m} image_id page_id i (image id j fresh empty) v h p =
    saved_pinned id page_id image_id i j m h p (λ e. absurd (ground arith))
Changes_pinned {m} image_id page_id i (forked id parent_id parent found fresh) v h p =
    saved_pinned id page_id image_id i (child_of id parent) m h p (λ e. absurd (ground arith))
Changes_pinned {m} image_id page_id i (put_in id q r j found there guard) v h p =
    saved_pinned id page_id image_id i (retabled (Dict.set q r j.refs) j) m h p
      (λ e. ground (arith, Dict.get-set q page_id r j.refs))
Changes_pinned {m} image_id page_id i (taken_out id q j found) v h p =
    saved_pinned id page_id image_id i (retabled (Dict.delete q j.refs) j) m h p
      (λ e. ground (arith, Dict.get-delete q page_id j.refs (v.distinct id j found)))

-- Where the invariant holds, a page that is pinned in an image is not evicted there after any one
-- call but restore: it is in the image with another residency, or not at all.
pub step_pinned :
    (hash : String → String) (call : Call) (m : ContextManager) (image_id page_id : String)
    (i : ImageRecord)
    → Inv m
    → Dict.get image_id m.images ≡ some i
    → Dict.get page_id i.refs ≡ some pinned
    → NotEvicted (residency_in page_id (Dict.get image_id (step hash call m).images))
step_pinned hash call m image_id page_id i v h p =
    Changes_pinned image_id page_id i (step-Changes hash call m) v h p

-- A page that is neither pinned nor evicted is hot in its image after it is evicted and brought in
-- again; the image is two generations on, and all else is as before.
pub page_in-evict :
    (image_id page_id : String) (i : ImageRecord) (r : Residency) (m : ContextManager)
    → Dict.get image_id m.images ≡ some i
    → Dict.get page_id i.refs ≡ some r
    → residency_eq r pinned ≡ false
    → residency_eq r evicted ≡ false
    → (page_in image_id page_id (evict image_id page_id m).1).1 ≡ record m {
      images =
          Dict.set image_id
            (record i { refs = Dict.set page_id hot i.refs; generation = i.generation + 2 })
            m.images;
    }
unfolding evict_change page_in_change
page_in-evict image_id page_id i r m h g p e =
    let out = retabled (Dict.set page_id evicted i.refs) i in
    let evicts : (evict image_id page_id m).1 ≡ save image_id out m =
      snapshot_keeps (evict_change image_id page_id) image_id m
      ∙ rw (h, on_attached, g, evict_found, p, e) refl in
    let found : Dict.get image_id (save image_id out m).images ≡ some out =
      ground (arith, Dict.get-set image_id image_id out m.images) in
    let away : Dict.get page_id (Dict.set page_id evicted i.refs) ≡ some evicted =
      ground (arith, Dict.get-set page_id page_id evicted i.refs) in
    let back : ImageRecord = record i {
      refs = Dict.set page_id hot i.refs;
      generation = i.generation + 1 + 1;
    } in
    let twice : i.generation + 1 + 1 ≡ i.generation + 2 = omega arith in
    rw evicts (
      snapshot_keeps (page_in_change image_id page_id) image_id (save image_id out m)
      ∙ rw (on_attached, found, away, Dict.set-set page_id hot evicted i.refs)
          (ap (λ (d : Dict ImageRecord). record m { images = d })
              (Dict.set-set image_id back out m.images)
            ∙ ap
                (λ (n : ℕ).
                  save image_id (record i { refs = Dict.set page_id hot i.refs; generation = n }) m)
                twice))
