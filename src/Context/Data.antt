-- ===== src/Context/Data.antt =====
-- Pages, images and the manager's state: packages/kernel/src/context/types.ts, errors.ts, image.ts,
-- page-store.ts and the fields of `ContextManager` in manager.ts.
use consisten_cy.Base.{ℕ, String, Option, List, ◌==◌, Bool}
use consisten_cy.Base.Dict.{Dict}

pub data ContextPageKind : Type 0 where
  policy task diff source ast symbol evidence tool_result memory summary : ContextPageKind

abbrev pub context_page_kind_precedence : ContextPageKind → ℕ
context_page_kind_precedence policy = 0
context_page_kind_precedence task = 1
context_page_kind_precedence diff = 2
context_page_kind_precedence evidence = 3
context_page_kind_precedence source = 4
context_page_kind_precedence ast = 5
context_page_kind_precedence symbol = 6
context_page_kind_precedence tool_result = 7
context_page_kind_precedence memory = 8
context_page_kind_precedence summary = 9

pub data Residency : Type 0 where
  pinned hot cold evicted : Residency

abbrev residency_rank : Residency → ℕ
residency_rank pinned = 0
residency_rank hot = 1
residency_rank cold = 2
residency_rank evicted = 3

abbrev pub residency_eq : Residency → Residency → Bool
residency_eq a b = residency_rank a == residency_rank b

pub data SourceRef : Type 0 where
  repository : String → String → String → SourceRef
  agent workload : String → SourceRef

pub record PageProvenance : Type 0 where
  pub repository : Option String
  pub sha : Option String
  pub producer : String
  pub producer_version : String

pub record ContextPage : Type 0 where
  pub id : String
  pub kind : ContextPageKind
  pub source : Option SourceRef
  pub content_hash : String
  pub text : String
  pub estimated_tokens : ℕ
  pub provenance : PageProvenance

pub record CreatePageSpec : Type 0 where
  pub id : Option String
  pub kind : ContextPageKind
  pub text : String
  pub estimated_tokens : Option ℕ
  pub source : Option SourceRef
  pub provenance : PageProvenance

-- Lineage: the image that was forked and its generation then.
pub record Base : Type 0 where
  pub image_id : String
  pub generation : ℕ

pub record ImageRecord : Type 0 where
  pub id : String
  pub generation : ℕ
  pub base : Option Base
  pub refs : Dict Residency

pub record ResolvedPage : Type 0 where
  pub page : ContextPage
  pub residency : Residency

-- The view of an image: its references in the order of the pages.
pub record ContextImageSnapshot : Type 0 where
  pub id : String
  pub generation : ℕ
  pub base : Option Base
  pub pages : List (String × Residency)

pub record WorkingSetSnapshot : Type 0 where
  pub image_id : String
  pub generation : ℕ
  pub pages : List ResolvedPage
  pub estimated_tokens : ℕ

pub record ContextManager : Type 0 where
  pub pages : Dict ContextPage
  pub images : Dict ImageRecord

pub data ContextFault : Type 0 where
  page_not_found image_not_found page_already_exists image_id_conflict : String → ContextFault
  page_already_attached page_not_attached pinned_page_eviction : String → String → ContextFault
  invalid_residency_transition : String → String → Residency → Residency → ContextFault
  -- An image refers to a page that is not in the store.
  unknown_reference : String → String → ContextFault
