-- ===== src/Identity.antt =====
-- Who calls and what is accessed: packages/kernel/src/identity/principal.ts and resource.ts.
pub mod Paths
pub mod Safety
pub mod Tests
use consisten_cy.Base.{ℕ, String, Option, List}

pub data PrincipalKind : Type 0 where
  kernel service agent plugin user : PrincipalKind

pub record Principal : Type 0 where
  pub id : String
  pub kind : PrincipalKind
  pub run_id : Option String

pub data ResourceKind : Type 0 where
  repository snapshot evidence audit workspace github_publish llm ast : ResourceKind

pub data Resource : Type 0 where
  repository : String → Resource
  snapshot : String → String → Resource
  evidence : String → Resource
  audit : Resource
  workspace : String → Resource
  github_publish : String → Option ℕ → Resource
  llm : String → Resource
  ast : String → Resource

-- The tag `kind` of the union.
abbrev pub kind_of : Resource → ResourceKind
kind_of (Resource.repository id) = ResourceKind.repository
kind_of (Resource.snapshot repository_id sha) = ResourceKind.snapshot
kind_of (Resource.evidence run_id) = ResourceKind.evidence
kind_of Resource.audit = ResourceKind.audit
kind_of (Resource.workspace run_id) = ResourceKind.workspace
kind_of (Resource.github_publish repository_id pull_number) = ResourceKind.github_publish
kind_of (Resource.llm provider) = ResourceKind.llm
kind_of (Resource.ast snapshot_id) = ResourceKind.ast

-- A path or a glob pattern, as its UTF-16 code units.
abbrev pub Text : Type 0
Text = List ℕ

pub record ResourceScope : Type 0 where
  pub sha : Option String
  pub paths : Option (List Text)
