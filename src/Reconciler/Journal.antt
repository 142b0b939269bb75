-- ===== src/Reconciler/Journal.antt =====
-- The execution journal (execution_journal.py): the documents that it stores, its events, and the rows
-- of one effect. A document is a JSON object with one of the closed field sets; its bytes are texts.
pub mod Copies
pub mod Format
pub mod Bindings
pub mod Payload
pub mod Verify
pub mod Operations
pub mod Steps
pub mod Once
pub mod History
pub mod Sound
pub mod Views
pub mod Published
pub mod Walks
pub mod Kept
pub mod Recorded
use vuoro.Prelude.{ℕ, zero, suc, ◌≡◌, refl, String, Option, none, some, List, Bool, true, false}
use vuoro.Prelude.Eq.{Equality, encoded, nat_keys}
use vuoro.Dict.{Dict}

pub record Target : Type 0 where
  pub repository : String
  pub head_repository : String
  pub base_branch : String

pub record Binding : Type 0 where
  pub namespace : String
  pub intent_id : String
  pub intent_revision : ℕ
  pub canonical_hash : String
  pub legacy_content_digest : String
  pub acceptance_id : String
  pub acceptance_revision : ℕ
  pub preparation_id : String
  pub receipt_id : String
  pub accepted_at : String
  pub signature_sha256 : String
  pub challenge_sha256 : String
  pub frozen_reference_set_sha256 : String
  pub registry_sha256 : String
  pub provider_profile_sha256 : String
  pub signing_profile_sha256 : String
  pub publication_target : Target
  pub signer_fingerprint : String
  pub public_key_sha256 : String

pub record LocalReady : Type 0 where
  pub commit_oid : String
  pub tree_oid : String
  pub base_parent_oid : String
  pub message_utf8_b64 : String
  pub message_sha256 : String
  pub signer_fingerprint : String
  pub public_key_sha256 : String
  pub artifact_relative_path : String
  pub artifact_sha256 : String

pub record BranchRequest : Type 0 where
  pub effect_key : String
  pub binding_sha256 : String
  pub repository : String
  pub branch : String
  pub commit_oid : String
  pub base_parent_oid : String
  pub provider_profile_sha256 : String

pub record PrRequest : Type 0 where
  pub effect_key : String
  pub binding_sha256 : String
  pub repository : String
  pub head_repository : String
  pub branch : String
  pub commit_oid : String
  pub base_branch : String
  pub title : String
  pub body_utf8_b64 : String
  pub body_sha256 : String
  pub provider_profile_sha256 : String

pub record BranchObservation : Type 0 where
  pub effect_key : String
  pub binding_sha256 : String
  pub request_sha256 : String
  pub repository : String
  pub branch : String
  pub commit_oid : String

pub record PrObservation : Type 0 where
  pub effect_key : String
  pub binding_sha256 : String
  pub request_sha256 : String
  pub repository : String
  pub head_repository : String
  pub branch : String
  pub commit_oid : String
  pub base_branch : String
  pub title : String
  pub body_utf8_b64 : String
  pub body_sha256 : String
  pub pr_number : ℕ
  pub pr_url : String
  pub state : String

pub record Outcome : Type 0 where
  pub effect_key : String
  pub binding_sha256 : String
  pub commit_oid : String
  pub branch_request_sha256 : String
  pub pr_request_sha256 : String
  pub pr_number : ℕ
  pub pr_url : String

pub record Terminal : Type 0 where
  pub effect_key : String
  pub binding_sha256 : String
  pub reason : String
  pub operation : Option String
  pub request_sha256 : Option String

-- what `_public_binding` publishes in the pull request's body
pub record PublicBinding : Type 0 where
  pub effect_key : String
  pub binding_sha256 : String
  pub locator_utf8_b64 : String
  pub canonical_hash : String
  pub legacy_content_digest : String
  pub acceptance_id : String
  pub acceptance_revision : ℕ
  pub receipt_id : String
  pub source_run_utf8_b64 : String
  pub commit_oid : String

-- the request of the provider's capability check (protected_executor.py)
pub record CapabilityRequest : Type 0 where
  pub effect_key : String
  pub binding_sha256 : String
  pub repository : String
  pub provider_profile_sha256 : String

pub data Document : Type 0 where
  target_document : Target → Document
  binding_document : Binding → Document
  local_document : LocalReady → Document
  branch_request : BranchRequest → Document
  pr_request : PrRequest → Document
  branch_observation : BranchObservation → Document
  pr_observation : PrObservation → Document
  outcome_document : Outcome → Document
  terminal_document : Terminal → Document
  public_document : PublicBinding → Document
  capability_document : CapabilityRequest → Document
  -- the namespace, the intent and its revision, which the effect's key is the hash of
  key_document : String → String → ℕ → Document

pub data Kind : Type 0 where
  bound local_ready branch_possible pr_possible branch_observed pr_observed : Kind
  applied refused conflict : Kind

abbrev rank : Kind → ℕ
rank bound = 0
rank local_ready = 1
rank branch_possible = 2
rank pr_possible = 3
rank branch_observed = 4
rank pr_observed = 5
rank applied = 6
rank refused = 7
rank conflict = 8

abbrev of_rank : ℕ → Kind
of_rank zero = bound
of_rank (suc zero) = local_ready
of_rank (suc (suc zero)) = branch_possible
of_rank (suc (suc (suc zero))) = pr_possible
of_rank (suc (suc (suc (suc zero)))) = branch_observed
of_rank (suc (suc (suc (suc (suc zero))))) = pr_observed
of_rank (suc (suc (suc (suc (suc (suc zero)))))) = applied
of_rank (suc (suc (suc (suc (suc (suc (suc zero))))))) = refused
of_rank (suc (suc (suc (suc (suc (suc (suc (suc n)))))))) = conflict

pub of_rank-rank : (k : Kind) → of_rank (rank k) ≡ k
of_rank-rank bound = refl
of_rank-rank local_ready = refl
of_rank-rank branch_possible = refl
of_rank-rank pr_possible = refl
of_rank-rank branch_observed = refl
of_rank-rank pr_observed = refl
of_rank-rank applied = refl
of_rank-rank refused = refl
of_rank-rank conflict = refl

instance abbrev pub kind_keys : Equality Kind
kind_keys = encoded rank of_rank of_rank-rank

-- the operations that the table publication_spent admits
pub data Operation : Type 0 where
  branch_create pr_create : Operation

abbrev is_pr : Operation → ℕ
is_pr branch_create = 0
is_pr pr_create = 1

abbrev of_is_pr : ℕ → Operation
of_is_pr zero = branch_create
of_is_pr (suc n) = pr_create

pub of_is_pr-is_pr : (o : Operation) → of_is_pr (is_pr o) ≡ o
of_is_pr-is_pr branch_create = refl
of_is_pr-is_pr pr_create = refl

instance abbrev pub operation_keys : Equality Operation
operation_keys = encoded is_pr of_is_pr of_is_pr-is_pr

-- _OPERATION_EVENTS
abbrev pub operation_event : Operation → Kind
operation_event branch_create = branch_possible
operation_event pr_create = pr_possible

abbrev pub is_terminal : Kind → Bool
is_terminal applied = true
is_terminal refused = true
is_terminal conflict = true
is_terminal _ = false

pub record JournalEvent : Type 0 where
  pub seq : ℕ
  pub event_type : Kind
  pub payload_utf8 : String

-- The rows of one effect in the four tables; `spent` has a row for an operation.
pub record Rows : Type 0 where
  pub binding_utf8 : String
  pub protected_copy_utf8 : String
  pub events : List JournalEvent
  pub spent : Dict Operation String
  pub outcome_utf8 : Option String

-- what `_load` makes of them
pub record JournalRecord : Type 0 where
  pub effect_key : String
  pub rows : Rows

-- the database: its metadata, and the rows by the effect's key
pub record Journal : Type 0 where
  pub host_id : String
  pub registry_utf8 : String
  pub records : Dict String Rows

-- the host and the registry that `ExecutionJournal` was opened with
pub record Opened : Type 0 where
  pub host_id : String
  pub registry_utf8 : String
