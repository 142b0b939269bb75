-- ===== src/Examples/Journal.antt =====
-- The documents of a publication in the execution journal.
pub mod Calls
mod Settled
use vuoro.Prelude.{
  ℕ, suc, ◌≤◌, String, Bool, true, false, Option, none, some, List, [], ◌∷◌, ◌≡◌, refl,
  if◌then◌else◌,
}
use vuoro.Prelude.Eq.{◌==◌, string_keys}
use vuoro.Dict.{Dict, get, put}
use vuoro.Reconciler.Journal.{
  Target, Binding, LocalReady, BranchRequest, PrRequest, BranchObservation, PrObservation, Outcome,
  Document, target_document, binding_document, local_document, branch_request, pr_request,
  branch_observation, pr_observation, outcome_document, terminal_document, public_document,
  key_document, Kind, bound, local_ready, branch_possible, pr_possible, branch_observed,
  pr_observed, applied, JournalEvent, Operation, branch_create, pr_create, Rows, JournalRecord,
  Journal, Opened,
}
use vuoro.Reconciler.Journal.Copies.{ProtectedEffect, Copies}
use vuoro.Reconciler.Journal.Format.{Library}
use vuoro.Reconciler.Journal.Verify.{Verified, verify}
use vuoro.Reconciler.Journal.Operations.{append, mark_spent}
use vuoro.Reconciler.Journal.Steps.{
  JournalCall, bind_call, read_call, ready_call, spent_call, observed_call, outcome_call, perform,
  run, firsts,
}

abbrev pub digits : String
digits = "0000000000000000000000000000000000000000000000000000000000000000"

abbrev pub digest : String
digest = "sha256:0000000000000000000000000000000000000000000000000000000000000000"

abbrev pub oid : String
oid = "1111111111111111111111111111111111111111"

abbrev pub branch : String
branch = "vuoro-protected/0000000000000000000000000000000000000000000000000000000000000000"

abbrev pub body : String
body = "why\n\n<!-- vuoro-protected-publication/v1 public -->\n"

abbrev pub effect : ProtectedEffect
effect = record {
  namespace_utf8 = "namespace";
  workspace_id = "w";
  repo_id = "r";
  locator_utf8 = "locator";
  intent_id = "i";
  intent_revision = 1;
  evidence_refs_utf8 = "[]";
  canonical_hash = digest;
  legacy_content_digest = digits;
  repository = "owner/repo";
  source_run = "run";
  parameters = record {
    item_id = 1;
    repository = "owner/repo";
    base_commit = oid;
    title = "title";
    rationale = "why";
    unified_diff = "diff";
  };
  native_run = record { run_id = "run"; principal_id = "p"; client_id = some "c"; grant_id = none };
  work = record { work_item_id = 1; edit_revision = "e" };
  release = record {
    work_item_id = 1;
    aggregate_uuid = "u";
    item_revision = "v";
    release_digest = digits;
    native_acceptance_contract = "{}";
    native_context_refs = "[]";
  };
  acceptance_revision = 1;
  acceptance = record {
    acceptance_id = "a";
    preparation_id = "p";
    accepted_at = "t";
    signature_sha256 = digest;
    challenge_sha256 = digest;
  };
  receipt_id = "receipt";
}

abbrev pub target : Target
target = record { repository = "owner/repo"; head_repository = "owner/repo"; base_branch = "main" }

abbrev pub binding : Binding
binding = record {
  namespace = "namespace";
  intent_id = "i";
  intent_revision = 1;
  canonical_hash = digest;
  legacy_content_digest = digits;
  acceptance_id = "a";
  acceptance_revision = 1;
  preparation_id = "p";
  receipt_id = "receipt";
  accepted_at = "t";
  signature_sha256 = digest;
  challenge_sha256 = digest;
  frozen_reference_set_sha256 = digest;
  registry_sha256 = digest;
  provider_profile_sha256 = digest;
  signing_profile_sha256 = digest;
  publication_target = target;
  signer_fingerprint = oid;
  public_key_sha256 = digest;
}

abbrev pub local : LocalReady
local = record {
  commit_oid = oid;
  tree_oid = oid;
  base_parent_oid = oid;
  message_utf8_b64 = "message";
  message_sha256 = digest;
  signer_fingerprint = oid;
  public_key_sha256 = digest;
  artifact_relative_path = "artifacts/a.json";
  artifact_sha256 = digest;
}

abbrev pub branch_asked : BranchRequest
branch_asked = record {
  effect_key = digits;
  binding_sha256 = digest;
  repository = "owner/repo";
  branch = branch;
  commit_oid = oid;
  base_parent_oid = oid;
  provider_profile_sha256 = digest;
}

abbrev pub branch_found : BranchObservation
branch_found = record {
  effect_key = digits;
  binding_sha256 = digest;
  request_sha256 = digest;
  repository = "owner/repo";
  branch = branch;
  commit_oid = oid;
}

abbrev pub pr_asked : PrRequest
pr_asked = record {
  effect_key = digits;
  binding_sha256 = digest;
  repository = "owner/repo";
  head_repository = "owner/repo";
  branch = branch;
  commit_oid = oid;
  base_branch = "main";
  title = "title";
  body_utf8_b64 = body;
  body_sha256 = digest;
  provider_profile_sha256 = digest;
}

abbrev pub pr_found : PrObservation
pr_found = record {
  effect_key = digits;
  binding_sha256 = digest;
  request_sha256 = digest;
  repository = "owner/repo";
  head_repository = "owner/repo";
  branch = branch;
  commit_oid = oid;
  base_branch = "main";
  title = "title";
  body_utf8_b64 = body;
  body_sha256 = digest;
  pr_number = 7;
  pr_url = "https://forge.example/owner/repo/pull/7";
  state = "open";
}

abbrev pub outcome : Outcome
outcome = record {
  effect_key = digits;
  binding_sha256 = digest;
  commit_oid = oid;
  branch_request_sha256 = digest;
  pr_request_sha256 = digest;
  pr_number = 7;
  pr_url = "https://forge.example/owner/repo/pull/7";
}
