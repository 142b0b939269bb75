-- ===== src/Examples/Executor.antt =====
-- Two runs of the protected executor, with a restart between them.
use vuoro.Prelude.{
  ◌≤◌, String, true, false, Option, none, some, List, [], ◌∷◌, ◌≡◌, ◌↔◌, if◌then◌else◌, ltb,
}
use vuoro.Prelude.Result.{ok}
use vuoro.Prelude.Eq.{string_keys}
use vuoro.Reconciler.Journal.{Operation, branch_create, pr_create}
use vuoro.Reconciler.Journal.Once.{has_spent}
use vuoro.Reconciler.Currentness.{Basis, ready, evaluate_currentness, expected_release}
use vuoro.Reconciler.Currentness.Ready.{Matches, ready_iff_Matches}
use vuoro.Reconciler.Executor.{Call, committed, ProviderResult, Outside}
use vuoro.Reconciler.Executor.Run.{drive}
use vuoro.Reconciler.Executor.Turn.{creates}
use vuoro.Reconciler.Executor.Safe.Once.{opening, created_once}
use vuoro.Examples.Journal.{digits, digest, oid, effect}
use vuoro.Examples.Journal.Calls.{library, copies, opened, empty}

abbrev basis : Basis
basis = record {
  intent = record {
    intent_id = "i";
    revision = 1;
    parameters = effect.parameters;
    canonical_intent_digest = digits;
    release_digest = digits;
    run_id = "run";
  };
  run = effect.native_run;
  work = record {
    work_item_id = 1;
    aggregate_uuid = "u";
    edit_revision = "e";
    item_revision = "v";
  };
  release = some (expected_release effect.release);
  repo_id = "r";
  workspace_id = "w";
  status = "active";
}

abbrev answer : String → String → Option String → ProviderResult
answer operation status observation = record {
  operation = operation;
  effect_key = digits;
  binding_sha256 = digest;
  request_sha256 = digest;
  status = status;
  observation_utf8 = observation;
}

-- an operation is observed once it was created
abbrev looked_up : List Call → Operation → ProviderResult
looked_up calls branch_create =
    if ltb 0 (creates digits branch_create calls)
    then answer "branch-lookup" "OBSERVED" (some "branch-observation")
    else answer "branch-lookup" "ABSENT" none
looked_up calls pr_create =
    if ltb 0 (creates digits pr_create calls)
    then answer "pr-lookup" "OBSERVED" (some "pr-observation")
    else answer "pr-lookup" "ABSENT" none

abbrev created : Operation → ProviderResult
created branch_create = answer "branch-create" "TRANSMISSION_POSSIBLE" none
created pr_create = answer "pr-create" "TRANSMISSION_POSSIBLE" none

abbrev forge : Outside
forge = record {
  profiles = record {
    provider_profile_sha256 = digest;
    signing_profile_sha256 = digest;
    signing_fingerprint = oid;
    public_key_sha256 = digest;
    base_branch = "main";
  };
  check_registered = λ calls. true;
  read_copy = λ calls acceptance_id. ok (record { wire_utf8 = "copy"; effect = effect });
  decode = λ acceptance_id wire. some effect;
  read_basis = λ calls e. ok basis;
  is_decoded = λ b. true;
  verify_original = λ calls e r. ok "local";
  prepare_original = λ calls e r. ok "local";
  fresh_capability = λ calls r. ok (answer "capability-check" "CAPABILITY_PRESENT" none);
  lookup = λ calls r op. ok (looked_up calls op);
  create = λ calls r op. ok (created op);
  commit = λ calls. committed;
}

abbrev two_runs : List (Option String)
two_runs = some "a" ∷ none ∷ some "a" ∷ []

created_once_example :
    (creates digits branch_create (drive library copies opened forge two_runs (opening empty)).calls
      ≤ 1)
    × (has_spent
            (drive library copies opened forge two_runs (opening empty)).journal
            digits
            branch_create
          ≡ false
        → creates digits branch_create
            (drive library copies opened forge two_runs (opening empty)).calls
          ≡ 0)
created_once_example = created_once library copies opened forge digits branch_create empty two_runs

ready_iff_Matches_example :
    (evaluate_currentness (λ b. true) effect basis ≡ some ready)
    ↔ ((true ≡ true) × Matches effect basis)
ready_iff_Matches_example = ready_iff_Matches (λ b. true) effect basis
