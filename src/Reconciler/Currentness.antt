-- ===== src/Reconciler/Currentness.antt =====
-- `evaluate_currentness` of protected_currentness.py. A basis has its parts beside their JSON texts, and
-- `is_decoded` says that `decode_current_basis` gives the basis back.
pub mod Ready
use vuoro.Prelude.{
  ℕ, String, Bool, true, false, Option, none, some, not, ◌&&◌, ◌||◌, nat_eq, if◌then◌else◌, refl,
}
use vuoro.Prelude.Eq.{Equality, encoded, pair_keys, ◌==◌, string_keys, nat_keys}
use vuoro.Reconciler.Journal.Copies.{
  ProtectedEffect, Parameters, NativeRun, ReleaseCopy, WorkCopy, parameters_keys, native_run_keys,
}

pub record Intent : Type 0 where
  pub intent_id : String
  pub revision : ℕ
  pub parameters : Parameters
  pub canonical_intent_digest : String
  pub release_digest : String
  pub run_id : String

pub record Work : Type 0 where
  pub work_item_id : ℕ
  pub aggregate_uuid : String
  pub edit_revision : String
  pub item_revision : String

pub record Release : Type 0 where
  pub work_item_id : ℕ
  pub item_revision : String
  pub release_digest : String
  pub acceptance_contract : String
  pub context_refs : String

instance abbrev pub release_keys : Equality Release
release_keys =
    encoded
      (λ r. (
        r.work_item_id,
        (r.item_revision, (r.release_digest, (r.acceptance_contract, r.context_refs))),
      ))
      (λ (w, (i, (d, (c, x)))). record {
        work_item_id = w;
        item_revision = i;
        release_digest = d;
        acceptance_contract = c;
        context_refs = x;
      })
      (λ r. refl)

-- CurrentEffectBasisData
pub record Basis : Type 0 where
  pub intent : Intent
  pub run : NativeRun
  pub work : Work
  pub release : Option Release
  pub repo_id : String
  pub workspace_id : String
  pub status : String

pub data Currentness : Type 0 where
  ready : Currentness
  -- the reason
  refused : String → Currentness
  deferred : String → Currentness

abbrev pub same_terms : ProtectedEffect → Basis → Bool
same_terms effect basis =
    (basis.intent.intent_id == effect.intent_id)
    && nat_eq basis.intent.revision effect.intent_revision
    && (basis.intent.parameters == effect.parameters)
    && (basis.intent.canonical_intent_digest == effect.legacy_content_digest)

abbrev pub same_run : ProtectedEffect → Basis → Bool
same_run effect basis =
    (basis.intent.release_digest == effect.release.release_digest)
    && (basis.intent.run_id == effect.source_run)
    && (basis.run == effect.native_run)

abbrev pub same_work : ProtectedEffect → Basis → Bool
same_work effect basis =
    nat_eq basis.work.work_item_id effect.work.work_item_id
    && (basis.work.aggregate_uuid == effect.release.aggregate_uuid)
    && (basis.work.edit_revision == effect.work.edit_revision)
    && (basis.work.item_revision == effect.release.item_revision)

-- the release that the copy expects
abbrev pub expected_release : ReleaseCopy → Release
expected_release release = record {
  work_item_id = release.work_item_id;
  item_revision = release.item_revision;
  release_digest = release.release_digest;
  acceptance_contract = release.native_acceptance_contract;
  context_refs = release.native_context_refs;
}

-- the end of the ladder: the status of the work
unfoldable pub status_currentness : String → Option Currentness
status_currentness status =
    if status == "blocked"
    then some (deferred "effect-work-blocked")
    else (if status == "done"
        then some (refused "effect-work-settled")
        else (if status == "pending" || status == "active" then some ready else none))

unfoldable pub release_currentness : ProtectedEffect → Basis → Option Release → Option Currentness
release_currentness effect basis none = some (refused "effect-basis-unavailable")
release_currentness effect basis (some selected) =
    if selected == expected_release effect.release
    then status_currentness basis.status
    else some (refused "effect-basis-changed")

-- evaluate_currentness
unfoldable pub evaluate_currentness : (Basis → Bool) → ProtectedEffect → Basis → Option Currentness
evaluate_currentness is_decoded effect basis =
    if not (is_decoded basis)
    then none
    else (if not ((basis.repo_id == effect.repo_id) && (basis.workspace_id == effect.workspace_id))
        then some (refused "effect-basis-changed")
        else (if not (same_terms effect basis && same_run effect basis)
            then some (refused "effect-basis-changed")
            else (if not (same_work effect basis)
                then some (refused "effect-basis-changed")
                else release_currentness effect basis basis.release)))
