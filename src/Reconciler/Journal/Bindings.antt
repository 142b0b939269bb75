-- ===== src/Reconciler/Journal/Bindings.antt =====
-- The documents that an effect is bound and published by: `_binding`, `effect_key` and
-- `_public_binding` of execution_journal.py, and the views of the dict of documents, `seen`.
use Prim.Native.String.{◌++◌}
use vuoro.Prelude.{ℕ, String, Option, none, some, ◌&&◌}
use vuoro.Prelude.Eq.{◌==◌, string_keys, nat_keys, option_keys}
use vuoro.Dict.{Dict, get}
use vuoro.Reconciler.Journal.{
  Target, Binding, LocalReady, BranchRequest, PrRequest, BranchObservation, PrObservation, Outcome,
  Terminal, Document, target_document, binding_document, local_document, branch_request, pr_request,
  branch_observation, pr_observation, outcome_document, terminal_document, public_document,
  key_document, Kind, local_ready, branch_possible, pr_possible, pr_observed, kind_keys, Operation,
  branch_create, pr_create, operation_event, JournalRecord,
}
use vuoro.Reconciler.Journal.Copies.{ProtectedEffect, Copies, effect_keys}
use vuoro.Reconciler.Journal.Format.{
  Library, ◌>>=◌, ◌>>◌, need, is_digest, is_fingerprint, is_branch, hash,
}

abbrev pub Seen : Type 0
Seen = Dict Kind Document

-- `_closed` with the schema: the document of each field set
abbrev pub as_target : Document → Option Target
as_target (target_document t) = some t
as_target _ = none

abbrev pub as_binding : Document → Option Binding
as_binding (binding_document b) = some b
as_binding _ = none

abbrev pub as_local : Document → Option LocalReady
as_local (local_document v) = some v
as_local _ = none

abbrev pub as_branch_request : Document → Option BranchRequest
as_branch_request (branch_request v) = some v
as_branch_request _ = none

abbrev pub as_pr_request : Document → Option PrRequest
as_pr_request (pr_request v) = some v
as_pr_request _ = none

abbrev pub as_branch_observation : Document → Option BranchObservation
as_branch_observation (branch_observation v) = some v
as_branch_observation _ = none

abbrev pub as_pr_observation : Document → Option PrObservation
as_pr_observation (pr_observation v) = some v
as_pr_observation _ = none

abbrev pub as_outcome : Document → Option Outcome
as_outcome (outcome_document v) = some v
as_outcome _ = none

abbrev pub as_terminal : Document → Option Terminal
as_terminal (terminal_document v) = some v
as_terminal _ = none

-- seen.get("LOCAL_READY"), seen["BRANCH_TRANSMISSION_POSSIBLE"] and the others
abbrev pub seen_local : Seen → Option LocalReady
seen_local seen = get seen local_ready >>= as_local

abbrev pub seen_branch_request : Seen → Option BranchRequest
seen_branch_request seen = get seen branch_possible >>= as_branch_request

abbrev pub seen_pr_request : Seen → Option PrRequest
seen_pr_request seen = get seen pr_possible >>= as_pr_request

abbrev pub seen_pr_observation : Seen → Option PrObservation
seen_pr_observation seen = get seen pr_observed >>= as_pr_observation

abbrev pub operation_text : Operation → String
operation_text branch_create = "branch-create"
operation_text pr_create = "pr-create"

abbrev pub limit : Kind → ℕ
limit local_ready = 16384
limit branch_possible = 16384
limit pr_possible = 65536
limit pr_observed = 65536
limit _ = 8192

module _ (l : Library) (c : Copies) where
  -- _binding
  unfoldable pub make_binding :
      ProtectedEffect → String → String → String → Target → String → String → Option Binding
  make_binding effect registry provider signing target fingerprint public_key =
      need (c.assert_effect effect)
      >> need
          (is_digest registry && is_digest provider && is_digest signing && is_digest public_key)
      >> need (is_fingerprint fingerprint)
      >> need (
          target.repository == target.head_repository
          && target.head_repository == effect.repository)
      >> need (is_branch target.base_branch)
      >> some (record {
        namespace = effect.namespace_utf8;
        intent_id = effect.intent_id;
        intent_revision = effect.intent_revision;
        canonical_hash = effect.canonical_hash;
        legacy_content_digest = effect.legacy_content_digest;
        acceptance_id = effect.acceptance.acceptance_id;
        acceptance_revision = effect.acceptance_revision;
        preparation_id = effect.acceptance.preparation_id;
        receipt_id = effect.receipt_id;
        accepted_at = effect.acceptance.accepted_at;
        signature_sha256 = effect.acceptance.signature_sha256;
        challenge_sha256 = effect.acceptance.challenge_sha256;
        frozen_reference_set_sha256 = hash l effect.evidence_refs_utf8;
        registry_sha256 = registry;
        provider_profile_sha256 = provider;
        signing_profile_sha256 = signing;
        publication_target = target;
        signer_fingerprint = fingerprint;
        public_key_sha256 = public_key;
      })

  -- effect_key
  unfoldable pub effect_key : ProtectedEffect → Option String
  effect_key effect =
      need (c.assert_effect effect)
      >> some (
          l.sha256 (
            l.canonical
              (key_document effect.namespace_utf8 effect.intent_id effect.intent_revision)))

module _ (l : Library) where
  -- `_canonical` of `_public_binding`
  unfoldable pub public_binding : JournalRecord → Binding → LocalReady → ProtectedEffect → String
  unfolding hash
  public_binding r binding local effect = l.canonical (
      public_document (record {
        effect_key = r.effect_key;
        binding_sha256 = hash l r.rows.binding_utf8;
        locator_utf8_b64 = l.b64encode effect.locator_utf8;
        canonical_hash = binding.canonical_hash;
        legacy_content_digest = binding.legacy_content_digest;
        acceptance_id = binding.acceptance_id;
        acceptance_revision = binding.acceptance_revision;
        receipt_id = binding.receipt_id;
        source_run_utf8_b64 = l.b64encode effect.source_run;
        commit_oid = local.commit_oid;
      }))

  -- the text of a pull request
  unfoldable pub body_of : JournalRecord → Binding → LocalReady → ProtectedEffect → String
  unfolding public_binding
  body_of r binding local effect =
      effect.parameters.rationale
      ++ "\n\n<!-- vuoro-protected-publication/v1 "
      ++ l.b64encode (public_binding r binding local effect)
      ++ " -->\n"

  abbrev pub request_hash : Seen → Operation → Option String
  request_hash seen op = get seen (operation_event op) >>= λ d. some (hash l (l.canonical d))
