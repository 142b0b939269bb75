-- ===== src/Reconciler/Journal/Payload.antt =====
-- What a document binds: `_binding`, `effect_key`, `_public_binding` and `_payload` of
-- execution_journal.py. `seen` is the dict of the documents of the events so far.
use Prim.Native.String.{◌++◌}
use vuoro.Prelude.{
  String, Bool, false, Option, none, some, ◌&&◌, ◌||◌, leb, nat_eq, is_some, if◌then◌else◌,
}
use Prim.Native.String.{count}
use vuoro.Prelude.Eq.{◌==◌, string_keys, nat_keys, option_keys}
use vuoro.Dict.{get}
use vuoro.Reconciler.Journal.{
  Binding, LocalReady, BranchRequest, PrRequest, BranchObservation, PrObservation, Outcome,
  Terminal, Document, Kind, bound, local_ready, branch_possible, pr_possible, branch_observed,
  pr_observed, applied, refused, conflict, kind_keys, Operation, branch_create, pr_create,
  operation_event, JournalRecord,
}
use vuoro.Reconciler.Journal.Copies.{ProtectedEffect, effect_keys}
use vuoro.Reconciler.Journal.Format.{
  Library, ◌>>=◌, ◌>>◌, need, holds, is_text, is_integer, is_digest, is_fingerprint, is_artifact,
  hash, read, b64, is_url,
}
use vuoro.Reconciler.Journal.Bindings.{
  Seen, as_local, as_branch_request, as_pr_request, as_branch_observation, as_pr_observation,
  as_outcome, as_terminal, seen_local, seen_branch_request, seen_pr_request, seen_pr_observation,
  operation_text, limit, public_binding, body_of, request_hash,
}

module _ (l : Library) where
  module _ (r : JournalRecord) (seen : Seen) (effect : ProtectedEffect) (binding : Binding) where
    -- LOCAL_READY
    unfoldable pub accepts_local : LocalReady → Bool
    accepts_local v =
        is_fingerprint v.commit_oid
        && is_fingerprint v.tree_oid
        && is_fingerprint v.base_parent_oid
        && nat_eq (count v.commit_oid) (count effect.parameters.base_commit)
        && nat_eq (count v.tree_oid) (count effect.parameters.base_commit)
        && nat_eq (count v.base_parent_oid) (count effect.parameters.base_commit)
        && (v.base_parent_oid == effect.parameters.base_commit)
        && (v.signer_fingerprint == binding.signer_fingerprint)
        && (v.public_key_sha256 == binding.public_key_sha256)
        && is_digest v.artifact_sha256
        && is_text v.artifact_relative_path 1024
        && is_artifact v.artifact_relative_path
        && holds (b64 l v.message_utf8_b64 16384) (λ message. v.message_sha256 == hash l message)

    -- the effect and the binding that a document names
    abbrev pub names_binding : String → String → Bool
    names_binding key digest = (key == r.effect_key) && (digest == hash l r.rows.binding_utf8)

    -- the operation that a terminal event names, and the hash of its request
    abbrev pub names_request : Terminal → Operation → Bool
    names_request v op =
        (v.operation == some (operation_text op))
        && is_some (get seen (operation_event op))
        && (v.request_sha256 == request_hash l seen op)

    -- REFUSED
    unfoldable pub accepts_refused : Terminal → Bool
    accepts_refused v =
        names_binding v.effect_key v.binding_sha256
        && (v.reason == "original-pr-closed")
        && names_request v pr_create
        && holds (seen_pr_observation seen) (λ o. o.state == "closed")

    -- CONFLICT
    unfoldable pub accepts_conflict : Terminal → Bool
    accepts_conflict v =
        names_binding v.effect_key v.binding_sha256
        && (if v.reason == "original-artifact-mismatch"
            then (v.operation == none) && (v.request_sha256 == none) && is_some (seen_local seen)
            else (if v.reason == "original-branch-mismatch"
                then names_request v branch_create
                else (v.reason == "original-pr-mismatch") && names_request v pr_create))

    -- the commit, the repository and the branch that every later document repeats
    abbrev pub names_commit : String → String → String → Bool
    names_commit commit repository branch =
        holds (seen_local seen) (λ local. commit == local.commit_oid)
        && (repository == effect.repository)
        && (branch == "vuoro-protected/" ++ r.effect_key)

    -- BRANCH_TRANSMISSION_POSSIBLE
    unfoldable pub accepts_branch_request : BranchRequest → Bool
    accepts_branch_request v =
        names_binding v.effect_key v.binding_sha256
        && names_commit v.commit_oid v.repository v.branch
        && (v.provider_profile_sha256 == binding.provider_profile_sha256)
        && holds (seen_local seen) (λ local. v.base_parent_oid == local.base_parent_oid)

    -- the body that is expected of a pull request after LOCAL_READY
    abbrev pub is_body : PrRequest → LocalReady → Bool
    is_body v local =
        leb (l.size (public_binding l r binding local effect)) 8192
        && holds (b64 l v.body_utf8_b64 32768)
            (λ body. (body == body_of l r binding local effect) && (v.body_sha256 == hash l body))

    -- PR_TRANSMISSION_POSSIBLE
    unfoldable pub accepts_pr_request : PrRequest → Bool
    accepts_pr_request v =
        names_binding v.effect_key v.binding_sha256
        && names_commit v.commit_oid v.repository v.branch
        && (v.head_repository == binding.publication_target.head_repository)
        && (v.base_branch == binding.publication_target.base_branch)
        && (v.provider_profile_sha256 == binding.provider_profile_sha256)
        && is_some (get seen branch_observed)
        && (v.title == effect.parameters.title)
        && holds (seen_local seen) (is_body v)

    -- BRANCH_OBSERVED
    unfoldable pub accepts_branch_observation : BranchObservation → Bool
    accepts_branch_observation v =
        names_binding v.effect_key v.binding_sha256
        && names_commit v.commit_oid v.repository v.branch
        && (some v.request_sha256 == request_hash l seen branch_create)
        && holds (seen_branch_request seen) (λ q.
          (v.effect_key == q.effect_key)
          && (v.binding_sha256 == q.binding_sha256)
          && (v.repository == q.repository)
          && (v.branch == q.branch)
          && (v.commit_oid == q.commit_oid))

    abbrev pub repeats_request : PrObservation → PrRequest → Bool
    repeats_request v q =
        (v.effect_key == q.effect_key)
        && (v.binding_sha256 == q.binding_sha256)
        && (v.repository == q.repository)
        && (v.head_repository == q.head_repository)
        && (v.branch == q.branch)
        && (v.commit_oid == q.commit_oid)
        && (v.base_branch == q.base_branch)
        && (v.title == q.title)
        && (v.body_utf8_b64 == q.body_utf8_b64)
        && (v.body_sha256 == q.body_sha256)

    -- PR_OBSERVED
    unfoldable pub accepts_pr_observation : PrObservation → Bool
    accepts_pr_observation v =
        names_binding v.effect_key v.binding_sha256
        && names_commit v.commit_oid v.repository v.branch
        && (v.head_repository == binding.publication_target.head_repository)
        && (v.base_branch == binding.publication_target.base_branch)
        && (some v.request_sha256 == request_hash l seen pr_create)
        && holds (seen_pr_request seen) (repeats_request v)
        && is_integer v.pr_number
        && is_text v.pr_url 2048
        && is_url l v.pr_url
        && (v.state == "open" || v.state == "merged" || v.state == "closed")

    -- APPLIED
    unfoldable pub accepts_outcome : Outcome → Bool
    accepts_outcome v =
        names_binding v.effect_key v.binding_sha256
        && holds (seen_local seen) (λ local. v.commit_oid == local.commit_oid)
        && holds (seen_pr_observation seen) (λ o. o.state == "open" || o.state == "merged")
        && (some v.branch_request_sha256 == request_hash l seen branch_create)
        && (some v.pr_request_sha256 == request_hash l seen pr_create)
        && holds (seen_pr_observation seen)
            (λ o. nat_eq v.pr_number o.pr_number && (v.pr_url == o.pr_url))

    -- the checks of `_payload`, by the event's type
    abbrev pub accepts : Kind → Document → Bool
    accepts bound d = false
    accepts local_ready d = holds (as_local d) accepts_local
    accepts branch_possible d = holds (as_branch_request d) accepts_branch_request
    accepts pr_possible d = holds (as_pr_request d) accepts_pr_request
    accepts branch_observed d = holds (as_branch_observation d) accepts_branch_observation
    accepts pr_observed d = holds (as_pr_observation d) accepts_pr_observation
    accepts applied d = holds (as_outcome d) accepts_outcome
    accepts refused d = holds (as_terminal d) accepts_refused
    accepts conflict d = holds (as_terminal d) accepts_conflict

    -- _payload
    unfoldable pub payload : Kind → String → Option Document
    payload kind raw = read l raw (limit kind) >>= λ value. need (accepts kind value) >> some value
