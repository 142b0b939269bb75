-- ===== src/Reconciler/Currentness/Ready.antt =====
-- When a basis is READY (protected_currentness.py).
use vuoro.Prelude.{
  both_true, String, Bool, true, false, Option, none, some, ◌≡◌, ◌≢◌, ◌⊎◌, ◌↔◌, refl, inl, inr, not,
  ◌&&◌, ap, ◌∙◌, nat_eq_iff, if◌then◌else◌, arith,
}
use vuoro.Prelude.Eq.{◌==◌, string_keys}
use vuoro.Reconciler.Journal.Copies.{ProtectedEffect, parameters_keys, native_run_keys}
use vuoro.Reconciler.Currentness.{
  Basis, Release, Currentness, ready, refused, release_keys, same_terms, same_run, same_work,
  expected_release, status_currentness, release_currentness, evaluate_currentness,
}

-- the basis is the one that the effect was accepted on, and its work is open
pub record Matches (effect : ProtectedEffect) (basis : Basis) : Type 0 where
  pub repo_id : basis.repo_id ≡ effect.repo_id
  pub workspace_id : basis.workspace_id ≡ effect.workspace_id
  pub intent_id : basis.intent.intent_id ≡ effect.intent_id
  pub revision : basis.intent.revision ≡ effect.intent_revision
  pub parameters : basis.intent.parameters ≡ effect.parameters
  pub content : basis.intent.canonical_intent_digest ≡ effect.legacy_content_digest
  pub release_digest : basis.intent.release_digest ≡ effect.release.release_digest
  pub run_id : basis.intent.run_id ≡ effect.source_run
  pub run : basis.run ≡ effect.native_run
  pub work_item : basis.work.work_item_id ≡ effect.work.work_item_id
  pub aggregate : basis.work.aggregate_uuid ≡ effect.release.aggregate_uuid
  pub edit_revision : basis.work.edit_revision ≡ effect.work.edit_revision
  pub item_revision : basis.work.item_revision ≡ effect.release.item_revision
  pub release : basis.release ≡ some (expected_release effect.release)
  pub open_work : (basis.status ≡ "pending") ⊎ (basis.status ≡ "active")

-- a rung of the ladder that does not refuse
passed :
    (b : Bool) (why rest : Option Currentness)
    → (why ≢ some ready)
    → (if not b then why else rest) ≡ some ready
    → (b ≡ true) × (rest ≡ some ready)
passed true why rest h e = (refl, e)
passed false why rest h e = elim (h e) [ ]

goes_on :
    (b : Bool) (why rest : Option Currentness) → b ≡ true → (if not b then why else rest) ≡ rest
goes_on b why rest h = ground arith

if_true : (b : Bool) (x y : Option Currentness) → b ≡ true → (if b then x else y) ≡ x
if_true b x y h = ground arith

status-ready :
    (status : String)
    → status_currentness status ≡ some ready
    → (status ≡ "pending") ⊎ (status ≡ "active")
unfolding status_currentness
status-ready status h =
    ground (arith, string_keys.decides status "pending", string_keys.decides status "active")

release-ready :
    (effect : ProtectedEffect) (basis : Basis) (o : Option Release)
    → release_currentness effect basis o ≡ some ready
    → (o ≡ some (expected_release effect.release)) × (status_currentness basis.status ≡ some ready)
unfolding release_currentness
release-ready effect basis none h = cc
release-ready effect basis (some selected) h =
    ground (arith, release_keys.decides selected (expected_release effect.release))

status-open :
    (status : String)
    → (status ≡ "pending") ⊎ (status ≡ "active")
    → status_currentness status ≡ some ready
unfolding status_currentness
status-open status (inl p) = ap status_currentness p
status-open status (inr a) = ap status_currentness a

terms_iff :
    (effect : ProtectedEffect) (basis : Basis)
    → (same_terms effect basis ≡ true) ↔ (
        (basis.intent.intent_id ≡ effect.intent_id)
        × (basis.intent.revision ≡ effect.intent_revision)
        × (basis.intent.parameters ≡ effect.parameters)
        × (basis.intent.canonical_intent_digest ≡ effect.legacy_content_digest))
terms_iff effect basis = ground (
  arith,
  string_keys.decides basis.intent.intent_id effect.intent_id,
  nat_eq_iff basis.intent.revision effect.intent_revision,
  parameters_keys.decides basis.intent.parameters effect.parameters,
  string_keys.decides basis.intent.canonical_intent_digest effect.legacy_content_digest,
)

run_iff :
    (effect : ProtectedEffect) (basis : Basis)
    → (same_run effect basis ≡ true) ↔ (
        (basis.intent.release_digest ≡ effect.release.release_digest)
        × (basis.intent.run_id ≡ effect.source_run)
        × (basis.run ≡ effect.native_run))
run_iff effect basis = ground (
  arith,
  string_keys.decides basis.intent.release_digest effect.release.release_digest,
  string_keys.decides basis.intent.run_id effect.source_run,
  native_run_keys.decides basis.run effect.native_run,
)

work_iff :
    (effect : ProtectedEffect) (basis : Basis)
    → (same_work effect basis ≡ true) ↔ (
        (basis.work.work_item_id ≡ effect.work.work_item_id)
        × (basis.work.aggregate_uuid ≡ effect.release.aggregate_uuid)
        × (basis.work.edit_revision ≡ effect.work.edit_revision)
        × (basis.work.item_revision ≡ effect.release.item_revision))
work_iff effect basis = ground (
  arith,
  nat_eq_iff basis.work.work_item_id effect.work.work_item_id,
  string_keys.decides basis.work.aggregate_uuid effect.release.aggregate_uuid,
  string_keys.decides basis.work.edit_revision effect.work.edit_revision,
  string_keys.decides basis.work.item_revision effect.release.item_revision,
)

ready-Matches :
    (is_decoded : Basis → Bool) (effect : ProtectedEffect) (basis : Basis)
    → evaluate_currentness is_decoded effect basis ≡ some ready
    → (is_decoded basis ≡ true) × Matches effect basis
unfolding evaluate_currentness
ready-Matches is_decoded effect basis h =
    let (decoded, h1) = passed (is_decoded basis) none _ (λ e. cc) h in
    let (place, h2) =
      passed ((basis.repo_id == effect.repo_id) && (basis.workspace_id == effect.workspace_id)) _ _
        (λ e. cc) h1 in
    let (intent, h3) = passed (same_terms effect basis && same_run effect basis) _ _ (λ e. cc) h2 in
    let (work, h4) = passed (same_work effect basis) _ _ (λ e. cc) h3 in
    let (release, status) = release-ready effect basis basis.release h4 in
    let (terms, run) = both_true (same_terms effect basis) _ intent in
    let (id, revision, parameters, content) = (terms_iff effect basis).0 terms in
    let (digest, run_id, native) = (run_iff effect basis).0 run in
    let (item, aggregate, edit, item_revision) = (work_iff effect basis).0 work in
    (
      decoded,
      record {
        repo_id = (string_keys.decides basis.repo_id effect.repo_id).0 (both_true _ _ place).0;
        workspace_id =
            (string_keys.decides basis.workspace_id effect.workspace_id).0
              (both_true (basis.repo_id == effect.repo_id) _ place).1;
        intent_id = id;
        revision = revision;
        parameters = parameters;
        content = content;
        release_digest = digest;
        run_id = run_id;
        run = native;
        work_item = item;
        aggregate = aggregate;
        edit_revision = edit;
        item_revision = item_revision;
        release = release;
        open_work = status-ready basis.status status;
      },
    )

Matches-ready :
    (is_decoded : Basis → Bool) (effect : ProtectedEffect) (basis : Basis)
    → is_decoded basis ≡ true
    → Matches effect basis
    → evaluate_currentness is_decoded effect basis ≡ some ready
unfolding evaluate_currentness release_currentness
Matches-ready is_decoded effect basis decoded m =
    let terms = (terms_iff effect basis).1 (m.intent_id, m.revision, m.parameters, m.content) in
    let run = (run_iff effect basis).1 (m.release_digest, m.run_id, m.run) in
    let work =
      (work_iff effect basis).1 (m.work_item, m.aggregate, m.edit_revision, m.item_revision) in
    let repo = (string_keys.decides basis.repo_id effect.repo_id).1 m.repo_id in
    let workspace = (string_keys.decides basis.workspace_id effect.workspace_id).1 m.workspace_id in
    let selected =
      (release_keys.decides (expected_release effect.release) (expected_release effect.release)).1
        refl in
    goes_on (is_decoded basis) none _ decoded
    ∙ goes_on ((basis.repo_id == effect.repo_id) && (basis.workspace_id == effect.workspace_id))
        (some (refused "effect-basis-changed")) _ (ground (arith, repo, workspace))
    ∙ goes_on (same_terms effect basis && same_run effect basis)
        (some (refused "effect-basis-changed")) _ (ground (arith, terms, run))
    ∙ goes_on (same_work effect basis) (some (refused "effect-basis-changed")) _ work
    ∙ ap (release_currentness effect basis) m.release
    ∙ if_true _ _ _ selected
    ∙ status-open basis.status m.open_work

-- A basis is READY exactly where it decodes to itself, it is the repository, the workspace, the intent,
-- the run and the work that the effect was accepted on, its release is the one of the copy, and its work
-- is pending or active.
pub ready_iff_Matches :
    (is_decoded : Basis → Bool) (effect : ProtectedEffect) (basis : Basis)
    → (evaluate_currentness is_decoded effect basis ≡ some ready)
      ↔ ((is_decoded basis ≡ true) × Matches effect basis)
ready_iff_Matches is_decoded effect basis =
    (ready-Matches is_decoded effect basis, λ (d, m). Matches-ready is_decoded effect basis d m)
