-- ===== src/Examples/Reconciler.antt =====
-- An intent that an operator accepted, with a diff, a policy and a proof (vuoro-reconciler). A digest is
-- one fixed text here.
use mathlib.Core.List.{Memᴰ}
use vuoro.Prelude.{ℕ, ◌≡◌, refl, String, Bool, true, false, Option, none, some, List, [], ◌∷◌}
use vuoro.Prelude.Eq.{◌==◌, string_keys}
use vuoro.Prelude.Result.{Result, ok, err}
use vuoro.Text.{starts_with, has_code, split, is_intent_id}
use vuoro.Reconciler.Intents.{
  PolicyAcceptor, operator, Acceptance, EffectIntent, CanonicalBody, canonical_digest, Receipt,
  Proof, proof,
}
use vuoro.Reconciler.DiffPolicy.{
  DiffPolicy, StagedChange, check_changes, is_unsupported_path, is_path_safe, is_git_control_path,
  is_allowlisted, is_protected,
}
use vuoro.Reconciler.DiffPolicy.Permitted.{Permitted, check_changes-Permitted}
use vuoro.Reconciler.DiffPolicy.Content.{check_text, PlainText, check_text-plain}
use vuoro.Reconciler.Verification.{validate_verification, is_digest}
use vuoro.Reconciler.Verification.Bound.{Verified, validate_verification-Verified}
use vuoro.Reconciler.Acceptance.{AutoAcceptPolicy, AutoAcceptConfig}
use vuoro.Reconciler.Authorise.{ReconcilerConfig, authorise, policy_current, acceptance_matches}
use vuoro.Reconciler.Authorise.Authorised.{Authorised, authorise-Authorised}

abbrev pub same_text : String → String
same_text s = s

abbrev pub printable : String → Bool
printable s = true

abbrev pub fnmatch : String → String → Bool
fnmatch path pattern = path == pattern

abbrev docs : DiffPolicy
docs = record { path_allowlist = "docs/old.md" ∷ []; protected_path_patterns = [] }

abbrev pub new_page : StagedChange
new_page = record {
  path = "docs/new.md";
  status = "A";
  old_mode = "000000";
  new_mode = "100644";
  binary = false;
  new_sha = "1";
}

abbrev old_page : StagedChange
old_page = record {
  path = "docs/old.md";
  status = "D";
  old_mode = "100644";
  new_mode = "000000";
  binary = false;
  new_sha = "0";
}

pages_pass : check_changes same_text printable fnmatch (new_page ∷ old_page ∷ []) docs ≡ ok tt
unfolding check_changes is_allowlisted is_protected is_unsupported_path has_code starts_with
    is_path_safe split is_git_control_path
pages_pass = refl

attributes_refused :
    check_changes same_text printable fnmatch
      (record new_page { path = "docs/.gitattributes" } ∷ [])
      docs
    ≡ err "git-control-file-refused"
unfolding check_changes is_unsupported_path has_code starts_with is_path_safe split
    is_git_control_path
attributes_refused = refl

check_changes-Permitted_example : Permitted same_text printable fnmatch docs old_page
check_changes-Permitted_example =
    check_changes-Permitted same_text printable fnmatch docs (new_page ∷ old_page ∷ []) old_page
      (Memᴰ.tail (Memᴰ.head refl)) pages_pass

abbrev pub bytes_are_codes : List ℕ → Option (List ℕ)
bytes_are_codes bytes = some bytes

abbrev pub crlf_text : List ℕ
crlf_text = 65 ∷ 13 ∷ 10 ∷ []

check_text-plain_example : PlainText bytes_are_codes crlf_text
unfolding check_text
check_text-plain_example = check_text-plain bytes_are_codes crlf_text refl

abbrev pub sha256_json : CanonicalBody → String
sha256_json body = "0123456789abcdef0123456789abcdef0123456789abcdef0123456789abcdef"

abbrev digest : String
digest = "0123456789abcdef0123456789abcdef0123456789abcdef0123456789abcdef"

abbrev acceptance : Acceptance
acceptance = record {
  canonical_intent_digest = some digest;
  intent_id = some "i1";
  intent_revision = some 1;
  acceptor_principal = some "alice";
  verification = none;
}

abbrev pub intent : EffectIntent
intent = record {
  intent_id = "i1";
  run_id = "r";
  repository = "repo";
  base_commit = "b";
  title = "t";
  rationale = "why";
  unified_diff = "diff";
  workspace_id = "w";
  proposer_principal = "bob";
  item_id = 1;
  revision = 1;
  canonical_intent_digest = digest;
  acceptance = some acceptance;
  effect_kind = "diff";
  acceptor = some (operator "alice");
  release_digest = none;
}

abbrev pub config : ReconcilerConfig
config = record {
  repository_allowlist = "repo" ∷ [];
  protected_branches = "main" ∷ [];
  branch_prefix = "vuoro-effect";
  diff_policies = [];
  max_lookup_deferral_seconds = 1800;
  protected_repositories = [];
}

alice_may : authorise fnmatch sha256_json config none intent ≡ ok (operator "alice")
unfolding authorise policy_current is_intent_id acceptance_matches is_digest canonical_digest
alice_may = refl

bob_may_not :
    authorise fnmatch sha256_json config none (record intent { acceptor = some (operator "bob") })
    ≡ err "acceptor-is-proposer"
unfolding authorise
bob_may_not = refl

authorise-Authorised_example : Authorised fnmatch sha256_json config none intent (operator "alice")
authorise-Authorised_example =
    authorise-Authorised fnmatch sha256_json config none intent (operator "alice") alice_may

abbrev policy : AutoAcceptPolicy
policy = record {
  id = "docs";
  enabled = true;
  workspace_id = "w";
  effect_kinds = "diff" ∷ [];
  repository = some "repo";
  path_globs = none;
}

abbrev auto : AutoAcceptConfig
auto = record { version = some 3; policies = policy ∷ []; digest = some "d" }

abbrev no_paths : String → Result String (List String)
no_paths diff = ok []

abbrev by_docs : PolicyAcceptor
by_docs = record {
  policy_id = "docs";
  version = 3;
  config_digest = "d";
  scope = record {
    workspace_id = "w";
    repository = some "repo";
    effect_kinds = "diff" ∷ [];
    path_globs = none;
  };
}

abbrev pub not_blank : String → Bool
not_blank s = s == ""

abbrev sha : String
sha = "sha256:0123456789abcdef0123456789abcdef0123456789abcdef0123456789abcdef"

abbrev pub digest_of : String → String
digest_of s = "0123456789abcdef0123456789abcdef0123456789abcdef0123456789abcdef"

abbrev pub receipt_json : Receipt → String
receipt_json r = r.schema

abbrev receipt : Receipt
receipt = record {
  schema = "sprintctl-protected-artifact-verification/v1";
  intent_id = "i1";
  intent_revision = 1;
  canonical_intent_digest = digest;
  release_digest = "rel";
  artifact_domain = "utf8-unified-diff/v1";
  artifact_digest = sha;
  checks = record { name = "tests"; revision = sha; status = "passed" } ∷ [];
}

abbrev evidence : Proof
evidence = record {
  run_id = "r";
  item_id = "i";
  evidence_digest = sha;
  entry_digest = sha;
  verifier_principal = "alice";
  workspace_id = "w";
  client_id = none;
  grant_id = none;
  receipt = receipt;
}

abbrev verified_acceptance : Acceptance
verified_acceptance = record acceptance { verification = some (proof evidence) }

abbrev verified : EffectIntent
verified = record intent { acceptance = some verified_acceptance; release_digest = some "rel" }

validate_verification-Verified_example :
    (p : Proof) × (proof evidence ≡ proof p)
    × Verified not_blank digest_of receipt_json verified (some "alice") p
unfolding validate_verification starts_with
validate_verification-Verified_example =
    validate_verification-Verified not_blank digest_of receipt_json verified verified_acceptance
      (proof evidence) true refl refl refl
