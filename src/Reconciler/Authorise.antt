-- ===== src/Reconciler/Authorise.antt =====
-- The tests of `_process` in reconciler.py before it calls anything: whether the intent was accepted,
-- by someone who may accept it, in this content, and for a repository that is allowed. `sha256_json`
-- is that of the canonical digest.
pub mod Unchanged
pub mod Authorised
use vuoro.Prelude.{
  ℕ, String, Bool, true, false, Option, none, some, List, [], ◌∷◌, ◌&&◌, ◌||◌, not, is_some,
  if◌then◌else◌,
}
use vuoro.Prelude.Eq.{◌==◌, string_keys, option_keys, nat_keys, elem}
use vuoro.Prelude.Result.{Result, ok, err, ◌>>=◌, ◌>>◌, refuse_if}
use vuoro.Dict.{Dict, get}
use vuoro.Text.{is_intent_id}
use vuoro.Reconciler.Intents.{
  PolicyAcceptor, Acceptor, operator, by_policy, Acceptance, EffectIntent, CanonicalBody,
  canonical_digest,
}
use vuoro.Reconciler.Verification.{is_digest}
use vuoro.Reconciler.Acceptance.{AutoAcceptConfig, stale_reason, scope_admits}
use vuoro.Reconciler.DiffPolicy.{DiffPolicy, empty_diff_policy}

pub record ReconcilerConfig : Type 0 where
  pub repository_allowlist : List String
  pub protected_branches : List String
  pub branch_prefix : String
  pub diff_policies : Dict String DiffPolicy
  pub max_lookup_deferral_seconds : ℕ
  pub protected_repositories : List String

unfoldable pub diff_policy_for : ReconcilerConfig → String → DiffPolicy
diff_policy_for config repository = elim (get config.diff_policies repository) [
  | none ↦ empty_diff_policy
  | some p ↦ p
]

-- the operator is who proposed the intent
abbrev pub is_proposer : Acceptor → EffectIntent → Bool
is_proposer (operator subject) intent = subject == intent.proposer_principal
is_proposer (by_policy p) intent = false

module _ (fnmatch : String → String → Bool) where
  abbrev pub not_stale : Option String → Result String (Unit {0})
  not_stale none = ok tt
  not_stale (some reason) = err reason

  -- a policy acceptance holds only under the config as it is now
  unfoldable pub policy_current :
      Option AutoAcceptConfig → Acceptor → EffectIntent → Result String (Unit {0})
  policy_current auto_accept (operator subject) intent = ok tt
  policy_current none (by_policy p) intent = err "policy-acceptor-stale: auto-accept-not-configured"
  policy_current (some config) (by_policy p) intent = do
    not_stale (stale_reason config p)
    refuse_if (not (scope_admits fnmatch p.scope intent [])) "outside-policy-scope"

module _ (sha256_json : CanonicalBody → String) where
  abbrev pub binds : EffectIntent → Acceptance → Bool
  binds intent a =
      is_digest intent.canonical_intent_digest
      && (canonical_digest sha256_json intent == intent.canonical_intent_digest)
      && (a.canonical_intent_digest == some (canonical_digest sha256_json intent))
      && (a.intent_id == some intent.intent_id)
      && (a.intent_revision == some intent.revision)

  -- the recorded acceptance is of this intent, in this content and revision
  unfoldable pub acceptance_matches : EffectIntent → Option Acceptance → Bool
  acceptance_matches intent none = false
  acceptance_matches intent (some a) = binds intent a

abbrev pub principal_matches : Acceptor → Option Acceptance → Bool
principal_matches (operator subject) (some a) = a.acceptor_principal == some subject
principal_matches _ _ = true

module _ (fnmatch : String → String → Bool) (sha256_json : CanonicalBody → String)
    (config : ReconcilerConfig) (auto_accept : Option AutoAcceptConfig) where
  unfoldable pub authorise_by : EffectIntent → Acceptor → Result String Acceptor
  authorise_by intent acceptor = do
    refuse_if (is_proposer acceptor intent) "acceptor-is-proposer"
    policy_current fnmatch auto_accept acceptor intent
    refuse_if (not (is_intent_id intent.intent_id)) "invalid-intent-id"
    refuse_if (not (acceptance_matches sha256_json intent intent.acceptance))
        "acceptance-digest-mismatch"
    refuse_if (not (principal_matches acceptor intent.acceptance)) "acceptance-principal-mismatch"
    refuse_if (not (intent.effect_kind == "diff")) "effect-kind-not-supported"
    refuse_if (not (elem intent.repository config.repository_allowlist))
        "repository-not-allowlisted"
    ok acceptor

  unfoldable pub authorise : EffectIntent → Result String Acceptor
  unfolding authorise_by
  authorise intent = elim intent.acceptor [
    | none ↦ err "no-acceptor"
    | some acceptor ↦ authorise_by intent acceptor
  ]
