-- ===== src/Reconciler/Acceptance.antt =====
-- packages/vuoro-reconciler/src/vuoro_reconciler/acceptance.py: who accepts an intent. The loading of
-- the config file is left out: a config is its version, its policies and its digest.
pub mod Policies
use vuoro.Prelude.{
  ℕ, String, Bool, true, false, Option, none, some, List, [], ◌∷◌, ◌&&◌, ◌||◌, not, any, all,
  is_some, if◌then◌else◌,
}
use vuoro.Prelude.Eq.{◌==◌, string_keys, option_keys, nat_keys, elem}
use vuoro.Prelude.Result.{Result, ok, err, ◌>>=◌, ◌>>◌, refuse_if}
use vuoro.Reconciler.Intents.{
  Scope, PolicyAcceptor, Acceptor, operator, by_policy, Acceptance, EffectIntent, scope_eq,
  verification_of,
}

pub record AutoAcceptPolicy : Type 0 where
  pub id : String
  pub enabled : Bool
  pub workspace_id : String
  pub effect_kinds : List String
  pub repository : Option String
  pub path_globs : Option (List String)

unfoldable pub scope_of : AutoAcceptPolicy → Scope
scope_of p = record {
  workspace_id = p.workspace_id;
  repository = p.repository;
  effect_kinds = p.effect_kinds;
  path_globs = p.path_globs;
}

pub record AutoAcceptConfig : Type 0 where
  pub version : Option ℕ
  pub policies : List AutoAcceptPolicy
  pub digest : Option String

unfoldable pub is_active : AutoAcceptConfig → Bool
is_active config = any (λ (p : AutoAcceptPolicy). p.enabled) config.policies

-- next(policy for policy in policies if policy.id == policy_id)
unfoldable pub policy_named : List AutoAcceptPolicy → String → Option AutoAcceptPolicy
policy_named [] i = none
policy_named (p ∷ ps) i = if p.id == i then some p else policy_named ps i

unfoldable pub stale_by :
    AutoAcceptConfig → PolicyAcceptor → Option AutoAcceptPolicy → Option String
stale_by config a none = some "policy-not-found"
stale_by config a (some p) =
    if not p.enabled
    then some "policy-disabled"
    else if not (some a.version == config.version)
    then some "policy-version-mismatch"
    else if not (some a.config_digest == config.digest)
    then some "policy-config-digest-mismatch"
    else if not (scope_eq a.scope (scope_of p))
    then some "policy-scope-mismatch"
    else none

unfoldable pub stale_reason : AutoAcceptConfig → PolicyAcceptor → Option String
unfolding stale_by policy_named
stale_reason config a = stale_by config a (policy_named config.policies a.policy_id)

unfoldable pub legacy_execution_excluded : EffectIntent → List String → Bool
unfolding verification_of
legacy_execution_excluded intent protected_repositories =
    elem intent.repository protected_repositories || is_some (verification_of intent.acceptance)

abbrev pub repository_admits : Option String → String → Bool
repository_admits none r = true
repository_admits (some s) r = s == r

module _ (fnmatch : String → String → Bool) where
  abbrev globs_cover : Option (List String) → String → Bool
  globs_cover none path = true
  globs_cover (some globs) path = any (fnmatch path) globs

  unfoldable pub covers : AutoAcceptPolicy → String → Bool
  covers p path = globs_cover p.path_globs path

  unfoldable pub scope_admits : Scope → EffectIntent → List String → Bool
  scope_admits scope intent paths =
      if not (scope.workspace_id == intent.workspace_id)
      then false
      else if not (repository_admits scope.repository intent.repository)
      then false
      else if not (elem intent.effect_kind scope.effect_kinds)
      then false
      else all (globs_cover scope.path_globs) paths

  module _ (patch_paths : String → Result String (List String)) where
    -- `not paths or not all(...)`, and a patch that git refuses
    abbrev paths_match : AutoAcceptPolicy → Result String (List String) → Bool
    paths_match p (err e) = false
    paths_match p (ok []) = false
    paths_match p (ok (path ∷ paths)) = all (covers p) (path ∷ paths)

    unfoldable pub matches : AutoAcceptPolicy → EffectIntent → Bool
    unfolding covers
    matches p intent =
        if not p.enabled
        then false
        else if not (intent.workspace_id == p.workspace_id)
        then false
        else if not (repository_admits p.repository intent.repository)
        then false
        else if not (elem intent.effect_kind p.effect_kinds)
        then false
        else if is_some p.path_globs
        then paths_match p (patch_paths intent.unified_diff)
        else true

    unfoldable pub first_match :
        ℕ → String → EffectIntent → List AutoAcceptPolicy → Option PolicyAcceptor
    unfolding matches scope_of
    first_match version digest intent [] = none
    first_match version digest intent (p ∷ ps) =
        if matches p intent
        then some (record {
          policy_id = p.id;
          version = version;
          scope = scope_of p;
          config_digest = digest;
        })
        else first_match version digest intent ps

    unfoldable pub evaluate : AutoAcceptConfig → EffectIntent → Option PolicyAcceptor
    unfolding first_match is_active
    evaluate config intent = if not (is_active config) then none else elim config.version [
      | none ↦ none
      | some version ↦ elim config.digest [
        | none ↦ none
        | some digest ↦ first_match version digest intent config.policies
      ]
    ]
