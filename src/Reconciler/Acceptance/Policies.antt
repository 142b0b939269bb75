-- ===== src/Reconciler/Acceptance/Policies.antt =====
-- An acceptance that a policy gives holds as long as the config is the same (acceptance.py).
use vuoro.Prelude.{
  ℕ, String, ◌≡◌, refl, Bool, true, Option, none, some, List, [], ◌∷◌, arith, Bool-cases,
  Option-cases, inl, inr,
}
use vuoro.Prelude.Eq.{string_keys, option_keys, nat_keys, beq_refl, beq-sym}
use vuoro.Prelude.Result.{Result}
use text.Mathlib.TextEquality.{eq_iff}
use vuoro.Reconciler.Intents.{Scope, PolicyAcceptor, EffectIntent, scope_eq, list_eq, globs_eq}
use vuoro.Reconciler.Acceptance.{
  AutoAcceptPolicy, AutoAcceptConfig, scope_of, policy_named, stale_reason, scope_admits, matches,
  first_match, evaluate,
}

-- no two policies have one id, as the loading of the config checks
abbrev pub UniqueIds : List AutoAcceptPolicy → Type 0
UniqueIds [] = Unit
UniqueIds (p ∷ ps) = (policy_named ps p.id ≡ none) × UniqueIds ps

list_eq_refl : (xs : List String) → list_eq xs xs ≡ true
list_eq_refl [] = refl
list_eq_refl (x ∷ xs) = ground (arith, beq_refl x, list_eq_refl xs)

globs_eq_refl : (g : Option (List String)) → globs_eq g g ≡ true
globs_eq_refl none = refl
globs_eq_refl (some xs) = list_eq_refl xs

scope_eq_refl : (s : Scope) → scope_eq s s ≡ true
unfolding scope_eq
scope_eq_refl s = ground (
  arith,
  beq_refl s.workspace_id,
  beq_refl s.repository,
  list_eq_refl s.effect_kinds,
  globs_eq_refl s.path_globs,
)

fresh_by :
    (config : AutoAcceptConfig) (a : PolicyAcceptor) (p : AutoAcceptPolicy) (version : ℕ)
    (digest : String)
    → config.version ≡ some version
    → config.digest ≡ some digest
    → policy_named config.policies a.policy_id ≡ some p
    → p.enabled ≡ true
    → a.scope ≡ scope_of p
    → a.version ≡ version
    → a.config_digest ≡ digest
    → stale_reason config a ≡ none
unfolding stale_reason
fresh_by config a p version digest v d n o s e f =
    ground (arith, beq_refl version, beq_refl digest, scope_eq_refl (scope_of p))

module _ (fnmatch : String → String → Bool)
    (patch_paths : String → Result String (List String)) where
  matches-facts :
      (p : AutoAcceptPolicy) (intent : EffectIntent)
      → matches fnmatch patch_paths p intent ≡ true
      → (p.enabled ≡ true) × (scope_admits fnmatch (scope_of p) intent [] ≡ true)
  unfolding matches scope_admits scope_of
  matches-facts p intent h = ground (arith, beq-sym intent.workspace_id p.workspace_id)

  -- where an acceptance comes from
  record Origin (version : ℕ) (digest : String) (intent : EffectIntent) (ps : List AutoAcceptPolicy)
      (a : PolicyAcceptor) : Type 0 where
    policy : AutoAcceptPolicy
    named : policy_named ps a.policy_id ≡ some policy
    on : policy.enabled ≡ true
    same_scope : a.scope ≡ scope_of policy
    same_version : a.version ≡ version
    same_digest : a.config_digest ≡ digest
    admits : scope_admits fnmatch a.scope intent [] ≡ true

  first_match-Origin :
      (version : ℕ) (digest : String) (intent : EffectIntent) (ps : List AutoAcceptPolicy)
      (a : PolicyAcceptor)
      → UniqueIds ps
      → first_match fnmatch patch_paths version digest intent ps ≡ some a
      → Origin version digest intent ps a
  unfolding first_match policy_named
  first_match-Origin version digest intent [] a u h = cc
  first_match-Origin version digest intent (p ∷ ps) a u h =
      elim (Bool-cases (matches fnmatch patch_paths p intent)) [
        | inl m ↦
            let (on, admits) = matches-facts p intent m in
            record {
              policy = p;
              named = ground (arith, beq_refl p.id);
              on = on;
              same_scope = ground arith;
              same_version = ground arith;
              same_digest = ground arith;
              admits = ground arith;
            }
        | inr m ↦
            let o = first_match-Origin version digest intent ps a u.1 (ground arith) in
            record {
              policy = o.policy;
              named = ground (arith, eq_iff p.id a.policy_id, o.named);
              on = o.on;
              same_scope = o.same_scope;
              same_version = o.same_version;
              same_digest = o.same_digest;
              admits = o.admits;
            }
      ]

  -- An acceptance that a policy gives is not stale under the config that gave it, and its scope
  -- admits the intent.
  pub evaluate-fresh :
      (config : AutoAcceptConfig) (intent : EffectIntent) (a : PolicyAcceptor)
      → UniqueIds config.policies
      → evaluate fnmatch patch_paths config intent ≡ some a
      → (stale_reason config a ≡ none) × (scope_admits fnmatch a.scope intent [] ≡ true)
  unfolding evaluate stale_reason
  evaluate-fresh config intent a u h = elim (Option-cases config.version) [
    | inl n ↦ absurd (ground arith)
    | inr (version, v) ↦ elim (Option-cases config.digest) [
      | inl n ↦ absurd (ground arith)
      | inr (digest, d) ↦
          let o = first_match-Origin version digest intent config.policies a u (ground arith) in
          (
            fresh_by config a o.policy version digest v d o.named o.on o.same_scope o.same_version
                o.same_digest,
            o.admits,
          )
    ]
  ]
