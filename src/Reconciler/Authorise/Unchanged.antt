-- ===== src/Reconciler/Authorise/Unchanged.antt =====
-- When the acceptance of a policy still holds (acceptance.py).
use mathlib.Core.List.{Memᴰ}
use vuoro.Prelude.{
  List, ◌∷◌, sym, ap, ◌∙◌, both_true, Bool-cases, String, ◌≡◌, refl, true, Option, none, some, [],
  arith, Option-cases, inl, inr,
}
use vuoro.Prelude.Eq.{◌==◌, string_keys, option_keys, nat_keys, option_eq_iff}
use text.Mathlib.TextEquality.{eq_iff}
use vuoro.Reconciler.Intents.{Scope, PolicyAcceptor, scope_eq, list_eq, globs_eq}
use vuoro.Reconciler.Acceptance.{
  AutoAcceptPolicy, AutoAcceptConfig, scope_of, policy_named, stale_reason,
}

-- What a policy acceptance and the config of now agree in: the config has an enabled policy of that
-- id, with the scope that was recorded, and the version and the digest of the config are the same.
pub record Unchanged (now : AutoAcceptConfig) (a : PolicyAcceptor) : Type 0 where
  pub policy : AutoAcceptPolicy
  pub listed : Memᴰ policy now.policies
  pub same_id : policy.id ≡ a.policy_id
  pub enabled : policy.enabled ≡ true
  pub same_version : now.version ≡ some a.version
  pub same_digest : now.digest ≡ some a.config_digest
  pub same_workspace : a.scope.workspace_id ≡ policy.workspace_id
  pub same_repository : a.scope.repository ≡ policy.repository
  pub same_kinds : a.scope.effect_kinds ≡ policy.effect_kinds
  pub same_globs : a.scope.path_globs ≡ policy.path_globs

policy_named-Mem :
    (ps : List AutoAcceptPolicy) (i : String) (p : AutoAcceptPolicy)
    → policy_named ps i ≡ some p
    → Memᴰ p ps × (p.id ≡ i)
unfolding policy_named
policy_named-Mem [] i p h = cc
policy_named-Mem (q ∷ qs) i p h = elim (Bool-cases (q.id == i)) [
  | inl t ↦
      let found : ◌≡◌ {A = Option AutoAcceptPolicy} (some q) (some p) = sym (rw t refl) ∙ h in
      let same : q ≡ p = cc found in
      (Memᴰ.head (sym same), ap (λ (x : AutoAcceptPolicy). x.id) (sym same) ∙ (eq_iff q.id i).0 t)
  | inr f ↦ let (m, e) = policy_named-Mem qs i p (ground (arith, f)) in (Memᴰ.tail m, e)
]

list_eq-same : (xs ys : List String) → list_eq xs ys ≡ true → xs ≡ ys
list_eq-same [] [] h = refl
list_eq-same [] (y ∷ ys) h = cc
list_eq-same (x ∷ xs) [] h = cc
list_eq-same (x ∷ xs) (y ∷ ys) h =
    let (a, b) = both_true (x == y) (list_eq xs ys) h in cc ((eq_iff x y).0 a, list_eq-same xs ys b)

globs_eq-same : (g h : Option (List String)) → globs_eq g h ≡ true → g ≡ h
globs_eq-same none none e = refl
globs_eq-same none (some ys) e = cc
globs_eq-same (some xs) none e = cc
globs_eq-same (some xs) (some ys) e = ap (λ x. some x) (list_eq-same xs ys e)

scope_eq-same :
    (a b : Scope)
    → scope_eq a b ≡ true
    → (a.workspace_id ≡ b.workspace_id)
      × (a.repository ≡ b.repository)
      × (a.effect_kinds ≡ b.effect_kinds)
      × (a.path_globs ≡ b.path_globs)
unfolding scope_eq
scope_eq-same a b h =
    let (h3, globs) = both_true _ (globs_eq a.path_globs b.path_globs) h in
    let (h2, kinds) = both_true _ (list_eq a.effect_kinds b.effect_kinds) h3 in
    let (w, r) = both_true (a.workspace_id == b.workspace_id) (a.repository == b.repository) h2 in
    (
      (eq_iff a.workspace_id b.workspace_id).0 w,
      (option_eq_iff a.repository b.repository).0 r,
      list_eq-same a.effect_kinds b.effect_kinds kinds,
      globs_eq-same a.path_globs b.path_globs globs,
    )

pub stale_reason-Unchanged :
    (now : AutoAcceptConfig) (a : PolicyAcceptor) → stale_reason now a ≡ none → Unchanged now a
unfolding stale_reason scope_of
stale_reason-Unchanged now a h = elim (Option-cases (policy_named now.policies a.policy_id)) [
  | inl n ↦ absurd (ground (arith, n))
  | inr (p, e) ↦
      let (m, i) = policy_named-Mem now.policies a.policy_id p e in
      let (w, r, k, g) = scope_eq-same a.scope (scope_of p) (ground (arith, e)) in
      record {
        policy = p;
        listed = m;
        same_id = i;
        enabled = ground (arith, e);
        same_version = ground (arith, e, option_eq_iff (some a.version) now.version);
        same_digest = ground (arith, e, option_eq_iff (some a.config_digest) now.digest);
        same_workspace = w;
        same_repository = r;
        same_kinds = k;
        same_globs = g;
      }
]
