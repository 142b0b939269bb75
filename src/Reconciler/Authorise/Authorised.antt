-- ===== src/Reconciler/Authorise/Authorised.antt =====
-- What the tests of `_process` secure (reconciler.py).
use mathlib.Core.List.{Memᴰ}
use vuoro.Prelude.Members.{elem-true}
use vuoro.Prelude.{
  ◌⊎◌, ap, String, ◌≡◌, subst, ◌≢◌, refl, Bool, true, false, Option, none, some, [], not, arith,
  Option-cases, inl, inr,
}
use vuoro.Prelude.Eq.{◌==◌, string_keys, option_keys, nat_keys, elem, option_eq_iff}
use vuoro.Prelude.Result.{Result, ok, err, ◌>>◌, refuse_if}
use text.Mathlib.TextEquality.{eq_iff}
use vuoro.Text.{is_intent_id}
use vuoro.Reconciler.Intents.{
  Scope, PolicyAcceptor, Acceptor, operator, by_policy, Acceptance, EffectIntent, CanonicalBody,
  canonical_digest,
}
use vuoro.Reconciler.Acceptance.{AutoAcceptConfig, stale_reason, scope_admits, repository_admits}
use vuoro.Reconciler.Authorise.Unchanged.{Unchanged, stale_reason-Unchanged}
use vuoro.Reconciler.Authorise.{
  ReconcilerConfig, is_proposer, policy_current, acceptance_matches, principal_matches, not_stale,
  authorise_by, authorise,
}

goes_on :
    {A : Type 0} (b : Bool) (e : String) (k : Result String A) {a : A}
    → refuse_if b e >> k ≡ ok a
    → (b ≡ false) × (k ≡ ok a)
goes_on true e k h = cc
goes_on false e k h = (refl, h)

goes_after :
    {A : Type 0} (m : Result String (Unit {0})) (k : Result String A) {a : A}
    → m >> k ≡ ok a
    → (m ≡ ok tt) × (k ≡ ok a)
goes_after (ok u) k h = (refl, h)
goes_after (err e) k h = cc

false_of_not : (b : Bool) → not b ≡ false → b ≡ true
false_of_not b h = ground arith

-- A scope covers an intent: its workspace, its repository if it names one, and its kind of effect.
pub record Covers (scope : Scope) (intent : EffectIntent) : Type 0 where
  pub workspace : scope.workspace_id ≡ intent.workspace_id
  pub repository : (scope.repository ≡ none) ⊎ (scope.repository ≡ some intent.repository)
  pub effect_kind : Memᴰ intent.effect_kind scope.effect_kinds

repository_lem :
    (o : Option String) (r : String) → repository_admits o r ≡ true → (o ≡ none) ⊎ (o ≡ some r)
repository_lem none r h = inl refl
repository_lem (some s) r h = inr (ap (λ x. some x) ((eq_iff s r).0 h))

module _ (fnmatch : String → String → Bool) (sha256_json : CanonicalBody → String)
    (config : ReconcilerConfig) (auto_accept : Option AutoAcceptConfig) where
  -- Who may accept: an operator other than the proposer, who is the one that the acceptance records,
  -- or a policy that the config holds unchanged and whose scope admits the intent.
  pub data MayAccept (intent : EffectIntent) : Acceptor → Type 0 where
    an_operator :
        (subject : String)
        → subject ≢ intent.proposer_principal
        → MayAccept intent (operator subject)
    a_policy :
        (p : PolicyAcceptor) (now : AutoAcceptConfig)
        → auto_accept ≡ some now
        → Unchanged now p
        → Covers p.scope intent
        → MayAccept intent (by_policy p)

  -- The principal that an acceptance names is the operator's, where an operator accepted.
  abbrev pub NamesOperator : Acceptor → Acceptance → Type 0
  NamesOperator (operator subject) recorded = recorded.acceptor_principal ≡ some subject
  NamesOperator (by_policy p) recorded = Unit

  -- The acceptance is of this intent in this revision, and of the content that it has now: the digest
  -- that it names, and that the intent carries, is that of the content.
  pub record Binds (intent : EffectIntent) (recorded : Acceptance) : Type 0 where
    pub same_id : recorded.intent_id ≡ some intent.intent_id
    pub same_revision : recorded.intent_revision ≡ some intent.revision
    pub carried : intent.canonical_intent_digest ≡ canonical_digest sha256_json intent
    pub named : recorded.canonical_intent_digest ≡ some (canonical_digest sha256_json intent)

  pub record Authorised (intent : EffectIntent) (a : Acceptor) : Type 0 where
    pub accepted : intent.acceptor ≡ some a
    pub may : MayAccept intent a
    pub recorded : Acceptance
    pub there : intent.acceptance ≡ some recorded
    pub bound : Binds intent recorded
    pub principal : NamesOperator a recorded
    pub kind : intent.effect_kind ≡ "diff"
    pub allowed : Memᴰ intent.repository config.repository_allowlist

  stale_lem :
      (o : Option String) (k : Result String (Unit {0}))
      → not_stale fnmatch o >> k ≡ ok tt
      → o ≡ none
  stale_lem none k h = refl
  stale_lem (some r) k h = cc

  scope_admits-Covers :
      (scope : Scope) (intent : EffectIntent)
      → scope_admits fnmatch scope intent [] ≡ true
      → Covers scope intent
  unfolding scope_admits
  scope_admits-Covers scope intent h = record {
    workspace = ground (arith, eq_iff scope.workspace_id intent.workspace_id);
    repository = repository_lem scope.repository intent.repository (ground arith);
    effect_kind = elem-true intent.effect_kind scope.effect_kinds (ground arith);
  }

  acceptance_matches-Binds :
      (intent : EffectIntent)
      → acceptance_matches sha256_json intent intent.acceptance ≡ true
      → (recorded : Acceptance) × (intent.acceptance ≡ some recorded) × Binds intent recorded
  unfolding acceptance_matches
  acceptance_matches-Binds intent h = elim (Option-cases intent.acceptance) [
    | inl n ↦ absurd (ground (arith, n))
    | inr (a, e) ↦ (
      a,
      e,
      record {
        same_id = ground (arith, e, option_eq_iff a.intent_id (some intent.intent_id));
        same_revision = ground (arith, e, option_eq_iff a.intent_revision (some intent.revision));
        carried =
            ground (
              arith,
              e,
              eq_iff (canonical_digest sha256_json intent) intent.canonical_intent_digest,
            );
        named = ground (
          arith,
          e,
          option_eq_iff a.canonical_intent_digest (some (canonical_digest sha256_json intent)),
        );
      },
    )
  ]

  principal_matches-NamesOperator :
      (b : Acceptor) (recorded : Acceptance)
      → principal_matches b (some recorded) ≡ true
      → NamesOperator b recorded
  principal_matches-NamesOperator (operator subject) recorded h =
      (option_eq_iff recorded.acceptor_principal (some subject)).0 h
  principal_matches-NamesOperator (by_policy p) recorded h = tt

  may_lem :
      (intent : EffectIntent) (a : Acceptor)
      → is_proposer a intent ≡ false
      → policy_current fnmatch auto_accept a intent ≡ ok tt
      → MayAccept intent a
  unfolding policy_current
  may_lem intent (operator subject) h k =
      an_operator subject (ground (arith, eq_iff subject intent.proposer_principal))
  may_lem intent (by_policy p) h k = elim (Option-cases auto_accept) [
    | inl n ↦ absurd (ground arith)
    | inr (now, e) ↦
        let fresh : stale_reason now p ≡ none =
          stale_lem (stale_reason now p)
            (refuse_if (not (scope_admits fnmatch p.scope intent [])) "outside-policy-scope")
            (ground arith) in
        a_policy p now e (stale_reason-Unchanged now p fresh)
          (scope_admits-Covers p.scope intent (ground arith))
  ]

  authorise_by-Authorised :
      (intent : EffectIntent) (b a : Acceptor)
      → intent.acceptor ≡ some b
      → authorise_by fnmatch sha256_json config auto_accept intent b ≡ ok a
      → Authorised intent b × (b ≡ a)
  unfolding authorise_by
  authorise_by-Authorised intent b a e h =
      let (t, h1) = goes_on _ _ _ h in
      let (p, h2) = goes_after (policy_current fnmatch auto_accept b intent) _ h1 in
      let (_, h3) = goes_on (not (is_intent_id intent.intent_id)) _ _ h2 in
      let (m, h4) = goes_on _ _ _ h3 in
      let (q, h5) = goes_on _ _ _ h4 in
      let (d, h6) = goes_on (not (intent.effect_kind == "diff")) _ _ h5 in
      let (r, same) =
        goes_on (not (elem intent.repository config.repository_allowlist)) _ (ok b) h6 in
      let (recorded, there, bound) = acceptance_matches-Binds intent (false_of_not _ m) in
      (
        record {
          accepted = e;
          may = may_lem intent b t p;
          recorded = recorded;
          there = there;
          bound = bound;
          principal =
              principal_matches-NamesOperator b recorded
                (subst (λ x. principal_matches b x ≡ true) there (false_of_not _ q));
          kind = (eq_iff intent.effect_kind "diff").0 (false_of_not _ d);
          allowed = elem-true intent.repository config.repository_allowlist (false_of_not _ r);
        },
        ground (arith, same),
      )

  -- Only an intent that passes every test of its acceptance is authorised: it has an acceptor, who may
  -- accept it, the recorded acceptance is of this very intent in its content and revision, and its
  -- repository is on the allowlist.
  pub authorise-Authorised :
      (intent : EffectIntent) (a : Acceptor)
      → authorise fnmatch sha256_json config auto_accept intent ≡ ok a
      → Authorised intent a
  unfolding authorise
  authorise-Authorised intent a h = elim (Option-cases intent.acceptor) [
    | inl n ↦ absurd (ground arith)
    | inr (b, e) ↦
        let (done, same) = authorise_by-Authorised intent b a e (ground arith) in
        subst (Authorised intent) same done
  ]
