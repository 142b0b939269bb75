-- ===== src/Reconciler/Process.antt =====
-- `_prepare_checkout`, `_prepare_commit`, `_process` and `run_once` of
-- packages/vuoro-reconciler/src/vuoro_reconciler/reconciler.py, after the acceptance of proposed
-- intents. The checks that an intent has to pass are the record `Checks`, which Standard fills.
pub mod Safety
pub mod Once
pub mod Standard
use Prim.Native.String.{◌++◌}
use vuoro.Prelude.{
  ℕ, ◌-◌, String, Bool, true, false, Option, none, some, List, [], ◌∷◌, ◌&&◌, ◌||◌, not, any, map,
  is_some, leb, if◌then◌else◌,
}
use vuoro.Prelude.Eq.{◌==◌, string_keys, option_keys, elem}
use vuoro.Prelude.Result.{Result, ok, err}
use vuoro.Dict.{Dict, get, put, remove}
use vuoro.Reconciler.Intents.{Acceptor, operator, by_policy, EffectIntent}
use vuoro.Reconciler.Acceptance.{legacy_execution_excluded, scope_admits}
use vuoro.Reconciler.DiffPolicy.{DiffPolicy, StagedChange}
use vuoro.Reconciler.Authorise.{ReconcilerConfig, diff_policy_for}
use vuoro.Reconciler.World.{
  PullRequestResult, Call, default_branch_call, applied_call, failed_call, Failure, Outside, Stop,
  refused, unrecorded, rejected, raised, State, Effect, pure, stop, ◌>>=◌, ◌>>◌, refuse_when, ask,
}
use vuoro.Reconciler.Publish.{preflight, refuse_error, publish}

pub record Outcome : Type 0 where
  pub intent_id : String
  pub state : String
  pub commit_sha : Option String
  pub pr_url : Option String
  pub reason : Option String
  pub acceptor : Option Acceptor

-- the checks that `_process` applies: of the verification, of the acceptance, of the patch's text and
-- paths, and of what was staged
pub record Checks : Type 0 where
  pub validate : EffectIntent → Result String (Unit {0})
  pub authorise : EffectIntent → Result String Acceptor
  pub check_patch : String → Result String (Unit {0})
  pub check_staged : List StagedChange → DiffPolicy → Result String (Unit {0})
  pub fnmatch : String → String → Bool

module _ (k : Checks) (config : ReconcilerConfig) (o : Outside) where
  -- except DiffPolicyViolation
  abbrev pub policy_refused : {A : Type 0} → Result String A → Effect A
  policy_refused (ok a) = pure a
  policy_refused (err code) = stop (refused ("diff-policy-refused: " ++ code))

  abbrev pub refused_with : String → Option String → Effect (Unit {0})
  refused_with prefix none = pure tt
  refused_with prefix (some detail) = stop (refused (prefix ++ detail))

  -- what git answers, which is no call on the source or the forge
  abbrev pub locally : {A : Type 0} → (List Call → Effect A) → Effect A
  locally f s = f s.calls s

  unfoldable pub prepare_checkout : EffectIntent → Effect (List StagedChange)
  prepare_checkout intent = do
    policy_refused (k.check_patch intent.unified_diff)
    locally (λ calls.
        refused_with "checkout-failed: " (o.checkout calls intent.repository intent.base_commit))
    locally (λ calls. refused_with "diff-does-not-apply: " (o.apply_diff calls intent))
    changes ← locally (λ calls. policy_refused (o.staged_changes calls intent))
    policy_refused (k.check_staged changes (diff_policy_for config intent.repository))
    pure changes

  abbrev pub outside_scope : Acceptor → EffectIntent → List StagedChange → Bool
  outside_scope (operator subject) intent changes = false
  outside_scope (by_policy p) intent changes =
      not (scope_admits k.fnmatch p.scope intent (map (λ (c : StagedChange). c.path) changes))

  abbrev pub committed : Result String String → Effect String
  committed (ok sha) = pure sha
  committed (err e) = stop (refused ("commit-failed: " ++ e))

  unfoldable pub prepare_commit : EffectIntent → Acceptor → Effect String
  unfolding prepare_checkout
  prepare_commit intent acceptor = do
    changes ← prepare_checkout intent
    refuse_when (outside_scope acceptor intent changes) "outside-policy-scope"
    locally (λ calls. committed (o.commit_signed calls intent))

  -- an exception of `default_branch` is not caught before `run_once`
  abbrev pub or_raise : Result Failure String → Effect String
  or_raise (ok b) = pure b
  or_raise (err e) = stop (raised "default_branch")

  -- except ProviderCredentialRejected
  abbrev pub catch_rejected : {A : Type 0} → Result Stop A × State → Result Stop A × State
  catch_rejected (err rejected, s) = (err (refused "provider-credential-rejected"), s)
  catch_rejected (r, s) = (r, s)

  abbrev pub branch_for : EffectIntent → String
  branch_for intent = config.branch_prefix ++ "/" ++ intent.intent_id

  abbrev pub excluded_outcome : EffectIntent → Outcome
  excluded_outcome intent = record {
    intent_id = intent.intent_id;
    state = "excluded";
    commit_sha = none;
    pr_url = none;
    reason = some "protected-executor-required";
    acceptor = none;
  }

  abbrev pub applied_outcome : EffectIntent → Acceptor → String → String → Outcome
  applied_outcome intent acceptor commit url = record {
    intent_id = intent.intent_id;
    state = "applied";
    commit_sha = some commit;
    pr_url = some url;
    reason = none;
    acceptor = some acceptor;
  }

  unfoldable pub preflight_and_publish :
      EffectIntent → String → String → String → Effect (String × PullRequestResult)
  preflight_and_publish intent branch default_branch commit = do
    preflight k.validate o intent
    publish k.validate o intent branch default_branch commit

  abbrev pub guarded : {A : Type 0} → Effect A → Effect A
  guarded m s = catch_rejected (m s)

  -- what `_process` does for an intent that is authorised; whether `report_applied` fails is not seen
  unfoldable pub carry_out : EffectIntent → Acceptor → Effect Outcome
  unfolding prepare_commit preflight_and_publish
  carry_out intent acceptor = do
    preflight k.validate o intent
    default_branch ←
        ask (default_branch_call intent.repository)
          (λ calls. or_raise (o.default_branch calls intent.repository))
    refuse_when (elem (branch_for intent) (default_branch ∷ config.protected_branches))
        "branch-is-protected"
    commit ← prepare_commit intent acceptor
    result ← guarded (preflight_and_publish intent (branch_for intent) default_branch commit)
    ask (applied_call intent.intent_id result.0 result.1.url)
        (λ calls. pure (applied_outcome intent acceptor result.0 result.1.url))

  unfoldable pub process : EffectIntent → Effect Outcome
  unfolding carry_out
  process intent =
      if legacy_execution_excluded intent config.protected_repositories
      then pure (excluded_outcome intent)
      else (do acceptor ← refuse_error k.validate o (k.authorise intent); carry_out intent acceptor)

  abbrev pub outcome_of : EffectIntent → String → String → Outcome
  outcome_of intent state reason = record {
    intent_id = intent.intent_id;
    state = state;
    commit_sha = none;
    pr_url = none;
    reason = some reason;
    acceptor = intent.acceptor;
  }

  -- _fail
  unfoldable pub fail : EffectIntent → String → State → Outcome × State
  fail intent reason s = (
    outcome_of intent "failed" reason,
    record s { calls = failed_call intent.intent_id reason ∷ s.calls },
  )

  -- _unrecorded: a first deferral is dated
  unfoldable pub leave : EffectIntent → String → String → State → Outcome × State
  leave intent state reason s = (
    outcome_of intent state reason,
    if state == "deferred" && not (is_some (get s.deferrals intent.intent_id))
        then record s { deferrals = put s.deferrals intent.intent_id (o.clock s.calls) }
        else s,
  )

  unfoldable pub conclude : EffectIntent → Result Stop Outcome × State → Outcome × State
  unfolding fail leave
  conclude intent (ok outcome, s) = (outcome, s)
  conclude intent (err (refused reason), s) = fail intent reason s
  conclude intent (err (unrecorded state reason), s) = leave intent state reason s
  conclude intent (err rejected, s) = fail intent "internal-error: ProviderCredentialRejected" s
  conclude intent (err (raised name), s) = fail intent ("internal-error: " ++ name) s

  abbrev pub forget : State → String → State
  forget s i = record s { deferrals = remove s.deferrals i }

  abbrev pub forget_unless_deferred : EffectIntent → Outcome × State → Outcome × State
  forget_unless_deferred intent (outcome, s) =
      (outcome, if outcome.state == "deferred" then s else forget s intent.intent_id)

  -- the loop over the intents
  unfoldable pub process_all : List EffectIntent → State → List (EffectIntent × Outcome) × State
  unfolding process conclude
  process_all [] s = ([], s)
  process_all (intent ∷ intents) s =
      let (outcome, s1) = forget_unless_deferred intent (conclude intent (process intent s)) in
      let (rest, s2) = process_all intents s1 in ((intent, outcome) ∷ rest, s2)

  abbrev pub waited_since : ℕ → Option ℕ → Bool
  waited_since now none = false
  waited_since now (some first) = leb config.max_lookup_deferral_seconds (now - first)

  -- _deferral_expired
  unfoldable pub deferral_expired : EffectIntent → State → Bool
  deferral_expired intent s =
      waited_since (o.clock s.calls) (get s.deferrals intent.intent_id)
      && elem intent.repository s.reachable

  abbrev pub or_default : Option String → String
  or_default none = "provider-lookup-failed"
  or_default (some r) = if r == "" then "provider-lookup-failed" else r

  -- the body of the second loop
  unfoldable pub expire : EffectIntent → Outcome → State → Outcome × State
  unfolding deferral_expired fail
  expire intent outcome s =
      if outcome.state == "deferred" && deferral_expired intent s
      then fail intent (or_default outcome.reason) (forget s intent.intent_id)
      else (outcome, s)

  unfoldable pub expire_all : List (EffectIntent × Outcome) → State → List Outcome × State
  unfolding expire
  expire_all [] s = ([], s)
  expire_all ((intent, outcome) ∷ rest) s =
      let (settled, s1) = expire intent outcome s in
      let (others, s2) = expire_all rest s1 in (settled ∷ others, s2)

  -- the deferrals of the intents that were polled
  abbrev pub keep_polled : List String → Dict String ℕ → Dict String ℕ
  keep_polled ids [] = []
  keep_polled ids ((i, t) ∷ d) =
      let rest = keep_polled ids d in if elem i ids then (i, t) ∷ rest else rest

  -- `run_once` from the polled intents on
  unfoldable pub run_once : List EffectIntent → State → List Outcome × State
  unfolding process_all expire_all
  run_once intents s =
      let (outcomes, s1) = process_all intents (record s { reachable = [] }) in
      let (settled, s2) = expire_all outcomes s1 in
      (
        settled,
        record s2 {
          deferrals = keep_polled (map (λ (i : EffectIntent). i.intent_id) intents) s2.deferrals;
        },
      )
