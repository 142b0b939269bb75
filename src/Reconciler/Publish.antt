-- ===== src/Reconciler/Publish.antt =====
-- `_preflight`, `_lookup`, `_require_own_commit` and `_publish` of
-- packages/vuoro-reconciler/src/vuoro_reconciler/reconciler.py. `validate` is
-- `validate_verification(intent, required=False)`.
pub mod AtMostOnce
use Prim.Native.String.{◌++◌}
use vuoro.Prelude.{
  ℕ, String, Bool, true, false, Option, none, some, List, [], ◌∷◌, ◌&&◌, ◌||◌, not, is_some,
  if◌then◌else◌,
}
use vuoro.Prelude.Eq.{◌==◌, string_keys, option_keys}
use vuoro.Prelude.Result.{Result, ok, err}
use vuoro.Reconciler.Intents.{EffectIntent, verification_of}
use vuoro.Reconciler.World.{
  PullRequest, PullRequestResult, Call, preflight_call, find_branch_call, find_pull_request_call,
  push_call, open_call, Failure, credential_rejected, already_exists, other, Outside, Stop, refused,
  unrecorded, rejected, raised, PreflightAnswer, current, refuses, raises, State, Effect, pure,
  stop, ◌>>=◌, ◌>>◌, refuse_when, ask,
}

module _ (validate : EffectIntent → Result String (Unit {0})) (o : Outside) where
  abbrev pub refuse_error : {A : Type 0} → Result String A → Effect A
  refuse_error (ok a) = pure a
  refuse_error (err code) = stop (refused code)

  abbrev pub answer_or_refuse : PreflightAnswer → Effect (Unit {0})
  answer_or_refuse current = pure tt
  answer_or_refuse (refuses code) = stop (refused code)
  answer_or_refuse (raises name) = stop (raised name)

  -- the call of the source's `preflight`; without one, a bound intent is refused
  unfoldable pub source_preflight :
      Option (List Call → EffectIntent → PreflightAnswer) → EffectIntent → Effect (Unit {0})
  source_preflight none intent =
      refuse_when (is_some intent.release_digest || is_some (verification_of intent.acceptance))
        "protected-preflight-unavailable"
  source_preflight (some check) intent =
      ask (preflight_call intent.intent_id) (λ calls. answer_or_refuse (check calls intent))

  unfoldable pub preflight : EffectIntent → Effect (Unit {0})
  unfolding source_preflight
  preflight intent = do refuse_error (validate intent); source_preflight o.preflight intent

  -- what `_lookup` makes of the answer
  abbrev pub looked_up : {A : Type 0} → String → Result Failure A → Effect A
  looked_up repository (ok a) s = (ok a, record s { reachable = repository ∷ s.reachable })
  looked_up repository (err credential_rejected) s = (err rejected, s)
  looked_up repository (err e) s = (err (unrecorded "deferred" "provider-lookup-failed"), s)

  unfoldable pub find_branch : String → String → Effect (Option String)
  find_branch repository branch =
      ask (find_branch_call repository branch)
        (λ calls. looked_up repository (o.find_branch calls repository branch))

  unfoldable pub find_pull_request : String → String → Effect (Option PullRequestResult)
  find_pull_request repository branch =
      ask (find_pull_request_call repository branch)
        (λ calls. looked_up repository (o.find_pull_request calls repository branch))

  abbrev pub is_own_commit : List Call → String → String → String → Bool
  is_own_commit calls ref sha candidate =
      o.ensure_commit calls sha ref
      && o.verify_commit calls sha
      && o.same_change calls sha candidate

  -- the refusal is the caller's: `_publish` catches that of a closed pull request
  unfoldable pub require_own_commit : String → String → String → String → Effect (Unit {0})
  require_own_commit reason ref sha candidate s =
      refuse_when (not (is_own_commit s.calls ref sha candidate)) reason s

  abbrev pub or_text : Option String → String → String
  or_text none d = d
  or_text (some t) d = if t == "" then d else t

  abbrev pub is_closed : Option PullRequestResult → Bool
  is_closed none = false
  is_closed (some pr) = pr.state == "closed"

  -- the pull request was closed without a merge
  unfoldable pub refuse_closed : Option PullRequestResult → String → String → Effect (Unit {0})
  unfolding require_own_commit
  refuse_closed none branch commit = pure tt
  refuse_closed (some pr) branch commit =
      if pr.state == "closed"
      then (do
        require_own_commit "pull-request-mismatch" (or_text pr.head_ref ("refs/heads/" ++ branch))
            (or_text pr.head_sha "") commit
        stop (refused "pull-request-closed"))
      else pure tt

  -- the commit that an earlier run left behind, or this run's
  unfoldable pub adopt :
      Option String → Option PullRequestResult → String → String → String → Effect String
  unfolding require_own_commit
  adopt (some existing) pr branch default_branch commit = do
    require_own_commit "branch-exists-with-different-change" ("refs/heads/" ++ branch) existing
        commit
    pure existing
  adopt none none branch default_branch commit = pure commit
  adopt none (some pr) branch default_branch commit =
      if pr.state == "merged" && not (or_text pr.head_sha "" == "")
      then (do
        require_own_commit "branch-exists-with-different-change"
            (or_text pr.head_ref ("refs/heads/" ++ default_branch)) (or_text pr.head_sha "") commit
        pure (or_text pr.head_sha ""))
      else pure commit

  unfoldable pub accept_found :
      PullRequestResult → String → String → Effect (String × PullRequestResult)
  accept_found pr default_branch commit = do
    refuse_when (not (pr.state == "open" || pr.state == "merged")) "pull-request-mismatch"
    refuse_when (not (pr.base_branch == some default_branch) || not (pr.head_sha == some commit))
        "pull-request-mismatch"
    pure (commit, pr)

  abbrev pub pushed : Result Failure (Unit {0}) → Effect (Unit {0})
  pushed (ok u) = pure tt
  pushed (err already_exists) = stop (unrecorded "duplicate" "concurrent-consumer")
  pushed (err credential_rejected) = stop rejected
  pushed (err (other e)) = stop (refused "push-failed")

  -- someone may have opened a pull request from the branch since
  abbrev pub none_yet : Option PullRequestResult → Effect (Unit {0})
  none_yet none = pure tt
  none_yet (some pr) = stop (unrecorded "duplicate" "concurrent-consumer")

  unfoldable pub push_new : EffectIntent → String → String → Effect (Unit {0})
  unfolding preflight find_pull_request
  push_new intent branch commit = do
    preflight intent
    ask (push_call intent.repository branch commit)
        (λ calls. pushed (o.push_branch calls intent.repository branch commit))
    pr ← find_pull_request intent.repository branch
    none_yet pr

  abbrev pub opened : Result Failure PullRequestResult → Effect PullRequestResult
  opened (ok pr) = pure pr
  opened (err already_exists) = stop (unrecorded "duplicate" "concurrent-consumer")
  opened (err credential_rejected) = stop rejected
  opened (err (other e)) = stop (refused "pull-request-failed")

  unfoldable pub request_of : EffectIntent → String → String → PullRequest
  request_of intent branch default_branch = record {
    repository = intent.repository;
    branch = branch;
    base_branch = default_branch;
    title = intent.title;
    body = intent.rationale;
  }

  unfoldable pub open_new : EffectIntent → String → String → Effect PullRequestResult
  unfolding preflight request_of
  open_new intent branch default_branch = do
    preflight intent
    ask (open_call (request_of intent branch default_branch))
        (λ calls. opened (o.open_pull_request calls (request_of intent branch default_branch)))

  abbrev pub push_if_missing : Option String → EffectIntent → String → String → Effect (Unit {0})
  push_if_missing (some existing) intent branch commit = pure tt
  push_if_missing none intent branch commit = push_new intent branch commit

  unfoldable pub finish :
      Option String
      → Option PullRequestResult
      → EffectIntent
      → String
      → String
      → String
      → Effect (String × PullRequestResult)
  unfolding accept_found push_new open_new
  finish existing (some pr) intent branch default_branch commit =
      accept_found pr default_branch commit
  finish existing none intent branch default_branch commit = do
    push_if_missing existing intent branch commit
    pr ← open_new intent branch default_branch
    pure (commit, pr)

  unfoldable pub publish :
      EffectIntent → String → String → String → Effect (String × PullRequestResult)
  unfolding find_branch find_pull_request refuse_closed adopt finish
  publish intent branch default_branch commit = do
    existing ← find_branch intent.repository branch
    pr ← find_pull_request intent.repository branch
    refuse_closed pr branch commit
    adopted ← adopt existing pr branch default_branch commit
    finish existing pr intent branch default_branch adopted
