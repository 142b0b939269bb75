-- ===== src/Reconciler/World.antt =====
-- What the reconciler's outside answers: the intent source, the forge (provider.py), git and the
-- clock. Every call is recorded, newest first, and an answer is any function of the calls so far: so
-- the outside may change between two calls in any way.
pub mod Calls
use vuoro.Prelude.{ℕ, String, Bool, true, false, Option, none, some, List, [], ◌∷◌}
use vuoro.Prelude.Result.{Result, ok, err}
use vuoro.Dict.{Dict}
use vuoro.Reconciler.Intents.{Acceptor, EffectIntent}
use vuoro.Reconciler.DiffPolicy.{StagedChange}

pub record PullRequest : Type 0 where
  pub repository : String
  pub branch : String
  pub base_branch : String
  pub title : String
  pub body : String

pub record PullRequestResult : Type 0 where
  pub url : String
  pub base_branch : Option String
  pub head_sha : Option String
  pub state : String
  pub head_ref : Option String

pub data Call : Type 0 where
  preflight_call : String → Call
  default_branch_call : String → Call
  find_branch_call find_pull_request_call : String → String → Call
  -- repository, branch, and the commit at the work directory's HEAD
  push_call : String → String → String → Call
  open_call : PullRequest → Call
  applied_call : String → String → String → Call
  failed_call : String → String → Call

-- the exceptions of a provider
pub data Failure : Type 0 where
  credential_rejected already_exists : Failure
  other : String → Failure

-- a source's `preflight` returns, raises PreflightRefused, or raises another exception, by its name
pub data PreflightAnswer : Type 0 where
  current : PreflightAnswer
  refuses raises : String → PreflightAnswer

pub record Outside : Type 0 where
  -- the source's `preflight`, where it has one
  pub preflight : Option (List Call → EffectIntent → PreflightAnswer)
  pub default_branch : List Call → String → Result Failure String
  pub find_branch : List Call → String → String → Result Failure (Option String)
  pub find_pull_request : List Call → String → String → Result Failure (Option PullRequestResult)
  pub push_branch : List Call → String → String → String → Result Failure (Unit {0})
  pub open_pull_request : List Call → PullRequest → Result Failure PullRequestResult
  -- `checkout_at` and `try_apply_diff`: the refusal, if any
  pub checkout : List Call → String → String → Option String
  pub apply_diff : List Call → EffectIntent → Option String
  pub staged_changes : List Call → EffectIntent → Result String (List StagedChange)
  pub commit_signed : List Call → EffectIntent → Result String String
  -- `ensure_commit`, `verify_commit` and `same_change`
  pub ensure_commit : List Call → String → String → Bool
  pub verify_commit : List Call → String → Bool
  pub same_change : List Call → String → String → Bool
  pub clock : List Call → ℕ

-- how an intent's attempt ends early: `_Refused`, `_Unrecorded`, `ProviderCredentialRejected`, and any
-- other exception by its name
pub data Stop : Type 0 where
  refused : String → Stop
  unrecorded : String → String → Stop
  rejected : Stop
  raised : String → Stop

pub record State : Type 0 where
  pub calls : List Call
  pub deferrals : Dict String ℕ
  pub reachable : List String

abbrev pub Effect : Type 0 → Type 0
Effect A = State → Result Stop A × State

module _ {A : Type 0} where
  abbrev pub pure : A → Effect A
  pure a s = (ok a, s)

  abbrev pub stop : Stop → Effect A
  stop e s = (err e, s)

  abbrev pub after : {B : Type 0} → Result Stop A × State → (A → Effect B) → Result Stop B × State
  after (ok a, s) f = f a s
  after (err e, s) f = (err e, s)

  infixl 5 ◌>>=◌
  abbrev pub ◌>>=◌ : {B : Type 0} → Effect A → (A → Effect B) → Effect B
  (m >>= f) s = after (m s) f

infixl 5 ◌>>◌
abbrev pub ◌>>◌ : {B : Type 0} → Effect (Unit {0}) → Effect B → Effect B
m >> k = m >>= λ _. k

-- if b: raise _Refused(reason)
abbrev pub refuse_when : Bool → String → Effect (Unit {0})
refuse_when true reason = stop (refused reason)
refuse_when false reason = pure tt

-- a call, and what follows from the answer, which may depend on the calls so far
abbrev pub ask : {A : Type 0} → Call → (List Call → Effect A) → Effect A
ask c k s = k (c ∷ s.calls) (record s { calls = c ∷ s.calls })
