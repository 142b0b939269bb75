-- ===== src/Reconciler/Executor.antt =====
-- The protected executor (protected_executor.py): what it asks, and its state. Each call is recorded,
-- newest first, and an answer is any function of the calls so far. A commit of the journal may fail
-- before or after its rows are durable, after which the journal's object refuses every later call
-- (`_uncertain`); the checks of the files around it may fail too.
pub mod Requests
pub mod Execute
pub mod Turn
pub mod Run
pub mod Safe
use vuoro.Prelude.{String, Bool, true, false, Option, none, some, List, [], ◌∷◌, if◌then◌else◌}
use vuoro.Prelude.Result.{Result, ok, err}
use vuoro.Reconciler.Journal.{Operation, JournalRecord, Journal}
use vuoro.Reconciler.Journal.Copies.{ProtectedEffect}
use vuoro.Reconciler.Currentness.{Basis}

pub data Call : Type 0 where
  registered_call basis_call verify_call prepare_call capability_call commit_call : Call
  copy_call : String → Call
  lookup_call : Operation → Call
  -- create_branch_once and create_pr_once, for the effect with this key
  create_call : String → Operation → Call

-- an exception, or asyncio.CancelledError, which `run` passes on
pub data Raised : Type 0 where
  failure cancelled : Raised

-- How a write's transaction ends: committed; refused by a check of its files before the commit; a
-- commit that raises, with its rows lost or kept, which marks the journal; and the last check of the
-- files, which raises after a commit and marks nothing.
pub data Commit : Type 0 where
  committed not_written lost kept_uncertain kept_failed : Commit

-- a provider's result
pub record ProviderResult : Type 0 where
  pub operation : String
  pub effect_key : String
  pub binding_sha256 : String
  pub request_sha256 : String
  pub status : String
  pub observation_utf8 : Option String

-- ProtectedCopyRead
pub record Delivery : Type 0 where
  pub wire_utf8 : String
  pub effect : ProtectedEffect

-- the profiles that `_registered` pins
pub record Profiles : Type 0 where
  pub provider_profile_sha256 : String
  pub signing_profile_sha256 : String
  pub signing_fingerprint : String
  pub public_key_sha256 : String
  pub base_branch : String

pub record Outside : Type 0 where
  pub profiles : Profiles
  -- whether `_registered` still answers the pins
  pub check_registered : List Call → Bool
  pub read_copy : List Call → String → Result Raised Delivery
  -- decode_protected_copy of an acceptance's wire bytes
  pub decode : String → String → Option ProtectedEffect
  pub read_basis : List Call → ProtectedEffect → Result Raised Basis
  pub is_decoded : Basis → Bool
  -- the artifact, as the bytes of its LOCAL_READY document
  pub verify_original : List Call → ProtectedEffect → JournalRecord → Result Raised String
  pub prepare_original : List Call → ProtectedEffect → JournalRecord → Result Raised String
  pub fresh_capability : List Call → JournalRecord → Result Raised ProviderResult
  pub lookup : List Call → JournalRecord → Operation → Result Raised ProviderResult
  pub create : List Call → JournalRecord → Operation → Result Raised ProviderResult
  pub commit : List Call → Commit

pub record Session : Type 0 where
  pub journal : Journal
  pub uncertain : Bool
  pub calls : List Call
  -- `knowledge` of `run`
  pub key : Option String
  pub transmission_possible : Bool

abbrev pub Effect : Type 0 → Type 0
Effect A = Session → Result Raised A × Session

module _ {A : Type 0} where
  abbrev pub pure : A → Effect A
  pure a s = (ok a, s)

  abbrev pub raise : Raised → Effect A
  raise e s = (err e, s)

  abbrev pub after :
      {B : Type 0} → Result Raised A × Session → (A → Effect B) → Result Raised B × Session
  after (ok a, s) f = f a s
  after (err e, s) f = (err e, s)

  infixl 5 ◌>>=◌
  abbrev pub ◌>>=◌ : {B : Type 0} → Effect A → (A → Effect B) → Effect B
  (m >>= f) s = after (m s) f

  -- a value that a check gives, or its exception
  abbrev pub given : Option A → Effect A
  given none = raise failure
  given (some a) = pure a

  -- what a call answers
  abbrev pub answered : Result Raised A → Effect A
  answered (ok a) = pure a
  answered (err e) = raise e

  abbrev pub ask : Call → (List Call → Result Raised A) → Effect A
  ask c answer s = answered (answer s.calls) (record s { calls = c ∷ s.calls })

  -- `except asyncio.CancelledError: raise` and `except Exception: handler`
  abbrev pub handled : Result Raised A × Session → Effect A → Result Raised A × Session
  handled (ok a, s) handler = (ok a, s)
  handled (err failure, s) handler = handler s
  handled (err cancelled, s) handler = (err cancelled, s)

  abbrev pub unless_fails : Effect A → Effect A → Effect A
  unless_fails m handler s = handled (m s) handler

infixl 5 ◌>>◌
abbrev pub ◌>>◌ : {B : Type 0} → Effect (Unit {0}) → Effect B → Effect B
m >> k = m >>= λ _. k

abbrev pub require : Bool → Effect (Unit {0})
require true = pure tt
require false = raise failure

module _ (w : Outside) {A : Type 0} where
  -- a write of the journal that its transaction lets through, with its commit
  abbrev pub committing : Commit → Journal → A → Effect A
  committing committed j a s = (ok a, record s { journal = j })
  committing not_written j a s = (err failure, s)
  committing lost j a s = (err failure, record s { uncertain = true })
  committing kept_uncertain j a s = (err failure, record s { journal = j; uncertain = true })
  committing kept_failed j a s = (err failure, record s { journal = j })

  abbrev pub written : Journal × Option A → Effect A
  written (j, none) s = (err failure, s)
  written (j, some a) s =
      committing (w.commit s.calls) j a (record s { calls = commit_call ∷ s.calls })

  -- a transaction of the journal: `_held` refuses once a commit was uncertain
  abbrev pub write : (Journal → Journal × Option A) → Effect A
  write op s = if s.uncertain then (err failure, s) else written (op s.journal) s

abbrev pub read_only : {A : Type 0} → (Journal → Journal × Option A) → Effect A
read_only op s = if s.uncertain then (err failure, s) else given (op s.journal).1 s
