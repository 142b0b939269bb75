-- ===== src/Evidence/Model.antt =====
-- core/model.py. A `datetime` is a number of ticks. The freeform mappings `detail`, `provenance` and
-- `constraints`, which the core never reads, are left out, and a reason of expiry is a value of
-- `ExpiryReason`, not its text.
use vuoro.Prelude.{ℕ, String, Bool, Option, List}
use vuoro.Dict.{Dict}

pub data ClaimType : Type 0 where
  target_stale precondition_refused capability_unavailable evidence_persisted : ClaimType
  effect_completed effect_failed effect_uncertain effect_not_invoked observation : ClaimType

pub record Freshness : Type 0 where
  pub scope : String
  pub position : ℕ

pub record Claim : Type 0 where
  pub claim_type : ClaimType
  pub subject : String
  pub grant_id : Option String
  pub freshness : Option Freshness
  pub confirms : Option Bool

pub data ValidityBasis : Type 0 where
  indefinite bounded until_inputs_change : ValidityBasis

pub record ValidityWindow : Type 0 where
  pub basis : ValidityBasis
  pub valid_from : ℕ
  pub valid_until : Option ℕ
  pub component_digests : Dict String String

pub record EvidenceItem : Type 0 where
  pub item_id : String
  pub kind : String
  pub ref : String
  pub digest : String
  pub collector : String
  pub validity : ValidityWindow
  pub claims : List Claim
  pub chain_seq : Option ℕ
  pub chain_prev_digest : Option String
  pub run_id : Option String

pub data GrantUse : Type 0 where
  unused used uncertain_use : GrantUse

pub record EffectGrant : Type 0 where
  pub grant_id : String
  pub principal : String
  pub effect_class : String
  pub target_scope : String
  pub expiry : Option ℕ
  pub policy_decision_ref : Option String

pub record EvidenceSet : Type 0 where
  pub set_id : String
  pub items : List EvidenceItem
  pub grants : List EffectGrant
  pub run_id : Option String

pub data ExpiryReason : Type 0 where
  past_valid_until : ExpiryReason
  input_changed : String → ExpiryReason

pub record EvidenceExpired : Type 0 where
  pub item_id : String
  pub reason : ExpiryReason
  pub observed_at : ℕ

pub data DecisionKind : Type 0 where
  accept reacquire reconcile reject : DecisionKind

-- the rationale is text for a reader, and is left out
pub record Decision : Type 0 where
  pub decision_id : String
  pub kind : DecisionKind
  pub subject : String
  pub evidence_ids : List String
  pub requires_observation : Bool
  pub events : List EvidenceExpired
