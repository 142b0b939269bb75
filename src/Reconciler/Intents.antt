-- ===== src/Reconciler/Intents.antt =====
-- packages/vuoro-reconciler/src/vuoro_reconciler/intents.py. The scope that a policy acceptance
-- records has exactly the keys of `AutoAcceptPolicy.scope()`; a set of effect kinds is its sorted list.
-- A verification is `malformed` where its keys or the types of its values are not those of a proof.
use vuoro.Prelude.{ℕ, String, Bool, true, false, Option, none, some, List, [], ◌∷◌, ◌&&◌}
use vuoro.Prelude.Eq.{◌==◌, string_keys, option_keys, nat_keys}

pub record Scope : Type 0 where
  pub workspace_id : String
  pub repository : Option String
  pub effect_kinds : List String
  pub path_globs : Option (List String)

pub record PolicyAcceptor : Type 0 where
  pub policy_id : String
  pub version : ℕ
  pub scope : Scope
  pub config_digest : String

-- OperatorAcceptor | PolicyAcceptor
pub data Acceptor : Type 0 where
  operator : String → Acceptor
  by_policy : PolicyAcceptor → Acceptor

pub record Check : Type 0 where
  pub name : String
  pub revision : String
  pub status : String

pub record Receipt : Type 0 where
  pub schema : String
  pub intent_id : String
  pub intent_revision : ℕ
  pub canonical_intent_digest : String
  pub release_digest : String
  pub artifact_domain : String
  pub artifact_digest : String
  pub checks : List Check

pub record Proof : Type 0 where
  pub run_id : String
  pub item_id : String
  pub evidence_digest : String
  pub entry_digest : String
  pub verifier_principal : String
  pub workspace_id : String
  pub client_id : Option String
  pub grant_id : Option String
  pub receipt : Receipt

pub data Verification : Type 0 where
  malformed : Verification
  proof : Proof → Verification

-- the mapping `acceptance`; a key that is missing is `none`
pub record Acceptance : Type 0 where
  pub canonical_intent_digest : Option String
  pub intent_id : Option String
  pub intent_revision : Option ℕ
  pub acceptor_principal : Option String
  pub verification : Option Verification

pub record EffectIntent : Type 0 where
  pub intent_id : String
  pub run_id : String
  pub repository : String
  pub base_commit : String
  pub title : String
  pub rationale : String
  pub unified_diff : String
  pub workspace_id : String
  pub proposer_principal : String
  pub item_id : ℕ
  pub revision : ℕ
  pub canonical_intent_digest : String
  pub acceptance : Option Acceptance
  pub effect_kind : String
  pub acceptor : Option Acceptor
  pub release_digest : Option String

-- what canonical_digest covers, under its schema's name
pub record CanonicalBody : Type 0 where
  pub item_id : ℕ
  pub repository : String
  pub base_commit : String
  pub title : String
  pub rationale : String
  pub unified_diff : String

-- `sha256_json` is the SHA-256 of the canonical JSON of the body
unfoldable pub canonical_digest : (CanonicalBody → String) → EffectIntent → String
canonical_digest sha256_json intent = sha256_json (record {
  item_id = intent.item_id;
  repository = intent.repository;
  base_commit = intent.base_commit;
  title = intent.title;
  rationale = intent.rationale;
  unified_diff = intent.unified_diff;
})

-- acceptance.get("verification")
unfoldable pub verification_of : Option Acceptance → Option Verification
verification_of none = none
verification_of (some a) = a.verification

abbrev pub list_eq : List String → List String → Bool
list_eq [] [] = true
list_eq (x ∷ xs) (y ∷ ys) = (x == y) && list_eq xs ys
list_eq _ _ = false

abbrev pub globs_eq : Option (List String) → Option (List String) → Bool
globs_eq none none = true
globs_eq (some xs) (some ys) = list_eq xs ys
globs_eq _ _ = false

-- `==` of two scopes
unfoldable pub scope_eq : Scope → Scope → Bool
scope_eq a b =
    (a.workspace_id == b.workspace_id)
    && (a.repository == b.repository)
    && list_eq a.effect_kinds b.effect_kinds
    && globs_eq a.path_globs b.path_globs
