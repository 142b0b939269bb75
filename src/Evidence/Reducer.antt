-- ===== src/Evidence/Reducer.antt =====
-- core/reducer.py: the items of a set, in order, give the state of each subject.
use vuoro.Prelude.{
  ℕ, max, String, Bool, true, false, Option, none, some, List, [], ◌∷◌, ◌++◌, not, ltb, is_some,
  filter, if◌then◌else◌,
}
use vuoro.Prelude.Eq.{◌==◌, string_keys}
use vuoro.Dict.{Dict, get, put}
use vuoro.Evidence.Model.{
  ClaimType, target_stale, precondition_refused, capability_unavailable, evidence_persisted,
  effect_completed, effect_failed, effect_uncertain, effect_not_invoked, observation, Freshness,
  Claim, ValidityBasis, indefinite, bounded, until_inputs_change, ValidityWindow, EvidenceItem,
  GrantUse, unused, used, uncertain_use, EffectGrant, EvidenceSet, ExpiryReason, past_valid_until,
  input_changed, EvidenceExpired,
}

pub data EffectState : Type 0 where
  not_invoked refused completed failed uncertain : EffectState

pub record SubjectState : Type 0 where
  pub effect : Option EffectState
  pub grant_id : Option String
  pub confirmed_by : List String
  pub contradicted_by : List String
  pub reconciled : Bool
  pub persisted : List String
  pub freshness : Dict String ℕ
  pub supporting_items : List String

abbrev pub new_subject : SubjectState
new_subject = record {
  effect = none;
  grant_id = none;
  confirmed_by = [];
  contradicted_by = [];
  reconciled = false;
  persisted = [];
  freshness = [];
  supporting_items = [];
}

pub record Ledger : Type 0 where
  pub subjects : Dict String SubjectState
  pub grant_use : Dict String GrantUse
  pub expired : Dict String EvidenceExpired

unfoldable pub supporting_of : Option SubjectState → List String
supporting_of none = []
supporting_of (some s) = s.supporting_items

unfoldable pub valid_items_for : Ledger → String → List String
unfolding supporting_of
valid_items_for l subject =
    filter (λ i. not (is_some (get l.expired i))) (supporting_of (get l.subjects subject))

-- the loop over the component digests: the first that is seen with another digest
unfoldable pub changed_component : Dict String String → Dict String String → Option String
changed_component [] inputs = none
changed_component ((component, digest) ∷ rest) inputs =
    let later = changed_component rest inputs in
    elim (get inputs component) [
      | none ↦ later
      | some seen ↦ if not (seen == digest) then some component else later
    ]

unfoldable pub expiry_by :
    ValidityBasis → ValidityWindow → ℕ → Dict String String → Option ExpiryReason
unfolding changed_component
expiry_by indefinite v now inputs = none
expiry_by bounded v now inputs = elim v.valid_until [
  | none ↦ none
  | some until ↦ if ltb until now then some past_valid_until else none
]
expiry_by until_inputs_change v now inputs = elim (changed_component v.component_digests inputs) [
  | none ↦ none
  | some component ↦ some (input_changed component)
]

unfoldable pub expiry_of : EvidenceItem → ℕ → Dict String String → Option EvidenceExpired
unfolding expiry_by
expiry_of item now inputs = elim (expiry_by item.validity.basis item.validity now inputs) [
  | none ↦ none
  | some reason ↦ some (record { item_id = item.item_id; reason = reason; observed_at = now })
]

-- a text is true where it is there and not empty
unfoldable pub truthy : Option String → Bool
truthy none = false
truthy (some s) = not (s == "")

unfoldable pub refreshed : Option Freshness → Dict String ℕ → Dict String ℕ
refreshed none d = d
refreshed (some f) d =
    put d f.scope (elim (get d f.scope) [ none ↦ f.position | some p ↦ max p f.position ])

unfoldable pub or_effect : Option EffectState → EffectState → Option EffectState
or_effect none e = some e
or_effect (some old) e = some old

-- an observation of an uncertain effect that confirms or contradicts settles it
unfoldable pub settle : Option EffectState → Option Bool → SubjectState → SubjectState
settle (some uncertain) (some true) s = record s { effect = some completed; reconciled = true }
settle (some uncertain) (some false) s = record s { effect = some failed; reconciled = true }
settle _ _ s = s

unfoldable pub observed : Option Bool → String → SubjectState → SubjectState
observed none i s = s
observed (some true) i s = record s { confirmed_by = s.confirmed_by ++ i ∷ [] }
observed (some false) i s = record s { contradicted_by = s.contradicted_by ++ i ∷ [] }

-- the ladder on the claim's type
unfoldable pub apply_type : ClaimType → Option Bool → String → SubjectState → SubjectState
unfolding or_effect settle observed
apply_type target_stale c i s = record s { effect = some refused }
apply_type precondition_refused c i s = record s { effect = some refused }
apply_type capability_unavailable c i s = record s { effect = some refused }
apply_type effect_not_invoked c i s = record s { effect = or_effect s.effect not_invoked }
apply_type effect_completed c i s = record s { effect = some completed }
apply_type effect_failed c i s = record s { effect = some failed }
apply_type effect_uncertain c i s = record s { effect = some uncertain; reconciled = false }
apply_type evidence_persisted c i s = record s { persisted = s.persisted ++ i ∷ [] }
apply_type observation c i s = settle s.effect c (observed c i s)

unfoldable pub grant_use_of : Option EffectState → GrantUse
grant_use_of (some uncertain) = uncertain_use
grant_use_of (some completed) = used
grant_use_of (some failed) = used
grant_use_of _ = unused

-- what `_apply` does before the ladder
unfoldable pub supported : EvidenceItem → Claim → SubjectState → SubjectState
unfolding truthy refreshed
supported item claim s = record s {
  supporting_items = s.supporting_items ++ item.item_id ∷ [];
  grant_id = if truthy claim.grant_id then claim.grant_id else s.grant_id;
  freshness = refreshed claim.freshness s.freshness;
}

unfoldable pub subject_after : EvidenceItem → Claim → Option SubjectState → SubjectState
unfolding supported apply_type
subject_after item claim none =
    apply_type claim.claim_type claim.confirms item.item_id (supported item claim new_subject)
subject_after item claim (some s) =
    apply_type claim.claim_type claim.confirms item.item_id (supported item claim s)

unfoldable pub project_use : SubjectState → Dict String GrantUse → Dict String GrantUse
unfolding truthy grant_use_of
project_use s d = elim s.grant_id [
  | none ↦ d
  | some g ↦ if truthy (some g) then put d g (grant_use_of s.effect) else d
]

-- _apply
unfoldable pub apply : Ledger → EvidenceItem → Claim → Ledger
unfolding subject_after project_use
apply l item claim =
    let s = subject_after item claim (get l.subjects claim.subject) in
    record l { subjects = put l.subjects claim.subject s; grant_use = project_use s l.grant_use }

unfoldable pub apply_claims : Ledger → EvidenceItem → List Claim → Ledger
unfolding apply
apply_claims l item [] = l
apply_claims l item (c ∷ cs) = apply_claims (apply l item c) item cs

-- the body of the loop over the items
unfoldable pub apply_item : Ledger → ℕ → Dict String String → EvidenceItem → Ledger
unfolding apply_claims expiry_of
apply_item l now inputs item =
    let marked : Ledger = elim (expiry_of item now inputs) [
      | none ↦ l
      | some e ↦ record l { expired = put l.expired item.item_id e }
    ] in
    apply_claims marked item item.claims

unfoldable pub apply_items : Ledger → ℕ → Dict String String → List EvidenceItem → Ledger
unfolding apply_item
apply_items l now inputs [] = l
apply_items l now inputs (item ∷ items) =
    apply_items (apply_item l now inputs item) now inputs items

-- ledger.grant_use.setdefault(grant.grant_id, UNUSED), for each grant
unfoldable pub declare : Dict String GrantUse → List EffectGrant → Dict String GrantUse
declare d [] = d
declare d (g ∷ gs) = declare (if is_some (get d g.grant_id) then d else put d g.grant_id unused) gs

unfoldable pub reduce : EvidenceSet → ℕ → Dict String String → Ledger
unfolding apply_items declare
reduce evidence now inputs =
    apply_items (record { subjects = []; grant_use = declare [] evidence.grants; expired = [] }) now
      inputs evidence.items
