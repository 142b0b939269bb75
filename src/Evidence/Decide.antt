-- ===== src/Evidence/Decide.antt =====
-- core/decision.py: whether a consequential effect may be run again.
pub mod Valid
pub mod Kinds
pub mod Denials
pub mod Contradicted
use vuoro.Prelude.{
  String, Bool, true, false, Option, none, some, List, [], ◌∷◌, ◌&&◌, not, filter, map,
  if◌then◌else◌,
}
use vuoro.Prelude.Eq.{◌==◌, string_keys, elem}
use vuoro.Dict.{Dict, get, values}
use vuoro.Evidence.Model.{EvidenceExpired, Decision, accept, reacquire, reconcile, reject}
use vuoro.Evidence.Reducer.{
  EffectState, completed, uncertain, SubjectState, Ledger, valid_items_for, supporting_of,
}

pub record RerunQuestion : Type 0 where
  pub decision_id : String
  pub subject : String

abbrev pub is_empty {ℓ} : {A : Type ℓ} → List A → Bool
is_empty [] = true
is_empty (x ∷ xs) = false

abbrev pub is_uncertain : Option EffectState → Bool
is_uncertain (some uncertain) = true
is_uncertain _ = false

abbrev pub is_completed : Option EffectState → Bool
is_completed (some completed) = true
is_completed _ = false

-- the expired items among those that support a subject
unfoldable pub expired_for : Ledger → SubjectState → List EvidenceExpired
expired_for l s = filter (λ e. elem e.item_id s.supporting_items) (values l.expired)

-- the ladder, for a subject that has evidence
unfoldable pub decide_known :
    SubjectState → List String → List EvidenceExpired → RerunQuestion → Decision
decide_known s items expired q =
    if not (is_empty s.contradicted_by)
    then record {
      decision_id = q.decision_id;
      kind = reject;
      subject = q.subject;
      evidence_ids = s.contradicted_by;
      requires_observation = false;
      events = [];
    }
    else if is_uncertain s.effect && not s.reconciled
    then record {
      decision_id = q.decision_id;
      kind = reconcile;
      subject = q.subject;
      evidence_ids = items;
      requires_observation = true;
      events = [];
    }
    else if not (is_empty expired) && is_empty items
    then record {
      decision_id = q.decision_id;
      kind = reacquire;
      subject = q.subject;
      evidence_ids = map (λ (e : EvidenceExpired). e.item_id) expired;
      requires_observation = false;
      events = expired;
    }
    else if is_completed s.effect
    then record {
      decision_id = q.decision_id;
      kind = accept;
      subject = q.subject;
      evidence_ids = items;
      requires_observation = false;
      events = expired;
    }
    else record {
      decision_id = q.decision_id;
      kind = reacquire;
      subject = q.subject;
      evidence_ids = items;
      requires_observation = false;
      events = expired;
    }

unfoldable pub no_evidence : RerunQuestion → Decision
no_evidence q = record {
  decision_id = q.decision_id;
  kind = reacquire;
  subject = q.subject;
  evidence_ids = [];
  requires_observation = false;
  events = [];
}

unfoldable pub decide_on : Option SubjectState → Ledger → RerunQuestion → Decision
unfolding decide_known no_evidence
decide_on none l q = no_evidence q
decide_on (some s) l q =
    if is_empty (valid_items_for l q.subject) && is_empty (expired_for l s)
    then no_evidence q
    else decide_known s (valid_items_for l q.subject) (expired_for l s) q

unfoldable pub decide_rerun : Ledger → RerunQuestion → Decision
unfolding decide_on
decide_rerun l q = decide_on (get l.subjects q.subject) l q
