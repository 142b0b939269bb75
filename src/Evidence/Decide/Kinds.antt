-- ===== src/Evidence/Decide/Kinds.antt =====
-- What an acceptance tells of the evidence (core/decision.py, core/reducer.py).
use mathlib.Core.List.{Memᴰ}
use vuoro.Prelude.Members.{filter-Mem}
use vuoro.Prelude.{
  ℕ, String, ◌≡◌, ◌≢◌, ◌↔◌, refl, subst, true, not, Option, none, some, [], is_some, filter, arith,
  inl, inr, Option-cases,
}
use vuoro.Prelude.Eq.{string_keys}
use vuoro.Dict.{Dict, get}
use vuoro.Evidence.Model.{Decision, accept, EvidenceItem, EvidenceSet, EvidenceExpired}
use vuoro.Evidence.Reducer.{completed, SubjectState, Ledger, valid_items_for, supporting_of, reduce}
use vuoro.Evidence.Decide.Valid.{StillValid, reduce-StillValid}
use vuoro.Evidence.Decide.{RerunQuestion, decide_rerun}

not_marked : (o : Option EvidenceExpired) → (not (is_some o) ≡ true) ↔ (o ≡ none)
not_marked none = (λ h. refl, λ h. refl)
not_marked (some e) = (λ h. cc, λ h. cc)

-- What an acceptance rests on.
pub record Justified (evidence : EvidenceSet) (now : ℕ) (inputs : Dict String String)
    (subject : String) (d : Decision) : Type 0 where
  pub state : SubjectState
  pub known : get (reduce evidence now inputs).subjects subject ≡ some state
  pub completion : state.effect ≡ some completed
  pub uncontradicted : state.contradicted_by ≡ []
  pub supporting : (i : String) → Memᴰ i d.evidence_ids → Memᴰ i state.supporting_items
  pub unexpired :
      (item : EvidenceItem)
      → Memᴰ item evidence.items
      → Memᴰ item.item_id d.evidence_ids
      → StillValid item.validity.basis item.validity now inputs
  pub some_cited : d.evidence_ids ≢ []

valid_items_for-Mem :
    (l : Ledger) (subject i : String) (s : SubjectState)
    → get l.subjects subject ≡ some s
    → Memᴰ i (valid_items_for l subject)
    → Memᴰ i s.supporting_items × (get l.expired i ≡ none)
unfolding valid_items_for supporting_of
valid_items_for-Mem l subject i s e m =
    let m_here =
      subst (λ o. Memᴰ i (filter (λ j. not (is_some (get l.expired j))) (supporting_of o))) e m in
    let (there, h) =
      (filter-Mem (λ j. not (is_some (get l.expired j))) s.supporting_items i).0 m_here in
    (there, (not_marked (get l.expired i)).0 h)

cited_lem :
    (l : Ledger) (q : RerunQuestion)
    → (decide_rerun l q).kind ≡ accept
    → (s : SubjectState) × (get l.subjects q.subject ≡ some s)
      × (s.effect ≡ some completed)
      × (s.contradicted_by ≡ [])
      × ((decide_rerun l q).evidence_ids ≡ valid_items_for l q.subject)
      × ((decide_rerun l q).evidence_ids ≢ [])
unfolding decide_rerun
cited_lem l q h = elim (Option-cases (get l.subjects q.subject)) [
  | inl n ↦ absurd (ground arith)
  | inr (s, e) ↦ (s, e, ground arith, ground arith, ground arith, ground arith)
]

-- A rerun is avoided only on valid evidence: the effect of the subject is completed, no observation
-- contradicts it, and at least one item is cited. Each item cited supports the subject and is still
-- valid: it has no end, or the end has not passed, or none of the inputs that it was made from is
-- seen with another digest.
pub accept-Justified :
    (evidence : EvidenceSet) (now : ℕ) (inputs : Dict String String) (q : RerunQuestion)
    → (decide_rerun (reduce evidence now inputs) q).kind ≡ accept
    → Justified evidence now inputs q.subject (decide_rerun (reduce evidence now inputs) q)
accept-Justified evidence now inputs q h =
    let (s, e, done, clean, cited, some_there) = cited_lem (reduce evidence now inputs) q h in
    record {
      state = s;
      known = e;
      completion = done;
      uncontradicted = clean;
      supporting = λ i m.
          (valid_items_for-Mem (reduce evidence now inputs) q.subject i s e
            (subst (Memᴰ i) cited m)).0;
      unexpired = λ item there m.
          let (_, free) =
            valid_items_for-Mem (reduce evidence now inputs) q.subject item.item_id s e
              (subst (Memᴰ item.item_id) cited m) in
          reduce-StillValid evidence now inputs item there free;
      some_cited = some_there;
    }
