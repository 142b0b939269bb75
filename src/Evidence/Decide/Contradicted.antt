-- ===== src/Evidence/Decide/Contradicted.antt =====
-- A contradiction in a set reaches the decision (core/reducer.py and core/decision.py together).
use vuoro.Prelude.{
  ℕ, String, ◌≡◌, subst, refl, Bool, true, false, Option, none, some, List, [], ◌∷◌, ◌&&◌, not,
  arith, inl, inr, Option-cases, is_some, filter,
}
use mathlib.Core.List.{Memᴰ}
use vuoro.Prelude.Eq.{string_keys, elem, beq_refl}
use vuoro.Dict.{Dict, get, put, get-put, get-empty, values}
use vuoro.Evidence.Model.{Claim, EvidenceItem, EvidenceSet, EvidenceExpired, reject}
use vuoro.Evidence.Reducer.{
  SubjectState, Ledger, apply_claims, apply_item, apply_items, expiry_of, reduce, valid_items_for,
  supporting_of, declare,
}
use vuoro.Evidence.Decide.{RerunQuestion, is_empty, expired_for, decide_rerun}
use vuoro.Evidence.Decide.Denials.{
  Contradicts, Keyed, Denied, Supported, apply_claims-Denied, apply_claims-denies,
  apply_claims-Supported,
}

-- the ledger with the expiry of an item, where it has one
abbrev marked : Ledger → String → Option EvidenceExpired → Ledger
marked l i none = l
marked l i (some e) = record l { expired = put l.expired i e }

apply_item-marked :
    (l : Ledger) (now : ℕ) (inputs : Dict String String) (item : EvidenceItem)
    → apply_item l now inputs item
      ≡ apply_claims (marked l item.item_id (expiry_of item now inputs)) item item.claims
unfolding apply_item
apply_item-marked l now inputs item = elim (Option-cases (expiry_of item now inputs)) [
  | inl n ↦ rw n refl
  | inr (e, k) ↦ rw k refl
]

marked-subjects :
    (l : Ledger) (i : String) (o : Option EvidenceExpired) → (marked l i o).subjects ≡ l.subjects
marked-subjects l i none = refl
marked-subjects l i (some e) = refl

expiry_of-item_id :
    (item : EvidenceItem) (now : ℕ) (inputs : Dict String String) (e : EvidenceExpired)
    → expiry_of item now inputs ≡ some e
    → e.item_id ≡ item.item_id
unfolding expiry_of
expiry_of-item_id item now inputs e h = ground arith

marked-Supported :
    (l : Ledger) (item : EvidenceItem) (now : ℕ) (inputs : Dict String String)
    → Supported l
    → Supported (marked l item.item_id (expiry_of item now inputs))
marked-Supported l item now inputs h = elim (Option-cases (expiry_of item now inputs)) [
  | inl n ↦ rw n h
  | inr (e, k) ↦ rw k record {
    keyed = λ i f g. ground (
      arith,
      get-put l.expired item.item_id e i,
      string_keys.decides item.item_id i,
      expiry_of-item_id item now inputs e k,
      h.keyed i f,
    );
    items = h.items;
  }
]

apply_item-Denied :
    (q : String) (l : Ledger) (now : ℕ) (inputs : Dict String String) (item : EvidenceItem)
    → Denied (get l.subjects q)
    → Denied (get (apply_item l now inputs item).subjects q)
apply_item-Denied q l now inputs item h = rw (apply_item-marked l now inputs item) (
    apply_claims-Denied q (marked l item.item_id (expiry_of item now inputs)) item item.claims
      (rw (marked-subjects l item.item_id (expiry_of item now inputs)) h))

apply_item-denies :
    (q : String) (l : Ledger) (now : ℕ) (inputs : Dict String String) (item : EvidenceItem)
    (c : Claim)
    → Memᴰ c item.claims
    → Contradicts q c
    → Denied (get (apply_item l now inputs item).subjects q)
apply_item-denies q l now inputs item c m k = rw (apply_item-marked l now inputs item) (
    apply_claims-denies q (marked l item.item_id (expiry_of item now inputs)) item item.claims c m
      k)

apply_item-Supported :
    (l : Ledger) (now : ℕ) (inputs : Dict String String) (item : EvidenceItem)
    → Supported l
    → Supported (apply_item l now inputs item)
apply_item-Supported l now inputs item h = rw (apply_item-marked l now inputs item) (
    apply_claims-Supported (marked l item.item_id (expiry_of item now inputs)) item item.claims
      (marked-Supported l item now inputs h))

apply_items-Denied :
    (q : String) (l : Ledger) (now : ℕ) (inputs : Dict String String) (items : List EvidenceItem)
    → Denied (get l.subjects q)
    → Denied (get (apply_items l now inputs items).subjects q)
unfolding apply_items
apply_items-Denied q l now inputs [] h = h
apply_items-Denied q l now inputs (i ∷ is) h =
    apply_items-Denied q (apply_item l now inputs i) now inputs is
      (apply_item-Denied q l now inputs i h)

apply_items-denies :
    (q : String) (l : Ledger) (now : ℕ) (inputs : Dict String String) (items : List EvidenceItem)
    (i : EvidenceItem) (c : Claim)
    → Memᴰ i items
    → Memᴰ c i.claims
    → Contradicts q c
    → Denied (get (apply_items l now inputs items).subjects q)
unfolding apply_items
apply_items-denies q l now inputs [] i c n m k = elim n [ ]
apply_items-denies q l now inputs (j ∷ is) i c (Memᴰ.head e) m k =
    apply_items-Denied q (apply_item l now inputs j) now inputs is
      (apply_item-denies q l now inputs j c (subst (λ i. Memᴰ c i.claims) e m) k)
apply_items-denies q l now inputs (j ∷ is) i c (Memᴰ.tail h) m k =
    apply_items-denies q (apply_item l now inputs j) now inputs is i c h m k

apply_items-Supported :
    (l : Ledger) (now : ℕ) (inputs : Dict String String) (items : List EvidenceItem)
    → Supported l
    → Supported (apply_items l now inputs items)
unfolding apply_items
apply_items-Supported l now inputs [] h = h
apply_items-Supported l now inputs (i ∷ is) h =
    apply_items-Supported (apply_item l now inputs i) now inputs is
      (apply_item-Supported l now inputs i h)

filter-values :
    (p : EvidenceExpired → Bool) (d : Dict String EvidenceExpired) (i : String)
    (e : EvidenceExpired)
    → get d i ≡ some e
    → p e ≡ true
    → is_empty (filter p (values d)) ≡ false
unfolding get
filter-values p [] i e h k = cc
filter-values p ((j, f) ∷ d) i e h k = ground (arith, filter-values p d i e)

-- An item that supports a subject either is valid or has an expiry.
valid_or_expired :
    (d : Dict String EvidenceExpired) (xs : List String)
    → Keyed d
    → is_empty xs ≡ false
    → (is_empty (filter (λ i. not (is_some (get d i))) xs)
        && is_empty (filter (λ e. elem e.item_id xs) (values d)))
      ≡ false
valid_or_expired d [] h k = cc
valid_or_expired d (x ∷ xs) h k = elim (Option-cases (get d x)) [
  | inl n ↦ ground arith
  | inr (e, g) ↦
      ground (arith, h x e g, beq_refl x, filter-values (λ e. elem e.item_id (x ∷ xs)) d x e g)
]

contradicted-reject :
    (l : Ledger) (q : RerunQuestion)
    → Supported l
    → Denied (get l.subjects q.subject)
    → (decide_rerun l q).kind ≡ reject
unfolding decide_rerun valid_items_for supporting_of expired_for
contradicted-reject l q h (s, e, d) =
    ground (arith, valid_or_expired l.expired s.supporting_items h.keyed (h.items q.subject s e))

-- Where an observation in the set denies the effect of a subject, the question whether it may run
-- again is answered with a rejection, whatever else the set says and whichever items have expired.
pub denied-reject :
    (evidence : EvidenceSet) (now : ℕ) (inputs : Dict String String) (q : RerunQuestion)
    (item : EvidenceItem) (c : Claim)
    → Memᴰ item evidence.items
    → Memᴰ c item.claims
    → Contradicts q.subject c
    → (decide_rerun (reduce evidence now inputs) q).kind ≡ reject
unfolding reduce
denied-reject evidence now inputs q item c i m k =
    let start : Ledger = record {
      subjects = [];
      grant_use = declare [] evidence.grants;
      expired = [];
    } in
    contradicted-reject (reduce evidence now inputs) q
      (apply_items-Supported start now inputs evidence.items (record {
        keyed = λ i e g. ground (arith, get-empty {V = EvidenceExpired} i);
        items = λ q s g. ground (arith, get-empty {V = SubjectState} q);
      }))
      (apply_items-denies q.subject start now inputs evidence.items item c i m k)
