-- ===== src/Evidence/Decide/Valid.antt =====
-- Which items the reducer leaves unmarked (core/reducer.py).
use mathlib.Core.List.{Memᴰ}
use vuoro.Prelude.{
  ℕ, ◌≤◌, String, ◌≡◌, refl, sym, ap, ◌∙◌, subst, true, none, some, List, [], ◌∷◌, is_some, arith,
  inl, inr, Option-cases,
}
use vuoro.Prelude.Eq.{string_keys}
use vuoro.Dict.{Dict, get, put, get-put}
use vuoro.Evidence.Model.{
  Claim, EvidenceItem, EvidenceSet, EvidenceExpired, ValidityBasis, ValidityWindow, indefinite,
  bounded, until_inputs_change,
}
use vuoro.Evidence.Reducer.{
  Ledger, changed_component, expiry_by, expiry_of, apply, apply_claims, apply_item, apply_items,
  reduce,
}

-- An item that is still valid: it has no end, or one that has not passed, or none of the inputs that
-- it was made from is seen with another digest.
abbrev pub StillValid : ValidityBasis → ValidityWindow → ℕ → Dict String String → Type 0
StillValid indefinite v now inputs = Unit
StillValid bounded v now inputs = (until : ℕ) → v.valid_until ≡ some until → now ≤ until
StillValid until_inputs_change v now inputs =
    (component digest seen : String)
    → Memᴰ (component, digest) v.component_digests
    → get inputs component ≡ some seen
    → seen ≡ digest

changed_component-none :
    (components inputs : Dict String String) (component digest seen : String)
    → changed_component components inputs ≡ none
    → Memᴰ (component, digest) components
    → get inputs component ≡ some seen
    → seen ≡ digest
unfolding changed_component
changed_component-none [] inputs component digest seen h m g = elim m [ ]
changed_component-none ((c, d) ∷ rest) inputs component digest seen h (Memᴰ.head e) g =
    let c_same : component ≡ c = ap (λ (x : String × String). x.0) e in
    let d_same : digest ≡ d = ap (λ (x : String × String). x.1) e in
    let g_same = ap (get inputs) (sym c_same) ∙ g in
    ground (arith, string_keys.decides seen d, g_same, d_same)
changed_component-none ((c, d) ∷ rest) inputs component digest seen h (Memᴰ.tail m) g =
    changed_component-none rest inputs component digest seen
      (elim (Option-cases (get inputs c)) [ inl n ↦ ground arith | inr (s, e) ↦ ground arith ]) m g

expiry_by-none :
    (basis : ValidityBasis) (v : ValidityWindow) (now : ℕ) (inputs : Dict String String)
    → expiry_by basis v now inputs ≡ none
    → StillValid basis v now inputs
unfolding expiry_by
expiry_by-none indefinite v now inputs h = tt
expiry_by-none bounded v now inputs h = λ until e. ground arith
expiry_by-none until_inputs_change v now inputs h = λ component digest seen m g.
    changed_component-none v.component_digests inputs component digest seen (ground arith) m g

expiry_of-none :
    (item : EvidenceItem) (now : ℕ) (inputs : Dict String String)
    → expiry_of item now inputs ≡ none
    → StillValid item.validity.basis item.validity now inputs
unfolding expiry_of
expiry_of-none item now inputs h =
    expiry_by-none item.validity.basis item.validity now inputs (ground arith)

expired-apply_claims :
    (l : Ledger) (item : EvidenceItem) (claims : List Claim)
    → (apply_claims l item claims).expired ≡ l.expired
unfolding apply_claims apply
expired-apply_claims l item [] = refl
expired-apply_claims l item (c ∷ cs) = expired-apply_claims (apply l item c) item cs

-- an item that is marked as expired stays so
expired-apply_item :
    (l : Ledger) (now : ℕ) (inputs : Dict String String) (item : EvidenceItem) (i : String)
    → is_some (get l.expired i) ≡ true
    → is_some (get (apply_item l now inputs item).expired i) ≡ true
unfolding apply_item
expired-apply_item l now inputs item i h = elim (Option-cases (expiry_of item now inputs)) [
  | inl n ↦ rw n (rw (expired-apply_claims l item item.claims) h)
  | inr (e, found) ↦ rw found (
      rw
        (
          expired-apply_claims (record l { expired = put l.expired item.item_id e }) item
              item.claims,
          get-put l.expired item.item_id e i,
        )
        (ground arith))
]

expired-apply_items :
    (items : List EvidenceItem) (l : Ledger) (now : ℕ) (inputs : Dict String String) (i : String)
    → is_some (get l.expired i) ≡ true
    → is_some (get (apply_items l now inputs items).expired i) ≡ true
unfolding apply_items
expired-apply_items [] l now inputs i h = h
expired-apply_items (item ∷ items) l now inputs i h =
    expired-apply_items items (apply_item l now inputs item) now inputs i
      (expired-apply_item l now inputs item i h)

marked-apply_item :
    (l : Ledger) (now : ℕ) (inputs : Dict String String) (item : EvidenceItem) (e : EvidenceExpired)
    → expiry_of item now inputs ≡ some e
    → is_some (get (apply_item l now inputs item).expired item.item_id) ≡ true
unfolding apply_item
marked-apply_item l now inputs item e found = rw found (
    rw
      (
        expired-apply_claims (record l { expired = put l.expired item.item_id e }) item item.claims,
        get-put l.expired item.item_id e item.item_id,
      )
      (ground (arith, string_keys.decides item.item_id item.item_id)))

-- an item of an id that is not marked has not expired
apply_items-StillValid :
    (items : List EvidenceItem) (l : Ledger) (now : ℕ) (inputs : Dict String String)
    (item : EvidenceItem)
    → Memᴰ item items
    → get (apply_items l now inputs items).expired item.item_id ≡ none
    → StillValid item.validity.basis item.validity now inputs
unfolding apply_items
apply_items-StillValid [] l now inputs item m h = elim m [ ]
apply_items-StillValid (x ∷ xs) l now inputs item (Memᴰ.tail m) h =
    apply_items-StillValid xs (apply_item l now inputs x) now inputs item m h
apply_items-StillValid (x ∷ xs) l now inputs item (Memᴰ.head e) h =
    elim (Option-cases (expiry_of item now inputs)) [
      | inl n ↦ expiry_of-none item now inputs n
      | inr (r, found) ↦
          let marked = marked-apply_item l now inputs item r found in
          let kept =
            expired-apply_items xs (apply_item l now inputs item) now inputs item.item_id marked in
          let here : get (apply_items (apply_item l now inputs item) now inputs xs).expired
                item.item_id
              ≡ none =
            subst
              (λ y.
                get (apply_items (apply_item l now inputs y) now inputs xs).expired item.item_id
                ≡ none)
              (sym e) h in
          absurd (ground arith)
    ]

pub reduce-StillValid :
    (evidence : EvidenceSet) (now : ℕ) (inputs : Dict String String) (item : EvidenceItem)
    → Memᴰ item evidence.items
    → get (reduce evidence now inputs).expired item.item_id ≡ none
    → StillValid item.validity.basis item.validity now inputs
unfolding reduce
reduce-StillValid evidence now inputs item m h =
    apply_items-StillValid evidence.items _ now inputs item m h
