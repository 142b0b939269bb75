-- ===== src/Evidence/Decide/Denials.antt =====
-- What the claims of one item leave in the ledger (core/reducer.py).
use vuoro.Prelude.{
  String, ◌≡◌, subst, refl, Bool, false, Option, none, some, List, [], ◌∷◌, ◌++◌, arith, inl, inr,
  Bool-cases,
}
use mathlib.Core.List.{Memᴰ}
use vuoro.Prelude.Eq.{◌==◌, string_keys, beq_refl}
use vuoro.Dict.{Dict, get, get-put}
use vuoro.Evidence.Model.{ClaimType, observation, Claim, EvidenceItem, EvidenceExpired}
use vuoro.Evidence.Reducer.{
  SubjectState, Ledger, apply, apply_claims, apply_type, subject_after, supported, settle, observed,
  new_subject, EffectState,
}
use vuoro.Evidence.Decide.{is_empty}

-- the claim tells against the subject
pub record Contradicts (subject : String) (c : Claim) : Type 0 where
  pub typed : c.claim_type ≡ observation
  pub denies : c.confirms ≡ some false
  pub about : c.subject ≡ subject

-- an expiry stands under the item it is about
abbrev pub Keyed : Dict String EvidenceExpired → Type 0
Keyed d = (i : String) (e : EvidenceExpired) → get d i ≡ some e → e.item_id ≡ i

abbrev pub Denied : Option SubjectState → Type 0
Denied o = (s : SubjectState) × (o ≡ some s) × (is_empty s.contradicted_by ≡ false)

pub record Supported (l : Ledger) : Type 0 where
  pub keyed : Keyed l.expired
  pub items :
      (q : String) (s : SubjectState)
      → get l.subjects q ≡ some s
      → is_empty s.supporting_items ≡ false

is_empty-append : {A : Type 0} (xs : List A) (x : A) → is_empty (xs ++ x ∷ []) ≡ false
is_empty-append [] x = refl
is_empty-append (y ∷ ys) x = refl

settle-keeps :
    (o : Option EffectState) (c : Option Bool) (s : SubjectState)
    → ((settle o c s).contradicted_by ≡ s.contradicted_by)
      × ((settle o c s).supporting_items ≡ s.supporting_items)
unfolding settle
settle-keeps o c s = ground arith

apply_type-supporting :
    (t : ClaimType) (c : Option Bool) (i : String) (s : SubjectState)
    → (apply_type t c i s).supporting_items ≡ s.supporting_items
unfolding apply_type observed settle
apply_type-supporting t c i s = ground arith

apply_type-denied :
    (t : ClaimType) (c : Option Bool) (i : String) (s : SubjectState)
    → is_empty s.contradicted_by ≡ false
    → is_empty (apply_type t c i s).contradicted_by ≡ false
unfolding apply_type observed settle
apply_type-denied t c i s h = ground (arith, is_empty-append s.contradicted_by i)

apply_type-denies :
    (c : Option Bool) (t : ClaimType) (i : String) (s : SubjectState)
    → t ≡ observation
    → c ≡ some false
    → is_empty (apply_type t c i s).contradicted_by ≡ false
unfolding apply_type observed settle
apply_type-denies c t i s h g = ground (arith, is_empty-append s.contradicted_by i)

subject_after-Denied :
    (item : EvidenceItem) (c : Claim) (o : Option SubjectState)
    → Denied o
    → is_empty (subject_after item c o).contradicted_by ≡ false
unfolding subject_after supported
subject_after-Denied item c none (s, e, h) = cc
subject_after-Denied item c (some t) (s, e, h) =
    apply_type-denied c.claim_type c.confirms item.item_id (supported item c t) (ground arith)

subject_after-denies :
    (q : String) (item : EvidenceItem) (c : Claim) (o : Option SubjectState)
    → Contradicts q c
    → is_empty (subject_after item c o).contradicted_by ≡ false
unfolding subject_after
subject_after-denies q item c none h =
    apply_type-denies c.confirms c.claim_type item.item_id (supported item c new_subject) h.typed
      h.denies
subject_after-denies q item c (some t) h =
    apply_type-denies c.confirms c.claim_type item.item_id (supported item c t) h.typed h.denies

subject_after-supporting :
    (item : EvidenceItem) (c : Claim) (o : Option SubjectState)
    → is_empty (subject_after item c o).supporting_items ≡ false
unfolding subject_after supported
subject_after-supporting item c none =
    rw (apply_type-supporting c.claim_type c.confirms item.item_id (supported item c new_subject))
      refl
subject_after-supporting item c (some t) =
    rw (apply_type-supporting c.claim_type c.confirms item.item_id (supported item c t))
      (is_empty-append t.supporting_items item.item_id)

apply-Denied :
    (q : String) (l : Ledger) (item : EvidenceItem) (c : Claim)
    → Denied (get l.subjects q)
    → Denied (get (apply l item c).subjects q)
unfolding apply
apply-Denied q l item c (s, e, h) = elim (Bool-cases (c.subject == q)) [
  | inl t ↦ (
    subject_after item c (get l.subjects c.subject),
    ground
        (arith, get-put l.subjects c.subject (subject_after item c (get l.subjects c.subject)) q),
    subject_after-Denied item c (get l.subjects c.subject)
        (s, ground (arith, string_keys.decides c.subject q), h),
  )
  | inr f ↦ (
    s,
    ground
        (arith, get-put l.subjects c.subject (subject_after item c (get l.subjects c.subject)) q),
    h,
  )
]

apply-denies :
    (q : String) (l : Ledger) (item : EvidenceItem) (c : Claim)
    → Contradicts q c
    → Denied (get (apply l item c).subjects q)
unfolding apply
apply-denies q l item c h = (
  subject_after item c (get l.subjects c.subject),
  ground (
    arith,
    get-put l.subjects c.subject (subject_after item c (get l.subjects c.subject)) q,
    h.about,
    beq_refl q,
  ),
  subject_after-denies q item c (get l.subjects c.subject) h,
)

apply-Supported :
    (l : Ledger) (item : EvidenceItem) (c : Claim) → Supported l → Supported (apply l item c)
unfolding apply
apply-Supported l item c h = record {
  keyed = h.keyed;
  items = λ q s e. ground (
    arith,
    get-put l.subjects c.subject (subject_after item c (get l.subjects c.subject)) q,
    h.items q s,
    subject_after-supporting item c (get l.subjects c.subject),
  );
}

pub apply_claims-Denied :
    (q : String) (l : Ledger) (item : EvidenceItem) (cs : List Claim)
    → Denied (get l.subjects q)
    → Denied (get (apply_claims l item cs).subjects q)
unfolding apply_claims
apply_claims-Denied q l item [] h = h
apply_claims-Denied q l item (c ∷ cs) h =
    apply_claims-Denied q (apply l item c) item cs (apply-Denied q l item c h)

pub apply_claims-denies :
    (q : String) (l : Ledger) (item : EvidenceItem) (cs : List Claim) (c : Claim)
    → Memᴰ c cs
    → Contradicts q c
    → Denied (get (apply_claims l item cs).subjects q)
unfolding apply_claims
apply_claims-denies q l item [] c m k = elim m [ ]
apply_claims-denies q l item (d ∷ cs) c (Memᴰ.head e) k =
    apply_claims-Denied q (apply l item d) item cs
      (apply-denies q l item d (subst (Contradicts q) e k))
apply_claims-denies q l item (d ∷ cs) c (Memᴰ.tail h) k =
    apply_claims-denies q (apply l item d) item cs c h k

pub apply_claims-Supported :
    (l : Ledger) (item : EvidenceItem) (cs : List Claim)
    → Supported l
    → Supported (apply_claims l item cs)
unfolding apply_claims
apply_claims-Supported l item [] h = h
apply_claims-Supported l item (c ∷ cs) h =
    apply_claims-Supported (apply l item c) item cs (apply-Supported l item c h)
