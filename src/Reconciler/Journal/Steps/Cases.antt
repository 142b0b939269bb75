-- ===== src/Reconciler/Journal/Steps/Cases.antt =====
-- What a chain of checks, a transaction and an append leave, case by case.
use vuoro.Prelude.{
  String, Bool, true, false, Option, none, some, ◌≡◌, ◌≢◌, refl, subst, sym, ap, ◌∙◌, ◌⊎◌, inl, inr,
  ◌&&◌, not, Bool-cases, Option-cases, arith,
}
use vuoro.Prelude.Eq.{◌==◌, string_keys}
use vuoro.Dict.{get}
use vuoro.Reconciler.Journal.{Kind, applied, kind_keys, Rows, JournalRecord, Journal, Opened}
use vuoro.Reconciler.Journal.Copies.{Copies}
use vuoro.Reconciler.Journal.Format.{Library, ◌>>=◌, ◌>>◌, need}
use vuoro.Reconciler.Journal.Verify.{Verified, load, admit, has_terminal, verify, validate_all}
use vuoro.Reconciler.Journal.Operations.{
  insert_spent, insert_outcome, transaction, append_rows, append_verified, append_new, append,
}
use vuoro.Reconciler.Journal.Steps.{operation_of, Appended, appended_to, Step, kept, appended}

module _ {ℓ κ} {A : Type ℓ} {B : Type κ} where
  -- what a chain that answers has had on its way
  pub bind-some :
      (m : Option A) (f : A → Option B) (b : B)
      → (m >>= f) ≡ some b
      → (a : A) × (m ≡ some a) × (f a ≡ some b)
  bind-some none f b h = cc
  bind-some (some a) f b h = (a, refl, h)

pub need-some {ℓ} :
    {A : Type ℓ} (b : Bool) (k : Option A) (a : A)
    → (need b >> k) ≡ some a
    → (b ≡ true) × (k ≡ some a)
need-some true k a h = (refl, h)
need-some false k a h = cc

module _ (l : Library) (c : Copies) (o : Opened) where
  pub load-some :
      (j : Journal) (key : String) (r : JournalRecord)
      → load j key ≡ some r
      → (rows : Rows) × (get j.records key ≡ some rows)
        × (r ≡ record { effect_key = key; rows = rows })
  unfolding load
  load-some j key r h =
      let (rows, g, e) = bind-some (get j.records key) _ r h in (rows, g, ground arith)

  append_new-some :
      (key : String) (kind : Kind) (raw : String) (j k : Journal) (first : Bool) (rows : Rows)
      (v : Verified)
      → get j.records key ≡ some rows
      → verify l c o (record { effect_key = key; rows = rows }) ≡ some v
      → get v.seen kind ≡ none
      → append_new l c o key kind raw
          (operation_of kind)
          (kind == applied)
          j
          (record { effect_key = key; rows = rows })
          v
        ≡ some (k, first)
      → ((k ≡ j) × (first ≡ false))
        ⊎ ((a : Appended l c o j key kind raw) × (k ≡ appended_to l c o j key kind raw a)
            × (first ≡ true))
  unfolding append_new
  append_new-some key kind raw j k first rows v found valid fresh h =
      let (live, h1) = need-some (not (has_terminal v.seen)) _ (k, first) h in
      let (value, admitted, h2) =
        bind-some
          (admit l (record { effect_key = key; rows = rows }) v.effect v.binding v.seen kind raw) _
          (k, first) h1 in
      let (spent, spent_row, h3) =
        bind-some (insert_spent (operation_of kind) raw rows.spent) _ (k, first) h2 in
      let (outcome, outcome_row, h4) =
        bind-some (insert_outcome (kind == applied) raw rows.outcome_utf8) _ (k, first) h3 in
      inr (
        record {
          rows = rows;
          verified = v;
          value = value;
          spent = spent;
          outcome = outcome;
          found = found;
          valid = valid;
          fresh = fresh;
          live = ground arith;
          admitted = admitted;
          spent_row = spent_row;
          outcome_row = outcome_row;
        },
        ground arith,
        ground arith,
      )

  append_verified-cases :
      (key : String) (kind : Kind) (raw : String) (j k : Journal) (first : Bool) (rows : Rows)
      (v : Verified)
      → get j.records key ≡ some rows
      → verify l c o (record { effect_key = key; rows = rows }) ≡ some v
      → append_verified l c o key kind raw
          (operation_of kind)
          (kind == applied)
          j
          (record { effect_key = key; rows = rows })
          v
        ≡ some (k, first)
      → ((k ≡ j) × (first ≡ false))
        ⊎ ((a : Appended l c o j key kind raw) × (k ≡ appended_to l c o j key kind raw a)
            × (first ≡ true))
  unfolding append_verified
  append_verified-cases key kind raw j k first rows v found valid h =
      elim (Option-cases (get v.seen kind)) [
        | inr (value, seen) ↦ inl (ground arith)
        | inl fresh ↦ append_new-some key kind raw j k first rows v found valid fresh (ground arith)
      ]

  -- an append either finds its event, and changes nothing, or adds it
  pub append_rows-cases :
      (key : String) (kind : Kind) (raw : String) (j k : Journal) (first : Bool)
      → append_rows l c o key kind raw (operation_of kind) (kind == applied) j ≡ some (k, first)
      → ((k ≡ j) × (first ≡ false))
        ⊎ ((a : Appended l c o j key kind raw) × (k ≡ appended_to l c o j key kind raw a)
            × (first ≡ true))
  unfolding append_rows
  append_rows-cases key kind raw j k first h =
      let (r, loaded, h1) = bind-some (load j key) _ (k, first) h in
      let (rows, found, same) = load-some j key r loaded in
      let (v, valid, h2) = bind-some (verify l c o r) _ (k, first) h1 in
      append_verified-cases key kind raw j k first rows v found
        (subst (λ x. verify l c o x ≡ some v) same valid)
        (subst
          (λ x.
            append_verified l c o key kind raw (operation_of kind) (kind == applied) j x v
            ≡ some (k, first))
          same h2)

  -- a transaction rolls back, or does what its body does
  pub transaction-cases {ℓ} :
      {A : Type ℓ} (body : Journal → Option (Journal × A)) (j : Journal)
      → (transaction l c o body j ≡ (j, none))
        ⊎ ((k : Journal) × (a : A) × (body j ≡ some (k, a))
            × (transaction l c o body j ≡ (k, some a)))
  unfolding transaction
  transaction-cases body j =
      elim (Bool-cases (j.host_id == o.host_id && j.registry_utf8 == o.registry_utf8)) [
        | inr f ↦ inl (ground arith)
        | inl t ↦ elim (Bool-cases (validate_all l c o j)) [
          | inr f ↦ inl (ground arith)
          | inl u ↦ elim (Option-cases (body j)) [
            | inl n ↦ inl (ground arith)
            | inr ((k, a), e) ↦ elim (Bool-cases (validate_all l c o k)) [
              | inr f ↦ inl (ground arith)
              | inl w ↦ inr (k, a, e, ground arith)
            ]
          ]
        ]
      ]

  -- what an append leaves and answers
  pub append-cases :
      (key : String) (kind : Kind) (raw : String) (j : Journal)
      → ((append l c o key kind raw (operation_of kind) (kind == applied) j).0 ≡ j)
          × ((append l c o key kind raw (operation_of kind) (kind == applied) j).1 ≢ some true)
        ⊎ ((a : Appended l c o j key kind raw) × (append l c o key kind raw
                (operation_of kind)
                (kind == applied)
                j
              ≡ (appended_to l c o j key kind raw a, some true)))
  unfolding append
  append-cases key kind raw j =
      elim (transaction-cases (append_rows l c o key kind raw (operation_of kind) (kind == applied))
        j) [
          | inl same ↦ inl (ap (λ x. x.0) same, λ e. cc)
          | inr (k, first, body, result) ↦ elim (append_rows-cases key kind raw j k first body) [
            | inl (same, not_first) ↦ inl (ap (λ x. x.0) result ∙ same, λ e. ground arith)
            | inr (a, moved, is_first) ↦ inr (a, ground arith)
          ]
        ]

  pub append-Step :
      (key : String) (kind : Kind) (raw : String) (j : Journal)
      → Step l c o j (append l c o key kind raw (operation_of kind) (kind == applied) j).0
  append-Step key kind raw j = elim (append-cases key kind raw j) [
    | inl (same, n) ↦ subst (Step l c o j) (sym same) kept
    | inr (a, moved) ↦ subst (Step l c o j) (sym (ap (λ x. x.0) moved)) (appended key kind raw a)
  ]
