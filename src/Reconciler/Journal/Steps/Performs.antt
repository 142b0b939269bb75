-- ===== src/Reconciler/Journal/Steps/Performs.antt =====
-- Every call of the journal is a step of its machine.
use vuoro.Prelude.{
  String, Bool, Option, none, some, ◌≡◌, refl, subst, sym, ap, ◌∙◌, ◌⊎◌, inl, inr, Bool-cases,
  Option-cases, arith,
}
use vuoro.Prelude.Eq.{◌==◌, string_keys}
use vuoro.Text.{is_hex_of}
use vuoro.Dict.{get, put}
use vuoro.Reconciler.Journal.{
  Kind, bound, local_ready, branch_possible, pr_possible, branch_observed, pr_observed, applied,
  refused, conflict, kind_keys, Operation, branch_create, pr_create, JournalRecord, Journal, Opened,
}
use vuoro.Reconciler.Journal.Copies.{ProtectedEffect, Copies}
use vuoro.Reconciler.Journal.Format.{Library}
use vuoro.Reconciler.Journal.Verify.{load}
use vuoro.Reconciler.Journal.Operations.{
  transaction, bind_rows, bind_input, bind, read_record, append, mark_spent, record_local_ready,
  record_observed, record_outcome, then_read,
}
use vuoro.Reconciler.Journal.Steps.{
  JournalCall, bind_call, read_call, ready_call, spent_call, observed_call, outcome_call,
  answer_record, answer_mark, operation_of, new_rows, perform, Step, kept, bound_row,
}
use vuoro.Reconciler.Journal.Steps.Cases.{transaction-cases, append-Step}

module _ (l : Library) (c : Copies) (o : Opened) where
  pub read_record_lem : (key : String) (j : Journal) → (read_record l c o key j).0 ≡ j
  unfolding read_record
  read_record_lem key j = elim (Bool-cases (is_hex_of 64 key)) [
    | inr f ↦ ground arith
    | inl t ↦ elim (transaction-cases l c o (λ k. some (k, load k key)) j) [
      | inl same ↦ ground arith
      | inr (k, r, body, result) ↦ ground arith
    ]
  ]

  bind_rows-cases :
      (key binding copy : String) (j k : Journal) (r : Option JournalRecord)
      → bind_rows l c o key binding copy j ≡ some (k, r)
      → (k ≡ j)
        ⊎ ((get j.records key ≡ none)
            × (k ≡ record j { records = put j.records key (new_rows binding copy) }))
  unfolding bind_rows load
  bind_rows-cases key binding copy j k r h = elim (Option-cases (get j.records key)) [
    | inl n ↦ inr (n, ground arith)
    | inr (rows, g) ↦ inl (ground arith)
  ]

  bind_rows-Step :
      (key binding copy : String) (j : Journal)
      → Step l c o j (transaction l c o (bind_rows l c o key binding copy) j).0
  bind_rows-Step key binding copy j =
      elim (transaction-cases l c o (bind_rows l c o key binding copy) j) [
        | inl same ↦ subst (Step l c o j) (sym (ap (λ x. x.0) same)) kept
        | inr (k, r, body, result) ↦ elim (bind_rows-cases key binding copy j k r body) [
          | inl same ↦ subst (Step l c o j) (sym (ap (λ x. x.0) result ∙ same)) kept
          | inr (absent, moved) ↦
              subst (Step l c o j) (sym (ap (λ x. x.0) result ∙ moved))
                (bound_row key binding copy absent)
        ]
      ]

  pub bind-Step :
      (effect : ProtectedEffect) (copy provider signing target fingerprint public_key : String)
      (j : Journal)
      → Step l c o j (bind l c o effect copy provider signing target fingerprint public_key j).0
  unfolding bind
  bind-Step effect copy provider signing target fingerprint public_key j =
      go (bind_input l c o effect copy provider signing target fingerprint public_key)
    where
      go :
          (input : Option (String × String))
          → Step l c o j
              (elim input as (λ x. Journal × Option (Option JournalRecord)) [
                | none ↦ (j, none)
                | some (key, binding) ↦ transaction l c o (bind_rows l c o key binding copy) j
              ]).0
      go none = kept
      go (some (key, binding)) = bind_rows-Step key binding copy j

  then_read_lem : (key : String) (x : Journal × Option Bool) → (then_read l c o key x).0 ≡ x.0
  then_read_lem key (j, none) = refl
  then_read_lem key (j, some first) = read_record_lem key j

  -- an append and the read after it
  then_read-Step :
      (key : String) (kind : Kind) (raw : String) (j : Journal)
      → Step l c o j
          (then_read l c o key
            (append l c o key kind raw (operation_of kind) (kind == applied) j)).0
  then_read-Step key kind raw j =
      subst (Step l c o j)
        (sym
          (then_read_lem key (append l c o key kind raw (operation_of kind) (kind == applied) j)))
        (append-Step l c o key kind raw j)

  answer_record_lem : (x : Journal × Option (Option JournalRecord)) → (answer_record x).0 ≡ x.0
  answer_record_lem (j, none) = refl
  answer_record_lem (j, some r) = refl

  answer_mark_lem : (x : Journal × Option Bool) → (answer_mark x).0 ≡ x.0
  answer_mark_lem (j, none) = refl
  answer_mark_lem (j, some first) = refl

  observed-Step :
      (key : String) (kind : Kind) (raw : String) (j : Journal)
      → Step l c o j (record_observed l c o key kind raw j).0
  unfolding record_observed
  observed-Step key bound raw j = kept
  observed-Step key local_ready raw j = kept
  observed-Step key branch_possible raw j = kept
  observed-Step key pr_possible raw j = kept
  observed-Step key branch_observed raw j = then_read-Step key branch_observed raw j
  observed-Step key pr_observed raw j = then_read-Step key pr_observed raw j
  observed-Step key applied raw j = kept
  observed-Step key refused raw j = then_read-Step key refused raw j
  observed-Step key conflict raw j = then_read-Step key conflict raw j

  pub mark_spent-Step :
      (key : String) (op : Operation) (raw : String) (j : Journal)
      → Step l c o j (mark_spent l c o key op raw j).0
  unfolding mark_spent
  mark_spent-Step key branch_create raw j = append-Step l c o key branch_possible raw j
  mark_spent-Step key pr_create raw j = append-Step l c o key pr_possible raw j

  ready-Step :
      (key raw : String) (j : Journal) → Step l c o j (record_local_ready l c o key raw j).0
  unfolding record_local_ready
  ready-Step key raw j = then_read-Step key local_ready raw j

  outcome-Step : (key raw : String) (j : Journal) → Step l c o j (record_outcome l c o key raw j).0
  unfolding record_outcome
  outcome-Step key raw j = then_read-Step key applied raw j

  -- Every call of the journal is a step of its machine.
  pub perform-Step : (call : JournalCall) (j : Journal) → Step l c o j (perform l c o call j).0
  unfolding perform
  perform-Step (bind_call effect copy provider signing target fingerprint public_key) j =
      subst (Step l c o j)
        (sym (
          answer_record_lem
            (bind l c o effect copy provider signing target fingerprint public_key j)))
        (bind-Step effect copy provider signing target fingerprint public_key j)
  perform-Step (read_call key) j =
      subst (Step l c o j)
        (sym (answer_record_lem (read_record l c o key j) ∙ read_record_lem key j)) kept
  perform-Step (ready_call key raw) j =
      subst (Step l c o j) (sym (answer_record_lem (record_local_ready l c o key raw j)))
        (ready-Step key raw j)
  perform-Step (spent_call key op raw) j =
      subst (Step l c o j) (sym (answer_mark_lem (mark_spent l c o key op raw j)))
        (mark_spent-Step key op raw j)
  perform-Step (observed_call key kind raw) j =
      subst (Step l c o j) (sym (answer_record_lem (record_observed l c o key kind raw j)))
        (observed-Step key kind raw j)
  perform-Step (outcome_call key raw) j =
      subst (Step l c o j) (sym (answer_record_lem (record_outcome l c o key raw j)))
        (outcome-Step key raw j)
