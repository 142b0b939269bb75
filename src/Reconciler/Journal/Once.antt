-- ===== src/Reconciler/Journal/Once.antt =====
-- A publication is marked as spent once: `mark_spent` answers True to one call at most.
use vuoro.Prelude.{
  ◌≤◌, String, Bool, true, false, Option, none, some, List, [], ◌∷◌, ◌≡◌, refl, subst, sym, ap, ◌∙◌,
  inl, inr, is_some, Bool-cases, arith,
}
use vuoro.Prelude.Eq.{string_keys}
use vuoro.Dict.{Dict, get, get-put}
use vuoro.Reconciler.Journal.{
  branch_possible, pr_possible, kind_keys, Operation, branch_create, pr_create, operation_keys,
  operation_event, Journal, Opened,
}
use vuoro.Reconciler.Journal.Copies.{Copies}
use vuoro.Reconciler.Journal.Format.{Library, holds}
use vuoro.Reconciler.Journal.Operations.{insert_spent, mark_spent}
use vuoro.Reconciler.Journal.Steps.{
  JournalCall, bind_call, read_call, ready_call, spent_call, observed_call, outcome_call,
  operation_of, next_rows, new_rows, perform, Appended, appended_to, Step, kept, bound_row,
  appended, is_first, firsts, answer_mark,
}
use vuoro.Reconciler.Journal.Steps.Cases.{append-cases}
use vuoro.Reconciler.Journal.Steps.Performs.{perform-Step}

-- the table publication_spent has a row for the effect and the operation
abbrev pub has_spent : Journal → String → Operation → Bool
has_spent j key op = holds (get j.records key) (λ rows. is_some (get rows.spent op))

insert_spent_keeps :
    (operation : Option Operation) (raw : String) (spent next : Dict Operation String)
    (op : Operation)
    → insert_spent operation raw spent ≡ some next
    → is_some (get spent op) ≡ true
    → is_some (get next op) ≡ true
unfolding insert_spent
insert_spent_keeps none raw spent next op h t = ground arith
insert_spent_keeps (some p) raw spent next op h t = ground (arith, get-put spent p raw op)

insert_spent_adds :
    (op : Operation) (raw : String) (spent next : Dict Operation String)
    → insert_spent (some op) raw spent ≡ some next
    → (is_some (get spent op) ≡ false) × (is_some (get next op) ≡ true)
unfolding insert_spent
insert_spent_adds op raw spent next h =
    ground (arith, get-put spent op raw op, operation_keys.decides op op)

is_first-mark :
    (key : String) (op : Operation) (k : String) (p : Operation) (raw : String)
    (x : Journal × Option Bool)
    → is_first key op (spent_call k p raw) (answer_mark x).1 ≡ true
    → (k ≡ key) × (p ≡ op) × (x.1 ≡ some true) × ((answer_mark x).0 ≡ x.0)
is_first-mark key op k p raw (j, none) h = cc
is_first-mark key op k p raw (j, some true) h =
    ground (arith, string_keys.decides k key, operation_keys.decides p op)
is_first-mark key op k p raw (j, some false) h = cc

module _ (l : Library) (c : Copies) (o : Opened) where
  -- a row of publication_spent stays
  pub Step-has_spent :
      (j k : Journal) (key : String) (op : Operation)
      → Step l c o j k
      → has_spent j key op ≡ true
      → has_spent k key op ≡ true
  Step-has_spent j k key op kept t = t
  Step-has_spent j k key op (bound_row at binding copy absent) t =
      ground (arith, get-put j.records at (new_rows binding copy) key, string_keys.decides at key)
  Step-has_spent j k key op (appended at kind raw a) t = ground (
    arith,
    get-put j.records at (next_rows a.rows kind raw a.spent a.outcome) key,
    string_keys.decides at key,
    a.found,
    insert_spent_keeps (operation_of kind) raw a.rows.spent a.spent op a.spent_row,
  )

  Appended-has_spent :
      (key : String) (op : Operation) (raw : String) (j : Journal)
      (a : Appended l c o j key (operation_event op) raw)
      → (operation_of (operation_event op)) ≡ some op
      → (has_spent j key op ≡ false)
        × (has_spent (appended_to l c o j key (operation_event op) raw a) key op ≡ true)
  Appended-has_spent key op raw j a e =
      let (before, now) =
        insert_spent_adds op raw a.rows.spent a.spent
          (subst (λ x. insert_spent x raw a.rows.spent ≡ some a.spent) e a.spent_row) in
      (
        ground (arith, a.found),
        ground (
          arith,
          get-put j.records key (next_rows a.rows (operation_event op) raw a.spent a.outcome) key,
          string_keys.decides key key,
        ),
      )

  pub mark_spent-first :
      (key : String) (op : Operation) (raw : String) (j : Journal)
      → (mark_spent l c o key op raw j).1 ≡ some true
      → (has_spent j key op ≡ false) × (has_spent (mark_spent l c o key op raw j).0 key op ≡ true)
  unfolding mark_spent
  mark_spent-first key branch_create raw j h = elim (append-cases l c o key branch_possible raw j) [
    | inl (same, n) ↦ elim (n h) [ ]
    | inr (a, moved) ↦
        let (before, now) = Appended-has_spent key branch_create raw j a refl in
        (before, ap (λ x. has_spent x.0 key branch_create) moved ∙ now)
  ]
  mark_spent-first key pr_create raw j h = elim (append-cases l c o key pr_possible raw j) [
    | inl (same, n) ↦ elim (n h) [ ]
    | inr (a, moved) ↦
        let (before, now) = Appended-has_spent key pr_create raw j a refl in
        (before, ap (λ x. has_spent x.0 key pr_create) moved ∙ now)
  ]

  is_first-spends :
      (key : String) (op : Operation) (call : JournalCall) (j : Journal)
      → is_first key op call (perform l c o call j).1 ≡ true
      → (has_spent j key op ≡ false) × (has_spent (perform l c o call j).0 key op ≡ true)
  unfolding perform
  is_first-spends key op (bind_call effect copy provider signing target fingerprint public_key) j
        h =
      cc
  is_first-spends key op (read_call k) j h = cc
  is_first-spends key op (ready_call k raw) j h = cc
  is_first-spends key op (observed_call k kind raw) j h = cc
  is_first-spends key op (outcome_call k raw) j h = cc
  is_first-spends key op (spent_call k p raw) j h =
      let (same_key, same_op, first, moved) =
        is_first-mark key op k p raw (mark_spent l c o k p raw j) h in
      let (before, now) = mark_spent-first k p raw j first in
      (
        sym (ap (λ x. has_spent j x p) same_key ∙ ap (λ x. has_spent j key x) same_op) ∙ before,
        ap (λ x. has_spent x key op) moved
            ∙ sym (
                ap (λ x. has_spent (mark_spent l c o k p raw j).0 x p) same_key
                ∙ ap (λ x. has_spent (mark_spent l c o k p raw j).0 key x) same_op)
            ∙ now,
      )

  firsts-spent :
      (key : String) (op : Operation) (calls : List JournalCall) (j : Journal)
      → has_spent j key op ≡ true
      → firsts l c o key op calls j ≡ 0
  unfolding firsts
  firsts-spent key op [] j t = refl
  firsts-spent key op (call ∷ calls) j t = ground (
    arith,
    firsts-spent key op calls (perform l c o call j).0
        (Step-has_spent j (perform l c o call j).0 key op (perform-Step l c o call j) t),
    is_first-spends key op call j,
  )

  -- Whatever calls reach a journal, and in whatever order, `mark_spent` answers True to at most one of
  -- them for an effect and an operation.
  pub marked_once :
      (key : String) (op : Operation) (calls : List JournalCall) (j : Journal)
      → firsts l c o key op calls j ≤ 1
  unfolding firsts
  marked_once key op [] j = omega arith
  marked_once key op (call ∷ calls) j =
      elim (Bool-cases (is_first key op call (perform l c o call j).1)) [
        | inl t ↦ ground (
          arith,
          firsts-spent key op calls (perform l c o call j).0 (is_first-spends key op call j t).1,
        )
        | inr f ↦ ground (arith, marked_once key op calls (perform l c o call j).0)
      ]
