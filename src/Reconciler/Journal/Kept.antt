-- ===== src/Reconciler/Journal/Kept.antt =====
-- The second validation of a transaction never refuses: what the journal's operations write keeps every
-- record verified.
use vuoro.Prelude.{
  ◌+◌, String, true, false, Option, none, some, List, [], ◌∷◌, ◌++◌, ◌≡◌, refl, ap, ◌∙◌, ◌↔◌, inl,
  inr, Bool-cases, nat_eq, length, arith,
}
use vuoro.Prelude.Eq.{◌==◌, string_keys, option_keys, option_eq_iff}
use vuoro.Dict.{Dict, get, put, get-put}
use vuoro.Reconciler.Journal.{
  Document, Kind, applied, kind_keys, Operation, branch_create, pr_create, operation_keys,
  operation_event, JournalEvent, Rows, JournalRecord, Journal, Opened,
}
use vuoro.Reconciler.Journal.Copies.{Copies}
use vuoro.Reconciler.Journal.Format.{Library, ◌>>=◌}
use vuoro.Reconciler.Journal.Bindings.{Seen}
use vuoro.Reconciler.Journal.Verify.{
  Verified, check_event, walk, verify_binding, verify, is_nonempty, spent_matches, expected_spent,
  expected_outcome,
}
use vuoro.Reconciler.Journal.Operations.{insert_spent, insert_outcome, add_event}
use vuoro.Reconciler.Journal.Steps.{operation_of, next_rows, Appended}
use vuoro.Reconciler.Journal.Sound.{Valid, verify-Valid, Valid-verify}
use vuoro.Reconciler.Journal.Walks.{
  operation_of-cases, same_event, check_event-rows, walk-append, walk-rows, next_event-some,
  admit-canonical,
}

module _ (l : Library) where
  -- the rows of the other tables follow the event
  insert_spent-matches :
      (seen : Seen) (kind : Kind) (value : Document) (raw : String)
      (spent next : Dict Operation String)
      → get seen kind ≡ none
      → l.canonical value ≡ raw
      → insert_spent (operation_of kind) raw spent ≡ some next
      → (op : Operation) → get spent op ≡ expected_spent l seen op
      → get next op ≡ expected_spent l (put seen kind value) op
  unfolding insert_spent
  insert_spent-matches seen kind value raw spent next fresh canonical h op matches =
      elim (operation_of-cases kind) [
        | inl (none_of, not_event) ↦
            ground (arith, none_of, not_event op, get-put seen kind value (operation_event op))
        | inr (p, some_of, event) ↦ ground (
          arith,
          some_of,
          get-put seen kind value (operation_event op),
          get-put spent p raw op,
          same_event p op,
          ap (λ k. k == operation_event op) event,
        )
      ]

  pub spent_matches_iff :
      (seen : Seen) (spent : Dict Operation String)
      → (spent_matches l seen spent ≡ true) ↔ (
          (get spent branch_create ≡ expected_spent l seen branch_create)
          × (get spent pr_create ≡ expected_spent l seen pr_create))
  spent_matches_iff seen spent = ground (
    arith,
    option_eq_iff (get spent branch_create) (expected_spent l seen branch_create),
    option_eq_iff (get spent pr_create) (expected_spent l seen pr_create),
  )

  insert_outcome-matches :
      (seen : Seen) (kind : Kind) (value : Document) (raw : String) (outcome next : Option String)
      → get seen kind ≡ none
      → l.canonical value ≡ raw
      → insert_outcome (kind == applied) raw outcome ≡ some next
      → outcome ≡ expected_outcome l seen
      → next ≡ expected_outcome l (put seen kind value)
  unfolding insert_outcome
  insert_outcome-matches seen kind value raw outcome next fresh canonical h matches =
      elim (Bool-cases (kind == applied)) [
        | inl t ↦ ground (arith, get-put seen kind value applied)
        | inr f ↦ ground (arith, get-put seen kind value applied)
      ]

nonempty-length :
    (events : List JournalEvent) → is_nonempty events ≡ true → nat_eq (length events) 0 ≡ false
nonempty-length [] h = cc
nonempty-length (e ∷ es) h = ground arith

nonempty-append :
    (events : List JournalEvent) (e : JournalEvent) → is_nonempty (events ++ (e ∷ [])) ≡ true
nonempty-append [] e = refl
nonempty-append (d ∷ es) e = refl

module _ (l : Library) (c : Copies) (o : Opened) where
  verify_binding-rows :
      (key : String) (kind : Kind) (raw : String) (rows : Rows) (spent : Dict Operation String)
      (outcome : Option String)
      → verify_binding l c o
          (record { effect_key = key; rows = next_rows rows kind raw spent outcome })
        ≡ verify_binding l c o (record { effect_key = key; rows = rows })
  unfolding verify_binding
  verify_binding-rows key kind raw rows spent outcome = refl

  abbrev pub after_event : Verified → Kind → Document → Verified
  after_event v kind value = record v { seen = put v.seen kind value }

  Appended-walk :
      (j : Journal) (key : String) (kind : Kind) (raw : String) (a : Appended l c o j key kind raw)
      → Valid l c o (record { effect_key = key; rows = a.rows }) a.verified
      → walk l
          (record { effect_key = key; rows = next_rows a.rows kind raw a.spent a.outcome })
          a.verified.effect
          a.verified.binding
          []
          0
          (add_event a.rows.events kind raw)
        ≡ some (put a.verified.seen kind a.value)
  Appended-walk j key kind raw a h =
      let event : JournalEvent = record {
        seq = length a.rows.events;
        event_type = kind;
        payload_utf8 = raw;
      } in
      let new : JournalRecord = record {
        effect_key = key;
        rows = next_rows a.rows kind raw a.spent a.outcome;
      } in
      walk-append l new a.verified.effect a.verified.binding [] 0 a.rows.events event
      ∙ ap
          (λ m. m >>= λ x.
            check_event l new a.verified.effect a.verified.binding x (0 + length a.rows.events)
              event)
          (walk-rows l key kind raw a.rows a.spent a.outcome a.verified.effect a.verified.binding []
              0 a.rows.events
            ∙ h.walked)
      ∙ ap (λ i. check_event l new a.verified.effect a.verified.binding a.verified.seen i event)
          (omega arith)
      ∙ check_event-rows l key a.rows.binding_utf8 a.rows.protected_copy_utf8
          a.rows.protected_copy_utf8 (add_event a.rows.events kind raw) a.rows.events a.spent
          a.rows.spent a.outcome a.rows.outcome_utf8 a.verified.effect a.verified.binding
          a.verified.seen (length a.rows.events) event
      ∙ next_event-some l (record { effect_key = key; rows = a.rows }) a.verified.effect
          a.verified.binding a.verified.seen (length a.rows.events) kind raw a.value
          (nonempty-length a.rows.events h.nonempty) a.fresh a.live a.admitted

  -- an append leaves a record that verifies, with its document
  pub Appended-verify :
      (j : Journal) (key : String) (kind : Kind) (raw : String) (a : Appended l c o j key kind raw)
      → verify l c o
          (record { effect_key = key; rows = next_rows a.rows kind raw a.spent a.outcome })
        ≡ some (after_event a.verified kind a.value)
  Appended-verify j key kind raw a =
      let h = verify-Valid l c o (record { effect_key = key; rows = a.rows }) a.verified a.valid in
      let same =
        admit-canonical l (record { effect_key = key; rows = a.rows }) a.verified.effect
          a.verified.binding a.verified.seen kind raw a.value a.admitted in
      let (branch_row, pr_row) =
        (spent_matches_iff l a.verified.seen a.rows.spent).0 h.spent_rows in
      let spent_row =
        insert_spent-matches l a.verified.seen kind a.value raw a.rows.spent a.spent a.fresh same
          a.spent_row in
      Valid-verify l c o
        (record { effect_key = key; rows = next_rows a.rows kind raw a.spent a.outcome })
        (after_event a.verified kind a.value)
        (record {
          bound_to = verify_binding-rows key kind raw a.rows a.spent a.outcome ∙ h.bound_to;
          nonempty =
              nonempty-append a.rows.events
                (record { seq = length a.rows.events; event_type = kind; payload_utf8 = raw });
          walked = Appended-walk j key kind raw a h;
          spent_rows =
              (spent_matches_iff l (put a.verified.seen kind a.value) a.spent).1
                (spent_row branch_create branch_row, spent_row pr_create pr_row);
          outcome_row = (option_eq_iff _ _).1 (
              insert_outcome-matches l a.verified.seen kind a.value raw a.rows.outcome_utf8
                a.outcome a.fresh same a.outcome_row ((option_eq_iff _ _).0 h.outcome_row));
        })
