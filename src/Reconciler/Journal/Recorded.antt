-- ===== src/Reconciler/Journal/Recorded.antt =====
-- What an append does to a journal that validates.
use vuoro.Prelude.{
  String, Bool, true, false, Option, none, some, [], ◌∷◌, ◌≡◌, subst, ap, ◌∙◌, inl, inr, is_some,
  Option-cases, Bool-cases, all, ◌&&◌, arith,
}
use vuoro.Prelude.Eq.{◌==◌, string_keys, option_keys, option_eq_iff}
use vuoro.Dict.{Dict, get, put, get-put}
use vuoro.Reconciler.Journal.{
  Document, Kind, applied, kind_keys, Operation, branch_create, pr_create, operation_keys,
  operation_event, Rows, JournalRecord, Journal, Opened,
}
use vuoro.Reconciler.Journal.Copies.{Copies}
use vuoro.Reconciler.Journal.Format.{Library}
use vuoro.Reconciler.Journal.Bindings.{Seen}
use vuoro.Reconciler.Journal.Verify.{
  Verified, admit, verify, verifies, validate_all, has_terminal, load, expected_spent,
  expected_outcome,
}
use vuoro.Reconciler.Journal.Operations.{
  insert_spent, insert_outcome, append_rows, append_verified, append_new, append, transaction,
  settle,
}
use vuoro.Reconciler.Journal.Steps.{operation_of, next_rows, Appended, appended_to}
use vuoro.Reconciler.Journal.Steps.Cases.{append_rows-cases}
use vuoro.Reconciler.Journal.Sound.{Valid, verify-Valid}
use vuoro.Reconciler.Journal.Kept.{Appended-verify, after_event, spent_matches_iff}
use vuoro.Reconciler.Journal.Walks.{operation_of-cases}

all-put :
    (p : String × Rows → Bool) (d : Dict String Rows) (key : String) (rows : Rows)
    → all p d ≡ true
    → p (key, rows) ≡ true
    → all p (put d key rows) ≡ true
unfolding put
all-put p [] key rows h t = ground arith
all-put p ((k, r) ∷ d) key rows h t = elim (Bool-cases (k == key)) [
  | inr f ↦ ground (arith, all-put p d key rows)
  | inl e ↦ ground (arith, ap (λ x. p (x, rows)) ((string_keys.decides k key).0 e))
]

-- an operation whose request is not there has no row
unspent :
    (l : Library) (p : Operation) (seen : Seen) (spent : Dict Operation String)
    → get seen (operation_event p) ≡ none
    → get spent branch_create ≡ expected_spent l seen branch_create
    → get spent pr_create ≡ expected_spent l seen pr_create
    → get spent p ≡ none
unspent l branch_create seen spent fresh branch pr = ground arith
unspent l pr_create seen spent fresh branch pr = ground arith

module _ (l : Library) (c : Copies) (o : Opened) where
  abbrev pub opened_by : Journal → Bool
  opened_by j = j.host_id == o.host_id && j.registry_utf8 == o.registry_utf8

  Appended-validates :
      (j : Journal) (key : String) (kind : Kind) (raw : String) (a : Appended l c o j key kind raw)
      → validate_all l c o j ≡ true
      → validate_all l c o (appended_to l c o j key kind raw a) ≡ true
  unfolding validate_all
  Appended-validates j key kind raw a h =
      all-put (verifies l c o) j.records key (next_rows a.rows kind raw a.spent a.outcome) h
        (ap is_some (Appended-verify l c o j key kind raw a))

  -- In a journal that validates, and that was opened with its own host and registry, an append does what
  -- its body does: the validation after the body never refuses what the body has written.
  pub append-append_rows :
      (j : Journal) (key : String) (kind : Kind) (raw : String)
      → opened_by j ≡ true
      → validate_all l c o j ≡ true
      → append l c o key kind raw (operation_of kind) (kind == applied) j
        ≡ settle j (append_rows l c o key kind raw (operation_of kind) (kind == applied) j)
  unfolding append transaction
  append-append_rows j key kind raw opened valid =
      elim (Option-cases (append_rows l c o key kind raw (operation_of kind) (kind == applied) j)) [
        | inl n ↦ ground (arith, n)
        | inr ((k, first), e) ↦ elim (append_rows-cases l c o key kind raw j k first e) [
          | inl (same, not_first) ↦ ground (arith, e, ap (validate_all l c o) same)
          | inr (a, moved, is_first) ↦
              ground
                (arith, e, ap (validate_all l c o) moved, Appended-validates j key kind raw a valid)
        ]
      ]

  Appended-append_rows :
      (j : Journal) (key : String) (kind : Kind) (raw : String) (a : Appended l c o j key kind raw)
      → append_rows l c o key kind raw (operation_of kind) (kind == applied) j
        ≡ some (appended_to l c o j key kind raw a, true)
  unfolding append_rows append_verified append_new load
  Appended-append_rows j key kind raw a =
      ground (arith, a.found, a.valid, a.fresh, a.live, a.admitted, a.spent_row, a.outcome_row)

  insert_spent-fresh :
      (r : JournalRecord) (v : Verified) (kind : Kind) (raw : String)
      → Valid l c o r v
      → get v.seen kind ≡ none
      → (spent : Dict Operation String) × (insert_spent (operation_of kind) raw r.rows.spent
          ≡ some spent)
  unfolding insert_spent
  insert_spent-fresh r v kind raw h fresh =
      let (branch_row, pr_row) = (spent_matches_iff l v.seen r.rows.spent).0 h.spent_rows in
      elim (operation_of-cases kind) [
        | inl (none_of, not_event) ↦ (r.rows.spent, ground (arith, none_of))
        | inr (p, some_of, event) ↦ (
          put r.rows.spent p raw,
          ground (
            arith,
            some_of,
            unspent l p v.seen r.rows.spent (subst (λ k. get v.seen k ≡ none) event fresh)
                branch_row pr_row,
          ),
        )
      ]

  insert_outcome-fresh :
      (r : JournalRecord) (v : Verified) (kind : Kind) (raw : String)
      → Valid l c o r v
      → get v.seen kind ≡ none
      → (outcome : Option String) × (insert_outcome (kind == applied) raw r.rows.outcome_utf8
          ≡ some outcome)
  unfolding insert_outcome
  insert_outcome-fresh r v kind raw h fresh =
      let row = (option_eq_iff r.rows.outcome_utf8 (expected_outcome l v.seen)).0 h.outcome_row in
      elim (Bool-cases (kind == applied)) [
        | inr f ↦ (r.rows.outcome_utf8, ground (arith, f))
        | inl t ↦ (
          some raw,
          ground (
            arith,
            t,
            row,
            subst (λ k. get v.seen k ≡ none) ((kind_keys.decides kind applied).0 t) fresh,
          ),
        )
      ]

  -- In a journal that validates, an unsettled effect's new event is recorded where its document is
  -- admitted: `_append` answers True, the journal validates after it, and the effect's record then
  -- verifies with the document beside the ones that it had.
  pub admitted-recorded :
      (j : Journal) (key : String) (kind : Kind) (raw : String) (rows : Rows) (v : Verified)
      (value : Document)
      → opened_by j ≡ true
      → validate_all l c o j ≡ true
      → get j.records key ≡ some rows
      → verify l c o (record { effect_key = key; rows = rows }) ≡ some v
      → get v.seen kind ≡ none
      → has_terminal v.seen ≡ false
      → admit l (record { effect_key = key; rows = rows }) v.effect v.binding v.seen kind raw
        ≡ some value
      → ((append l c o key kind raw (operation_of kind) (kind == applied) j).1 ≡ some true)
        × (validate_all l c o (append l c o key kind raw (operation_of kind) (kind == applied) j).0
            ≡ true)
        × ((next : Rows) × (get
                (append l c o key kind raw (operation_of kind) (kind == applied) j).0.records
                key
              ≡ some next)
            × (verify l c o (record { effect_key = key; rows = next })
                ≡ some (after_event l c o v kind value)))
  admitted-recorded j key kind raw rows v value opened valid found verified fresh live admitted =
      let h = verify-Valid l c o (record { effect_key = key; rows = rows }) v verified in
      let (spent, spent_row) =
        insert_spent-fresh (record { effect_key = key; rows = rows }) v kind raw h fresh in
      let (outcome, outcome_row) =
        insert_outcome-fresh (record { effect_key = key; rows = rows }) v kind raw h fresh in
      let a : Appended l c o j key kind raw = record {
        rows = rows;
        verified = v;
        value = value;
        spent = spent;
        outcome = outcome;
        found = found;
        valid = verified;
        fresh = fresh;
        live = live;
        admitted = admitted;
        spent_row = spent_row;
        outcome_row = outcome_row;
      } in
      let result =
        append-append_rows j key kind raw opened valid
        ∙ ap (settle j) (Appended-append_rows j key kind raw a) in
      (
        ap (λ x. x.1) result,
        ap (λ x. validate_all l c o x.0) result ∙ Appended-validates j key kind raw a valid,
        (
          next_rows rows kind raw spent outcome,
          ap (λ x. get x.0.records key) result
              ∙ get-put j.records key (next_rows rows kind raw spent outcome) key
              ∙ ground (arith, string_keys.decides key key),
          Appended-verify l c o j key kind raw a,
        ),
      )
