-- ===== src/Reconciler/Journal/Steps.antt =====
-- The journal as a machine: its calls (`JournalCall`), and the steps that they are made of (`Step`):
-- no change, a new row of effect_bindings, or one more event under a key.
pub mod Cases
pub mod Performs
use vuoro.Prelude.{
  String, Bool, true, false, Option, none, some, List, [], ◌∷◌, ◌≡◌, ◌≢◌, refl, subst, sym, ap, ◌∙◌,
  ◌⊎◌, inl, inr, ◌&&◌, not, is_some, Bool-cases, Option-cases, arith, ℕ, suc, if◌then◌else◌,
}
use vuoro.Prelude.Eq.{◌==◌, string_keys}
use vuoro.Text.{is_hex_of}
use vuoro.Dict.{Dict, get, put}
use vuoro.Reconciler.Journal.{
  Document, Kind, bound, local_ready, branch_possible, pr_possible, branch_observed, pr_observed,
  applied, refused, conflict, kind_keys, operation_keys, Operation, branch_create, pr_create,
  operation_event, Rows, JournalRecord, Journal, Opened,
}
use vuoro.Reconciler.Journal.Copies.{ProtectedEffect, Copies}
use vuoro.Reconciler.Journal.Format.{Library, ◌>>=◌, ◌>>◌, need}
use vuoro.Reconciler.Journal.Verify.{Verified, load, admit, has_terminal, verify, validate_all}
use vuoro.Reconciler.Journal.Operations.{
  insert_spent, insert_outcome, add_event, transaction, bind_rows, bind_input, bind, read_record,
  append_rows, append_verified, append_new, append, mark_spent, record_local_ready, record_observed,
  record_outcome, settle, then_read,
}

pub data JournalCall : Type 0 where
  -- the effect, its copy, the profiles' digests, the target's bytes, and the signer's key
  bind_call : ProtectedEffect → String → String → String → String → String → String → JournalCall
  read_call : String → JournalCall
  ready_call : String → String → JournalCall
  spent_call : String → Operation → String → JournalCall
  observed_call : String → Kind → String → JournalCall
  outcome_call : String → String → JournalCall

pub data Answer : Type 0 where
  refusal : Answer
  a_record : Option JournalRecord → Answer
  marked : Bool → Answer

abbrev pub answer_record : Journal × Option (Option JournalRecord) → Journal × Answer
answer_record (j, none) = (j, refusal)
answer_record (j, some r) = (j, a_record r)

abbrev pub answer_mark : Journal × Option Bool → Journal × Answer
answer_mark (j, none) = (j, refusal)
answer_mark (j, some first) = (j, marked first)

-- a call of mark_spent for the key and the operation that answered True
abbrev pub is_first : String → Operation → JournalCall → Answer → Bool
is_first key op (spent_call k p raw) (marked true) = (k == key) && (p == op)
is_first _ _ _ _ = false

-- the operation whose row goes with an event, and whether an outcome does
abbrev pub operation_of : Kind → Option Operation
operation_of branch_possible = some branch_create
operation_of pr_possible = some pr_create
operation_of _ = none

abbrev pub new_rows : String → String → Rows
new_rows binding copy = record {
  binding_utf8 = binding;
  protected_copy_utf8 = copy;
  events = add_event [] bound binding;
  spent = [];
  outcome_utf8 = none;
}

abbrev pub next_rows : Rows → Kind → String → Dict Operation String → Option String → Rows
next_rows rows kind raw spent outcome = record rows {
  events = add_event rows.events kind raw;
  spent = spent;
  outcome_utf8 = outcome;
}

module _ (l : Library) (c : Copies) (o : Opened) where
  unfoldable pub perform : JournalCall → Journal → Journal × Answer
  perform (bind_call effect copy provider signing target fingerprint public_key) j =
      answer_record (bind l c o effect copy provider signing target fingerprint public_key j)
  perform (read_call key) j = answer_record (read_record l c o key j)
  perform (ready_call key raw) j = answer_record (record_local_ready l c o key raw j)
  perform (spent_call key op raw) j = answer_mark (mark_spent l c o key op raw j)
  perform (observed_call key kind raw) j = answer_record (record_observed l c o key kind raw j)
  perform (outcome_call key raw) j = answer_record (record_outcome l c o key raw j)

  -- what an append has checked
  pub record Appended (j : Journal) (key : String) (kind : Kind) (raw : String) : Type 0 where
    pub rows : Rows
    pub verified : Verified
    pub value : Document
    pub spent : Dict Operation String
    pub outcome : Option String
    pub found : get j.records key ≡ some rows
    pub valid : verify l c o (record { effect_key = key; rows = rows }) ≡ some verified
    pub fresh : get verified.seen kind ≡ none
    pub live : has_terminal verified.seen ≡ false
    pub admitted :
        admit l
          (record { effect_key = key; rows = rows })
          verified.effect
          verified.binding
          verified.seen
          kind
          raw
        ≡ some value
    pub spent_row : insert_spent (operation_of kind) raw rows.spent ≡ some spent
    pub outcome_row : insert_outcome (kind == applied) raw rows.outcome_utf8 ≡ some outcome

  abbrev pub appended_to :
      (j : Journal) (key : String) (kind : Kind) (raw : String) → Appended j key kind raw → Journal
  appended_to j key kind raw a = record j {
    records = put j.records key (next_rows a.rows kind raw a.spent a.outcome);
  }

  pub data Step : Journal → Journal → Type 0 where
    kept : {j : Journal} → Step j j
    bound_row :
        {j : Journal} (key binding copy : String)
        → get j.records key ≡ none
        → Step j (record j { records = put j.records key (new_rows binding copy) })
    appended :
        {j : Journal} (key : String) (kind : Kind) (raw : String) (a : Appended j key kind raw)
        → Step j (appended_to j key kind raw a)

  -- a sequence of calls
  unfoldable pub run : List JournalCall → Journal → Journal
  run [] j = j
  run (call ∷ calls) j = run calls (perform call j).0

  -- how many of the calls were such calls
  unfoldable pub firsts : String → Operation → List JournalCall → Journal → ℕ
  firsts key op [] j = 0
  firsts key op (call ∷ calls) j =
      let rest = firsts key op calls (perform call j).0 in
      if is_first key op call (perform call j).1 then suc rest else rest
