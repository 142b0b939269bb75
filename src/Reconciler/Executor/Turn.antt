-- ===== src/Reconciler/Executor/Turn.antt =====
-- The loop of `_execute` over the operations (protected_executor.py). An early return is `inl`, and the
-- record that the loop goes on with is `inr`.
use vuoro.Prelude.{
  ℕ, suc, String, Bool, true, false, Option, none, some, List, [], ◌∷◌, ◌⊎◌, inl, inr, not, ◌&&◌,
  ◌||◌, is_some, if◌then◌else◌,
}
use vuoro.Prelude.Result.{ok}
use vuoro.Prelude.Eq.{◌==◌, string_keys, option_keys}
use vuoro.Dict.{Dict, get}
use vuoro.Reconciler.Journal.{
  Kind, branch_observed, kind_keys, Operation, branch_create, pr_create, operation_keys,
  operation_event, JournalRecord, Opened, JournalEvent,
}
use vuoro.Reconciler.Journal.Copies.{ProtectedEffect, Copies}
use vuoro.Reconciler.Journal.Format.{Library}
use vuoro.Reconciler.Journal.Bindings.{seen_pr_observation}
use vuoro.Reconciler.Journal.Operations.{mark_spent}
use vuoro.Reconciler.Currentness.{Currentness}
use vuoro.Reconciler.Executor.{
  Call, verify_call, create_call, ProviderResult, Outside, Effect, pure, ◌>>=◌, ◌>>◌, given, ask,
  unless_fails, require, write,
}
use vuoro.Reconciler.Executor.Requests.{
  create_of, observed_kind, events_of, request, provider_result,
}
use vuoro.Reconciler.Executor.Execute.{
  ExecutionResult, is_ready, result, journal_read, journal_append, terminal, apply, gate, lookup,
}

abbrev pub Turn : Type 0
Turn = ExecutionResult ⊎ JournalRecord

abbrev pub is_spent : JournalRecord → Bool
is_spent r = is_row r.rows.spent
  where
    is_row : Dict Operation String → Bool
    is_row [] = false
    is_row (row ∷ rows) = true

-- how often an operation's create call was made for an effect
abbrev pub creates : String → Operation → List Call → ℕ
creates key op [] = 0
creates key op (create_call k p ∷ calls) =
    let rest = creates key op calls in if (k == key) && (p == op) then suc rest else rest
creates key op (call ∷ calls) = creates key op calls

module _ (l : Library) (c : Copies) (o : Opened) (w : Outside) where
  abbrev pub return_result : JournalRecord → String → Effect Turn
  return_result r reason = result l c o w r reason >>= λ x. pure (inl x)

  -- knowledge["transmission_possible"] = True
  abbrev pub note_transmission : Effect (Unit {0})
  note_transmission s = (ok tt, record s { transmission_possible = true })

  -- the create call of an operation, with the check of its answer, whose failures are passed over
  unfoldable pub create : JournalRecord → ProtectedEffect → Operation → Effect (Unit {0})
  create r effect op =
      unless_fails
        (ask (create_call r.effect_key op) (λ calls. w.create calls r op) >>= λ answer.
          given (provider_result l r effect (create_of op) false answer) >>= λ checked. pure tt)
        (pure tt)

  -- from the marker to the create call, once the mutation is let through
  unfoldable pub transmit : JournalRecord → ProtectedEffect → Operation → String → Effect Turn
  transmit r effect op asked =
      note_transmission
      >> (write w (mark_spent l c o r.effect_key op asked) >>= λ first.
          if not first
          then (journal_read l c o w r.effect_key >>= λ now.
              return_result now "marker-already-spent")
          else (journal_read l c o w r.effect_key >>= λ now.
              create now effect op >> pure (inr now)))

  -- what a turn does where the marker is not there yet
  unfoldable pub unmarked :
      String → ProtectedEffect → Currentness → JournalRecord → Operation → Effect Turn
  unmarked acceptance_id effect current r op =
      if not (is_ready current)
      then return_result r "basis-not-ready"
      else (ask verify_call (λ calls. w.verify_original calls effect r) >>= λ artifact.
          lookup l c o w r effect op true >>= λ preliminary.
          if not (preliminary.status == "ABSENT")
          then return_result r "unrecorded-provider-state"
          else (gate l c o w acceptance_id r effect >>= λ goes.
              if not goes
              then return_result r "publication-not-ready"
              else (given (request l r effect (create_of op)) >>= λ asked.
                  transmit r effect op asked)))

  abbrev pub mismatch : Operation → String
  mismatch branch_create = "original-branch-mismatch"
  mismatch pr_create = "original-pr-mismatch"

  -- the end of a turn: a pull request that was observed is applied or closed
  unfoldable pub conclude : JournalRecord → Operation → Effect Turn
  conclude r branch_create = pure (inr r)
  conclude r pr_create = given (events_of l r) >>= λ seen.
      given (seen_pr_observation seen) >>= λ observed.
      if observed.state == "closed"
      then (terminal l c o w r "original-pr-closed" (some pr_create) >>= λ now.
          return_result now "original-pr-closed")
      else (apply l c o w r >>= λ now. return_result now "original-publication-proved")

  abbrev pub payload_of : Kind → List JournalEvent → Option String
  payload_of kind [] = none
  payload_of kind (e ∷ es) =
      if e.event_type == kind then some e.payload_utf8 else payload_of kind es

  -- what was observed is recorded, or is what the record has
  unfoldable pub observe : JournalRecord → Operation → ProviderResult → Effect JournalRecord
  observe r op answer = given (events_of l r) >>= λ seen.
      if not (is_some (get seen (observed_kind op)))
      then (given answer.observation_utf8 >>= λ raw.
          journal_append l c o w r.effect_key (observed_kind op) raw false)
      else (require (
            not (observed_kind op == branch_observed)
            || (answer.observation_utf8 == payload_of branch_observed r.rows.events))
          >> pure r)

  -- a turn from the lookup on; a lookup that fails ends it
  unfoldable pub settle_turn : JournalRecord → Operation → Option ProviderResult → Effect Turn
  settle_turn r op none = return_result r "provider-observation-unavailable"
  settle_turn r op (some answer) =
      if answer.status == "CONFLICT"
      then (terminal l c o w r (mismatch op) (some op) >>= λ now. return_result now (mismatch op))
      else (if not (answer.status == "OBSERVED")
          then return_result r "publication-unsettled"
          else (observe r op answer >>= λ now. conclude now op))

  unfoldable pub after_marker : ProtectedEffect → Operation → Turn → Effect Turn
  after_marker effect op (inl x) = pure (inl x)
  after_marker effect op (inr r) =
      unless_fails (lookup l c o w r effect op false >>= λ answer. pure (some answer)) (pure none)
      >>= λ answer. settle_turn r op answer

  -- one turn of the loop over the operations
  unfoldable pub turn : String → ProtectedEffect → Currentness → String → Operation → Effect Turn
  turn acceptance_id effect current key op = journal_read l c o w key >>= λ r.
      given (events_of l r) >>= λ seen.
      (if is_some (get seen (operation_event op))
        then pure (inr r)
        else unmarked acceptance_id effect current r op)
      >>= λ marked. after_marker effect op marked

  abbrev pub finish : Turn → Effect ExecutionResult
  finish (inl x) = pure x
  finish (inr r) = result l c o w r "publication-unsettled"

  abbrev pub next_turn : String → ProtectedEffect → Currentness → Turn → Effect Turn
  next_turn acceptance_id effect current (inl x) = pure (inl x)
  next_turn acceptance_id effect current (inr r) =
      turn acceptance_id effect current r.effect_key pr_create

  -- for operation in ("branch-create", "pr-create")
  unfoldable pub publish :
      String → ProtectedEffect → Currentness → JournalRecord → Effect ExecutionResult
  publish acceptance_id effect current r =
      turn acceptance_id effect current r.effect_key branch_create >>= λ branch.
      next_turn acceptance_id effect current branch >>= λ both. finish both
