-- ===== src/Reconciler/Executor/Run.antt =====
-- The loop of `_execute`, `_execute` and `run` (protected_executor.py). An early return is `inl`, and the
-- record that the loop goes on with is `inr`.
use vuoro.Prelude.{
  String, Bool, true, false, Option, none, some, List, [], ◌∷◌, not, ◌&&◌, ◌||◌, is_some,
  if◌then◌else◌,
}
use vuoro.Prelude.Result.{ok, err}
use vuoro.Prelude.Eq.{◌==◌, string_keys, option_keys}
use vuoro.Dict.{get}
use vuoro.Reconciler.Journal.{
  local_ready, branch_observed, kind_keys, pr_create, operation_keys, JournalRecord, Opened,
  is_terminal,
}
use vuoro.Reconciler.Journal.Copies.{ProtectedEffect, Copies}
use vuoro.Reconciler.Journal.Format.{Library, is_text, holds}
use vuoro.Reconciler.Journal.Bindings.{Seen, seen_pr_observation, effect_key}
use vuoro.Reconciler.Journal.Verify.{last_kind}
use vuoro.Reconciler.Journal.Operations.{read_record}
use vuoro.Reconciler.Executor.{
  verify_call, prepare_call, failure, Outside, Session, Effect, pure, ◌>>=◌, ◌>>◌, given, ask,
  unless_fails, read_only,
}
use vuoro.Reconciler.Executor.Requests.{events_of}
use vuoro.Reconciler.Executor.Execute.{
  ExecutionResult, is_ready, result, journal_append, terminal, apply, copy, bind_delivery,
  currentness,
}
use vuoro.Reconciler.Executor.Turn.{is_spent, publish}

module _ (l : Library) (c : Copies) (o : Opened) (w : Outside) where
  -- knowledge["key"] = key
  abbrev pub note_key : String → Effect (Unit {0})
  note_key key s = (ok tt, record s { key = some key })

  -- knowledge["transmission_possible"] of the record that was there before
  abbrev pub note_previous : Option JournalRecord → Effect (Unit {0})
  note_previous none s = (ok tt, s)
  note_previous (some r) s = (ok tt, record s { transmission_possible = is_spent r })

  -- from the current basis on: the local artifact where it is missing, and the publication
  unfoldable pub prepare : String → ProtectedEffect → Bool → JournalRecord → Effect ExecutionResult
  prepare acceptance_id effect has_local r = currentness l c o w effect >>= λ current.
      if has_local
      then publish l c o w acceptance_id effect current r
      else (if not (is_ready current)
          then result l c o w r "basis-not-ready"
          else (ask prepare_call (λ calls. w.prepare_original calls effect r) >>= λ artifact.
              journal_append l c o w r.effect_key local_ready artifact false >>= λ now.
              publish l c o w acceptance_id effect current now))

  -- what earlier observations prove, before anything else
  unfoldable pub history : String → ProtectedEffect → Seen → JournalRecord → Effect ExecutionResult
  history acceptance_id effect seen r =
      if is_some (get seen branch_observed)
        && holds (seen_pr_observation seen) (λ x. x.state == "open" || x.state == "merged")
      then (apply l c o w r >>= λ now. result l c o w now "original-publication-proved")
      else (if holds (seen_pr_observation seen) (λ x. x.state == "closed")
          then (terminal l c o w r "original-pr-closed" (some pr_create) >>= λ now.
              result l c o w now "original-pr-closed")
          else prepare acceptance_id effect (is_some (get seen local_ready)) r)

  unfoldable pub original : ProtectedEffect → JournalRecord → Effect Bool
  original effect r =
      unless_fails
        (ask verify_call (λ calls. w.verify_original calls effect r) >>= λ artifact. pure true)
        (pure false)

  -- `_execute` from the bound record on
  unfoldable pub execute_bound : String → ProtectedEffect → JournalRecord → Effect ExecutionResult
  execute_bound acceptance_id effect r = given (events_of l r) >>= λ seen.
      given (last_kind r.rows.events) >>= λ last.
      if is_terminal last
      then result l c o w r "durable-terminal"
      else ((if is_some (get seen local_ready) then original effect r else pure true) >>= λ intact.
          if intact
          then history acceptance_id effect seen r
          else (terminal l c o w r "original-artifact-mismatch" none >>= λ now.
              result l c o w now "original-artifact-mismatch"))

  -- _execute
  unfoldable pub execute : String → Effect ExecutionResult
  execute acceptance_id = copy l c o w acceptance_id none >>= λ delivery.
      given (effect_key l c delivery.effect) >>= λ key.
      note_key key
      >> (read_only (read_record l c o key) >>= λ previous.
          note_previous previous
          >> (bind_delivery l c o w delivery >>= λ r.
              execute_bound acceptance_id delivery.effect r))

  -- the result of an exception
  abbrev pub unavailable : Effect ExecutionResult
  unavailable s = (
    ok (record {
      status = if s.transmission_possible then "UNSETTLED" else "DEFERRED";
      reason = "execution-unavailable";
      effect_key = s.key;
      outcome_utf8 = none;
    }),
    s,
  )

  -- `cycle` refuses after an uncertain commit
  abbrev pub cycle : Effect (Unit {0})
  cycle s = if s.uncertain then (err failure, s) else (ok tt, s)

  -- the knowledge of a new run
  abbrev pub unknowing : Session → Session
  unknowing s = record s { key = none; transmission_possible = false }

  -- run
  unfoldable pub run : String → Effect ExecutionResult
  run acceptance_id s =
      if is_text acceptance_id 200
      then unless_fails (cycle >> execute acceptance_id) unavailable (unknowing s)
      else (err failure, s)

  -- Runs, which a lock keeps apart, and the journal opened anew, as after a restart.
  unfoldable pub drive : List (Option String) → Session → Session
  drive [] s = s
  drive (none ∷ events) s = drive events (record s { uncertain = false })
  drive (some acceptance_id ∷ events) s = drive events (run acceptance_id s).1
