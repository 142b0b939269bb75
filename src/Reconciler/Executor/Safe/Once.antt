-- ===== src/Reconciler/Executor/Safe/Once.antt =====
-- The create calls of any sequence of runs.
use vuoro.Prelude.{
  ◌≤◌, String, Bool, true, false, Option, none, some, List, [], ◌∷◌, ◌≡◌, refl, ap, sym, subst, not,
  is_some, if◌then◌else◌, arith,
}
use vuoro.Prelude.Result.{Result, ok, err}
use vuoro.Prelude.Eq.{string_keys, option_keys}
use vuoro.Dict.{get}
use vuoro.Reconciler.Journal.{
  local_ready, kind_keys, Operation, pr_create, operation_keys, JournalRecord, Journal, Opened,
  is_terminal,
}
use vuoro.Reconciler.Journal.Copies.{ProtectedEffect, Copies}
use vuoro.Reconciler.Journal.Format.{Library, is_text}
use vuoro.Reconciler.Journal.Bindings.{Seen, effect_key}
use vuoro.Reconciler.Journal.Verify.{last_kind}
use vuoro.Reconciler.Journal.Operations.{read_record}
use vuoro.Reconciler.Journal.Once.{has_spent}
use vuoro.Reconciler.Executor.{
  verify_call, prepare_call, Raised, failure, Outside, Session, ◌>>◌, unless_fails,
}
use vuoro.Reconciler.Executor.Requests.{events_of}
use vuoro.Reconciler.Executor.Execute.{ExecutionResult, is_ready}
use vuoro.Reconciler.Executor.Run.{
  note_key, note_previous, prepare, history, original, execute_bound, execute, unavailable, cycle,
  unknowing, run, drive,
}
use vuoro.Reconciler.Executor.Turn.{creates}
use vuoro.Reconciler.Executor.Safe.{allowance, Covered, Safe-ask, Safe-unless_fails, Safe-read_only}
use vuoro.Reconciler.Executor.Safe.Parts.{
  given_kept, pure_kept, if_kept, Safe-result, Safe-journal_append, Safe-terminal, Safe-apply,
  Safe-copy, Safe-bind_delivery, Safe-currentness,
}
use vuoro.Reconciler.Executor.Safe.Runs.{Keeps, after_it, Safe-publish}

module _ (l : Library) (c : Copies) (o : Opened) (w : Outside) (key : String) (op : Operation) where
  Safe-prepare :
      (acceptance_id : String) (effect : ProtectedEffect) (has_local : Bool) (r : JournalRecord)
      → Keeps l c o w key op (prepare l c o w acceptance_id effect has_local r)
  unfolding prepare
  Safe-prepare acceptance_id effect has_local r =
      after_it l c o w key op (Safe-currentness l c o w key op effect) λ current.
        if_kept l c o w key op has_local
          (Safe-publish l c o w key op acceptance_id effect current r)
          (if_kept l c o w key op (not (is_ready current))
            (Safe-result l c o w key op r "basis-not-ready")
            (after_it l c o w key op
              (Safe-ask l c o w key op prepare_call (λ calls. w.prepare_original calls effect r)
                (λ calls. refl))
              λ artifact.
                after_it l c o w key op
                  (Safe-journal_append l c o w key op r.effect_key local_ready artifact false refl
                    refl)
                  λ now. Safe-publish l c o w key op acceptance_id effect current now))

  Safe-history :
      (acceptance_id : String) (effect : ProtectedEffect) (seen : Seen) (r : JournalRecord)
      → Keeps l c o w key op (history l c o w acceptance_id effect seen r)
  unfolding history
  Safe-history acceptance_id effect seen r =
      if_kept l c o w key op _
        (after_it l c o w key op (Safe-apply l c o w key op r)
          λ now. Safe-result l c o w key op now "original-publication-proved")
        (if_kept l c o w key op _
          (after_it l c o w key op
            (Safe-terminal l c o w key op r "original-pr-closed" (some pr_create))
            λ now. Safe-result l c o w key op now "original-pr-closed")
          (Safe-prepare acceptance_id effect (is_some (get seen local_ready)) r))

  Safe-original :
      (effect : ProtectedEffect) (r : JournalRecord)
      → Keeps l c o w key op (original l c o w effect r)
  unfolding original
  Safe-original effect r =
      Safe-unless_fails l c o w key op _ _
        (after_it l c o w key op
          (Safe-ask l c o w key op verify_call (λ calls. w.verify_original calls effect r)
            (λ calls. refl))
          λ artifact. pure_kept l c o w key op true)
        (pure_kept l c o w key op false)

  Safe-execute_bound :
      (acceptance_id : String) (effect : ProtectedEffect) (r : JournalRecord)
      → Keeps l c o w key op (execute_bound l c o w acceptance_id effect r)
  unfolding execute_bound
  Safe-execute_bound acceptance_id effect r =
      after_it l c o w key op (given_kept l c o w key op (events_of l r)) λ seen.
        after_it l c o w key op (given_kept l c o w key op (last_kind r.rows.events)) λ last.
          if_kept l c o w key op (is_terminal last)
            (Safe-result l c o w key op r "durable-terminal")
            (after_it l c o w key op
              (if_kept l c o w key op (is_some (get seen local_ready)) (Safe-original effect r)
                (pure_kept l c o w key op true))
              λ intact. if_kept l c o w key op intact (Safe-history acceptance_id effect seen r) (
                after_it l c o w key op
                  (Safe-terminal l c o w key op r "original-artifact-mismatch" none)
                  λ now. Safe-result l c o w key op now "original-artifact-mismatch"))

  Safe-note_previous :
      (previous : Option JournalRecord) → Keeps l c o w key op (note_previous l c o w previous)
  Safe-note_previous none = record { keeps = λ s h. h }
  Safe-note_previous (some r) = record { keeps = λ s h. h }

  Safe-execute : (acceptance_id : String) → Keeps l c o w key op (execute l c o w acceptance_id)
  unfolding execute
  Safe-execute acceptance_id =
      after_it l c o w key op (Safe-copy l c o w key op acceptance_id none) λ delivery.
        after_it l c o w key op (given_kept l c o w key op (effect_key l c delivery.effect)) λ k.
          after_it l c o w key op {m = note_key l c o w k} (record { keeps = λ s h. h })
            λ u.
              after_it l c o w key op (Safe-read_only l c o w key op (read_record l c o k))
                λ previous. after_it l c o w key op (Safe-note_previous previous) λ v.
                  after_it l c o w key op (Safe-bind_delivery l c o w key op delivery)
                    λ r. Safe-execute_bound acceptance_id delivery.effect r

  cycle-state :
      (b : Bool) (s : Session)
      → (if◌then◌else◌ {A = Result Raised (Unit {0}) × Session} b (err failure, s) (ok tt, s)).1 ≡ s
  cycle-state true s = refl
  cycle-state false s = refl

  Safe-attempt :
      (acceptance_id : String)
      → Keeps l c o w key op
          (unless_fails (cycle l c o w >> execute l c o w acceptance_id) (unavailable l c o w))
  Safe-attempt acceptance_id =
      Safe-unless_fails l c o w key op _ _
        (after_it l c o w key op {m = cycle l c o w}
          (record {
            keeps = λ s h. subst (Covered l c o w key op) (sym (cycle-state s.uncertain s)) h;
          })
          λ u. Safe-execute acceptance_id)
        (record { keeps = λ s h. h })

  run-Covered :
      (acceptance_id : String) (b : Bool) (s : Session)
      → Covered l c o w key op s
      → Covered l c o w key op
          (if◌then◌else◌ {A = Result Raised ExecutionResult × Session} b
            (unless_fails
              (cycle l c o w >> execute l c o w acceptance_id)
              (unavailable l c o w)
              (unknowing l c o w s))
            (err failure, s)).1
  run-Covered acceptance_id true s h = (Safe-attempt acceptance_id).keeps (unknowing l c o w s) h
  run-Covered acceptance_id false s h = h

  Safe-run : (acceptance_id : String) → Keeps l c o w key op (run l c o w acceptance_id)
  unfolding run
  Safe-run acceptance_id = record {
    keeps = λ s h. run-Covered acceptance_id (is_text acceptance_id 200) s h;
  }

  -- every create call of an operation is covered, whatever runs and restarts follow
  drive-Covered :
      (events : List (Option String)) (s : Session)
      → Covered l c o w key op s
      → Covered l c o w key op (drive l c o w events s)
  unfolding drive
  drive-Covered [] s h = h
  drive-Covered (none ∷ events) s h = drive-Covered events (record s { uncertain = false }) h
  drive-Covered (some acceptance_id ∷ events) s h =
      drive-Covered events (run l c o w acceptance_id s).1 ((Safe-run acceptance_id).keeps s h)

  allowance_bound : (b : Bool) → allowance b ≤ 1
  allowance_bound true = omega arith
  allowance_bound false = omega arith

-- a session that opens a journal
abbrev pub opening : Journal → Session
opening j = record {
  journal = j;
  uncertain = false;
  calls = [];
  key = none;
  transmission_possible = false;
}

-- From any journal, over any sequence of runs and restarts, whatever the outside answers, whichever call
-- fails or is cancelled, and whether a commit that fails was durable or not: the create call of an
-- operation is made at most once for an effect, and only if its row of publication_spent is there.
pub created_once :
    (l : Library) (c : Copies) (o : Opened) (w : Outside) (key : String) (op : Operation)
    (j : Journal) (events : List (Option String))
    → (creates key op (drive l c o w events (opening j)).calls ≤ 1)
      × (has_spent (drive l c o w events (opening j)).journal key op ≡ false
          → creates key op (drive l c o w events (opening j)).calls ≡ 0)
created_once l c o w key op j events =
    let covered = drive-Covered l c o w key op events (opening j) (omega arith) in
    (
      omega (
        arith,
        covered,
        allowance_bound l c o w key op
            (has_spent (drive l c o w events (opening j)).journal key op),
      ),
      λ absent. omega (arith, covered, ap allowance absent),
    )
