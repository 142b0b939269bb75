-- ===== src/Reconciler/Executor/Safe/Runs.antt =====
-- The turns of the loop keep a create call covered.
use vuoro.Prelude.{String, true, false, Option, none, some, refl, not, inl, inr, is_some}
use vuoro.Prelude.Eq.{◌==◌, string_keys, option_keys}
use vuoro.Dict.{get}
use vuoro.Reconciler.Journal.{
  branch_observed, pr_observed, kind_keys, Operation, branch_create, pr_create, operation_keys,
  operation_event, JournalRecord, Opened,
}
use vuoro.Reconciler.Journal.Copies.{ProtectedEffect, Copies}
use vuoro.Reconciler.Journal.Format.{Library}
use vuoro.Reconciler.Journal.Bindings.{seen_pr_observation}
use vuoro.Reconciler.Currentness.{Currentness}
use vuoro.Reconciler.Executor.{verify_call, ProviderResult, Outside, Effect, ◌>>=◌}
use vuoro.Reconciler.Executor.Requests.{create_of, observed_kind, events_of, request}
use vuoro.Reconciler.Executor.Execute.{is_ready, journal_append}
use vuoro.Reconciler.Executor.Turn.{
  Turn, return_result, unmarked, mismatch, conclude, observe, settle_turn, after_marker, turn,
  finish, next_turn, publish,
}
use vuoro.Reconciler.Executor.Safe.{Safe, Safe-ask, Safe-unless_fails}
use vuoro.Reconciler.Executor.Safe.Parts.{
  seq, given_kept, pure_kept, require_kept, if_kept, Safe-result, Safe-journal_read,
  Safe-journal_append, Safe-terminal, Safe-apply, Safe-gate, Safe-lookup,
}
use vuoro.Reconciler.Executor.Safe.Transmit.{Safe-transmit}

module _ (l : Library) (c : Copies) (o : Opened) (w : Outside) (key : String) (op : Operation) where
  abbrev pub Keeps : {A : Type 0} → Effect A → Type 0
  Keeps m = Safe l c o w key op m

  pub after_it :
      {A B : Type 0} {m : Effect A} {f : A → Effect B}
      → Keeps m
      → ((a : A) → Keeps (f a))
      → Keeps (m >>= f)
  after_it = seq l c o w key op

  Safe-return_result :
      (r : JournalRecord) (reason : String) → Keeps (return_result l c o w r reason)
  Safe-return_result r reason =
      after_it (Safe-result l c o w key op r reason) λ x. pure_kept l c o w key op (inl x)

  Safe-unmarked :
      (acceptance_id : String) (effect : ProtectedEffect) (current : Currentness)
      (r : JournalRecord) (p : Operation)
      → Keeps (unmarked l c o w acceptance_id effect current r p)
  unfolding unmarked
  Safe-unmarked acceptance_id effect current r p =
      if_kept l c o w key op (not (is_ready current)) (Safe-return_result r "basis-not-ready") (
        after_it
          (Safe-ask l c o w key op verify_call (λ calls. w.verify_original calls effect r)
            (λ calls. refl))
          λ artifact. after_it (Safe-lookup l c o w key op r effect p true) λ preliminary.
            if_kept l c o w key op (not (preliminary.status == "ABSENT"))
              (Safe-return_result r "unrecorded-provider-state")
              (after_it (Safe-gate l c o w key op acceptance_id r effect) λ goes.
                if_kept l c o w key op (not goes) (Safe-return_result r "publication-not-ready") (
                  after_it (given_kept l c o w key op (request l r effect (create_of p)))
                    λ asked. Safe-transmit l c o w key op r effect p asked)))

  Safe-conclude : (r : JournalRecord) (p : Operation) → Keeps (conclude l c o w r p)
  unfolding conclude
  Safe-conclude r branch_create = pure_kept l c o w key op (inr r)
  Safe-conclude r pr_create = after_it (given_kept l c o w key op (events_of l r)) λ seen.
      after_it (given_kept l c o w key op (seen_pr_observation seen)) λ observed.
        if_kept l c o w key op (observed.state == "closed")
          (after_it (Safe-terminal l c o w key op r "original-pr-closed" (some pr_create))
            λ now. Safe-return_result now "original-pr-closed")
          (after_it (Safe-apply l c o w key op r)
            λ now. Safe-return_result now "original-publication-proved")

  Safe-observed_append :
      (k raw : String) (p : Operation)
      → Keeps (journal_append l c o w k (observed_kind p) raw false)
  Safe-observed_append k raw branch_create =
      Safe-journal_append l c o w key op k branch_observed raw false refl refl
  Safe-observed_append k raw pr_create =
      Safe-journal_append l c o w key op k pr_observed raw false refl refl

  Safe-observe :
      (r : JournalRecord) (p : Operation) (answer : ProviderResult)
      → Keeps (observe l c o w r p answer)
  unfolding observe
  Safe-observe r p answer = after_it (given_kept l c o w key op (events_of l r)) λ seen.
      if_kept l c o w key op (not (is_some (get seen (observed_kind p))))
        (after_it (given_kept l c o w key op answer.observation_utf8)
          λ raw. Safe-observed_append r.effect_key raw p)
        (after_it (require_kept l c o w key op _) λ u. pure_kept l c o w key op r)

  Safe-settle_turn :
      (r : JournalRecord) (p : Operation) (answer : Option ProviderResult)
      → Keeps (settle_turn l c o w r p answer)
  unfolding settle_turn
  Safe-settle_turn r p none = Safe-return_result r "provider-observation-unavailable"
  Safe-settle_turn r p (some answer) =
      if_kept l c o w key op (answer.status == "CONFLICT")
        (after_it (Safe-terminal l c o w key op r (mismatch l c o w p) (some p))
          λ now. Safe-return_result now (mismatch l c o w p))
        (if_kept l c o w key op (not (answer.status == "OBSERVED"))
          (Safe-return_result r "publication-unsettled")
          (after_it (Safe-observe r p answer) λ now. Safe-conclude now p))

  Safe-after_marker :
      (effect : ProtectedEffect) (p : Operation) (t : Turn)
      → Keeps (after_marker l c o w effect p t)
  unfolding after_marker
  Safe-after_marker effect p (inl x) = pure_kept l c o w key op (inl x)
  Safe-after_marker effect p (inr r) =
      after_it
        (Safe-unless_fails l c o w key op _ _
          (after_it (Safe-lookup l c o w key op r effect p false)
            λ answer. pure_kept l c o w key op (some answer))
          (pure_kept l c o w key op none))
        λ answer. Safe-settle_turn r p answer

  Safe-turn :
      (acceptance_id : String) (effect : ProtectedEffect) (current : Currentness) (k : String)
      (p : Operation)
      → Keeps (turn l c o w acceptance_id effect current k p)
  unfolding turn
  Safe-turn acceptance_id effect current k p = after_it (Safe-journal_read l c o w key op k) λ r.
      after_it (given_kept l c o w key op (events_of l r)) λ seen.
        after_it
          (if_kept l c o w key op (is_some (get seen (operation_event p)))
            (pure_kept l c o w key op (inr r)) (Safe-unmarked acceptance_id effect current r p))
          λ marked. Safe-after_marker effect p marked

  Safe-next_turn :
      (acceptance_id : String) (effect : ProtectedEffect) (current : Currentness) (t : Turn)
      → Keeps (next_turn l c o w acceptance_id effect current t)
  Safe-next_turn acceptance_id effect current (inl x) = pure_kept l c o w key op (inl x)
  Safe-next_turn acceptance_id effect current (inr r) =
      Safe-turn acceptance_id effect current r.effect_key pr_create

  Safe-finish : (t : Turn) → Keeps (finish l c o w t)
  Safe-finish (inl x) = pure_kept l c o w key op x
  Safe-finish (inr r) = Safe-result l c o w key op r "publication-unsettled"

  pub Safe-publish :
      (acceptance_id : String) (effect : ProtectedEffect) (current : Currentness)
      (r : JournalRecord)
      → Keeps (publish l c o w acceptance_id effect current r)
  unfolding publish
  Safe-publish acceptance_id effect current r =
      after_it (Safe-turn acceptance_id effect current r.effect_key branch_create) λ branch.
        after_it (Safe-next_turn acceptance_id effect current branch) λ both. Safe-finish both
