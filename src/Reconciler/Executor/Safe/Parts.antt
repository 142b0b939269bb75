-- ===== src/Reconciler/Executor/Safe/Parts.antt =====
-- The executor's pieces around the create call keep it covered: they make none, and only add rows.
use vuoro.Prelude.{
  String, Bool, true, false, Option, none, some, ◌≡◌, refl, subst, not, if◌then◌else◌,
}
use vuoro.Prelude.Result.{ok}
use vuoro.Prelude.Eq.{◌==◌, string_keys}
use vuoro.Reconciler.Journal.{
  Kind, bound, local_ready, branch_possible, pr_possible, branch_observed, pr_observed, applied,
  refused, conflict, kind_keys, Operation, JournalRecord, Opened,
}
use vuoro.Reconciler.Journal.Copies.{ProtectedEffect, Copies, effect_keys}
use vuoro.Reconciler.Journal.Format.{Library, read}
use vuoro.Reconciler.Journal.Bindings.{as_terminal}
use vuoro.Reconciler.Journal.Verify.{Status, at_event, unsettled, status}
use vuoro.Reconciler.Journal.Operations.{read_record, append}
use vuoro.Reconciler.Journal.Steps.{Step, operation_of}
use vuoro.Reconciler.Journal.Steps.Cases.{append-Step}
use vuoro.Reconciler.Journal.Steps.Performs.{bind-Step}
use vuoro.Reconciler.Currentness.{evaluate_currentness}
use vuoro.Reconciler.Executor.{
  registered_call, basis_call, capability_call, copy_call, lookup_call, Delivery, Outside, Effect,
  pure, ◌>>=◌, given, require,
}
use vuoro.Reconciler.Executor.Requests.{
  capability_check, lookup_of, provider_result, terminal_bytes, outcome_bytes,
}
use vuoro.Reconciler.Executor.Execute.{
  is_ready, last_payload, last_reason, result_by, same_copy, result, journal_read, journal_append,
  terminal, apply, check_registered, copy, bind_delivery, currentness, gate, lookup,
}
use vuoro.Reconciler.Executor.Safe.{
  Safe, Safe-bind, Safe-given, Safe-ask, Safe-if, Safe-read_only, Safe-require, Safe-write,
  Safe-pure,
}

module _ (l : Library) (c : Copies) (o : Opened) (w : Outside) (key : String) (op : Operation) where
  -- the rules of Safe, for this effect and operation
  abbrev pub Kept : {A : Type 0} → Effect A → Type 0
  Kept m = Safe l c o w key op m

  pub seq :
      {A B : Type 0} {m : Effect A} {f : A → Effect B}
      → Kept m
      → ((a : A) → Kept (f a))
      → Kept (m >>= f)
  seq {m} {f} = Safe-bind l c o w key op m f

  pub given_kept : {A : Type 0} (x : Option A) → Kept (given x)
  given_kept = Safe-given l c o w key op

  pub pure_kept : {A : Type 0} (a : A) → Kept (pure a)
  pure_kept = Safe-pure l c o w key op

  pub require_kept : (b : Bool) → Kept (require b)
  require_kept = Safe-require l c o w key op

  pub if_kept :
      {A : Type 0} (b : Bool) {m n : Effect A} → Kept m → Kept n → Kept (if b then m else n)
  if_kept b {m} {n} = Safe-if l c o w key op b m n

  Safe-last_reason : (r : JournalRecord) → Kept (last_reason l c o w r)
  Safe-last_reason r = seq (given_kept (last_payload r.rows.events)) λ raw.
      seq (given_kept (read l raw 2097152))
        λ value. seq (given_kept (as_terminal value)) λ t. pure_kept t.reason

  Safe-result_by :
      (r : JournalRecord) (reason : String) (x : Status) → Kept (result_by l c o w r reason x)
  Safe-result_by r reason (at_event refused) = seq (Safe-last_reason r) λ why. pure_kept _
  Safe-result_by r reason (at_event conflict) = seq (Safe-last_reason r) λ why. pure_kept _
  Safe-result_by r reason (at_event applied) = pure_kept _
  Safe-result_by r reason (at_event bound) = pure_kept _
  Safe-result_by r reason (at_event local_ready) = pure_kept _
  Safe-result_by r reason (at_event branch_possible) = pure_kept _
  Safe-result_by r reason (at_event pr_possible) = pure_kept _
  Safe-result_by r reason (at_event branch_observed) = pure_kept _
  Safe-result_by r reason (at_event pr_observed) = pure_kept _
  Safe-result_by r reason unsettled = pure_kept _

  pub Safe-result : (r : JournalRecord) (reason : String) → Kept (result l c o w r reason)
  unfolding result
  Safe-result r reason = seq (given_kept (status r)) (Safe-result_by r reason)

  pub Safe-journal_read : (k : String) → Kept (journal_read l c o w k)
  unfolding journal_read
  Safe-journal_read k = seq (Safe-read_only l c o w key op (read_record l c o k)) given_kept

  -- an append that is a step of the journal, and the read after it
  pub Safe-journal_append :
      (k : String) (kind : Kind) (raw : String) (outcome : Bool)
      → operation_of kind ≡ none
      → (kind == applied) ≡ outcome
      → Kept (journal_append l c o w k kind raw outcome)
  unfolding journal_append
  Safe-journal_append k kind raw outcome none_of same =
      seq
        (Safe-write l c o w key op (append l c o k kind raw none outcome) λ j.
          subst (λ x. Step l c o j (append l c o k kind raw none x j).0) same
            (subst (λ x. Step l c o j (append l c o k kind raw x (kind == applied) j).0) none_of
              (append-Step l c o k kind raw j)))
        λ first. Safe-journal_read k

  Safe-terminal_event :
      (k raw : String) (closed : Bool)
      → Kept (journal_append l c o w k (if closed then refused else conflict) raw false)
  Safe-terminal_event k raw true = Safe-journal_append k refused raw false refl refl
  Safe-terminal_event k raw false = Safe-journal_append k conflict raw false refl refl

  pub Safe-terminal :
      (r : JournalRecord) (reason : String) (p : Option Operation)
      → Kept (terminal l c o w r reason p)
  unfolding terminal
  Safe-terminal r reason p =
      seq (given_kept (terminal_bytes l r reason p))
        λ raw. Safe-terminal_event r.effect_key raw (reason == "original-pr-closed")

  pub Safe-apply : (r : JournalRecord) → Kept (apply l c o w r)
  unfolding apply
  Safe-apply r =
      seq (given_kept (outcome_bytes l r))
        λ raw. Safe-journal_append r.effect_key applied raw true refl refl

  pub Safe-check_registered : Kept (check_registered l c o w)
  unfolding check_registered
  Safe-check_registered =
      seq
        (Safe-ask l c o w key op registered_call (λ calls. ok (w.check_registered calls))
          (λ calls. refl))
        require_kept

  pub Safe-copy :
      (acceptance_id : String) (original : Option JournalRecord)
      → Kept (copy l c o w acceptance_id original)
  unfolding copy
  Safe-copy acceptance_id original = seq Safe-check_registered λ u.
      seq
        (Safe-ask l c o w key op (copy_call acceptance_id)
          (λ calls. w.read_copy calls acceptance_id) (λ calls. refl))
        λ delivery. seq (given_kept (w.decode acceptance_id delivery.wire_utf8)) λ decoded.
          seq (require_kept (decoded == delivery.effect)) λ v.
            seq (require_kept (same_copy original delivery.wire_utf8))
              λ x. seq Safe-check_registered λ y. pure_kept delivery

  pub Safe-bind_delivery : (delivery : Delivery) → Kept (bind_delivery l c o w delivery)
  unfolding bind_delivery
  Safe-bind_delivery delivery =
      seq
        (Safe-write l c o w key op _ λ j.
          bind-Step l c o delivery.effect delivery.wire_utf8 w.profiles.provider_profile_sha256
            w.profiles.signing_profile_sha256 _ w.profiles.signing_fingerprint
            w.profiles.public_key_sha256 j)
        given_kept

  pub Safe-currentness : (effect : ProtectedEffect) → Kept (currentness l c o w effect)
  unfolding currentness
  Safe-currentness effect =
      seq (Safe-ask l c o w key op basis_call (λ calls. w.read_basis calls effect) (λ calls. refl))
        λ basis. given_kept (evaluate_currentness w.is_decoded effect basis)

  pub Safe-gate :
      (acceptance_id : String) (r : JournalRecord) (effect : ProtectedEffect)
      → Kept (gate l c o w acceptance_id r effect)
  unfolding gate
  Safe-gate acceptance_id r effect = seq (Safe-copy acceptance_id (some r)) λ delivery.
      seq (require_kept (delivery.effect == effect)) λ u. seq (Safe-currentness effect) λ current.
        if_kept (not (is_ready current)) (pure_kept false) (
          seq
            (Safe-ask l c o w key op capability_call (λ calls. w.fresh_capability calls r)
              (λ calls. refl))
            λ answer.
              seq (given_kept (provider_result l r effect capability_check false answer))
                λ capability.
                  if_kept (not (capability.status == "CAPABILITY_PRESENT")) (pure_kept false)
                    (seq Safe-check_registered λ v. pure_kept true))

  pub Safe-lookup :
      (r : JournalRecord) (effect : ProtectedEffect) (p : Operation) (preliminary : Bool)
      → Kept (lookup l c o w r effect p preliminary)
  unfolding lookup
  Safe-lookup r effect p preliminary =
      seq (Safe-ask l c o w key op (lookup_call p) (λ calls. w.lookup calls r p) (λ calls. refl))
        λ answer. given_kept (provider_result l r effect (lookup_of p) preliminary answer)
