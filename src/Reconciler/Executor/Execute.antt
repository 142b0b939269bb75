-- ===== src/Reconciler/Executor/Execute.antt =====
-- `_copy`, `_bind`, `_gate_new_mutation`, `_execute` and `run` of protected_executor.py. An early return
-- is `inl`, and the record that the loop goes on with is `inr`.
use vuoro.Prelude.{String, Bool, true, false, Option, none, some, List, [], ◌∷◌, not, if◌then◌else◌}
use vuoro.Prelude.Result.{ok}
use vuoro.Prelude.Eq.{◌==◌, string_keys, option_keys}
use vuoro.Reconciler.Journal.{
  target_document, Kind, applied, refused, conflict, kind_keys, Operation, operation_keys,
  JournalRecord, Opened, JournalEvent,
}
use vuoro.Reconciler.Journal.Copies.{ProtectedEffect, Copies, effect_keys}
use vuoro.Reconciler.Journal.Format.{Library, read}
use vuoro.Reconciler.Journal.Bindings.{as_terminal}
use vuoro.Reconciler.Journal.Verify.{Status, at_event, unsettled, status}
use vuoro.Reconciler.Journal.Operations.{bind, read_record, append}
use vuoro.Reconciler.Currentness.{Currentness, ready, evaluate_currentness}
use vuoro.Reconciler.Executor.{
  registered_call, basis_call, capability_call, copy_call, lookup_call, ProviderResult, Delivery,
  Outside, Effect, pure, ◌>>=◌, ◌>>◌, given, ask, require, write, read_only,
}
use vuoro.Reconciler.Executor.Requests.{
  capability_check, lookup_of, provider_result, terminal_bytes, outcome_bytes,
}

pub record ExecutionResult : Type 0 where
  pub status : String
  pub reason : String
  pub effect_key : Option String
  pub outcome_utf8 : Option String

abbrev pub is_ready : Currentness → Bool
is_ready ready = true
is_ready _ = false

abbrev pub last_payload : List JournalEvent → Option String
last_payload [] = none
last_payload (e ∷ []) = some e.payload_utf8
last_payload (e ∷ f ∷ es) = last_payload (f ∷ es)

-- a record that has to be there
abbrev pub present : Option JournalRecord → Effect JournalRecord
present = given

-- the copy is the one that the record holds
abbrev pub same_copy : Option JournalRecord → String → Bool
same_copy none wire = true
same_copy (some r) wire = wire == r.rows.protected_copy_utf8

module _ (l : Library) (c : Copies) (o : Opened) (w : Outside) where
  -- the reason of the last event
  abbrev pub last_reason : JournalRecord → Effect String
  last_reason r = given (last_payload r.rows.events) >>= λ raw.
      given (read l raw 2097152) >>= λ value. given (as_terminal value) >>= λ t. pure t.reason

  abbrev pub result_by : JournalRecord → String → Status → Effect ExecutionResult
  result_by r reason (at_event applied) = pure (record {
    status = "APPLIED";
    reason = "original-publication-proved";
    effect_key = some r.effect_key;
    outcome_utf8 = r.rows.outcome_utf8;
  })
  result_by r reason (at_event refused) = last_reason r >>= λ why. pure (record {
    status = "REFUSED";
    reason = why;
    effect_key = some r.effect_key;
    outcome_utf8 = r.rows.outcome_utf8;
  })
  result_by r reason (at_event conflict) = last_reason r >>= λ why. pure (record {
    status = "CONFLICT";
    reason = why;
    effect_key = some r.effect_key;
    outcome_utf8 = r.rows.outcome_utf8;
  })
  result_by r reason (at_event kind) = pure (record {
    status = "DEFERRED";
    reason = reason;
    effect_key = some r.effect_key;
    outcome_utf8 = r.rows.outcome_utf8;
  })
  result_by r reason unsettled = pure (record {
    status = "UNSETTLED";
    reason = reason;
    effect_key = some r.effect_key;
    outcome_utf8 = r.rows.outcome_utf8;
  })

  -- _result
  unfoldable pub result : JournalRecord → String → Effect ExecutionResult
  result r reason = given (status r) >>= result_by r reason

  -- the calls of the journal, each with its transactions
  unfoldable pub journal_read : String → Effect JournalRecord
  journal_read key = read_only (read_record l c o key) >>= present

  unfoldable pub journal_append : String → Kind → String → Bool → Effect JournalRecord
  journal_append key kind raw outcome =
      write w (append l c o key kind raw none outcome) >>= λ first. journal_read key

  -- _terminal
  unfoldable pub terminal : JournalRecord → String → Option Operation → Effect JournalRecord
  terminal r reason op = given (terminal_bytes l r reason op) >>= λ raw.
      journal_append r.effect_key (if reason == "original-pr-closed" then refused else conflict) raw
        false

  -- _applied
  unfoldable pub apply : JournalRecord → Effect JournalRecord
  apply r = given (outcome_bytes l r) >>= λ raw. journal_append r.effect_key applied raw true

  -- _check_registered
  unfoldable pub check_registered : Effect (Unit {0})
  check_registered = ask registered_call (λ calls. ok (w.check_registered calls)) >>= require

  -- _copy
  unfoldable pub copy : String → Option JournalRecord → Effect Delivery
  copy acceptance_id original =
      check_registered
      >> (ask (copy_call acceptance_id) (λ calls. w.read_copy calls acceptance_id) >>= λ delivery.
          given (w.decode acceptance_id delivery.wire_utf8) >>= λ decoded.
          require (decoded == delivery.effect)
          >> (require (same_copy original delivery.wire_utf8)
              >> (check_registered >> pure delivery)))

  -- _bind
  unfoldable pub bind_delivery : Delivery → Effect JournalRecord
  bind_delivery delivery =
      write w (
        bind l c o delivery.effect delivery.wire_utf8 w.profiles.provider_profile_sha256
          w.profiles.signing_profile_sha256
          (l.canonical (
            target_document (record {
              repository = delivery.effect.repository;
              head_repository = delivery.effect.repository;
              base_branch = w.profiles.base_branch;
            })))
          w.profiles.signing_fingerprint w.profiles.public_key_sha256)
      >>= present

  unfoldable pub currentness : ProtectedEffect → Effect Currentness
  currentness effect = ask basis_call (λ calls. w.read_basis calls effect) >>= λ basis.
      given (evaluate_currentness w.is_decoded effect basis)

  -- `_gate_new_mutation`, whether it lets the mutation through
  unfoldable pub gate : String → JournalRecord → ProtectedEffect → Effect Bool
  gate acceptance_id r effect = copy acceptance_id (some r) >>= λ delivery.
      require (delivery.effect == effect)
      >> (currentness effect >>= λ current.
          if not (is_ready current)
          then pure false
          else (ask capability_call (λ calls. w.fresh_capability calls r) >>= λ answer.
              given (provider_result l r effect capability_check false answer) >>= λ capability.
              if not (capability.status == "CAPABILITY_PRESENT")
              then pure false
              else (check_registered >> pure true)))

  -- `_lookup` with its `_provider_result`
  unfoldable pub lookup : JournalRecord → ProtectedEffect → Operation → Bool → Effect ProviderResult
  lookup r effect op preliminary = ask (lookup_call op) (λ calls. w.lookup calls r op) >>= λ answer.
      given (provider_result l r effect (lookup_of op) preliminary answer)
