-- ===== src/Examples/Idempotency.antt =====
-- A ledger on which an operation was completed (idempotency.py); the results are texts.
use vuoro.Prelude.{String, ◌≡◌, ◌≤◌, refl, true, false, some, none, List, [], ◌∷◌, if◌then◌else◌}
use vuoro.Prelude.Eq.{string_keys, option_keys}
use vuoro.Prelude.Result.{ok, err}
use vuoro.Dict.{get, put, remove}
use vuoro.Idempotency.{
  Scope, scope_keys, idempotency_conflict, LedgerEntry, Ledger, new_ledger, begin, complete,
  complete_stored, is_pending, entry_eq,
}
use vuoro.Idempotency.Once.{
  Op, begins, completes, stores, IsValid, step, run, step-IsValid, first_result_replayed, granted,
  granted_once,
}

abbrev scope : Scope
scope = record { workspace_id = "w"; principal_id = "p"; tool = "propose_effect"; key = "k" }

new_ledger-IsValid : IsValid (new_ledger {R = String})
unfolding get
new_ledger-IsValid = record { apart = λ k row h. cc }

abbrev entry : LedgerEntry String
entry = record { scope = scope; request_digest = "d"; result = none; replayed = false }

abbrev calls : List (Op String)
calls = begins scope "d" ∷ completes entry "done" ∷ begins scope "d" ∷ begins scope "e" ∷ []

begun : Ledger String
begun = step new_ledger (begins scope "d")

begun-IsValid : IsValid begun
unfolding begun
begun-IsValid = step-IsValid new_ledger (begins scope "d") new_ledger-IsValid

completed : Ledger String
completed = step begun (completes entry "done")

completed-IsValid : IsValid completed
unfolding completed
completed-IsValid = step-IsValid begun (completes entry "done") begun-IsValid

one_grant : granted scope new_ledger calls ≡ 1
unfolding granted step begin complete complete_stored is_pending entry_eq get put remove
one_grant = refl

granted_once_example : granted scope (new_ledger {R = String}) calls ≤ 1
granted_once_example = granted_once scope new_ledger calls

abbrev later_calls : List (Op String)
later_calls =
    begins scope "e"
    ∷ completes entry "other"
    ∷ stores scope (record { digest = "f"; result = "x" })
    ∷ []

first_result_replayed_example : begin (run completed later_calls) scope "d" ≡ (
  if string_keys.equals "d" "d"
      then ok
          (record { scope = scope; request_digest = "d"; result = some "done"; replayed = true })
      else err idempotency_conflict,
  run completed later_calls,
)
unfolding completed begun step begin complete complete_stored is_pending entry_eq get put remove
first_result_replayed_example =
    first_result_replayed completed later_calls scope (record { digest = "d"; result = "done" }) "d"
      completed-IsValid refl
