-- ===== src/Idempotency.antt =====
-- The begin/complete ledger of packages/vuoro-mcp-edge/src/vuoro_mcp_edge/idempotency.py, the
-- reference behaviour of every ledger. `R` is the type of stored results; a deep copy is the value.
pub mod Once
use vuoro.Prelude.{
  String, ◌≡◌, ◌↔◌, Bool, true, false, Option, none, some, [], ◌&&◌, ◌||◌, not, arith, bool_eq,
  if◌then◌else◌,
}
use vuoro.Prelude.Eq.{Equality, ◌==◌, string_keys, option_keys}
use vuoro.Prelude.Result.{Result, ok, err}
use vuoro.Dict.{Dict, get, put, remove}
use text.Mathlib.TextEquality.{eq_iff}

-- (workspace_id, principal_id, tool, key)
pub record Scope : Type 0 where
  pub workspace_id : String
  pub principal_id : String
  pub tool : String
  pub key : String

abbrev pub scope_eq : Scope → Scope → Bool
scope_eq a b =
    (a.workspace_id == b.workspace_id)
    && (a.principal_id == b.principal_id)
    && (a.tool == b.tool)
    && (a.key == b.key)

pub scope_eq_iff : (a b : Scope) → (scope_eq a b ≡ true) ↔ (a ≡ b)
scope_eq_iff a b = ground (
  arith,
  eq_iff a.workspace_id b.workspace_id,
  eq_iff a.principal_id b.principal_id,
  eq_iff a.tool b.tool,
  eq_iff a.key b.key,
)

instance abbrev pub scope_keys : Equality Scope
scope_keys = record { equals = scope_eq; decides = scope_eq_iff }

-- the codes of ToolFailure, and the ValueError of `_complete`
pub data Failure : Type 0 where
  idempotency_conflict idempotency_in_progress not_begun : Failure

module _ (R : Type 0) where
  pub record StoredResult : Type 0 where
    pub digest : String
    pub result : R

  pub record LedgerEntry : Type 0 where
    pub scope : Scope
    pub request_digest : String
    pub result : Option R
    pub replayed : Bool

  pub record Ledger : Type 0 where
    pub rows : Dict Scope StoredResult
    pub pending : Dict Scope LedgerEntry

module _ {R : Type 0} where
  abbrev pub new_ledger : Ledger R
  new_ledger = record { rows = []; pending = [] }

  unfoldable pub replay_or_conflict : Option (StoredResult R) → String → Result Failure (Option R)
  replay_or_conflict none digest = ok none
  replay_or_conflict (some stored) digest =
      if not (stored.digest == digest) then err idempotency_conflict else ok (some stored.result)

  -- the answer of `begin` where a row is there
  unfoldable pub replay : StoredResult R → Scope → String → Result Failure (LedgerEntry R)
  unfolding replay_or_conflict
  replay row scope digest = elim (replay_or_conflict (some row) digest) [
    | err e ↦ err e
    | ok r ↦ ok (record {
      scope = scope;
      request_digest = digest;
      result = some row.result;
      replayed = true;
    })
  ]

  -- the answer of `begin` where a pending entry is there: the row that is made up for the call of
  -- `replay_or_conflict` has another digest, so the call raises
  unfoldable pub refuse_pending : LedgerEntry R → String → Failure
  refuse_pending entry digest =
      if not (entry.request_digest == digest) then idempotency_conflict else idempotency_in_progress

  unfoldable pub begin_on :
      Option (StoredResult R)
      → Option (LedgerEntry R)
      → Ledger R
      → Scope
      → String
      → Result Failure (LedgerEntry R) × Ledger R
  unfolding replay refuse_pending
  begin_on (some row) p l scope digest = (replay row scope digest, l)
  begin_on none (some entry) l scope digest = (err (refuse_pending entry digest), l)
  begin_on none none l scope digest =
      let entry : LedgerEntry R = record {
        scope = scope;
        request_digest = digest;
        result = none;
        replayed = false;
      } in
      (ok entry, record l { pending = put l.pending scope entry })

  unfoldable pub begin : Ledger R → Scope → String → Result Failure (LedgerEntry R) × Ledger R
  unfolding begin_on
  begin l scope digest = begin_on (get l.rows scope) (get l.pending scope) l scope digest

  unfoldable pub lookup : Ledger R → Scope → Option (StoredResult R)
  lookup l scope = get l.rows scope

module _ {R : Type 0} ⦃same_result : Equality R⦄ where
  -- `==` of two entries
  unfoldable pub entry_eq : LedgerEntry R → LedgerEntry R → Bool
  entry_eq a b =
      (a.scope == b.scope)
      && (a.request_digest == b.request_digest)
      && (a.result == b.result)
      && bool_eq a.replayed b.replayed

  unfoldable pub is_pending : Option (LedgerEntry R) → LedgerEntry R → Bool
  unfolding entry_eq
  is_pending none entry = false
  is_pending (some p) entry = entry_eq p entry

  -- _complete
  unfoldable pub complete_stored :
      Ledger R → LedgerEntry R → StoredResult R → Result Failure (LedgerEntry R) × Ledger R
  unfolding is_pending
  complete_stored l entry stored =
      if entry.replayed
        || not (is_pending (get l.pending entry.scope) entry)
        || not (stored.digest == entry.request_digest)
      then (err not_begun, l)
      else (
        ok (record {
          scope = entry.scope;
          request_digest = entry.request_digest;
          result = some stored.result;
          replayed = false;
        }),
        record { rows = put l.rows entry.scope stored; pending = remove l.pending entry.scope },
      )

  unfoldable pub complete : Ledger R → LedgerEntry R → R → Result Failure (LedgerEntry R) × Ledger R
  unfolding complete_stored
  complete l entry result =
      complete_stored l entry (record { digest = entry.request_digest; result = result })

  -- the end of `store`, where no row was there: the result of `_complete` is not used, its refusal is
  unfoldable pub store_begun :
      Result Failure (LedgerEntry R) × Ledger R
      → StoredResult R
      → Result Failure (StoredResult R) × Ledger R
  unfolding complete_stored
  store_begun (err e, l) stored = (err e, l)
  store_begun (ok entry, l) stored =
      let (r, l') = complete_stored l entry stored in
      (elim r [ ok e ↦ ok stored | err e ↦ err e ], l')

  unfoldable pub store_on :
      Option (StoredResult R)
      → Ledger R
      → Scope
      → StoredResult R
      → Result Failure (StoredResult R) × Ledger R
  unfolding store_begun begin
  store_on (some previous) l scope stored = (ok previous, l)
  store_on none l scope stored = store_begun (begin l scope stored.digest) stored

  unfoldable pub store :
      Ledger R → Scope → StoredResult R → Result Failure (StoredResult R) × Ledger R
  unfolding store_on lookup
  store l scope stored = store_on (lookup l scope) l scope stored
