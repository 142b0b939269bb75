-- ===== src/Idempotency/Once.antt =====
-- An operation is granted once and its first result stays (idempotency.py).
use vuoro.Prelude.{
  ℕ, suc, ◌≤◌, String, ◌≡◌, refl, Bool, true, false, Option, none, some, List, [], ◌∷◌, ◌&&◌, ◌||◌,
  not, arith, if◌then◌else◌, inl, inr, Option-cases, Bool-cases, is_some,
}
use vuoro.Prelude.Eq.{Equality, ◌==◌, string_keys, option_keys}
use vuoro.Prelude.Result.{Result, ok, err}
use vuoro.Dict.{get, get-put, get-remove}
use vuoro.Idempotency.{
  Scope, scope_keys, scope_eq_iff, Failure, idempotency_conflict, StoredResult, LedgerEntry, Ledger,
  begin, complete_stored, complete, store_begun, store_on, store,
}

-- A call on the ledger with its arguments.
pub data Op (R : Type 0) : Type 0 where
  begins : Scope → String → Op R
  completes : LedgerEntry R → R → Op R
  stores : Scope → StoredResult R → Op R

-- A row is never beside a pending entry.
pub record IsValid {R : Type 0} (l : Ledger R) : Type 0 where
  pub apart : (k : Scope) (row : StoredResult R) → get l.rows k ≡ some row → get l.pending k ≡ none

module _ {R : Type 0} ⦃same : Equality R⦄ where
  unfoldable pub step : Ledger R → Op R → Ledger R
  step l (begins scope digest) = (begin l scope digest).1
  step l (completes entry result) = (complete l entry result).1
  step l (stores scope stored) = (store l scope stored).1

  unfoldable pub run : Ledger R → List (Op R) → Ledger R
  run l [] = l
  run l (op ∷ ops) = run (step l op) ops

  begin-IsValid : (l : Ledger R) (k : Scope) (d : String) → IsValid l → IsValid (begin l k d).1
  unfolding begin
  begin-IsValid l k d v = record {
    apart = λ j row h. elim (Option-cases (get l.rows k)) [
      | inr (r, e) ↦ ground (arith, v.apart j row)
      | inl n ↦ elim (Option-cases (get l.pending k)) [
        | inr (p, e) ↦ ground (arith, v.apart j row)
        | inl m ↦ ground (
          arith,
          v.apart j row,
          scope_eq_iff k j,
          get-put l.pending k
              (record { scope = k; request_digest = d; result = none; replayed = false }) j,
        )
      ]
    ];
  }

  complete_stored-IsValid :
      (l : Ledger R) (e : LedgerEntry R) (r : StoredResult R)
      → IsValid l
      → IsValid (complete_stored l e r).1
  unfolding complete_stored
  complete_stored-IsValid l e r v = record {
    apart = λ j row h.
        ground (arith, v.apart j row, get-put l.rows e.scope r j, get-remove l.pending e.scope j);
  }

  -- A row that is there stays as it is.
  rows-complete_stored :
      (l : Ledger R) (e : LedgerEntry R) (r : StoredResult R) (k : Scope) (row : StoredResult R)
      → IsValid l
      → get l.rows k ≡ some row
      → get (complete_stored l e r).1.rows k ≡ some row
  unfolding complete_stored
  rows-complete_stored l e r k row v h =
      ground (arith, v.apart k row, scope_eq_iff e.scope k, get-put l.rows e.scope r k)

  rows-begin : (l : Ledger R) (k : Scope) (d : String) → (begin l k d).1.rows ≡ l.rows
  unfolding begin
  rows-begin l k d = ground arith

  store_begun-IsValid :
      (m : Result Failure (LedgerEntry R) × Ledger R) (r : StoredResult R)
      → IsValid m.1
      → IsValid (store_begun m r).1
  unfolding store_begun
  store_begun-IsValid (err e, l) r v = v
  store_begun-IsValid (ok e, l) r v = complete_stored-IsValid l e r v

  store_on-IsValid :
      (o : Option (StoredResult R)) (l : Ledger R) (k : Scope) (r : StoredResult R)
      → IsValid l
      → IsValid (store_on o l k r).1
  unfolding store_on
  store_on-IsValid (some row) l k r v = v
  store_on-IsValid none l k r v =
      store_begun-IsValid (begin l k r.digest) r (begin-IsValid l k r.digest v)

  rows-store_begun :
      (m : Result Failure (LedgerEntry R) × Ledger R) (r : StoredResult R) (k : Scope)
      (row : StoredResult R)
      → IsValid m.1
      → get m.1.rows k ≡ some row
      → get (store_begun m r).1.rows k ≡ some row
  unfolding store_begun
  rows-store_begun (err e, l) r k row v h = h
  rows-store_begun (ok e, l) r k row v h = rows-complete_stored l e r k row v h

  rows-store_on :
      (o : Option (StoredResult R)) (l : Ledger R) (j : Scope) (r : StoredResult R) (k : Scope)
      (row : StoredResult R)
      → IsValid l
      → get l.rows k ≡ some row
      → get (store_on o l j r).1.rows k ≡ some row
  unfolding store_on
  rows-store_on (some old) l j r k row v h = h
  rows-store_on none l j r k row v h =
      rows-store_begun (begin l j r.digest) r k row (begin-IsValid l j r.digest v)
        (rw (rows-begin l j r.digest) h)

  pub step-IsValid : (l : Ledger R) (op : Op R) → IsValid l → IsValid (step l op)
  unfolding step complete store
  step-IsValid l (begins k d) v = begin-IsValid l k d v
  step-IsValid l (completes e r) v = complete_stored-IsValid l e _ v
  step-IsValid l (stores k r) v = store_on-IsValid (get l.rows k) l k r v

  rows-step :
      (l : Ledger R) (op : Op R) (k : Scope) (row : StoredResult R)
      → IsValid l
      → get l.rows k ≡ some row
      → get (step l op).rows k ≡ some row
  unfolding step complete store
  rows-step l (begins j d) k row v h = rw (rows-begin l j d) h
  rows-step l (completes e r) k row v h = rows-complete_stored l e _ k row v h
  rows-step l (stores j r) k row v h = rows-store_on (get l.rows j) l j r k row v h

  rows-run :
      (l : Ledger R) (ops : List (Op R)) (k : Scope) (row : StoredResult R)
      → IsValid l
      → get l.rows k ≡ some row
      → get (run l ops).rows k ≡ some row
  unfolding run
  rows-run l [] k row v h = h
  rows-run l (op ∷ ops) k row v h =
      rows-run (step l op) ops k row (step-IsValid l op v) (rows-step l op k row v h)

  -- The first result of a scope is final: after any further calls a begin with the digest of its
  -- request replays that result, a begin with another digest is a conflict, and neither changes the
  -- ledger.
  pub first_result_replayed :
      (l : Ledger R) (ops : List (Op R)) (k : Scope) (row : StoredResult R) (digest : String)
      → IsValid l
      → get l.rows k ≡ some row
      → begin (run l ops) k digest ≡ (
        if row.digest == digest
            then ok (record {
              scope = k;
              request_digest = digest;
              result = some row.result;
              replayed = true;
            })
            else err idempotency_conflict,
        run l ops,
      )
  unfolding begin
  first_result_replayed l ops k row digest v h = ground (arith, rows-run l ops k row v h)

  -- The scope was begun.
  abbrev known : Ledger R → Scope → Bool
  known l k = is_some (get l.rows k) || is_some (get l.pending k)

  known-begin :
      (l : Ledger R) (j : Scope) (d : String) (k : Scope)
      → known l k ≡ true
      → known (begin l j d).1 k ≡ true
  unfolding begin
  known-begin l j d k h = ground (
    arith,
    get-put l.pending j (record { scope = j; request_digest = d; result = none; replayed = false })
        k,
  )

  known-complete_stored :
      (l : Ledger R) (e : LedgerEntry R) (r : StoredResult R) (k : Scope)
      → known l k ≡ true
      → known (complete_stored l e r).1 k ≡ true
  unfolding complete_stored
  known-complete_stored l e r k h =
      ground (arith, get-put l.rows e.scope r k, get-remove l.pending e.scope k)

  known-store_begun :
      (m : Result Failure (LedgerEntry R) × Ledger R) (r : StoredResult R) (k : Scope)
      → known m.1 k ≡ true
      → known (store_begun m r).1 k ≡ true
  unfolding store_begun
  known-store_begun (err e, l) r k h = h
  known-store_begun (ok e, l) r k h = known-complete_stored l e r k h

  known-store_on :
      (o : Option (StoredResult R)) (l : Ledger R) (j : Scope) (r : StoredResult R) (k : Scope)
      → known l k ≡ true
      → known (store_on o l j r).1 k ≡ true
  unfolding store_on
  known-store_on (some old) l j r k h = h
  known-store_on none l j r k h =
      known-store_begun (begin l j r.digest) r k (known-begin l j r.digest k h)

  known-step :
      (l : Ledger R) (op : Op R) (k : Scope) → known l k ≡ true → known (step l op) k ≡ true
  unfolding step complete store
  known-step l (begins j d) k h = known-begin l j d k h
  known-step l (completes e r) k h = known-complete_stored l e _ k h
  known-step l (stores j r) k h = known-store_on (get l.rows j) l j r k h

  -- The answer that lets the caller perform the operation.
  abbrev pub is_grant : Result Failure (LedgerEntry R) → Bool
  is_grant (ok entry) = not entry.replayed
  is_grant (err e) = false

  abbrev pub grants : Ledger R → Op R → Scope → Bool
  grants l (begins j d) k = (j == k) && is_grant (begin l j d).0
  grants l _ k = false

  -- How many of the calls are begins of the scope that were granted.
  unfoldable pub granted : Scope → Ledger R → List (Op R) → ℕ
  granted k l [] = 0
  granted k l (op ∷ ops) =
      let rest = granted k (step l op) ops in if grants l op k then suc rest else rest

  grants-known : (l : Ledger R) (op : Op R) (k : Scope) → known l k ≡ true → grants l op k ≡ false
  grants-known l (begins j d) k h = unfold begin in ground (arith, scope_eq_iff j k)
  grants-known l (completes e r) k h = refl
  grants-known l (stores j r) k h = refl

  known_of_grant :
      (l : Ledger R) (op : Op R) (k : Scope) → grants l op k ≡ true → known (step l op) k ≡ true
  unfolding step begin
  known_of_grant l (begins j d) k h = ground (
    arith,
    scope_eq_iff j k,
    get-put l.pending j (record { scope = j; request_digest = d; result = none; replayed = false })
        k,
  )
  known_of_grant l (completes e r) k h = cc
  known_of_grant l (stores j r) k h = cc

  granted-known :
      (k : Scope) (l : Ledger R) (ops : List (Op R)) → known l k ≡ true → granted k l ops ≡ 0
  unfolding granted
  granted-known k l [] h = refl
  granted-known k l (op ∷ ops) h =
      rw (grants-known l op k h) (granted-known k (step l op) ops (known-step l op k h))

  -- Of all the calls, in any order and by any callers, at most one begin of a scope is granted.
  pub granted_once : (k : Scope) (l : Ledger R) (ops : List (Op R)) → granted k l ops ≤ 1
  unfolding granted
  granted_once k l [] = omega arith
  granted_once k l (op ∷ ops) = elim (Bool-cases (grants l op k)) [
    | inl g ↦ rw g (omega (arith, granted-known k (step l op) ops (known_of_grant l op k g)))
    | inr n ↦ rw n (granted_once k (step l op) ops)
  ]
