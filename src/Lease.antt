-- ===== src/Lease.antt =====
-- The in-memory lease store of packages/vuoro-service/src/vuoro_service/lease.py: one active lease
-- per subject, expiry by heartbeat, and late results kept as evidence.
-- A reading of the injected clock is the argument `now` of each call, in whole ticks of that clock,
-- and the `uuid.uuid4()` of a new lease is the argument `fresh`. A method returns its result or its
-- exception beside the store, since a refusal may have changed the store.
pub mod Invariant
pub mod Settlement
pub mod Steps
pub mod Dead
pub mod Evidence
pub mod Grants
use vuoro.Prelude.{
  ℕ, ◌+◌, String, ◌≡◌, Bool, Option, none, some, List, [], ◌∷◌, ◌++◌, not, ◌&&◌, ltb, filter,
  if◌then◌else◌,
}
use vuoro.Prelude.Eq.{◌==◌, string_keys, elem}
use vuoro.Prelude.Result.{Result, ok, err}
use vuoro.Dict.{Dict, get, put, remove, find_value}

-- LeaseConflictError, LeaseHolderMismatchError, LeaseNotCurrentError
pub data LeaseError : Type 0 where
  conflict holder_mismatch not_current : LeaseError

pub record Lease : Type 0 where
  pub lease_id : String
  pub subject : String
  pub holder : String
  pub issued_at : ℕ
  pub ttl_seconds : ℕ
  pub last_heartbeat_at : ℕ

unfoldable pub is_expired : Lease → ℕ → Bool
is_expired l now = ltb (l.last_heartbeat_at + l.ttl_seconds) now

pub data Reason : Type 0 where
  expired superseded : Reason

-- `R` is the type of the results that holders submit.
pub record RetainedOutcome (R : Type 0) : Type 0 where
  pub lease_id : String
  pub subject : String
  pub holder : String
  pub result : R
  pub reason : Reason
  pub retained_at : ℕ
  pub disposition : String
  pub settlement_effect : String

pub record LeaseStore (R : Type 0) : Type 0 where
  pub by_subject : Dict String Lease
  pub issued : Dict String Lease
  pub retained : List (RetainedOutcome R)
  pub completed : List String

abbrev pub Call : Type 0 → Type 0 → Type 0
Call R A = Result LeaseError A × LeaseStore R

module _ {R : Type 0} where
  abbrev pub new_store : LeaseStore R
  new_store = record { by_subject = []; issued = []; retained = []; completed = [] }

  -- _current
  unfoldable pub current : LeaseStore R → String → Option Lease
  current s subject = get s.by_subject subject

  -- the two assignments that end `claim` and `reclaim`
  unfoldable pub file : LeaseStore R → Lease → Call R Lease
  file s l = (
    ok l,
    record s { by_subject = put s.by_subject l.subject l; issued = put s.issued l.lease_id l },
  )

  unfoldable pub issue : LeaseStore R → String → String → ℕ → ℕ → String → Call R Lease
  unfolding file
  issue s subject holder ttl now fresh = file s (record {
    lease_id = fresh;
    subject = subject;
    holder = holder;
    issued_at = now;
    ttl_seconds = ttl;
    last_heartbeat_at = now;
  })

  -- `replace(current, last_heartbeat_at=now)`, filed under the subject of the call
  unfoldable pub renew : LeaseStore R → String → Lease → ℕ → Call R Lease
  renew s subject l now =
      let renewed = record l { last_heartbeat_at = now } in
      (
        ok renewed,
        record s {
          by_subject = put s.by_subject subject renewed;
          issued = put s.issued l.lease_id renewed;
        },
      )

  unfoldable pub claim_on :
      Option Lease → LeaseStore R → String → String → ℕ → ℕ → String → Call R Lease
  unfolding issue renew is_expired
  claim_on none s subject holder ttl now fresh = issue s subject holder ttl now fresh
  claim_on (some l) s subject holder ttl now fresh =
      if not (is_expired l now)
      then (err conflict, s)
      else if l.holder == holder
      then renew s subject l now
      else issue s subject holder ttl now fresh

  unfoldable pub claim : LeaseStore R → String → String → ℕ → ℕ → String → Call R Lease
  unfolding claim_on current
  claim s subject holder ttl now fresh = claim_on (current s subject) s subject holder ttl now fresh

  -- the body of `reclaim` repeats that of `claim`, down to the order of its tests
  unfoldable pub reclaim : LeaseStore R → String → String → ℕ → ℕ → String → Call R Lease
  unfolding claim_on current
  reclaim s subject holder ttl now fresh =
      claim_on (current s subject) s subject holder ttl now fresh

  -- _current_for_lease_id
  unfoldable pub current_for_lease_id : LeaseStore R → String → Option Lease
  current_for_lease_id s lease_id = find_value (λ l. l.lease_id == lease_id) s.by_subject

  unfoldable pub heartbeat_on : Option Lease → LeaseStore R → String → ℕ → Call R Lease
  unfolding is_expired
  heartbeat_on none s holder now = (err not_current, s)
  heartbeat_on (some l) s holder now =
      let renewed = record l { last_heartbeat_at = now } in
      if not (l.holder == holder)
      then (err holder_mismatch, s)
      else if is_expired l now
      then (err not_current, s)
      else (ok renewed, record s { by_subject = put s.by_subject l.subject renewed })

  unfoldable pub heartbeat : LeaseStore R → String → String → ℕ → Call R Lease
  unfolding heartbeat_on
  heartbeat s lease_id holder now = heartbeat_on (current_for_lease_id s lease_id) s holder now

  -- _retain
  unfoldable pub retain : LeaseStore R → Lease → R → Reason → ℕ → LeaseStore R
  retain s l result reason now = record s {
    retained =
        s.retained
        ++ (record {
          lease_id = l.lease_id;
          subject = l.subject;
          holder = l.holder;
          result = result;
          reason = reason;
          retained_at = now;
          disposition = "stale";
          settlement_effect = "none";
        })
          ∷ [];
  }

  -- what `complete` does with a lease id that is not current
  unfoldable pub complete_late :
      Option Lease → LeaseStore R → String → String → R → ℕ → LeaseStore R
  unfolding retain
  complete_late none s lease_id holder result now = s
  complete_late (some l) s lease_id holder result now =
      if (l.holder == holder) && not (elem lease_id s.completed)
      then retain s l result superseded now
      else s

  unfoldable pub complete_on :
      Option Lease → LeaseStore R → String → String → R → ℕ → Call R (Unit {0})
  unfolding is_expired complete_late retain
  complete_on none s lease_id holder result now =
      (err not_current, complete_late (get s.issued lease_id) s lease_id holder result now)
  complete_on (some l) s lease_id holder result now =
      if not (l.holder == holder)
      then (err holder_mismatch, s)
      else if is_expired l now
      then (err not_current, retain s l result expired now)
      else (
        ok tt,
        record s { by_subject = remove s.by_subject l.subject; completed = lease_id ∷ s.completed },
      )

  unfoldable pub complete : LeaseStore R → String → String → R → ℕ → Call R (Unit {0})
  unfolding complete_on
  complete s lease_id holder result now =
      complete_on (current_for_lease_id s lease_id) s lease_id holder result now

  unfoldable pub retained_outcomes : LeaseStore R → String → List (RetainedOutcome R)
  retained_outcomes s subject = filter (λ o. o.subject == subject) s.retained

  -- LeaseStore.is_expired
  unfoldable pub subject_is_expired : LeaseStore R → String → ℕ → Option Bool
  unfolding current is_expired
  subject_is_expired s subject now = elim (current s subject) [
    | none ↦ none
    | some l ↦ some (is_expired l now)
  ]
