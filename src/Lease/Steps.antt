-- ===== src/Lease/Steps.antt =====
-- Sequences of calls on a lease store (lease.py), each with its clock reading and its new uuid.
use vuoro.Prelude.{ℕ, String, ◌≡◌, none, List, [], ◌∷◌}
use vuoro.Prelude.Eq.{string_keys}
use vuoro.Dict.{get}
use vuoro.Lease.{LeaseStore, claim, reclaim, heartbeat, complete}
use vuoro.Lease.Invariant.{
  IsValid, claim-IsValid, reclaim-IsValid, heartbeat-IsValid, complete-IsValid,
}

-- A call with its arguments, the reading of its clock and its new uuid.
pub data Op (R : Type 0) : Type 0 where
  claims reclaims : (subject holder : String) (ttl now : ℕ) (fresh : String) → Op R
  beats : (lease_id holder : String) (now : ℕ) → Op R
  completes : (lease_id holder : String) (result : R) (now : ℕ) → Op R

module _ {R : Type 0} where
  unfoldable pub step : LeaseStore R → Op R → LeaseStore R
  step s (claims subject holder ttl now fresh) = (claim s subject holder ttl now fresh).1
  step s (reclaims subject holder ttl now fresh) = (reclaim s subject holder ttl now fresh).1
  step s (beats i holder now) = (heartbeat s i holder now).1
  step s (completes i holder result now) = (complete s i holder result now).1

  unfoldable pub run : LeaseStore R → List (Op R) → LeaseStore R
  run s [] = s
  run s (op ∷ ops) = run (step s op) ops

  -- A uuid is none that was issued before.
  abbrev pub IsFresh : LeaseStore R → Op R → Type 0
  IsFresh s (claims subject holder ttl now fresh) = get s.issued fresh ≡ none
  IsFresh s (reclaims subject holder ttl now fresh) = get s.issued fresh ≡ none
  IsFresh s _ = Unit

  abbrev pub AllFresh : LeaseStore R → List (Op R) → Type 0
  AllFresh s [] = Unit
  AllFresh s (op ∷ ops) = IsFresh s op × AllFresh (step s op) ops

  pub step-IsValid : (s : LeaseStore R) (op : Op R) → IsValid s → IsFresh s op → IsValid (step s op)
  unfolding step
  step-IsValid s (claims subject holder ttl now fresh) v f =
      claim-IsValid s subject holder ttl now fresh v f
  step-IsValid s (reclaims subject holder ttl now fresh) v f =
      reclaim-IsValid s subject holder ttl now fresh v f
  step-IsValid s (beats i holder now) v f = heartbeat-IsValid s i holder now v
  step-IsValid s (completes i holder result now) v f = complete-IsValid s i holder result now v

  -- Every call keeps the invariant, and so does every sequence of calls.
  pub run-IsValid :
      (s : LeaseStore R) (ops : List (Op R)) → IsValid s → AllFresh s ops → IsValid (run s ops)
  unfolding run
  run-IsValid s [] v f = v
  run-IsValid s (op ∷ ops) v f = run-IsValid (step s op) ops (step-IsValid s op v f.0) f.1
