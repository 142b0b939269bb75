-- ===== src/Lease/Evidence.antt =====
-- The retained outcomes of a lease store only grow (lease.py).
use mathlib.Core.List.{append_assoc, append-nil}
use vuoro.Prelude.{
  ℕ, ◌+◌, String, ◌≡◌, refl, ap, ◌∙◌, Option, none, some, List, [], ◌∷◌, ◌++◌, arith, Bool-cases,
  ltb, inl, inr, not, ◌&&◌,
}
use vuoro.Prelude.Eq.{◌==◌, string_keys, elem}
use vuoro.Dict.{get}
use vuoro.Lease.{
  Lease, LeaseStore, RetainedOutcome, claim, reclaim, heartbeat, complete, current_for_lease_id,
  complete_on, complete_late,
}
use vuoro.Lease.Steps.{Op, claims, reclaims, beats, completes, step, run}

module _ {R : Type 0} where
  -- `ys` goes on from `xs`.
  abbrev pub Extends : List (RetainedOutcome R) → List (RetainedOutcome R) → Type 0
  Extends xs ys = (more : List (RetainedOutcome R)) × (ys ≡ xs ++ more)

  Extends-trans :
      (xs ys zs : List (RetainedOutcome R)) → Extends xs ys → Extends ys zs → Extends xs zs
  Extends-trans xs ys zs p q = (p.0 ++ q.0, q.1 ∙ ap (λ l. l ++ q.0) p.1 ∙ append_assoc xs p.0 q.0)

  complete_late-Extends :
      (o : Option Lease) (s : LeaseStore R) (i holder : String) (result : R) (now : ℕ)
      → Extends s.retained (complete_late o s i holder result now).retained
  unfolding complete_late
  complete_late-Extends none s i holder result now = ([], rw append-nil)
  complete_late-Extends (some l) s i holder result now =
      elim (Bool-cases ((l.holder == holder) && not (elem i s.completed))) [
        | inl t ↦ rw t (_, refl)
        | inr t ↦ rw t ([], rw append-nil)
      ]

  complete_on-Extends :
      (o : Option Lease) (s : LeaseStore R) (i holder : String) (result : R) (now : ℕ)
      → Extends s.retained (complete_on o s i holder result now).1.retained
  unfolding complete_on
  complete_on-Extends none s i holder result now =
      complete_late-Extends (get s.issued i) s i holder result now
  complete_on-Extends (some l) s i holder result now = elim (Bool-cases (l.holder == holder)) [
    | inr other ↦ rw other ([], rw append-nil)
    | inl same ↦ elim (Bool-cases (ltb (l.last_heartbeat_at + l.ttl_seconds) now)) [
      | inl late ↦ rw (same, late) (_, refl)
      | inr live ↦ rw (same, live) ([], rw append-nil)
    ]
  ]

  step-Extends : (s : LeaseStore R) (op : Op R) → Extends s.retained (step s op).retained
  unfolding step claim reclaim heartbeat complete
  step-Extends s (claims subject holder ttl now fresh) = ([], rw append-nil (ground arith))
  step-Extends s (reclaims subject holder ttl now fresh) = ([], rw append-nil (ground arith))
  step-Extends s (beats i holder now) = ([], rw append-nil (ground arith))
  step-Extends s (completes i holder result now) =
      complete_on-Extends (current_for_lease_id s i) s i holder result now

  -- Evidence is never lost or rewritten: whatever the calls, the retained outcomes are those that
  -- were there, in their order, followed by new ones.
  pub run-Extends : (s : LeaseStore R) (ops : List (Op R)) → Extends s.retained (run s ops).retained
  unfolding run
  run-Extends s [] = ([], rw append-nil)
  run-Extends s (op ∷ ops) = Extends-trans _ _ _ (step-Extends s op) (run-Extends (step s op) ops)
