-- ===== src/Reconciler/Process/Once.antt =====
-- One attempt at an intent pushes once and opens one pull request at most (reconciler.py).
use vuoro.Prelude.{
  ℕ, ◌+◌, ◌≤◌, ◌≡◌, refl, String, Option, none, some, List, ◌∷◌, arith, inl, inr, Bool-cases,
}
use vuoro.Prelude.Eq.{string_keys, option_keys, elem}
use vuoro.Prelude.Result.{Result, ok, err}
use vuoro.Reconciler.Intents.{Acceptor, EffectIntent}
use vuoro.Reconciler.Acceptance.{legacy_execution_excluded}
use vuoro.Reconciler.Authorise.{ReconcilerConfig, diff_policy_for}
use vuoro.Reconciler.World.{
  Call, default_branch_call, applied_call, Failure, Outside, Stop, refused, unrecorded, rejected,
  raised, State, Effect, pure, ◌>>=◌, ◌>>◌,
}
use vuoro.Reconciler.World.Calls.{
  weigh, total, Adds, Adds-pure, Adds-refuse_when, Adds-ask, Adds-bind, Adds-more,
}
use vuoro.Reconciler.Publish.{refuse_error, publish}
use vuoro.Reconciler.Publish.AtMostOnce.{preflight-Quiet, publish-Adds}
use vuoro.Reconciler.Process.{
  Checks, policy_refused, refused_with, locally, prepare_checkout, prepare_commit, committed,
  or_raise, catch_rejected, branch_for, applied_outcome, preflight_and_publish, guarded, carry_out,
  process, excluded_outcome, outside_scope,
}

module _ (k : Checks) (config : ReconcilerConfig) (o : Outside) where
  module _ (per_push per_open : ℕ) where
    abbrev Quiet : {A : Type 0} → Effect A → Type 0
    Quiet m = Adds (weigh per_push per_open) 0 m

    policy_refused-Quiet : {A : Type 0} (r : Result String A) → Quiet (policy_refused k config o r)
    policy_refused-Quiet (ok a) = record { bound = λ s. omega arith }
    policy_refused-Quiet (err e) = record { bound = λ s. omega arith }

    refuse_error-Quiet : {A : Type 0} (r : Result String A) → Quiet (refuse_error k.validate o r)
    refuse_error-Quiet (ok a) = record { bound = λ s. omega arith }
    refuse_error-Quiet (err e) = record { bound = λ s. omega arith }

    refused_with-Quiet : (p : String) (r : Option String) → Quiet (refused_with k config o p r)
    refused_with-Quiet p none = record { bound = λ s. omega arith }
    refused_with-Quiet p (some e) = record { bound = λ s. omega arith }

    committed-Quiet : (r : Result String String) → Quiet (committed k config o r)
    committed-Quiet (ok a) = record { bound = λ s. omega arith }
    committed-Quiet (err e) = record { bound = λ s. omega arith }

    or_raise-Quiet : (r : Result Failure String) → Quiet (or_raise k config o r)
    or_raise-Quiet (ok a) = record { bound = λ s. omega arith }
    or_raise-Quiet (err e) = record { bound = λ s. omega arith }

    locally-Quiet :
        {A : Type 0} (f : List Call → Effect A)
        → ((calls : List Call) → Quiet (f calls))
        → Quiet (locally k config o f)
    locally-Quiet f h = record { bound = λ s. (h s.calls).bound s }

    Quiet-bind :
        {A B : Type 0} (m : Effect A) (f : A → Effect B)
        → Quiet m
        → ((a : A) → Quiet (f a))
        → Quiet (m >>= f)
    Quiet-bind m f h g = Adds-bind (weigh per_push per_open) 0 0 m f h g

    Quiet-turn :
        {B : Type 0} (m : Effect (Unit {0})) (f : Effect B) → Quiet m → Quiet f → Quiet (m >> f)
    Quiet-turn m f h g = Quiet-bind m (λ _. f) h (λ _. g)

    prepare_checkout-Quiet : (intent : EffectIntent) → Quiet (prepare_checkout k config o intent)
    unfolding prepare_checkout
    prepare_checkout-Quiet intent =
        Quiet-turn _ _ (policy_refused-Quiet (k.check_patch intent.unified_diff)) (
          Quiet-turn _ _
            (locally-Quiet
              (λ calls.
                refused_with k config o "checkout-failed: "
                  (o.checkout calls intent.repository intent.base_commit))
              (λ calls. refused_with-Quiet _ _))
            (Quiet-turn _ _
              (locally-Quiet
                (λ calls.
                  refused_with k config o "diff-does-not-apply: " (o.apply_diff calls intent))
                (λ calls. refused_with-Quiet _ _))
              (Quiet-bind _ _
                (locally-Quiet (λ calls. policy_refused k config o (o.staged_changes calls intent))
                  (λ calls. policy_refused-Quiet _))
                (λ changes.
                  Quiet-turn _ _
                    (policy_refused-Quiet
                      (k.check_staged changes (diff_policy_for config intent.repository)))
                    (Adds-pure (weigh per_push per_open) changes)))))

    prepare_commit-Quiet :
        (intent : EffectIntent) (a : Acceptor) → Quiet (prepare_commit k config o intent a)
    unfolding prepare_commit
    prepare_commit-Quiet intent a = Quiet-bind _ _ (prepare_checkout-Quiet intent) (λ changes.
        Quiet-turn _ _
          (Adds-refuse_when (weigh per_push per_open) (outside_scope k config o a intent changes)
            "outside-policy-scope")
          (locally-Quiet (λ calls. committed k config o (o.commit_signed calls intent))
            (λ calls. committed-Quiet _)))

    catch_rejected-calls :
        {A : Type 0} (r : Result Stop A × State) → (catch_rejected k config o r).1.calls ≡ r.1.calls
    catch_rejected-calls (ok a, s) = refl
    catch_rejected-calls (err (refused r), s) = refl
    catch_rejected-calls (err (unrecorded a b), s) = refl
    catch_rejected-calls (err rejected, s) = refl
    catch_rejected-calls (err (raised n), s) = refl

    guarded-Adds :
        {A : Type 0} (n : ℕ) (m : Effect A)
        → Adds (weigh per_push per_open) n m
        → Adds (weigh per_push per_open) n (guarded k config o m)
    guarded-Adds n m h = record { bound = λ s. rw (catch_rejected-calls (m s)) (h.bound s) }

    preflight_and_publish-Adds :
        (intent : EffectIntent) (b d c : String)
        → Adds
            (weigh per_push per_open)
            (per_push + per_open)
            (preflight_and_publish k config o intent b d c)
    unfolding preflight_and_publish
    preflight_and_publish-Adds intent b d c =
        Adds-more (weigh per_push per_open) (0 + (per_push + per_open)) _ _
          (Adds-bind (weigh per_push per_open) 0 (per_push + per_open) _
            (λ _. publish k.validate o intent b d c)
            (preflight-Quiet per_push per_open k.validate o intent)
            (λ _. publish-Adds per_push per_open k.validate o intent b d c))
          (omega arith)

    carry_out-Adds :
        (intent : EffectIntent) (a : Acceptor)
        → Adds (weigh per_push per_open) (per_push + per_open) (carry_out k config o intent a)
    unfolding carry_out
    carry_out-Adds intent a =
        Adds-more (weigh per_push per_open) _ _ _
          (Adds-bind (weigh per_push per_open) 0 _ _ _
            (preflight-Quiet per_push per_open k.validate o intent)
            (λ _.
              Adds-bind (weigh per_push per_open) 0 _ _ _
                (Adds-ask (weigh per_push per_open) 0 (default_branch_call intent.repository)
                  (λ calls. or_raise k config o (o.default_branch calls intent.repository))
                  (λ calls. or_raise-Quiet _))
                (λ d.
                  Adds-bind (weigh per_push per_open) 0 _ _ _
                    (Adds-refuse_when (weigh per_push per_open)
                      (elem (branch_for k config o intent) (d ∷ config.protected_branches))
                      "branch-is-protected")
                    (λ _.
                      Adds-bind (weigh per_push per_open) 0 _ _ _ (prepare_commit-Quiet intent a)
                        (λ c.
                          Adds-bind (weigh per_push per_open) (per_push + per_open) 0 _ _
                            (guarded-Adds _ _ (
                              preflight_and_publish-Adds intent (branch_for k config o intent) d c))
                            (λ r.
                              Adds-ask (weigh per_push per_open) 0
                                (applied_call intent.intent_id r.0 r.1.url)
                                (λ calls. pure (applied_outcome k config o intent a r.0 r.1.url))
                                (λ calls. Adds-pure (weigh per_push per_open) _)))))))
          (omega arith)

    process-Adds :
        (intent : EffectIntent)
        → Adds (weigh per_push per_open) (per_push + per_open) (process k config o intent)
    unfolding process
    process-Adds intent =
        elim (Bool-cases (legacy_execution_excluded intent config.protected_repositories)) [
          | inl t ↦ rw t (
              Adds-more (weigh per_push per_open) 0 _ _
                (Adds-pure (weigh per_push per_open) (excluded_outcome k config o intent))
                (omega arith))
          | inr f ↦ rw f (
              Adds-more (weigh per_push per_open) (0 + (per_push + per_open)) _ _
                (Adds-bind (weigh per_push per_open) 0 (per_push + per_open) _
                  (carry_out k config o intent) (refuse_error-Quiet (k.authorise intent))
                  (carry_out-Adds intent))
                (omega arith))
        ]

  -- One attempt at an intent pushes one branch at most and opens one pull request at most, whatever
  -- the forge, the source and git answer.
  pub at_most_once :
      (intent : EffectIntent) (s : State)
      → (total (weigh 1 0) (process k config o intent s).1.calls ≤ total (weigh 1 0) s.calls + 1)
        × (total (weigh 0 1) (process k config o intent s).1.calls ≤ total (weigh 0 1) s.calls + 1)
  at_most_once intent s = (
    omega (arith, (process-Adds 1 0 intent).bound s),
    omega (arith, (process-Adds 0 1 intent).bound s),
  )
