-- ===== src/Reconciler/World/Calls.antt =====
-- How many pushes and pull requests a piece of the reconciler makes at most, and what kind of calls.
use vuoro.Prelude.{ℕ, ◌+◌, ◌≤◌, String, Bool, true, false, List, [], ◌∷◌, arith}
use vuoro.Prelude.Result.{Result, ok, err}
use vuoro.Reconciler.World.{
  Call, push_call, open_call, Stop, State, Effect, pure, stop, after, ◌>>=◌, refuse_when, ask,
}

-- `per_push` for each push of a branch, `per_open` for each opening of a pull request
abbrev pub weigh : ℕ → ℕ → Call → ℕ
weigh per_push per_open (push_call r b c) = per_push
weigh per_push per_open (open_call p) = per_open
weigh per_push per_open _ = 0

module _ (weight : Call → ℕ) where
  unfoldable pub total : List Call → ℕ
  total [] = 0
  total (c ∷ cs) = weight c + total cs

  -- The piece makes calls of the weight `n` at most.
  pub record Adds {A : Type 0} (n : ℕ) (m : Effect A) : Type 0 where
    pub bound : (s : State) → total (m s).1.calls ≤ total s.calls + n

  pub Adds-pure : {A : Type 0} (a : A) → Adds 0 (pure a)
  Adds-pure a = record { bound = λ s. omega arith }

  pub Adds-stop : (A : Type 0) (e : Stop) → Adds 0 (stop {A = A} e)
  Adds-stop A e = record { bound = λ s. omega arith }

  pub Adds-refuse_when : (b : Bool) (reason : String) → Adds 0 (refuse_when b reason)
  Adds-refuse_when true reason = record { bound = λ s. omega arith }
  Adds-refuse_when false reason = record { bound = λ s. omega arith }

  pub Adds-ask :
      {A : Type 0} (n : ℕ) (c : Call) (k : List Call → Effect A)
      → ((calls : List Call) → Adds n (k calls))
      → Adds (weight c + n) (ask c k)
  unfolding total
  Adds-ask n c k h = record {
    bound = λ s. omega (arith, (h (c ∷ s.calls)).bound (record s { calls = c ∷ s.calls }));
  }

  Adds-after :
      {A B : Type 0} (n k : ℕ) (r : Result Stop A × State) (f : A → Effect B)
      → ((a : A) → Adds k (f a))
      → total r.1.calls ≤ n
      → total (after r f).1.calls ≤ n + k
  Adds-after n k (ok a, s) f h g = omega (arith, (h a).bound s)
  Adds-after n k (err e, s) f h g = omega arith

  pub Adds-bind :
      {A B : Type 0} (n k : ℕ) (m : Effect A) (f : A → Effect B)
      → Adds n m
      → ((a : A) → Adds k (f a))
      → Adds (n + k) (m >>= f)
  Adds-bind n k m f h g = record {
    bound = λ s. omega (arith, Adds-after (total s.calls + n) k (m s) f g (h.bound s));
  }

  pub Adds-more : {A : Type 0} (n k : ℕ) (m : Effect A) → Adds n m → n ≤ k → Adds k m
  Adds-more n k m h le = record { bound = λ s. omega (arith, h.bound s) }
