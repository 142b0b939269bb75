-- ===== src/Reconciler/Executor/Safe.antt =====
-- Effects that keep a create call covered by a row of publication_spent.
pub mod Parts
pub mod Transmit
pub mod Runs
pub mod Once
use vuoro.Prelude.{
  ℕ, suc, ◌+◌, ◌≤◌, String, Bool, true, false, Option, none, some, List, [], ◌∷◌, ◌≡◌, refl, subst,
  sym, ap, ◌∙◌, ◌&&◌, Bool-cases, inl, inr, if◌then◌else◌, arith,
}
use vuoro.Prelude.Result.{Result, ok, err}
use vuoro.Prelude.Eq.{◌==◌, string_keys}
use vuoro.Reconciler.Journal.{Operation, operation_keys, Journal, Opened}
use vuoro.Reconciler.Journal.Copies.{Copies}
use vuoro.Reconciler.Journal.Format.{Library}
use vuoro.Reconciler.Journal.Steps.{Step}
use vuoro.Reconciler.Journal.Once.{has_spent, Step-has_spent}
use vuoro.Reconciler.Executor.{
  Call, Commit, committed, not_written, lost, kept_uncertain, kept_failed, Raised, failure,
  cancelled, Outside, Session, Effect, pure, raise, after, ◌>>=◌, ◌>>◌, commit_call, given,
  answered, ask, handled, unless_fails, require, committing, written, write, read_only,
}
use vuoro.Reconciler.Executor.Turn.{creates}

abbrev pub allowance : Bool → ℕ
allowance true = 1
allowance false = 0

module _ {A : Type 0} where
  read_state :
      (b : Bool) (x : Option A) (s : Session)
      → (if◌then◌else◌ {A = Result Raised A × Session} b (err failure, s) (given x s)).1 ≡ s
  read_state true x s = refl
  read_state false none s = refl
  read_state false (some a) s = refl

  pub read_only-state : (f : Journal → Journal × Option A) (s : Session) → (read_only f s).1 ≡ s
  read_only-state f s = read_state s.uncertain (f s.journal).1 s

  read_answer :
      (b : Bool) (x : Option A) (s : Session) (a : A)
      → (if◌then◌else◌ {A = Result Raised A × Session} b (err failure, s) (given x s)).0 ≡ ok a
      → x ≡ some a
  read_answer true x s a h = cc
  read_answer false none s a h = cc
  read_answer false (some y) s a h = ground arith

  -- what a read has answered
  pub read_only-answer :
      (f : Journal → Journal × Option A) (s : Session) (a : A)
      → (read_only f s).0 ≡ ok a
      → (f s.journal).1 ≡ some a
  read_only-answer f s a h = read_answer s.uncertain (f s.journal).1 s a h

module _ (l : Library) (c : Copies) (o : Opened) (w : Outside) (key : String) (op : Operation) where
  -- no more create calls than rows
  abbrev pub Covered : Session → Type 0
  Covered s = creates key op s.calls ≤ allowance (has_spent s.journal key op)

  pub record Safe {A : Type 0} (m : Effect A) : Type 0 where
    pub keeps : (s : Session) → Covered s → Covered (m s).1

  module _ {A : Type 0} where
    after-Covered :
        {B : Type 0} (x : Result Raised A × Session) (f : A → Effect B)
        → Covered x.1
        → ((a : A) → Safe (f a))
        → Covered (after x f).1
    after-Covered (ok a, s) f h g = (g a).keeps s h
    after-Covered (err e, s) f h g = h

    pub Safe-bind :
        {B : Type 0} (m : Effect A) (f : A → Effect B)
        → Safe m
        → ((a : A) → Safe (f a))
        → Safe (m >>= f)
    Safe-bind m f h g = record { keeps = λ s covered. after-Covered (m s) f (h.keeps s covered) g }

    pub Safe-given : (x : Option A) → Safe (given x)
    Safe-given none = record { keeps = λ s h. h }
    Safe-given (some a) = record { keeps = λ s h. h }

    Safe-answered : (x : Result Raised A) → Safe (answered x)
    Safe-answered (ok a) = record { keeps = λ s h. h }
    Safe-answered (err e) = record { keeps = λ s h. h }

    -- a call that is no create call
    pub Safe-ask :
        (call : Call) (answer : List Call → Result Raised A)
        → ((calls : List Call) → creates key op (call ∷ calls) ≡ creates key op calls)
        → Safe (ask call answer)
    Safe-ask call answer quiet = record {
      keeps = λ s h.
          (Safe-answered (answer s.calls)).keeps (record s { calls = call ∷ s.calls })
            (omega (arith, quiet s.calls));
    }

    handled-Covered :
        (x : Result Raised A × Session) (handler : Effect A)
        → Covered x.1
        → Safe handler
        → Covered (handled x handler).1
    handled-Covered (ok a, s) handler h g = h
    handled-Covered (err failure, s) handler h g = g.keeps s h
    handled-Covered (err cancelled, s) handler h g = h

    pub Safe-unless_fails :
        (m handler : Effect A) → Safe m → Safe handler → Safe (unless_fails m handler)
    Safe-unless_fails m handler h g = record {
      keeps = λ s covered. handled-Covered (m s) handler (h.keeps s covered) g;
    }

    pub Safe-if : (b : Bool) (m n : Effect A) → Safe m → Safe n → Safe (if b then m else n)
    Safe-if true m n h g = h
    Safe-if false m n h g = g

    pub Safe-read_only : (f : Journal → Journal × Option A) → Safe (read_only f)
    Safe-read_only f = record { keeps = λ s h. subst Covered (sym (read_only-state f s)) h }

  pub Safe-require : (b : Bool) → Safe (require b)
  Safe-require true = record { keeps = λ s h. h }
  Safe-require false = record { keeps = λ s h. h }

  pub Safe-pure : {A : Type 0} (a : A) → Safe (pure a)
  Safe-pure a = record { keeps = λ s h. h }

  -- rows are only added
  pub Step-allowance :
      (j k : Journal)
      → Step l c o j k
      → allowance (has_spent j key op) ≤ allowance (has_spent k key op)
  Step-allowance j k step = elim (Bool-cases (has_spent j key op)) [
    | inl t ↦ ground (arith, t, Step-has_spent l c o j k key op step)
    | inr f ↦ ground (arith, f)
  ]

  module _ {A : Type 0} where
    committing-Covered :
        (outcome : Commit) (j : Journal) (a : A) (s : Session)
        → allowance (has_spent s.journal key op) ≤ allowance (has_spent j key op)
        → Covered s
        → Covered (committing w outcome j a s).1
    committing-Covered committed j a s more h = omega (arith, more, h)
    committing-Covered not_written j a s more h = h
    committing-Covered lost j a s more h = h
    committing-Covered kept_uncertain j a s more h = omega (arith, more, h)
    committing-Covered kept_failed j a s more h = omega (arith, more, h)

    written-Covered :
        (x : Journal × Option A) (s : Session)
        → allowance (has_spent s.journal key op) ≤ allowance (has_spent x.0 key op)
        → Covered s
        → Covered (written w x s).1
    written-Covered (j, none) s more h = h
    written-Covered (j, some a) s more h =
        committing-Covered (w.commit s.calls) j a (record s { calls = commit_call ∷ s.calls }) more
          h

    held-Covered :
        (b : Bool) (x : Journal × Option A) (s : Session)
        → allowance (has_spent s.journal key op) ≤ allowance (has_spent x.0 key op)
        → Covered s
        → Covered
            (if◌then◌else◌ {A = Result Raised A × Session} b (err failure, s) (written w x s)).1
    held-Covered true x s more h = h
    held-Covered false x s more h = written-Covered x s more h

    pub Safe-write :
        (f : Journal → Journal × Option A)
        → ((j : Journal) → Step l c o j (f j).0)
        → Safe (write w f)
    Safe-write f steps = record {
      keeps = λ s h.
          held-Covered s.uncertain (f s.journal) s
            (Step-allowance s.journal (f s.journal).0 (steps s.journal)) h;
    }
