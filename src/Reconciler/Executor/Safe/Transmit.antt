-- ===== src/Reconciler/Executor/Safe/Transmit.antt =====
-- The create call of an operation is made only on the row that its own marker has just added.
use vuoro.Prelude.{
  both_true, ℕ, ◌+◌, ◌≤◌, String, Bool, true, false, Option, none, some, List, ◌∷◌, ◌≡◌, refl,
  subst, sym, ap, ◌∙◌, ◌&&◌, Bool-cases, inl, inr, if◌then◌else◌, arith, not,
}
use vuoro.Prelude.Result.{Result, ok, err}
use vuoro.Prelude.Eq.{◌==◌, string_keys}
use vuoro.Text.{is_hex_of}
use vuoro.Reconciler.Journal.{Operation, operation_keys, JournalRecord, Journal, Opened}
use vuoro.Reconciler.Journal.Copies.{ProtectedEffect, Copies}
use vuoro.Reconciler.Journal.Format.{Library}
use vuoro.Reconciler.Journal.Verify.{load}
use vuoro.Reconciler.Journal.Operations.{mark_spent, read_record}
use vuoro.Reconciler.Journal.Steps.Cases.{transaction-cases, load-some}
use vuoro.Reconciler.Journal.Steps.Performs.{mark_spent-Step}
use vuoro.Reconciler.Journal.Once.{has_spent, mark_spent-first}
use vuoro.Reconciler.Executor.{
  Call, create_call, commit_call, Commit, committed, not_written, lost, kept_uncertain, kept_failed,
  Raised, failure, cancelled, ProviderResult, Outside, Session, Effect, pure, after, ◌>>=◌, ◌>>◌,
  given, answered, handled, committing, written, write, read_only,
}
use vuoro.Reconciler.Executor.Requests.{create_of, provider_result}
use vuoro.Reconciler.Executor.Execute.{journal_read, present}
use vuoro.Reconciler.Executor.Turn.{creates, Turn, return_result, create, transmit}
use vuoro.Reconciler.Executor.Safe.{
  allowance, Covered, Safe, Safe-write, read_only-state, read_only-answer, Step-allowance,
}
use vuoro.Reconciler.Executor.Safe.Parts.{seq, pure_kept, Safe-result, Safe-journal_read}

module _ (l : Library) (c : Copies) (o : Opened) (w : Outside) where
  present-state : (x : Option JournalRecord) (s : Session) → (present x s).1 ≡ s
  present-state none s = refl
  present-state (some r) s = refl

  journal_read-state : (key : String) (s : Session) → (journal_read l c o w key s).1 ≡ s
  unfolding journal_read
  journal_read-state key s =
      go (read_only (read_record l c o key) s) (read_only-state (read_record l c o key) s)
    where
      go : (x : Result Raised (Option JournalRecord) × Session) → x.1 ≡ s → (after x present).1 ≡ s
      go (ok r, t) e = present-state r t ∙ e
      go (err f, t) e = e

  -- the create call leaves its mark on the calls, and nothing else
  create-state :
      (r : JournalRecord) (effect : ProtectedEffect) (p : Operation) (s : Session)
      → (create l c o w r effect p s).1 ≡ record s { calls = create_call r.effect_key p ∷ s.calls }
  unfolding create
  create-state r effect p s = go (w.create s.calls r p)
    where
      checked :
          (x : Option ProviderResult) (t : Session)
          → (handled (after (given x t) (λ y. pure tt)) (pure tt)).1 ≡ t
      checked none t = refl
      checked (some y) t = refl

      go :
          (x : Result Raised ProviderResult)
          → (handled
              (after
                (answered x (record s { calls = create_call r.effect_key p ∷ s.calls }))
                (λ answer.
                  given (provider_result l r effect (create_of p) false answer) >>= λ y. pure tt))
              (pure tt)).1
            ≡ record s { calls = create_call r.effect_key p ∷ s.calls }
      go (ok answer) =
          checked (provider_result l r effect (create_of p) false answer)
            (record s { calls = create_call r.effect_key p ∷ s.calls })
      go (err failure) = refl
      go (err cancelled) = refl

  -- a record that was read has the key that it was read by
  read_record-key :
      (key : String) (j : Journal) (r : JournalRecord)
      → (read_record l c o key j).1 ≡ some (some r)
      → r.effect_key ≡ key
  unfolding read_record
  read_record-key key j r h = elim (Bool-cases (is_hex_of 64 key)) [
    | inr f ↦ ground (arith, f)
    | inl t ↦ elim (transaction-cases l c o (λ k. some (k, load k key)) j) [
      | inl same ↦ ground (arith, t, same)
      | inr (k, x, body, outcome) ↦
          let (rows, g, e) = load-some l c o k key r (ground (arith, t, body, outcome)) in
          ap (λ y. y.effect_key) e
    ]
  ]

  present-answer :
      (x : Result Raised (Option JournalRecord) × Session) (r : JournalRecord)
      → (after x present).0 ≡ ok r
      → x.0 ≡ ok (some r)
  present-answer (ok none, s) r h = cc
  present-answer (ok (some q), s) r h = ground arith
  present-answer (err e, s) r h = cc

  journal_read-key :
      (key : String) (s : Session) (r : JournalRecord)
      → (journal_read l c o w key s).0 ≡ ok r
      → r.effect_key ≡ key
  unfolding journal_read
  journal_read-key key s r h = read_record-key key s.journal r (
      read_only-answer (read_record l c o key) s (some r)
        (present-answer (read_only (read_record l c o key) s) r h))

  module _ (key : String) (op : Operation) where
    -- the row that a create call of this operation needs, beyond the calls that were made
    abbrev one : String → Operation → ℕ
    one k p = allowance ((k == key) && (p == op))

    abbrev Slack : String → Operation → Session → Type 0
    Slack k p s = creates key op s.calls + one k p ≤ allowance (has_spent s.journal key op)

    Slack-Covered :
        (k : String) (p : Operation) (s : Session) → Slack k p s → Covered l c o w key op s
    Slack-Covered k p s h = omega arith

    -- a create call uses the slack up
    creates-call :
        (k : String) (p : Operation) (calls : List Call)
        → creates key op (create_call k p ∷ calls) ≡ creates key op calls + one k p
    creates-call k p calls = ground arith

    -- a create call uses the slack up
    create-Covered :
        (r : JournalRecord) (effect : ProtectedEffect) (p : Operation) (s : Session)
        → Slack r.effect_key p s
        → Covered l c o w key op (create l c o w r effect p s).1
    create-Covered r effect p s h =
        subst (Covered l c o w key op) (sym (create-state r effect p s))
          (omega (arith, creates-call r.effect_key p s.calls, h))

    -- what follows the marker: the record is read, and the call is made
    abbrev call_now : ProtectedEffect → Operation → JournalRecord → Effect Turn
    call_now effect p now = create l c o w now effect p >> pure (inr now)

    then_pure-state :
        {A : Type 0} (x : Result Raised (Unit {0}) × Session) (a : A)
        → (after x (λ u. pure a)).1 ≡ x.1
    then_pure-state (ok u, s) a = refl
    then_pure-state (err e, s) a = refl

    read-Covered :
        (k : String) (effect : ProtectedEffect) (p : Operation)
        (x : Result Raised JournalRecord × Session)
        → ((r : JournalRecord) → x.0 ≡ ok r → r.effect_key ≡ k)
        → Slack k p x.1
        → Covered l c o w key op (after x (call_now effect p)).1
    read-Covered k effect p (err e, s) same h = Slack-Covered k p s h
    read-Covered k effect p (ok now, s) same h =
        subst (Covered l c o w key op)
          (sym (then_pure-state (create l c o w now effect p s) (inr now)))
          (create-Covered now effect p s (subst (λ i. Slack i p s) (sym (same now refl)) h))

    abbrev after_first : JournalRecord → ProtectedEffect → Operation → Bool → Effect Turn
    after_first r effect p first =
        if not first
        then (journal_read l c o w r.effect_key >>= λ now.
            return_result l c o w now "marker-already-spent")
        else (journal_read l c o w r.effect_key >>= call_now effect p)

    marked-Covered :
        (r : JournalRecord) (effect : ProtectedEffect) (p : Operation)
        (x : Result Raised Bool × Session)
        → Covered l c o w key op x.1
        → (x.0 ≡ ok true → Slack r.effect_key p x.1)
        → Covered l c o w key op (after x (after_first r effect p)).1
    marked-Covered r effect p (err e, s) h slack = h
    marked-Covered r effect p (ok false, s) h slack =
        (seq l c o w key op (Safe-journal_read l c o w key op r.effect_key) λ now.
            seq l c o w key op (Safe-result l c o w key op now "marker-already-spent")
              λ x. pure_kept l c o w key op (inl x)).keeps
          s h
    marked-Covered r effect p (ok true, s) h slack =
        read-Covered r.effect_key effect p (journal_read l c o w r.effect_key s)
          (λ now. journal_read-key r.effect_key s now)
          (subst (Slack r.effect_key p) (sym (journal_read-state r.effect_key s)) (slack refl))

    -- the marker's own row leaves room for one call
    row-room :
        (k : String) (p : Operation) (j next : Journal) (n : ℕ)
        → has_spent j k p ≡ false
        → has_spent next k p ≡ true
        → allowance (has_spent j key op) ≤ allowance (has_spent next key op)
        → n ≤ allowance (has_spent j key op)
        → n + one k p ≤ allowance (has_spent next key op)
    row-room k p j next n before now more h = elim (Bool-cases ((k == key) && (p == op))) [
      | inr f ↦ omega (arith, more, h, ap allowance f)
      | inl t ↦
          let (same_key, same_op) = both_true (k == key) (p == op) t in
          let here : (x : Journal) → has_spent x k p ≡ has_spent x key op = λ x.
            ap (λ i. has_spent x i p) ((string_keys.decides k key).0 same_key)
            ∙ ap (λ q. has_spent x key q) ((operation_keys.decides p op).0 same_op) in
          omega (
            arith,
            h,
            ap allowance t,
            ap allowance (sym (here j) ∙ before),
            ap allowance (sym (here next) ∙ now),
          )
    ]

    committing-first :
        (outcome : Commit) (j : Journal) (b : Bool) (s : Session)
        → (committing w outcome j b s).0 ≡ ok true
        → (b ≡ true) × ((committing w outcome j b s).1 ≡ record s { journal = j })
    committing-first committed j b s h = (ground arith, refl)
    committing-first not_written j b s h = cc
    committing-first lost j b s h = cc
    committing-first kept_uncertain j b s h = cc
    committing-first kept_failed j b s h = cc

    write-first :
        (b : Bool) (x : Journal × Option Bool) (s : Session)
        → (if◌then◌else◌ {A = Result Raised Bool × Session} b (err failure, s) (written w x s)).0
          ≡ ok true
        → (x.1 ≡ some true)
          × ((if◌then◌else◌ {A = Result Raised Bool × Session} b (err failure, s) (written w x s)).1
              ≡ record s { journal = x.0; calls = commit_call ∷ s.calls })
    write-first true x s h = cc
    write-first false (j, none) s h = cc
    write-first false (j, some b) s h =
        let (first, moved) =
          committing-first (w.commit s.calls) j b (record s { calls = commit_call ∷ s.calls }) h in
        (ap some first, moved)

    mark-Slack :
        (k : String) (p : Operation) (asked : String) (s : Session)
        → Covered l c o w key op s
        → (write w (mark_spent l c o k p asked) s).0 ≡ ok true
        → Slack k p (write w (mark_spent l c o k p asked) s).1
    mark-Slack k p asked s h done =
        let (first, moved) =
          write-first s.uncertain (mark_spent l c o k p asked s.journal) s done in
        let (before, now) = mark_spent-first l c o k p asked s.journal first in
        subst (Slack k p) (sym moved) (
          row-room k p s.journal (mark_spent l c o k p asked s.journal).0 (creates key op s.calls)
            before now
            (Step-allowance l c o w key op s.journal (mark_spent l c o k p asked s.journal).0
              (mark_spent-Step l c o k p asked s.journal))
            h)

    pub Safe-transmit :
        (r : JournalRecord) (effect : ProtectedEffect) (p : Operation) (asked : String)
        → Safe l c o w key op (transmit l c o w r effect p asked)
    unfolding transmit
    Safe-transmit r effect p asked = record {
      keeps = λ s h.
          let noted : Session = record s { transmission_possible = true } in
          marked-Covered r effect p (write w (mark_spent l c o r.effect_key p asked) noted)
            ((Safe-write l c o w key op (mark_spent l c o r.effect_key p asked)
                (λ j. mark_spent-Step l c o r.effect_key p asked j)).keeps
              noted h)
            (λ first. mark-Slack r.effect_key p asked noted h first);
    }
