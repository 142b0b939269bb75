-- ===== src/Reconciler/Publish/AtMostOnce.antt =====
-- `_publish` pushes once and opens one pull request at most (reconciler.py).
use vuoro.Prelude.{
  ℕ, ◌+◌, String, Bool, Option, none, some, List, ◌&&◌, ◌||◌, not, arith, inl, inr, Bool-cases,
}
use vuoro.Prelude.Eq.{◌==◌, string_keys, option_keys}
use vuoro.Prelude.Result.{Result, ok, err}
use vuoro.Reconciler.Intents.{EffectIntent}
use vuoro.Reconciler.World.{
  PullRequestResult, Call, Failure, credential_rejected, already_exists, other, Outside,
  PreflightAnswer, current, refuses, raises, Effect, refused, ◌>>=◌, ◌>>◌, refuse_when,
}
use vuoro.Reconciler.World.Calls.{
  weigh, Adds, Adds-pure, Adds-stop, Adds-refuse_when, Adds-ask, Adds-bind, Adds-more,
}
use vuoro.Reconciler.Publish.{
  preflight, source_preflight, refuse_error, answer_or_refuse, looked_up, find_branch,
  find_pull_request, require_own_commit, refuse_closed, adopt, accept_found, push_new, open_new,
  finish, publish, pushed, none_yet, opened, push_if_missing, request_of, or_text,
}

module _ (per_push per_open : ℕ) (validate : EffectIntent → Result String (Unit {0}))
    (o : Outside) where
  abbrev Quiet : {A : Type 0} → Effect A → Type 0
  Quiet m = Adds (weigh per_push per_open) 0 m

  Quiet-bind :
      {A B : Type 0} (m : Effect A) (f : A → Effect B)
      → Quiet m
      → ((a : A) → Quiet (f a))
      → Quiet (m >>= f)
  Quiet-bind m f h g = Adds-bind (weigh per_push per_open) 0 0 m f h g

  Quiet-refuse :
      {A : Type 0} (b : Bool) (reason : String) (m : Effect A)
      → Quiet m
      → Quiet (refuse_when b reason >> m)
  Quiet-refuse b reason m h =
      Quiet-bind (refuse_when b reason) (λ _. m)
        (Adds-refuse_when (weigh per_push per_open) b reason) (λ _. h)

  -- a piece after another, of the weights together
  in_turn :
      {B : Type 0} (n k : ℕ) (m : Effect (Unit {0})) (f : Effect B)
      → Adds (weigh per_push per_open) n m
      → Adds (weigh per_push per_open) k f
      → Adds (weigh per_push per_open) (n + k) (m >> f)
  in_turn n k m f h g = Adds-bind (weigh per_push per_open) n k m (λ _. f) h (λ _. g)

  refuse_error-Quiet : {A : Type 0} (r : Result String A) → Quiet (refuse_error validate o r)
  refuse_error-Quiet (ok a) = record { bound = λ s. omega arith }
  refuse_error-Quiet (err e) = record { bound = λ s. omega arith }

  answer_or_refuse-Quiet : (r : PreflightAnswer) → Quiet (answer_or_refuse validate o r)
  answer_or_refuse-Quiet current = record { bound = λ s. omega arith }
  answer_or_refuse-Quiet (refuses e) = record { bound = λ s. omega arith }
  answer_or_refuse-Quiet (raises e) = record { bound = λ s. omega arith }

  source_preflight-Quiet :
      (check : Option (List Call → EffectIntent → PreflightAnswer)) (intent : EffectIntent)
      → Quiet (source_preflight validate o check intent)
  unfolding source_preflight
  source_preflight-Quiet none intent = Adds-refuse_when (weigh per_push per_open) _ _
  source_preflight-Quiet (some check) intent =
      Adds-ask (weigh per_push per_open) 0 _ _
        (λ calls. answer_or_refuse-Quiet (check calls intent))

  pub preflight-Quiet : (intent : EffectIntent) → Quiet (preflight validate o intent)
  unfolding preflight
  preflight-Quiet intent =
      Quiet-bind (refuse_error validate o (validate intent)) _
        (refuse_error-Quiet (validate intent)) (λ _. source_preflight-Quiet o.preflight intent)

  looked_up-Quiet :
      {A : Type 0} (r : String) (a : Result Failure A) → Quiet (looked_up validate o r a)
  looked_up-Quiet r (ok a) = record { bound = λ s. omega arith }
  looked_up-Quiet r (err credential_rejected) = record { bound = λ s. omega arith }
  looked_up-Quiet r (err already_exists) = record { bound = λ s. omega arith }
  looked_up-Quiet r (err (other e)) = record { bound = λ s. omega arith }

  find_branch-Quiet : (r b : String) → Quiet (find_branch validate o r b)
  unfolding find_branch
  find_branch-Quiet r b =
      Adds-ask (weigh per_push per_open) 0 _ _
        (λ calls. looked_up-Quiet r (o.find_branch calls r b))

  find_pull_request-Quiet : (r b : String) → Quiet (find_pull_request validate o r b)
  unfolding find_pull_request
  find_pull_request-Quiet r b =
      Adds-ask (weigh per_push per_open) 0 _ _
        (λ calls. looked_up-Quiet r (o.find_pull_request calls r b))

  require_own_commit-Quiet :
      (reason ref sha c : String) → Quiet (require_own_commit validate o reason ref sha c)
  unfolding require_own_commit
  require_own_commit-Quiet reason ref sha c = record {
    bound = λ s. (Adds-refuse_when (weigh per_push per_open) _ reason).bound s;
  }

  refuse_closed-Quiet :
      (pr : Option PullRequestResult) (b c : String) → Quiet (refuse_closed validate o pr b c)
  unfolding refuse_closed
  refuse_closed-Quiet none b c = Adds-pure (weigh per_push per_open) tt
  refuse_closed-Quiet (some pr) b c = elim (Bool-cases (pr.state == "closed")) [
    | inl t ↦ rw t (
        Quiet-bind _ _ (require_own_commit-Quiet _ _ _ c)
          (λ _. Adds-stop (weigh per_push per_open) (Unit {0}) (refused "pull-request-closed")))
    | inr f ↦ rw f (Adds-pure (weigh per_push per_open) tt)
  ]

  adopt-Quiet :
      (e : Option String) (pr : Option PullRequestResult) (b d c : String)
      → Quiet (adopt validate o e pr b d c)
  unfolding adopt
  adopt-Quiet (some e) pr b d c =
      Quiet-bind _ _ (require_own_commit-Quiet _ _ e c) (λ _. Adds-pure (weigh per_push per_open) e)
  adopt-Quiet none none b d c = Adds-pure (weigh per_push per_open) c
  adopt-Quiet none (some pr) b d c =
      elim (Bool-cases (pr.state == "merged" && not (or_text validate o pr.head_sha "" == ""))) [
        | inl t ↦ rw t (
            Quiet-bind _ _ (require_own_commit-Quiet _ _ _ c)
              (λ _. Adds-pure (weigh per_push per_open) _))
        | inr f ↦ rw f (Adds-pure (weigh per_push per_open) c)
      ]

  accept_found-Quiet :
      (pr : PullRequestResult) (d c : String) → Quiet (accept_found validate o pr d c)
  unfolding accept_found
  accept_found-Quiet pr d c =
      Quiet-refuse (not (pr.state == "open" || pr.state == "merged")) "pull-request-mismatch" _ (
        Quiet-refuse (not (pr.base_branch == some d) || not (pr.head_sha == some c))
          "pull-request-mismatch" _ (Adds-pure (weigh per_push per_open) (c, pr)))

  pushed-Quiet : (r : Result Failure (Unit {0})) → Quiet (pushed validate o r)
  pushed-Quiet (ok u) = record { bound = λ s. omega arith }
  pushed-Quiet (err credential_rejected) = record { bound = λ s. omega arith }
  pushed-Quiet (err already_exists) = record { bound = λ s. omega arith }
  pushed-Quiet (err (other e)) = record { bound = λ s. omega arith }

  none_yet-Quiet : (r : Option PullRequestResult) → Quiet (none_yet validate o r)
  none_yet-Quiet none = record { bound = λ s. omega arith }
  none_yet-Quiet (some p) = record { bound = λ s. omega arith }

  opened-Quiet : (r : Result Failure PullRequestResult) → Quiet (opened validate o r)
  opened-Quiet (ok u) = record { bound = λ s. omega arith }
  opened-Quiet (err credential_rejected) = record { bound = λ s. omega arith }
  opened-Quiet (err already_exists) = record { bound = λ s. omega arith }
  opened-Quiet (err (other e)) = record { bound = λ s. omega arith }

  push_new-Adds :
      (intent : EffectIntent) (b c : String)
      → Adds (weigh per_push per_open) per_push (push_new validate o intent b c)
  unfolding push_new
  push_new-Adds intent b c =
      Adds-more (weigh per_push per_open) _ per_push _
        (in_turn 0 _ _ _ (preflight-Quiet intent) (
          in_turn (per_push + 0) 0 _ _
            (Adds-ask (weigh per_push per_open) 0 _ _
              (λ calls. pushed-Quiet (o.push_branch calls intent.repository b c)))
            (Quiet-bind _ _ (find_pull_request-Quiet intent.repository b) none_yet-Quiet)))
        (omega arith)

  push_if_missing-Adds :
      (e : Option String) (intent : EffectIntent) (b c : String)
      → Adds (weigh per_push per_open) per_push (push_if_missing validate o e intent b c)
  push_if_missing-Adds (some e) intent b c =
      Adds-more (weigh per_push per_open) 0 per_push _ (Adds-pure (weigh per_push per_open) tt)
        (omega arith)
  push_if_missing-Adds none intent b c = push_new-Adds intent b c

  open_new-Adds :
      (intent : EffectIntent) (b d : String)
      → Adds (weigh per_push per_open) per_open (open_new validate o intent b d)
  unfolding open_new
  open_new-Adds intent b d =
      Adds-more (weigh per_push per_open) _ per_open _
        (in_turn 0 _ _ _ (preflight-Quiet intent) (
          Adds-ask (weigh per_push per_open) 0 _ _
            (λ calls. opened-Quiet (o.open_pull_request calls (request_of validate o intent b d)))))
        (omega arith)

  finish-Adds :
      (e : Option String) (pr : Option PullRequestResult) (intent : EffectIntent) (b d c : String)
      → Adds (weigh per_push per_open) (per_push + per_open) (finish validate o e pr intent b d c)
  unfolding finish
  finish-Adds e (some pr) intent b d c =
      Adds-more (weigh per_push per_open) 0 _ _ (accept_found-Quiet pr d c) (omega arith)
  finish-Adds e none intent b d c =
      Adds-more (weigh per_push per_open) _ _ _
        (in_turn per_push (per_open + 0) _ _ (push_if_missing-Adds e intent b c) (
          Adds-bind (weigh per_push per_open) per_open 0 _ _ (open_new-Adds intent b d)
            (λ pr. Adds-pure (weigh per_push per_open) (c, pr))))
        (omega arith)

  pub publish-Adds :
      (intent : EffectIntent) (b d c : String)
      → Adds (weigh per_push per_open) (per_push + per_open) (publish validate o intent b d c)
  unfolding publish
  publish-Adds intent b d c =
      Adds-more (weigh per_push per_open) _ _ _
        (Adds-bind (weigh per_push per_open) 0 _ _ _ (find_branch-Quiet intent.repository b) (λ e.
          Adds-bind (weigh per_push per_open) 0 _ _ _ (find_pull_request-Quiet intent.repository b)
            (λ pr. in_turn 0 _ _ _ (refuse_closed-Quiet pr b c) (
              Adds-bind (weigh per_push per_open) 0 (per_push + per_open) _ _
                (adopt-Quiet e pr b d c) (λ a. finish-Adds e pr intent b d a)))))
        (omega arith)
