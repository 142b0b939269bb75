-- ===== src/Reconciler/Process/Safety.antt =====
-- What a run of the reconciler may do (reconciler.py).
use vuoro.Prelude.{◌≡◌, refl, String, List, [], ◌∷◌, map, arith, inl, inr, Bool-cases}
use vuoro.Prelude.Eq.{string_keys, option_keys, elem}
use vuoro.Prelude.Result.{Result, ok, err}
use vuoro.Reconciler.Intents.{Acceptor, EffectIntent}
use vuoro.Reconciler.Acceptance.{legacy_execution_excluded}
use vuoro.Reconciler.Authorise.{ReconcilerConfig}
use vuoro.Reconciler.World.{
  Call, default_branch_call, applied_call, Outside, Stop, refused, unrecorded, rejected, raised,
  State, Effect, pure, after, ◌>>=◌, refuse_when, ask,
}
use vuoro.Reconciler.Publish.{preflight, refuse_error}
use vuoro.Reconciler.Process.{
  Outcome, Checks, prepare_commit, or_raise, branch_for, applied_outcome, preflight_and_publish,
  guarded, carry_out, process, fail, leave, conclude, process_all, expire, expire_all, run_once,
}

module _ (k : Checks) (config : ReconcilerConfig) (o : Outside) where
  -- The outcome is about the intent.
  record Names {A : Type 0} (P : A → Type 0) (m : Effect A) : Type 0 where
    holds : (s : State) (a : A) → (m s).0 ≡ ok a → P a

  Names-after :
      {A B : Type 0} (P : B → Type 0) (r : Result Stop A × State) (f : A → Effect B)
      → ((a : A) → Names P (f a))
      → (b : B) → (after r f).0 ≡ ok b
      → P b
  Names-after P (ok a, s) f h b e = (h a).holds s b e
  Names-after P (err x, s) f h b e = cc

  Names-bind :
      {A B : Type 0} (P : B → Type 0) (m : Effect A) (f : A → Effect B)
      → ((a : A) → Names P (f a))
      → Names P (m >>= f)
  Names-bind P m f h = record { holds = λ s b e. Names-after P (m s) f h b e }

  abbrev About : EffectIntent → Outcome → Type 0
  About intent out = out.intent_id ≡ intent.intent_id

  applied-Names :
      (intent : EffectIntent) (a : Acceptor) (c : Call) (sha url : String)
      → Names (About intent) (ask c (λ calls. pure (applied_outcome k config o intent a sha url)))
  applied-Names intent a c sha url = record { holds = λ s b e. ground (arith, e) }

  carry_out-Names :
      (intent : EffectIntent) (a : Acceptor) → Names (About intent) (carry_out k config o intent a)
  unfolding carry_out
  carry_out-Names intent a = Names-bind (About intent) (preflight k.validate o intent) _ (λ _.
      Names-bind (About intent)
        (ask (default_branch_call intent.repository)
          (λ calls. or_raise k config o (o.default_branch calls intent.repository)))
        _
        (λ d.
          Names-bind (About intent)
            (refuse_when (elem (branch_for k config o intent) (d ∷ config.protected_branches))
              "branch-is-protected")
            _
            (λ _. Names-bind (About intent) (prepare_commit k config o intent a) _ (λ c.
              Names-bind (About intent)
                (guarded k config o
                  (preflight_and_publish k config o intent (branch_for k config o intent) d c))
                _
                (λ r.
                  applied-Names intent a (applied_call intent.intent_id r.0 r.1.url) r.0
                    r.1.url)))))

  process-Names : (intent : EffectIntent) → Names (About intent) (process k config o intent)
  unfolding process
  process-Names intent =
      elim (Bool-cases (legacy_execution_excluded intent config.protected_repositories)) [
        | inl t ↦ rw t (record { holds = λ s b e. ground arith })
        | inr f ↦ rw f (
            Names-bind (About intent) (refuse_error k.validate o (k.authorise intent))
              (carry_out k config o intent) (carry_out-Names intent))
      ]

  intent_id-conclude :
      (intent : EffectIntent) (r : Result Stop Outcome × State)
      → ((out : Outcome) → r.0 ≡ ok out → About intent out)
      → About intent (conclude k config o intent r).0
  unfolding conclude fail leave
  intent_id-conclude intent (ok out, s) h = h out refl
  intent_id-conclude intent (err (refused r), s) h = refl
  intent_id-conclude intent (err (unrecorded st r), s) h = refl
  intent_id-conclude intent (err rejected, s) h = refl
  intent_id-conclude intent (err (raised n), s) h = refl

  abbrev pub ids : List EffectIntent → List String
  ids = map (λ (i : EffectIntent). i.intent_id)

  abbrev pub outcome_ids : List Outcome → List String
  outcome_ids = map (λ (out : Outcome). out.intent_id)

  -- each outcome stands beside its intent
  abbrev Paired : List EffectIntent → List (EffectIntent × Outcome) → Type 0
  Paired [] [] = Unit
  Paired [] (p ∷ ps) = ⊥
  Paired (i ∷ is) [] = ⊥
  Paired (i ∷ is) ((j, out) ∷ ps) = (j ≡ i) × About i out × Paired is ps

  process_all-Paired :
      (intents : List EffectIntent) (s : State)
      → Paired intents (process_all k config o intents s).0
  unfolding process_all
  process_all-Paired [] s = tt
  process_all-Paired (i ∷ is) s = (
    refl,
    intent_id-conclude i (process k config o i s) ((process-Names i).holds s),
    process_all-Paired is _,
  )

  intent_id-expire :
      (i : EffectIntent) (out : Outcome) (s : State)
      → About i out
      → About i (expire k config o i out s).0
  unfolding expire fail
  intent_id-expire i out s h = ground arith

  expire_all-ids :
      (intents : List EffectIntent) (ps : List (EffectIntent × Outcome)) (s : State)
      → Paired intents ps
      → outcome_ids (expire_all k config o ps s).0 ≡ ids intents
  unfolding expire_all
  expire_all-ids [] [] s h = refl
  expire_all-ids [] (p ∷ ps) s h = absurd h
  expire_all-ids (i ∷ is) [] s h = absurd h
  expire_all-ids (i ∷ is) ((j, out) ∷ ps) s (e, a, h) =
      ground (arith, intent_id-expire j out s, expire_all-ids is ps (expire k config o j out s).1 h)

  -- A run gives one outcome for each intent that was polled, in their order.
  pub one_outcome_each :
      (intents : List EffectIntent) (s : State)
      → outcome_ids (run_once k config o intents s).0 ≡ ids intents
  unfolding run_once
  one_outcome_each intents s =
      expire_all-ids intents (process_all k config o intents _).0 _ (process_all-Paired intents _)
