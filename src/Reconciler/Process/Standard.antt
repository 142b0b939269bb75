-- ===== src/Reconciler/Process/Standard.antt =====
-- The checks that `_process` applies, put together from those of verification.py, diff_policy.py and
-- its own tests, as `_prepare_checkout` and `_preflight` of reconciler.py call them.
use mathlib.Core.List.{Memᴰ}
use vuoro.Prelude.Eq.{elem, string_keys}
use vuoro.Prelude.Members.{elem-Mem}
use vuoro.Prelude.{
  none, some, ℕ, String, ◌≡◌, ◌⊎◌, refl, Bool, false, Option, List, [], ◌∷◌, arith, inl, inr,
  Bool-cases,
}
use vuoro.Prelude.Result.{Result, ok, err, ◌>>=◌, ◌>>◌, refuse_if}
use text.Mathlib.TextEquality.{eq_iff}
use vuoro.Reconciler.Intents.{
  Acceptor, Acceptance, verification_of, EffectIntent, Receipt, CanonicalBody,
}
use vuoro.Reconciler.Verification.{validate_verification}
use vuoro.Reconciler.DiffPolicy.{
  is_unsupported_path, is_git_control_path, check_changes, StagedChange, DiffPolicy,
}
use vuoro.Reconciler.DiffPolicy.Patch.{
  NumstatRow, check_patch_text, check_patch_is_text, patch_paths, check_staged_content,
}
use vuoro.Reconciler.Acceptance.{AutoAcceptConfig, legacy_execution_excluded}
use vuoro.Reconciler.Authorise.{ReconcilerConfig, authorise}
use vuoro.Reconciler.Authorise.Authorised.{Authorised, authorise-Authorised}
use vuoro.Reconciler.World.{Outside, State, refused}
use vuoro.Reconciler.Process.{Outcome, Checks, process, excluded_outcome}

-- what the checks take from Python, from git and from SHA-256
pub record Tools : Type 0 where
  pub lower : String → String
  pub isprintable : String → Bool
  pub is_blank : String → Bool
  pub fnmatch : String → String → Bool
  pub splitlines : String → List String
  pub decode : List ℕ → Option (List ℕ)
  pub sha256 : String → String
  pub sha256_json : CanonicalBody → String
  pub receipt_json : Receipt → String
  pub numstat : String → Result String (List NumstatRow)
  pub is_object_id : String → Bool
  pub is_zero : String → Bool
  pub read_blobs : List String → Result String (String → List ℕ)

module _ (t : Tools) where
  unfoldable pub check_paths : List String → Result String (Unit {0})
  check_paths [] = ok tt
  check_paths (path ∷ paths) = do
    refuse_if (is_unsupported_path path) "unsupported-path"
    refuse_if (is_git_control_path t.lower path) "git-control-file-refused"
    check_paths paths

  unfoldable pub check_patch : String → Result String (Unit {0})
  unfolding check_paths
  check_patch diff = do
    check_patch_text t.splitlines diff
    check_patch_is_text t.splitlines t.numstat diff
    paths ← patch_paths t.splitlines t.numstat diff
    check_paths paths

  unfoldable pub check_staged : List StagedChange → DiffPolicy → Result String (Unit {0})
  check_staged changes policy = do
    check_changes t.lower t.isprintable t.fnmatch changes policy
    check_staged_content t.is_object_id t.is_zero t.read_blobs t.decode changes

  unfoldable pub standard_checks : ReconcilerConfig → Option AutoAcceptConfig → Checks
  unfolding check_patch check_staged
  standard_checks config auto_accept = record {
    validate = λ intent. validate_verification t.is_blank t.sha256 t.receipt_json intent false;
    authorise = authorise t.fnmatch t.sha256_json config auto_accept;
    check_patch = check_patch;
    check_staged = check_staged;
    fnmatch = t.fnmatch;
  }

  result_cases :
      (r : Result String Acceptor) → ((e : String) × (r ≡ err e)) ⊎ ((a : Acceptor) × (r ≡ ok a))
  result_cases (ok a) = inr (a, refl)
  result_cases (err e) = inl (e, refl)

  -- What lets an intent be carried out: its repository is not protected, its acceptance carries no
  -- proof of the protected path, and it is authorised.
  pub record Cleared (config : ReconcilerConfig) (auto_accept : Option AutoAcceptConfig)
      (intent : EffectIntent) : Type 0 where
    pub unprotected : ¬ (Memᴰ intent.repository config.protected_repositories)
    pub no_proof :
        (recorded : Acceptance) → intent.acceptance ≡ some recorded → recorded.verification ≡ none
    pub acceptor : Acceptor
    pub authorised : Authorised t.fnmatch t.sha256_json config auto_accept intent acceptor

  -- An attempt that made no call, and that is excluded or refused.
  pub record Untouched (config : ReconcilerConfig) (auto_accept : Option AutoAcceptConfig)
      (o : Outside) (intent : EffectIntent) (s : State) : Type 0 where
    pub no_call : (process (standard_checks config auto_accept) config o intent s).1 ≡ s
    pub ended :
        ((process (standard_checks config auto_accept) config o intent s).0
          ≡ ok (excluded_outcome (standard_checks config auto_accept) config o intent))
        ⊎ ((reason : String) × ((process (standard_checks config auto_accept) config o intent s).0
              ≡ err (refused reason)))

  not_excluded :
      (intent : EffectIntent) (protected : List String)
      → legacy_execution_excluded intent protected ≡ false
      → (elem intent.repository protected ≡ false) × (verification_of intent.acceptance ≡ none)
  unfolding legacy_execution_excluded
  not_excluded intent protected h = ground arith

  no_proof_lem :
      (o : Option Acceptance)
      → verification_of o ≡ none
      → (recorded : Acceptance) → o ≡ some recorded
      → recorded.verification ≡ none
  unfolding verification_of
  no_proof_lem none h recorded e = cc
  no_proof_lem (some a) h recorded e = ground arith

  process-cases :
      (config : ReconcilerConfig) (auto_accept : Option AutoAcceptConfig) (o : Outside)
      (intent : EffectIntent) (s : State)
      → Cleared config auto_accept intent ⊎ Untouched config auto_accept o intent s
  unfolding process standard_checks
  process-cases config auto_accept o intent s =
      elim (Bool-cases (legacy_execution_excluded intent config.protected_repositories)) [
        | inl x ↦ inr (record { no_call = ground arith; ended = inl (ground arith) })
        | inr x ↦
            elim (result_cases (authorise t.fnmatch t.sha256_json config auto_accept intent)) [
              | inl (e, r) ↦ inr (record { no_call = ground arith; ended = inr (e, ground arith) })
              | inr (a, r) ↦
                  let (free, plain) = not_excluded intent config.protected_repositories x in
                  inl (record {
                    unprotected = elem-Mem intent.repository config.protected_repositories free;
                    no_proof = no_proof_lem intent.acceptance plain;
                    acceptor = a;
                    authorised =
                        authorise-Authorised t.fnmatch t.sha256_json config auto_accept intent a r;
                  })
            ]
      ]

  -- An intent is applied only if its repository is not protected, it carries no proof of the protected
  -- path, and it is authorised: accepted by someone who may accept it, in this very content and
  -- revision, and for a repository on the allowlist.
  pub applied-Authorised :
      (config : ReconcilerConfig) (auto_accept : Option AutoAcceptConfig) (o : Outside)
      (intent : EffectIntent) (s : State) (out : Outcome)
      → (process (standard_checks config auto_accept) config o intent s).0 ≡ ok out
      → out.state ≡ "applied"
      → Cleared config auto_accept intent
  applied-Authorised config auto_accept o intent s out h applied =
      elim (process-cases config auto_accept o intent s) [
        | inl cleared ↦ cleared
        | inr u ↦ elim u.ended [
          | inl e ↦
              let state : out.state ≡ "excluded" = ground arith in
              absurd (ground (arith, eq_iff "applied" "excluded"))
          | inr (reason, e) ↦ absurd (ground arith)
        ]
      ]

  pub unauthorised_touches_nothing :
      (config : ReconcilerConfig) (auto_accept : Option AutoAcceptConfig) (o : Outside)
      (intent : EffectIntent) (s : State)
      → ¬ (Cleared config auto_accept intent)
      → Untouched config auto_accept o intent s
  unauthorised_touches_nothing config auto_accept o intent s h =
      elim (process-cases config auto_accept o intent s) [
        | inl cleared ↦ absurd (h cleared)
        | inr u ↦ u
      ]
