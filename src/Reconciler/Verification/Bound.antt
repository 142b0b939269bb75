-- ===== src/Reconciler/Verification/Bound.antt =====
-- What a proof that is not refused binds (verification.py).
use Prim.Native.String.{◌++◌}
use vuoro.Prelude.{
  both_true, String, ◌≡◌, refl, Bool, true, Option, some, List, [], ◌∷◌, all, length, arith,
  nat_eq_iff, leb→le, ◌≤◌,
}
use vuoro.Prelude.Eq.{◌==◌, string_keys, nat_keys, option_keys, option_eq_iff}
use vuoro.Prelude.Result.{ok}
use text.Mathlib.TextEquality.{eq_iff}
use vuoro.Reconciler.Intents.{
  Check, Receipt, Proof, Verification, malformed, proof, Acceptance, EffectIntent,
}
use vuoro.Reconciler.Verification.{checks_pass, receipt_binds, proof_holds, validate_verification}

module _ (is_blank : String → Bool) (sha256 : String → String)
    (receipt_json : Receipt → String) where
  checks_pass-status :
      (names : List String) (checks : List Check)
      → checks_pass is_blank names checks ≡ true
      → all (λ c. c.status == "passed") checks ≡ true
  unfolding checks_pass
  checks_pass-status names [] h = refl
  checks_pass-status names (c ∷ cs) h =
      let (h1, later) = both_true _ _ h in
      let (_, a) = both_true _ (c.status == "passed") h1 in
      rw a (checks_pass-status (c.name ∷ names) cs later)

  -- The receipt is about this intent, in this revision and release, and about its very diff.
  pub record Bound (intent : EffectIntent) (p : Proof) : Type 0 where
    pub same_intent : p.receipt.intent_id ≡ intent.intent_id
    pub same_revision : p.receipt.intent_revision ≡ intent.revision
    pub same_content : p.receipt.canonical_intent_digest ≡ intent.canonical_intent_digest
    pub same_release : some p.receipt.release_digest ≡ intent.release_digest
    pub same_artifact : p.receipt.artifact_digest ≡ "sha256:" ++ sha256 intent.unified_diff
    pub some_check : 1 ≤ length p.receipt.checks
    pub all_passed : all (λ c. c.status == "passed") p.receipt.checks ≡ true

  receipt_binds-Bound :
      (intent : EffectIntent) (p : Proof)
      → receipt_binds is_blank sha256 receipt_json intent p.receipt ≡ true
      → Bound intent p
  unfolding receipt_binds
  receipt_binds-Bound intent p h =
      let (h1, g) = both_true _ _ h in
      let (h2, _) = both_true _ _ h1 in
      let (h3, f) = both_true _ _ h2 in
      let (h4, e) = both_true _ _ h3 in
      let (h5, _) = both_true _ _ h4 in
      let (h6, d) = both_true _ _ h5 in
      let (h7, c) = both_true _ _ h6 in
      let (h8, b) = both_true _ _ h7 in
      let (_, a) = both_true _ _ h8 in
      record {
        same_intent = (eq_iff _ _).0 a;
        same_revision = (nat_eq_iff _ _).0 b;
        same_content = (eq_iff _ _).0 c;
        same_release = (option_eq_iff _ _).0 d;
        same_artifact = (eq_iff _ _).0 e;
        some_check = leb→le _ _ f;
        all_passed = checks_pass-status [] p.receipt.checks g;
      }

  -- The principal who accepted is the one who verified, the receipt is the one whose digest was
  -- recorded, and it is bound to the intent.
  pub record Verified (intent : EffectIntent) (principal : Option String) (p : Proof) : Type 0 where
    pub same_principal : some p.verifier_principal ≡ principal
    pub same_receipt : p.evidence_digest ≡ "sha256:" ++ sha256 (receipt_json p.receipt)
    pub bound : Bound intent p

  proof_holds-Verified :
      (intent : EffectIntent) (principal : Option String) (p : Proof)
      → proof_holds is_blank sha256 receipt_json intent principal p ≡ true
      → Verified intent principal p
  unfolding proof_holds
  proof_holds-Verified intent principal p h =
      let (h1, c) = both_true _ _ h in
      let (h2, b) = both_true _ _ h1 in
      let (h3, _) = both_true _ _ h2 in
      let (h4, _) = both_true _ _ h3 in
      let (h5, _) = both_true _ _ h4 in
      let (_, a) = both_true _ _ h5 in
      record {
        same_principal = (option_eq_iff _ _).0 a;
        same_receipt = (eq_iff _ _).0 c;
        bound = receipt_binds-Bound intent p b;
      }

  -- A verification that passes is a proof bound to the intent: the receipt names the intent, its
  -- revision, its content, its release and the digest of its diff, is itself the one whose digest
  -- was recorded, holds one check at least and only checks that passed, and was made by the principal
  -- who accepted.
  pub validate_verification-Verified :
      (intent : EffectIntent) (a : Acceptance) (v : Verification) (required : Bool)
      → intent.acceptance ≡ some a
      → a.verification ≡ some v
      → validate_verification is_blank sha256 receipt_json intent required ≡ ok tt
      → (p : Proof) × (v ≡ proof p) × Verified intent a.acceptor_principal p
  unfolding validate_verification
  validate_verification-Verified intent a malformed required e k h = ground arith
  validate_verification-Verified intent a (proof p) required e k h =
      (p, refl, proof_holds-Verified intent a.acceptor_principal p (ground arith))
