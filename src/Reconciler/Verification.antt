-- ===== src/Reconciler/Verification.antt =====
-- packages/vuoro-reconciler/src/vuoro_reconciler/verification.py. SHA-256 is the parameter `sha256`,
-- the canonical JSON of a receipt `receipt_json`; `is_blank s` is Python's `not s.strip()`.
pub mod Bound
use Prim.Native.Char.{code}
use Prim.Native.String.{String, [], ◌∷◌, count, ◌++◌}
use vuoro.Prelude.{
  ℕ, Bool, true, false, Option, none, some, List, ◌&&◌, ◌||◌, not, is_some, any, length, ltb, leb,
  nat_eq, if◌then◌else◌,
}
use mathlib.Core.List.{[] as []ᴸ, ◌∷◌ as ◌∷ᴸ◌}
use vuoro.Prelude.Eq.{◌==◌, string_keys, nat_keys, option_keys, elem}
use vuoro.Prelude.Result.{Result, ok, err}
use vuoro.Text.{starts_with, drop_text}
use vuoro.Reconciler.Intents.{
  Check, Receipt, Proof, Verification, malformed, proof, Acceptance, EffectIntent, verification_of,
}

abbrev is_hex : ℕ → Bool
is_hex n = (leb 48 n && leb n 57) || (leb 97 n && leb n 102)

abbrev all_hex : String → Bool
all_hex [] = true
all_hex (c ∷ s) = is_hex (code c) && all_hex s

-- re.fullmatch(r"[0-9a-f]{64}", s)
unfoldable pub is_digest : String → Bool
is_digest s = nat_eq (count s) 64 && all_hex s

-- _SHA.fullmatch(s)
unfoldable pub is_sha : String → Bool
unfolding is_digest
is_sha s = starts_with s "sha256:" && is_digest (drop_text 7 s)

module _ (is_blank : String → Bool) where
  -- the loop over the checks, with the names seen
  unfoldable pub checks_pass : List String → List Check → Bool
  unfolding is_sha
  checks_pass names []ᴸ = true
  checks_pass names (check ∷ᴸ checks) =
      let rest = checks_pass (check.name ∷ᴸ names) checks in
      not (is_blank check.name)
      && leb (count check.name) 200
      && not (elem check.name names)
      && is_sha check.revision
      && (check.status == "passed")
      && rest

  module _ (sha256 : String → String) (receipt_json : Receipt → String) where
    unfoldable pub receipt_binds : EffectIntent → Receipt → Bool
    unfolding checks_pass
    receipt_binds intent detail =
        (detail.schema == "sprintctl-protected-artifact-verification/v1")
        && (detail.intent_id == intent.intent_id)
        && nat_eq detail.intent_revision intent.revision
        && (detail.canonical_intent_digest == intent.canonical_intent_digest)
        && (some detail.release_digest == intent.release_digest)
        && (detail.artifact_domain == "utf8-unified-diff/v1")
        && (detail.artifact_digest == "sha256:" ++ sha256 intent.unified_diff)
        && leb 1 (length detail.checks)
        && leb (length detail.checks) 64
        && checks_pass []ᴸ detail.checks

    unfoldable pub proof_holds : EffectIntent → Option String → Proof → Bool
    unfolding receipt_binds
    proof_holds intent acceptor_principal p =
        is_some intent.release_digest
        && (some p.verifier_principal == acceptor_principal)
        && not (
            p.run_id == "" || p.item_id == "" || p.workspace_id == "" || p.verifier_principal == "")
        && is_sha p.evidence_digest
        && is_sha p.entry_digest
        && receipt_binds intent p.receipt
        && (p.evidence_digest == "sha256:" ++ sha256 (receipt_json p.receipt))

    unfoldable pub validate_proof :
        EffectIntent → Option String → Option Verification → Bool → Result String (Unit {0})
    unfolding proof_holds
    validate_proof intent principal none required =
        if required then err "effect-verification-required" else ok tt
    validate_proof intent principal (some malformed) required = err "effect-verification-refused"
    validate_proof intent principal (some (proof p)) required =
        if proof_holds intent principal p then ok tt else err "effect-verification-refused"

    abbrev principal_of : Option Acceptance → Option String
    principal_of none = none
    principal_of (some a) = a.acceptor_principal

    unfoldable pub validate_verification : EffectIntent → Bool → Result String (Unit {0})
    unfolding validate_proof verification_of
    validate_verification intent required =
        validate_proof intent (principal_of intent.acceptance) (verification_of intent.acceptance)
          required
