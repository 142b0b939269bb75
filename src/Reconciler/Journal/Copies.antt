-- ===== src/Reconciler/Journal/Copies.antt =====
-- The effect that a protected copy holds (protected_effects.py), with the fields that the journal, the
-- executor and the currentness check read; what they read inside a stored JSON text stands beside it.
-- The decoder of copies is a part of its own, so `Copies` is what it answers.
use vuoro.Prelude.{ℕ, String, Bool, refl, Option}
use vuoro.Prelude.Eq.{Equality, encoded, pair_keys, string_keys, nat_keys, option_keys}

-- the documents of the run, the work and the release, and the parameters of the intent
pub record NativeRun : Type 0 where
  pub run_id : String
  pub principal_id : String
  pub client_id : Option String
  pub grant_id : Option String

pub record Parameters : Type 0 where
  pub item_id : ℕ
  pub repository : String
  pub base_commit : String
  pub title : String
  pub rationale : String
  pub unified_diff : String

pub record ReleaseCopy : Type 0 where
  pub work_item_id : ℕ
  pub aggregate_uuid : String
  pub item_revision : String
  pub release_digest : String
  pub native_acceptance_contract : String
  pub native_context_refs : String

pub record WorkCopy : Type 0 where
  pub work_item_id : ℕ
  pub edit_revision : String

pub record Acceptance : Type 0 where
  pub acceptance_id : String
  pub preparation_id : String
  pub accepted_at : String
  pub signature_sha256 : String
  pub challenge_sha256 : String

pub record ProtectedEffect : Type 0 where
  -- the namespace
  pub namespace_utf8 : String
  pub workspace_id : String
  pub repo_id : String
  -- the locator
  pub locator_utf8 : String
  pub intent_id : String
  pub intent_revision : ℕ
  -- the canonical document's evidence references, and its hash
  pub evidence_refs_utf8 : String
  pub canonical_hash : String
  pub legacy_content_digest : String
  pub repository : String
  pub source_run : String
  pub parameters : Parameters
  pub native_run : NativeRun
  pub work : WorkCopy
  pub release : ReleaseCopy
  pub acceptance_revision : ℕ
  pub acceptance : Acceptance
  pub receipt_id : String

-- equality of a record through the pairs of its fields
instance abbrev pub parameters_keys : Equality Parameters
parameters_keys =
    encoded
      (λ p. (p.item_id, (p.repository, (p.base_commit, (p.title, (p.rationale, p.unified_diff))))))
      (λ (i, (r, (b, (t, (m, d))))). record {
        item_id = i;
        repository = r;
        base_commit = b;
        title = t;
        rationale = m;
        unified_diff = d;
      })
      (λ p. refl)

instance abbrev pub native_run_keys : Equality NativeRun
native_run_keys =
    encoded (λ n. (n.run_id, (n.principal_id, (n.client_id, n.grant_id))))
      (λ (r, (p, (c, g))). record { run_id = r; principal_id = p; client_id = c; grant_id = g })
      (λ n. refl)

instance abbrev pub release_keys : Equality ReleaseCopy
release_keys =
    encoded
      (λ r. (
        r.work_item_id,
        (
          r.aggregate_uuid,
          (
            r.item_revision,
            (r.release_digest, (r.native_acceptance_contract, r.native_context_refs)),
          ),
        ),
      ))
      (λ (w, (a, (i, (d, (c, x))))). record {
        work_item_id = w;
        aggregate_uuid = a;
        item_revision = i;
        release_digest = d;
        native_acceptance_contract = c;
        native_context_refs = x;
      })
      (λ r. refl)

instance abbrev pub work_keys : Equality WorkCopy
work_keys =
    encoded (λ w. (w.work_item_id, w.edit_revision))
      (λ (i, e). record { work_item_id = i; edit_revision = e }) (λ w. refl)

instance abbrev pub acceptance_keys : Equality Acceptance
acceptance_keys =
    encoded
      (λ a. (
        a.acceptance_id,
        (a.preparation_id, (a.accepted_at, (a.signature_sha256, a.challenge_sha256))),
      ))
      (λ (i, (p, (t, (s, c)))). record {
        acceptance_id = i;
        preparation_id = p;
        accepted_at = t;
        signature_sha256 = s;
        challenge_sha256 = c;
      })
      (λ a. refl)

-- `==` of the frozen dataclass
instance abbrev pub effect_keys : Equality ProtectedEffect
effect_keys =
    encoded
      (λ e. (
        (
          (e.namespace_utf8, (e.workspace_id, e.repo_id)),
          (e.locator_utf8, (e.intent_id, e.intent_revision)),
        ),
        (
          (
            (e.evidence_refs_utf8, (e.canonical_hash, e.legacy_content_digest)),
            (e.repository, e.source_run),
          ),
          (
            ((e.parameters, e.native_run), (e.work, e.release)),
            ((e.acceptance_revision, e.acceptance), e.receipt_id),
          ),
        ),
      ))
      (λ (((n, (w, r)), (l, (i, v))), (((x, (c, d)), (p, s)), (((m, u), (k, z)), ((a, b), y)))).
        record {
          namespace_utf8 = n;
          workspace_id = w;
          repo_id = r;
          locator_utf8 = l;
          intent_id = i;
          intent_revision = v;
          evidence_refs_utf8 = x;
          canonical_hash = c;
          legacy_content_digest = d;
          repository = p;
          source_run = s;
          parameters = m;
          native_run = u;
          work = k;
          release = z;
          acceptance_revision = a;
          acceptance = b;
          receipt_id = y;
        })
      (λ e. refl)

pub record Copies : Type 0 where
  -- `decode_protected_copy` with what `_decode_copy` reads from the copy itself
  pub decode_copy : String → Option ProtectedEffect
  -- `_assert_effect_data`
  pub assert_effect : ProtectedEffect → Bool
