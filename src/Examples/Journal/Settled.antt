-- ===== src/Examples/Journal/Settled.antt =====
-- A journal whose publication is settled, and one that is only bound.
use vuoro.Prelude.{true, false, none, some, List, [], ◌∷◌, ◌≡◌, refl}
use vuoro.Prelude.Eq.{string_keys}
use vuoro.Dict.{get, put}
use vuoro.Reconciler.Journal.{
  binding_document, local_document, branch_request, pr_request, branch_observation, pr_observation,
  outcome_document, kind_keys, bound, local_ready, branch_possible, pr_possible, branch_observed,
  pr_observed, applied, JournalEvent, branch_create, pr_create, Rows, Journal,
}
use vuoro.Reconciler.Journal.Verify.{Verified, verify}
use vuoro.Reconciler.Journal.Operations.{append, append_rows, settle}
use vuoro.Reconciler.Journal.Steps.{run}
use vuoro.Text.{starts_with, split}
use vuoro.Reconciler.Journal.Format.{
  read, hash, b64, is_digest, is_fingerprint, is_branch, is_artifact, is_integer, is_text, is_url,
}
use vuoro.Reconciler.Journal.Payload.{
  payload, accepts_local, accepts_branch_observation, accepts_branch_request, accepts_conflict,
  accepts_outcome, accepts_pr_observation, accepts_pr_request, accepts_refused,
}
use vuoro.Reconciler.Journal.Bindings.{effect_key, make_binding, body_of, public_binding}
use vuoro.Reconciler.Journal.Verify.{verify_binding, walk, check_event, admit, validate_all}
use vuoro.Reconciler.Journal.History.{settled_stays, Grows, run-Grows}
use vuoro.Reconciler.Journal.Published.{Published, applied-Published}
use vuoro.Reconciler.Journal.Recorded.{append-append_rows, admitted-recorded}
use vuoro.Examples.Journal.Calls.{library, copies, opened, empty, publication}
use vuoro.Examples.Journal.{
  digits, effect, binding, local, branch_asked, branch_found, pr_asked, pr_found, outcome,
}

abbrev event_list : List JournalEvent
event_list =
    record { seq = 0; event_type = bound; payload_utf8 = "binding" }
    ∷ record { seq = 1; event_type = local_ready; payload_utf8 = "local" }
    ∷ record { seq = 2; event_type = branch_possible; payload_utf8 = "branch-request" }
    ∷ record { seq = 3; event_type = branch_observed; payload_utf8 = "branch-observation" }
    ∷ record { seq = 4; event_type = pr_possible; payload_utf8 = "pr-request" }
    ∷ record { seq = 5; event_type = pr_observed; payload_utf8 = "pr-observation" }
    ∷ record { seq = 6; event_type = applied; payload_utf8 = "outcome" }
    ∷ []

abbrev published_rows : Rows
published_rows = record {
  binding_utf8 = "binding";
  protected_copy_utf8 = "copy";
  events = event_list;
  spent = (branch_create, "branch-request") ∷ (pr_create, "pr-request") ∷ [];
  outcome_utf8 = some "outcome";
}

abbrev published : Journal
published = record empty { records = (digits, published_rows) ∷ [] }

abbrev bound_rows : Rows
bound_rows = record {
  binding_utf8 = "binding";
  protected_copy_utf8 = "copy";
  events = record { seq = 0; event_type = bound; payload_utf8 = "binding" } ∷ [];
  spent = [];
  outcome_utf8 = none;
}

abbrev bound_journal : Journal
bound_journal = record empty { records = (digits, bound_rows) ∷ [] }

abbrev published_verified : Verified
published_verified = record {
  seen =
      (bound, binding_document binding)
      ∷ (local_ready, local_document local)
      ∷ (branch_possible, branch_request branch_asked)
      ∷ (branch_observed, branch_observation branch_found)
      ∷ (pr_possible, pr_request pr_asked)
      ∷ (pr_observed, pr_observation pr_found)
      ∷ (applied, outcome_document outcome)
      ∷ [];
  effect = effect;
  binding = binding;
}

abbrev bound_verified : Verified
bound_verified = record {
  seen = (bound, binding_document binding) ∷ [];
  effect = effect;
  binding = binding;
}

found_published : get published.records digits ≡ some published_rows
unfolding get
found_published = refl

verify_published :
    verify library copies opened (record { effect_key = digits; rows = published_rows })
    ≡ some published_verified
unfolding verify verify_binding read get effect_key make_binding is_digest starts_with hash
    is_fingerprint is_branch split walk check_event put admit payload accepts_local b64 is_artifact
    is_integer is_text is_url accepts_branch_observation accepts_branch_request accepts_conflict
    accepts_outcome accepts_pr_observation accepts_pr_request accepts_refused body_of public_binding
verify_published = refl

settled_stays_example :
    get (run library copies opened publication published).records digits ≡ some published_rows
unfolding get
settled_stays_example =
    settled_stays library copies opened publication published digits published_rows
      published_verified found_published verify_published refl

applied-Published_example : Published published_verified.seen
unfolding get
applied-Published_example =
    applied-Published library copies opened (record { effect_key = digits; rows = published_rows })
      published_verified (outcome_document outcome) verify_published refl

found_bound : get bound_journal.records digits ≡ some bound_rows
unfolding get
found_bound = refl

run-Grows_example :
    (next : Rows) × (get (run library copies opened publication bound_journal).records digits
      ≡ some next)
    × Grows bound_rows next
run-Grows_example =
    run-Grows library copies opened publication bound_journal digits bound_rows found_bound

verify_bound :
    verify library copies opened (record { effect_key = digits; rows = bound_rows })
    ≡ some bound_verified
unfolding verify verify_binding read get effect_key make_binding is_digest starts_with hash
    is_fingerprint is_branch split walk check_event put admit payload accepts_local b64 is_artifact
    is_integer is_text is_url accepts_branch_observation accepts_branch_request accepts_conflict
    accepts_outcome accepts_pr_observation accepts_pr_request accepts_refused body_of public_binding
verify_bound = refl

validate_bound : validate_all library copies opened bound_journal ≡ true
unfolding verify verify_binding read get effect_key make_binding is_digest starts_with hash
    is_fingerprint is_branch split walk check_event put admit payload accepts_local b64 is_artifact
    is_integer is_text is_url accepts_branch_observation accepts_branch_request accepts_conflict
    accepts_outcome accepts_pr_observation accepts_pr_request accepts_refused body_of public_binding
    validate_all
validate_bound = refl

admit_local :
    admit library
      (record { effect_key = digits; rows = bound_rows })
      effect
      binding
      bound_verified.seen
      local_ready
      "local"
    ≡ some (local_document local)
unfolding verify verify_binding read get effect_key make_binding is_digest starts_with hash
    is_fingerprint is_branch split walk check_event put admit payload accepts_local b64 is_artifact
    is_integer is_text is_url accepts_branch_observation accepts_branch_request accepts_conflict
    accepts_outcome accepts_pr_observation accepts_pr_request accepts_refused body_of public_binding
admit_local = refl

append-append_rows_example :
    append library copies opened digits local_ready "local" none false bound_journal
    ≡ settle bound_journal
        (append_rows library copies opened digits local_ready "local" none false bound_journal)
append-append_rows_example =
    append-append_rows library copies opened bound_journal digits local_ready "local" refl
      validate_bound

admitted-recorded_example :
    ((append library copies opened digits local_ready "local" none false bound_journal).1
      ≡ some true)
    × (validate_all library copies opened
          (append library copies opened digits local_ready "local" none false bound_journal).0
        ≡ true)
    × ((next : Rows) × (get
            (append library copies opened digits local_ready "local" none false
              bound_journal).0.records
            digits
          ≡ some next)
        × (verify library copies opened (record { effect_key = digits; rows = next })
            ≡ some (record bound_verified {
              seen = put bound_verified.seen local_ready (local_document local);
            })))
unfolding get
admitted-recorded_example =
    admitted-recorded library copies opened bound_journal digits local_ready "local" bound_rows
      bound_verified (local_document local) refl validate_bound found_bound verify_bound refl refl
      admit_local
