-- ===== src/Examples/Runs.antt =====
-- The intent of Reconciler, and a forge that has nothing of it yet (reconciler.py).
use vuoro.Prelude.{String, Option, sym, ◌+◌, ◌≤◌, ◌≡◌, refl, true, false, none, some, [], ◌∷◌}
use vuoro.Prelude.Eq.{string_keys}
use vuoro.Prelude.Result.{ok}
use vuoro.Dict.{get}
use vuoro.Text.{starts_with, has_code, split, is_intent_id}
use vuoro.Reconciler.Intents.{Acceptor, operator, EffectIntent, canonical_digest}
use vuoro.Reconciler.DiffPolicy.{
  check_changes, is_unsupported_path, is_path_safe, is_git_control_path, is_allowlisted,
  is_protected,
}
use vuoro.Reconciler.DiffPolicy.Content.{check_text}
use vuoro.Reconciler.Verification.{validate_verification, is_digest}
use vuoro.Reconciler.Acceptance.{legacy_execution_excluded}
use vuoro.Reconciler.Authorise.{authorise, policy_current, acceptance_matches, diff_policy_for}
use vuoro.Reconciler.Authorise.Authorised.{MayAccept, an_operator, a_policy}
use vuoro.Reconciler.World.{Outside, State}
use vuoro.Reconciler.World.Calls.{weigh, total}
use vuoro.Reconciler.Process.{Outcome, Checks, process, run_once}
use vuoro.Reconciler.DiffPolicy.Patch.{
  check_patch_text, check_patch_is_text, patch_paths, check_staged_content,
}
use vuoro.Reconciler.Publish.{preflight, publish}
use vuoro.Reconciler.Process.Standard.{
  Tools, standard_checks, applied-Authorised, Cleared, Untouched, unauthorised_touches_nothing,
}
use vuoro.Reconciler.Process.Safety.{one_outcome_each, outcome_ids}
use vuoro.Reconciler.Process.Once.{at_most_once}
use vuoro.Examples.Reconciler.{
  same_text, printable, fnmatch, new_page, intent, config, sha256_json, not_blank, digest_of,
  receipt_json, bytes_are_codes, crlf_text,
}

-- nothing is on the forge yet
abbrev outside : Outside
outside = record {
  preflight = none;
  default_branch = λ calls r. ok "main";
  find_branch = λ calls r b. ok none;
  find_pull_request = λ calls r b. ok none;
  push_branch = λ calls r b c. ok tt;
  open_pull_request = λ calls p. ok (record {
    url = "url";
    base_branch = some "main";
    head_sha = some "c";
    state = "open";
    head_ref = none;
  });
  checkout = λ calls r b. none;
  apply_diff = λ calls i. none;
  staged_changes = λ calls i. ok (new_page ∷ []);
  commit_signed = λ calls i. ok "c";
  ensure_commit = λ calls s r. true;
  verify_commit = λ calls s. true;
  same_change = λ calls s c. true;
  clock = λ calls. 2000;
}

abbrev checks : Checks
checks = record {
  validate = λ i. ok tt;
  authorise = authorise fnmatch sha256_json config none;
  check_patch = λ diff. ok tt;
  check_staged = λ changes p. check_changes same_text printable fnmatch changes p;
  fnmatch = fnmatch;
}

abbrev start : State
start = record { calls = []; deferrals = ("i1", 100) ∷ []; reachable = "repo" ∷ [] }

abbrev by_bob : EffectIntent
by_bob = record intent { acceptor = some (operator "bob") }

at_most_once_example :
    (total (weigh 1 0) (process checks config outside intent start).1.calls
      ≤ total (weigh 1 0) [] + 1)
    × (total (weigh 0 1) (process checks config outside intent start).1.calls
        ≤ total (weigh 0 1) [] + 1)
at_most_once_example = at_most_once checks config outside intent start

one_outcome_each_example :
    outcome_ids checks config outside
      (run_once checks config outside (intent ∷ by_bob ∷ []) start).0
    ≡ "i1" ∷ "i1" ∷ []
one_outcome_each_example = one_outcome_each checks config outside (intent ∷ by_bob ∷ []) start

abbrev tools : Tools
tools = record {
  lower = same_text;
  isprintable = printable;
  is_blank = not_blank;
  fnmatch = fnmatch;
  splitlines = λ s. s ∷ [];
  decode = bytes_are_codes;
  sha256 = digest_of;
  sha256_json = sha256_json;
  receipt_json = receipt_json;
  numstat = λ diff. ok [];
  is_object_id = λ i. true;
  is_zero = λ i. false;
  read_blobs = λ ids. ok (λ i. crlf_text);
}

abbrev applied : Outcome
applied = record {
  intent_id = "i1";
  state = "applied";
  commit_sha = some "c";
  pr_url = some "url";
  reason = none;
  acceptor = some (operator "alice");
}

applied-Authorised_example : Cleared tools config none intent
unfolding process standard_checks authorise policy_current is_intent_id acceptance_matches is_digest
    canonical_digest legacy_execution_excluded preflight validate_verification check_patch_text
    has_code starts_with check_patch_is_text patch_paths check_changes is_unsupported_path
    is_path_safe split is_git_control_path is_protected is_allowlisted diff_policy_for get
    check_staged_content check_text publish
applied-Authorised_example =
    applied-Authorised tools config none outside intent start applied refl refl

bob_may_not_lem :
    (a : Acceptor)
    → by_bob.acceptor ≡ some a
    → MayAccept fnmatch sha256_json config none by_bob a
    → ⊥
bob_may_not_lem _ e (an_operator subject different) = different (sym (text_of subject e))
  where
    text_of :
        (subject : String)
        → ◌≡◌ {A = Option Acceptor} (some (operator "bob")) (some (operator subject))
        → "bob" ≡ subject
    text_of subject e = cc
bob_may_not_lem _ e (a_policy p now f u c) = cc

bob_not-Cleared : ¬ (Cleared tools config none by_bob)
bob_not-Cleared c = bob_may_not_lem c.acceptor c.authorised.accepted c.authorised.may

unauthorised_touches_nothing_example : Untouched tools config none outside by_bob start
unauthorised_touches_nothing_example =
    unauthorised_touches_nothing tools config none outside by_bob start bob_not-Cleared
