-- ===== src/Examples/Journal/Calls.antt =====
-- The calls of a publication. The bytes of a document are a word of their own here.
use vuoro.Prelude.{◌≤◌, String, true, none, some, List, [], ◌∷◌}
use vuoro.Prelude.Eq.{string_keys}
use vuoro.Dict.{Dict, get}
use vuoro.Reconciler.Journal.{
  Document, target_document, binding_document, local_document, branch_request, pr_request,
  branch_observation, pr_observation, outcome_document, terminal_document, public_document,
  capability_document, key_document, branch_observed, pr_observed, branch_create, pr_create,
  Journal, Opened,
}
use vuoro.Reconciler.Journal.Copies.{Copies}
use vuoro.Reconciler.Journal.Format.{Library}
use vuoro.Reconciler.Journal.Steps.{
  JournalCall, bind_call, ready_call, spent_call, observed_call, outcome_call, firsts,
}
use vuoro.Examples.Journal.{
  digits, digest, oid, effect, target, binding, local, branch_asked, branch_found, pr_asked,
  pr_found, outcome,
}
use vuoro.Reconciler.Journal.Once.{marked_once}

-- each document's bytes are a word of their own
abbrev pub canonical : Document → String
canonical (target_document t) = "target"
canonical (binding_document b) = "binding"
canonical (local_document v) = "local"
canonical (branch_request v) = "branch-request"
canonical (pr_request v) = "pr-request"
canonical (branch_observation v) = "branch-observation"
canonical (pr_observation v) = "pr-observation"
canonical (outcome_document v) = "outcome"
canonical (terminal_document v) = "terminal"
canonical (public_document v) = "public"
canonical (capability_document v) = "capability"
canonical (key_document n i v) = "key"

abbrev pub texts : Dict String Document
texts =
    ("target", target_document target)
    ∷ ("binding", binding_document binding)
    ∷ ("local", local_document local)
    ∷ ("branch-request", branch_request branch_asked)
    ∷ ("branch-observation", branch_observation branch_found)
    ∷ ("pr-request", pr_request pr_asked)
    ∷ ("pr-observation", pr_observation pr_found)
    ∷ ("outcome", outcome_document outcome)
    ∷ []

abbrev pub library : Library
library = record {
  canonical = canonical;
  parse = λ s. get texts s;
  size = λ s. 1;
  sha256 = λ s. digits;
  b64encode = λ s. s;
  b64decode = λ s. some s;
  urlsplit = λ s. some (record {
    scheme = "https";
    hostname = some "forge.example";
    username = none;
    password = none;
    query = "";
    fragment = "";
  });
}

abbrev pub copies : Copies
copies = record { decode_copy = λ s. some effect; assert_effect = λ e. true }

abbrev pub opened : Opened
opened = record { host_id = "host"; registry_utf8 = "registry" }

abbrev pub empty : Journal
empty = record { host_id = "host"; registry_utf8 = "registry"; records = [] }

abbrev pub bind_it : JournalCall
bind_it = bind_call effect "copy" digest digest "target" oid digest

abbrev pub publication : List JournalCall
publication =
    bind_it
    ∷ ready_call digits "local"
    ∷ spent_call digits branch_create "branch-request"
    ∷ spent_call digits branch_create "branch-request"
    ∷ observed_call digits branch_observed "branch-observation"
    ∷ spent_call digits pr_create "pr-request"
    ∷ observed_call digits pr_observed "pr-observation"
    ∷ outcome_call digits "outcome"
    ∷ []

-- one of the two calls that mark the branch as spent is answered True
marked_once_example : firsts library copies opened digits branch_create publication empty ≤ 1
marked_once_example = marked_once library copies opened digits branch_create publication empty
