-- ===== src/Reconciler/Executor/Requests.antt =====
-- What the executor asks of the provider and how it reads an answer: `_events`, `_request`,
-- `_provider_result`, and the documents of `_terminal` and `_applied`.
use vuoro.Prelude.{
  String, Bool, true, false, Option, none, some, List, [], ◌∷◌, not, ◌&&◌, ◌||◌, is_some,
  if◌then◌else◌,
}
use Prim.Native.String.{◌++◌}
use vuoro.Prelude.Eq.{◌==◌, string_keys}
use vuoro.Dict.{get, put}
use vuoro.Reconciler.Journal.{
  Binding, LocalReady, BranchRequest, PrRequest, Document, branch_request, pr_request,
  terminal_document, outcome_document, capability_document, Kind, branch_possible, pr_possible,
  branch_observed, pr_observed, bound, kind_keys, Operation, branch_create, pr_create,
  operation_keys, operation_event, JournalEvent, JournalRecord,
}
use vuoro.Reconciler.Journal.Copies.{ProtectedEffect}
use vuoro.Reconciler.Journal.Format.{Library, ◌>>=◌, ◌>>◌, need, hash, read}
use vuoro.Reconciler.Journal.Payload.{payload}
use vuoro.Reconciler.Journal.Bindings.{
  Seen, as_binding, seen_local, seen_pr_observation, body_of, operation_text,
}
use vuoro.Reconciler.Executor.{ProviderResult}

-- what a provider is asked to do: the capability check, the lookup of an operation, or the operation
pub data ProviderOperation : Type 0 where
  capability_check : ProviderOperation
  lookup_of create_of : Operation → ProviderOperation

abbrev pub provider_text : ProviderOperation → String
provider_text capability_check = "capability-check"
provider_text (lookup_of branch_create) = "branch-lookup"
provider_text (lookup_of pr_create) = "pr-lookup"
provider_text (create_of op) = operation_text op

abbrev pub observed_kind : Operation → Kind
observed_kind branch_create = branch_observed
observed_kind pr_create = pr_observed

-- the statuses that are allowed
abbrev pub is_allowed : ProviderOperation → String → Bool
is_allowed capability_check s = s == "CAPABILITY_PRESENT" || s == "UNKNOWN" || s == "REFUSED"
is_allowed (lookup_of op) s =
    s == "ABSENT" || s == "OBSERVED" || s == "UNKNOWN" || s == "CONFLICT" || s == "REFUSED"
is_allowed (create_of op) s =
    s == "TRANSMISSION_POSSIBLE" || s == "UNKNOWN" || s == "CONFLICT" || s == "REFUSED"

module _ (l : Library) where
  unfoldable pub read_events : List JournalEvent → Seen → Option Seen
  read_events [] seen = some seen
  read_events (e ∷ es) seen =
      read l e.payload_utf8 65536 >>= λ value. read_events es (put seen e.event_type value)

  -- _events
  unfoldable pub events_of : JournalRecord → Option Seen
  events_of r = read_events r.rows.events []

  module _ (r : JournalRecord) (effect : ProtectedEffect) where
    abbrev branch_request_of : Binding → LocalReady → BranchRequest
    branch_request_of binding local = record {
      effect_key = r.effect_key;
      binding_sha256 = hash l r.rows.binding_utf8;
      repository = effect.repository;
      branch = "vuoro-protected/" ++ r.effect_key;
      commit_oid = local.commit_oid;
      base_parent_oid = local.base_parent_oid;
      provider_profile_sha256 = binding.provider_profile_sha256;
    }

    abbrev pr_request_of : Binding → LocalReady → PrRequest
    pr_request_of binding local = record {
      effect_key = r.effect_key;
      binding_sha256 = hash l r.rows.binding_utf8;
      repository = effect.repository;
      head_repository = binding.publication_target.head_repository;
      branch = "vuoro-protected/" ++ r.effect_key;
      commit_oid = local.commit_oid;
      base_branch = binding.publication_target.base_branch;
      title = effect.parameters.title;
      body_utf8_b64 = l.b64encode (body_of l r binding local effect);
      body_sha256 = hash l (body_of l r binding local effect);
      provider_profile_sha256 = binding.provider_profile_sha256;
    }

    abbrev request_by : ProviderOperation → Binding → LocalReady → Document
    request_by capability_check binding local = capability_document (record {
      effect_key = r.effect_key;
      binding_sha256 = hash l r.rows.binding_utf8;
      repository = effect.repository;
      provider_profile_sha256 = binding.provider_profile_sha256;
    })
    request_by (lookup_of branch_create) binding local =
        branch_request (branch_request_of binding local)
    request_by (create_of branch_create) binding local =
        branch_request (branch_request_of binding local)
    request_by (lookup_of pr_create) binding local = pr_request (pr_request_of binding local)
    request_by (create_of pr_create) binding local = pr_request (pr_request_of binding local)

    -- _request
    unfoldable pub request : ProviderOperation → Option String
    request op = events_of r >>= λ seen. (get seen bound >>= as_binding) >>= λ binding.
        seen_local seen >>= λ local. some (l.canonical (request_by op binding local))

    -- the events that an observation is checked on, with the request of a preliminary lookup among them
    abbrev observed_seen : Operation → Bool → Seen → String → Option Seen
    observed_seen op false seen asked = some seen
    observed_seen op true seen asked =
        read l asked 65536 >>= λ value. some (put seen (operation_event op) value)

    -- the check of what a lookup has observed
    unfoldable pub observation_ok : Operation → Bool → String → Option String → Option Document
    observation_ok op preliminary asked observation = observation >>= λ raw. events_of r >>= λ seen.
        observed_seen op preliminary seen asked >>= λ now.
        read l r.rows.binding_utf8 2097152 >>= as_binding >>= λ binding.
        payload l r now effect binding (observed_kind op) raw

    abbrev status_ok : ProviderOperation → Bool → String → ProviderResult → Bool
    status_ok (lookup_of op) preliminary asked result =
        if result.status == "OBSERVED"
        then is_some (observation_ok op preliminary asked result.observation_utf8)
        else not (is_some result.observation_utf8)
    status_ok _ preliminary asked result = not (is_some result.observation_utf8)

    -- _provider_result
    unfoldable pub provider_result :
        ProviderOperation → Bool → ProviderResult → Option ProviderResult
    provider_result op preliminary result = request op >>= λ asked.
        need (
          (result.operation == provider_text op)
          && (result.effect_key == r.effect_key)
          && (result.binding_sha256 == hash l r.rows.binding_utf8)
          && (result.request_sha256 == hash l asked))
        >> (need (is_allowed op result.status)
            >> (need (status_ok op preliminary asked result) >> some result))

  -- the bytes of `_terminal`; the request is that of the operation's row
  unfoldable pub terminal_bytes : JournalRecord → String → Option Operation → Option String
  terminal_bytes r reason none = some (
      l.canonical (
        terminal_document (record {
          effect_key = r.effect_key;
          binding_sha256 = hash l r.rows.binding_utf8;
          reason = reason;
          operation = none;
          request_sha256 = none;
        })))
  terminal_bytes r reason (some op) = get r.rows.spent op >>= λ asked. some (
      l.canonical (
        terminal_document (record {
          effect_key = r.effect_key;
          binding_sha256 = hash l r.rows.binding_utf8;
          reason = reason;
          operation = some (operation_text op);
          request_sha256 = some (hash l asked);
        })))

  -- the bytes of `_applied`
  unfoldable pub outcome_bytes : JournalRecord → Option String
  outcome_bytes r = events_of r >>= λ seen. seen_local seen >>= λ local.
      get seen branch_possible >>= λ branch. get seen pr_possible >>= λ pr.
      seen_pr_observation seen >>= λ o. some (
        l.canonical (
          outcome_document (record {
            effect_key = r.effect_key;
            binding_sha256 = hash l r.rows.binding_utf8;
            commit_oid = local.commit_oid;
            branch_request_sha256 = hash l (l.canonical branch);
            pr_request_sha256 = hash l (l.canonical pr);
            pr_number = o.pr_number;
            pr_url = o.pr_url;
          })))
