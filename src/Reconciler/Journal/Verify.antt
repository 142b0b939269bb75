-- ===== src/Reconciler/Journal/Verify.antt =====
-- `_verify` and `_validate_all` of execution_journal.py, `JournalRecord.status`, and `_load`. The rows
-- of the other tables hang on a row of effect_bindings, so no key is foreign.
use vuoro.Prelude.{
  ℕ, suc, String, Bool, true, false, Option, none, some, List, [], ◌∷◌, not, ◌&&◌, ◌||◌, nat_eq,
  all, is_some, if◌then◌else◌,
}
use vuoro.Prelude.Eq.{◌==◌, string_keys, option_keys}
use vuoro.Dict.{Dict, get, put}
use vuoro.Text.{is_hex_of}
use vuoro.Reconciler.Journal.{
  Binding, Document, binding_document, Kind, bound, local_ready, applied, refused, conflict,
  kind_keys, Operation, branch_create, pr_create, operation_keys, operation_event, is_terminal,
  JournalEvent, Rows, JournalRecord, Journal, Opened,
}
use vuoro.Reconciler.Journal.Copies.{ProtectedEffect, Copies}
use vuoro.Reconciler.Journal.Format.{Library, ◌>>=◌, ◌>>◌, need, hash, read}
use vuoro.Reconciler.Journal.Payload.{payload}
use vuoro.Reconciler.Journal.Bindings.{Seen, as_binding, make_binding, effect_key}

-- what `_verify` returns
pub record Verified : Type 0 where
  pub seen : Seen
  pub effect : ProtectedEffect
  pub binding : Binding

-- set(seen) == {"BOUND"}
abbrev pub only_bound : Seen → Bool
only_bound ((k, d) ∷ []) = k == bound
only_bound _ = false

-- _TERMINAL & seen.keys()
abbrev pub has_terminal : Seen → Bool
has_terminal seen =
    is_some (get seen applied) || is_some (get seen refused) || is_some (get seen conflict)

abbrev pub is_nonempty : List JournalEvent → Bool
is_nonempty [] = false
is_nonempty (e ∷ es) = true

-- _load
unfoldable pub load : Journal → String → Option JournalRecord
load j key = get j.records key >>= λ rows. some (record { effect_key = key; rows = rows })

-- JournalRecord.status, a type of event or "UNSETTLED"; there is none without events
pub data Status : Type 0 where
  at_event : Kind → Status
  unsettled : Status

abbrev pub last_kind : List JournalEvent → Option Kind
last_kind [] = none
last_kind (e ∷ []) = some e.event_type
last_kind (e ∷ f ∷ es) = last_kind (f ∷ es)

abbrev is_spent : Dict Operation String → Bool
is_spent [] = false
is_spent (row ∷ rows) = true

unfoldable pub status : JournalRecord → Option Status
status r = last_kind r.rows.events >>= λ last.
    some (if is_terminal last || not (is_spent r.rows.spent) then at_event last else unsettled)

module _ (l : Library) where
  -- the part of an event that `_append` checks as well
  unfoldable pub admit :
      JournalRecord → ProtectedEffect → Binding → Seen → Kind → String → Option Document
  admit r effect binding seen kind raw = payload l r seen effect binding kind raw >>= λ value.
      need (not (kind == local_ready) || only_bound seen) >> some value

  -- one turn of the loop over the events
  unfoldable pub check_event :
      JournalRecord → ProtectedEffect → Binding → Seen → ℕ → JournalEvent → Option Seen
  check_event r effect binding seen n event =
      need
        (nat_eq event.seq n && not (is_some (get seen event.event_type)) && not (has_terminal seen))
      >> (if nat_eq n 0
          then need (event.event_type == bound && event.payload_utf8 == r.rows.binding_utf8)
            >> some (put seen bound (binding_document binding))
          else (need (not (event.event_type == bound))
              >> (admit r effect binding seen event.event_type event.payload_utf8 >>= λ value.
                  some (put seen event.event_type value))))

  -- for seq, event in enumerate(record.events)
  unfoldable pub walk :
      JournalRecord → ProtectedEffect → Binding → Seen → ℕ → List JournalEvent → Option Seen
  walk r effect binding seen n [] = some seen
  walk r effect binding seen n (event ∷ events) =
      check_event r effect binding seen n event >>= λ next.
      walk r effect binding next (suc n) events

  -- the request of an operation that the events hold, in its bytes
  abbrev pub expected_spent : Seen → Operation → Option String
  expected_spent seen op = get seen (operation_event op) >>= λ d. some (l.canonical d)

  abbrev pub spent_matches : Seen → Dict Operation String → Bool
  spent_matches seen spent =
      (get spent branch_create == expected_spent seen branch_create)
      && (get spent pr_create == expected_spent seen pr_create)

  abbrev pub expected_outcome : Seen → Option String
  expected_outcome seen = get seen applied >>= λ d. some (l.canonical d)

module _ (l : Library) (c : Copies) (o : Opened) where
  -- the part of `_verify` before the loop: the copy's effect and the binding
  unfoldable pub verify_binding : JournalRecord → Option (ProtectedEffect × Binding)
  verify_binding r =
      need (is_hex_of 64 r.effect_key)
      >> (read l r.rows.binding_utf8 16384 >>= as_binding >>= λ binding.
          c.decode_copy r.rows.protected_copy_utf8 >>= λ effect. effect_key l c effect >>= λ key.
          need (r.effect_key == key)
          >> (make_binding l c effect (hash l o.registry_utf8) binding.provider_profile_sha256
                binding.signing_profile_sha256 binding.publication_target binding.signer_fingerprint
                binding.public_key_sha256
              >>= λ expected.
                  need (r.rows.binding_utf8 == l.canonical (binding_document expected))
                  >> some (effect, binding)))

  -- _verify
  unfoldable pub verify : JournalRecord → Option Verified
  verify r = verify_binding r >>= λ (effect, binding).
      need (is_nonempty r.rows.events)
      >> (walk l r effect binding [] 0 r.rows.events >>= λ seen.
          need (spent_matches l seen r.rows.spent)
          >> (need (r.rows.outcome_utf8 == expected_outcome l seen)
              >> some (record { seen = seen; effect = effect; binding = binding })))

  abbrev pub verifies : String × Rows → Bool
  verifies (key, rows) = is_some (verify (record { effect_key = key; rows = rows }))

  -- _validate_all
  unfoldable pub validate_all : Journal → Bool
  validate_all j = all verifies j.records
