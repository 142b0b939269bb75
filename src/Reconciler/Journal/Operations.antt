-- ===== src/Reconciler/Journal/Operations.antt =====
-- The operations of `ExecutionJournal`: each answers the journal after it beside its result, `none`
-- where it raises JournalRefused. Files, locks and the database's own checks are left out.
use vuoro.Prelude.{
  String, Bool, true, false, Option, none, some, List, [], ◌∷◌, ◌++◌, not, ◌&&◌, ◌||◌, is_some,
  length, leb, if◌then◌else◌,
}
use vuoro.Prelude.Eq.{◌==◌, string_keys}
use vuoro.Dict.{Dict, get, put}
use vuoro.Text.{is_hex_of}
use vuoro.Reconciler.Journal.{
  binding_document, Kind, bound, local_ready, branch_observed, pr_observed, applied, refused,
  conflict, kind_keys, Operation, operation_keys, operation_event, JournalEvent, JournalRecord,
  Journal, Opened,
}
use vuoro.Reconciler.Journal.Copies.{ProtectedEffect, Copies, effect_keys}
use vuoro.Reconciler.Journal.Format.{Library, ◌>>=◌, ◌>>◌, need, holds, hash, read}
use vuoro.Reconciler.Journal.Bindings.{as_target, make_binding, effect_key}
use vuoro.Reconciler.Journal.Verify.{load, admit, has_terminal, Verified, verify, validate_all}

-- INSERT INTO publication_spent, whose key is the effect and the operation
unfoldable pub insert_spent :
    Option Operation → String → Dict Operation String → Option (Dict Operation String)
insert_spent none raw spent = some spent
insert_spent (some op) raw spent = need (not (is_some (get spent op))) >> some (put spent op raw)

-- INSERT INTO applied_outcomes
unfoldable pub insert_outcome : Bool → String → Option String → Option (Option String)
insert_outcome false raw outcome = some outcome
insert_outcome true raw outcome = need (not (is_some outcome)) >> some (some raw)

-- `_event` with the sequence number that `_append` gives it
abbrev pub add_event : List JournalEvent → Kind → String → List JournalEvent
add_event events kind raw =
    events ++ (record { seq = length events; event_type = kind; payload_utf8 = raw } ∷ [])

-- what a transaction leaves: its rollback where it raises
abbrev pub settle {ℓ} : {A : Type ℓ} → Journal → Option (Journal × A) → Journal × Option A
settle j none = (j, none)
settle j (some (k, a)) = (k, some a)

module _ (l : Library) (c : Copies) (o : Opened) where
  -- _transaction
  unfoldable pub transaction {ℓ} :
      {A : Type ℓ} → (Journal → Option (Journal × A)) → Journal → Journal × Option A
  transaction body j = settle j (
      need (j.host_id == o.host_id && j.registry_utf8 == o.registry_utf8)
      >> need (validate_all l c o j)
      >> (body j >>= λ (k, a). need (validate_all l c o k) >> some (k, a)))

  -- the body of `bind` under its transaction
  unfoldable pub bind_rows :
      String → String → String → Journal → Option (Journal × Option JournalRecord)
  bind_rows key binding copy j = elim (load j key) [
    | none ↦
        let k = record j {
          records = put j.records key (record {
            binding_utf8 = binding;
            protected_copy_utf8 = copy;
            events = add_event [] bound binding;
            spent = [];
            outcome_utf8 = none;
          });
        } in
        some (k, load k key)
    | some current ↦
        need (current.rows.binding_utf8 == binding && current.rows.protected_copy_utf8 == copy)
        >> some (j, load j key)
  ]

  -- the effect's key and the bytes of its binding, which `bind` makes before its transaction
  unfoldable pub bind_input :
      ProtectedEffect
      → String
      → String
      → String
      → String
      → String
      → String
      → Option (String × String)
  bind_input effect copy provider signing target_utf8 fingerprint public_key =
      need (holds (c.decode_copy copy) (λ decoded. decoded == effect))
      >> (read l target_utf8 16384 >>= as_target >>= λ target.
          make_binding l c effect (hash l o.registry_utf8) provider signing target fingerprint
            public_key
          >>= λ binding.
              need (leb (l.size (l.canonical (binding_document binding))) 16384)
              >> (effect_key l c effect >>= λ key.
                  some (key, l.canonical (binding_document binding))))

  -- bind
  unfoldable pub bind :
      ProtectedEffect
      → String
      → String
      → String
      → String
      → String
      → String
      → Journal
      → Journal × Option (Option JournalRecord)
  bind effect copy provider signing target_utf8 fingerprint public_key j =
      elim (bind_input effect copy provider signing target_utf8 fingerprint public_key) [
        | none ↦ (j, none)
        | some (key, binding) ↦ transaction (bind_rows key binding copy) j
      ]

  -- read
  unfoldable pub read_record : String → Journal → Journal × Option (Option JournalRecord)
  read_record key j =
      if is_hex_of 64 key then transaction (λ k. some (k, load k key)) j else (j, none)

  -- `_append` of an event that the record does not have
  unfoldable pub append_new :
      String
      → Kind
      → String
      → Option Operation
      → Bool
      → Journal
      → JournalRecord
      → Verified
      → Option (Journal × Bool)
  append_new key kind raw operation outcome j r v =
      need (not (has_terminal v.seen))
      >> (admit l r v.effect v.binding v.seen kind raw >>= λ value.
          insert_spent operation raw r.rows.spent >>= λ spent.
          insert_outcome outcome raw r.rows.outcome_utf8 >>= λ outcome_utf8. some (
            record j {
              records = put j.records key (record r.rows {
                events = add_event r.rows.events kind raw;
                spent = spent;
                outcome_utf8 = outcome_utf8;
              });
            },
            true,
          ))

  -- `_append` from the record that it has verified
  unfoldable pub append_verified :
      String
      → Kind
      → String
      → Option Operation
      → Bool
      → Journal
      → JournalRecord
      → Verified
      → Option (Journal × Bool)
  append_verified key kind raw operation outcome j r v = elim (get v.seen kind) [
    | some value ↦ need (l.canonical value == raw) >> some (j, false)
    | none ↦ append_new key kind raw operation outcome j r v
  ]

  -- the body of `_append` under its transaction
  unfoldable pub append_rows :
      String → Kind → String → Option Operation → Bool → Journal → Option (Journal × Bool)
  append_rows key kind raw operation outcome j = load j key >>= λ r.
      verify l c o r >>= λ v. append_verified key kind raw operation outcome j r v

  -- _append
  unfoldable pub append :
      String → Kind → String → Option Operation → Bool → Journal → Journal × Option Bool
  append key kind raw operation outcome = transaction (append_rows key kind raw operation outcome)

  -- mark_spent
  unfoldable pub mark_spent : String → Operation → String → Journal → Journal × Option Bool
  mark_spent key operation request =
      append key (operation_event operation) request (some operation) false

  -- an append whose answer is the record after it
  abbrev pub then_read : String → Journal × Option Bool → Journal × Option (Option JournalRecord)
  then_read key (j, none) = (j, none)
  then_read key (j, some first) = read_record key j

  -- record_local_ready
  unfoldable pub record_local_ready :
      String → String → Journal → Journal × Option (Option JournalRecord)
  record_local_ready key raw j = then_read key (append key local_ready raw none false j)

  -- record_observed
  unfoldable pub record_observed :
      String → Kind → String → Journal → Journal × Option (Option JournalRecord)
  record_observed key kind raw j =
      if kind == branch_observed || kind == pr_observed || kind == refused || kind == conflict
      then then_read key (append key kind raw none false j)
      else (j, none)

  -- record_outcome
  unfoldable pub record_outcome :
      String → String → Journal → Journal × Option (Option JournalRecord)
  record_outcome key raw j = then_read key (append key applied raw none true j)
