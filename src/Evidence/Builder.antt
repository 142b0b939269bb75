-- ===== src/Evidence/Builder.antt =====
-- core/set_builder.py: items are chained as they are added.
pub mod Chained
use vuoro.Prelude.{
  String, Bool, true, false, Option, none, some, List, [], ◌∷◌, ◌++◌, ◌&&◌, not, is_some,
  if◌then◌else◌,
}
use vuoro.Prelude.Eq.{◌==◌, string_keys, option_keys}
use vuoro.Prelude.Result.{Result, ok, err}
use vuoro.Evidence.Model.{EvidenceItem, EffectGrant, EvidenceSet}
use vuoro.Evidence.Chain.{Payload, LinkError, ChainBreak, link, verify_chain}

pub record Builder : Type 0 where
  pub set_id : String
  pub run_id : Option String
  pub items : List EvidenceItem

-- the ValueErrors of `add`
pub data AddError : Type 0 where
  foreign_run : AddError
  unlinked : LinkError → AddError

abbrev pub new_builder : String → Option String → Builder
new_builder set_id run_id = record { set_id = set_id; run_id = run_id; items = [] }

-- an item with another run than the builder's
unfoldable pub is_foreign : Option String → Option String → Bool
is_foreign run_id item_run = is_some run_id && is_some item_run && not (item_run == run_id)

abbrev with_run_id : EvidenceItem → Option String → EvidenceItem
with_run_id item run_id = record item { run_id = run_id }

unfoldable pub stamped : EvidenceItem → Option String → EvidenceItem
stamped item run_id = if is_some item.run_id then item else with_run_id item run_id

-- the exception of `add` ends its caller
abbrev pub unless_refused :
    Result AddError EvidenceItem
    → Builder
    → Result AddError (Unit {0}) × Builder
    → Result AddError (Unit {0}) × Builder
unless_refused (ok chained) b rest = rest
unless_refused (err e) b rest = (err e, b)

module _ (sha256_json : Payload → String) where
  unfoldable pub add : Builder → EvidenceItem → Result AddError EvidenceItem × Builder
  unfolding is_foreign stamped
  add b item =
      if is_foreign b.run_id item.run_id
      then (err foreign_run, b)
      else elim (link sha256_json b.items (stamped item b.run_id)) [
        | err e ↦ (err (unlinked e), b)
        | ok chained ↦ (ok chained, record b { items = b.items ++ chained ∷ [] })
      ]

  -- the first item that is refused ends `extend`, after those before it were added
  unfoldable pub extend : Builder → List EvidenceItem → Result AddError (Unit {0}) × Builder
  unfolding add
  extend b [] = (ok tt, b)
  extend b (item ∷ items) =
      let (r, b') = add b item in let rest = extend b' items in unless_refused r b' rest

  unfoldable pub verify_evidence_set : EvidenceSet → Option String → List ChainBreak
  verify_evidence_set set expected_start_prev =
      verify_chain sha256_json set.items expected_start_prev

unfoldable pub build : Builder → List EffectGrant → EvidenceSet
build b grants = record { set_id = b.set_id; items = b.items; grants = grants; run_id = b.run_id }
