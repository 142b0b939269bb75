-- ===== src/Examples/Evidence.antt =====
-- A chain of three items (core/chain.py, core/set_builder.py, core/reducer.py, core/decision.py). The
-- digest of an entry is its id here.
use vuoro.Prelude.{ℕ, String, ◌≡◌, ◌⊎◌, ◌↔◌, refl, true, false, some, none, Option, List, [], ◌∷◌}
use vuoro.Prelude.Eq.{string_keys, option_keys}
use vuoro.Dict.{get, put}
use mathlib.Core.List.{Memᴰ}
use vuoro.Evidence.Model.{
  effect_completed, observation, Claim, ValidityWindow, indefinite, EvidenceItem, EvidenceSet,
  accept, reject,
}
use vuoro.Evidence.Chain.{Payload, entry_digest, verify_chain, verify_from, turn, is_ok}
use vuoro.Evidence.Chain.Links.{LinkedFrom, Accepted, verify_chain-iff_linked}
use vuoro.Evidence.Chain.Tampering.{
  deletion_detected, dropped_head_verifies, last_digest_fixes_chain, SameEntries, Collision,
}
use vuoro.Evidence.Builder.{Builder, new_builder, extend, build, verify_evidence_set}
use vuoro.Evidence.Builder.Chained.{built_set_verifies}
use vuoro.Evidence.Reducer.{reduce, valid_items_for}
use vuoro.Evidence.Decide.{expired_for, RerunQuestion, decide_rerun}
use vuoro.Evidence.Decide.Kinds.{Justified, accept-Justified}
use vuoro.Evidence.Decide.Contradicted.{denied-reject}

abbrev sha256_json : Payload → String
sha256_json p = p.item_id

abbrev always : ValidityWindow
always = record { basis = indefinite; valid_from = 0; valid_until = none; component_digests = [] }

abbrev item : String → List Claim → Option ℕ → Option String → EvidenceItem
item id claims seq prev = record {
  item_id = id;
  kind = "log";
  ref = "r";
  digest = "d";
  collector = "c";
  validity = always;
  claims = claims;
  chain_seq = seq;
  chain_prev_digest = prev;
  run_id = none;
}

abbrev done : Claim
done = record {
  claim_type = effect_completed;
  subject = "s";
  grant_id = none;
  freshness = none;
  confirms = none;
}

abbrev denial : Claim
denial = record {
  claim_type = observation;
  subject = "s";
  grant_id = none;
  freshness = none;
  confirms = some false;
}

abbrev first : EvidenceItem
first = item "a" (done ∷ []) (some 0) none

abbrev second : EvidenceItem
second = item "b" (denial ∷ []) (some 1) (some "a")

abbrev third : EvidenceItem
third = item "c" [] (some 2) (some "b")

linked : LinkedFrom sha256_json 0 none (first ∷ second ∷ third ∷ [])
unfolding entry_digest
linked = (refl, refl, (refl, refl, (refl, refl, tt)))

verify_chain-iff_linked_example :
    (is_ok (verify_chain sha256_json (second ∷ third ∷ []) none) ≡ true)
    ↔ Accepted sha256_json none (second ∷ third ∷ [])
verify_chain-iff_linked_example = verify_chain-iff_linked sha256_json (second ∷ third ∷ []) none

deletion_detected_example : is_ok (verify_chain sha256_json (first ∷ third ∷ []) none) ≡ false
deletion_detected_example =
    deletion_detected sha256_json first [] second third [] none 0 (λ _. refl) linked

dropped_head_verifies_example : is_ok (verify_chain sha256_json (second ∷ third ∷ []) none) ≡ true
dropped_head_verifies_example =
    dropped_head_verifies sha256_json first [] second (third ∷ []) 0 none linked

last_digest_fixes_chain_example :
    SameEntries sha256_json (first ∷ second ∷ []) (first ∷ second ∷ []) ⊎ Collision sha256_json
unfolding verify_chain verify_from turn entry_digest
last_digest_fixes_chain_example =
    last_digest_fixes_chain sha256_json first (second ∷ []) first (second ∷ []) refl refl refl refl
      refl

abbrev loose : List EvidenceItem
loose = item "a" [] none none ∷ item "b" [] none none ∷ []

abbrev empty : Builder
empty = new_builder "set" (some "run")

built_set_verifies_example :
    is_ok (
      verify_evidence_set sha256_json
        (build (extend sha256_json (new_builder "set" (some "run")) loose).1 [])
        none)
    ≡ true
built_set_verifies_example = built_set_verifies sha256_json "set" (some "run") loose []

abbrev completed_set : EvidenceSet
completed_set = record { set_id = "set"; items = first ∷ []; grants = []; run_id = none }

abbrev denied_set : EvidenceSet
denied_set = record { set_id = "set"; items = first ∷ second ∷ []; grants = []; run_id = none }

abbrev question : RerunQuestion
question = record { decision_id = "q"; subject = "s" }

completed-accept : (decide_rerun (reduce completed_set 5 []) question).kind ≡ accept
unfolding decide_rerun reduce get put valid_items_for expired_for
completed-accept = refl

accept-Justified_example :
    Justified completed_set 5 [] "s" (decide_rerun (reduce completed_set 5 []) question)
accept-Justified_example = accept-Justified completed_set 5 [] question completed-accept

denied-reject_example : (decide_rerun (reduce denied_set 5 []) question).kind ≡ reject
denied-reject_example =
    denied-reject denied_set 5 [] question second denial (Memᴰ.tail (Memᴰ.head refl))
      (Memᴰ.head refl) (record { typed = refl; denies = refl; about = refl })
