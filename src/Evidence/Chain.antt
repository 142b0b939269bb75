-- ===== src/Evidence/Chain.antt =====
-- core/chain.py: each item carries the digest of its predecessor. The canonical JSON of an entry and
-- its SHA-256 are the parameter `sha256_json`.
pub mod Links
pub mod Tampering
use vuoro.Prelude.{
  ℕ, suc, ◌+◌, String, Bool, true, false, Option, none, some, List, [], ◌∷◌, ◌++◌, ◌&&◌, ◌||◌, not,
  nat_eq, is_some, if◌then◌else◌,
}
use vuoro.Prelude.Eq.{◌==◌, string_keys}
use vuoro.Prelude.Result.{Result, ok, err}
use vuoro.Evidence.Model.{EvidenceItem}

pub record Payload : Type 0 where
  pub item_id : String
  pub digest : String
  pub chain_seq : Option ℕ
  pub chain_prev_digest : Option String

pub data ChainBreakReason : Type 0 where
  not_chained out_of_order missing_predecessor altered_predecessor : ChainBreakReason

-- the detail is text for a reader, and is left out
pub record ChainBreak : Type 0 where
  pub index : ℕ
  pub item_id : String
  pub reason : ChainBreakReason

-- the ValueError of `link`
pub data LinkError : Type 0 where
  tail_not_chained : LinkError

abbrev pub payload : EvidenceItem → Payload
payload item = record {
  item_id = item.item_id;
  digest = item.digest;
  chain_seq = item.chain_seq;
  chain_prev_digest = item.chain_prev_digest;
}

abbrev pub relink : EvidenceItem → ℕ → Option String → EvidenceItem
relink item seq prev = record item { chain_seq = some seq; chain_prev_digest = prev }

-- items[-1]
unfoldable pub tail_of : List EvidenceItem → Option EvidenceItem
tail_of [] = none
tail_of (item ∷ []) = some item
tail_of (item ∷ next ∷ rest) = tail_of (next ∷ rest)

module _ (sha256_json : Payload → String) where
  unfoldable pub entry_digest : EvidenceItem → String
  entry_digest item = sha256_json (payload item)

  unfoldable pub link_after : Option EvidenceItem → EvidenceItem → Result LinkError EvidenceItem
  unfolding entry_digest
  link_after none next = ok (relink next 0 none)
  link_after (some last) next = elim last.chain_seq [
    | none ↦ err tail_not_chained
    | some seq ↦ ok (relink next (seq + 1) (some (entry_digest last)))
  ]

  unfoldable pub link : List EvidenceItem → EvidenceItem → Result LinkError EvidenceItem
  unfolding link_after tail_of
  link items next = link_after (tail_of items) next

  abbrev broken : ℕ → EvidenceItem → ChainBreakReason → List ChainBreak
  broken i item reason = record { index = i; item_id = item.item_id; reason = reason } ∷ []

  -- the test of `chain_seq` against that of the item before
  unfoldable pub order_breaks : ℕ → Option EvidenceItem → EvidenceItem → ℕ → List ChainBreak
  order_breaks i none item seq = []
  order_breaks i (some prev) item seq = elim prev.chain_seq [
    | none ↦ []
    | some n ↦ if nat_eq seq (n + 1) then [] else broken i item out_of_order
  ]

  -- the test of `chain_prev_digest` where a predecessor is expected
  unfoldable pub digest_breaks : ℕ → Option String → EvidenceItem → List ChainBreak
  digest_breaks i expected item = elim item.chain_prev_digest [
    | none ↦ broken i item missing_predecessor
    | some carried ↦ elim expected [
      | none ↦ []
      | some d ↦ if carried == d then [] else broken i item altered_predecessor
    ]
  ]

  unfoldable pub predecessor_breaks :
      Option String → ℕ → Option EvidenceItem → Option String → EvidenceItem → ℕ → List ChainBreak
  unfolding digest_breaks
  predecessor_breaks start i prev expected item seq =
      if is_some expected || (is_some prev && not (nat_eq seq 0))
      then digest_breaks i expected item
      else if nat_eq seq 0 && is_some item.chain_prev_digest && not (is_some start)
      then broken i item altered_predecessor
      else []

  -- the body of the loop for a chained item
  unfoldable pub item_breaks :
      Option String → ℕ → Option EvidenceItem → Option String → EvidenceItem → ℕ → List ChainBreak
  unfolding order_breaks predecessor_breaks
  item_breaks start i prev expected item seq =
      order_breaks i prev item seq ++ predecessor_breaks start i prev expected item seq

  -- the breaks that one turn of the loop adds, and the digest that it expects of the next item
  unfoldable pub turn :
      Option String
      → ℕ
      → Option EvidenceItem
      → Option String
      → EvidenceItem
      → List ChainBreak × Option String
  unfolding item_breaks entry_digest
  turn start i prev expected item = elim item.chain_seq [
    | none ↦ (broken i item not_chained, none)
    | some seq ↦ (item_breaks start i prev expected item seq, some (entry_digest item))
  ]

  unfoldable pub verify_from :
      Option String → ℕ → Option EvidenceItem → Option String → List EvidenceItem → List ChainBreak
  unfolding turn
  verify_from start i prev expected [] = []
  verify_from start i prev expected (item ∷ rest) =
      let (breaks, next) = turn start i prev expected item in
      breaks ++ verify_from start (suc i) (some item) next rest

  -- the breaks; `ok` is that there are none
  unfoldable pub verify_chain : List EvidenceItem → Option String → List ChainBreak
  unfolding verify_from
  verify_chain items expected_start_prev =
      verify_from expected_start_prev 0 none expected_start_prev items

abbrev pub is_ok : List ChainBreak → Bool
is_ok [] = true
is_ok (b ∷ bs) = false
