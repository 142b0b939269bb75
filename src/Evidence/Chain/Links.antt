-- ===== src/Evidence/Chain/Links.antt =====
-- What `verify_chain` accepts (core/chain.py), against a description of chains by position.
use vuoro.Prelude.{
  ℕ, suc, ◌+◌, String, ◌≡◌, refl, true, Option, none, some, List, [], ◌∷◌, ◌++◌, ◌&&◌, arith, inl,
  inr, Option-cases, ◌↔◌,
}
use vuoro.Prelude.Eq.{string_keys}
use vuoro.Evidence.Model.{EvidenceItem}
use text.Mathlib.TextEquality.{eq_iff}
use vuoro.Evidence.Chain.{Payload, ChainBreak, entry_digest, turn, verify_from, verify_chain, is_ok}

pub is_ok-append : (xs ys : List ChainBreak) → is_ok (xs ++ ys) ≡ (is_ok xs && is_ok ys)
is_ok-append [] ys = refl
is_ok-append (x ∷ xs) ys = refl

module _ (sha256_json : Payload → String) where
  -- The items stand at the positions from `n` on, the first names `prev` as its predecessor's digest,
  -- and each other the digest of the one before it.
  abbrev pub LinkedFrom : ℕ → Option String → List EvidenceItem → Type 0
  LinkedFrom n prev [] = Unit
  LinkedFrom n prev (x ∷ xs) =
      (x.chain_seq ≡ some n)
      × (x.chain_prev_digest ≡ prev)
      × LinkedFrom (n + 1) (some (entry_digest sha256_json x)) xs

  turn-next :
      (start : Option String) (i : ℕ) (prev : Option EvidenceItem) (expected : Option String)
      (x : EvidenceItem)
      → is_ok (turn sha256_json start i prev expected x).0 ≡ true
      → (turn sha256_json start i prev expected x).1 ≡ some (entry_digest sha256_json x)
  unfolding turn
  turn-next start i prev expected x h = ground arith

  turn_inner :
      (start : Option String) (i m : ℕ) (p : EvidenceItem) (d : String) (x : EvidenceItem)
      → p.chain_seq ≡ some m
      → (is_ok (turn sha256_json start i (some p) (some d) x).0 ≡ true)
        ↔ ((x.chain_seq ≡ some (m + 1)) × (x.chain_prev_digest ≡ some d))
  unfolding turn
  turn_inner start i m p d x h = elim (Option-cases x.chain_prev_digest) [
    | inl n ↦ ground arith
    | inr (c, e) ↦ ground (arith, eq_iff c d)
  ]

  turn_first :
      (start : Option String) (i n : ℕ) (x : EvidenceItem)
      → x.chain_seq ≡ some n
      → (start ≡ none → n ≡ 0)
      → (is_ok (turn sha256_json start i none start x).0 ≡ true) ↔ (x.chain_prev_digest ≡ start)
  unfolding turn
  turn_first none i n x h z = elim (Option-cases x.chain_prev_digest) [
    | inl m ↦ ground (arith, z refl)
    | inr (c, e) ↦ ground (arith, z refl)
  ]
  turn_first (some d) i n x h z = elim (Option-cases x.chain_prev_digest) [
    | inl m ↦ ground arith
    | inr (c, e) ↦ ground (arith, eq_iff c d)
  ]

  pub verify_from-inner :
      (xs : List EvidenceItem) (start : Option String) (i m : ℕ) (p : EvidenceItem) (d : String)
      → p.chain_seq ≡ some m
      → (is_ok (verify_from sha256_json start i (some p) (some d) xs) ≡ true)
        ↔ LinkedFrom (m + 1) (some d) xs
  unfolding verify_from
  verify_from-inner [] start i m p d h = (λ _. tt, λ _. refl)
  verify_from-inner (x ∷ xs) start i m p d h =
      let next = turn-next start i (some p) (some d) x in
      let here = turn_inner start i m p d x h in
      let split = is_ok-append (turn sha256_json start i (some p) (some d) x).0 (
        verify_from sha256_json start (suc i) (some x)
          (turn sha256_json start i (some p) (some d) x).1 xs) in
      let rest = verify_from-inner xs start (suc i) (m + 1) x (entry_digest sha256_json x) in
      (
        λ done.
            let t : is_ok (turn sha256_json start i (some p) (some d) x).0 ≡ true = ground arith in
            let (a, b) = here.0 t in (a, b, (rest a).0 (ground (arith, next t))),
        λ linked. ground (arith, next (here.1 (linked.0, linked.1)), (rest linked.0).1 linked.2),
      )

  pub verify_chain-linked :
      (x : EvidenceItem) (xs : List EvidenceItem) (start : Option String) (n : ℕ)
      → x.chain_seq ≡ some n
      → (start ≡ none → n ≡ 0)
      → (is_ok (verify_chain sha256_json (x ∷ xs) start) ≡ true) ↔ LinkedFrom n start (x ∷ xs)
  unfolding verify_chain verify_from
  verify_chain-linked x xs start n h z =
      let next = turn-next start 0 none start x in
      let here = turn_first start 0 n x h z in
      let split =
        is_ok-append (turn sha256_json start 0 none start x).0
          (verify_from sha256_json start 1 (some x) (turn sha256_json start 0 none start x).1 xs) in
      let rest = verify_from-inner xs start 1 n x (entry_digest sha256_json x) h in
      (
        λ done.
            let t : is_ok (turn sha256_json start 0 none start x).0 ≡ true = ground arith in
            (h, here.0 t, rest.0 (ground (arith, next t))),
        λ linked. ground (arith, next (here.1 linked.1), rest.1 linked.2),
      )

  -- What `verify_chain` is to accept: any position for a first item that continues a given digest,
  -- and, with none given, either the start of a chain at position 0, or any later position, whose
  -- predecessor's digest is not looked at.
  abbrev pub Accepted : Option String → List EvidenceItem → Type 0
  Accepted start [] = Unit
  Accepted (some d) (x ∷ xs) = (n : ℕ) × LinkedFrom n (some d) (x ∷ xs)
  Accepted none (x ∷ xs) =
      (n : ℕ) × (x.chain_seq ≡ some n)
      × (n ≡ 0 → x.chain_prev_digest ≡ none)
      × LinkedFrom (n + 1) (some (entry_digest sha256_json x)) xs

  turn_open :
      (i n : ℕ) (x : EvidenceItem)
      → x.chain_seq ≡ some n
      → (is_ok (turn sha256_json none i none none x).0 ≡ true)
        ↔ (n ≡ 0 → x.chain_prev_digest ≡ none)
  unfolding turn
  turn_open i n x h = elim (Option-cases x.chain_prev_digest) [
    | inl m ↦ ground arith
    | inr (c, e) ↦ ground arith
  ]

  turn-chained :
      (start : Option String) (i : ℕ) (prev : Option EvidenceItem) (expected : Option String)
      (x : EvidenceItem)
      → is_ok (turn sha256_json start i prev expected x).0 ≡ true
      → (n : ℕ) × (x.chain_seq ≡ some n)
  unfolding turn
  turn-chained start i prev expected x h = elim (Option-cases x.chain_seq) [
    | inl m ↦ absurd (ground arith)
    | inr found ↦ found
  ]

  first_chained :
      (x : EvidenceItem) (xs : List EvidenceItem) (start : Option String)
      → is_ok (verify_chain sha256_json (x ∷ xs) start) ≡ true
      → (n : ℕ) × (x.chain_seq ≡ some n)
  unfolding verify_chain verify_from
  first_chained x xs start h =
      let split =
        is_ok-append (turn sha256_json start 0 none start x).0
          (verify_from sha256_json start 1 (some x) (turn sha256_json start 0 none start x).1 xs) in
      turn-chained start 0 none start x (ground arith)

  verify_chain-open :
      (x : EvidenceItem) (xs : List EvidenceItem) (n : ℕ)
      → x.chain_seq ≡ some n
      → (is_ok (verify_chain sha256_json (x ∷ xs) none) ≡ true) ↔ (
          (n ≡ 0 → x.chain_prev_digest ≡ none)
          × LinkedFrom (n + 1) (some (entry_digest sha256_json x)) xs)
  unfolding verify_chain verify_from
  verify_chain-open x xs n h =
      let next = turn-next none 0 none none x in
      let here = turn_open 0 n x h in
      let split =
        is_ok-append (turn sha256_json none 0 none none x).0
          (verify_from sha256_json none 1 (some x) (turn sha256_json none 0 none none x).1 xs) in
      let rest = verify_from-inner xs none 1 n x (entry_digest sha256_json x) h in
      (
        λ done.
            let t : is_ok (turn sha256_json none 0 none none x).0 ≡ true = ground arith in
            (here.0 t, rest.0 (ground (arith, next t))),
        λ linked. ground (arith, next (here.1 linked.0), rest.1 linked.1),
      )

  -- Any sequence, with any digest to start from or none, verifies exactly if it is empty or a chain:
  -- its items stand at consecutive positions, and each but the first names the digest of the item
  -- before it. The first names the digest to start from, where one is given; where none is, it names
  -- no predecessor if it stands at position 0, and may name any if it stands further on.
  pub verify_chain-iff_linked :
      (items : List EvidenceItem) (start : Option String)
      → (is_ok (verify_chain sha256_json items start) ≡ true) ↔ Accepted start items
  verify_chain-iff_linked [] start = (λ _. tt, λ _. unfold verify_chain verify_from in refl)
  verify_chain-iff_linked (x ∷ xs) none = (
    λ done.
        let (n, h) = first_chained x xs none done in
        let (first, rest) = (verify_chain-open x xs n h).0 done in (n, h, first, rest),
    λ (n, h, first, rest). (verify_chain-open x xs n h).1 (first, rest),
  )
  verify_chain-iff_linked (x ∷ xs) (some d) = (
    λ done.
        let (n, h) = first_chained x xs (some d) done in
        (n, (verify_chain-linked x xs (some d) n h (λ e. cc)).0 done),
    λ (n, linked). (verify_chain-linked x xs (some d) n linked.0 (λ e. cc)).1 linked,
  )
