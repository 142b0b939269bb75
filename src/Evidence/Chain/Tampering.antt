-- ===== src/Evidence/Chain/Tampering.antt =====
-- Which changes of a recorded chain `verify_chain` detects (core/chain.py).
use vuoro.Prelude.{
  ℕ, ◌+◌, String, ◌≡◌, ◌≢◌, refl, sym, ◌∙◌, Bool, true, false, Option, none, some, List, [], ◌∷◌,
  ◌++◌, ◌&&◌, arith, inl, inr, Bool-cases, length, ◌⊎◌, ap,
}
use vuoro.Prelude.Eq.{◌==◌, string_keys, nat_keys, option_keys, option_eq_iff}
use vuoro.Evidence.Model.{EvidenceItem}
use text.Mathlib.TextEquality.{eq_iff}
use vuoro.Evidence.Chain.{Payload, payload, entry_digest, turn, verify_from, verify_chain, is_ok}
use vuoro.Evidence.Chain.Links.{LinkedFrom, verify_chain-linked, verify_from-inner}

module _ (sha256_json : Payload → String) where
  position :
      (xs : List EvidenceItem) (y : EvidenceItem) (ys : List EvidenceItem) (n : ℕ)
      (p : Option String)
      → LinkedFrom sha256_json n p (xs ++ y ∷ ys)
      → y.chain_seq ≡ some (n + length xs)
  position [] y ys n p l = ground (arith, l.0)
  position (x ∷ xs) y ys n p l =
      ground (arith, position xs y ys (n + 1) (some (entry_digest sha256_json x)) l.2)

  position_next :
      (xs : List EvidenceItem) (x y : EvidenceItem) (ys : List EvidenceItem) (n : ℕ)
      (p : Option String)
      → LinkedFrom sha256_json n p (xs ++ x ∷ y ∷ ys)
      → y.chain_seq ≡ some (n + length xs + 1)
  position_next [] x y ys n p l = ground (arith, l.2.0)
  position_next (w ∷ xs) x y ys n p l =
      ground (arith, position_next xs x y ys (n + 1) (some (entry_digest sha256_json w)) l.2)

  -- Taking an entry out of the inside of a chain is detected.
  pub deletion_detected :
      (z : EvidenceItem) (zs : List EvidenceItem) (x y : EvidenceItem) (ys : List EvidenceItem)
      (start : Option String) (n : ℕ)
      → (start ≡ none → n ≡ 0)
      → LinkedFrom sha256_json n start (z ∷ zs ++ x ∷ y ∷ ys)
      → is_ok (verify_chain sha256_json (z ∷ zs ++ y ∷ ys) start) ≡ false
  deletion_detected z zs x y ys start n h l =
      elim (Bool-cases (is_ok (verify_chain sha256_json (z ∷ zs ++ y ∷ ys) start))) [
        | inr bad ↦ bad
        | inl good ↦
            let kept = (verify_chain-linked sha256_json z (zs ++ y ∷ ys) start n l.0 h).0 good in
            let after = position (z ∷ zs) y ys n start kept in
            let there = position_next (z ∷ zs) x y ys n start l in absurd (ground arith)
      ]

  without_head :
      (y : EvidenceItem) (ys : List EvidenceItem) (n : ℕ) (d : String)
      → LinkedFrom sha256_json (n + 1) (some d) (y ∷ ys)
      → is_ok (verify_chain sha256_json (y ∷ ys) none) ≡ true
  unfolding verify_chain verify_from turn
  without_head y ys n d l = ground (
    arith,
    (verify_from-inner sha256_json ys none 1 (n + 1) y (entry_digest sha256_json y) l.0).1 l.2,
  )

  -- Taking entries off the head of a chain is not detected: what is left verifies, if the caller
  -- names no digest that the first entry should continue.
  pub dropped_head_verifies :
      (x : EvidenceItem) (xs : List EvidenceItem) (y : EvidenceItem) (ys : List EvidenceItem)
      (n : ℕ) (p : Option String)
      → LinkedFrom sha256_json n p (x ∷ xs ++ y ∷ ys)
      → is_ok (verify_chain sha256_json (y ∷ ys) none) ≡ true
  dropped_head_verifies x [] y ys n p l = without_head y ys n (entry_digest sha256_json x) l.2
  dropped_head_verifies x (w ∷ xs) y ys n p l =
      dropped_head_verifies w xs y ys (n + 1) (some (entry_digest sha256_json x)) l.2

  -- Two entries with different content and one digest.
  pub record Collision : Type 0 where
    pub one : Payload
    pub other : Payload
    pub same_digest : sha256_json one ≡ sha256_json other
    pub different : one ≢ other

  -- The entries agree in their ids, content digests, positions and predecessors.
  abbrev pub SameEntries : List EvidenceItem → List EvidenceItem → Type 0
  SameEntries [] [] = Unit
  SameEntries [] (y ∷ ys) = ⊥
  SameEntries (x ∷ xs) [] = ⊥
  SameEntries (x ∷ xs) (y ∷ ys) =
      (x.item_id ≡ y.item_id)
      × (x.digest ≡ y.digest)
      × (x.chain_seq ≡ y.chain_seq)
      × (x.chain_prev_digest ≡ y.chain_prev_digest)
      × SameEntries xs ys

  -- The digest that an item after these would name.
  abbrev pub last_digest : Option String → List EvidenceItem → Option String
  last_digest p [] = p
  last_digest p (x ∷ xs) = last_digest (some (entry_digest sha256_json x)) xs

  payload_eq : Payload → Payload → Bool
  payload_eq a b =
      (a.item_id == b.item_id)
      && (a.digest == b.digest)
      && (a.chain_seq == b.chain_seq)
      && (a.chain_prev_digest == b.chain_prev_digest)

  payload_eq_iff :
      (a b : Payload) → (payload_eq a b ≡ true → a ≡ b) × (payload_eq a b ≡ false → a ≢ b)
  unfolding payload_eq
  payload_eq_iff a b = ground (
    arith,
    eq_iff a.item_id b.item_id,
    eq_iff a.digest b.digest,
    option_eq_iff a.chain_seq b.chain_seq,
    option_eq_iff a.chain_prev_digest b.chain_prev_digest,
  )

  agree_back :
      (x y : EvidenceItem) (xs ys : List EvidenceItem) (n m : ℕ) (p q : Option String)
      → x.chain_prev_digest ≡ p
      → y.chain_prev_digest ≡ q
      → (SameEntries xs ys
          × (some (entry_digest sha256_json x) ≡ some (entry_digest sha256_json y)))
        ⊎ Collision
      → ((SameEntries (x ∷ xs) (y ∷ ys)) × (p ≡ q)) ⊎ Collision
  unfolding entry_digest payload_eq
  agree_back x y xs ys n m p q h k (inr c) = inr c
  agree_back x y xs ys n m p q h k (inl (s, e)) =
      elim (Bool-cases (payload_eq (payload x) (payload y))) [
        | inl same ↦
            let t = (payload_eq_iff (payload x) (payload y)).0 same in
            inl (
              (
                ap (λ (r : Payload). r.item_id) t,
                ap (λ (r : Payload). r.digest) t,
                ap (λ (r : Payload). r.chain_seq) t,
                ap (λ (r : Payload). r.chain_prev_digest) t,
                s,
              ),
              sym h ∙ ap (λ (r : Payload). r.chain_prev_digest) t ∙ k,
            )
        | inr other ↦ inr (record {
          one = payload x;
          other = payload y;
          same_digest = ground arith;
          different = (payload_eq_iff (payload x) (payload y)).1 other;
        })
      ]

  chains_agree :
      (xs ys : List EvidenceItem) (n m : ℕ) (p q : Option String)
      → LinkedFrom sha256_json n p xs
      → LinkedFrom sha256_json m q ys
      → length xs ≡ length ys
      → last_digest p xs ≡ last_digest q ys
      → (SameEntries xs ys × (p ≡ q)) ⊎ Collision
  chains_agree [] [] n m p q l k e d = inl (tt, d)
  chains_agree [] (y ∷ ys) n m p q l k e d = absurd (omega arith)
  chains_agree (x ∷ xs) [] n m p q l k e d = absurd (omega arith)
  chains_agree (x ∷ xs) (y ∷ ys) n m p q l k e d = agree_back x y xs ys n m p q l.1 k.1 (
      chains_agree xs ys (n + 1) (m + 1) (some (entry_digest sha256_json x))
        (some (entry_digest sha256_json y)) l.2 k.2 (omega arith) d)

  -- the last entry of a chain, by its position
  last_entry :
      (x : EvidenceItem) (xs : List EvidenceItem) (n : ℕ) (p : Option String)
      → LinkedFrom sha256_json n p (x ∷ xs)
      → (z : EvidenceItem) × (last_digest p (x ∷ xs) ≡ some (entry_digest sha256_json z))
        × (z.chain_seq ≡ some (n + length xs))
  last_entry x [] n p l = (x, refl, ground (arith, l.0))
  last_entry x (y ∷ xs) n p l =
      let (z, d, s) = last_entry y xs (n + 1) (some (entry_digest sha256_json x)) l.2 in
      (z, d, ground (arith, s))

  same_last :
      (x y : EvidenceItem) (n m : ℕ)
      → x.chain_seq ≡ some n
      → y.chain_seq ≡ some m
      → entry_digest sha256_json x ≡ entry_digest sha256_json y
      → (n ≡ m) ⊎ Collision
  unfolding entry_digest
  same_last x y n m h k d = elim (Bool-cases (payload_eq (payload x) (payload y))) [
    | inl same ↦
        let seqs =
          ap (λ (r : Payload). r.chain_seq) ((payload_eq_iff (payload x) (payload y)).0 same) in
        inl (ground (arith, seqs))
    | inr other ↦ inr (record {
      one = payload x;
      other = payload y;
      same_digest = d;
      different = (payload_eq_iff (payload x) (payload y)).1 other;
    })
  ]

  -- The digest of the last entry fixes the chain: two sequences that verify from position 0 on, with
  -- one last digest, have the same length and, entry by entry, the same ids, content digests,
  -- positions and predecessors; or two different entries with one digest are at hand.
  pub last_digest_fixes_chain :
      (x : EvidenceItem) (xs : List EvidenceItem) (y : EvidenceItem) (ys : List EvidenceItem)
      → x.chain_seq ≡ some 0
      → y.chain_seq ≡ some 0
      → is_ok (verify_chain sha256_json (x ∷ xs) none) ≡ true
      → is_ok (verify_chain sha256_json (y ∷ ys) none) ≡ true
      → last_digest none (x ∷ xs) ≡ last_digest none (y ∷ ys)
      → SameEntries (x ∷ xs) (y ∷ ys) ⊎ Collision
  last_digest_fixes_chain x xs y ys h k v w d =
      let l = (verify_chain-linked sha256_json x xs none 0 h (λ _. refl)).0 v in
      let m = (verify_chain-linked sha256_json y ys none 0 k (λ _. refl)).0 w in
      let (a, a_last, a_at) = last_entry x xs 0 none l in
      let (b, b_last, b_at) = last_entry y ys 0 none m in
      elim (same_last a b (0 + length xs) (0 + length ys) a_at b_at (ground arith)) [
        | inr c ↦ inr c
        | inl e ↦ elim (chains_agree (x ∷ xs) (y ∷ ys) 0 0 none none l m (omega arith) d) [
          | inl (s, _) ↦ inl s
          | inr c ↦ inr c
        ]
      ]
