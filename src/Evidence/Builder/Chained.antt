-- ===== src/Evidence/Builder/Chained.antt =====
-- A built set is a chain by construction (core/set_builder.py).
use mathlib.Core.List.{append_assoc, append-nil, map-append}
use vuoro.Prelude.{
  ℕ, ◌+◌, String, ◌≡◌, refl, ◌∙◌, true, false, Option, none, some, List, [], ◌∷◌, ◌++◌, not, all,
  arith, inl, inr, Bool-cases, map,
}
use vuoro.Prelude.Eq.{string_keys, option_keys}
use vuoro.Prelude.Result.{Result, ok, err}
use vuoro.Evidence.Model.{EvidenceItem, EffectGrant}
use vuoro.Evidence.Chain.{
  Payload, entry_digest, link, link_after, tail_of, verify_chain, verify_from, is_ok,
}
use vuoro.Evidence.Chain.Links.{LinkedFrom, verify_chain-linked}
use vuoro.Evidence.Builder.{
  Builder, AddError, new_builder, unless_refused, is_foreign, stamped, add, extend, build,
  verify_evidence_set,
}

module _ (sha256_json : Payload → String) where
  -- What `link` makes of an item at the end of a chain that is not empty.
  record Continues (n : ℕ) (p : Option String) (items : List EvidenceItem) (item : EvidenceItem)
      : Type 0 where
    chained : EvidenceItem
    linked : link_after sha256_json (tail_of items) item ≡ ok chained
    same_id : chained.item_id ≡ item.item_id
    longer : LinkedFrom sha256_json n p (items ++ chained ∷ [])

  link-Continues :
      (x : EvidenceItem) (xs : List EvidenceItem) (item : EvidenceItem) (n : ℕ) (p : Option String)
      → LinkedFrom sha256_json n p (x ∷ xs)
      → Continues n p (x ∷ xs) item
  unfolding link_after tail_of
  link-Continues x [] item n p l = record {
    chained = record item {
      chain_seq = some (n + 1);
      chain_prev_digest = some (entry_digest sha256_json x);
    };
    linked = ground (arith, l.0);
    same_id = refl;
    longer = (l.0, l.1, (refl, refl, tt));
  }
  link-Continues x (y ∷ ys) item n p l =
      let c = link-Continues y ys item (n + 1) (some (entry_digest sha256_json x)) l.2 in
      record {
        chained = c.chained;
        linked = c.linked;
        same_id = c.same_id;
        longer = (l.0, l.1, c.longer);
      }

  link_total :
      (items : List EvidenceItem) (item : EvidenceItem)
      → LinkedFrom sha256_json 0 none items
      → Continues 0 none items item
  unfolding link_after tail_of
  link_total [] item l = record {
    chained = record item { chain_seq = some 0; chain_prev_digest = none };
    linked = refl;
    same_id = refl;
    longer = (refl, refl, tt);
  }
  link_total (x ∷ xs) item l = unfold link_after tail_of in link-Continues x xs item 0 none l

  item_id-stamped :
      (item : EvidenceItem) (run : Option String) → (stamped item run).item_id ≡ item.item_id
  unfolding stamped
  item_id-stamped item run = ground arith

  abbrev pub IsChained : Builder → Type 0
  IsChained b = LinkedFrom sha256_json 0 none b.items

  add-IsChained :
      (b : Builder) (item : EvidenceItem) → IsChained b → IsChained (add sha256_json b item).1
  unfolding add link
  add-IsChained b item l = elim (Bool-cases (is_foreign b.run_id item.run_id)) [
    | inl foreign ↦ rw foreign l
    | inr own ↦ let c = link_total b.items (stamped item b.run_id) l in rw (own, c.linked) c.longer
  ]

  -- The ids of the items of a builder, in order.
  abbrev pub ids : List EvidenceItem → List String
  ids = map (λ (i : EvidenceItem). i.item_id)

  abbrev Added : Builder → EvidenceItem → Type 0
  Added b item =
      (chained : EvidenceItem) × (add sha256_json b item
        ≡ (ok chained, record b { items = b.items ++ chained ∷ [] }))
      × (chained.item_id ≡ item.item_id)

  add_own :
      (b : Builder) (item : EvidenceItem)
      → IsChained b
      → is_foreign b.run_id item.run_id ≡ false
      → Added b item
  unfolding add link
  add_own b item l own =
      let c = link_total b.items (stamped item b.run_id) l in
      (c.chained, rw (own, c.linked), c.same_id ∙ item_id-stamped item b.run_id)

  unless_refused-IsChained :
      (r : Result AddError EvidenceItem) (b : Builder) (rest : Result AddError (Unit {0}) × Builder)
      → IsChained b
      → IsChained rest.1
      → IsChained (unless_refused r b rest).1
  unless_refused-IsChained (ok c) b rest m n = n
  unless_refused-IsChained (err e) b rest m n = m

  extend-IsChained :
      (b : Builder) (items : List EvidenceItem)
      → IsChained b
      → IsChained (extend sha256_json b items).1
  unfolding extend
  extend-IsChained b [] l = l
  extend-IsChained b (item ∷ items) l =
      let m = add-IsChained b item l in
      let n = extend-IsChained (add sha256_json b item).1 items m in
      unless_refused-IsChained (add sha256_json b item).0 (add sha256_json b item).1
        (extend sha256_json (add sha256_json b item).1 items) m n

  verifies_of_LinkedFrom :
      (items : List EvidenceItem)
      → LinkedFrom sha256_json 0 none items
      → is_ok (verify_chain sha256_json items none) ≡ true
  verifies_of_LinkedFrom [] l = unfold verify_chain verify_from in refl
  verifies_of_LinkedFrom (x ∷ xs) l =
      (verify_chain-linked sha256_json x xs none 0 l.0 (λ _. refl)).1 l

  -- Whatever items a new builder is given, and also where it refuses one, the set that it builds
  -- verifies as one unbroken chain.
  pub built_set_verifies :
      (set_id : String) (run_id : Option String) (items : List EvidenceItem)
      (grants : List EffectGrant)
      → is_ok (
          verify_evidence_set sha256_json
            (build (extend sha256_json (new_builder set_id run_id) items).1 grants)
            none)
        ≡ true
  unfolding verify_evidence_set build
  built_set_verifies set_id run_id items grants =
      verifies_of_LinkedFrom _ (extend-IsChained (new_builder set_id run_id) items tt)

  -- Items of no other run are all taken, in their order, after those that were there.
  pub extend_own :
      (items : List EvidenceItem) (b : Builder)
      → IsChained b
      → all (λ i. not (is_foreign b.run_id i.run_id)) items ≡ true
      → ((extend sha256_json b items).0 ≡ ok tt)
        × (ids (extend sha256_json b items).1.items ≡ ids b.items ++ ids items)
  unfolding extend
  extend_own [] b l h = (refl, rw append-nil)
  extend_own (item ∷ items) b l h =
      let (chained, done, same) = add_own b item l (ground arith) in
      let kept : IsChained (record b { items = b.items ++ chained ∷ [] }) =
        rw done at (add-IsChained b item l) in
      let (ended, all_ids) =
        extend_own items (record b { items = b.items ++ chained ∷ [] }) kept (ground arith) in
      (rw done ended, rw done (all_ids ∙ simp (map-append, append_assoc, same)))
