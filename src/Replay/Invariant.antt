-- ===== src/Replay/Invariant.antt =====
-- What holds of the cache between two calls, and that every call keeps it (replay.py).
use vuoro.Prelude.{
  ℕ, suc, ◌+◌, ◌≤◌, String, ◌≡◌, refl, true, Option, none, some, ◌||◌, not, leb, ltb, arith, inl,
  inr, Option-cases, Bool-cases, length, is_some, ◌⊎◌,
}
use vuoro.Prelude.Eq.{◌==◌, nat_keys, string_keys}
use vuoro.Dict.{get, put, get-put, Distinct, put-Distinct}
use vuoro.Replay.{Entry, ReplayCache, new_cache, push, purge, claim_entry, claim, log_due}
use vuoro.Replay.Rows.{
  Rowed, IsSorted, push-IsSorted, has_row-push, survivor, get-purge_rows, purge_rows-Distinct,
  purge_rows-IsSorted, has_row-purge_rows, length-purge_rows-le, length-put,
}

-- The heap is in order, every entry has the row of its expiry in it, and the cap is kept.
pub record IsValid (c : ReplayCache) : Type 0 where
  pub sorted : IsSorted c.expiry
  pub distinct : Distinct c.entries
  pub rowed : (k : ℕ) → Rowed (get c.entries k) k c.expiry
  pub bounded : length c.entries ≤ c.max_entries

-- The entry of a key, if it has not expired.
unfoldable pub live : ReplayCache → ℕ → ℕ → Option Entry
live c now k = survivor (get c.entries k) now

module _ (c : ReplayCache) (now : ℕ) (v : IsValid c) where
  pub get-purge : (k : ℕ) → get (purge c now).entries k ≡ live c now k
  unfolding purge live
  get-purge k = get-purge_rows c.expiry c.entries now k v.sorted (v.rowed k)

  purge-Rowed : (k : ℕ) → Rowed (get (purge c now).entries k) k (purge c now).expiry
  unfolding purge
  purge-Rowed k = elim (Option-cases (get c.entries k)) [
    | inl n ↦ ground (arith, get-purge_rows c.expiry c.entries now k v.sorted, v.rowed k)
    | inr (x, g) ↦ ground (
      arith,
      get-purge_rows c.expiry c.entries now k v.sorted,
      v.rowed k,
      has_row-purge_rows c.expiry c.entries now x.expires_at k,
    )
  ]

  pub purge-IsValid : IsValid (purge c now)
  unfolding purge
  purge-IsValid = record {
    sorted = purge_rows-IsSorted c.expiry c.entries now v.sorted;
    distinct = purge_rows-Distinct c.expiry c.entries now v.distinct;
    rowed = unfold purge in purge-Rowed;
    bounded = omega (arith, length-purge_rows-le c.expiry c.entries now, v.bounded);
  }

-- The assignments that end an accepted claim which sets an expiry.
module _ (c : ReplayCache) (k : ℕ) (x : Entry) (v : IsValid c)
    (room : (is_some (get c.entries k) ≡ true) ⊎ (suc (length c.entries) ≤ c.max_entries)) where
  stored-IsValid :
      IsValid (record c { entries = put c.entries k x; expiry = push (x.expires_at, k) c.expiry })
  stored-IsValid = record {
    sorted = push-IsSorted x.expires_at k c.expiry v.sorted;
    distinct = put-Distinct c.entries k x v.distinct;
    rowed = λ j. elim (Option-cases (get c.entries j)) [
      | inl n ↦
          ground
            (arith, get-put c.entries k x j, has_row-push x.expires_at j x.expires_at k c.expiry)
      | inr (y, g) ↦ ground (
        arith,
        get-put c.entries k x j,
        has_row-push x.expires_at j x.expires_at k c.expiry,
        has_row-push y.expires_at j x.expires_at k c.expiry,
        v.rowed j,
      )
    ];
    bounded = ground (arith, length-put c.entries k x, v.bounded);
  }

counted-IsValid :
    (c : ReplayCache) (k n : ℕ) (x : Entry)
    → IsValid c
    → get c.entries k ≡ some x
    → IsValid (record c { entries = put c.entries k (record x { uses = n }) })
counted-IsValid c k n x v g = record {
  sorted = v.sorted;
  distinct = put-Distinct c.entries k _ v.distinct;
  rowed = λ j. ground (arith, get-put c.entries k (record x { uses = n }) j, v.rowed j, v.rowed k);
  bounded = ground (arith, length-put c.entries k (record x { uses = n }), v.bounded);
}

relogged-IsValid :
    (c : ReplayCache) (n : ℕ) (t : Option ℕ)
    → IsValid c
    → IsValid (record c { refused_since_log = n; last_full_log = t })
relogged-IsValid c n t v = record {
  sorted = v.sorted;
  distinct = v.distinct;
  rowed = v.rowed;
  bounded = v.bounded;
}

claim_entry-IsValid :
    (o : Option Entry) (c : ReplayCache) (k expires_at : ℕ) (route : String) (max_uses now : ℕ)
    → IsValid c
    → get c.entries k ≡ o
    → IsValid (claim_entry o c k expires_at route max_uses now).1
unfolding claim_entry
claim_entry-IsValid none c k expires_at route max_uses now v g =
    elim (Bool-cases (leb c.max_entries (length c.entries))) [
      | inl full ↦ elim (Bool-cases (log_due c.last_full_log now)) [
        | inl due ↦ rw (full, due) (relogged-IsValid c 0 (some now) v)
        | inr quiet ↦
            rw (full, quiet) (relogged-IsValid c (c.refused_since_log + 1) c.last_full_log v)
      ]
      | inr room ↦ rw room (stored-IsValid c k _ v (inr (ground arith)))
    ]
claim_entry-IsValid (some x) c k expires_at route max_uses now v g =
    elim (Bool-cases (not (x.route == route) || leb max_uses x.uses)) [
      | inl no_more ↦ rw no_more v
      | inr more ↦ elim (Bool-cases (ltb x.expires_at expires_at)) [
        | inl later ↦
            let y = record x { uses = x.uses + 1; expires_at = expires_at } in
            rw (more, later) (stored-IsValid c k y v (inl (rw g)))
        | inr same ↦ rw (more, same) (counted-IsValid c k (x.uses + 1) x v g)
      ]
    ]

-- Every claim, whatever its result, keeps the invariant; so the cap is never passed.
pub claim-IsValid :
    (c : ReplayCache) (k expires_at : ℕ) (route : String) (max_uses now : ℕ)
    → IsValid c
    → IsValid (claim c k expires_at route max_uses now).1
unfolding claim
claim-IsValid c k expires_at route max_uses now v =
    claim_entry-IsValid (get (purge c now).entries k) (purge c now) k expires_at route max_uses now
      (purge-IsValid c now v) refl

pub new_cache-IsValid : (n : ℕ) (c : ReplayCache) → new_cache n ≡ some c → IsValid c
unfolding new_cache get
new_cache-IsValid n c h = record {
  sorted = ground arith;
  distinct = ground arith;
  rowed = λ k. ground arith;
  bounded = ground arith;
}
