-- ===== src/Lease/Grants.antt =====
-- What a granted claim gives its holder (lease.py).
use vuoro.Prelude.{
  ℕ, ◌+◌, ◌≤◌, String, ◌≡◌, ◌≢◌, refl, true, false, none, some, arith, Option-cases, Bool-cases,
  inl, inr,
}
use vuoro.Prelude.Eq.{◌==◌, string_keys}
use vuoro.Prelude.Result.{ok, err}
use vuoro.Dict.{get, get-put}
use text.Mathlib.TextEquality.{eq_iff}
use vuoro.Lease.{Lease, LeaseStore, claim, complete, is_expired, subject_is_expired, conflict}
use vuoro.Lease.Invariant.{IsValid, claim-IsValid}
use vuoro.Lease.Settlement.{HoldsLive, complete_settles_iff}

module _ {R : Type 0} where
  abbrev successor : LeaseStore R → String → String → ℕ → ℕ → String → Lease
  successor s subject holder ttl now fresh = record {
    lease_id = fresh;
    subject = subject;
    holder = holder;
    issued_at = now;
    ttl_seconds = ttl;
    last_heartbeat_at = now;
  }

  granted-HoldsLive :
      (s : LeaseStore R) (subject holder : String) (ttl now : ℕ) (fresh : String) (l : Lease)
      (t : ℕ)
      → IsValid s
      → (claim s subject holder ttl now fresh).0 ≡ ok l
      → t ≤ l.last_heartbeat_at + l.ttl_seconds
      → HoldsLive (claim s subject holder ttl now fresh).1 l.lease_id holder t
  unfolding claim
  granted-HoldsLive s subject holder ttl now fresh l t v done h = record {
    lease = l;
    active = elim (Option-cases (get s.by_subject subject)) [
      | inl n ↦ ground (arith, get-put s.by_subject subject l subject, eq_iff subject subject)
      | inr (m, e) ↦ ground (
        arith,
        get-put s.by_subject subject l subject,
        eq_iff subject subject,
        v.keyed subject m e,
      )
    ];
    same_id = refl;
    same_holder = ground (arith, eq_iff l.holder holder);
    in_time = h;
  }

  -- A claim that is granted gives what its holder needs: until the lease expires, a completion with
  -- the id of the lease that was returned settles.
  pub claim-complete :
      (s : LeaseStore R) (subject holder : String) (ttl now : ℕ) (fresh : String) (l : Lease)
      (result : R) (t : ℕ)
      → IsValid s
      → get s.issued fresh ≡ none
      → (claim s subject holder ttl now fresh).0 ≡ ok l
      → t ≤ l.last_heartbeat_at + l.ttl_seconds
      → (complete (claim s subject holder ttl now fresh).1 l.lease_id holder result t).0 ≡ ok tt
  claim-complete s subject holder ttl now fresh l result t v f done h =
      (complete_settles_iff _ l.lease_id holder result t
          (claim-IsValid s subject holder ttl now fresh v f)).1
        (granted-HoldsLive s subject holder ttl now fresh l t v done h)

  -- While a subject has a lease that has not expired, a claim is refused as a conflict and changes
  -- nothing, whoever makes it; otherwise it is granted to its holder from `now` on. A holder whose
  -- own lease has expired gets that lease again, with its id, issue time and ttl.
  pub claim_grants :
      (s : LeaseStore R) (subject holder : String) (ttl now : ℕ) (fresh : String)
      → IsValid s
      → (subject_is_expired s subject now ≡ some false
          → claim s subject holder ttl now fresh ≡ (err conflict, s))
        × (subject_is_expired s subject now ≢ some false
            → (l : Lease) × ((claim s subject holder ttl now fresh).0 ≡ ok l)
              × (l.subject ≡ subject)
              × (l.holder ≡ holder)
              × (l.last_heartbeat_at ≡ now))
        × ((old : Lease)
            → get s.by_subject subject ≡ some old
            → is_expired old now ≡ true
            → old.holder ≡ holder
            → (claim s subject holder ttl now fresh).0
              ≡ ok (record old { last_heartbeat_at = now }))
  unfolding claim subject_is_expired
  claim_grants s subject holder ttl now fresh v = (
    λ live. elim (Option-cases (get s.by_subject subject)) [
      | inl n ↦ ground arith
      | inr (m, e) ↦ ground arith
    ],
    λ free. elim (Option-cases (get s.by_subject subject)) [
      | inl n ↦ (new, ground arith, refl, refl, refl)
      | inr (m, e) ↦ elim (Bool-cases (m.holder == holder)) [
        | inl same ↦ (
          record m { last_heartbeat_at = now },
          ground arith,
          v.keyed subject m e,
          (eq_iff m.holder holder).0 same,
          refl,
        )
        | inr other ↦ (new, ground arith, refl, refl, refl)
      ]
    ],
    λ old a late same. ground (arith, eq_iff old.holder holder),
  )
    where
      new : Lease
      new = successor s subject holder ttl now fresh
