-- ===== src/Lease/Settlement.antt =====
-- Which completions settle, and what is kept of those that do not (INV-L1 of lease.py).
use vuoro.Prelude.{
  ℕ, ◌+◌, ◌≤◌, String, ◌≡◌, refl, ap, Bool, true, false, none, some, [], ◌∷◌, ◌++◌, arith, ◌↔◌, inl,
  inr, Option-cases, not, ◌&&◌,
}
use vuoro.Prelude.Eq.{◌==◌, string_keys, elem}
use vuoro.Prelude.Result.{ok, err}
use vuoro.Dict.{get, find_value-none}
use text.Mathlib.TextEquality.{eq_iff}
use vuoro.Lease.{
  Lease, LeaseStore, LeaseError, RetainedOutcome, Reason, superseded, expired, complete,
  current_for_lease_id,
}
use vuoro.Lease.Invariant.{IsValid, same_id_same_subject, current_for_lease_id-some}

module _ {R : Type 0} where
  -- `holder` has an active lease with this id that has not expired.
  pub record HoldsLive (s : LeaseStore R) (i holder : String) (now : ℕ) : Type 0 where
    pub lease : Lease
    pub active : get s.by_subject lease.subject ≡ some lease
    pub same_id : lease.lease_id ≡ i
    pub same_holder : lease.holder ≡ holder
    pub in_time : now ≤ lease.last_heartbeat_at + lease.ttl_seconds

  -- The store finds the active lease of a subject by its id.
  pub current_for_lease_id_active :
      (s : LeaseStore R) (l : Lease)
      → IsValid s
      → get s.by_subject l.subject ≡ some l
      → current_for_lease_id s l.lease_id ≡ some l
  current_for_lease_id_active s l v a = elim (Option-cases (current_for_lease_id s l.lease_id)) [
    | inl n ↦ absurd (
        unfold current_for_lease_id in
        ground
          (arith, find_value-none _ s.by_subject l.subject l n a, eq_iff l.lease_id l.lease_id))
    | inr (m, f) ↦
        let (b, e) = current_for_lease_id-some s l.lease_id m v f in
        ground (arith, same_id_same_subject s m.subject l.subject m l v b a e)
  ]

  settles_of_HoldsLive :
      (s : LeaseStore R) (i holder : String) (result : R) (now : ℕ)
      → IsValid s
      → HoldsLive s i holder now
      → (complete s i holder result now).0 ≡ ok tt
  unfolding complete
  settles_of_HoldsLive s i holder result now v h = ground (
    arith,
    current_for_lease_id_active s h.lease v h.active,
    ap (current_for_lease_id s) h.same_id,
    eq_iff h.lease.holder holder,
  )

  HoldsLive-of_settles :
      (s : LeaseStore R) (i holder : String) (result : R) (now : ℕ)
      → IsValid s
      → (complete s i holder result now).0 ≡ ok tt
      → HoldsLive s i holder now
  unfolding complete
  HoldsLive-of_settles s i holder result now v done =
      elim (Option-cases (current_for_lease_id s i)) [
        | inl n ↦ absurd (ground arith)
        | inr (l, f) ↦
            let (a, e) = current_for_lease_id-some s i l v f in
            record {
              lease = l;
              active = a;
              same_id = e;
              same_holder = ground (arith, eq_iff l.holder holder);
              in_time = ground arith;
            }
      ]

  -- A completion settles exactly when its caller holds the named lease and the lease is active and
  -- has not expired.
  pub complete_settles_iff :
      (s : LeaseStore R) (i holder : String) (result : R) (now : ℕ)
      → IsValid s
      → ((complete s i holder result now).0 ≡ ok tt) ↔ HoldsLive s i holder now
  complete_settles_iff s i holder result now v =
      (HoldsLive-of_settles s i holder result now v, settles_of_HoldsLive s i holder result now v)

  -- The lease id was issued to `holder`, who has not completed it.
  pub owes : LeaseStore R → String → String → Bool
  owes s i holder = elim (get s.issued i) [
    | none ↦ false
    | some o ↦ (o.holder == holder) && not (elem i s.completed)
  ]

  -- The evidence that a refused completion leaves.
  pub record Retains (s t : LeaseStore R) (i holder : String) (result : R) (now : ℕ) : Type 0 where
    pub outcome : RetainedOutcome R
    pub appended : t.retained ≡ s.retained ++ outcome ∷ []
    pub its_id : outcome.lease_id ≡ i
    pub its_holder : outcome.holder ≡ holder
    pub its_result : outcome.result ≡ result
    pub its_time : outcome.retained_at ≡ now
    pub no_settlement : outcome.settlement_effect ≡ "none"

  -- Nothing but the evidence may change.
  pub record SameLeases (s t : LeaseStore R) : Type 0 where
    pub same_active : t.by_subject ≡ s.by_subject
    pub same_issued : t.issued ≡ s.issued
    pub same_completed : t.completed ≡ s.completed

  module _ (s : LeaseStore R) (i holder : String) (result : R) (now : ℕ) {e : LeaseError}
      (v : IsValid s) (refused : (complete s i holder result now).0 ≡ err e) where
    refused-SameLeases : SameLeases s (complete s i holder result now).1
    unfolding complete
    refused-SameLeases = ground arith

    refused-Retains :
        owes s i holder ≡ true → Retains s (complete s i holder result now).1 i holder result now
    unfolding complete owes
    refused-Retains own = elim (Option-cases (current_for_lease_id s i)) [
      | inl n ↦ elim (Option-cases (get s.issued i)) [
        | inl m ↦ absurd (ground arith)
        | inr (o, m) ↦ record {
          outcome = evidence o superseded;
          appended = ground arith;
          its_id = v.issued_keyed i o m;
          its_holder = ground (arith, eq_iff o.holder holder);
          its_result = refl;
          its_time = refl;
          no_settlement = refl;
        }
      ]
      | inr (l, f) ↦
          let (a, k) = current_for_lease_id-some s i l v f in
          record {
            outcome = evidence l expired;
            appended =
                ground
                  (arith, v.issued_all l.subject l a, ap (get s.issued) k, eq_iff l.holder holder);
            its_id = k;
            its_holder =
                ground
                  (arith, v.issued_all l.subject l a, ap (get s.issued) k, eq_iff l.holder holder);
            its_result = refl;
            its_time = refl;
            no_settlement = refl;
          }
    ]
      where
        evidence : Lease → Reason → RetainedOutcome R
        evidence l reason = record {
          lease_id = l.lease_id;
          subject = l.subject;
          holder = l.holder;
          result = result;
          reason = reason;
          retained_at = now;
          disposition = "stale";
          settlement_effect = "none";
        }

    refused_silent :
        owes s i holder ≡ false → (complete s i holder result now).1.retained ≡ s.retained
    unfolding complete owes
    refused_silent own = elim (Option-cases (current_for_lease_id s i)) [
      | inl n ↦ ground arith
      | inr (l, f) ↦
          let (a, k) = current_for_lease_id-some s i l v f in
          ground (
            arith,
            v.issued_all l.subject l a,
            v.active l.subject l a,
            ap (get s.issued) k,
            ap (λ (j : String). elem j s.completed) k,
            eq_iff l.holder holder,
          )
    ]

  -- A refused completion changes no lease; it leaves its result as evidence that settles nothing if
  -- the caller was issued the lease and has not completed it, and otherwise leaves nothing.
  pub complete_refused :
      (s : LeaseStore R) (i holder : String) (result : R) (now : ℕ) {e : LeaseError}
      → IsValid s
      → (complete s i holder result now).0 ≡ err e
      → SameLeases s (complete s i holder result now).1
        × (owes s i holder ≡ true
            → Retains s (complete s i holder result now).1 i holder result now)
        × (owes s i holder ≡ false → (complete s i holder result now).1.retained ≡ s.retained)
  complete_refused s i holder result now v r = (
    refused-SameLeases s i holder result now v r,
    refused-Retains s i holder result now v r,
    refused_silent s i holder result now v r,
  )
