-- ===== src/Lease/Dead.antt =====
-- A lease id that was superseded or completed is refused for ever (lease.py).
use vuoro.Prelude.{
  ℕ, ◌+◌, String, ◌≡◌, ◌≢◌, refl, ap, true, false, Option, none, some, List, [], ◌∷◌, arith,
  Option-cases, Bool-cases, is_some, ltb, inl, inr,
}
use vuoro.Prelude.Eq.{◌==◌, string_keys}
use vuoro.Prelude.Result.{ok, err}
use vuoro.Dict.{get, put, get-put, get-remove, find_value_all}
use text.Mathlib.TextEquality.{eq_iff}
use vuoro.Lease.{
  Lease, LeaseStore, not_current, claim, reclaim, heartbeat, complete, current_for_lease_id,
  is_expired, claim_on,
}
use vuoro.Lease.Invariant.{
  IsValid, same_id_same_subject, reclaim-IsValid, complete-IsValid, current_for_lease_id-some,
}
use vuoro.Lease.Steps.{
  Op, claims, reclaims, beats, completes, step, run, IsFresh, AllFresh, step-IsValid, run-IsValid,
}

module _ {R : Type 0} where
  -- The id was issued, and no active lease has it.
  pub record IsDead (s : LeaseStore R) (i : String) : Type 0 where
    pub issued : is_some (get s.issued i) ≡ true
    pub inactive :
        (k : String) (l : Lease) → get s.by_subject k ≡ some l → (l.lease_id == i) ≡ false

  filed-IsDead :
      (s : LeaseStore R) (subject i : String) (l : Lease)
      → IsDead s i
      → (l.lease_id == i) ≡ false
      → IsDead
          (record s { by_subject = put s.by_subject subject l; issued = put s.issued l.lease_id l })
          i
  filed-IsDead s subject i l d other = record {
    issued = ground (arith, get-put s.issued l.lease_id l i, d.issued);
    inactive = λ k m h. ground (arith, get-put s.by_subject subject l k, d.inactive k m);
  }

  abbrev successor : LeaseStore R → String → String → ℕ → ℕ → String → Lease
  successor s subject holder ttl now fresh = record {
    lease_id = fresh;
    subject = subject;
    holder = holder;
    issued_at = now;
    ttl_seconds = ttl;
    last_heartbeat_at = now;
  }

  claim_on-IsDead :
      (o : Option Lease) (s : LeaseStore R) (subject holder : String) (ttl now : ℕ)
      (fresh i : String)
      → get s.by_subject subject ≡ o
      → get s.issued fresh ≡ none
      → IsDead s i
      → IsDead (claim_on o s subject holder ttl now fresh).1 i
  unfolding claim_on
  claim_on-IsDead none s subject holder ttl now fresh i e f d =
      filed-IsDead s subject i _ d (ground (arith, eq_iff fresh i, d.issued))
  claim_on-IsDead (some l) s subject holder ttl now fresh i e f d =
      let first =
        filed-IsDead s subject i
          (record {
            lease_id = fresh;
            subject = subject;
            holder = holder;
            issued_at = now;
            ttl_seconds = ttl;
            last_heartbeat_at = now;
          })
          d (ground (arith, eq_iff fresh i, d.issued)) in
      let again =
        filed-IsDead s subject i (record l { last_heartbeat_at = now }) d
          (d.inactive subject l e) in
      elim (Bool-cases (ltb (l.last_heartbeat_at + l.ttl_seconds) now)) [
        | inl t ↦ elim (Bool-cases (l.holder == holder)) [
          | inl same ↦ rw (t, same) again
          | inr other ↦ rw (t, other) first
        ]
        | inr t ↦ rw t d
      ]

  heartbeat-IsDead :
      (s : LeaseStore R) (j holder : String) (now : ℕ) (i : String)
      → IsValid s
      → IsDead s i
      → IsDead (heartbeat s j holder now).1 i
  unfolding heartbeat
  heartbeat-IsDead s j holder now i v d = elim (Option-cases (current_for_lease_id s j)) [
    | inl n ↦ rw n d
    | inr (l, f) ↦
        let (a, e) = current_for_lease_id-some s j l v f in
        let m = record l { last_heartbeat_at = now } in
        record {
          issued = ground (arith, d.issued);
          inactive = λ k n h.
              ground
                (arith, get-put s.by_subject l.subject m k, d.inactive k n, d.inactive l.subject l);
        }
  ]

  complete-IsDead :
      (s : LeaseStore R) (j holder : String) (result : R) (now : ℕ) (i : String)
      → IsDead s i
      → IsDead (complete s j holder result now).1 i
  unfolding complete
  complete-IsDead s j holder result now i d = record {
    issued = ground (arith, d.issued);
    inactive = λ k m h. elim (Option-cases (current_for_lease_id s j)) [
      | inl n ↦ ground (arith, d.inactive k m)
      | inr (l, f) ↦ ground (arith, get-remove s.by_subject l.subject k, d.inactive k m)
    ];
  }

  step-IsDead :
      (s : LeaseStore R) (op : Op R) (i : String)
      → IsValid s
      → IsFresh s op
      → IsDead s i
      → IsDead (step s op) i
  unfolding step claim reclaim
  step-IsDead s (claims subject holder ttl now fresh) i v f d =
      claim_on-IsDead (get s.by_subject subject) s subject holder ttl now fresh i refl f d
  step-IsDead s (reclaims subject holder ttl now fresh) i v f d =
      claim_on-IsDead (get s.by_subject subject) s subject holder ttl now fresh i refl f d
  step-IsDead s (beats j holder now) i v f d = heartbeat-IsDead s j holder now i v d
  step-IsDead s (completes j holder result now) i v f d = complete-IsDead s j holder result now i d

  run-IsDead :
      (s : LeaseStore R) (ops : List (Op R)) (i : String)
      → IsValid s
      → AllFresh s ops
      → IsDead s i
      → IsDead (run s ops) i
  unfolding run
  run-IsDead s [] i v f d = d
  run-IsDead s (op ∷ ops) i v f d =
      run-IsDead (step s op) ops i (step-IsValid s op v f.0) f.1 (step-IsDead s op i v f.0 d)

  -- Whoever calls with the id, at whatever time, is told that it is not current.
  abbrev pub IsRefused : LeaseStore R → String → Type 0
  IsRefused s i =
      (holder : String) (result : R) (now : ℕ)
      → ((heartbeat s i holder now).0 ≡ err not_current)
        × ((complete s i holder result now).0 ≡ err not_current)

  IsRefused-of_IsDead : (s : LeaseStore R) (i : String) → IsValid s → IsDead s i → IsRefused s i
  unfolding heartbeat complete
  IsRefused-of_IsDead s i v d holder result now =
      let n = find_value_all (λ (l : Lease). l.lease_id == i) s.by_subject v.distinct d.inactive in
      (unfold current_for_lease_id in rw n, unfold current_for_lease_id in rw n)

  takeover-IsDead :
      (s : LeaseStore R) (l : Lease) (subject holder : String) (ttl now : ℕ) (fresh : String)
      → IsValid s
      → get s.by_subject subject ≡ some l
      → is_expired l now ≡ true
      → l.holder ≢ holder
      → get s.issued fresh ≡ none
      → IsDead (reclaim s subject holder ttl now fresh).1 l.lease_id
  unfolding reclaim
  takeover-IsDead s l subject holder ttl now fresh v a late other f = record {
    issued = ground (
      arith,
      v.issued_all subject l a,
      eq_iff l.holder holder,
      get-put s.issued fresh (successor s subject holder ttl now fresh) l.lease_id,
    );
    inactive = λ k m h. ground (
      arith,
      v.issued_all subject l a,
      eq_iff l.holder holder,
      get-put s.by_subject subject (successor s subject holder ttl now fresh) k,
      same_id_same_subject s subject k l m v a,
      eq_iff m.lease_id l.lease_id,
      eq_iff subject k,
    );
  }

  -- Once another holder has taken over an expired lease, its id is refused for ever: after any
  -- further calls, every heartbeat and every completion with it is refused as not current.
  pub takeover_kills :
      (s : LeaseStore R) (l : Lease) (subject holder : String) (ttl now : ℕ) (fresh : String)
      (ops : List (Op R))
      → IsValid s
      → get s.by_subject subject ≡ some l
      → is_expired l now ≡ true
      → l.holder ≢ holder
      → get s.issued fresh ≡ none
      → AllFresh (reclaim s subject holder ttl now fresh).1 ops
      → IsRefused (run (reclaim s subject holder ttl now fresh).1 ops) l.lease_id
  takeover_kills s l subject holder ttl now fresh ops v a late other f fs =
      let w = reclaim-IsValid s subject holder ttl now fresh v f in
      let dead = takeover-IsDead s l subject holder ttl now fresh v a late other f in
      IsRefused-of_IsDead _ l.lease_id (run-IsValid _ ops w fs)
        (run-IsDead _ ops l.lease_id w fs dead)

  settled-IsDead :
      (s : LeaseStore R) (i holder : String) (result : R) (now : ℕ)
      → IsValid s
      → (complete s i holder result now).0 ≡ ok tt
      → IsDead (complete s i holder result now).1 i
  unfolding complete
  settled-IsDead s i holder result now v done = elim (Option-cases (current_for_lease_id s i)) [
    | inl n ↦ absurd (ground arith)
    | inr (l, f) ↦
        let (a, e) = current_for_lease_id-some s i l v f in
        record {
          issued = ground (arith, v.issued_all l.subject l a, ap (get s.issued) e);
          inactive = λ k m h. ground (
            arith,
            get-remove s.by_subject l.subject k,
            eq_iff l.subject k,
            same_id_same_subject s l.subject k l m v a,
            eq_iff m.lease_id i,
            e,
          );
        }
  ]

  -- A lease settles at most once: after a completion that succeeded and any further calls, every
  -- heartbeat and every completion with its id is refused as not current.
  pub settles_once :
      (s : LeaseStore R) (i holder : String) (result : R) (now : ℕ) (ops : List (Op R))
      → IsValid s
      → (complete s i holder result now).0 ≡ ok tt
      → AllFresh (complete s i holder result now).1 ops
      → IsRefused (run (complete s i holder result now).1 ops) i
  settles_once s i holder result now ops v done fs =
      let w = complete-IsValid s i holder result now v in
      IsRefused-of_IsDead _ i (run-IsValid _ ops w fs)
        (run-IsDead _ ops i w fs (settled-IsDead s i holder result now v done))
