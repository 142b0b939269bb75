-- ===== src/Lease/Invariant.antt =====
-- What holds of a lease store between two calls (lease.py), and that every call keeps it.
use vuoro.Prelude.{
  ℕ, String, ◌≡◌, refl, ap, ◌∙◌, false, Option, none, some, ◌∷◌, arith, ◌⊎◌, inl, inr, Option-cases,
  Bool-cases, ltb, ◌+◌, not, ◌&&◌,
}
use vuoro.Prelude.Eq.{◌==◌, string_keys, elem}
use vuoro.Dict.{
  get, put, remove, get-put, get-remove, Distinct, put-Distinct, remove-Distinct, find_value-some,
}
use text.Mathlib.TextEquality.{eq_iff}
use vuoro.Lease.{
  Lease, LeaseStore, Reason, expired, superseded, new_store, claim_on, claim, reclaim, heartbeat_on,
  heartbeat, complete_late, complete_on, complete, current_for_lease_id, retain,
}

-- A lease was issued for the subject and to the holder.
abbrev pub IssuedAs : Option Lease → String → String → Type 0
IssuedAs none subject holder = ⊥
IssuedAs (some o) subject holder = (o.subject ≡ subject) × (o.holder ≡ holder)

-- Each active lease stands under its own subject, was issued to its holder, and is not completed.
pub record IsValid {R : Type 0} (s : LeaseStore R) : Type 0 where
  pub distinct : Distinct s.by_subject
  pub keyed : (k : String) (l : Lease) → get s.by_subject k ≡ some l → l.subject ≡ k
  pub issued_all :
      (k : String) (l : Lease)
      → get s.by_subject k ≡ some l
      → IssuedAs (get s.issued l.lease_id) l.subject l.holder
  pub issued_keyed : (i : String) (l : Lease) → get s.issued i ≡ some l → l.lease_id ≡ i
  pub active :
      (k : String) (l : Lease) → get s.by_subject k ≡ some l → elem l.lease_id s.completed ≡ false
  pub completed_known : (i : String) → get s.issued i ≡ none → elem i s.completed ≡ false

module _ {R : Type 0} where
  -- Two active leases with one id stand under one subject.
  pub same_id_same_subject :
      (s : LeaseStore R) (j k : String) (l m : Lease)
      → IsValid s
      → get s.by_subject j ≡ some l
      → get s.by_subject k ≡ some m
      → l.lease_id ≡ m.lease_id
      → j ≡ k
  same_id_same_subject s j k l m v hl hm e = ground (
    arith,
    v.keyed j l hl,
    v.keyed k m hm,
    v.issued_all j l hl,
    v.issued_all k m hm,
    ap (get s.issued) e,
  )

  -- The assignments of `claim` and `reclaim`, for a lease that is new or goes on.
  module _ (s : LeaseStore R) (l : Lease) (subject : String) (v : IsValid s)
      (e : l.subject ≡ subject)
      (o : IssuedAs (get s.issued l.lease_id) l.subject l.holder ⊎ (get s.issued l.lease_id ≡ none))
      (c : elem l.lease_id s.completed ≡ false) where
    abbrev filed : LeaseStore R
    filed = record s { by_subject = put s.by_subject subject l; issued = put s.issued l.lease_id l }

    file-IssuedAs :
        (k : String) (m : Lease)
        → get filed.by_subject k ≡ some m
        → IssuedAs (get filed.issued m.lease_id) m.subject m.holder
    file-IssuedAs k m h = ground (
      arith,
      get-put s.by_subject subject l k,
      get-put s.issued l.lease_id l m.lease_id,
      eq_iff subject k,
      eq_iff l.lease_id m.lease_id,
      v.issued_all k m,
    )

    file-IsValid : IsValid filed
    file-IsValid = record {
      distinct = put-Distinct s.by_subject subject l v.distinct;
      keyed =
          λ k m h. ground (arith, get-put s.by_subject subject l k, eq_iff subject k, v.keyed k m);
      issued_all = file-IssuedAs;
      issued_keyed = λ i m h.
          ground (arith, get-put s.issued l.lease_id l i, eq_iff l.lease_id i, v.issued_keyed i m);
      active =
          λ k m h. ground (arith, get-put s.by_subject subject l k, eq_iff subject k, v.active k m);
      completed_known = λ i h. ground (arith, get-put s.issued l.lease_id l i, v.completed_known i);
    }

  claim_on-IsValid :
      (s : LeaseStore R) (subject holder : String) (ttl now : ℕ) (fresh : String) (o : Option Lease)
      → IsValid s
      → get s.issued fresh ≡ none
      → get s.by_subject subject ≡ o
      → IsValid (claim_on o s subject holder ttl now fresh).1
  unfolding claim_on
  claim_on-IsValid s subject holder ttl now fresh none v f e =
      file-IsValid s _ subject v refl (inr f) (v.completed_known fresh f)
  claim_on-IsValid s subject holder ttl now fresh (some l) v f e =
      let first =
        file-IsValid s
          (record {
            lease_id = fresh;
            subject = subject;
            holder = holder;
            issued_at = now;
            ttl_seconds = ttl;
            last_heartbeat_at = now;
          })
          subject v refl (inr f) (v.completed_known fresh f) in
      let again =
        file-IsValid s (record l { last_heartbeat_at = now }) subject v (v.keyed subject l e)
          (inl (v.issued_all subject l e)) (v.active subject l e) in
      elim (Bool-cases (ltb (l.last_heartbeat_at + l.ttl_seconds) now)) [
        | inl t ↦ elim (Bool-cases (l.holder == holder)) [
          | inl same ↦ rw (t, same) again
          | inr other ↦ rw (t, other) first
        ]
        | inr t ↦ rw t v
      ]

  pub claim-IsValid :
      (s : LeaseStore R) (subject holder : String) (ttl now : ℕ) (fresh : String)
      → IsValid s
      → get s.issued fresh ≡ none
      → IsValid (claim s subject holder ttl now fresh).1
  unfolding claim
  claim-IsValid s subject holder ttl now fresh v f =
      claim_on-IsValid s subject holder ttl now fresh _ v f refl

  pub reclaim-IsValid :
      (s : LeaseStore R) (subject holder : String) (ttl now : ℕ) (fresh : String)
      → IsValid s
      → get s.issued fresh ≡ none
      → IsValid (reclaim s subject holder ttl now fresh).1
  unfolding reclaim
  reclaim-IsValid s subject holder ttl now fresh v f =
      claim_on-IsValid s subject holder ttl now fresh _ v f refl

  -- The store after a heartbeat of the active lease `l`.
  beat-IsValid :
      (s : LeaseStore R) (l : Lease) (now : ℕ)
      → IsValid s
      → get s.by_subject l.subject ≡ some l
      → IsValid (record s {
        by_subject = put s.by_subject l.subject (record l { last_heartbeat_at = now });
      })
  beat-IsValid s l now v a =
      let m = record l { last_heartbeat_at = now } in
      record {
        distinct = put-Distinct s.by_subject l.subject m v.distinct;
        keyed = λ k n h.
            ground (arith, get-put s.by_subject l.subject m k, eq_iff l.subject k, v.keyed k n);
        issued_all = λ k n h.
            ground (
              arith,
              get-put s.by_subject l.subject m k,
              v.issued_all k n,
              v.issued_all l.subject l,
            );
        issued_keyed = v.issued_keyed;
        active = λ k n h.
            ground (arith, get-put s.by_subject l.subject m k, v.active k n, v.active l.subject l);
        completed_known = v.completed_known;
      }

  pub current_for_lease_id-some :
      (s : LeaseStore R) (i : String) (l : Lease)
      → IsValid s
      → current_for_lease_id s i ≡ some l
      → (get s.by_subject l.subject ≡ some l) × (l.lease_id ≡ i)
  unfolding current_for_lease_id
  current_for_lease_id-some s i l v f =
      let (k, g, t) = find_value-some _ s.by_subject l v.distinct f in
      (ap (get s.by_subject) (v.keyed k l g) ∙ g, (eq_iff l.lease_id i).0 t)

  pub heartbeat-IsValid :
      (s : LeaseStore R) (i holder : String) (now : ℕ)
      → IsValid s
      → IsValid (heartbeat s i holder now).1
  unfolding heartbeat
  heartbeat-IsValid s i holder now v = elim (Option-cases (current_for_lease_id s i)) [
    | inl n ↦ rw n v
    | inr (l, f) ↦
        let b = beat-IsValid s l now v (current_for_lease_id-some s i l v f).0 in rw f (step l b)
  ]
    where
      step :
          (l : Lease)
          → IsValid (record s {
            by_subject = put s.by_subject l.subject (record l { last_heartbeat_at = now });
          })
          → IsValid (heartbeat_on (some l) s holder now).1
      step l b = elim (Bool-cases (l.holder == holder)) [
        | inr other ↦ rw other v
        | inl same ↦ elim (Bool-cases (ltb (l.last_heartbeat_at + l.ttl_seconds) now)) [
          | inl late ↦ rw (same, late) v
          | inr live ↦ rw (same, live) b
        ]
      ]

  -- A store whose leases are those of a valid store is valid.
  retain-IsValid :
      (s : LeaseStore R) (l : Lease) (result : R) (reason : Reason) (now : ℕ)
      → IsValid s
      → IsValid (retain s l result reason now)
  unfolding retain
  retain-IsValid s l result reason now v = record {
    distinct = v.distinct;
    keyed = v.keyed;
    issued_all = v.issued_all;
    issued_keyed = v.issued_keyed;
    active = v.active;
    completed_known = v.completed_known;
  }

  settle-IsValid :
      (s : LeaseStore R) (l : Lease)
      → IsValid s
      → get s.by_subject l.subject ≡ some l
      → IsValid (record s {
        by_subject = remove s.by_subject l.subject;
        completed = l.lease_id ∷ s.completed;
      })
  settle-IsValid s l v a = record {
    distinct = remove-Distinct s.by_subject l.subject v.distinct;
    keyed = λ k m h. ground (arith, get-remove s.by_subject l.subject k, v.keyed k m);
    issued_all = λ k m h. ground (arith, get-remove s.by_subject l.subject k, v.issued_all k m);
    issued_keyed = v.issued_keyed;
    active = λ k m h. ground (
      arith,
      get-remove s.by_subject l.subject k,
      v.active k m,
      eq_iff l.lease_id m.lease_id,
      eq_iff l.subject k,
      same_id_same_subject s l.subject k l m v a,
    );
    completed_known =
        λ i h. ground (arith, v.completed_known i, eq_iff l.lease_id i, v.issued_all l.subject l);
  }

  complete_late-IsValid :
      (o : Option Lease) (s : LeaseStore R) (i holder : String) (result : R) (now : ℕ)
      → IsValid s
      → IsValid (complete_late o s i holder result now)
  unfolding complete_late
  complete_late-IsValid none s i holder result now v = v
  complete_late-IsValid (some l) s i holder result now v =
      elim (Bool-cases ((l.holder == holder) && not (elem i s.completed))) [
        | inl t ↦ rw t (retain-IsValid s l result superseded now v)
        | inr t ↦ rw t v
      ]

  complete_on-IsValid :
      (o : Option Lease) (s : LeaseStore R) (i holder : String) (result : R) (now : ℕ)
      → IsValid s
      → current_for_lease_id s i ≡ o
      → IsValid (complete_on o s i holder result now).1
  unfolding complete_on
  complete_on-IsValid none s i holder result now v f =
      complete_late-IsValid (get s.issued i) s i holder result now v
  complete_on-IsValid (some l) s i holder result now v f =
      let (a, e) = current_for_lease_id-some s i l v f in
      elim (Bool-cases (l.holder == holder)) [
        | inr other ↦ rw other v
        | inl same ↦ elim (Bool-cases (ltb (l.last_heartbeat_at + l.ttl_seconds) now)) [
          | inl late ↦ rw (same, late) (retain-IsValid s l result expired now v)
          | inr live ↦ rw (same, live, ← e) (settle-IsValid s l v a)
        ]
      ]

  pub complete-IsValid :
      (s : LeaseStore R) (i holder : String) (result : R) (now : ℕ)
      → IsValid s
      → IsValid (complete s i holder result now).1
  unfolding complete
  complete-IsValid s i holder result now v =
      complete_on-IsValid (current_for_lease_id s i) s i holder result now v refl

pub new_store-IsValid : {R : Type 0} → IsValid (new_store {R = R})
unfolding get
new_store-IsValid = record {
  distinct = tt;
  keyed = λ k l h. cc;
  issued_all = λ k l h. cc;
  issued_keyed = λ i l h. cc;
  active = λ k l h. cc;
  completed_known = λ i h. refl;
}
