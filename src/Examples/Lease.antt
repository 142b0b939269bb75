-- ===== src/Examples/Lease.antt =====
-- Two workers and one subject (lease.py).
use vuoro.Prelude.{String, ℕ, ◌≡◌, refl, ◌↔◌, true, false, some, ◌≢◌, List, [], ◌∷◌, arith}
use vuoro.Prelude.Eq.{string_keys}
use vuoro.Prelude.Result.{ok, err}
use mathlib.Core.Bool.{false≢true as false_ne_true}
use text.Mathlib.TextEquality.{eq_iff}
use vuoro.Dict.{get, put, remove, find_value}
use vuoro.Lease.{
  Lease, LeaseStore, new_store, conflict, not_current, claim, reclaim, complete,
  current_for_lease_id, subject_is_expired, is_expired,
}
use vuoro.Lease.Invariant.{IsValid, new_store-IsValid, claim-IsValid}
use vuoro.Lease.Settlement.{
  HoldsLive, complete_settles_iff, SameLeases, Retains, owes, complete_refused,
}
use vuoro.Lease.Steps.{Op, claims, completes, step, run, run-IsValid}
use vuoro.Lease.Dead.{takeover_kills, IsRefused, settles_once}
use vuoro.Lease.Evidence.{Extends, run-Extends}
use vuoro.Lease.Grants.{claim-complete, claim_grants}

-- "a" holds "job" from time 10 for 5 ticks.
abbrev held : LeaseStore ℕ
held = (claim new_store "job" "a" 5 10 "l1").1

held-IsValid : IsValid held
unfolding get
held-IsValid = claim-IsValid new_store "job" "a" 5 10 "l1" new_store-IsValid refl

abbrev lease_of_a : Lease
lease_of_a = record {
  lease_id = "l1";
  subject = "job";
  holder = "a";
  issued_at = 10;
  ttl_seconds = 5;
  last_heartbeat_at = 10;
}

settles_in_time : (complete held "l1" "a" 7 15).0 ≡ ok tt
unfolding claim complete get put find_value current_for_lease_id
settles_in_time = refl

refused_late : (complete held "l1" "a" 7 16).0 ≡ err not_current
unfolding claim complete get put find_value current_for_lease_id
refused_late = refl

conflict_while_live : (reclaim held "job" "b" 5 15 "l2").0 ≡ err conflict
unfolding claim reclaim get put
conflict_while_live = refl

complete_settles_iff_example :
    ((complete held "l1" "a" 7 15).0 ≡ ok tt) ↔ HoldsLive held "l1" "a" 15
complete_settles_iff_example = complete_settles_iff held "l1" "a" 7 15 held-IsValid

complete_refused_example :
    SameLeases held (complete held "l1" "a" 7 16).1
    × (owes held "l1" "a" ≡ true → Retains held (complete held "l1" "a" 7 16).1 "l1" "a" 7 16)
    × (owes held "l1" "a" ≡ false → (complete held "l1" "a" 7 16).1.retained ≡ held.retained)
complete_refused_example = complete_refused held "l1" "a" 7 16 held-IsValid refused_late

a_ne_b : ◌≢◌ {A = String} "a" "b"
a_ne_b e = absurd (false_ne_true ((eq_iff "a" "b").1 e))

abbrev later : List (Op ℕ)
later = completes "l1" "a" 7 20 ∷ claims "other" "a" 5 21 "l3" ∷ []

takeover_kills_example : IsRefused (run (reclaim held "job" "b" 5 16 "l2").1 later) "l1"
unfolding claim reclaim complete get put find_value current_for_lease_id step
takeover_kills_example =
    takeover_kills held lease_of_a "job" "b" 5 16 "l2" later held-IsValid refl refl a_ne_b refl
      (tt, (refl, tt))

settles_once_example : IsRefused (run (complete held "l1" "a" 7 15).1 later) "l1"
unfolding claim reclaim complete get put remove find_value current_for_lease_id step
settles_once_example = settles_once held "l1" "a" 7 15 later held-IsValid refl (tt, (refl, tt))

claim-complete_example : (complete held "l1" "a" 7 15).0 ≡ ok tt
unfolding claim get
claim-complete_example =
    claim-complete new_store "job" "a" 5 10 "l1" lease_of_a 7 15 new_store-IsValid refl refl
      (omega arith)

run-Extends_example : Extends held.retained (run held later).retained
run-Extends_example = run-Extends held later

run-IsValid_example : IsValid (run held later)
unfolding claim complete get put remove find_value current_for_lease_id step
run-IsValid_example = run-IsValid held later held-IsValid (tt, (refl, tt))

claim_grants_example :
    (subject_is_expired held "job" 16 ≡ some false
      → claim held "job" "a" 5 16 "l2" ≡ (err conflict, held))
    × (subject_is_expired held "job" 16 ≢ some false
        → (l : Lease) × ((claim held "job" "a" 5 16 "l2").0 ≡ ok l)
          × (l.subject ≡ "job")
          × (l.holder ≡ "a")
          × (l.last_heartbeat_at ≡ 16))
    × ((old : Lease)
        → get held.by_subject "job" ≡ some old
        → is_expired old 16 ≡ true
        → old.holder ≡ "a"
        → (claim held "job" "a" 5 16 "l2").0 ≡ ok (record old { last_heartbeat_at = 16 }))
claim_grants_example = claim_grants held "job" "a" 5 16 "l2" held-IsValid
