-- ===== src/Examples/Replay.antt =====
-- A cache of two entries (replay.py).
use vuoro.Prelude.{◌+◌, ◌≤◌, max, ◌≡◌, refl, none, List, [], ◌∷◌, ◌&&◌, not, nat_eq, leb, arith}
use vuoro.Prelude.Eq.{◌==◌, string_keys}
use vuoro.Prelude.Result.{err}
use vuoro.Dict.{get, put}
use text.Mathlib.TextEquality.{eq_iff}
use vuoro.Replay.{Entry, ReplayCache, new_cache, full, claim, consume, purge, purge_rows}
use vuoro.Replay.Invariant.{IsValid, new_cache-IsValid, claim-IsValid, live}
use vuoro.Replay.Claims.{
  Request, accepted, serve, verdict, live_count, claim-verdict, accepted_bounded, OnceBy,
  consumed_once,
}

abbrev fresh_cache : ReplayCache
fresh_cache = record {
  max_entries = 2;
  entries = [];
  expiry = [];
  refused_since_log = 0;
  last_full_log = none;
}

fresh_cache-IsValid : IsValid fresh_cache
unfolding new_cache
fresh_cache-IsValid = new_cache-IsValid 2 fresh_cache refl

abbrev used : ReplayCache
used = (claim fresh_cache 7 50 "proof" 2 10).1

used-IsValid : IsValid used
used-IsValid = claim-IsValid fresh_cache 7 50 "proof" 2 10 fresh_cache-IsValid

-- a second use by the route, one by another route, a third by the route, another key, and one more
abbrev requests : List Request
requests =
    record { key = 7; expires_at = 60; route = "proof"; max_uses = 2; now = 20 }
    ∷ record { key = 7; expires_at = 60; route = "direct"; max_uses = 1; now = 21 }
    ∷ record { key = 7; expires_at = 60; route = "proof"; max_uses = 2; now = 22 }
    ∷ record { key = 8; expires_at = 60; route = "direct"; max_uses = 1; now = 23 }
    ∷ []

one_more_use : accepted (λ r. nat_eq r.key 7) used requests ≡ 1
unfolding accepted serve claim purge purge_rows get put
one_more_use = refl

third_key_refused : (claim (claim used 8 60 "direct" 1 11).1 9 60 "direct" 1 12).0 ≡ err full
unfolding claim purge purge_rows get put
third_key_refused = refl

claim-verdict_example :
    (claim used 7 60 "proof" 2 20).0
    ≡ verdict (live used 20 7) (leb used.max_entries (live_count used 20)) "proof" 2
claim-verdict_example = claim-verdict used 7 60 "proof" 2 20 used-IsValid

abbrev taken : Entry
taken = record { expires_at = 50; route = "proof"; uses = 1 }

accepted_bounded_example :
    (accepted (λ r. nat_eq r.key 7 && not (taken.route == r.route)) used requests ≡ 0)
    × (accepted (λ r. nat_eq r.key 7) used requests + taken.uses ≤ max 2 taken.uses)
unfolding claim purge purge_rows get put
accepted_bounded_example =
    accepted_bounded requests used 7 taken 50 2 used-IsValid refl (omega arith) (omega arith)

-- again by the route, and by another that allows seven uses
abbrev again : List Request
again =
    record { key = 7; expires_at = 60; route = "direct"; max_uses = 1; now = 20 }
    ∷ record { key = 7; expires_at = 60; route = "proof"; max_uses = 7; now = 21 }
    ∷ []

once_direct : OnceBy "direct" 50 7 again
once_direct = (
  omega arith,
  (λ _ _. omega arith),
  (omega arith, (λ _ e. absurd (ground (arith, eq_iff "proof" "direct"))), tt),
)

consumed_once_example : accepted (λ r. nat_eq r.key 7) (consume fresh_cache 7 50 10).1 again ≡ 0
unfolding consume claim purge purge_rows get put
consumed_once_example = consumed_once fresh_cache 7 50 10 again fresh_cache-IsValid refl once_direct
