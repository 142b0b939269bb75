-- ===== src/Replay/Claims.antt =====
-- Which claims the cache accepts, and how often a key is accepted before it expires (replay.py).
use vuoro.Prelude.{
  ℕ, suc, ◌+◌, ◌≤◌, ◌<◌, max, String, ◌≡◌, refl, subst, sym, Bool, true, false, Option, none, some,
  List, [], ◌∷◌, ◌&&◌, not, leb, ltb, nat_eq, arith, if◌then◌else◌, inl, inr, Option-cases, length,
}
use vuoro.Prelude.Eq.{◌==◌, nat_keys, string_keys}
use vuoro.Prelude.Result.{Result, ok, err}
use vuoro.Dict.{get, get-put}
use text.Mathlib.TextEquality.{eq_iff}
use vuoro.Replay.{Entry, ReplayCache, CacheError, full, purge, claim, consume}
use vuoro.Replay.Invariant.{IsValid, live, get-purge, claim-IsValid}

-- What a claim answers, from the live entry of its key and the number of live entries.
abbrev pub verdict : Option Entry → Bool → String → ℕ → Result CacheError Bool
verdict none at_cap route max_uses = if at_cap then err full else ok true
verdict (some entry) at_cap route max_uses = ok ((entry.route == route) && ltb entry.uses max_uses)

-- The number of entries that have not expired.
unfoldable pub live_count : ReplayCache → ℕ → ℕ
live_count c now = length (purge c now).entries

max_entries-purge : (c : ReplayCache) (now : ℕ) → (purge c now).max_entries ≡ c.max_entries
unfolding purge
max_entries-purge c now = refl

-- A claim looks at live entries alone: a key with no live entry is accepted unless the cap is
-- reached, and one with a live entry exactly on its own route and below the limit of uses.
pub claim-verdict :
    (c : ReplayCache) (k expires_at : ℕ) (route : String) (max_uses now : ℕ)
    → IsValid c
    → (claim c k expires_at route max_uses now).0
      ≡ verdict (live c now k) (leb c.max_entries (live_count c now)) route max_uses
unfolding claim live_count
claim-verdict c k expires_at route max_uses now v =
    ground (arith, get-purge c now v k, max_entries-purge c now)

-- A call of `claim`, with the reading of its clock.
pub record Request : Type 0 where
  pub key : ℕ
  pub expires_at : ℕ
  pub route : String
  pub max_uses : ℕ
  pub now : ℕ

unfoldable pub serve : ReplayCache → Request → Result CacheError Bool × ReplayCache
serve c r = claim c r.key r.expires_at r.route r.max_uses r.now

abbrev pub is_accepted : Result CacheError Bool → Bool
is_accepted (ok b) = b
is_accepted (err e) = false

-- How many of the requests that pass the test are accepted.
unfoldable pub accepted : (Request → Bool) → ReplayCache → List Request → ℕ
accepted p c [] = 0
accepted p c (r ∷ rs) =
    let rest = accepted p (serve c r).1 rs in
    if p r && is_accepted (serve c r).0 then suc rest else rest

-- Every request comes before `t`, and asks for at most `m` uses of the key.
abbrev pub AllBefore : ℕ → ℕ → ℕ → List Request → Type 0
AllBefore t k m [] = Unit
AllBefore t k m (r ∷ rs) = (r.now < t) × (r.key ≡ k → r.max_uses ≤ m) × AllBefore t k m rs

-- What a request makes of a live entry that stands under `k`.
abbrev after : Entry → ℕ → Request → Entry
after x k r =
    if nat_eq r.key k && (r.route == x.route) && ltb x.uses r.max_uses
    then record x { uses = x.uses + 1; expires_at = max x.expires_at r.expires_at }
    else x

get-serve :
    (c : ReplayCache) (r : Request) (k : ℕ) (x : Entry)
    → IsValid c
    → get c.entries k ≡ some x
    → r.now < x.expires_at
    → get (serve c r).1.entries k ≡ some (after x k r)
unfolding serve claim live
get-serve c r k x v g h = elim (Option-cases (get (purge c r.now).entries r.key)) [
  | inl n ↦ ground (
    arith,
    get-purge c r.now v k,
    get-purge c r.now v r.key,
    get-put (purge c r.now).entries r.key (first r) k,
  )
  | inr (y, e) ↦ ground (
    arith,
    get-purge c r.now v k,
    get-purge c r.now v r.key,
    eq_iff x.route r.route,
    eq_iff r.route x.route,
    get-put (purge c r.now).entries r.key (record y { uses = y.uses + 1 }) k,
    get-put (purge c r.now).entries r.key
        (record y { uses = y.uses + 1; expires_at = r.expires_at }) k,
  )
]
  where
    first : Request → Entry
    first r = record { expires_at = r.expires_at; route = r.route; uses = 1 }

is_accepted-serve :
    (c : ReplayCache) (r : Request) (k : ℕ) (x : Entry)
    → IsValid c
    → get c.entries k ≡ some x
    → r.now < x.expires_at
    → r.key ≡ k
    → is_accepted (serve c r).0 ≡ ((x.route == r.route) && ltb x.uses r.max_uses)
unfolding serve live
is_accepted-serve c r k x v g h e =
    ground (arith, claim-verdict c r.key r.expires_at r.route r.max_uses r.now v)

serve-IsValid : (c : ReplayCache) (r : Request) → IsValid c → IsValid (serve c r).1
unfolding serve
serve-IsValid c r v = claim-IsValid c r.key r.expires_at r.route r.max_uses r.now v

-- Until a live key expires, the requests that are accepted for it all come by the route that it
-- stands for, and with the uses so far they are no more than the limit that the requests give.
pub accepted_bounded :
    (rs : List Request) (c : ReplayCache) (k : ℕ) (x : Entry) (t m : ℕ)
    → IsValid c
    → get c.entries k ≡ some x
    → t ≤ x.expires_at
    → AllBefore t k m rs
    → (accepted (λ r. nat_eq r.key k && not (x.route == r.route)) c rs ≡ 0)
      × (accepted (λ r. nat_eq r.key k) c rs + x.uses ≤ max m x.uses)
unfolding accepted
accepted_bounded [] c k x t m v g h b = omega arith
accepted_bounded (r ∷ rs) c k x t m v g h b = ground (
  arith,
  is_accepted-serve c r k x v g,
  get-serve c r k x v g,
  eq_iff r.route x.route,
  eq_iff x.route r.route,
  accepted_bounded rs (serve c r).1 k (after x k r) t m (serve-IsValid c r v)
      (get-serve c r k x v g (omega arith)) (ground arith) b.2,
)

-- Every request comes before `t`, and asks for at most one use of the key where it comes by the
-- route `route`; by another route it may ask for any number.
abbrev pub OnceBy : String → ℕ → ℕ → List Request → Type 0
OnceBy route t k [] = Unit
OnceBy route t k (r ∷ rs) =
    (r.now < t) × (r.key ≡ k → r.route ≡ route → r.max_uses ≤ 1) × OnceBy route t k rs

-- A key that is used once already and stands for a route is not accepted again before it expires.
no_more_accepted :
    (rs : List Request) (c : ReplayCache) (k : ℕ) (x : Entry) (t : ℕ)
    → IsValid c
    → get c.entries k ≡ some x
    → 1 ≤ x.uses
    → t ≤ x.expires_at
    → OnceBy x.route t k rs
    → accepted (λ r. nat_eq r.key k) c rs ≡ 0
unfolding accepted
no_more_accepted [] c k x t v g u h b = refl
no_more_accepted (r ∷ rs) c k x t v g u h b =
    let here : nat_eq r.key k && (r.route == x.route) && ltb x.uses r.max_uses ≡ false =
      ground (arith, b.1, eq_iff r.route x.route) in
    let kept : get (serve c r).1.entries k ≡ some x = ground (arith, get-serve c r k x v g, here) in
    ground (
      arith,
      here,
      is_accepted-serve c r k x v g,
      eq_iff r.route x.route,
      eq_iff x.route r.route,
      no_more_accepted rs (serve c r).1 k x t (serve-IsValid c r v) kept u h b.2,
    )

-- What an accepted claim leaves under its key.
record IsTaken (o : Option Entry) (route : String) (expires_at : ℕ) : Type 0 where
  entry : Entry
  by : entry.route ≡ route
  there : o ≡ some entry
  used : 1 ≤ entry.uses
  lasting : expires_at ≤ entry.expires_at

accepted-IsTaken :
    (c : ReplayCache) (k expires_at : ℕ) (route : String) (max_uses now : ℕ)
    → (claim c k expires_at route max_uses now).0 ≡ ok true
    → IsTaken (get (claim c k expires_at route max_uses now).1.entries k) route expires_at
unfolding claim
accepted-IsTaken c k expires_at route max_uses now h =
    elim (Option-cases (get (purge c now).entries k)) [
      | inl n ↦ record {
        entry = record { expires_at = expires_at; route = route; uses = 1 };
        by = refl;
        there = ground (
          arith,
          get-put (purge c now).entries k
              (record { expires_at = expires_at; route = route; uses = 1 }) k,
        );
        used = omega arith;
        lasting = omega arith;
      }
      | inr (y, e) ↦ record {
        entry = record y { uses = y.uses + 1; expires_at = max y.expires_at expires_at };
        by = ground (arith, eq_iff y.route route);
        there = ground (
          arith,
          get-put (purge c now).entries k (record y { uses = y.uses + 1 }) k,
          get-put (purge c now).entries k (record y { uses = y.uses + 1; expires_at = expires_at })
              k,
        );
        used = omega arith;
        lasting = omega arith;
      }
    ]

-- A key that was consumed is not accepted again before it expires, by any route, whatever other
-- requests come in between and however many uses the other routes ask for, if no request by the
-- route of `consume` asks for more than one use of it.
pub consumed_once :
    (c : ReplayCache) (k expires_at now : ℕ) (rs : List Request)
    → IsValid c
    → (consume c k expires_at now).0 ≡ ok true
    → OnceBy "direct" expires_at k rs
    → accepted (λ r. nat_eq r.key k) (consume c k expires_at now).1 rs ≡ 0
unfolding consume
consumed_once c k expires_at now rs v h b =
    let taken = accepted-IsTaken c k expires_at "direct" 1 now h in
    let s = claim-IsValid c k expires_at "direct" 1 now v in
    no_more_accepted rs (claim c k expires_at "direct" 1 now).1 k taken.entry expires_at s
      taken.there taken.used taken.lasting
      (subst (λ route. OnceBy route expires_at k rs) (sym taken.by) b)
