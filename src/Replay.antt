-- ===== src/Replay.antt =====
-- The one-use cache of packages/vuoro-service/src/vuoro_service/replay.py.
-- A key is a fixed-size digest, read as a number, so that rows of the heap compare as Python's
-- tuples do. Times are whole nanoseconds of the injected clock, and `now` is its reading. The lock makes
-- each call one step, `_race_window` is None in production, and of the log call only the throttle
-- that it leaves in the cache is kept. The heap is the list of its rows in the order of `heappop`.
pub mod Rows
pub mod Invariant
pub mod Claims
use vuoro.Prelude.{
  ℕ, suc, ◌+◌, ◌-◌, String, Bool, true, false, Option, none, some, List, [], ◌∷◌, ◌||◌, ◌&&◌, not,
  ltb, leb, nat_eq, length, if◌then◌else◌,
}
use vuoro.Prelude.Eq.{◌==◌, string_keys, nat_keys}
use vuoro.Prelude.Result.{Result, ok, err}
use vuoro.Dict.{Dict, get, put, remove}

pub record Entry : Type 0 where
  pub expires_at : ℕ
  pub route : String
  pub uses : ℕ

abbrev pub Row : Type 0
Row = ℕ × ℕ

pub record ReplayCache : Type 0 where
  pub max_entries : ℕ
  pub entries : Dict ℕ Entry
  pub expiry : List Row
  pub refused_since_log : ℕ
  pub last_full_log : Option ℕ

-- ReplayCacheFull
pub data CacheError : Type 0 where
  full : CacheError

-- 60.0 seconds
abbrev pub full_log_interval : ℕ
full_log_interval = 60000000000

-- `__init__` refuses a capacity below one
unfoldable pub new_cache : ℕ → Option ReplayCache
new_cache max_entries =
    if ltb max_entries 1
    then none
    else some (record {
      max_entries = max_entries;
      entries = [];
      expiry = [];
      refused_since_log = 0;
      last_full_log = none;
    })

unfoldable pub row_le : Row → Row → Bool
row_le (e, k) (f, j) = ltb e f || (nat_eq e f && leb k j)

-- heapq.heappush
unfoldable pub push : Row → List Row → List Row
unfolding row_le
push r [] = r ∷ []
push r (s ∷ rows) = if row_le r s then r ∷ s ∷ rows else s ∷ push r rows

-- one turn of the loop of `_purge`: only the row of the live expiry removes an entry
unfoldable pub drop_row : Dict ℕ Entry → ℕ → ℕ → Dict ℕ Entry
drop_row entries expires_at key = elim (get entries key) [
  | none ↦ entries
  | some entry ↦ if nat_eq entry.expires_at expires_at then remove entries key else entries
]

unfoldable pub purge_rows : List Row → Dict ℕ Entry → ℕ → Dict ℕ Entry × List Row
unfolding drop_row
purge_rows [] entries now = (entries, [])
purge_rows ((e, k) ∷ rows) entries now =
    let rest = purge_rows rows (drop_row entries e k) now in
    if leb e now then rest else (entries, (e, k) ∷ rows)

-- _purge
unfoldable pub purge : ReplayCache → ℕ → ReplayCache
purge c now =
    let (entries, expiry) = purge_rows c.expiry c.entries now in
    record c { entries = entries; expiry = expiry }

-- whether the refusal is logged now
unfoldable pub log_due : Option ℕ → ℕ → Bool
log_due none now = true
log_due (some t) now = leb full_log_interval (now - t)

abbrev pub Call : Type 0
Call = Result CacheError Bool × ReplayCache

-- _insert, followed by the `return True` of its caller
unfoldable pub insert : ReplayCache → ℕ → ℕ → ℕ → String → Call
unfolding log_due push
insert c key expires_at now route =
    if leb c.max_entries (length c.entries)
    then (
      err full,
      if log_due c.last_full_log now
          then record c { last_full_log = some now; refused_since_log = 0 }
          else record c { refused_since_log = c.refused_since_log + 1 },
    )
    else (
      ok true,
      record c {
        entries = put c.entries key (record { expires_at = expires_at; route = route; uses = 1 });
        expiry = push (expires_at, key) c.expiry;
      },
    )

-- a further claim of a key that is there
unfoldable pub reuse : ReplayCache → Entry → ℕ → ℕ → String → ℕ → Call
unfolding push
reuse c entry key expires_at route max_uses =
    if not (entry.route == route) || leb max_uses entry.uses then (ok false, c) else (
      ok true,
      if ltb entry.expires_at expires_at
          then record c {
            entries =
                put c.entries key (record entry { uses = entry.uses + 1; expires_at = expires_at });
            expiry = push (expires_at, key) c.expiry;
          }
          else record c { entries = put c.entries key (record entry { uses = entry.uses + 1 }) },
    )

unfoldable pub claim_entry : Option Entry → ReplayCache → ℕ → ℕ → String → ℕ → ℕ → Call
unfolding insert reuse
claim_entry none c key expires_at route max_uses now = insert c key expires_at now route
claim_entry (some entry) c key expires_at route max_uses now =
    reuse c entry key expires_at route max_uses

unfoldable pub claim : ReplayCache → ℕ → ℕ → String → ℕ → ℕ → Call
unfolding claim_entry
claim c key expires_at route max_uses now =
    let p = purge c now in claim_entry (get p.entries key) p key expires_at route max_uses now

unfoldable pub consume : ReplayCache → ℕ → ℕ → ℕ → Call
consume c key expires_at now = claim c key expires_at "direct" 1 now

-- __len__
unfoldable pub len : ReplayCache → ℕ → ℕ × ReplayCache
len c now = let p = purge c now in (length p.entries, p)
