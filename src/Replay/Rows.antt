-- ===== src/Replay/Rows.antt =====
-- The rows of the expiry heap: they stay in order, and a purge by them drops what has expired.
use vuoro.Prelude.{
  ℕ, ◌≤◌, ◌≡◌, refl, Bool, true, false, Option, none, some, List, [], ◌∷◌, ◌||◌, ◌&&◌, leb, nat_eq,
  arith, if◌then◌else◌, inl, inr, Option-cases, length, is_some, suc,
}
use vuoro.Prelude.Eq.{nat_keys}
use vuoro.Dict.{Dict, get, put, remove, get-remove, Distinct, remove-Distinct}
use vuoro.Replay.{Entry, Row, push, drop_row, purge_rows}

abbrev pub has_row : ℕ → ℕ → List Row → Bool
has_row e k [] = false
has_row e k ((f, j) ∷ rows) = (nat_eq f e && nat_eq j k) || has_row e k rows

-- Every row is due no earlier than `e`.
abbrev pub NotBefore : ℕ → List Row → Type 0
NotBefore e [] = Unit
NotBefore e ((f, j) ∷ rows) = (e ≤ f) × NotBefore e rows

abbrev pub IsSorted : List Row → Type 0
IsSorted [] = Unit
IsSorted ((e, k) ∷ rows) = NotBefore e rows × IsSorted rows

NotBefore-trans : (e f : ℕ) (rows : List Row) → e ≤ f → NotBefore f rows → NotBefore e rows
NotBefore-trans e f [] h n = tt
NotBefore-trans e f ((g, j) ∷ rows) h n = (omega arith, NotBefore-trans e f rows h n.1)

push-NotBefore :
    (e f k : ℕ) (rows : List Row) → e ≤ f → NotBefore e rows → NotBefore e (push (f, k) rows)
unfolding push
push-NotBefore e f k [] h n = (h, tt)
push-NotBefore e f k ((g, j) ∷ rows) h n = ground (arith, push-NotBefore e f k rows h n.1)

pub push-IsSorted : (e k : ℕ) (rows : List Row) → IsSorted rows → IsSorted (push (e, k) rows)
unfolding push
push-IsSorted e k [] s = (tt, tt)
push-IsSorted e k ((f, j) ∷ rows) s =
    ground (arith, push-IsSorted e k rows s.1, push-NotBefore f e k rows, NotBefore-trans e f rows)

pub has_row-push :
    (e k f j : ℕ) (rows : List Row)
    → has_row e k (push (f, j) rows) ≡ ((nat_eq f e && nat_eq j k) || has_row e k rows)
unfolding push
has_row-push e k f j [] = refl
has_row-push e k f j ((g, i) ∷ rows) = ground (arith, has_row-push e k f j rows)

NotBefore-has_row :
    (e f k : ℕ) (rows : List Row) → NotBefore e rows → has_row f k rows ≡ true → e ≤ f
NotBefore-has_row e f k [] n h = cc
NotBefore-has_row e f k ((g, j) ∷ rows) n h = ground (arith, NotBefore-has_row e f k rows n.1)

pub get-drop_row :
    (d : Dict ℕ Entry) (e k j : ℕ)
    → get (drop_row d e k) j ≡ elim (get d j) [
      | none ↦ none
      | some entry ↦ if nat_eq k j && nat_eq entry.expires_at e then none else some entry
    ]
unfolding drop_row
get-drop_row d e k j = ground (arith, get-remove d k j)

drop_row-Distinct : (d : Dict ℕ Entry) (e k : ℕ) → Distinct d → Distinct (drop_row d e k)
unfolding drop_row
drop_row-Distinct d e k h = ground (arith, remove-Distinct d k h)

-- What a purge at `now` leaves of an entry whose row the heap has.
abbrev pub survivor : Option Entry → ℕ → Option Entry
survivor none now = none
survivor (some entry) now = if leb entry.expires_at now then none else some entry

abbrev pub Rowed : Option Entry → ℕ → List Row → Type 0
Rowed none k rows = Unit
Rowed (some entry) k rows = has_row entry.expires_at k rows ≡ true

purge_rows_absent :
    (rows : List Row) (d : Dict ℕ Entry) (now k : ℕ)
    → get d k ≡ none
    → get (purge_rows rows d now).0 k ≡ none
unfolding purge_rows
purge_rows_absent [] d now k g = g
purge_rows_absent ((e, j) ∷ rows) d now k g =
    ground (arith, purge_rows_absent rows (drop_row d e j) now k, get-drop_row d e j k)

purge_rows_live :
    (rows : List Row) (d : Dict ℕ Entry) (now k : ℕ) (x : Entry)
    → get d k ≡ some x
    → leb x.expires_at now ≡ false
    → get (purge_rows rows d now).0 k ≡ some x
unfolding purge_rows
purge_rows_live [] d now k x g l = g
purge_rows_live ((e, j) ∷ rows) d now k x g l =
    ground (arith, purge_rows_live rows (drop_row d e j) now k x, get-drop_row d e j k)

purge_rows_expired :
    (rows : List Row) (d : Dict ℕ Entry) (now k : ℕ) (x : Entry)
    → IsSorted rows
    → get d k ≡ some x
    → leb x.expires_at now ≡ true
    → has_row x.expires_at k rows ≡ true
    → get (purge_rows rows d now).0 k ≡ none
unfolding purge_rows
purge_rows_expired [] d now k x s g l r = cc
purge_rows_expired ((e, j) ∷ rows) d now k x s g l r = ground (
  arith,
  purge_rows_expired rows (drop_row d e j) now k x s.1,
  get-drop_row d e j k,
  purge_rows_absent rows (drop_row d e j) now k,
  NotBefore-has_row e x.expires_at k rows s.0,
)

-- A purge drops exactly the entries that have expired, if each has its row.
pub get-purge_rows :
    (rows : List Row) (d : Dict ℕ Entry) (now k : ℕ)
    → IsSorted rows
    → Rowed (get d k) k rows
    → get (purge_rows rows d now).0 k ≡ survivor (get d k) now
get-purge_rows rows d now k s r = elim (Option-cases (get d k)) [
  | inl n ↦ ground (arith, purge_rows_absent rows d now k)
  | inr (x, g) ↦ ground (arith, purge_rows_live rows d now k x, purge_rows_expired rows d now k x s)
]

pub purge_rows-Distinct :
    (rows : List Row) (d : Dict ℕ Entry) (now : ℕ) → Distinct d → Distinct (purge_rows rows d now).0
unfolding purge_rows
purge_rows-Distinct [] d now h = h
purge_rows-Distinct ((e, k) ∷ rows) d now h =
    ground (arith, purge_rows-Distinct rows (drop_row d e k) now (drop_row-Distinct d e k h), h)

pub purge_rows-IsSorted :
    (rows : List Row) (d : Dict ℕ Entry) (now : ℕ)
    → IsSorted rows
    → IsSorted (purge_rows rows d now).1
unfolding purge_rows
purge_rows-IsSorted [] d now h = tt
purge_rows-IsSorted ((e, k) ∷ rows) d now h =
    ground (arith, purge_rows-IsSorted rows (drop_row d e k) now h.1)

-- The rows of entries that have not expired stay.
pub has_row-purge_rows :
    (rows : List Row) (d : Dict ℕ Entry) (now e k : ℕ)
    → leb e now ≡ false
    → has_row e k rows ≡ true
    → has_row e k (purge_rows rows d now).1 ≡ true
unfolding purge_rows
has_row-purge_rows [] d now e k l r = r
has_row-purge_rows ((f, j) ∷ rows) d now e k l r =
    ground (arith, has_row-purge_rows rows (drop_row d f j) now e k)

length-remove-le : (d : Dict ℕ Entry) (k : ℕ) → length (remove d k) ≤ length d
unfolding remove
length-remove-le [] k = omega arith
length-remove-le ((j, v) ∷ d) k = ground (arith, length-remove-le d k)

length-drop_row-le : (d : Dict ℕ Entry) (e k : ℕ) → length (drop_row d e k) ≤ length d
unfolding drop_row
length-drop_row-le d e k = ground (arith, length-remove-le d k)

pub length-purge_rows-le :
    (rows : List Row) (d : Dict ℕ Entry) (now : ℕ) → length (purge_rows rows d now).0 ≤ length d
unfolding purge_rows
length-purge_rows-le [] d now = omega arith
length-purge_rows-le ((e, k) ∷ rows) d now =
    ground (arith, length-purge_rows-le rows (drop_row d e k) now, length-drop_row-le d e k)

-- A new key makes the dictionary one longer, and a key that is there does not.
pub length-put :
    (d : Dict ℕ Entry) (k : ℕ) (x : Entry)
    → length (put d k x) ≡ (if is_some (get d k) then length d else suc (length d))
unfolding put get
length-put [] k x = refl
length-put ((j, w) ∷ d) k x = ground (arith, length-put d k x)
