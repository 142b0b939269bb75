-- ===== src/Schema/Compatible.antt =====
-- What a compatible ledger is (runtime.py).
use mathlib.Core.List.{Memᴰ}
use vuoro.Prelude.{
  both_true, ℕ, zero, suc, ◌≤◌, String, Bool, true, false, Option, none, some, List, [], ◌∷◌, ◌++◌,
  ◌≡◌, length, refl, subst, ap, ◌∙◌, not, ◌&&◌, ◌||◌, is_some, leb, ltb, nat_eq, nat_eq_iff,
  Bool-cases, Option-cases, inl, inr, arith,
}
use vuoro.Prelude.Eq.{◌==◌, string_keys, nat_keys, option_keys, option_eq_iff}
use vuoro.Prelude.Result.{Result, ok, err, ◌>>=◌, ◌>>◌, guard}
use vuoro.Dict.{Dict, get}
use vuoro.Schema.{
  MigrationAsset, Row, last_version, asset_matches, no_drift, has_versions, all_positive,
  ledger_reasons, role_reasons, is_empty, reason_if, reasons_of, SchemaError, value_error, Report,
  is_identifier, supplied, counts_from, validate_contiguous_migrations, compatibility_report,
}

-- an asset with the version, the name and the digest of a row
abbrev pub HasAsset : List MigrationAsset → ℕ → Row → Type 0
HasAsset assets version (name, digest) =
    (asset : MigrationAsset) × (Memᴰ asset assets)
    × (asset.version ≡ version)
    × (asset.name ≡ name)
    × (asset.sha256 ≡ digest)

asset_matches-HasAsset :
    (assets : List MigrationAsset) (version : ℕ) (row : Row)
    → asset_matches assets version row ≡ true
    → HasAsset assets version row
unfolding asset_matches
asset_matches-HasAsset [] version (name, digest) h = cc
asset_matches-HasAsset (asset ∷ assets) version (name, digest) h =
    elim (Bool-cases (nat_eq asset.version version)) [
      | inl t ↦
          let (same_name, same_digest) =
            both_true (asset.name == name) (asset.sha256 == digest) (ground (arith, t)) in
          (
            asset,
            Memᴰ.head refl,
            (nat_eq_iff asset.version version).0 t,
            (string_keys.decides asset.name name).0 same_name,
            (string_keys.decides asset.sha256 digest).0 same_digest,
          )
      | inr f ↦
          let (found, mem, same_version, same_name, same_digest) =
            asset_matches-HasAsset assets version (name, digest) (ground (arith, f)) in
          (found, Memᴰ.tail mem, same_version, same_name, same_digest)
    ]

no_drift-HasAsset :
    (assets : List MigrationAsset) (rows : Dict ℕ Row) (version : ℕ) (row : Row)
    → no_drift assets rows ≡ true
    → get rows version ≡ some row
    → HasAsset assets version row
unfolding no_drift get
no_drift-HasAsset assets [] version row h g = cc
no_drift-HasAsset assets ((v, r) ∷ rows) version row h g =
    let (here, later) = both_true (asset_matches assets v r) (no_drift assets rows) h in
    elim (Bool-cases (v == version)) [
      | inl t ↦
          asset_matches-HasAsset assets version row (ground (arith, nat_keys.decides v version, t))
      | inr f ↦ no_drift-HasAsset assets rows version row later (ground (arith, f))
    ]

get-last_version :
    (rows : Dict ℕ Row) (version : ℕ) (row : Row)
    → get rows version ≡ some row
    → version ≤ last_version rows
unfolding get
get-last_version [] version row g = cc
get-last_version ((v, r) ∷ rows) version row g = elim (Bool-cases (v == version)) [
  | inl t ↦ ground (arith, nat_keys.decides v version, t)
  | inr f ↦ ground (arith, f, get-last_version rows version row)
]

has_versions-get :
    (rows : Dict ℕ Row) (n version : ℕ)
    → has_versions rows n ≡ true
    → 1 ≤ version
    → version ≤ n
    → (row : Row) × (get rows version ≡ some row)
unfolding has_versions
has_versions-get rows zero version h low high = ground arith
has_versions-get rows (suc n) version h low high =
    let (here, below) = both_true (is_some (get rows (suc n))) (has_versions rows n) h in
    elim (Bool-cases (nat_eq version (suc n))) [
      | inl t ↦ elim (Option-cases (get rows version)) [
        | inr found ↦ found
        | inl n_row ↦ ground (arith, ap (get rows) ((nat_eq_iff version (suc n)).0 t), n_row)
      ]
      | inr f ↦
          has_versions-get rows n version below low (ground (arith, f, nat_eq_iff version (suc n)))
    ]

-- the ledger is complete, made of the assets, in range, and read by the role that is configured
pub record Compatible (assets : List MigrationAsset) (rows : Dict ℕ Row) (minimum maximum : ℕ)
    (current configured : Option String) : Type 0 where
  pub installed : ℕ
  pub at_least : minimum ≤ installed
  pub at_most : installed ≤ maximum
  pub greatest : (version : ℕ) (row : Row) → get rows version ≡ some row → version ≤ installed
  pub complete :
      (version : ℕ)
      → 1 ≤ version
      → version ≤ installed
      → (row : Row) × (get rows version ≡ some row)
  pub from_assets :
      (version : ℕ) (row : Row) → get rows version ≡ some row → HasAsset assets version row
  pub role : (name : String) × (configured ≡ some name) × (current ≡ some name)

both_empty :
    (xs ys : List String) → is_empty (xs ++ ys) ≡ true → (is_empty xs ≡ true) × (is_empty ys ≡ true)
both_empty [] ys h = (refl, h)
both_empty (x ∷ xs) ys h = cc

negated : (b : Bool) → not b ≡ false → b ≡ true
negated b h = ground arith

not_below : (a b : ℕ) → ltb a b ≡ false → b ≤ a
not_below a b h = ground arith

reason_if-none : (b : Bool) (reason : String) → is_empty (reason_if b reason) ≡ true → b ≡ false
reason_if-none true reason h = cc
reason_if-none false reason h = refl

ledger_reasons-none :
    (assets : List MigrationAsset) (rows : Dict ℕ Row) (minimum maximum : ℕ)
    → is_empty (ledger_reasons assets rows minimum maximum) ≡ true
    → (has_versions rows (last_version rows) ≡ true)
      × (no_drift assets rows ≡ true)
      × (minimum ≤ last_version rows)
      × (last_version rows ≤ maximum)
unfolding ledger_reasons
ledger_reasons-none assets [] minimum maximum h = cc
ledger_reasons-none assets (row ∷ rows) minimum maximum h =
    let installed = last_version (row ∷ rows) in
    let (first_3, new) = both_empty _ _ h in
    let (first_2, old) = both_empty _ _ first_3 in
    let (gap, drift) = both_empty _ _ first_2 in
    let whole =
      reason_if-none (not (has_versions (row ∷ rows) installed && all_positive (row ∷ rows))) _
        gap in
    let same = reason_if-none (not (no_drift assets (row ∷ rows))) _ drift in
    let low = reason_if-none (ltb installed minimum) _ old in
    let high = reason_if-none (ltb maximum installed) _ new in
    (
      (both_true (has_versions (row ∷ rows) installed) (all_positive (row ∷ rows))
          (negated _ whole)).0,
      negated (no_drift assets (row ∷ rows)) same,
      not_below installed minimum low,
      not_below maximum installed high,
    )

role_reasons-none :
    (current configured : Option String)
    → is_empty (role_reasons current configured) ≡ true
    → (name : String) × (configured ≡ some name) × (current ≡ some name)
unfolding role_reasons
role_reasons-none current none h = cc
role_reasons-none current (some role) h =
    (role, refl, ground (arith, option_eq_iff current (some role)))

reasons_of-Compatible :
    (assets : List MigrationAsset) (rows : Dict ℕ Row) (minimum maximum : ℕ)
    (current configured : Option String)
    → is_empty (reasons_of assets rows minimum maximum current configured) ≡ true
    → Compatible assets rows minimum maximum current configured
unfolding reasons_of
reasons_of-Compatible assets rows minimum maximum current configured h =
    elim (Bool-cases (is_empty (ledger_reasons assets rows minimum maximum))) [
      | inr f ↦ ground (arith, f)
      | inl t ↦
          let (complete, drift, low, high) = ledger_reasons-none assets rows minimum maximum t in
          record {
            installed = last_version rows;
            at_least = low;
            at_most = high;
            greatest = λ version row g. get-last_version rows version row g;
            complete = λ version. has_versions-get rows (last_version rows) version complete;
            from_assets = λ version row. no_drift-HasAsset assets rows version row drift;
            role = role_reasons-none current configured (ground (arith, t));
          }
    ]

bind-ok :
    {E A B : Type 0} (m : Result E A) (f : A → Result E B) (b : B)
    → (m >>= f) ≡ ok b
    → (a : A) × (m ≡ ok a) × (f a ≡ ok b)
bind-ok (ok a) f b h = (a, refl, h)
bind-ok (err e) f b h = cc

guard-ok :
    {E A : Type 0} (b : Bool) (e : E) (k : Result E A) (a : A) → (guard b e >> k) ≡ ok a → k ≡ ok a
guard-ok true e k a h = h
guard-ok false e k a h = cc

compatible-same :
    (a b : Report) → ◌≡◌ {A = Result SchemaError Report} (ok a) (ok b) → a.compatible ≡ b.compatible
compatible-same a b h = ground arith

validate-same :
    (migrations assets : List MigrationAsset)
    → validate_contiguous_migrations migrations ≡ ok assets
    → assets ≡ migrations
unfolding validate_contiguous_migrations
validate-same migrations assets h = elim (Bool-cases (counts_from 1 migrations)) [
  | inl t ↦ ground (arith, t)
  | inr f ↦ ground (arith, f)
]

pub report-Compatible :
    (schema : String) (migrations : List MigrationAsset) (ledger : Option (List (ℕ × Row)))
    (api : String) (minimum maximum : ℕ) (current : Option String) (kind : String)
    (configured : Option String) (report : Report)
    → compatibility_report schema migrations ledger api minimum maximum current kind configured
      ≡ ok report
    → report.compatible ≡ true
    → (rows : Dict ℕ Row) × (supplied ledger ≡ ok rows)
      × Compatible migrations rows minimum maximum current configured
unfolding compatibility_report
report-Compatible schema migrations ledger api minimum maximum current kind configured report h
      is_yes =
    let (assets, validated, h1) = bind-ok (validate_contiguous_migrations migrations) _ report h in
    let h2 = guard-ok (is_identifier schema) value_error _ report h1 in
    let h3 = guard-ok (not (api == "")) value_error _ report h2 in
    let h4 = guard-ok (kind == "runtime" || kind == "migration") value_error _ report h3 in
    let h5 = guard-ok (leb 1 minimum && leb minimum maximum) value_error _ report h4 in
    let h6 = guard-ok (leb maximum (length assets)) value_error _ report h5 in
    let (rows, read, h7) = bind-ok (supplied ledger) _ report h6 in
    (
      rows,
      read,
      subst (λ x. Compatible x rows minimum maximum current configured)
          (validate-same migrations assets validated)
          (reasons_of-Compatible assets rows minimum maximum current configured
            (compatible-same _ report h7 ∙ is_yes)),
    )
