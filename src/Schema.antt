-- ===== src/Schema.antt =====
-- packages/vuoro-schema-runtime/src/vuoro_schema_runtime/runtime.py: migration assets, and a supplied
-- ledger compared with them. A ledger is the sequence of its typed rows: a version, which is a natural number, a
-- name and a digest.
pub mod Compatible
use Prim.Native.Char.{code}
use Prim.Native.String.{String, count, [], ◌∷◌}
use mathlib.Core.List.{[] as []ᴸ, ◌∷◌ as ◌∷ᴸ◌}
use vuoro.Prelude.{
  ℕ, zero, suc, Bool, true, false, Option, none, some, List, ◌++◌, not, ◌&&◌, ◌||◌, is_some, leb,
  ltb, nat_eq, max, length, if◌then◌else◌,
}
use vuoro.Prelude.Eq.{◌==◌, string_keys, nat_keys, option_keys}
use vuoro.Prelude.Result.{Result, ok, err, ◌>>=◌, ◌>>◌, guard}
use vuoro.Dict.{Dict, get, put}
use vuoro.Text.{all_codes}

pub record MigrationAsset : Type 0 where
  pub version : ℕ
  pub name : String
  pub sql : String
  pub sha256 : String

-- ValueError, and MigrationDriftError of its subclasses
pub data SchemaError : Type 0 where
  value_error drift_error : SchemaError

-- MigrationAsset.__post_init__
unfoldable pub new_asset :
    (String → String) → ℕ → String → String → String → Result SchemaError MigrationAsset
new_asset sha256_text version name sql sha256 =
    guard (leb 1 version) value_error
    >> (guard (not (name == "") && not (sql == "")) value_error
        >> (guard (sha256 == sha256_text sql) drift_error
            >> ok (record { version = version; name = name; sql = sql; sha256 = sha256 })))

-- versions == list(range(n, n + len(assets)))
unfoldable pub counts_from : ℕ → List MigrationAsset → Bool
counts_from n []ᴸ = true
counts_from n (asset ∷ᴸ assets) =
    let rest = counts_from (suc n) assets in nat_eq asset.version n && rest

-- validate_contiguous_migrations
unfoldable pub validate_contiguous_migrations :
    List MigrationAsset → Result SchemaError (List MigrationAsset)
validate_contiguous_migrations assets = if counts_from 1 assets then ok assets else err drift_error

-- [A-Za-z_] and [A-Za-z0-9_], by code points
abbrev starts_name : ℕ → Bool
starts_name n = (leb 65 n && leb n 90) || (leb 97 n && leb n 122) || nat_eq n 95

abbrev goes_on_name : ℕ → Bool
goes_on_name n = starts_name n || (leb 48 n && leb n 57)

-- identifier, IDENTIFIER_RE.fullmatch
unfoldable pub is_identifier : String → Bool
is_identifier [] = false
is_identifier (c ∷ s) = starts_name (code c) && leb (count s) 62 && all_codes goes_on_name s

abbrev pub Row : Type 0
Row = String × String

-- _ledger_rows
unfoldable pub ledger_rows : List (ℕ × Row) → Dict ℕ Row → Result SchemaError (Dict ℕ Row)
ledger_rows []ᴸ result = ok result
ledger_rows ((version, row) ∷ᴸ rows) result =
    let rest = ledger_rows rows (put result version row) in
    if is_some (get result version) then err drift_error else rest

-- max(rows), of rows that are not empty
abbrev pub last_version : Dict ℕ Row → ℕ
last_version []ᴸ = 0
last_version ((version, row) ∷ᴸ rows) = max version (last_version rows)

-- by_version[version] has the row's name and digest
unfoldable pub asset_matches : List MigrationAsset → ℕ → Row → Bool
asset_matches []ᴸ version row = false
asset_matches (asset ∷ᴸ assets) version (name, digest) =
    let rest = asset_matches assets version (name, digest) in
    if nat_eq asset.version version then (asset.name == name) && (asset.sha256 == digest) else rest

-- every row is that of an asset
unfoldable pub no_drift : List MigrationAsset → Dict ℕ Row → Bool
no_drift assets []ᴸ = true
no_drift assets ((version, row) ∷ᴸ rows) =
    let rest = no_drift assets rows in asset_matches assets version row && rest

-- the versions 1 to n all have a row
unfoldable pub has_versions : Dict ℕ Row → ℕ → Bool
has_versions rows zero = true
has_versions rows (suc n) = let rest = has_versions rows n in is_some (get rows (suc n)) && rest

-- no row has a version below 1
unfoldable pub all_positive : Dict ℕ Row → Bool
all_positive []ᴸ = true
all_positive ((version, row) ∷ᴸ rows) = let rest = all_positive rows in leb 1 version && rest

abbrev pub reason_if : Bool → String → List String
reason_if true reason = reason ∷ᴸ []ᴸ
reason_if false reason = []ᴸ

-- the reasons that the ledger gives
unfoldable pub ledger_reasons : List MigrationAsset → Dict ℕ Row → ℕ → ℕ → List String
ledger_reasons assets []ᴸ minimum maximum = "schema_not_initialized" ∷ᴸ []ᴸ
ledger_reasons assets (row ∷ᴸ rows) minimum maximum =
    let installed = last_version (row ∷ᴸ rows) in
    reason_if (not (has_versions (row ∷ᴸ rows) installed && all_positive (row ∷ᴸ rows)))
      "migration_ledger_not_contiguous"
    ++ reason_if (not (no_drift assets (row ∷ᴸ rows))) "migration_ledger_drift"
    ++ reason_if (ltb installed minimum) "schema_too_old"
    ++ reason_if (ltb maximum installed) "schema_too_new"

-- the reason that the role gives, where the ledger gave none
unfoldable pub role_reasons : Option String → Option String → List String
role_reasons current none = "role_not_configured" ∷ᴸ []ᴸ
role_reasons current (some role) = reason_if (not (current == some role)) "role_kind_mismatch"

abbrev pub is_empty : List String → Bool
is_empty []ᴸ = true
is_empty (reason ∷ᴸ reasons) = false

-- the reasons of a report
unfoldable pub reasons_of :
    List MigrationAsset → Dict ℕ Row → ℕ → ℕ → Option String → Option String → List String
reasons_of assets rows minimum maximum current configured =
    if is_empty (ledger_reasons assets rows minimum maximum)
    then role_reasons current configured
    else ledger_reasons assets rows minimum maximum

-- CompatibilityReport
pub record Report : Type 0 where
  pub schema : String
  pub domain_api_version : String
  pub installed_schema_version : Option ℕ
  pub minimum_schema_version : ℕ
  pub maximum_schema_version : ℕ
  pub current_role : Option String
  pub expected_role_kind : String
  pub configured_role : Option String
  pub compatible : Bool
  pub reasons : List String

abbrev pub installed_version : Dict ℕ Row → Option ℕ
installed_version []ᴸ = none
installed_version (row ∷ᴸ rows) = some (last_version (row ∷ᴸ rows))

abbrev pub supplied : Option (List (ℕ × Row)) → Result SchemaError (Dict ℕ Row)
supplied none = ok []ᴸ
supplied (some ledger) = ledger_rows ledger []ᴸ

-- compatibility_report
unfoldable pub compatibility_report :
    String
    → List MigrationAsset
    → Option (List (ℕ × Row))
    → String
    → ℕ
    → ℕ
    → Option String
    → String
    → Option String
    → Result SchemaError Report
compatibility_report schema migrations ledger api minimum maximum current kind configured =
    validate_contiguous_migrations migrations >>= λ assets.
    guard (is_identifier schema) value_error
    >> (guard (not (api == "")) value_error
        >> (guard (kind == "runtime" || kind == "migration") value_error
            >> (guard (leb 1 minimum && leb minimum maximum) value_error
                >> (guard (leb maximum (length assets)) value_error
                    >> (supplied ledger >>= λ rows. ok (record {
                      schema = schema;
                      domain_api_version = api;
                      installed_schema_version = installed_version rows;
                      minimum_schema_version = minimum;
                      maximum_schema_version = maximum;
                      current_role = current;
                      expected_role_kind = kind;
                      configured_role = configured;
                      compatible =
                          is_empty (reasons_of assets rows minimum maximum current configured);
                      reasons = reasons_of assets rows minimum maximum current configured;
                    }))))))
