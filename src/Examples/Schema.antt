-- ===== src/Examples/Schema.antt =====
-- Concrete inputs for the schema runtime.
use vuoro.Prelude.{ℕ, true, some, List, [], ◌∷◌, ◌≡◌, refl}
use vuoro.Prelude.Result.{ok, err}
use vuoro.Dict.{Dict, get, put}
use vuoro.Schema.{
  MigrationAsset, Row, Report, drift_error, new_asset, counts_from, validate_contiguous_migrations,
  is_identifier, ledger_rows, asset_matches, no_drift, has_versions, all_positive, ledger_reasons,
  role_reasons, reasons_of, supplied, compatibility_report,
}
use vuoro.Schema.Compatible.{report-Compatible, Compatible}

abbrev assets : List MigrationAsset
assets =
    record { version = 1; name = "first"; sql = "create"; sha256 = "aa" }
    ∷ record { version = 2; name = "second"; sql = "alter"; sha256 = "bb" }
    ∷ []

abbrev rows : List (ℕ × Row)
rows = (2, ("second", "bb")) ∷ (1, ("first", "aa")) ∷ []

abbrev report : Report
report = record {
  schema = "app";
  domain_api_version = "v1";
  installed_schema_version = some 2;
  minimum_schema_version = 1;
  maximum_schema_version = 2;
  current_role = some "reader";
  expected_role_kind = "runtime";
  configured_role = some "reader";
  compatible = true;
  reasons = [];
}

report_run :
    compatibility_report "app" assets (some rows) "v1" 1 2 (some "reader") "runtime" (some "reader")
    ≡ ok report
unfolding compatibility_report validate_contiguous_migrations counts_from is_identifier ledger_rows
    get put reasons_of ledger_reasons has_versions all_positive no_drift asset_matches role_reasons
report_run = refl

repeated_row : ledger_rows ((1, ("first", "aa")) ∷ (1, ("first", "aa")) ∷ []) [] ≡ err drift_error
unfolding ledger_rows get put
repeated_row = refl

bad_digest : new_asset (λ sql. "aa") 1 "first" "create" "bb" ≡ err drift_error
unfolding new_asset
bad_digest = refl

gap_reason :
    ledger_reasons assets ((2, ("second", "bb")) ∷ []) 1 2 ≡ "migration_ledger_not_contiguous" ∷ []
unfolding ledger_reasons has_versions all_positive no_drift asset_matches get
gap_reason = refl

report-Compatible_example :
    (found : Dict ℕ Row) × (supplied (some rows) ≡ ok found)
    × Compatible assets found 1 2 (some "reader") (some "reader")
report-Compatible_example =
    report-Compatible "app" assets (some rows) "v1" 1 2 (some "reader") "runtime" (some "reader")
      report report_run refl
