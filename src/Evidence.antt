-- ===== src/Evidence.antt =====
-- The evidence ledger of packages/vuoro-evidence/src/vuoro_evidence/core: its records (`Model`),
-- chaining (`Chain`), the builder of chained sets (`Builder`), the reduction of a set to the state of
-- its subjects (`Reducer`) and the decision whether an effect may be run again (`Decide`).
pub mod Model
pub mod Chain
pub mod Builder
pub mod Reducer
pub mod Decide
