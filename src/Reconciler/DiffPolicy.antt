-- ===== src/Reconciler/DiffPolicy.antt =====
-- packages/vuoro-reconciler/src/vuoro_reconciler/diff_policy.py: what a diff may touch. `lower` and
-- `isprintable` are Python's, whose Unicode tables are not modelled, and `fnmatch` is Python's pattern
-- matching: `fnmatch path pattern`. The refusals carry their codes.
pub mod Paths
pub mod Permitted
pub mod Content
pub mod Patch
use vuoro.Prelude.{
  ℕ, String, Bool, true, false, Option, none, some, List, [], ◌∷◌, ◌++◌, ◌&&◌, ◌||◌, not, any,
  length, leb, if◌then◌else◌,
}
use vuoro.Prelude.Eq.{◌==◌, string_keys, elem}
use vuoro.Prelude.Result.{Result, ok, err, ◌>>=◌, ◌>>◌, refuse_if}
use vuoro.Text.{starts_with, has_code, split}

abbrev pub ci_workflow_patterns : List String
ci_workflow_patterns = ".github/workflows/*" ∷ ".forgejo/workflows/*" ∷ ".gitea/workflows/*" ∷ []

abbrev git_info_files : List String
git_info_files = "attributes" ∷ "exclude" ∷ "sparse-checkout" ∷ []

pub record DiffPolicy : Type 0 where
  pub path_allowlist : List String
  pub protected_path_patterns : List String

abbrev pub empty_diff_policy : DiffPolicy
empty_diff_policy = record { path_allowlist = []; protected_path_patterns = [] }

pub record StagedChange : Type 0 where
  pub path : String
  pub status : String
  pub old_mode : String
  pub new_mode : String
  pub binary : Bool
  pub new_sha : String

-- parts[-1]
abbrev pub last_part : List String → String
last_part [] = ""
last_part (p ∷ []) = p
last_part (p ∷ q ∷ ps) = last_part (q ∷ ps)

-- parts[-2], where there are two parts at least
abbrev pub parent_part : List String → Option String
parent_part [] = none
parent_part (p ∷ []) = none
parent_part (p ∷ q ∷ []) = some p
parent_part (p ∷ q ∷ r ∷ ps) = parent_part (q ∷ r ∷ ps)

abbrev pub is_info : Option String → Bool
is_info none = false
is_info (some p) = p == "info"

unfoldable pub is_control_name : List String → Bool
is_control_name parts =
    if starts_with (last_part parts) ".git" && not (last_part parts == ".gitkeep")
    then true
    else if last_part parts == ".mailmap"
    then true
    else is_info (parent_part parts) && elem (last_part parts) git_info_files

-- ':' in path or path.startswith("-")
unfoldable pub is_unsupported_path : String → Bool
is_unsupported_path path = has_code path 58 || starts_with path "-"

abbrev is_bad_part : String → Bool
is_bad_part part = elem part ("" ∷ "." ∷ ".." ∷ ".git" ∷ [])

module _ (lower : String → String) where
  unfoldable pub is_git_control_path : String → Bool
  unfolding is_control_name
  is_git_control_path path = is_control_name (split (lower path) 47)

module _ (isprintable : String → Bool) where
  unfoldable pub is_path_safe : String → Bool
  is_path_safe path =
      if path == "" || starts_with path "/" || has_code path 0
      then false
      else if not (isprintable path)
      then false
      else not (any is_bad_part (split path 47))

module _ (fnmatch : String → String → Bool) where
  unfoldable pub is_allowlisted : DiffPolicy → String → Bool
  is_allowlisted policy path = any (fnmatch path) policy.path_allowlist

  unfoldable pub is_protected : DiffPolicy → String → Bool
  is_protected policy path =
      any (fnmatch path) (ci_workflow_patterns ++ policy.protected_path_patterns)

module _ (lower : String → String) (isprintable : String → Bool)
    (fnmatch : String → String → Bool) where
  -- the body of the loop
  unfoldable pub check_change : DiffPolicy → StagedChange → Result String (Unit {0})
  check_change policy change = do
    refuse_if (is_unsupported_path change.path) "unsupported-path"
    refuse_if (not (is_path_safe isprintable change.path)) "path-outside-repository"
    refuse_if (is_git_control_path lower change.path) "git-control-file-refused"
    refuse_if change.binary "binary-patch-refused"
    refuse_if (change.old_mode == "120000" || change.new_mode == "120000") "symlink-refused"
    refuse_if (change.old_mode == "160000" || change.new_mode == "160000") "submodule-refused"
    refuse_if (change.status == "A" && not (change.new_mode == "100644")) "mode-change-refused"
    refuse_if
        ((change.status == "M" || change.status == "T") && not (change.old_mode == change.new_mode))
        "mode-change-refused"
    refuse_if (not (elem change.status ("A" ∷ "D" ∷ "M" ∷ []))) "diff-not-supported"
    refuse_if (change.status == "D" && not (is_allowlisted fnmatch policy change.path))
        "path-not-allowlisted"
    refuse_if
        (is_protected fnmatch policy change.path && not (is_allowlisted fnmatch policy change.path))
        "protected-path-refused"
    refuse_if (not (elem change.new_mode ("100644" ∷ "100755" ∷ "000000" ∷ [])))
        "mode-change-refused"

  unfoldable pub check_each : List StagedChange → DiffPolicy → Result String (Unit {0})
  unfolding check_change
  check_each [] policy = ok tt
  check_each (change ∷ changes) policy = check_change policy change >> check_each changes policy

  unfoldable pub check_changes : List StagedChange → DiffPolicy → Result String (Unit {0})
  unfolding check_each
  check_changes [] policy = err "empty-diff"
  check_changes (change ∷ changes) policy = check_each (change ∷ changes) policy
