-- ===== src/Reconciler/DiffPolicy/Patch.antt =====
-- The checks of diff_policy.py on the text of a patch, and on the staged blobs. What git answers is a
-- parameter: `numstat` the rows of `git apply --numstat`, `read_blobs` the content of the objects.
use vuoro.Prelude.{
  String, ℕ, Bool, Option, List, [], ◌∷◌, ◌++◌, ◌||◌, not, any, map, filter, if◌then◌else◌,
}
use vuoro.Prelude.Eq.{◌==◌, string_keys, elem}
use vuoro.Prelude.Result.{Result, ok, err, ◌>>=◌, ◌>>◌, refuse_if}
use vuoro.Text.{starts_with, has_code, drop_text}
use vuoro.Reconciler.DiffPolicy.{StagedChange}
use vuoro.Reconciler.DiffPolicy.Content.{check_text}

pub record NumstatRow : Type 0 where
  pub added : String
  pub deleted : String
  pub path : String

abbrev binary_patch_lines : List String
binary_patch_lines = "GIT binary patch" ∷ "literal " ∷ "delta " ∷ "Binary files " ∷ []

-- dict.fromkeys
abbrev distinct_from : List String → List String → List String
distinct_from seen [] = []
distinct_from seen (x ∷ xs) =
    let rest = distinct_from (x ∷ seen) xs in
    let same = distinct_from seen xs in if elem x seen then same else x ∷ rest

module _ (splitlines : String → List String) where
  unfoldable pub check_patch_text : String → Result String (Unit {0})
  check_patch_text diff =
      if has_code diff 0
      then err "binary-patch-refused"
      else if any (λ line. any (starts_with line) binary_patch_lines) (splitlines diff)
      then err "binary-patch-refused"
      else ok tt

  -- the paths that the line names as the source of a rename or a copy
  abbrev sources_of : String → List String
  sources_of line =
      (if starts_with line "rename from " then drop_text 12 line ∷ [] else [])
      ++ (if starts_with line "copy from " then drop_text 10 line ∷ [] else [])

  abbrev sources : List String → List String
  sources [] = []
  sources (line ∷ lines) = sources_of line ++ sources lines

  module _ (numstat : String → Result String (List NumstatRow)) where
    unfoldable pub check_patch_is_text : String → Result String (Unit {0})
    check_patch_is_text diff = do
      rows ← numstat diff
      refuse_if (any (λ (r : NumstatRow). r.added == "-" || r.deleted == "-") rows)
          "binary-patch-refused"

    unfoldable pub patch_paths : String → Result String (List String)
    patch_paths diff = do
      rows ← numstat diff
      ok (distinct_from [] (map (λ (r : NumstatRow). r.path) rows ++ sources (splitlines diff)))

module _ (is_object_id : String → Bool) (is_zero : String → Bool)
    (read_blobs : List String → Result String (String → List ℕ))
    (decode : List ℕ → Option (List ℕ)) where
  -- the staged blobs to be read: no deletion has one
  abbrev wanted : List StagedChange → List StagedChange
  wanted = filter (λ (c : StagedChange). not (c.status == "D"))

  -- the first refusal of a blob
  unfoldable pub check_blobs : (String → List ℕ) → List StagedChange → Result String (Unit {0})
  check_blobs blobs [] = ok tt
  check_blobs blobs (c ∷ cs) = check_text decode (blobs c.new_sha) >> check_blobs blobs cs

  unfoldable pub check_staged_content : List StagedChange → Result String (Unit {0})
  unfolding check_blobs
  check_staged_content changes = do
    refuse_if
        (any (λ (c : StagedChange). not (is_object_id c.new_sha) || is_zero c.new_sha)
          (wanted changes))
        "blob-missing"
    blobs ← read_blobs (distinct_from [] (map (λ (c : StagedChange). c.new_sha) (wanted changes)))
    check_blobs blobs (wanted changes)
