-- ===== src/Reconciler/DiffPolicy/Permitted.antt =====
-- What `check_changes` lets through (diff_policy.py), said of the change and not of the checks.
use vuoro.Text.{starts_with, has_code, split}
use vuoro.Prelude.Members.{any-Mem, any-none}
use vuoro.Prelude.{
  String, ◌≡◌, subst, sym, ◌↔◌, ◌⊎◌, inl, inr, refl, Bool, true, false, List, [], ◌∷◌, ◌&&◌, ◌||◌,
  not, arith,
}
use vuoro.Prelude.Eq.{◌==◌, string_keys, elem}
use vuoro.Prelude.Result.{Result, ok, err, ◌>>◌, refuse_if}
use mathlib.Core.List.{Memᴰ}
use text.Mathlib.TextEquality.{eq_iff}
use vuoro.Reconciler.DiffPolicy.Paths.{
  Inside, NoControl, is_path_safe-Inside, is_control_name-NoControl,
}
use vuoro.Reconciler.DiffPolicy.{
  DiffPolicy, StagedChange, is_unsupported_path, is_path_safe, is_git_control_path, is_allowlisted,
  is_protected, check_change, check_each, check_changes,
}

-- a check passes where its test fails and the rest passes
passes_on :
    (b : Bool) (e : String) (k : Result String (Unit {0}))
    → (refuse_if b e >> k ≡ ok tt) ↔ ((b ≡ false) × (k ≡ ok tt))
passes_on true e k = ground arith
passes_on false e k = ground arith

both_pass : (m k : Result String (Unit {0})) → m >> k ≡ ok tt → (m ≡ ok tt) × (k ≡ ok tt)
both_pass (ok u) k h = (refl, h)
both_pass (err e) k h = cc

last_passes : (b : Bool) (e : String) → refuse_if b e ≡ ok tt → b ≡ false
last_passes true e h = cc
last_passes false e h = refl

module _ (lower : String → String) (isprintable : String → Bool)
    (fnmatch : String → String → Bool) where
  -- the allowlist names the path by one of its patterns
  abbrev pub Allowed : DiffPolicy → String → Type 0
  Allowed policy path =
      (pattern : String) × (Memᴰ pattern policy.path_allowlist) × (fnmatch path pattern ≡ true)

  -- no pattern of the workflows or of the policy protects the path
  abbrev pub Unprotected : DiffPolicy → String → Type 0
  Unprotected policy path =
      (pattern : String)
      → Memᴰ pattern (
          ".github/workflows/*" ∷ ".forgejo/workflows/*" ∷ ".gitea/workflows/*"
          ∷ policy.protected_path_patterns)
      → fnmatch path pattern ≡ false

  -- A regular file is added, an existing one is changed in its content alone, or one that the
  -- allowlist names is deleted.
  abbrev pub Shape : DiffPolicy → StagedChange → Type 0
  Shape policy c =
      ((c.status ≡ "A") × (c.new_mode ≡ "100644"))
      ⊎ (((c.status ≡ "M") × (c.old_mode ≡ c.new_mode))
          ⊎ ((c.status ≡ "D") × Allowed policy c.path))

  abbrev pub IsSpecial : String → Type 0
  IsSpecial mode = (mode ≡ "120000") ⊎ (mode ≡ "160000")

  abbrev pub IsFileMode : String → Type 0
  IsFileMode mode = (mode ≡ "100644") ⊎ ((mode ≡ "100755") ⊎ (mode ≡ "000000"))

  pub record Permitted (policy : DiffPolicy) (c : StagedChange) : Type 0 where
    pub no_colon : has_code c.path 58 ≡ false
    pub no_option : starts_with c.path "-" ≡ false
    pub inside : Inside isprintable c.path
    pub no_control : NoControl (split (lower c.path) 47)
    pub textual : c.binary ≡ false
    pub old_plain : ¬ (IsSpecial c.old_mode)
    pub file_mode : IsFileMode c.new_mode
    pub shape : Shape policy c
    pub unprotected : Unprotected policy c.path ⊎ Allowed policy c.path

  old_mode_lem :
      (old new : String)
      → (old == "120000" || new == "120000") ≡ false
      → (old == "160000" || new == "160000") ≡ false
      → ¬ (IsSpecial old)
  old_mode_lem old new h k (inl e) = ground (arith, eq_iff old "120000")
  old_mode_lem old new h k (inr e) = ground (arith, eq_iff old "160000")

  file_mode_lem :
      (new : String)
      → (not (elem new ("100644" ∷ "100755" ∷ "000000" ∷ [])) ≡ false) ↔ IsFileMode new
  file_mode_lem new = ground (arith, eq_iff "100644" new, eq_iff "100755" new, eq_iff "000000" new)

  status_lem :
      (status : String)
      → not (elem status ("A" ∷ "D" ∷ "M" ∷ [])) ≡ false
      → (status ≡ "A") ⊎ ((status ≡ "M") ⊎ (status ≡ "D"))
  status_lem status h = ground (arith, eq_iff "A" status, eq_iff "M" status, eq_iff "D" status)

  added :
      (status new : String)
      → (status == "A" && not (new == "100644")) ≡ false
      → status ≡ "A"
      → new ≡ "100644"
  added status new h e = ground (arith, eq_iff status "A", eq_iff new "100644")

  modified :
      (status old new : String)
      → ((status == "M" || status == "T") && not (old == new)) ≡ false
      → status ≡ "M"
      → old ≡ new
  modified status old new h e = ground (arith, eq_iff status "M", eq_iff old new)

  deleted :
      (status : String) (b : Bool) → (status == "D" && not b) ≡ false → status ≡ "D" → b ≡ true
  deleted status b h e = ground (arith, eq_iff status "D")

  abbrev Checks : DiffPolicy → StagedChange → Type 0
  Checks policy c =
      (is_unsupported_path c.path ≡ false)
      × (not (is_path_safe isprintable c.path) ≡ false)
      × (is_git_control_path lower c.path ≡ false)
      × (c.binary ≡ false)
      × ((c.old_mode == "120000" || c.new_mode == "120000") ≡ false)
      × ((c.old_mode == "160000" || c.new_mode == "160000") ≡ false)
      × ((c.status == "A" && not (c.new_mode == "100644")) ≡ false)
      × (((c.status == "M" || c.status == "T") && not (c.old_mode == c.new_mode)) ≡ false)
      × (not (elem c.status ("A" ∷ "D" ∷ "M" ∷ [])) ≡ false)
      × ((c.status == "D" && not (is_allowlisted fnmatch policy c.path)) ≡ false)
      × ((is_protected fnmatch policy c.path && not (is_allowlisted fnmatch policy c.path)) ≡ false)
      × (not (elem c.new_mode ("100644" ∷ "100755" ∷ "000000" ∷ [])) ≡ false)

  check_change_iff :
      (policy : DiffPolicy) (c : StagedChange)
      → (check_change lower isprintable fnmatch policy c ≡ ok tt) ↔ Checks policy c
  unfolding check_change
  check_change_iff policy c = (
    λ h.
        let (a, h1) = (passes_on _ _ _).0 h in
        let (b, h2) = (passes_on _ _ _).0 h1 in
        let (d, h3) = (passes_on _ _ _).0 h2 in
        let (e, h4) = (passes_on _ _ _).0 h3 in
        let (f, h5) = (passes_on _ _ _).0 h4 in
        let (g, h6) = (passes_on _ _ _).0 h5 in
        let (i, h7) = (passes_on _ _ _).0 h6 in
        let (j, h8) = (passes_on _ _ _).0 h7 in
        let (k, h9) = (passes_on _ _ _).0 h8 in
        let (l, h10) = (passes_on _ _ _).0 h9 in
        let (m, h11) = (passes_on _ _ _).0 h10 in
        (a, b, d, e, f, g, i, j, k, l, m, last_passes _ _ h11),
    λ (a, b, d, e, f, g, i, j, k, l, m, n). rw (a, b, d, e, f, g, i, j, k, l, m, n) refl,
  )

  allowed_lem :
      (policy : DiffPolicy) (path : String)
      → is_allowlisted fnmatch policy path ≡ true
      → Allowed policy path
  unfolding is_allowlisted
  allowed_lem policy path h = any-Mem (fnmatch path) policy.path_allowlist h

  unprotected_lem :
      (policy : DiffPolicy) (path : String)
      → (is_protected fnmatch policy path ≡ false) ⊎ (is_allowlisted fnmatch policy path ≡ true)
      → Unprotected policy path ⊎ Allowed policy path
  unfolding is_protected
  unprotected_lem policy path (inr h) = inr (allowed_lem policy path h)
  unprotected_lem policy path (inl h) = inl (λ pattern m.
      any-none (fnmatch path)
        (".github/workflows/*" ∷ ".forgejo/workflows/*" ∷ ".gitea/workflows/*"
          ∷ policy.protected_path_patterns)
        pattern h m)

  unsupported_lem :
      (path : String)
      → is_unsupported_path path ≡ false
      → (has_code path 58 ≡ false) × (starts_with path "-" ≡ false)
  unfolding is_unsupported_path
  unsupported_lem path h = ground arith

  git_control_lem :
      (path : String) → is_git_control_path lower path ≡ false → NoControl (split (lower path) 47)
  unfolding is_git_control_path
  git_control_lem path h = is_control_name-NoControl (split (lower path) 47) h

  Shape-checked : (policy : DiffPolicy) (c : StagedChange) → Checks policy c → Shape policy c
  Shape-checked policy c (_, _, _, _, _, _, a, m, s, d, _, _) = elim (status_lem c.status s) [
    | inl e ↦ inl (e, added c.status c.new_mode a e)
    | inr (inl e) ↦ inr (inl (e, modified c.status c.old_mode c.new_mode m e))
    | inr (inr e) ↦
        let (pattern, m, hit) =
          allowed_lem policy c.path (deleted c.status (is_allowlisted fnmatch policy c.path) d e) in
        inr (inr (e, (pattern, m, hit)))
  ]

  protected_lem : (p a : Bool) → ((p && not a) ≡ false) → (p ≡ false) ⊎ (a ≡ true)
  protected_lem p a h = ground arith

  not_lem : (b : Bool) → not b ≡ false → b ≡ true
  not_lem b h = ground arith

  Permitted-checked :
      (policy : DiffPolicy) (c : StagedChange) → Checks policy c → Permitted policy c
  Permitted-checked policy c (a, b, d, e, f, g, i, j, k, l, m, n) = record {
    no_colon = (unsupported_lem c.path a).0;
    no_option = (unsupported_lem c.path a).1;
    inside = is_path_safe-Inside isprintable c.path (not_lem _ b);
    no_control = git_control_lem c.path d;
    textual = e;
    old_plain = old_mode_lem c.old_mode c.new_mode f g;
    file_mode = (file_mode_lem c.new_mode).0 n;
    shape = Shape-checked policy c (a, b, d, e, f, g, i, j, k, l, m, n);
    unprotected = unprotected_lem policy c.path (protected_lem _ _ m);
  }

  check_each-Permitted :
      (policy : DiffPolicy) (changes : List StagedChange) (c : StagedChange)
      → Memᴰ c changes
      → check_each lower isprintable fnmatch changes policy ≡ ok tt
      → Permitted policy c
  unfolding check_each
  check_each-Permitted policy [] c m h = elim m [ ]
  check_each-Permitted policy (d ∷ ds) c (Memᴰ.head e) h =
      subst (Permitted policy) (sym e)
        (Permitted-checked policy d ((check_change_iff policy d).0 (both_pass _ _ h).0))
  check_each-Permitted policy (d ∷ ds) c (Memᴰ.tail m) h =
      check_each-Permitted policy ds c m
        (both_pass (check_change lower isprintable fnmatch policy d) _ h).1

  -- Every change of a diff that passes is permitted: its path is inside the repository, is no
  -- configuration of git and is not protected, unless the allowlist names it; it is text; no mode
  -- changes, no link or submodule is touched; and it deletes only what the allowlist names.
  pub check_changes-Permitted :
      (policy : DiffPolicy) (changes : List StagedChange) (c : StagedChange)
      → Memᴰ c changes
      → check_changes lower isprintable fnmatch changes policy ≡ ok tt
      → Permitted policy c
  unfolding check_changes
  check_changes-Permitted policy [] c m h = elim m [ ]
  check_changes-Permitted policy (d ∷ ds) c m h = check_each-Permitted policy (d ∷ ds) c m h
