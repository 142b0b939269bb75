-- ===== src/Reconciler/DiffPolicy/Paths.antt =====
-- Which paths are inside the repository and no configuration of git (diff_policy.py), said of their
-- parts.
use vuoro.Text.{starts_with, has_code, split}
use vuoro.Prelude.Members.{any-none, elem-Mem}
use vuoro.Prelude.{
  ◌≢◌, ◌++◌, if◌then◌else◌, any, ap, ◌∙◌, Bool-cases, some, String, ◌≡◌, sym, inl, inr, refl, Bool,
  true, false, List, [], ◌∷◌, ◌&&◌, ◌||◌, not, arith,
}
use vuoro.Prelude.Eq.{◌==◌, string_keys, elem}
use mathlib.Core.List.{Memᴰ}
use text.Mathlib.TextEquality.{eq_iff}
use vuoro.Reconciler.DiffPolicy.{is_path_safe, is_control_name, last_part, parent_part, is_info}

last_part-append : (parents : List String) (name : String) → last_part (parents ++ name ∷ []) ≡ name
last_part-append [] name = refl
last_part-append (p ∷ []) name = refl
last_part-append (p ∷ q ∷ ps) name = last_part-append (q ∷ ps) name

parent_part-append :
    (parents : List String) (folder name : String)
    → parent_part (parents ++ folder ∷ name ∷ []) ≡ some folder
parent_part-append [] folder name = refl
parent_part-append (p ∷ []) folder name = refl
parent_part-append (p ∷ q ∷ []) folder name = refl
parent_part-append (p ∷ q ∷ r ∷ ps) folder name = parent_part-append (q ∷ r ∷ ps) folder name

last_part-append-2 :
    (parents : List String) (folder name : String)
    → last_part (parents ++ folder ∷ name ∷ []) ≡ name
last_part-append-2 [] folder name = refl
last_part-append-2 (p ∷ []) folder name = refl
last_part-append-2 (p ∷ q ∷ ps) folder name = last_part-append-2 (q ∷ ps) folder name

-- A path inside the repository: a relative one, of printable characters, none of whose parts is
-- empty, a step up, a step in place, or the folder of git.
pub record Inside (isprintable : String → Bool) (path : String) : Type 0 where
  pub nonempty : path ≢ ""
  pub relative : starts_with path "/" ≡ false
  pub no_zero : has_code path 0 ≡ false
  pub printable : isprintable path ≡ true
  pub steps :
      (part : String) → Memᴰ part (split path 47) → ¬ (Memᴰ part ("" ∷ "." ∷ ".." ∷ ".git" ∷ []))

pub is_path_safe-Inside :
    (isprintable : String → Bool) (path : String)
    → is_path_safe isprintable path ≡ true
    → Inside isprintable path
unfolding is_path_safe
is_path_safe-Inside isprintable path h =
    elim (Bool-cases (path == "" || starts_with path "/" || has_code path 0)) [
      | inl t ↦ absurd (ground (arith, t))
      | inr f ↦ elim (Bool-cases (isprintable path)) [
        | inr n ↦ absurd (ground (arith, f, n))
        | inl t ↦
            let bad : any (λ part. elem part ("" ∷ "." ∷ ".." ∷ ".git" ∷ [])) (split path 47)
                ≡ false =
              ground (arith, f, t) in
            record {
              nonempty = ground (arith, f, eq_iff path "");
              relative = ground (arith, f);
              no_zero = ground (arith, f);
              printable = t;
              steps = λ part m. elem-Mem part ("" ∷ "." ∷ ".." ∷ ".git" ∷ []) (
                  any-none (λ x. elem x ("" ∷ "." ∷ ".." ∷ ".git" ∷ [])) (split path 47) part bad
                    m);
            }
      ]
    ]

-- A path whose file git does not read as its own configuration: `parts` are those of its lower case.
pub record NoControl (parts : List String) : Type 0 where
  pub no_git_file :
      (parents : List String) (name : String)
      → parts ≡ parents ++ name ∷ []
      → starts_with name ".git" ≡ true
      → name ≡ ".gitkeep"
  pub no_mailmap : (parents : List String) → parts ≢ parents ++ ".mailmap" ∷ []
  pub no_info :
      (parents : List String) (name : String)
      → parts ≡ parents ++ "info" ∷ name ∷ []
      → ¬ (Memᴰ name ("attributes" ∷ "exclude" ∷ "sparse-checkout" ∷ []))

mailmap_lem : (a b c : Bool) → (if a then true else if b then true else c) ≡ false → b ≡ true → ⊥
mailmap_lem a b c h e = ground arith

control_lem :
    (name : String) (folder among : Bool)
    → (if starts_with name ".git" && not (name == ".gitkeep")
        then true
        else if name == ".mailmap"
        then true
        else folder && among)
      ≡ false
    → folder ≡ true
    → among ≡ false
control_lem name folder among h e = ground arith

pub is_control_name-NoControl :
    (parts : List String) → is_control_name parts ≡ false → NoControl parts
unfolding is_control_name
is_control_name-NoControl parts h = record {
  no_git_file = λ parents name e s.
      let last = ap last_part e ∙ last_part-append parents name in
      ground (arith, last, eq_iff name ".gitkeep");
  no_mailmap = λ parents e.
      let last = ap last_part e ∙ last_part-append parents ".mailmap" in
      mailmap_lem _ _ _ h (ap (λ x. x == ".mailmap") last);
  no_info = λ parents name e.
      let last = ap last_part e ∙ last_part-append-2 parents "info" name in
      let info : is_info (parent_part parts) ≡ true =
        ap is_info (ap parent_part e ∙ parent_part-append parents "info" name) in
      elem-Mem name ("attributes" ∷ "exclude" ∷ "sparse-checkout" ∷ []) (
        ap (λ x. elem x ("attributes" ∷ "exclude" ∷ "sparse-checkout" ∷ [])) (sym last)
        ∙ control_lem (last_part parts) _ _ h info);
}
