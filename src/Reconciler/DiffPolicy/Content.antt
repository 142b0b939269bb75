-- ===== src/Reconciler/DiffPolicy/Content.antt =====
-- `_check_text` of diff_policy.py on the bytes of a staged blob. `decode` is the decoding of UTF-8, to
-- the code points of a text, where the bytes are valid.
use mathlib.Core.List.{Memᴰ}
use vuoro.Prelude.Members.{elem-Mem}
use vuoro.Prelude.{
  ◌≤◌, ◌<◌, ap, subst, inl, inr, both_true, nat_eq_iff, Bool-cases, Option-cases, ℕ, ◌≡◌, ◌⊎◌,
  String, Bool, true, false, Option, none, some, List, [], ◌∷◌, ◌++◌, ◌&&◌, ◌||◌, not, nat_eq, ltb,
  leb, arith, if◌then◌else◌,
}
use vuoro.Prelude.Eq.{elem, nat_keys}
use vuoro.Prelude.Result.{Result, ok, err}

-- text[index + 1 : index + 2] == "\n"
abbrev pub newline_first : List ℕ → Bool
newline_first [] = false
newline_first (c ∷ rest) = nat_eq c 10

abbrev pub is_control : ℕ → Bool
is_control code =
    (ltb code 32 && not (nat_eq code 9 || nat_eq code 10)) || (leb 127 code && leb code 159)

-- the loop over the text
unfoldable pub check_codes : List ℕ → Result String (Unit {0})
check_codes [] = ok tt
check_codes (code ∷ rest) =
    let later = check_codes rest in
    if nat_eq code 13 && newline_first rest
    then later
    else if is_control code
    then err "control-character-content-refused"
    else later

unfoldable pub check_text : (List ℕ → Option (List ℕ)) → List ℕ → Result String (Unit {0})
unfolding check_codes
check_text decode bytes =
    if elem 0 bytes then err "binary-content-refused" else elim (decode bytes) [
      | none ↦ err "non-utf8-content-refused"
      | some codes ↦ check_codes codes
    ]

check_codes-suffix :
    (before rest : List ℕ) → check_codes (before ++ rest) ≡ ok tt → check_codes rest ≡ ok tt
unfolding check_codes
check_codes-suffix [] rest h = h
check_codes-suffix (b ∷ before) rest h = check_codes-suffix before rest (ground arith)

-- A character that a text may hold: a tab, a line feed, a carriage return that a line feed follows,
-- or one that is no control character, of ASCII or of the second block.
abbrev pub Plain : ℕ → List ℕ → Type 0
Plain code rest =
    (code ≡ 9)
    ⊎ ((code ≡ 10)
        ⊎ (((code ≡ 13) × (later : List ℕ) × (rest ≡ 10 ∷ later))
            ⊎ (((32 ≤ code) × (code < 127)) ⊎ (159 < code))))

-- What a blob that passes is, in bytes and in characters.
pub record PlainText (decode : List ℕ → Option (List ℕ)) (bytes : List ℕ) : Type 0 where
  pub no_zero : ¬ (Memᴰ 0 bytes)
  pub codes : List ℕ
  pub decoded : decode bytes ≡ some codes
  pub plain : (before rest : List ℕ) (code : ℕ) → codes ≡ before ++ code ∷ rest → Plain code rest

newline_first-lem :
    (rest : List ℕ) → newline_first rest ≡ true → (later : List ℕ) × (rest ≡ 10 ∷ later)
newline_first-lem [] h = cc
newline_first-lem (c ∷ rest) h = (rest, ap (λ x. x ∷ rest) ((nat_eq_iff c 10).0 h))

check_codes-Plain : (code : ℕ) (rest : List ℕ) → check_codes (code ∷ rest) ≡ ok tt → Plain code rest
unfolding check_codes
check_codes-Plain code rest h = elim (Bool-cases (nat_eq code 13 && newline_first rest)) [
  | inl t ↦
      let (is_return, feed) = both_true (nat_eq code 13) (newline_first rest) t in
      let (later, next) = newline_first-lem rest feed in
      inr (inr (inl ((nat_eq_iff code 13).0 is_return, later, next)))
  | inr f ↦
      let free : is_control code ≡ false = ground (arith, f) in
      elim (Bool-cases (nat_eq code 9)) [
        | inl t ↦ inl ((nat_eq_iff code 9).0 t)
        | inr n ↦ elim (Bool-cases (nat_eq code 10)) [
          | inl t ↦ inr (inl ((nat_eq_iff code 10).0 t))
          | inr m ↦ elim (Bool-cases (ltb code 127)) [
            | inl low ↦ inr (inr (inr (inl (ground arith))))
            | inr high ↦ inr (inr (inr (inr (ground arith))))
          ]
        ]
      ]
]

-- A blob that passes has no zero byte, its bytes are valid UTF-8, and each character of its text is a
-- tab, a line feed, a carriage return that a line feed follows, or no control character.
pub check_text-plain :
    (decode : List ℕ → Option (List ℕ)) (bytes : List ℕ)
    → check_text decode bytes ≡ ok tt
    → PlainText decode bytes
unfolding check_text
check_text-plain decode bytes h = elim (Bool-cases (elem 0 bytes)) [
  | inl t ↦ absurd (ground arith)
  | inr f ↦ elim (Option-cases (decode bytes)) [
    | inl n ↦ absurd (ground arith)
    | inr (found, e) ↦
        let passed : check_codes found ≡ ok tt = ground arith in
        record {
          no_zero = elem-Mem 0 bytes f;
          codes = found;
          decoded = e;
          plain = λ before rest code split. check_codes-Plain code rest (
              check_codes-suffix before (code ∷ rest)
                (subst (λ x. check_codes x ≡ ok tt) split passed));
        }
  ]
]
