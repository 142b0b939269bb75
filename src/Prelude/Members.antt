-- ===== src/Prelude/Members.antt =====
-- The members of a list, against the Boolean tests of Python's `any`, `in` and comprehensions.
use mathlib.Core.Path.{◌≡◌, refl, sym, ap, ◌∙◌}
use mathlib.Core.Logic.{◌↔◌, inl, inr}
use mathlib.Core.Bool.{Bool, true, false}
use mathlib.Core.List.{List, [], ◌∷◌, Memᴰ}
use native.Mathlib.Omega.{arith}
use vuoro.Prelude.Tests.{Bool-cases}
use vuoro.Prelude.Lists.{any, filter}
use vuoro.Prelude.Eq.{Equality, ◌==◌, elem}

module _ {A : Type 0} where
  pub any-Mem :
      (p : A → Bool) (xs : List A) → any p xs ≡ true → (x : A) × (Memᴰ x xs) × (p x ≡ true)
  any-Mem p [] h = cc
  any-Mem p (x ∷ xs) h = elim (Bool-cases (p x)) [
    | inl t ↦ (x, Memᴰ.head refl, t)
    | inr f ↦ let (y, m, t) = any-Mem p xs (ground (arith, f)) in (y, Memᴰ.tail m, t)
  ]

  pub any-none : (p : A → Bool) (xs : List A) (x : A) → any p xs ≡ false → Memᴰ x xs → p x ≡ false
  any-none p [] x h m = elim m [ ]
  any-none p (y ∷ ys) x h (Memᴰ.head e) = ap p e ∙ ground arith
  any-none p (y ∷ ys) x h (Memᴰ.tail m) = any-none p ys x (ground arith) m

  pub filter-Mem :
      (p : A → Bool) (xs : List A) (i : A) → (Memᴰ i (filter p xs)) ↔ (Memᴰ i xs × (p i ≡ true))
  filter-Mem p [] i = (λ m. elim m [ ], λ (m, h). elim m [ ])
  filter-Mem p (x ∷ xs) i = elim (Bool-cases (p x)) [
    | inl t ↦ rw t (
      λ m. elim m [
        | Memᴰ.head e ↦ (Memᴰ.head e, ap p e ∙ t)
        | Memᴰ.tail later ↦ let (there, h) = (filter-Mem p xs i).0 later in (Memᴰ.tail there, h)
      ],
      λ (m, h). elim m [
        | Memᴰ.head e ↦ Memᴰ.head e
        | Memᴰ.tail later ↦ Memᴰ.tail ((filter-Mem p xs i).1 (later, h))
      ],
    )
    | inr f ↦ rw f (
      λ m. let (there, h) = (filter-Mem p xs i).0 m in (Memᴰ.tail there, h),
      λ (m, h). elim m [
        | Memᴰ.head e ↦ let g = ap p e in absurd (ground arith)
        | Memᴰ.tail later ↦ (filter-Mem p xs i).1 (later, h)
      ],
    )
  ]

  module _ ⦃e : Equality A⦄ where
    pub elem-Mem : (a : A) (xs : List A) → elem a xs ≡ false → ¬ (Memᴰ a xs)
    elem-Mem a [] h m = elim m [ ]
    elem-Mem a (x ∷ xs) h (Memᴰ.head same) = ground (arith, e.decides x a, same)
    elem-Mem a (x ∷ xs) h (Memᴰ.tail m) = elem-Mem a xs (ground arith) m

    pub elem-true : (a : A) (xs : List A) → elem a xs ≡ true → Memᴰ a xs
    elem-true a [] h = cc
    elem-true a (x ∷ xs) h = elim (Bool-cases (x == a)) [
      | inl t ↦ Memᴰ.head (sym ((e.decides x a).0 t))
      | inr f ↦ Memᴰ.tail (elem-true a xs (ground (arith, f)))
    ]
