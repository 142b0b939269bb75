-- ===== src/Prelude/Eq.antt =====
-- Decidable equality as Python's `==` uses it: numbers, texts, and pairs of such.
use Prim.Native.Nat.{ℕ}
use Prim.Native.String.{String}
use mathlib.Core.Path.{◌≡◌, refl, sym, ap, ◌∙◌}
use mathlib.Core.Logic.{◌↔◌}
use mathlib.Core.Bool.{Bool, true, false, ◌||◌, ◌&&◌}
use mathlib.Core.Option.{Option, none, some}
use mathlib.Core.List.{List, [], ◌∷◌}
use native.Mathlib.Omega.{arith}
use text.Mathlib.Text.{◌==◌ as str_eq}
use text.Mathlib.TextEquality.{eq_iff}
use vuoro.Prelude.Tests.{nat_eq, nat_eq_iff}

-- `equals` decides whether two values of the type are the same.
pub record Equality {ℓ} (K : Type ℓ) : Type ℓ where
  pub equals : K → K → Bool
  pub decides : (x y : K) → (equals x y ≡ true) ↔ (x ≡ y)

instance abbrev pub string_keys : Equality String
string_keys = record { equals = str_eq; decides = eq_iff }

instance abbrev pub nat_keys : Equality ℕ
nat_keys = record { equals = nat_eq; decides = nat_eq_iff }

infix 50 ◌==◌
abbrev pub ◌==◌ {ℓ} : {K : Type ℓ} ⦃keys : Equality K⦄ → K → K → Bool
◌==◌ ⦃keys⦄ x y = keys.equals x y

module _ {ℓ} {A : Type ℓ} ⦃e : Equality A⦄ where
  pub beq_refl : (a : A) → (a == a) ≡ true
  beq_refl a = (e.decides a a).1 refl

  pub beq-sym : (a b : A) → (a == b) ≡ (b == a)
  beq-sym a b = ground (arith, e.decides a b, e.decides b a)

  abbrev pub option_eq : Option A → Option A → Bool
  option_eq none none = true
  option_eq none (some b) = false
  option_eq (some a) none = false
  option_eq (some a) (some b) = a == b

  pub option_eq_iff : (a b : Option A) → (option_eq a b ≡ true) ↔ (a ≡ b)
  option_eq_iff none none = ground arith
  option_eq_iff none (some b) = ground arith
  option_eq_iff (some a) none = ground arith
  option_eq_iff (some a) (some b) = ground (arith, e.decides a b)

  -- Python's `x in xs`
  abbrev pub elem : A → List A → Bool
  elem a [] = false
  elem a (x ∷ xs) = (x == a) || elem a xs

instance abbrev pub option_keys {ℓ} : {A : Type ℓ} ⦃e : Equality A⦄ → Equality (Option A)
option_keys = record { equals = option_eq; decides = option_eq_iff }

module _ {ℓ κ} {A : Type ℓ} {B : Type κ} ⦃e : Equality B⦄ (f : A → B) (g : B → A) where
  pub encoded_iff : ((a : A) → g (f a) ≡ a) → (x y : A) → ((f x == f y) ≡ true) ↔ (x ≡ y)
  encoded_iff back x y = (
    λ h. sym (back x) ∙ ap g ((e.decides (f x) (f y)).0 h) ∙ back y,
    λ p. (e.decides (f x) (f y)).1 (ap f p),
  )

  -- equality of a type through a type that holds it
  abbrev pub encoded : ((a : A) → g (f a) ≡ a) → Equality A
  encoded back = record { equals = λ x y. f x == f y; decides = encoded_iff back }

module _ {ℓ κ} {A : Type ℓ} {B : Type κ} ⦃d : Equality A⦄ ⦃e : Equality B⦄ where
  abbrev pub pair_eq : A × B → A × B → Bool
  pair_eq (a, b) (x, y) = (a == x) && (b == y)

  pub pair_eq_iff : (p q : A × B) → (pair_eq p q ≡ true) ↔ (p ≡ q)
  pair_eq_iff (a, b) (x, y) = ground (arith, d.decides a x, e.decides b y)

instance abbrev pub pair_keys {ℓ κ} :
    {A : Type ℓ} {B : Type κ} ⦃d : Equality A⦄ ⦃e : Equality B⦄ → Equality (A × B)
pair_keys = record { equals = pair_eq; decides = pair_eq_iff }
