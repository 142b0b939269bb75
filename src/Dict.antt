-- ===== src/Dict.antt =====
-- Python's `dict`: an association list in insertion order. Assignment to a key that is there keeps
-- its place; `del` and `pop` take the key out.
use vuoro.Prelude.{
  Bool-cases, Option-cases, inl, inr, ◌≡◌, refl, Bool, true, false, Option, none, some, List, [],
  ◌∷◌, arith, if◌then◌else◌,
}
use vuoro.Prelude.Eq.{Equality, ◌==◌}

abbrev pub Dict {ℓ κ} : Type ℓ → Type κ → Type (ℓ ⊔ κ)
Dict K V = List (K × V)

module _ {ℓ κ} {K : Type ℓ} {V : Type κ} ⦃e : Equality K⦄ where
  -- d.get(k)
  unfoldable pub get : Dict K V → K → Option V
  get [] k = none
  get ((j, v) ∷ d) k = if j == k then some v else get d k

  -- d[k] = v
  unfoldable pub put : Dict K V → K → V → Dict K V
  put [] k v = (k, v) ∷ []
  put ((j, w) ∷ d) k v = if j == k then (j, v) ∷ d else (j, w) ∷ put d k v

  -- del d[k], d.pop(k, None)
  unfoldable pub remove : Dict K V → K → Dict K V
  remove [] k = []
  remove ((j, w) ∷ d) k = let rest = remove d k in if j == k then rest else (j, w) ∷ rest

  pub get-put :
      (d : Dict K V) (k : K) (v : V) (j : K)
      → get (put d k v) j ≡ (if k == j then some v else get d j)
  unfolding get put
  get-put [] k v j = refl
  get-put ((i, w) ∷ d) k v j =
      ground (arith, e.decides i k, e.decides i j, e.decides k j, get-put d k v j)

  pub get-remove :
      (d : Dict K V) (k j : K) → get (remove d k) j ≡ (if k == j then none else get d j)
  unfolding get remove
  get-remove [] k j = ground arith
  get-remove ((i, w) ∷ d) k j =
      ground (arith, e.decides i k, e.decides i j, e.decides k j, get-remove d k j)

  pub get-empty : (k : K) → get [] k ≡ none
  unfolding get
  get-empty k = refl

  -- no key is listed twice
  abbrev pub Distinct : Dict K V → Type κ
  Distinct [] = Unit
  Distinct ((k, v) ∷ d) = (get d k ≡ none) × Distinct d

  pub put-Distinct : (d : Dict K V) (k : K) (v : V) → Distinct d → Distinct (put d k v)
  unfolding put
  put-Distinct [] k v h = (get-empty k, tt)
  put-Distinct ((j, w) ∷ d) k v h =
      ground (arith, get-put d k v j, e.decides j k, e.decides k j, put-Distinct d k v h.1)

  pub remove-Distinct : (d : Dict K V) (k : K) → Distinct d → Distinct (remove d k)
  unfolding remove
  remove-Distinct [] k h = tt
  remove-Distinct ((j, w) ∷ d) k h = ground (arith, get-remove d k j, remove-Distinct d k h.1)

  -- next(v for v in d.values() if p(v))
  unfoldable pub find_value : (V → Bool) → Dict K V → Option V
  find_value p [] = none
  find_value p ((j, v) ∷ d) = if p v then some v else find_value p d

  -- A value that is found stands under a key and passes the test.
  pub find_value-some :
      (p : V → Bool) (d : Dict K V) (v : V)
      → Distinct d
      → find_value p d ≡ some v
      → (k : K) × (get d k ≡ some v) × (p v ≡ true)
  unfolding find_value get
  find_value-some p [] v h e = cc
  find_value-some p ((j, w) ∷ d) v h f = elim (Bool-cases (p w)) [
    | inl t ↦ (j, ground (arith, e.decides j j), ground arith)
    | inr t ↦
        let (k, g, q) = find_value-some p d v h.1 (ground arith) in
        (k, ground (arith, e.decides j k), q)
  ]

  -- Where nothing is found, every value fails the test.
  pub find_value-none :
      (p : V → Bool) (d : Dict K V) (k : K) (v : V)
      → find_value p d ≡ none
      → get d k ≡ some v
      → p v ≡ false
  unfolding find_value get
  find_value-none p [] k v f g = cc
  find_value-none p ((j, w) ∷ d) k v f g = ground (arith, find_value-none p d k v)

  pub find_value_all :
      (p : V → Bool) (d : Dict K V)
      → Distinct d
      → ((k : K) (v : V) → get d k ≡ some v → p v ≡ false)
      → find_value p d ≡ none
  find_value_all p d h all = elim (Option-cases (find_value p d)) [
    | inl n ↦ n
    | inr (v, f) ↦ let (k, g, q) = find_value-some p d v h f in cc (all k v g)
  ]

  -- d.values()
  abbrev pub values : Dict K V → List V
  values [] = []
  values ((k, v) ∷ d) = v ∷ values d
