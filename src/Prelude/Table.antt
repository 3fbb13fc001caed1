-- ===== src/Prelude/Table.antt =====
-- Maps with numbers as keys: association lists, with counts of their entries.
use mathlib.Core.Path.{◌≡◌, refl, ap, ◌∙◌, sym}
use mathlib.Core.Logic.{inl, inr}
use mathlib.Core.Bool.{Bool}
use mathlib.Core.Option.{Option, none, some}
use mathlib.Core.List.{List, [], ◌∷◌}
use Prim.Native.Nat.{ℕ, ◌+◌}
use native.Mathlib.Omega.{arith}
use wasm_host.Prelude.Tests.{◌==◌, if◌then◌else◌, Bool-cases}

abbrev pub Table {ℓ} : Type ℓ → Type ℓ
Table V = List (ℕ × V)

module _ {ℓ} {V : Type ℓ} where
  unfoldable pub get : ℕ → Table V → Option V
  get k [] = none
  get k ((j, v) ∷ t) = let rest = get k t in if j == k then some v else rest

  unfoldable pub set : ℕ → V → Table V → Table V
  set k v [] = (k, v) ∷ []
  set k v ((j, w) ∷ t) = if j == k then (j, v) ∷ t else (j, w) ∷ set k v t

  unfoldable pub delete : ℕ → Table V → Table V
  delete k [] = []
  delete k ((j, v) ∷ t) = let rest = delete k t in if j == k then rest else (j, v) ∷ rest

  pub get-set :
      (k j : ℕ) (v : V) (t : Table V) → get j (set k v t) ≡ (if k == j then some v else get j t)
  unfolding get set
  get-set k j v [] = refl
  get-set k j v ((i, w) ∷ t) = ground (arith, get-set k j v t)

  pub get-delete : (k j : ℕ) (t : Table V) → get j (delete k t) ≡ (if k == j then none else get j t)
  unfolding get delete
  get-delete k j [] = ground arith
  get-delete k j ((i, w) ∷ t) = ground (arith, get-delete k j t)

  -- No key stands twice.
  abbrev pub IsUnique : Table V → Type ℓ
  IsUnique [] = Unit
  IsUnique ((k, v) ∷ t) = (get k t ≡ none) × IsUnique t

  pub delete-IsUnique : (k : ℕ) (t : Table V) → IsUnique t → IsUnique (delete k t)
  unfolding delete
  delete-IsUnique k [] u = tt
  delete-IsUnique k ((j, v) ∷ t) u = ground (arith, delete-IsUnique k t, get-delete k j t)

  pub set-IsUnique : (k : ℕ) (v : V) (t : Table V) → IsUnique t → IsUnique (set k v t)
  unfolding set get
  set-IsUnique k v [] u = (refl, tt)
  set-IsUnique k v ((j, w) ∷ t) u = ground (arith, set-IsUnique k v t, get-set k j v t)

  -- How many entries satisfy a test.
  abbrev pub weight : (V → Bool) → Option V → ℕ
  weight p none = 0
  weight p (some v) = if p v then 1 else 0

  unfoldable pub count : (V → Bool) → Table V → ℕ
  count p [] = 0
  count p ((k, v) ∷ t) = weight p (some v) + count p t

  pub count-set :
      (p : V → Bool) (k : ℕ) (v : V) (t : Table V)
      → (count p (set k v t) + weight p (get k t)) ≡ (count p t + weight p (some v))
  unfolding count set get
  count-set p k v [] = ground arith
  count-set p k v ((j, w) ∷ t) = ground (arith, count-set p k v t)

  delete_absent :
      (p : V → Bool) (k : ℕ) (t : Table V) → get k t ≡ none → count p (delete k t) ≡ count p t
  unfolding count delete get
  delete_absent p k [] h = refl
  delete_absent p k ((j, w) ∷ t) h = ground (arith, delete_absent p k t)

  pub count-delete :
      (p : V → Bool) (k : ℕ) (t : Table V)
      → IsUnique t
      → (count p (delete k t) + weight p (get k t)) ≡ count p t
  unfolding count delete get
  count-delete p k [] u = omega arith
  count-delete p k ((j, w) ∷ t) u = elim (Bool-cases (j == k)) [
    | inl e ↦
        let same : j ≡ k = ground arith in
        let gone : get k t ≡ none = ap (λ i. get i t) (sym same) ∙ u.0 in
        ground (arith, delete_absent p k t gone)
    | inr e ↦ ground (arith, count-delete p k t u.1)
  ]
