-- ===== src/Prelude/Dict.antt =====
-- `Map` with text keys, as an association list in insertion order.
pub mod Keys
use Prim.Native.Nat.{ℕ}
use mathlib.Core.Path.{◌≡◌, refl, ap}
use mathlib.Core.Bool.{Bool, true, false, ◌&&◌, ◌||◌}
use mathlib.Core.List.{List, [], ◌∷◌, ◌++◌, map}
use mathlib.Core.Option.{Option, none, some}
use native.Mathlib.Omega.{arith}
use wasm_host.Prelude.Tests.{if◌then◌else◌, is_some}
use wasm_host.Prelude.Texts.{Text, text_eq, text_eq_iff, text_eq_refl}

abbrev pub Dict {ℓ} : Type ℓ → Type ℓ
Dict V = List (Text × V)

module _ {ℓ} {V : Type ℓ} where
  unfoldable pub get : Text → Dict V → Option V
  get k [] = none
  get k ((j, v) ∷ d) = if text_eq j k then some v else get k d

  abbrev pub has : Text → Dict V → Bool
  has k d = is_some (get k d)

  -- A known key keeps its place; a new one goes to the end.
  unfoldable pub set : Text → V → Dict V → Dict V
  set k v [] = (k, v) ∷ []
  set k v ((j, w) ∷ d) = if text_eq j k then (j, v) ∷ d else (j, w) ∷ set k v d

  unfoldable pub delete : Text → Dict V → Dict V
  delete k [] = []
  delete k ((j, v) ∷ d) = let rest = delete k d in if text_eq j k then rest else (j, v) ∷ rest

  abbrev pub keys : Dict V → List Text
  keys = map (λ e. e.0)

  abbrev pub values : Dict V → List V
  values = map (λ e. e.1)

  -- What each of these does to a read.
  pub get-set :
      (k j : Text) (v : V) (d : Dict V)
      → get j (set k v d) ≡ (if text_eq k j then some v else get j d)
  unfolding get set
  get-set k j v [] = refl
  get-set k j v ((i, w) ∷ d) =
      ground (arith, get-set k j v d, text_eq_iff i k, text_eq_iff i j, text_eq_iff k j)

  pub get-delete :
      (k j : Text) (d : Dict V) → get j (delete k d) ≡ (if text_eq k j then none else get j d)
  unfolding get delete
  get-delete k j [] = ground arith
  get-delete k j ((i, w) ∷ d) =
      ground (arith, get-delete k j d, text_eq_iff i k, text_eq_iff i j, text_eq_iff k j)

  pub has-set : (k j : Text) (v : V) (d : Dict V) → has j (set k v d) ≡ (text_eq k j || has j d)
  has-set k j v d = ground (arith, get-set k j v d)

  pub has-delete :
      (k j : Text) (d : Dict V) → has j (delete k d) ≡ (if text_eq k j then false else has j d)
  has-delete k j d = ground (arith, get-delete k j d)

  pub get-set_self : (k : Text) (v : V) (d : Dict V) → get k (set k v d) ≡ some v
  get-set_self k v d = ground (arith, get-set k k v d, text_eq_refl k)
