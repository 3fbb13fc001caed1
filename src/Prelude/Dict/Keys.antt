-- ===== src/Prelude/Dict/Keys.antt =====
-- The keys of a map, and tests over them.
use wasm_host.Prelude.Tests.{Bool-cases}
use wasm_host.Prelude.Lists.{any}
use wasm_host.Prelude.Texts.{Text, text_eq, text_eq_iff, text_eq_refl}
use wasm_host.Prelude.Dict.{Dict, get, has, keys}
use mathlib.Core.Path.{◌≡◌, refl}
use mathlib.Core.Logic.{inl, inr}
use mathlib.Core.Bool.{Bool, true}
use mathlib.Core.List.{List, [], ◌∷◌}
use native.Mathlib.Omega.{arith}

abbrev pub member : Text → List Text → Bool
member k = any (λ j. text_eq j k)

pub has-member {ℓ} : {V : Type ℓ} (k : Text) (d : Dict V) → has k d ≡ member k (keys d)
unfolding get
has-member k [] = refl
has-member k ((j, v) ∷ d) = ground (arith, has-member k d)

-- A test that some key passes is passed by a member, and the other way round.
pub any-member :
    (p : Text → Bool) (ks : List Text)
    → any p ks ≡ true
    → (k : Text) × (member k ks ≡ true) × (p k ≡ true)
any-member p [] h = cc
any-member p (k ∷ ks) h = elim (Bool-cases (p k)) [
  | inl e ↦ (k, ground (arith, text_eq_refl k), e)
  | inr e ↦ let (j, m, q) = any-member p ks (ground arith) in (j, ground arith, q)
]

pub member-any :
    (p : Text → Bool) (ks : List Text) (k : Text)
    → member k ks ≡ true
    → p k ≡ true
    → any p ks ≡ true
member-any p [] k m q = cc
member-any p (j ∷ ks) k m q = ground (arith, text_eq_iff j k, member-any p ks k)
