-- ===== src/Prelude/Texts/Trim.antt =====
-- `trim` applied twice is `trim`.
use mathlib.Core.Path.{◌≡◌, refl, sym, ap, ◌∙◌}
use mathlib.Core.Logic.{inl, inr}
use mathlib.Core.List.{[], ◌∷◌, ◌++◌, reverse, reverse-append, reverse-reverse}
use native.Mathlib.Omega.{arith}
use wasm_host.Prelude.Tests.{Bool-cases}
use Prim.Native.Nat.{◌≤◌}
use wasm_host.Prelude.Lists.{length}
use wasm_host.Prelude.Texts.{Text, is_white, trim_start, trim}

-- What `trimStart` drops.
dropped : (s : Text) → (p : Text) × (s ≡ p ++ trim_start s)
unfolding trim_start
dropped [] = ([], refl)
dropped (c ∷ s) = elim (Bool-cases (is_white c)) [
  | inl h ↦ let (p, e) = dropped s in (c ∷ p, rw h (ap (◌∷◌ c) e))
  | inr h ↦ ([], rw h)
]

trim_start_idem : (s : Text) → trim_start (trim_start s) ≡ trim_start s
unfolding trim_start
trim_start_idem [] = refl
trim_start_idem (c ∷ s) = elim (Bool-cases (is_white c)) [
  | inl h ↦ rw h (trim_start_idem s)
  | inr h ↦ rw h (rw h)
]

length-trim_start-le : (s : Text) → length (trim_start s) ≤ length s
unfolding trim_start
length-trim_start-le [] = omega arith
length-trim_start-le (c ∷ s) = ground (arith, length-trim_start-le s)

-- A prefix of a text that `trimStart` leaves alone is left alone.
trim_start-prefix : (w p : Text) → trim_start (w ++ p) ≡ w ++ p → trim_start w ≡ w
unfolding trim_start
trim_start-prefix [] p h = refl
trim_start-prefix (c ∷ w) p h = elim (Bool-cases (is_white c)) [
  | inl e ↦ absurd (omega (arith, ap length (rw e at h), length-trim_start-le (w ++ p)))
  | inr e ↦ rw e
]

pub trim-trim : (s : Text) → trim (trim s) ≡ trim s
unfolding trim
trim-trim s =
    let u = trim_start s in
    let v = trim_start (reverse u) in
    let (p, e) = dropped (reverse u) in
    let whole : u ≡ reverse v ++ reverse p =
      sym (reverse-reverse u) ∙ ap reverse e ∙ reverse-append p v in
    let kept : trim_start (reverse v) ≡ reverse v =
      trim_start-prefix (reverse v) (reverse p)
        (ap trim_start (sym whole) ∙ trim_start_idem s ∙ whole) in
    ap (λ x. reverse (trim_start (reverse x))) kept
    ∙ ap (λ x. reverse (trim_start x)) (reverse-reverse v)
    ∙ ap reverse (trim_start_idem (reverse u))
