-- ===== src/Wasi/Splice.antt =====
-- A write to a file as one splice of its bytes (apps/web/src/wasi-module.js).
pub mod Writes
use wasm_host.Prelude.{
  ℕ, zero, suc, ◌+◌, ◌-◌, ◌≤◌, ◌≡◌, refl, sym, ap, subst, ◌∙◌, Bool, true, false, Option, none,
  some, List, [], ◌∷◌, ◌++◌, length, take, drop, ltb, if◌then◌else◌, Bool-cases, inl, inr,
  length-append, arith,
}
use wasm_host.Wasi.Descriptors.{Bytes}
use wasm_host.Wasi.Memory.{overlay}
use wasm_host.Wasi.Writes.{zeros, concat, grown}
use wasm_host.Wasi.Chunks.{length-zeros}

-- The first bytes, and zeros where there are none.
unfoldable pub padded : ℕ → Bytes → Bytes
padded zero bytes = []
padded (suc n) [] = 0 ∷ padded n []
padded (suc n) (b ∷ bytes) = b ∷ padded n bytes

-- The bytes with others at an offset: what is before them, with zeros up to them, and what is after.
unfoldable pub splice : Bytes → Bytes → ℕ → Bytes
splice bytes source offset = padded offset bytes ++ source ++ drop (offset + length source) bytes

pub length-padded : (n : ℕ) (bytes : Bytes) → length (padded n bytes) ≡ n
unfolding padded
length-padded zero bytes = refl
length-padded (suc n) [] = ap suc (length-padded n [])
length-padded (suc n) (b ∷ bytes) = ap suc (length-padded n bytes)

take-zeros : (n m : ℕ) → n ≤ m → take n (zeros m) ≡ padded n []
unfolding zeros padded
take-zeros zero m h = refl
take-zeros (suc n) zero h = absurd (omega (arith, h))
take-zeros (suc n) (suc m) h = ap (λ t. 0 ∷ t) (take-zeros n m (omega (arith, h)))

take_of_zeros :
    (n m : ℕ) (bytes : Bytes) → n ≤ length bytes + m → take n (bytes ++ zeros m) ≡ padded n bytes
unfolding padded
take_of_zeros zero m bytes h = refl
take_of_zeros (suc n) m [] h = take-zeros (suc n) m (omega (arith, h))
take_of_zeros (suc n) m (b ∷ bytes) h = ap (λ t. b ∷ t) (take_of_zeros n m bytes (omega (arith, h)))

drop_all : (n : ℕ) (bytes : Bytes) → length bytes ≤ n → drop n bytes ≡ []
drop_all zero [] h = refl
drop_all zero (b ∷ bytes) h = absurd (omega (arith, h))
drop_all (suc n) [] h = refl
drop_all (suc n) (b ∷ bytes) h = drop_all n bytes (omega (arith, h))

drop_of_append : (n : ℕ) (xs ys : Bytes) → drop (length xs + n) (xs ++ ys) ≡ drop n ys
drop_of_append n [] ys = let e : 0 + n ≡ n = omega arith in ap (λ k. drop k ys) e
drop_of_append n (x ∷ xs) ys =
    let e : length (x ∷ xs) + n ≡ suc (length xs + n) = omega arith in
    ap (λ k. drop k (x ∷ (xs ++ ys))) e ∙ drop_of_append n xs ys

drop-drop : (n m : ℕ) (xs : Bytes) → drop n (drop m xs) ≡ drop (m + n) xs
drop-drop n zero xs = let e : n ≡ 0 + n = omega arith in ap (λ k. drop k xs) e
drop-drop n (suc m) [] = drop_all n [] (omega arith) ∙ sym (drop_all (suc m + n) [] (omega arith))
drop-drop n (suc m) (x ∷ xs) =
    let e : suc (m + n) ≡ suc m + n = omega arith in drop-drop n m xs ∙ ap (λ k. drop k (x ∷ xs)) e

padded_of_append : (xs ys : Bytes) → padded (length xs) (xs ++ ys) ≡ xs
unfolding padded
padded_of_append [] ys = refl
padded_of_append (x ∷ xs) ys = ap (λ t. x ∷ t) (padded_of_append xs ys)

pub append-nil : (xs : Bytes) → xs ++ [] ≡ xs
append-nil [] = refl
append-nil (x ∷ xs) = ap (λ t. x ∷ t) (append-nil xs)

append_assoc : (xs ys zs : Bytes) → (xs ++ ys) ++ zs ≡ xs ++ (ys ++ zs)
append_assoc [] ys zs = refl
append_assoc (x ∷ xs) ys zs = ap (λ t. x ∷ t) (append_assoc xs ys zs)

grown_lem : (bytes : Bytes) (n : ℕ) → grown bytes n ≡ bytes ++ zeros (n - length bytes)
unfolding grown zeros
grown_lem bytes n = elim (Bool-cases (ltb (length bytes) n)) [
  | inl e ↦ rw e refl
  | inr e ↦
      let nothing : n - length bytes ≡ 0 = ground arith in rw (e, nothing) (sym (append-nil bytes))
]

drop_of_zeros : (n : ℕ) (bytes : Bytes) → drop n (bytes ++ zeros (n - length bytes)) ≡ drop n bytes
unfolding grown
drop_of_zeros n bytes = elim (Bool-cases (ltb (length bytes) n)) [
  | inl e ↦
      let long : length (bytes ++ zeros (n - length bytes)) ≤ n =
        ground (
          arith,
          length-append bytes (zeros (n - length bytes)),
          length-zeros (n - length bytes),
        ) in
      drop_all n _ long ∙ sym (drop_all n bytes (ground arith))
  | inr e ↦ ap (drop n) (sym (grown_lem bytes n) ∙ grown_short bytes n e)
]
  where
    grown_short : (bytes : Bytes) (n : ℕ) → ltb (length bytes) n ≡ false → grown bytes n ≡ bytes
    grown_short bytes n e = rw e refl

-- What one turn of the loop of writeOpenFileAt makes of a file.
pub overlay-grown :
    (bytes source : Bytes) (offset : ℕ)
    → overlay (grown bytes (offset + length source)) source offset ≡ splice bytes source offset
unfolding overlay splice
overlay-grown bytes source offset = rw (grown_lem bytes (offset + length source)) (
    rw (take_of_zeros offset (offset + length source - length bytes) bytes (omega arith))
      (rw (drop_of_zeros (offset + length source) bytes) refl))

padded_of_front : (n : ℕ) (xs ys : Bytes) → length xs ≡ n → padded n (xs ++ ys) ≡ xs
padded_of_front n xs ys e = subst (λ k. padded k (xs ++ ys) ≡ xs) e (padded_of_append xs ys)

drop_of_front : (n k : ℕ) (xs ys : Bytes) → length xs ≡ n → drop (n + k) (xs ++ ys) ≡ drop k ys
drop_of_front n k xs ys e =
    subst (λ m. drop (m + k) (xs ++ ys) ≡ drop k ys) e (drop_of_append k xs ys)

-- Two splices in a row, the second where the first ends.
pub splice-splice :
    (bytes xs ys : Bytes) (offset : ℕ)
    → splice (splice bytes xs offset) ys (offset + length xs) ≡ splice bytes (xs ++ ys) offset
unfolding splice
splice-splice bytes xs ys offset =
    let pre = padded offset bytes in
    let front = pre ++ xs in
    let rest = drop (offset + length xs) bytes in
    let size : length front ≡ offset + length xs =
      omega (arith, length-append pre xs, length-padded offset bytes) in
    let first = padded_of_front (offset + length xs) front rest size in
    let total : offset + length xs + length ys ≡ offset + length (xs ++ ys) =
      omega (arith, length-append xs ys) in
    let second =
      drop_of_front (offset + length xs) (length ys) front rest size
      ∙ drop-drop (length ys) (offset + length xs) bytes
      ∙ ap (λ n. drop n bytes) total in
    ap (λ p. (p ++ ys) ++ drop (offset + length xs + length ys) (front ++ rest)) first
    ∙ ap (λ d. (front ++ ys) ++ d) second
    ∙ ap (λ p. p ++ drop (offset + length (xs ++ ys)) bytes) (append_assoc pre xs ys)

-- Reading back what a splice wrote.
pub splice_read :
    (bytes source : Bytes) (offset : ℕ)
    → take (length source) (drop offset (splice bytes source offset)) ≡ source
unfolding splice
splice_read bytes source offset =
    let pre = padded offset bytes in
    let rest = drop (offset + length source) bytes in
    let whole : (pre ++ source) ++ rest ≡ pre ++ (source ++ rest) = append_assoc pre source rest in
    let zero_more : offset ≡ offset + 0 = omega arith in
    ap (λ t. take (length source) (drop offset t)) whole
    ∙ ap (λ n. take (length source) (drop n (pre ++ (source ++ rest)))) zero_more
    ∙ ap (take (length source))
        (drop_of_front offset 0 pre (source ++ rest) (length-padded offset bytes))
    ∙ take_front source rest
  where
    take_front : (xs ys : Bytes) → take (length xs) (xs ++ ys) ≡ xs
    take_front [] ys = refl
    take_front (x ∷ xs) ys = ap (λ t. x ∷ t) (take_front xs ys)
