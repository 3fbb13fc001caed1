-- ===== src/Wasi/Imports/Numbers.antt =====
-- Numbers of variable length in a module (apps/web/src/wasi-module.js).
use wasm_host.Prelude.{
  ℕ, zero, suc, ◌+◌, ◌*◌, ◌/◌, ◌%◌, ◌^◌, ◌≤◌, ◌<◌, ◌≡◌, refl, sym, subst, ap, ◌∙◌, true, false,
  drop, ◌==◌, Bool-cases, inl, inr, [], ◌∷◌, ◌++◌, length, ltb, arith, if◌then◌else◌,
}
use native.Mathlib.Nat.{pow-suc, pow-succ'}
use wasm_host.Prelude.Exec.{ok}
use wasm_host.Webc.Reader.{Bytes, byte_at, first_byte, drop-drop}
use wasm_host.Wasi.Imports.{read_groups, read_wasm_var_uint32}

-- The bytes of a number: seven bits each, the lowest first, and 128 on all but the last
abbrev pub var_uint32 : ℕ → ℕ → Bytes
var_uint32 zero n = []
var_uint32 (suc turns) n =
    let rest = var_uint32 turns (n / 128) in if ltb n 128 then n ∷ [] else (128 + n % 128) ∷ rest

weigh : (q r w : ℕ) → (128 * q + r) * w ≡ r * w + q * (w * 128)
weigh q r w = grind arith

divided : (n : ℕ) → n ≡ 128 * (n / 128) + n % 128
divided n = omega arith

split_number : (n w : ℕ) → n * w ≡ (n % 128) * w + (n / 128) * (w * 128)
split_number n w = ap (λ m. m * w) (divided n) ∙ weigh (n / 128) (n % 128) w

shift_sucs : (k : ℕ) → k + 7 ≡ suc (suc (suc (suc (suc (suc (suc k))))))
shift_sucs k = omega arith

shift_next : (shift : ℕ) → 2 ^ (shift + 7) ≡ 2 ^ shift * 128
shift_next shift = ap (λ k. 2 ^ k) (shift_sucs shift) ∙ grind (arith, pow-succ')

drop_next :
    (cursor b : ℕ) (bytes rest : Bytes)
    → drop cursor bytes ≡ b ∷ rest
    → drop (cursor + 1) bytes ≡ rest
drop_next cursor b bytes rest h =
    sym (drop-drop 1 cursor (cursor + 1) bytes (omega arith)) ∙ ap (drop 1) h

last_fits : (n w : ℕ) → n < 128 → (n * w) < 2 ^ 32 → ((n % 128) * w) % 2 ^ 32 ≡ n * w
last_fits n w small fits =
    let low : n % 128 ≡ n = omega (arith, small) in rw (low) (omega (arith, fits))

group_fits : (n w : ℕ) → (n * w) < 2 ^ 32 → ((n % 128) * w) % 2 ^ 32 ≡ (n % 128) * w
group_fits n w fits =
    let s : n * w ≡ (n % 128) * w + (n / 128) * (w * 128) = split_number n w in
    omega (arith, s, fits)

fewer_groups : (turns n : ℕ) → n < 128 ^ suc (suc turns) → (n / 128) < 128 ^ suc turns
fewer_groups turns n h =
    let power : 128 ^ suc (suc turns) ≡ 128 ^ suc turns * 128 = pow-suc 128 (suc turns) in
    omega (arith, h, power)

module _ (bytes : Bytes) where
  read_last :
      (turns shift result cursor end b : ℕ)
      → byte_at bytes cursor ≡ b
      → b < 128
      → cursor < end
      → read_groups bytes (suc turns) shift result cursor end
        ≡ ok (result + ((b % 128) * 2 ^ shift) % 2 ^ 32, cursor + 1)
  unfolding read_groups
  read_last turns shift result cursor end b h small inside =
      let below : ltb cursor end ≡ true = ground arith in
      let last : ((b / 128) % 2 == 0) ≡ true = ground arith in rw (h, below, last) refl

  read_more :
      (turns shift result cursor end b : ℕ)
      → byte_at bytes cursor ≡ 128 + b
      → b < 128
      → cursor < end
      → read_groups bytes (suc turns) shift result cursor end
        ≡ read_groups bytes turns (shift + 7) (result + (b * 2 ^ shift) % 2 ^ 32) (cursor + 1) end
  unfolding read_groups
  read_more turns shift result cursor end b h small inside =
      let below : ltb cursor end ≡ true = ground arith in
      let more : (((128 + b) / 128) % 2 == 0) ≡ false = ground arith in
      let low : (128 + b) % 128 ≡ b = omega arith in rw (h, below, more, low) refl

  groups-last :
      (turns n shift result cursor end : ℕ) (rest : Bytes)
      → ltb n 128 ≡ true
      → (n * 2 ^ shift) < 2 ^ 32
      → drop cursor bytes ≡ var_uint32 (suc turns) n ++ rest
      → (cursor + length (var_uint32 (suc turns) n)) ≤ end
      → read_groups bytes (suc turns) shift result cursor end
        ≡ ok (result + n * 2 ^ shift, cursor + length (var_uint32 (suc turns) n))
  groups-last turns n shift result cursor end rest e fits h inside =
      let bits : var_uint32 (suc turns) n ≡ n ∷ [] = rw (e) refl in
      let small : n < 128 = ground (arith, e) in
      let room : (cursor + 1) ≤ end = subst (λ v. (cursor + length v) ≤ end) bits inside in
      let here : byte_at bytes cursor ≡ n = ap first_byte (h ∙ ap (λ v. v ++ rest) bits) in
      read_last turns shift result cursor end n here small (omega (arith, room))
      ∙ ap (λ m. ok (result + m, cursor + 1)) (last_fits n (2 ^ shift) small fits)
      ∙ ap (λ v. ok (result + n * 2 ^ shift, cursor + length v)) (sym bits)

  groups-var_uint32 :
      (turns n shift result cursor end : ℕ) (rest : Bytes)
      → n < 128 ^ suc turns
      → (n * 2 ^ shift) < 2 ^ 32
      → drop cursor bytes ≡ var_uint32 (suc turns) n ++ rest
      → (cursor + length (var_uint32 (suc turns) n)) ≤ end
      → read_groups bytes (suc turns) shift result cursor end
        ≡ ok (result + n * 2 ^ shift, cursor + length (var_uint32 (suc turns) n))
  groups-var_uint32 zero n shift result cursor end rest small fits h inside =
      groups-last 0 n shift result cursor end rest (ground (arith, small)) fits h inside
  groups-var_uint32 (suc turns) n shift result cursor end rest small fits h inside =
      elim (Bool-cases (ltb n 128)) [
        | inl e ↦ groups-last (suc turns) n shift result cursor end rest e fits h inside
        | inr e ↦
            let others : Bytes = var_uint32 (suc turns) (n / 128) in
            let bits : var_uint32 (suc (suc turns)) n ≡ (128 + n % 128) ∷ others = rw (e) refl in
            let room : (cursor + suc (length others)) ≤ end =
              subst (λ v. (cursor + length v) ≤ end) bits inside in
            let at_cursor : drop cursor bytes ≡ (128 + n % 128) ∷ (others ++ rest) =
              h ∙ ap (λ v. v ++ rest) bits in
            let parts : n * 2 ^ shift ≡ (n % 128) * 2 ^ shift + (n / 128) * 2 ^ (shift + 7) =
              split_number n (2 ^ shift)
              ∙ ap (λ w. (n % 128) * 2 ^ shift + (n / 128) * w) (sym (shift_next shift)) in
            read_more (suc turns) shift result cursor end (n % 128) (ap first_byte at_cursor)
              (omega arith) (omega (arith, room))
            ∙ groups-var_uint32 turns (n / 128) (shift + 7) _ (cursor + 1) end rest
                (fewer_groups turns n small) (omega (arith, parts, fits))
                (drop_next cursor _ bytes _ at_cursor) (omega (arith, room))
            ∙ ap (λ m. ok (result + m + (n / 128) * 2 ^ (shift + 7), cursor + 1 + length others))
                (group_fits n (2 ^ shift) fits)
            ∙ ap (λ m. ok (m, cursor + 1 + length others)) (omega (arith, parts))
            ∙ ap (λ m. ok (result + n * 2 ^ shift, m)) (omega arith)
            ∙ ap (λ v. ok (result + n * 2 ^ shift, cursor + length v)) (sym bits)
      ]

-- A number below 2 ^ 32 is read back from its bytes, wherever they stand before the end.
pub read_wasm_var_uint32_back :
    (bytes : Bytes) (n offset end : ℕ) (rest : Bytes)
    → n < 2 ^ 32
    → drop offset bytes ≡ var_uint32 5 n ++ rest
    → (offset + length (var_uint32 5 n)) ≤ end
    → read_wasm_var_uint32 bytes offset end ≡ ok (n, offset + length (var_uint32 5 n))
unfolding read_wasm_var_uint32
read_wasm_var_uint32_back bytes n offset end rest small h inside =
    groups-var_uint32 bytes 4 n 0 0 offset end rest (omega arith) (omega arith) h inside
    ∙ ap (λ m. ok (m, offset + length (var_uint32 5 n))) (omega arith)
