-- ===== src/Prelude/Int.antt =====
-- Signed integers over the native numbers, by their sign.
use Prim.Native.Nat.{ℕ, suc, ◌+◌, ◌-◌}
use wasm_host.Prelude.Tests.{ltb, if◌then◌else◌}

-- `negsuc n` is -(n + 1).
pub data ℤ : Type 0 where
  pos : ℕ → ℤ
  negsuc : ℕ → ℤ

-- A number plus an integer.
abbrev pub add_to : ℕ → ℤ → ℤ
add_to a (pos b) = pos (a + b)
add_to a (negsuc b) = if ltb b a then pos (a - suc b) else negsuc (b - a)
