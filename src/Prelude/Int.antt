-- ===== src/Prelude/Int.antt =====
-- Integers over the native numbers, for `ptrdiff_t` and the signed element types. `negsuc n` is
-- -(n + 1). It models no code of the repository.
use Prim.Native.Nat.{ℕ}

pub data ℤ : Type 0 where
  pos : ℕ → ℤ
  negsuc : ℕ → ℤ
