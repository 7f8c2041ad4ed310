-- ===== src/Prelude/Signed.antt =====
-- Go's signed integers, as far as the broker counts with them. They are not bounded here: the counters stay
-- far inside 32 bits.
use Prim.Native.Nat.{ℕ, zero, suc, ◌+◌, ◌-◌, ◌%◌}
use mathlib.Core.Path.{◌≡◌}
use native.Mathlib.Omega.{arith}

-- `negsuc n` is -(n + 1).
pub data ℤ : Type 0 where
  pos : ℕ → ℤ
  negsuc : ℕ → ℤ

abbrev pub increment : ℤ → ℤ
increment (pos n) = pos (suc n)
increment (negsuc zero) = pos 0
increment (negsuc (suc n)) = negsuc n

abbrev pub decrement : ℤ → ℤ
decrement (pos zero) = negsuc 0
decrement (pos (suc n)) = pos n
decrement (negsuc n) = negsuc (suc n)

-- The conversion `uint16(n)`.
abbrev pub to_uint16 : ℤ → ℕ
to_uint16 (pos n) = n % 65536
to_uint16 (negsuc n) = 65535 - n % 65536

-- The integer is `a - b`.
abbrev pub IsDiff : ℤ → ℕ → ℕ → Type 0
IsDiff (pos n) a b = a ≡ b + n
IsDiff (negsuc n) a b = a + suc n ≡ b

pub increment-IsDiff : (i : ℤ) (a b : ℕ) → IsDiff i a b → IsDiff (increment i) (suc a) b
increment-IsDiff (pos n) a b h = omega arith
increment-IsDiff (negsuc zero) a b h = omega arith
increment-IsDiff (negsuc (suc n)) a b h = omega arith

pub decrement-IsDiff : (i : ℤ) (a b : ℕ) → IsDiff i (suc a) b → IsDiff (decrement i) a b
decrement-IsDiff (pos zero) a b h = omega arith
decrement-IsDiff (pos (suc n)) a b h = omega arith
decrement-IsDiff (negsuc n) a b h = omega arith
