-- ===== src/Prelude/Bits.antt =====
-- Masks on one byte as arithmetic, each checked by evaluation over all bytes.
use Prim.Native.Nat.{ℕ, zero, suc, ◌*◌, ◌/◌, ◌%◌, ◌<◌, bit_and}
use mathlib.Core.Path.{◌≡◌, refl, subst}
use mathlib.Core.Logic.{inl, inr}
use mathlib.Core.Bool.{Bool, true, ◌&&◌}
use mathlib.Core.List.{List, [], ◌∷◌}
use native.Mathlib.Omega.{arith}
use pgmqtt.Prelude.Tests.{◌==◌, ==_iff, Bool-cases}
use pgmqtt.Prelude.Lists.{all}

-- n - 1, …, 0
down_from : ℕ → List ℕ
down_from zero = []
down_from (suc n) = n ∷ down_from n

halves : (a b : Bool) → a && b ≡ true → (a ≡ true) × (b ≡ true)
halves a b h = ground arith

all-down_from : (P : ℕ → Bool) (n b : ℕ) → b < n → all P (down_from n) ≡ true → P b ≡ true
unfolding down_from
all-down_from P zero b lt h = absurd (omega (arith, lt))
all-down_from P (suc n) b lt h =
    let (top, rest) = halves (P n) (all P (down_from n)) h in
    elim (Bool-cases (n == b)) [
      | inl e ↦ subst (λ k. P k ≡ true) ((==_iff n b).0 e) top
      | inr e ↦ all-down_from P n b (ground (arith, e, lt)) rest
    ]

bytes_low : all (λ b. bit_and b 0x7f == b % 128) (down_from 256) ≡ true
unfolding down_from
bytes_low = refl

bytes_top : all (λ b. bit_and b 0x80 == b / 128 * 128) (down_from 256) ≡ true
unfolding down_from
bytes_top = refl

pub low_bits : (b : ℕ) → b < 256 → bit_and b 0x7f ≡ b % 128
low_bits b lt = (==_iff _ _).0 (all-down_from (λ x. bit_and x 0x7f == x % 128) 256 b lt bytes_low)

pub top_bit : (b : ℕ) → b < 256 → bit_and b 0x80 ≡ b / 128 * 128
top_bit b lt =
    (==_iff _ _).0 (all-down_from (λ x. bit_and x 0x80 == x / 128 * 128) 256 b lt bytes_top)
