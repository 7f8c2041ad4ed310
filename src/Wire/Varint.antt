-- ===== src/Wire/Varint.antt =====
-- `decodeVarint` of internal/mqtt/codec.go, the variable-byte integer before a property block. The
-- encoder is that of MQTT 1.5.5, which the decoder has to invert.
use native.Mathlib.Nat.{div-add-mod, pow-suc, mul-le-mul_right, mul-le-mul_left, one-le-pow}
use pgmqtt.Prelude.{
  ℕ, zero, suc, ◌+◌, ◌*◌, ◌/◌, ◌%◌, ◌^◌, ◌≤◌, ◌<◌, ◌≡◌, ap, subst, [], ◌∷◌, ◌++◌, arith, Bytes,
  length, bit_and, ◌==◌, ltb, if◌then◌else◌, low_bits, top_bit, All, inl, inr, Bool-cases,
}

pub data VarintError : Type 0 where
  truncated too_long : VarintError

-- The value and how many bytes it took, or the error.
pub data Decoded : Type 0 where
  ok : ℕ → ℕ → Decoded
  err : VarintError → Decoded

-- The loop from round `n` on, `rounds` of which are left; the list is `b[n:]`. A Go int has 64 bits
-- and the value stays below 128^4, so nothing wraps.
unfoldable pub varint_loop : ℕ → Bytes → ℕ → ℕ → ℕ → Decoded
varint_loop zero b v mult n = err too_long
varint_loop (suc rounds) [] v mult n = err truncated
varint_loop (suc rounds) (x ∷ b) v mult n =
    let v' = v + bit_and x 0x7F * mult in
    let more = varint_loop rounds b v' (mult * 128) (n + 1) in
    if bit_and x 0x80 == 0 then ok v' (n + 1) else more

unfoldable pub decode_varint : Bytes → Decoded
unfolding varint_loop
decode_varint b = varint_loop 4 b 0 1 0

-- The encoder of the standard: seven bits a byte, the lowest first, the top bit set on all but the
-- last. `rounds` bounds the bytes after the first.
unfoldable pub encode_varint : ℕ → ℕ → Bytes
encode_varint zero v = v ∷ []
encode_varint (suc rounds) v =
    let more = encode_varint rounds (v / 128) in
    if ltb v 128 then v ∷ [] else (v % 128 + 128) ∷ more

last_byte :
    (rounds x v mult n : ℕ) (rest : Bytes)
    → x < 128
    → varint_loop (suc rounds) (x ∷ rest) v mult n ≡ ok (v + x * mult) (n + 1)
unfolding varint_loop
last_byte rounds x v mult n rest h = ground (arith, low_bits x, top_bit x)

inner_byte :
    (rounds x v mult n : ℕ) (rest : Bytes)
    → x < 128
    → varint_loop (suc rounds) ((x + 128) ∷ rest) v mult n
      ≡ varint_loop rounds rest (v + x * mult) (mult * 128) (n + 1)
unfolding varint_loop
inner_byte rounds x v mult n rest h = ground (arith, low_bits (x + 128), top_bit (x + 128))

-- The lowest seven bits and the rest.
split_value : (w mult : ℕ) → w * mult ≡ w % 128 * mult + w / 128 * (mult * 128)
split_value w mult = omega (arith, ap (λ (t : ℕ). t * mult) (div-add-mod w 128))

loop-encode :
    (rounds w v mult n : ℕ) (rest : Bytes)
    → w < 128 ^ suc rounds
    → varint_loop (suc rounds) (encode_varint rounds w ++ rest) v mult n
      ≡ ok (v + w * mult) (n + length (encode_varint rounds w))
unfolding encode_varint
loop-encode zero w v mult n rest h = last_byte zero w v mult n rest h
loop-encode (suc rounds) w v mult n rest h = ground (
  arith,
  last_byte (suc rounds) w v mult n rest,
  inner_byte (suc rounds) (w % 128) v mult n (encode_varint rounds (w / 128) ++ rest),
  split_value w mult,
  loop-encode rounds (w / 128) (v + w % 128 * mult) (mult * 128) (n + 1) rest,
)

length-encode : (rounds w : ℕ) → length (encode_varint rounds w) ≤ suc rounds
unfolding encode_varint
length-encode zero w = omega arith
length-encode (suc rounds) w = ground (arith, length-encode rounds (w / 128))

-- A value below 128^4 that was written as a variable-byte integer is read back, with the number of
-- bytes it took, which is at most four, whatever follows it.
pub decode-encode_varint :
    (v : ℕ) (rest : Bytes)
    → v < 268435456
    → (decode_varint (encode_varint 3 v ++ rest) ≡ ok v (length (encode_varint 3 v)))
      × (length (encode_varint 3 v) ≤ 4)
unfolding decode_varint
decode-encode_varint v rest h = (ground (arith, loop-encode 3 v 0 1 0 rest), length-encode 3 v)

-- What a decoder may answer on `b` after `n` bytes: the length read lies in the text.
abbrev Within : ℕ → ℕ → ℕ → Decoded → Type 0
Within n len bound (err e) = Unit
Within n len bound (ok v m) = (n < m) × (m ≤ n + len) × (v < bound)

Within-step :
    (n len bound : ℕ) (r : Decoded) → Within (n + 1) len bound r → Within n (suc len) bound r
Within-step n len bound (err e) h = tt
Within-step n len bound (ok v m) h = omega arith

digit_bound : (x v mult : ℕ) → v < mult → v + x % 128 * mult < mult * 128
digit_bound x v mult h = omega (arith, mul-le-mul_right {m = x % 128} {n = 127} mult (omega arith))

pow_step : (mult r : ℕ) → mult * 128 * 128 ^ r ≡ mult * 128 ^ suc r
pow_step mult r = omega (arith, ap (λ (t : ℕ). mult * t) (pow-suc 128 r))

room_bound : (mult r v : ℕ) → v < mult * 128 → v < mult * 128 ^ suc r
room_bound mult r v h =
    omega (arith, pow_step mult r, mul-le-mul_left (mult * 128) (one-le-pow r 128 (omega arith)))

loop-Within :
    (rounds : ℕ) (b : Bytes) (v mult n bound : ℕ)
    → All (λ x. x < 256) b
    → v < mult
    → mult * 128 ^ rounds ≤ bound
    → Within n (length b) bound (varint_loop rounds b v mult n)
unfolding varint_loop
loop-Within zero b v mult n bound h k g = tt
loop-Within (suc rounds) [] v mult n bound h k g = tt
loop-Within (suc rounds) (x ∷ b) v mult n bound (h, hs) k g =
    let next : v + bit_and x 0x7F * mult < mult * 128 =
      rw (low_bits x h) (digit_bound x v mult k) in
    let room = room_bound mult rounds _ next in
    let more =
      loop-Within rounds b _ (mult * 128) (n + 1) bound hs next
        (omega (arith, pow_step mult rounds)) in
    elim (Bool-cases (bit_and x 0x80 == 0)) [
      | inl e ↦ rw e (omega arith, omega arith, omega arith)
      | inr e ↦ rw e (Within-step n (length b) bound _ more)
    ]

-- Whatever the bytes, a decoded value fits 28 bits, and the length reported is at least one, at most
-- the number of bytes there are, so the slice after it is in range.
pub decode_varint_bounds :
    (b : Bytes) (v m : ℕ)
    → All (λ x. x < 256) b
    → decode_varint b ≡ ok v m
    → (1 ≤ m) × (m ≤ length b) × (v < 268435456)
unfolding decode_varint
decode_varint_bounds b v m h e =
    let (a, c, d) =
      subst (Within 0 (length b) 268435456) e
        (loop-Within 4 b 0 1 0 268435456 h (omega arith) (omega arith)) in
    (a, omega arith, d)
