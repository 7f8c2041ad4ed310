-- ===== src/Wire/Properties/Safety.antt =====
-- The walk over the CONNECT properties neither reads out of range nor runs on.
use pgmqtt.Prelude.{
  ℕ, zero, suc, ◌+◌, ◌*◌, ◌≤◌, ◌<◌, ◌≡◌, refl, inl, inr, true, false, ltb→lt, some, [], ◌∷◌, arith,
  Bytes, length, drop, length-drop, ltb, ◌==◌, Bool-cases, All,
}
use pgmqtt.Wire.Varint.{Decoded, decode_varint_bounds}
use pgmqtt.Wire.Properties.{
  Turn, go_on, return, Outcome, failed, panic, out_of_fuel, overflow, byte_at, skip_string,
  then_skip, read_u32, property, turn, walk, block, from_level, connect_maximum_packet_size,
}

-- The answers that the Go function can return.
abbrev pub Returns : Outcome → Type 0
Returns panic = ⊥
Returns out_of_fuel = ⊥
Returns _ = Unit {0}

-- A turn goes on at a later offset, or returns.
abbrev Advances : ℕ → Turn → Type 0
Advances off (go_on off') = off < off'
Advances off (return r) = Returns r

byte_at_in_range : (body : Bytes) (i : ℕ) → i < length body → (b : ℕ) × (byte_at body i ≡ some b)
byte_at_in_range [] i h = absurd (omega arith)
byte_at_in_range (b ∷ body) zero h = (b, refl)
byte_at_in_range (b ∷ body) (suc i) h = byte_at_in_range body i (omega arith)

module _ (body : Bytes) (end : ℕ) (fits : end ≤ length body) where
  skip_string-Advances : (off : ℕ) → Advances off (skip_string body end off)
  unfolding skip_string
  skip_string-Advances off =
      ground (arith, byte_at_in_range body off, byte_at_in_range body (off + 1))

  read_u32-Advances : (off : ℕ) → Advances off (read_u32 body end off)
  unfolding read_u32
  read_u32-Advances off = ground (
    arith,
    byte_at_in_range body off,
    byte_at_in_range body (off + 1),
    byte_at_in_range body (off + 2),
    byte_at_in_range body (off + 2 + 1),
  )

  then_skip-Advances : (off : ℕ) (t : Turn) → Advances off t → Advances off (then_skip body end t)
  then_skip-Advances off (return r) h = h
  then_skip-Advances off (go_on off') h =
      later (skip_string body end off') (skip_string-Advances off')
    where
      later : (t : Turn) → Advances off' t → Advances off t
      later (go_on o) k = omega arith
      later (return r) k = k

  property-Advances : (id off : ℕ) → Advances off (property body end id off)
  unfolding property
  property-Advances id off = ground (
    arith,
    skip_string-Advances off,
    read_u32-Advances off,
    then_skip-Advances off (skip_string body end off),
  )

  turn-Advances : (off : ℕ) → off < end → Advances off (turn body end off (byte_at body off))
  turn-Advances off h =
      let (b, e) = byte_at_in_range body off (omega arith) in
      rw e (weaken (property body end b (off + 1)) (property-Advances b (off + 1)))
    where
      weaken : (t : Turn) → Advances (off + 1) t → Advances off t
      weaken (go_on o) k = omega arith
      weaken (return r) k = k

  walk-Returns : (fuel off : ℕ) → off ≤ end → end < fuel + off → Returns (walk fuel body end off)
  unfolding walk
  walk-Returns zero off k h = absurd (omega arith)
  walk-Returns (suc fuel) off k h = elim (Bool-cases (ltb off end)) [
    | inr e ↦ rw (e, walk, Returns) tt
    | inl e ↦
        rw (e, walk, Returns)
          (after (turn body end off (byte_at body off)) (turn-Advances off (ltb→lt _ _ e))
            (walk-Returns fuel))
  ]
    where
      after :
          (t : Turn)
          → Advances off t
          → ((o : ℕ) → o ≤ end → end < fuel + o → Returns (walk fuel body end o))
          → Returns (elim t [
            | return r ↦ r
            | go_on o ↦ elim (ltb end o) [ true ↦ failed overflow | false ↦ walk fuel body end o ]
          ])
      after (return r) a ih = a
      after (go_on o) a ih = elim (Bool-cases (ltb end o)) [
        | inl e ↦ rw e tt
        | inr e ↦ rw e (ih o (ground arith) (ground arith))
      ]

block-Returns :
    (body : Bytes) (off : ℕ) (d : Decoded)
    → ((v n : ℕ) → d ≡ Decoded.ok v n → off + n ≤ length body)
    → Returns (block body off d)
block-Returns body off (Decoded.err e) h = tt
block-Returns body off (Decoded.ok len n) h = elim (Bool-cases (len == 0)) [
  | inl e ↦ rw e tt
  | inr e ↦ rw e (elim (Bool-cases (ltb (length body) (off + n + len))) [
    | inl e' ↦ rw e' tt
    | inr e' ↦ rw e' (
        walk-Returns body (off + n + len) (ground arith) (suc len) (off + n) (omega arith)
          (omega arith))
  ])
]

All-drop : (P : ℕ → Type 0) (n : ℕ) (xs : Bytes) → All P xs → All P (drop n xs)
All-drop P zero xs h = h
All-drop P (suc n) [] h = h
All-drop P (suc n) (x ∷ xs) h = All-drop P n xs h.1

from_level-Returns :
    (body : Bytes) (off : ℕ)
    → All (λ b. b < 256) body
    → off + 4 ≤ length body
    → Returns (from_level body off (byte_at body off))
from_level-Returns body off h k =
    let (level, e) = byte_at_in_range body off (omega arith) in
    rw e (elim (Bool-cases (level == 5)) [
      | inr e' ↦ rw e' tt
      | inl e' ↦ rw e' (
          block-Returns body (off + 4) _ (λ v n d.
            let (_, fits, _) =
              decode_varint_bounds (drop (off + 4) body) v n (All-drop _ (off + 4) body h) d in
            omega (arith, length-drop (off + 4) body)))
    ])

-- On every body of bytes, however malformed, `V5ConnectMaximumPacketSize` returns: it never indexes out
-- of range, and its loop ends.
pub connect_maximum_packet_size-Returns :
    (body : Bytes) → All (λ b. b < 256) body → Returns (connect_maximum_packet_size body)
unfolding connect_maximum_packet_size
connect_maximum_packet_size-Returns [] h = tt
connect_maximum_packet_size-Returns (b ∷ []) h = tt
connect_maximum_packet_size-Returns (hi ∷ lo ∷ rest) h =
    elim (Bool-cases (ltb (length (hi ∷ lo ∷ rest)) (2 + (hi * 256 + lo) + 4))) [
      | inl e ↦ rw e tt
      | inr e ↦ rw e (from_level-Returns (hi ∷ lo ∷ rest) _ h (ground arith))
    ]
