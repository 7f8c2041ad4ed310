-- ===== src/Wire/Properties.antt =====
-- `V5ConnectMaximumPacketSize` of internal/mqtt/codec.go: a walk over the raw body of a v5 CONNECT that
-- tells an absent Maximum Packet Size from one that is present. An index out of range, at which Go
-- panics, is an outcome of its own, and so is running out of the model's fuel.
pub mod Safety
pub mod Found
pub mod Encoding
use pgmqtt.Prelude.{
  ℕ, zero, suc, ◌+◌, ◌*◌, Bool, true, false, Option, none, some, List, [], ◌∷◌, Bytes, length, drop,
  ltb, leb, ◌==◌, if◌then◌else◌,
}
use pgmqtt.Wire.Varint.{Decoded, decode_varint}

pub data Malformed : Type 0 where
  too_short truncated bad_varint block_past_body header_truncated value_truncated overflow :
      Malformed
  unknown_property : ℕ → Malformed

pub data Outcome : Type 0 where
  present : ℕ → Outcome
  absent : Outcome
  failed : Malformed → Outcome
  panic out_of_fuel : Outcome

-- body[i]
abbrev pub byte_at : Bytes → ℕ → Option ℕ
byte_at [] i = none
byte_at (b ∷ bs) zero = some b
byte_at (b ∷ bs) (suc i) = byte_at bs i

-- What one turn of the loop does: go on at an offset, or return.
pub data Turn : Type 0 where
  go_on : ℕ → Turn
  return : Outcome → Turn

-- Reads two bytes at `i` as a big-endian number.
abbrev pub with_u16 : Bytes → ℕ → (ℕ → Turn) → Turn
with_u16 body i k = elim (byte_at body i) [
  | none ↦ return panic
  | some hi ↦ elim (byte_at body (i + 1)) [ none ↦ return panic | some lo ↦ k (hi * 256 + lo) ]
]

-- `if off+2 > end { error }; off += 2 + int(body[off])<<8 + int(body[off+1])`
unfoldable pub skip_string : Bytes → ℕ → ℕ → Turn
skip_string body end off =
    if ltb end (off + 2)
    then return (failed header_truncated)
    else with_u16 body off (λ n. go_on (off + 2 + n))

abbrev pub then_skip : Bytes → ℕ → Turn → Turn
then_skip body end (go_on off) = skip_string body end off
then_skip body end (return r) = return r

unfoldable pub read_u32 : Bytes → ℕ → ℕ → Turn
read_u32 body end off =
    if ltb end (off + 4)
    then return (failed value_truncated)
    else with_u16 body off
        (λ hi. with_u16 body (off + 2) (λ lo. return (present (hi * 65536 + lo))))

-- The switch over the identifier; `off` is the offset behind it.
unfoldable pub property : Bytes → ℕ → ℕ → ℕ → Turn
property body end id off =
    if id == 0x11
    then go_on (off + 4)
    else if id == 0x15
    then skip_string body end off
    else if id == 0x16
    then skip_string body end off
    else if id == 0x17
    then go_on (off + 1)
    else if id == 0x19
    then go_on (off + 1)
    else if id == 0x21
    then go_on (off + 2)
    else if id == 0x22
    then go_on (off + 2)
    else if id == 0x26
    then then_skip body end (skip_string body end off)
    else if id == 0x27
    then read_u32 body end off
    else return (failed (unknown_property id))

abbrev pub turn : Bytes → ℕ → ℕ → Option ℕ → Turn
turn body end off none = return panic
turn body end off (some id) = property body end id (off + 1)

-- `for off < end`
unfoldable pub walk : ℕ → Bytes → ℕ → ℕ → Outcome
walk zero body end off = out_of_fuel
walk (suc fuel) body end off = elim (ltb off end) [
  | false ↦ absent
  | true ↦ elim (turn body end off (byte_at body off)) [
    | return r ↦ r
    | go_on off' ↦ elim (ltb end off') [ true ↦ failed overflow | false ↦ walk fuel body end off' ]
  ]
]

-- From the property block on, `off` being the offset of its length.
abbrev pub block : Bytes → ℕ → Decoded → Outcome
block body off (Decoded.err e) = failed bad_varint
block body off (Decoded.ok len n) =
    if len == 0
    then absent
    else if ltb (length body) (off + n + len)
    then failed block_past_body
    else walk (suc len) body (off + n + len) (off + n)

abbrev pub from_level : Bytes → ℕ → Option ℕ → Outcome
from_level body off none = panic
from_level body off (some level) =
    if level == 5 then block body (off + 4) (decode_varint (drop (off + 4) body)) else absent

unfoldable pub connect_maximum_packet_size : Bytes → Outcome
unfolding skip_string read_u32 property walk
connect_maximum_packet_size [] = failed too_short
connect_maximum_packet_size (b ∷ []) = failed too_short
connect_maximum_packet_size (hi ∷ lo ∷ rest) =
    let body = hi ∷ lo ∷ rest in
    let off = 2 + (hi * 256 + lo) in
    if ltb (length body) (off + 4) then failed truncated else from_level body off (byte_at body off)
