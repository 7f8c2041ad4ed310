-- ===== src/Wire/Codec.antt =====
-- internal/mqtt/codec.go and buf.go: framed reading and writing of packets around the codec of the
-- package github.com/mochi-mqtt/server/v2/packets, which is the parameter `Mochi`.
pub mod Reader
pub mod Writer
use pgmqtt.Prelude.{ℕ, Bool, Option, Bytes, ◌==◌, if◌then◌else◌}

-- The packet types that have a body to decode, in the order of the switch.
pub data Kind : Type 0 where
  connect connack publish puback pubrec pubrel pubcomp subscribe suback unsubscribe unsuback
        disconnect auth :
      Kind

-- What the codec uses of the package.
pub record Mochi : Type 1 where
  pub Packet : Type 0
  -- pk.FixedHeader.Type and pk.ProtocolVersion
  pub type_of : Packet → ℕ
  pub version_of : Packet → ℕ
  -- FixedHeader.Decode on a new packet, and packets.DecodeLength with what is left of the input
  pub decode_header : ℕ → Option Packet
  pub decode_length : Bytes → Option (ℕ × Bytes)
  -- sets Remaining and ProtocolVersion
  pub framed : ℕ → ℕ → Packet → Packet
  -- sets Mods.AllowResponseInfo
  pub allow_response_info : Packet → Packet
  pub decode : Kind → Packet → Bytes → Option Packet
  -- Each encoder writes behind what the buffer holds, and says whether it succeeded.
  pub encode : Kind → Packet → Bytes → Bytes × Bool
  pub encode_pingreq : Packet → Bytes → Bytes × Bool
  pub encode_pingresp : Packet → Bytes → Bytes × Bool

-- The numbers of the packet types (MQTT 2.1.2).
pub data PacketType : Type 0 where
  body : Kind → PacketType
  pingreq pingresp invalid : PacketType

unfoldable pub classify : ℕ → PacketType
classify n =
    if n == 1
    then body connect
    else if n == 2
    then body connack
    else if n == 3
    then body publish
    else if n == 4
    then body puback
    else if n == 5
    then body pubrec
    else if n == 6
    then body pubrel
    else if n == 7
    then body pubcomp
    else if n == 8
    then body subscribe
    else if n == 9
    then body suback
    else if n == 10
    then body unsubscribe
    else if n == 11
    then body unsuback
    else if n == 12
    then pingreq
    else if n == 13
    then pingresp
    else if n == 14
    then body disconnect
    else if n == 15
    then body auth
    else invalid
