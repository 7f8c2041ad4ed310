-- ===== src/Wire/Codec/Writer.antt =====
-- `Encode` and `Write` of internal/mqtt/codec.go, and the pool of buffers of internal/mqtt/buf.go.
use pgmqtt.Prelude.{
  ◌≡◌, refl, true, Option, none, some, List, [], ◌∷◌, Bytes, is_empty, All, ◌==◌, if◌then◌else◌,
}
use pgmqtt.Wire.Codec.{Mochi, PacketType, body, pingreq, pingresp, invalid, classify}

pub data EncodeError : Type 0 where
  encoder_failed invalid_type : EncodeError

pub data Encoded : Type 0 where
  wire : Bytes → Encoded
  err : EncodeError → Encoded

-- `sync.Pool` hands out any buffer that was put back, or none, and then `New` makes one. Here it is the
-- buffer that was put back last; the theorem below says that it does not matter.
abbrev pub Pool : Type 0
Pool = List Bytes

abbrev pub new_buf : Pool → Bytes × Pool
new_buf [] = ([], [])
new_buf (b ∷ pool) = (b, pool)

-- `Reset` empties the buffer and puts it back.
abbrev pub reset : Bytes → Pool → Pool
reset b pool = [] ∷ pool

module _ (m : Mochi) where
  open m use {Packet, type_of, allow_response_info, encode, encode_pingreq, encode_pingresp}

  -- The switch: what the buffer holds afterwards, and the error if there is one.
  abbrev pub run_encoder : PacketType → Packet → Bytes → Bytes × Option EncodeError
  run_encoder (body k) pk b =
      ((encode k pk b).0, if (encode k pk b).1 then none else some encoder_failed)
  run_encoder pingreq pk b =
      ((encode_pingreq pk b).0, if (encode_pingreq pk b).1 then none else some encoder_failed)
  run_encoder pingresp pk b =
      ((encode_pingresp pk b).0, if (encode_pingresp pk b).1 then none else some encoder_failed)
  run_encoder invalid pk b = (b, some invalid_type)

  abbrev pub prepared : Packet → Packet
  prepared pk = if type_of pk == 2 then pk else allow_response_info pk

  abbrev pub answer : Bytes × Option EncodeError → Encoded
  answer (b, none) = wire b
  answer (b, some e) = err e

  -- The result is a copy of the buffer, which goes back on every return.
  unfoldable pub encode_packet : Pool → Packet → Encoded × Pool
  unfolding classify
  encode_packet pool pk =
      let (b, pool') = new_buf pool in
      let out = run_encoder (classify (type_of pk)) (prepared pk) b in
      (answer out, reset out.0 pool')

  abbrev pub IsClean : Pool → Type 0
  IsClean pool = All (λ b. is_empty b ≡ true) pool

  IsClean-new_buf :
      (pool : Pool) → IsClean pool → ((new_buf pool).0 ≡ []) × IsClean (new_buf pool).1
  IsClean-new_buf [] h = (refl, tt)
  IsClean-new_buf ([] ∷ pool) (e, h) = (refl, h)
  IsClean-new_buf ((x ∷ b) ∷ pool) (e, h) = cc

  -- No bytes of an earlier packet leak into a later one: over a pool of empty buffers `Encode` answers
  -- what the encoder writes into a new buffer, whichever buffer it is given, and it leaves a pool of empty
  -- buffers, also when the encoder fails midway.
  pub encode_packet-IsClean :
      (pool : Pool) (pk : Packet)
      → IsClean pool
      → ((encode_packet pool pk).0 ≡ answer (run_encoder (classify (type_of pk)) (prepared pk) []))
        × IsClean (encode_packet pool pk).1
  unfolding encode_packet
  encode_packet-IsClean pool pk h = let (e, k) = IsClean-new_buf pool h in (rw e, (refl, k))
