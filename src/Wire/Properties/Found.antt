-- ===== src/Wire/Properties/Found.antt =====
-- What the walk over the CONNECT properties answers on a well-formed body, written down as MQTT 5 3.1.2.11
-- lays it out.
use pgmqtt.Prelude.{
  ℕ, suc, ◌+◌, ◌*◌, ◌/◌, ◌%◌, ◌≤◌, ◌<◌, ◌≡◌, refl, ap, subst, ◌∙◌, List, [], ◌∷◌, ◌++◌, arith,
  Bytes, length, drop, length-drop, drop-length-append, length-append, ltb, if◌then◌else◌,
}
use pgmqtt.Wire.Varint.{Decoded, decode_varint, encode_varint, decode-encode_varint}
use pgmqtt.Wire.Properties.{
  Outcome, failed, truncated, byte_at, walk, block, from_level, connect_maximum_packet_size,
}
use pgmqtt.Wire.Properties.Encoding.{
  Property, encode-nonempty, encode_properties, encode_property, first_at, first_size, go_past,
  text, walk_found,
}

block-walk :
    (body : Bytes) (off n len : ℕ)
    → 0 < len
    → off + n + len ≤ length body
    → block body off (Decoded.ok len n) ≡ walk (suc len) body (off + n + len) (off + n)
block-walk body off n len h k = ground arith

-- A block of properties whose length comes first.
block_found :
    (body : Bytes) (off : ℕ) (ps : List Property) (rest : Bytes)
    → length (encode_properties ps) < 268435456
    → drop off body
      ≡ encode_varint 3 (length (encode_properties ps)) ++ (encode_properties ps ++ rest)
    → block body off (decode_varint (drop off body)) ≡ first_size ps
block_found body off [] rest h e =
    let size : length (encode_properties []) ≡ 0 = unfold encode_properties in refl in
    rw
      (e, (decode-encode_varint (length (encode_properties [])) (encode_properties [] ++ rest) h).0)
      (ground (arith, size))
block_found body off (p ∷ ps) rest h e =
    let n = length (encode_varint 3 (length (encode_properties (p ∷ ps)))) in
    let back =
      (decode-encode_varint (length (encode_properties (p ∷ ps)))
        (encode_properties (p ∷ ps) ++ rest) h).0 in
    let size : 0 < length (encode_properties (p ∷ ps)) =
      unfold encode_properties in
      omega (
        arith,
        length-append (encode_property p) (encode_properties ps),
        encode-nonempty body 0 p,
      ) in
    rw (e, back)
      (block-walk body off n _ size (
          omega (
            arith,
            length-drop off body,
            ap length e,
            length-append (encode_varint 3 (length (encode_properties (p ∷ ps))))
                (encode_properties (p ∷ ps) ++ rest),
            length-append (encode_properties (p ∷ ps)) rest,
          ))
        ∙ walk_found body (off + n + length (encode_properties (p ∷ ps))) _ (off + n) (p ∷ ps) rest
            (go_past body off _ _ e) refl (omega arith))

-- From the protocol level on.
abbrev from_offset : Bytes → ℕ → Outcome
from_offset body off =
    if ltb (length body) (off + 4) then failed truncated else from_level body off (byte_at body off)

level_found :
    (body : Bytes) (off flags k1 k2 : ℕ) (ps : List Property) (rest : Bytes)
    → length (encode_properties ps) < 268435456
    → drop off body
      ≡ 5
        ∷ flags
        ∷ k1
        ∷ k2
        ∷ (encode_varint 3 (length (encode_properties ps)) ++ (encode_properties ps ++ rest))
    → from_offset body off ≡ first_size ps
level_found body off flags k1 k2 ps rest h e =
    let block =
      block_found body (off + 4) ps rest h (go_past body off (5 ∷ flags ∷ k1 ∷ k2 ∷ []) _ e) in
    rw (first_at body off _ _ e) (ground (arith, block, ap length e, length-drop off body))

-- The body of a v5 CONNECT: protocol name, level 5, flags, keepalive, properties, payload.
abbrev pub connect_body : Bytes → ℕ → ℕ → ℕ → List Property → Bytes → Bytes
connect_body name flags k1 k2 ps payload =
    text name
    ++ (5 ∷ flags ∷ k1 ∷ k2 ∷ encode_varint 3 (length (encode_properties ps))
        ++ (encode_properties ps ++ payload))

-- On the body of a v5 CONNECT, whatever its name, flags, keepalive, properties and payload, the walk
-- finds the first Maximum Packet Size, with its value, and answers `absent` exactly if there is none.
pub connect_maximum_packet_size_found :
    (name payload : Bytes) (flags k1 k2 : ℕ) (ps : List Property)
    → length (encode_properties ps) < 268435456
    → connect_maximum_packet_size (connect_body name flags k1 k2 ps payload) ≡ first_size ps
unfolding connect_maximum_packet_size
connect_maximum_packet_size_found name payload flags k1 k2 ps h =
    let body = connect_body name flags k1 k2 ps payload in
    let off : length (text name) ≡ 2 + (length name / 256 * 256 + length name % 256) =
      omega arith in
    subst (λ o. from_offset body o ≡ first_size ps) off
      (level_found body (length (text name)) flags k1 k2 ps payload h
        (drop-length-append (text name) _))
