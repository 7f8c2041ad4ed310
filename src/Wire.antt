-- ===== src/Wire.antt =====
-- internal/mqtt: the wire side of the broker.
pub mod Topic
pub mod Varint
pub mod Properties
pub mod Codec
