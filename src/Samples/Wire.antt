-- ===== src/Samples/Wire.antt =====
-- The theorems on internal/mqtt and `mqtt_topic_match` at concrete inputs.
use pgmqtt.Prelude.{
  ◌*◌, ◌≢◌, some, refl, ℕ, ◌≤◌, ◌<◌, ◌≡◌, ◌↔◌, refl, true, false, ◌&&◌, Option, none, some, List,
  [], ◌∷◌, ◌++◌, arith, Bytes, codes, length, is_empty,
}
use pgmqtt.Wire.Topic.{split, valid_utf8, check_levels, validate_topic_name, validate_topic_filter}
use pgmqtt.Wire.Topic.Grammar.{IsTopicText, Levels, validate_topic_filter_iff}
use pgmqtt.Wire.Topic.Matching.{
  topic_match, wild_root, starts_with_dollar, Matches, topic_match_iff,
}
use pgmqtt.Wire.Varint.{decode_varint, ok}
use pgmqtt.Wire.Properties.{connect_maximum_packet_size}
use pgmqtt.Wire.Properties.Encoding.{
  Property, user_property, receive_maximum, maximum_packet_size, first_size, encode_property,
  encode_properties,
}
use pgmqtt.Wire.Properties.Found.{connect_body, connect_maximum_packet_size_found}
use pgmqtt.Wire.Codec.{Mochi}
use pgmqtt.Wire.Codec.Reader.{new_reader, read, Remembers, read_lem}

abbrev sensors : Bytes
sensors = codes "home/+/temperature/#"

abbrev kitchen : Bytes
kitchen = codes "home/kitchen/temperature"

sensors_valid : validate_topic_filter sensors ≡ none
unfolding validate_topic_filter valid_utf8 check_levels split
sensors_valid = refl

kitchen_valid : validate_topic_name kitchen ≡ none
unfolding validate_topic_name valid_utf8
kitchen_valid = refl

filter_example :
    (validate_topic_filter sensors ≡ none) ↔ (IsTopicText sensors × Levels (split sensors))
filter_example = validate_topic_filter_iff sensors

abbrev workers : Bytes
workers = codes "$share/workers/jobs/#"

match_example : (topic_match sensors kitchen ≡ true) ↔ (
    (is_empty sensors ≡ false)
    × (is_empty kitchen ≡ false)
    × ((wild_root (split sensors) && starts_with_dollar kitchen) ≡ false)
    × Matches (split sensors) (split kitchen))
match_example = topic_match_iff sensors kitchen

three_hundred : decode_varint (0xac ∷ 2 ∷ 7 ∷ []) ≡ ok 300 2
unfolding decode_varint
three_hundred = refl

abbrev encoded : Bytes
encoded = 0xac ∷ 2 ∷ 7 ∷ []

abbrev asked : List Property
asked =
    receive_maximum 0 20
    ∷ user_property (codes "os") (codes "linux")
    ∷ maximum_packet_size 4096
    ∷ []

asked_short : length (encode_properties asked) < 268435456
unfolding encode_properties encode_property
asked_short = omega arith

found_example :
    connect_maximum_packet_size (connect_body (codes "MQTT") 2 0 60 asked (codes "client"))
    ≡ first_size asked
found_example =
    connect_maximum_packet_size_found (codes "MQTT") (codes "client") 2 0 60 asked asked_short

-- A codec whose packets are their type and their body, with the length in one byte.
abbrev toy_length : Bytes → Option (ℕ × Bytes)
toy_length [] = none
toy_length (n ∷ rest) = some (n, rest)

abbrev toy : Mochi
toy = record {
  Packet = ℕ × Bytes;
  type_of = λ p. p.0;
  version_of = λ p. 5;
  decode_header = λ b. some (b, []);
  decode_length = toy_length;
  framed = λ n v p. p;
  allow_response_info = λ p. p;
  decode = λ k p body. some (p.0, body);
  encode = λ k p buf. (buf ++ p.1, true);
  encode_pingreq = λ p buf. (buf, true);
  encode_pingresp = λ p buf. (buf, true);
}

-- A CONNECT with a body of two bytes, before another packet.
abbrev frames : Bytes
frames = 1 ∷ 2 ∷ 8 ∷ 9 ∷ 3 ∷ []

read_example :
    ((new_reader.max_packet_size ≡ 0) → (read toy new_reader frames).allocated ≤ 2 * 1048576)
    × ((new_reader.max_packet_size ≢ 0)
        → (read toy new_reader frames).allocated ≤ 2 * new_reader.max_packet_size)
    × ((read toy new_reader frames).allocated ≤ 2 * 268435455)
    × Remembers toy new_reader frames
        (read toy new_reader frames).input
        (read toy new_reader frames).reader
        (read toy new_reader frames).result
read_example = read_lem toy new_reader frames

kept_test : (read toy new_reader frames).reader.last_connect_body ≡ some (8 ∷ 9 ∷ [])
unfolding read
kept_test = refl
