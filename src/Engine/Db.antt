-- ===== src/Engine/Db.antt =====
-- The tables of internal/db/migrations that the engine's handlers read and write, as lists of rows, and the
-- broker's SQL on single tables. A client id, a topic and a payload are byte strings; a UUID is a number.
use pgmqtt.Prelude.{ℕ, Bool, not, ◌&&◌, Option, List, Bytes, same, keep, any, ◌==◌}

-- The will of a session.
pub record Will : Type 0 where
  pub topic : Bytes
  pub payload : Bytes
  pub qos : ℕ
  pub retain : Bool
  pub properties : Option Bytes

-- sessions
pub record Session : Type 0 where
  pub client : Bytes
  pub broker : Option ℕ
  pub connected : Bool
  pub token : ℕ
  pub protocol : ℕ
  pub clean_start : Bool
  pub expiry_interval : Option ℕ
  pub will : Option Will
  pub will_delay : Option ℕ
  pub will_fire_at : Option ℕ
  pub expires_at : Option ℕ

-- subscriptions
pub record Subscription : Type 0 where
  pub client : Bytes
  pub filter : Bytes
  pub qos : ℕ
  pub no_local : Bool
  pub retain_as_published : Bool
  pub retain_handling : ℕ
  pub subscription_id : Option ℕ

-- messages
pub record Message : Type 0 where
  pub id : ℕ
  pub topic : Bytes
  pub payload : Bytes
  pub qos : ℕ
  pub retain : Bool
  pub properties : Option Bytes
  pub publisher : Option Bytes
  pub expires_at : Option ℕ

-- deliveries: state 0 is queued, 1 sent, 2 waiting for PUBCOMP
pub record Delivery : Type 0 where
  pub id : ℕ
  pub client : Bytes
  pub message : ℕ
  pub qos : ℕ
  pub state : ℕ
  pub packet_id : Option ℕ

-- retained
pub record Retained : Type 0 where
  pub topic : Bytes
  pub payload : Bytes
  pub qos : ℕ
  pub properties : Option Bytes
  pub expires_at : Option ℕ

pub record Db : Type 0 where
  pub sessions : List Session
  pub subscriptions : List Subscription
  pub messages : List Message
  pub deliveries : List Delivery
  pub inbound_qos2 : List (Bytes × ℕ)
  pub retained : List Retained
  pub next_message : ℕ
  pub next_delivery : ℕ

abbrev pub is_pair : Bytes → ℕ → Bytes × ℕ → Bool
is_pair client pid (c, p) = same c client && p == pid

-- SELECT EXISTS (… inbound_qos2 WHERE client_id=$1 AND packet_id=$2)
abbrev pub has_inbound : Bytes → ℕ → Db → Bool
has_inbound client pid db = any (is_pair client pid) db.inbound_qos2

-- DELETE FROM inbound_qos2 WHERE client_id=$1 AND packet_id=$2
abbrev pub delete_inbound : Bytes → ℕ → Db → Db
delete_inbound client pid db = record db {
  inbound_qos2 = keep (λ r. not (is_pair client pid r)) db.inbound_qos2;
}
