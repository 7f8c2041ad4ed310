-- ===== src/Samples/Fan.antt =====
-- The theorem on `Deliver` at a concrete input.
use pgmqtt.Prelude.{◌≡◌, false, true, none, some, not, [], ◌∷◌, Bytes, codes, keep}
use pgmqtt.Engine.Db.{Db, Session, Message}
use pgmqtt.Engine.PacketId.{fresh}
use pgmqtt.Engine.Outbound.{Conn, World}
use pgmqtt.Engine.Outbound.Drain.{find_message}
use pgmqtt.Engine.Outbound.Fan.{scan_message, find_conn, deliver}
use pgmqtt.Engine.Outbound.Fan.Isolated.{is_scanned, is_addressed, deliver_isolated}

abbrev lamp : Bytes
lamp = codes "lamp"

abbrev greeting : Message
greeting = record {
  id = 1;
  topic = codes "hall";
  payload = codes "on";
  qos = 1;
  retain = false;
  properties = none;
  publisher = none;
  expires_at = none;
}

abbrev row : Session
row = record {
  client = lamp;
  broker = some 1;
  connected = true;
  token = 7;
  protocol = 5;
  clean_start = false;
  expiry_interval = none;
  will = none;
  will_delay = none;
  will_fire_at = none;
  expires_at = none;
}

-- A delivery of the message, and one of another.
abbrev tables : Db
tables = record {
  sessions = row ∷ [];
  subscriptions = [];
  messages = greeting ∷ [];
  deliveries =
      record { id = 1; client = lamp; message = 1; qos = 1; state = 0; packet_id = none }
      ∷ record { id = 2; client = lamp; message = 2; qos = 1; state = 0; packet_id = none }
      ∷ [];
  inbound_qos2 = [];
  retained = [];
  next_message = 3;
  next_delivery = 3;
}

abbrev conn : Conn
conn = record {
  protocol = 4;
  client = lamp;
  window = none;
  kick = false;
  aliases = record { maximum = 0; next = 0; table = [] };
  max_packet = 0;
  allocator = fresh;
  rows = [];
  messages = [];
  subscriptions = [];
  wire = [];
}

abbrev fine : World
fine = record {
  online = true;
  now = 0;
  later = 0;
  size = λ p. none;
  seed_fails = false;
  probe_fails = λ t. false;
  delete_fails = false;
  update_fails = false;
  write_fails = false;
}

isolated_example :
    let is = scan_message 0 1 tables (find_message 1 tables.messages) in
    let s = (deliver false 0 1 (λ i. fine) tables 1 (conn ∷ [])).0 in
    (keep (λ d. not (is_scanned is d)) s.rows ≡ keep (λ d. not (is_scanned is d)) tables.deliveries)
    × ((client : Bytes)
        → is_addressed is client ≡ false
        → find_conn client s.conns ≡ find_conn client (conn ∷ []))
    × (false ≡ true → s ≡ record { rows = tables.deliveries; conns = conn ∷ [] })
isolated_example = deliver_isolated false 0 1 (λ i. fine) tables 1 (conn ∷ [])
