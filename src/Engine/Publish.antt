-- ===== src/Engine/Publish.antt =====
-- `publishCore` of internal/engine/publish.go with the SQL that it runs: the QoS 2 claim, the retained row, and
-- `mqtt_publish` of internal/db/migrations/0018_mqtt_publish_drop_connected_filter.sql, in one transaction.
pub mod Fanout
pub mod Accounts
pub mod Atomic
pub mod Transaction
use pgmqtt.Prelude.{
  ℕ, zero, suc, ◌+◌, min, max, Bool, true, false, not, ◌&&◌, ◌||◌, Option, none, some, List, [],
  ◌∷◌, ◌++◌, Bytes, same, keep, count, length, any, is_empty, ◌==◌, ltb, leb, if◌then◌else◌,
}
use pgmqtt.Wire.Topic.Matching.{topic_match}
use pgmqtt.Engine.Db.{Session, Subscription, Message, Delivery, Retained, Db, is_pair, has_inbound}

-- What SQL reads besides the tables: the clock, and `me` in a JSONB value (0 if it has none).
pub record Env : Type 0 where
  pub now : ℕ
  pub expiry_of : Option Bytes → ℕ
  pub max_queued : ℕ

-- publishCore, the argument
pub record Request : Type 0 where
  pub topic : Bytes
  pub payload : Bytes
  pub qos : ℕ
  pub retain : Bool
  pub properties : Option Bytes
  -- the empty string if nobody publishes, as for a will
  pub publisher : Bytes
  pub dedup_key : Option (Bytes × ℕ)

pub record Published : Type 0 where
  pub message_id : ℕ
  pub broker_ids : List ℕ
  pub overflow_clients : List Bytes
  pub delivered : ℕ

abbrev pub expires_at : Env → Option Bytes → Option ℕ
expires_at env props =
    if ltb 0 (env.expiry_of props) then some (env.now + env.expiry_of props) else none

abbrev pub publisher_of : Request → Option Bytes
publisher_of p = if is_empty p.publisher then none else some p.publisher

abbrev pub is_publisher : Bytes → Option Bytes → Bool
is_publisher client none = false
is_publisher client (some p) = same client p

-- The subscriptions of a client that the message reaches.
abbrev pub reaches : Request → Bytes → Subscription → Bool
reaches p client s =
    same s.client client
    && topic_match s.filter p.topic
    && not (s.no_local && is_publisher s.client (publisher_of p))

abbrev pub better : ℕ → Option ℕ → ℕ
better q none = q
better q (some r) = max q r

-- `DISTINCT ON (client_id) … ORDER BY qos DESC`: the greatest QoS among them.
abbrev pub best_qos : Request → Bytes → List Subscription → Option ℕ
best_qos p client [] = none
best_qos p client (s ∷ ss) =
    if reaches p client s then some (better s.qos (best_qos p client ss)) else best_qos p client ss

pub record Match : Type 0 where
  pub client : Bytes
  pub broker : Option ℕ
  pub connected : Bool
  pub deliver_qos : ℕ

abbrev pub with_match : Request → Session → Option ℕ → List Match → List Match
with_match p s none ms = ms
with_match p s (some q) ms =
    record {
      client = s.client;
      broker = s.broker;
      connected = s.connected;
      deliver_qos = min q p.qos;
    }
    ∷ ms

-- `matches`: subscriptions joined with sessions, one row for each client.
unfoldable pub matches : Request → List Subscription → List Session → List Match
matches p subs [] = []
matches p subs (s ∷ ss) = with_match p s (best_qos p s.client subs) (matches p subs ss)

-- `pending`: row number `max_queued` of the client's deliveries exists.
abbrev pub depth : Bytes → List Delivery → ℕ
depth client = count (λ d. same d.client client && leb d.state 2)

abbrev pub over_cap : Env → Db → Bytes → Bool
over_cap env db client =
    if env.max_queued == 0 then false else leb env.max_queued (depth client db.deliveries)

-- The condition of `inserted`.
abbrev pub queues : Env → Db → Match → Bool
queues env db m =
    (ltb 0 m.deliver_qos || m.connected) && (m.deliver_qos == 0 || not (over_cap env db m.client))

-- The rows that `inserted` adds, numbered from `id` on.
unfoldable pub new_deliveries : ℕ → ℕ → List Match → List Delivery
new_deliveries message id [] = []
new_deliveries message id (m ∷ ms) =
    record {
      id = id;
      client = m.client;
      message = message;
      qos = m.deliver_qos;
      state = 0;
      packet_id = none;
    }
    ∷ new_deliveries message (suc id) ms

abbrev pub add_broker : Option ℕ → List ℕ → List ℕ
add_broker none bs = bs
add_broker (some b) bs = if any (λ x. x == b) bs then bs else b ∷ bs

-- `array_agg(DISTINCT broker_id) FILTER (WHERE broker_id IS NOT NULL …)` over the rows inserted
unfoldable pub broker_ids : List Match → List ℕ
broker_ids [] = []
broker_ids (m ∷ ms) = add_broker m.broker (broker_ids ms)

abbrev pub clients : List Match → List Bytes
clients [] = []
clients (m ∷ ms) = m.client ∷ clients ms

abbrev pub new_message : Env → Request → ℕ → Message
new_message env p id = record {
  id = id;
  topic = p.topic;
  payload = p.payload;
  qos = p.qos;
  retain = p.retain;
  properties = p.properties;
  publisher = publisher_of p;
  expires_at = expires_at env p.properties;
}

-- mqtt_publish
unfoldable pub mqtt_publish : Env → Request → Db → Db × Published
mqtt_publish env p db =
    let ms = matches p db.subscriptions db.sessions in
    let inserted = keep (queues env db) ms in
    let rows = new_deliveries db.next_message db.next_delivery inserted in
    (
      record db {
        messages = db.messages ++ new_message env p db.next_message ∷ [];
        deliveries = db.deliveries ++ rows;
        next_message = suc db.next_message;
        next_delivery = db.next_delivery + length rows;
      },
      record {
        message_id = db.next_message;
        broker_ids = broker_ids inserted;
        overflow_clients = clients (keep (λ m. ltb 0 m.deliver_qos && over_cap env db m.client) ms);
        delivered = length rows;
      },
    )

-- Replaces the row of the topic or adds one.
abbrev pub upsert_retained : Retained → List Retained → List Retained
upsert_retained r [] = r ∷ []
upsert_retained r (x ∷ xs) = if same x.topic r.topic then r ∷ xs else x ∷ upsert_retained r xs

-- `mqtt_retained_expires_at` of 0016 computes the expiry as `mqtt_publish` does.
abbrev pub store_retained : Env → Request → Db → Db
store_retained env p db =
    if not p.retain
    then db
    else if is_empty p.payload
    then record db { retained = keep (λ r. not (same r.topic p.topic)) db.retained }
    else record db {
      retained =
          upsert_retained
            (record {
              topic = p.topic;
              payload = p.payload;
              qos = p.qos;
              properties = p.properties;
              expires_at = expires_at env p.properties;
            })
            db.retained;
    }

-- INSERT INTO inbound_qos2 … ON CONFLICT DO NOTHING, and whether a row was inserted.
abbrev pub claim : Option (Bytes × ℕ) → Db → Db × Bool
claim none db = (db, true)
claim (some (client, pid)) db =
    if has_inbound client pid db
    then (db, false)
    else (record db { inbound_qos2 = (client, pid) ∷ db.inbound_qos2 }, true)

abbrev pub is_some : Option (Bytes × ℕ) → Bool
is_some none = false
is_some (some k) = true

-- Which statement of the transaction fails, if one does.
pub data Stage : Type 0 where
  begin qos2_dedup retain publish notify commit : Stage

abbrev pub fails_at : Stage → Option Stage → Bool
fails_at s none = false
fails_at begin (some begin) = true
fails_at qos2_dedup (some qos2_dedup) = true
fails_at retain (some retain) = true
fails_at publish (some publish) = true
fails_at notify (some notify) = true
fails_at commit (some commit) = true
fails_at s (some t) = false

pub data Outcome : Type 0 where
  done : Published → Outcome
  duplicate : Outcome
  failed : Stage → Outcome

-- A return before the commit rolls everything back. `pg_notify` inside the transaction reaches the peers
-- on commit, so the brokers notified are those of a `done`.
unfoldable pub publish_core : Env → Option Stage → Request → Db → Db × Outcome
publish_core env fault p db =
    let (claimed, fresh) = claim p.dedup_key db in
    let (published, res) = mqtt_publish env p (store_retained env p claimed) in
    if fails_at begin fault
    then (db, failed begin)
    else if is_some p.dedup_key && fails_at qos2_dedup fault
    then (db, failed qos2_dedup)
    else if not fresh
    then (db, duplicate)
    else if p.retain && fails_at retain fault
    then (db, failed retain)
    else if fails_at publish fault
    then (db, failed publish)
    else if not (is_empty res.broker_ids) && fails_at notify fault
    then (db, failed notify)
    else if fails_at commit fault
    then (db, failed commit)
    else (published, done res)
