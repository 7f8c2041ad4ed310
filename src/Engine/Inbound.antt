-- ===== src/Engine/Inbound.antt =====
-- `handlePublish` and `disconnectForPublishError` of internal/engine/publish.go and `handlePubrel` of
-- internal/engine/conn.go: a client's own PUBLISH packets, with v5 flow control and the QoS 2 handshake.
pub mod Slots
pub mod Checked
pub mod Window
pub mod Resume
use pgmqtt.Prelude.{
  ℕ, ◌+◌, ◌%◌, ℤ, increment, decrement, to_uint16, Bool, true, false, not, ◌&&◌, ◌||◌, Option, none,
  some, List, [], ◌∷◌, ◌++◌, Bytes, is_empty, ltb, leb, ◌==◌, if◌then◌else◌,
}
use pgmqtt.Wire.Topic.{TopicError, validate_topic_name}
use pgmqtt.Engine.Db.{Db, has_inbound, delete_inbound}
use pgmqtt.Engine.Publish.{
  Env, Request, Published, Stage, Outcome, done, duplicate, failed, publish_core,
}

abbrev pub mqtt5 : ℕ
mqtt5 = 5

-- What the handlers do besides changing tables: packets given to the socket, with their reason code, and
-- the two calls that follow a commit.
pub data Event : Type 0 where
  puback pubrec : ℕ → Event
  pubcomp : ℕ → ℕ → Event
  disconnect : ℕ → Event
  notify : List ℕ → ℕ → Event
  quota : List Bytes → Event

-- A failed statement, by the code of the Postgres error if it has one.
pub data PgCode : Type 0 where
  no_code disk_full out_of_memory too_many_connections shutdown other_code : PgCode

pub data Error : Type 0 where
  invalid_topic receive_maximum_exceeded subscription_identifier invalid_topic_alias bad_properties
        write_failed invalid_qos query_failed :
      Error
  publish_failed : Stage → Error

pub data Result : Type 0 where
  ok : Result
  err : Error → Result

-- The client of the connection, and the server's policy: PGMQTT_RECEIVE_MAXIMUM.
pub record Peer : Type 0 where
  pub protocol : ℕ
  pub client : Bytes
  pub receive_maximum : ℕ

-- A decoded PUBLISH. `alias` is the topic alias if its flag is set.
pub record Packet : Type 0 where
  pub topic : Bytes
  pub payload : Bytes
  pub qos : ℕ
  pub dup : Bool
  pub retain : Bool
  pub packet_id : ℕ
  pub subscription_ids : List ℕ
  pub alias : Option ℕ

-- What may go wrong outside the handler: the probe of inbound_qos2, a statement of the transaction, the
-- write of the answer; and what json.Marshal makes of the properties (`none` is an error).
pub record Faults : Type 0 where
  pub probe : Bool
  pub statement : Option Stage
  pub code : PgCode
  pub write : Bool
  pub properties : Option (Option Bytes)

-- inboundInflight, the tables, and what has been done, newest last.
pub record State : Type 0 where
  pub inflight : ℤ
  pub db : Db
  pub events : List Event

abbrev pub emit : Event → State → State
emit e s = record s { events = s.events ++ e ∷ [] }

abbrev pub server_receive_maximum : ℕ → ℕ
server_receive_maximum v = if ltb 0 v then v % 65536 else 100

-- A retransmission of a QoS 2 packet that holds its slot already.
abbrev pub skips : Peer → Packet → Faults → State → Bool
skips c pk f s = pk.qos == 2 && pk.dup && not f.probe && has_inbound c.client pk.packet_id s.db

abbrev pub metered : Peer → Packet → Bool
metered c pk = ltb 0 pk.qos && c.protocol == mqtt5

abbrev pub takes_slot : Peer → Packet → Faults → State → Bool
takes_slot c pk f s = metered c pk && not (skips c pk f s)

-- `uint16(current) > serverReceiveMaximum()`, with `current` the counter after `Add(1)`
abbrev pub exceeds : Peer → State → Bool
exceeds c s = ltb (server_receive_maximum c.receive_maximum) (to_uint16 (increment s.inflight))

abbrev pub reason_for : PgCode → ℕ
reason_for out_of_memory = 0x97
reason_for too_many_connections = 0x97
reason_for c = 0x88

-- disconnectForPublishError
abbrev pub disconnect_for : Peer → PgCode → State → State
disconnect_for c code s = if c.protocol == mqtt5 then emit (disconnect (reason_for code)) s else s

abbrev pub reply : Bool → Event → State → State × Result
reply fails e s = (emit e s, if fails then err write_failed else ok)

abbrev pub request : Peer → Packet → Option Bytes → Request
request c pk props = record {
  topic = pk.topic;
  payload = pk.payload;
  qos = pk.qos;
  retain = pk.retain;
  properties = props;
  publisher = c.client;
  dedup_key = if pk.qos == 2 then some (c.client, pk.packet_id) else none;
}

abbrev pub raise_quota : List Bytes → State → State
raise_quota overflow s = if is_empty overflow then s else emit (quota overflow) s

-- The answer to a message that has been committed.
abbrev pub acknowledge : Packet → Faults → State → State × Result
acknowledge pk f s =
    if pk.qos == 0
    then (s, ok)
    else if pk.qos == 1
    then reply f.write (puback pk.packet_id) s
    else if pk.qos == 2
    then reply f.write (pubrec pk.packet_id) s
    else (s, err invalid_qos)

-- From the call of publishCore on. The last component says whether the slot is kept for PUBREL.
abbrev pub finish : Peer → Packet → Faults → State → Db × Outcome → State × Result × Bool
finish c pk f s (db, duplicate) =
    let (s', r) = reply f.write (pubrec pk.packet_id) (record s { db = db }) in (s', r, false)
finish c pk f s (db, failed st) =
    (disconnect_for c f.code (record s { db = db }), err (publish_failed st), false)
finish c pk f s (db, done res) =
    let told = emit (notify res.broker_ids res.message_id) (record s { db = db }) in
    let (s', r) = acknowledge pk f (raise_quota res.overflow_clients told) in (s', r, pk.qos == 2)

abbrev pub with_properties :
    Env → Peer → Packet → Faults → State → Option (Option Bytes) → State × Result × Bool
with_properties env c pk f s none = (s, err bad_properties, false)
with_properties env c pk f s (some props) =
    finish c pk f s (publish_core env f.statement (request c pk props) s.db)

-- serverTopicAliasMaximum() is 0, so every alias is invalid.
abbrev pub alias_given : Option ℕ → Bool
alias_given none = false
alias_given (some a) = a == 0 || ltb 0 a

-- From the property checks on.
unfoldable pub checked : Env → Peer → Packet → Faults → State → State × Result × Bool
checked env c pk f s =
    if c.protocol == mqtt5 && not (is_empty pk.subscription_ids)
    then (emit (disconnect 0x82) s, err subscription_identifier, false)
    else if c.protocol == mqtt5 && alias_given pk.alias
    then (emit (disconnect 0x94) s, err invalid_topic_alias, false)
    else with_properties env c pk f s f.properties

-- The deferred release of a slot that was taken.
abbrev pub release : Bool → State × Result × Bool → State × Result
release taken (s, r, kept) =
    (if taken && not kept then record s { inflight = decrement s.inflight } else s, r)

abbrev pub occupy : Bool → State → State
occupy taken s = if taken then record s { inflight = increment s.inflight } else s

abbrev pub with_topic : Env → Peer → Packet → Faults → State → Option TopicError → State × Result
with_topic env c pk f s (some e) = (s, err invalid_topic)
with_topic env c pk f s none =
    let taken = takes_slot c pk f s in
    if taken && exceeds c s
    then (emit (disconnect 0x93) s, err receive_maximum_exceeded)
    else release taken (checked env c pk f (occupy taken s))

unfoldable pub handle_publish : Env → Peer → Packet → Faults → State → State × Result
handle_publish env c pk f s = with_topic env c pk f s (validate_topic_name pk.topic)

-- Whether the DELETE fails, and the write of the answer.
pub record PubrelFaults : Type 0 where
  pub delete : Bool
  pub write : Bool

unfoldable pub handle_pubrel : Peer → ℕ → PubrelFaults → State → State × Result
handle_pubrel c pid f s =
    let known = has_inbound c.client pid s.db in
    let reason : ℕ = if not known && c.protocol == mqtt5 then 0x92 else 0 in
    let (s', r) =
      reply f.write (pubcomp pid reason) (record s { db = delete_inbound c.client pid s.db }) in
    if f.delete
    then (s, err query_failed)
    else (if known then record s' { inflight = decrement s'.inflight } else s', r)
