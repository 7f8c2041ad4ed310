-- ===== src/Engine/Subscribe/Retained.antt =====
-- `dispatchRetainedForFilter`, `persistRetainedDispatch` and `allocPacketID` of internal/engine/subscribe.go, and
-- the loop over the dispatches that ends `handleSubscribe`.
use pgmqtt.Prelude.{
  ℕ, ◌+◌, min, Bool, true, false, not, ◌&&◌, Option, none, some, List, [], ◌∷◌, ◌++◌, map, Bytes,
  same, any, keep, length, ltb, ◌==◌, if◌then◌else◌,
}
use pgmqtt.Wire.Topic.Matching.{topic_match}
use pgmqtt.Engine.Db.{Delivery, Retained}
use pgmqtt.Engine.Inbound.{mqtt5}
use pgmqtt.Engine.PacketId as PacketId
use pgmqtt.Engine.PacketId.{Allocator, alloc_packet_id}
use pgmqtt.Engine.Outbound.{Conn, World, Publish, publish, seed_of, probe_of}
use pgmqtt.Engine.Outbound.Deliver.{expired, expiry_of}
use pgmqtt.Engine.Subscribe.{Dispatch, null_int}

-- The connection with its tables, and the sequences of messages and deliveries.
pub record Station : Type 0 where
  pub conn : Conn
  pub next_message : ℕ
  pub next_delivery : ℕ

-- What sending one retained message meets: the transaction that stores it, and the world after it.
pub record Passage : Type 0 where
  pub persist_fails : Bool
  pub world : World

pub data Sent : Type 0 where
  replayed persist_failed alloc_failed number_failed row_missing write_failed : Sent

-- mqtt_topic_match($1, topic) AND (expires_at IS NULL OR expires_at > now())
abbrev pub is_due : ℕ → Bytes → Retained → Bool
is_due now filter r = topic_match filter r.topic && not (expired now r.expires_at)

abbrev pub effective_qos : Dispatch → Retained → ℕ
effective_qos d r = min r.qos d.qos

abbrev pub ids_of_dispatch : Option ℕ → List ℕ
ids_of_dispatch none = []
ids_of_dispatch (some n) = n ∷ []

abbrev pub retained_packet : World → Dispatch → Retained → Conn → Publish
retained_packet w d r c = record {
  topic = r.topic;
  payload = r.payload;
  qos = effective_qos d r;
  dup = false;
  retain = true;
  properties = r.properties;
  expiry = expiry_of w c r.expires_at;
  subscription_ids =
      if c.protocol == mqtt5 then ids_of_dispatch (null_int d.subscription_id) else [];
  alias = none;
  packet_id = 0;
}

-- persistRetainedDispatch: a message and a queued delivery for this client.
abbrev pub persist : Dispatch → Retained → Station → Station
persist d r st = record {
  conn = record st.conn {
    messages =
        st.conn.messages
        ++ record {
          id = st.next_message;
          topic = r.topic;
          payload = r.payload;
          qos = effective_qos d r;
          retain = true;
          properties = r.properties;
          publisher = none;
          expires_at = none;
        }
          ∷ [];
    rows =
        st.conn.rows
        ++ record {
          id = st.next_delivery;
          client = st.conn.client;
          message = st.next_message;
          qos = effective_qos d r;
          state = 0;
          packet_id = none;
        }
          ∷ [];
  };
  next_message = st.next_message + 1;
  next_delivery = st.next_delivery + 1;
}

-- client_id=$2 AND message_id=$3 AND state=0
abbrev pub waits_for : Bytes → ℕ → Delivery → Bool
waits_for client message d = same d.client client && d.message == message && d.state == 0

abbrev pub number_row : Bytes → ℕ → ℕ → Delivery → Delivery
number_row client message pid d =
    if waits_for client message d then record d { packet_id = some pid; state = 1 } else d

abbrev pub write_retained : World → Publish → Station → Station × Sent
write_retained w pk st =
    if w.write_fails
    then (st, write_failed)
    else (record st { conn = record st.conn { wire = st.conn.wire ++ publish pk ∷ [] } }, replayed)

-- allocPacketID, whose UPDATE numbers the row of the message
abbrev pub numbering : World → ℕ → Publish → Station → PacketId.Result ℕ → Station × Sent
numbering w message pk st (PacketId.err e) = (st, alloc_failed)
numbering w message pk st (PacketId.ok pid) =
    if w.update_fails
    then (st, number_failed)
    else if any (waits_for st.conn.client message) st.conn.rows
    then write_retained w (record pk { packet_id = pid })
        (record st {
          conn = record st.conn { rows = map (number_row st.conn.client message pid) st.conn.rows };
        })
    else (st, row_missing)

abbrev pub allocating : World → ℕ → Publish → Station → Station × Sent
allocating w message pk st =
    let (a, r) = alloc_packet_id (seed_of w st.conn) (probe_of w st.conn) st.conn.allocator in
    numbering w message pk (record st { conn = record st.conn { allocator = a } }) r

-- One round of the loop: no slot of the window is taken.
unfoldable pub send_retained : Passage → Dispatch → Retained → Station → Station × Sent
send_retained p d r st =
    let pk = retained_packet p.world d r st.conn in
    if ltb 0 (effective_qos d r)
    then (if p.persist_fails
        then (st, persist_failed)
        else allocating p.world st.next_message pk (persist d r st))
    else write_retained p.world pk st

abbrev pub is_replayed : Sent → Bool
is_replayed replayed = true
is_replayed persist_failed = false
is_replayed alloc_failed = false
is_replayed number_failed = false
is_replayed row_missing = false
is_replayed write_failed = false

unfoldable pub send_all : (Bytes → Passage) → Dispatch → List Retained → Station → Station × Bool
send_all at d [] st = (st, true)
send_all at d (r ∷ rs) st =
    let (st', s) = send_retained (at r.topic) d r st in
    let rest = send_all at d rs st' in if is_replayed s then rest else (st', false)

-- dispatchRetainedForFilter
unfoldable pub dispatch_retained :
    Bool → ℕ → (Bytes → Passage) → Dispatch → List Retained → Station → Station × Bool
unfolding send_all
dispatch_retained query_fails now at d table st =
    if query_fails then (st, false) else send_all at d (keep (is_due now d.filter) table) st

-- What a dispatch meets; they are numbering by how many remain.
pub record Meets : Type 0 where
  pub query_fails : Bool
  pub now : ℕ
  pub at : Bytes → Passage

-- The loop after SUBACK: a dispatch that fails is counted, and the next one is made.
unfoldable pub dispatch_all : (ℕ → Meets) → List Retained → List Dispatch → Station → Station × ℕ
unfolding dispatch_retained
dispatch_all meets table [] st = (st, 0)
dispatch_all meets table (d ∷ ds) st =
    let m = meets (length ds) in
    let (st', sent) = dispatch_retained m.query_fails m.now m.at d table st in
    let (after, failed) = dispatch_all meets table ds st' in
    (after, if sent then failed else failed + 1)
