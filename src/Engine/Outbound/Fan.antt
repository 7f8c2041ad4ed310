-- ===== src/Engine/Outbound/Fan.antt =====
-- `Deliver` of internal/engine/deliver.go: what a broker does when it hears of a message.
pub mod Framed
pub mod Isolated
use pgmqtt.Prelude.{
  ℕ, Bool, true, false, not, ◌&&◌, Option, none, some, List, [], ◌∷◌, Bytes, same, keep, any, ◌==◌,
  if◌then◌else◌,
}
use pgmqtt.Wire.Topic.Matching.{topic_match}
use pgmqtt.Engine.Db.{Db, Session, Subscription, Message, Delivery}
use pgmqtt.Engine.Outbound.{Conn, Item, World, Sending}
use pgmqtt.Engine.Outbound.Deliver.{expired, deliver_one}
use pgmqtt.Engine.Outbound.Drain.{find_message, ids_of}

abbrev pub matched_by : Bytes → Bytes → List Subscription → List Subscription
matched_by client topic = keep (λ s. same s.client client && topic_match s.filter topic)

-- A row of the scan, and its client.
abbrev pub fanned : List Subscription → Delivery → Message → Bytes × Item
fanned subs d m = (
  d.client,
  record {
    id = d.id;
    qos = d.qos;
    state = d.state;
    packet_id = d.packet_id;
    topic = m.topic;
    payload = m.payload;
    properties = m.properties;
    expires_at = m.expires_at;
    subscription_ids = ids_of (matched_by d.client m.topic subs);
    retain = any (λ s. s.retain_as_published) (matched_by d.client m.topic subs) && m.retain;
    dup = false;
  },
)

abbrev pub is_owner : ℕ → Option ℕ → Bool
is_owner self none = false
is_owner self (some b) = b == self

-- s.broker_id = $2, for the session of the delivery
abbrev pub is_mine : ℕ → Bytes → List Session → Bool
is_mine self client = any (λ s. same s.client client && is_owner self s.broker)

unfoldable pub scan : ℕ → Db → Message → List Delivery → List (Bytes × Item)
scan self db m [] = []
scan self db m (d ∷ ds) =
    let rest = scan self db m ds in
    if d.message == m.id && d.state == 0 && is_mine self d.client db.sessions
    then fanned db.subscriptions d m ∷ rest
    else rest

abbrev pub scan_message : ℕ → ℕ → Db → Option Message → List (Bytes × Item)
scan_message now self db none = []
scan_message now self db (some m) =
    if expired now m.expires_at then [] else scan self db m db.deliveries

-- The connections of a broker, and the table of deliveries, of which each is given a view.
pub record Fleet : Type 0 where
  pub rows : List Delivery
  pub conns : List Conn

abbrev pub find_conn : Bytes → List Conn → Option Conn
find_conn client [] = none
find_conn client (c ∷ cs) = if same c.client client then some c else find_conn client cs

abbrev pub put_conn : Conn → List Conn → List Conn
put_conn c [] = []
put_conn c (x ∷ xs) = if same x.client c.client then c ∷ xs else x ∷ put_conn c xs

abbrev pub returned : Fleet → Conn → Fleet
returned s c = record { rows = c.rows; conns = put_conn c s.conns }

abbrev pub deliver_to : World → Item → Fleet → Option Conn → Fleet
deliver_to w i s none = s
deliver_to w i s (some c) =
    returned s (deliver_one (record w { online = true }) i (record c { rows = s.rows })).0

-- One item after the other, whatever becomes of each.
unfoldable pub deliver_each : (ℕ → World) → List (Bytes × Item) → Fleet → Fleet
unfolding deliver_one
deliver_each at [] s = s
deliver_each at ((client, i) ∷ is) s =
    deliver_each at is (deliver_to (at i.id) i s (find_conn client s.conns))

-- Deliver; a scan that fails is an error
unfoldable pub deliver : Bool → ℕ → ℕ → (ℕ → World) → Db → ℕ → List Conn → Fleet × Bool
unfolding scan deliver_each
deliver fails now self at db id conns =
    let s : Fleet = record { rows = db.deliveries; conns = conns } in
    if fails
    then (s, true)
    else (deliver_each at (scan_message now self db (find_message id db.messages)) s, false)
