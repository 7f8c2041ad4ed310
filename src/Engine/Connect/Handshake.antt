-- ===== src/Engine/Connect/Handshake.antt =====
-- `handleConnect` and `writeConnackReject` of internal/engine/connect.go, and what `run` of internal/engine/conn.go does after it.
use pgmqtt.Prelude.{
  ℕ, ◌%◌, Bool, true, false, not, ◌&&◌, Option, none, some, List, [], ◌∷◌, ◌++◌, Bytes, same, keep,
  is_empty, ltb, ◌==◌, if◌then◌else◌,
}
use pgmqtt.Engine.Db.{Db, Session}
use pgmqtt.Engine.Inbound.{mqtt5}
use pgmqtt.Engine.Registry.{Registry, register_conn, unregister_conn_if_same}
use pgmqtt.Engine.Session.{Life, mqtt311, Owner, take_ownership, update_sessions}
use pgmqtt.Engine.Outbound.{Conn, World}
use pgmqtt.Engine.Outbound.Drain.{drain_session_queue}
use pgmqtt.Engine.Connect.{
  Checked, Compare, Connect, Policy, Refusal, UserRow, bad_login, checks, infra, is_version,
  keepalive_of, life_of, malformed, open_conn, pass, reason, refuse,
}

-- The properties of a CONNACK of MQTT 5.
pub record Offer : Type 0 where
  pub maximum_qos : ℕ
  pub retain : Bool
  pub wildcards : Bool
  pub subscription_ids : Bool
  pub shared : Bool
  pub assigned : Option Bytes
  pub keepalive : Option ℕ
  pub receive_maximum : ℕ
  pub alias_maximum : ℕ
  pub maximum_packet : Option ℕ

-- What the handshake writes, and does elsewhere: the wire version and the code of a reject, a failure counted for
-- the address, a notice to the broker before, a connection closed as taken over, the cap of the reader, and CONNACK.
pub data Effect : Type 0 where
  reject : ℕ → ℕ → Effect
  auth_failure : Effect
  notify_takeover : ℕ → Bytes → ℕ → Effect
  close_taken_over : ℕ → Effect
  lift_cap : ℕ → Effect
  connack : Bool → Option Offer → Effect

pub record Broker : Type 0 where
  pub db : Db
  pub registry : Registry
  pub events : List Effect

abbrev pub wire_version : ℕ → ℕ
wire_version v = if is_version v then v else mqtt311

-- MQTT 3.1.1 has codes of its own.
abbrev pub wire_code : ℕ → ℕ → ℕ
wire_code v r =
    if wire_version v == mqtt5
    then r
    else if r == 0x86
    then 4
    else if r == 0x87
    then 5
    else if r == 0x84
    then 1
    else if r == 0x85
    then 2
    else 3

abbrev pub rejecting : ℕ → ℕ → Effect
rejecting v r = reject (wire_version v) (wire_code v r)

-- A failure of Postgres is answered by nothing: a CONNACK would be a verdict on the client.
abbrev pub refusing : ℕ → Refusal → List Effect
refusing v malformed = []
refusing v infra = []
refusing v bad_login = auth_failure ∷ rejecting v 0x86 ∷ []
refusing v (reason r) = rejecting v r ∷ []

pub data Reply : Type 0 where
  refused : Refusal → Reply
  unanswered : Reply
  accepted : Life → Conn → Reply

-- What fails after the checks: the takeover, the cleanup, the write of CONNACK, and the query of the queue.
pub record ConnectFaults : Type 0 where
  pub ownership : Bool
  pub cleanup : Bool
  pub connack : Bool
  pub queue : Bool

-- What the handshake meets: the id made up, the token and the number of the connection, the clock, and the world
-- of each delivery that is sent.
pub record Setting : Type 0 where
  pub made_up : Bytes
  pub token : ℕ
  pub conn : ℕ
  pub now : ℕ
  pub worlds : ℕ → World

abbrev pub or_nil : Option ℕ → ℕ
or_nil none = 0
or_nil (some t) = t

abbrev pub notices : ℕ → Bytes → Owner → List Effect
notices self client (none, token, new) = []
notices self client (some b, token, new) =
    if b == self then [] else notify_takeover b client (or_nil token) ∷ []

abbrev pub closing_prev : Option ℕ → List Effect
closing_prev none = []
closing_prev (some c) = close_taken_over c ∷ []

abbrev pub lifted : Policy → List Effect
lifted p = if ltb 0 p.max_packet then lift_cap p.max_packet ∷ [] else []

abbrev pub drop_state : Bytes → Db → Db
drop_state client db = record db {
  subscriptions = keep (λ s. not (same s.client client)) db.subscriptions;
  deliveries = keep (λ d. not (same d.client client)) db.deliveries;
  inbound_qos2 = keep (λ r. not (same r.0 client)) db.inbound_qos2;
}

abbrev pub untimed : Session → Session
untimed s = record s { will_fire_at = none; expires_at = none }

-- The cleanup's transaction.
abbrev pub clean_up : Bool → Bytes → Db → Db
clean_up clean client db =
    update_sessions (λ s. same s.client client) untimed (if clean then drop_state client db else db)

abbrev pub offer_of : Policy → Connect → Bytes → Offer
offer_of p pk client = record {
  maximum_qos = 2;
  retain = true;
  wildcards = true;
  subscription_ids = true;
  shared = false;
  assigned = if is_empty pk.client then some client else none;
  keepalive = if (keepalive_of p pk).1 then some ((keepalive_of p pk).0 % 65536) else none;
  receive_maximum = if ltb 0 p.receive_maximum then p.receive_maximum % 65536 else 100;
  alias_maximum = 0;
  maximum_packet = if ltb 0 p.max_packet then some (p.max_packet % 4294967296) else none;
}

abbrev pub connack_of : Policy → Connect → Bytes → Bool → Effect
connack_of p pk client new =
    connack (not pk.clean && not new)
      (if pk.version == mqtt5 then some (offer_of p pk client) else none)

-- The queue of a resumed session; an error ends it and is logged.
abbrev pub resume : Setting → ConnectFaults → Connect → Conn → Conn
resume s f pk c = if pk.clean then c else (drain_session_queue f.queue s.now s.worlds c).0

abbrev pub welcome :
    Policy → Setting → ConnectFaults → Connect → Bytes → Bool → Life → Broker → Broker × Reply
welcome p s f pk client new l b =
    if f.connack
    then (b, unanswered)
    else let c = resume s f pk (open_conn pk client b.db) in
      (
        record b {
          db = record b.db { deliveries = c.rows };
          events = b.events ++ connack_of p pk client new ∷ [];
        },
        accepted l c,
      )

-- From the takeover on: the notice, the registration, the cleanup and the answer.
abbrev pub enter :
    Policy → Setting → ConnectFaults → Connect → Bytes → Life → Owner → Broker → Broker × Reply
enter p s f pk client l o b =
    let (prev, registry) = register_conn client s.conn b.registry in
    let b' = record b {
      registry = registry;
      events = b.events ++ (notices p.self client o ++ closing_prev prev);
    } in
    if f.cleanup
    then (b', refused infra)
    else welcome p s f pk client o.2 l (record b' { db = clean_up pk.clean client b'.db })

abbrev pub owning :
    Policy
    → Setting
    → ConnectFaults
    → Connect
    → Bytes
    → Broker
    → Db × Life × Option Owner
    → Broker × Reply
owning p s f pk client b (db, l, none) = (b, refused infra)
owning p s f pk client b (db, l, some o) = enter p s f pk client l o (record b { db = db })

abbrev pub proceed :
    Policy → Setting → ConnectFaults → Connect → Broker → Checked Bytes → Broker × Reply
proceed p s f pk b (refuse r) = (record b { events = b.events ++ refusing pk.version r }, refused r)
proceed p s f pk b (pass client) =
    owning p s f pk client (record b { events = b.events ++ lifted p })
      (take_ownership f.ownership p.self s.token (life_of pk client) b.db)

-- handleConnect
unfoldable pub handle_connect :
    Policy
    → Compare
    → (Bytes → UserRow)
    → Setting
    → ConnectFaults
    → Connect
    → Broker
    → Broker × Reply
handle_connect p compares users s f pk b = proceed p s f pk b (checks p compares users s.made_up pk)

-- `run` closes a connection whose CONNECT is not accepted, and does not end its session (`handleDisconnect`).
abbrev pub shut_down : Bytes → ℕ → Registry → Registry
shut_down client c rs = if is_empty client then rs else unregister_conn_if_same client c rs

unfoldable pub close_unaccepted : Bytes → Setting → Broker × Reply → Broker × Reply
close_unaccepted client s (b, refused r) =
    (record b { registry = shut_down client s.conn b.registry }, refused r)
close_unaccepted client s (b, unanswered) =
    (record b { registry = shut_down client s.conn b.registry }, unanswered)
close_unaccepted client s (b, accepted l c) = (b, accepted l c)
