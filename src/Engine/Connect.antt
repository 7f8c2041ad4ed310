-- ===== src/Engine/Connect.antt =====
-- `handleConnect`, `writeConnackReject` and `dropConnectOnInfraError` of internal/engine/connect.go and
-- `Authenticate` of internal/engine/auth.go. The check of the packet by the codec (`ConnectValidate`) and bcrypt
-- are parameters.
pub mod Handshake
pub mod Admitted
pub mod Refused
pub mod Entered
pub mod Stranded
use pgmqtt.Prelude.{
  ℕ, ◌%◌, min, Bool, true, false, not, ◌&&◌, ◌||◌, Option, none, some, List, [], ◌∷◌, ◌++◌, Bytes,
  same, keep, is_empty, length, ltb, leb, ◌==◌, if◌then◌else◌,
}
use pgmqtt.Wire.Properties.{Outcome, connect_maximum_packet_size}
use pgmqtt.Wire.Properties as Properties
use pgmqtt.Engine.Db.{Db, Will, Session}
use pgmqtt.Engine.Inbound.{mqtt5}
use pgmqtt.Engine.PacketId.{fresh}
use pgmqtt.Engine.Registry.{Registry, register_conn, unregister_conn_if_same}
use pgmqtt.Engine.Session.{Life, mqtt311, Owner, take_ownership, update_sessions}
use pgmqtt.Engine.Outbound.{Window, Conn, World, Sent}
use pgmqtt.Engine.Outbound.Drain.{drain_session_queue}

-- A CONNECT. `valid` is what ConnectValidate says, a property is `none` if it is absent, a username that is absent
-- is empty, and `body` is the raw body that the reader kept.
pub record Connect : Type 0 where
  pub valid : Bool
  pub version : ℕ
  pub client : Bytes
  pub clean : Bool
  pub keepalive : ℕ
  pub username : Bytes
  pub password : Bytes
  pub will : Option Will
  pub will_delay : ℕ
  pub session_expiry : Option ℕ
  pub auth_method : Bytes
  pub receive_maximum : ℕ
  pub maximum_packet : ℕ
  pub alias_maximum : ℕ
  pub body : Bytes

-- The server's policy. Durations are in seconds, and a maximum packet size of 0 is no limit.
pub record Policy : Type 0 where
  pub self : ℕ
  pub allow_anonymous : Bool
  pub max_keepalive : ℕ
  pub max_packet : ℕ
  pub receive_maximum : ℕ

-- SELECT password_hash FROM users WHERE username=$1
pub data UserRow : Type 0 where
  query_failed no_rows : UserRow
  hash : Bytes → UserRow

pub data Login : Type 0 where
  granted denied unknown : Login

-- Compares a hash with a password: bcrypt.
abbrev pub Compare : Type 0
Compare = Bytes → Bytes → Bool

abbrev pub login_of : Compare → Bytes → UserRow → Login
login_of compares password query_failed = unknown
login_of compares password no_rows = denied
login_of compares password (hash h) = if compares h password then granted else denied

abbrev pub authenticate : Compare → (Bytes → UserRow) → Bytes → Bytes → Login
authenticate compares users username password =
    if is_empty username then denied else login_of compares password (users username)

-- Why a CONNECT is not accepted: an invalid packet, a reason code, bad credentials, or Postgres.
pub data Refusal : Type 0 where
  malformed infra bad_login : Refusal
  reason : ℕ → Refusal

pub data Checked {ℓ} (A : Type ℓ) : Type ℓ where
  pass : A → Checked A
  refuse : Refusal → Checked A

infixl 5 ◌>>=◌ ◌>>◌
abbrev pub ◌>>=◌ {ℓ κ} : {A : Type ℓ} {B : Type κ} → Checked A → (A → Checked B) → Checked B
pass a >>= f = f a
refuse r >>= f = refuse r

abbrev pub ◌>>◌ {ℓ} : {B : Type ℓ} → Checked (Unit {0}) → Checked B → Checked B
m >> k = m >>= λ _. k

abbrev pub guard : Bool → Refusal → Checked (Unit {0})
guard true r = pass tt
guard false r = refuse r

abbrev pub is_version : ℕ → Bool
is_version v = v == mqtt311 || v == mqtt5

abbrev pub is_nonzero : Option ℕ → Bool
is_nonzero none = false
is_nonzero (some n) = not (n == 0)

-- An empty client id is allowed only for a session that ends with the connection; one is made up for it.
abbrev pub may_assign : Connect → Bool
may_assign pk = pk.clean && not (pk.version == mqtt5 && is_nonzero pk.session_expiry)

abbrev pub client_of : Bytes → Connect → Checked Bytes
client_of made_up pk =
    if is_empty pk.client
    then (if may_assign pk then pass made_up else refuse (reason 0x85))
    else pass pk.client

abbrev pub logged_in : Login → Checked (Unit {0})
logged_in granted = pass tt
logged_in denied = refuse bad_login
logged_in unknown = refuse infra

abbrev pub login : Policy → Compare → (Bytes → UserRow) → Connect → Checked (Unit {0})
login p compares users pk =
    if not (is_empty pk.username) || not p.allow_anonymous
    then logged_in (authenticate compares users pk.username pk.password)
    else pass tt

-- A present Maximum Packet Size of 0 is a protocol error.
abbrev pub present_size : Outcome → Checked (Unit {0})
present_size (Properties.present n) = guard (not (n == 0)) (reason 0x95)
present_size Properties.absent = pass tt
present_size (Properties.failed e) = refuse (reason 0x80)
present_size Properties.panic = refuse (reason 0x80)
present_size Properties.out_of_fuel = refuse (reason 0x80)

abbrev pub sizes : Connect → Checked (Unit {0})
sizes pk =
    if pk.version == mqtt5 then present_size (connect_maximum_packet_size pk.body) else pass tt

-- The client id, once every check has passed, in the order of the code.
unfoldable pub checks : Policy → Compare → (Bytes → UserRow) → Bytes → Connect → Checked Bytes
checks p compares users made_up pk = do
  guard pk.valid malformed
  guard (is_version pk.version) (reason 0x84)
  client ← client_of made_up pk
  guard (leb (length client) 256) (reason 0x85)
  guard (not (pk.version == mqtt5 && not (is_empty pk.auth_method))) (reason 0x8C)
  login p compares users pk
  sizes pk
  pass client

-- The keepalive of the connection, and whether the client's was overridden.
abbrev pub keepalive_of : Policy → Connect → ℕ × Bool
keepalive_of p pk =
    let asked = if pk.keepalive == 0 then 60 else pk.keepalive in
    (min asked p.max_keepalive, pk.keepalive == 0 || ltb p.max_keepalive asked)

-- The will's properties and delay are read for MQTT 5 alone.
abbrev pub captured_will : Connect → Option Will → Option Will
captured_will pk none = none
captured_will pk (some w) = some (if pk.version == mqtt5 then w else record w { properties = none })

abbrev pub captured_delay : Connect → Option Will → Option ℕ
captured_delay pk none = none
captured_delay pk (some w) = if pk.version == mqtt5 then some pk.will_delay else none

abbrev pub life_of : Connect → Bytes → Life
life_of pk client = record {
  client = client;
  token = 0;
  protocol = pk.version;
  clean_start = pk.clean;
  will = captured_will pk pk.will;
  will_delay = captured_delay pk pk.will;
  expiry = if pk.version == mqtt5 then pk.session_expiry else none;
  taken_over = false;
  closing = false;
  graceful = false;
}

abbrev pub max_concurrent_inflight : ℕ
max_concurrent_inflight = 1024

-- The client's Receive Maximum, 65535 if it is absent, and no more slots than the server's bound.
abbrev pub window_of : Connect → Window
window_of pk =
    let asked = if pk.version == mqtt5 then pk.receive_maximum else 0 in
    record {
      capacity = min (if asked == 0 then 65535 else asked) max_concurrent_inflight;
      used = 0;
    }

-- The sending side of the connection, over the tables as they are now.
abbrev pub open_conn : Connect → Bytes → Db → Conn
open_conn pk client db = record {
  protocol = pk.version;
  client = client;
  window = some (window_of pk);
  kick = false;
  aliases = record {
    maximum = if pk.version == mqtt5 then pk.alias_maximum else 0;
    next = 0;
    table = [];
  };
  max_packet = if pk.version == mqtt5 then pk.maximum_packet else 0;
  allocator = fresh;
  rows = db.deliveries;
  messages = db.messages;
  subscriptions = db.subscriptions;
  wire = [];
}
