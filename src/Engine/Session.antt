-- ===== src/Engine/Session.antt =====
-- The life of a session: `takeOwnership` of internal/engine/connect.go, `handleDisconnect` and
-- `handleGracefulDisconnect` of internal/engine/conn.go, `AttestOwnedSessions` of internal/engine/engine.go, and
-- `fireWill` of internal/engine/will.go.
pub mod Wills
pub mod Superseded
use pgmqtt.Prelude.{
  ℕ, ◌+◌, ◌*◌, min, Bool, true, false, not, ◌&&◌, ◌||◌, Option, none, some, List, [], ◌∷◌, ◌++◌,
  map, Bytes, same, keep, any, is_empty, ltb, ◌==◌, if◌then◌else◌,
}
use pgmqtt.Engine.Db.{Db, Will, Session, Delivery}
use pgmqtt.Engine.Publish.{
  Env, Request, Published, Outcome, done, duplicate, failed, Stage, publish_core,
}
use pgmqtt.Engine.Inbound.{mqtt5}

-- What a connection knows of its session. `expiry` is `none` if the property was absent.
pub record Life : Type 0 where
  pub client : Bytes
  pub token : ℕ
  pub protocol : ℕ
  pub clean_start : Bool
  pub will : Option Will
  pub will_delay : Option ℕ
  pub expiry : Option ℕ
  pub taken_over : Bool
  pub closing : Bool
  pub graceful : Bool

abbrev pub mqtt311 : ℕ
mqtt311 = 4

abbrev pub max_uint32 : ℕ
max_uint32 = 4294967295

abbrev pub max_int32 : ℕ
max_int32 = 2147483647

abbrev pub clamp_to_int32 : ℕ → ℕ
clamp_to_int32 v = if ltb max_int32 v then max_int32 else v

abbrev pub or_zero : Option ℕ → ℕ
or_zero none = 0
or_zero (some n) = n

-- defaultExpiryFor
abbrev pub default_expiry : Life → Option ℕ
default_expiry l =
    if l.protocol == mqtt5
    then some (clamp_to_int32 (or_zero l.expiry))
    else if l.clean_start
    then some 0
    else none

abbrev pub is_will : Option Will → Bool
is_will none = false
is_will (some w) = true

-- willDelaySeconds
abbrev pub delay_column : Life → Option ℕ
delay_column l =
    if l.protocol == mqtt5 && is_will l.will
    then some (clamp_to_int32 (or_zero l.will_delay))
    else none

abbrev pub find_session : Bytes → List Session → Option Session
find_session client [] = none
find_session client (s ∷ ss) = if same s.client client then some s else find_session client ss

-- What the UPDATE of takeOwnership sets.
abbrev pub owned : ℕ → ℕ → Life → Session → Session
owned self token l s = record s {
  broker = some self;
  connected = true;
  token = token;
  protocol = l.protocol;
  clean_start = l.clean_start;
  expiry_interval = default_expiry l;
  will = l.will;
  will_delay = delay_column l;
}

abbrev pub new_session : ℕ → ℕ → Life → Session
new_session self token l = owned self token l (record {
  client = l.client;
  broker = none;
  connected = true;
  token = token;
  protocol = 0;
  clean_start = false;
  expiry_interval = none;
  will = none;
  will_delay = none;
  will_fire_at = none;
  expires_at = none;
})

abbrev pub update_sessions : (Session → Bool) → (Session → Session) → Db → Db
update_sessions p f db = record db { sessions = map (λ s. if p s then f s else s) db.sessions }

-- Previous broker, previous token, and whether the session is new.
abbrev pub Owner : Type 0
Owner = Option ℕ × Option ℕ × Bool

abbrev pub take_row : ℕ → ℕ → Life → Db → Option Session → Db × Owner
take_row self token l db none =
    (record db { sessions = db.sessions ++ new_session self token l ∷ [] }, (none, none, true))
take_row self token l db (some s) = (
  update_sessions (λ r. same r.client l.client) (owned self token l) db,
  (s.broker, some s.token, false),
)

-- takeOwnership, where `token` is what gen_random_uuid() yields. A failure of any statement rolls back.
unfoldable pub take_ownership : Bool → ℕ → ℕ → Life → Db → Db × Life × Option Owner
take_ownership fails self token l db = if fails then (db, l, none) else (
  (take_row self token l db (find_session l.client db.sessions)).0,
  record l { token = token },
  some (take_row self token l db (find_session l.client db.sessions)).1,
)

-- When the will is to be published; times are in seconds.
pub data Timing : Type 0 where
  no_will now : Timing
  at : ℕ → Timing

abbrev pub delayed : ℕ → ℕ → Timing
delayed clock delay = if delay == 0 then now else at (clock + delay)

unfoldable pub will_timing : ℕ → Life → Timing
will_timing clock l =
    if is_will l.will && not l.taken_over
    then (if l.protocol == mqtt5
        then delayed clock (min (or_zero l.will_delay) (or_zero l.expiry))
        else now)
    else no_will

-- What becomes of the session: it is deleted, or kept until a time or for ever.
pub data Lifetime : Type 0 where
  deleted : Lifetime
  kept : Option ℕ → Lifetime

unfoldable pub lifetime : ℕ → Life → Lifetime
lifetime clock l =
    if l.protocol == mqtt311
    then (if l.clean_start then deleted else kept none)
    else if l.protocol == mqtt5
    then (if or_zero l.expiry == 0
        then deleted
        else if or_zero l.expiry == max_uint32
        then kept none
        else kept (some (clock + or_zero l.expiry)))
    else kept none

-- What fails: a statement of the will's transaction, one of the deletion, and the UPDATE.
pub record Faults : Type 0 where
  pub will : Option Stage
  pub deletion : Bool
  pub update : Bool

abbrev pub will_request : Will → Request
will_request w = record {
  topic = w.topic;
  payload = w.payload;
  qos = w.qos;
  retain = w.retain;
  properties = w.properties;
  publisher = [];
  dedup_key = none;
}

abbrev pub is_done : Outcome → Bool
is_done (done r) = true
is_done duplicate = false
is_done (failed s) = false

-- fireWill, and whether the will was published
abbrev pub fire_will : Env → Option Stage → Option Will → Db → Db × Bool
fire_will env fault none db = (db, true)
fire_will env fault (some w) db =
    let (db', out) = publish_core env fault (will_request w) db in (db', is_done out)

abbrev pub fire_now : Env → Option Stage → Timing → Option Will → Db → Db × Bool
fire_now env fault now w db = fire_will env fault w db
fire_now env fault no_will w db = (db, false)
fire_now env fault (at t) w db = (db, false)

abbrev pub fire_time : Timing → Option ℕ
fire_time now = none
fire_time no_will = none
fire_time (at t) = some t

-- client_id=$1 AND session_token=$2
abbrev pub is_own : Life → Session → Bool
is_own l s = same s.client l.client && s.token == l.token

-- The transaction of a clean session: nothing unless the row still has the token of this connection. The foreign
-- keys of subscriptions and inbound_qos2 cascade.
abbrev pub delete_session : Life → Db → Db
delete_session l db =
    if any (is_own l) db.sessions
    then record db {
      sessions = keep (λ s. not (is_own l s)) db.sessions;
      subscriptions = keep (λ s. not (same s.client l.client)) db.subscriptions;
      deliveries = keep (λ d. not (same d.client l.client)) db.deliveries;
      inbound_qos2 = keep (λ r. not (same r.0 l.client)) db.inbound_qos2;
    }
    else db

abbrev pub released : Timing → Option ℕ → Bool → Session → Session
released t until fired s = record s {
  broker = none;
  connected = false;
  will_fire_at = fire_time t;
  expires_at = until;
  will = if fired then none else s.will;
  will_delay = if fired then none else s.will_delay;
}

abbrev pub end_session : Faults → Life → Timing → Bool → Lifetime → Db → Db
end_session f l t fired deleted db = if f.deletion then db else delete_session l db
end_session f l t fired (kept until) db =
    if f.update then db else update_sessions (is_own l) (released t until fired) db

-- handleDisconnect
unfoldable pub handle_disconnect : Env → Faults → ℕ → Life → Db → Db
handle_disconnect env f clock l db =
    if l.closing || is_empty l.client
    then db
    else let fired = fire_now env f.will (will_timing clock l) l.will db in
      end_session f l (will_timing clock l) fired.1 (lifetime clock l) fired.0

-- The new expiry, and whether the connection is told of a protocol error (DISCONNECT 0x82).
abbrev pub override_expiry : Life → Option ℕ → Life × Bool
override_expiry l none = (l, false)
override_expiry l (some v) =
    if not (l.protocol == mqtt5)
    then (l, false)
    else if or_zero l.expiry == 0 && not (v == 0)
    then (l, true)
    else (record l { expiry = some v }, false)

-- handleGracefulDisconnect, of a reason code and the Session Expiry Interval if it is given
unfoldable pub handle_graceful_disconnect : ℕ → Option ℕ → Life → Life × Bool
handle_graceful_disconnect reason expiry l =
    let l' = if l.protocol == mqtt5 && reason == 4 then l else record l { will = none } in
    let (l'', told) = override_expiry l' expiry in (record l'' { graceful = true }, told)

-- AttestOwnedSessions: each connection claims back the row that has its token.
abbrev pub attested : ℕ → Session → Session
attested self s = record s { broker = some self; connected = true }

unfoldable pub attest_owned_sessions : Bool → ℕ → List Life → Db → Db
attest_owned_sessions fails self conns db =
    if fails then db else update_sessions (λ s. any (λ l. is_own l s) conns) (attested self) db
