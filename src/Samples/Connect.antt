-- ===== src/Samples/Connect.antt =====
-- The theorems on the handshake at concrete inputs.
use pgmqtt.Prelude.{
  Bool, Option, ◌≡◌, ◌↔◌, refl, true, false, none, some, List, [], ◌∷◌, ◌++◌, arith, Bytes, codes,
  any, inl, inr,
}
use pgmqtt.Engine.Db.{Session}
use pgmqtt.Engine.Registry.{conn_for}
use pgmqtt.Engine.Session.{Life}
use pgmqtt.Engine.Outbound.{Conn, World}
use pgmqtt.Engine.Connect.{Connect, Policy, UserRow, hash, query_failed, Compare, pass, checks}
use pgmqtt.Engine.Connect.Handshake.{
  Effect, Offer, connack, unanswered, accepted, Broker, ConnectFaults, Setting, close_unaccepted,
  handle_connect,
}
use pgmqtt.Engine.Connect.Admitted.{IsAdmissible, checks_iff}
use pgmqtt.Engine.Connect.Entered.{IsEntered, HasSession, is_live, handle_connect-enters}
use pgmqtt.Engine.Connect.Stranded.{handle_connect-strands}

abbrev sensor : Bytes
sensor = codes "sensor"

-- A password is stored as it is.
abbrev plainly : Compare
plainly h password = true

abbrev users : Bytes → UserRow
users name = hash (codes "hash")

abbrev policy : Policy
policy = record {
  self = 2;
  allow_anonymous = false;
  max_keepalive = 60;
  max_packet = 0;
  receive_maximum = 100;
}

abbrev hello : Connect
hello = record {
  valid = true;
  version = 4;
  client = sensor;
  clean = false;
  keepalive = 30;
  username = codes "ann";
  password = codes "pw";
  will = none;
  will_delay = 0;
  session_expiry = none;
  auth_method = [];
  receive_maximum = 0;
  maximum_packet = 0;
  alias_maximum = 0;
  body = [];
}

abbrev fine : World
fine = record {
  online = true;
  now = 0;
  later = 0;
  size = λ p. none;
  seed_fails = false;
  probe_fails = λ t. false;
  delete_fails = false;
  update_fails = false;
  write_fails = false;
}

abbrev setting : Setting
setting = record { made_up = codes "auto-1"; token = 8; conn = 5; now = 0; worlds = λ n. fine }

abbrev faults : ConnectFaults
faults = record { ownership = false; cleanup = false; connack = true; queue = false }

abbrev row : Session
row = record {
  client = sensor;
  broker = some 1;
  connected = true;
  token = 7;
  protocol = 4;
  clean_start = false;
  expiry_interval = none;
  will = none;
  will_delay = none;
  will_fire_at = none;
  expires_at = none;
}

abbrev broker : Broker
broker = record {
  db = record {
    sessions = row ∷ [];
    subscriptions = [];
    messages = [];
    deliveries = [];
    inbound_qos2 = [];
    retained = [];
    next_message = 1;
    next_delivery = 1;
  };
  registry = [];
  events = [];
}

hello-IsAdmissible : IsAdmissible policy plainly users (codes "auto-1") hello sensor
hello-IsAdmissible = record {
  valid = refl;
  version = inl refl;
  named = inl (λ e. cc e, refl);
  short = omega arith;
  plain = λ e. refl;
  known = inr (λ e. cc e, (codes "hash", refl, refl));
  sized = λ e. absurd (omega (arith, e));
}

checks_example :
    (checks policy plainly users (codes "auto-1") hello ≡ pass sensor)
    ↔ IsAdmissible policy plainly users (codes "auto-1") hello sensor
checks_example = checks_iff policy plainly users (codes "auto-1") hello sensor

hello-passes : checks policy plainly users (codes "auto-1") hello ≡ pass sensor
hello-passes = (checks_iff policy plainly users (codes "auto-1") hello sensor).1 hello-IsAdmissible

strands_example :
    (conn_for sensor
        (close_unaccepted sensor setting
          (handle_connect policy plainly users setting faults hello broker)).0.registry
      ≡ none)
    × (any
          (is_live sensor 2 8)
          (close_unaccepted sensor setting
            (handle_connect policy plainly users setting faults hello broker)).0.db.sessions
        ≡ true)
strands_example =
    handle_connect-strands policy plainly users setting faults hello broker sensor hello-passes
      (λ e. cc e) refl refl refl

-- The query of the user fails.
abbrev away : Bytes → UserRow
away name = query_failed

-- A clean start of a client that has a session with a subscription and a delivery.
abbrev again : Connect
again = record hello { clean = true }

abbrev sound : ConnectFaults
sound = record { ownership = false; cleanup = false; connack = false; queue = false }

abbrev used : Broker
used = record broker {
  db = record broker.db {
    subscriptions =
        record {
          client = sensor;
          filter = codes "t";
          qos = 1;
          no_local = false;
          retain_as_published = false;
          retain_handling = 0;
          subscription_id = none;
        }
        ∷ [];
    deliveries =
        record { id = 1; client = sensor; message = 1; qos = 1; state = 0; packet_id = none } ∷ [];
    inbound_qos2 = (sensor, 4) ∷ [];
  };
}

again-IsAdmissible : IsAdmissible policy plainly users (codes "auto-1") again sensor
again-IsAdmissible = record {
  valid = refl;
  version = inl refl;
  named = inl (λ e. cc e, refl);
  short = omega arith;
  plain = λ e. refl;
  known = inr (λ e. cc e, (codes "hash", refl, refl));
  sized = λ e. absurd (omega (arith, e));
}

enters_example :
    let x = handle_connect policy plainly users setting sound again used in
    IsEntered policy setting again sensor used x.0
    × (sound.connack ≡ true → x.1 ≡ unanswered)
    × (sound.connack ≡ false
        → (l : Life) × (c : Conn) × (es : List Effect) × (present : Bool) × (o : Option Offer)
          × (x.1 ≡ accepted l c)
          × (x.0.events ≡ es ++ connack present o ∷ [])
          × ((present ≡ true) ↔ ((again.clean ≡ false) × HasSession sensor used.db.sessions)))
enters_example =
    handle_connect-enters policy plainly users setting sound again used sensor
      ((checks_iff policy plainly users (codes "auto-1") again sensor).1 again-IsAdmissible) refl
      refl
