-- ===== src/Samples/Session.antt =====
-- The theorems on sessions at concrete inputs.
use pgmqtt.Prelude.{ℕ, ◌≡◌, refl, true, false, none, some, [], ◌∷◌, arith, Bytes, codes, any}
use pgmqtt.Engine.Db.{Db, Will, Session}
use pgmqtt.Engine.Publish.{Env}
use pgmqtt.Engine.Session.{
  Life, Faults, at, will_timing, take_ownership, handle_disconnect, attest_owned_sessions,
}
use pgmqtt.Engine.Session.Superseded.{OnlyAdds, is_row, take_ownership-protects}

abbrev sensor : Bytes
sensor = codes "sensor"

abbrev gone : Will
gone = record {
  topic = codes "state";
  payload = codes "off";
  qos = 1;
  retain = true;
  properties = none;
}

abbrev roaming : ℕ → Life
roaming token = record {
  client = sensor;
  token = token;
  protocol = 5;
  clean_start = false;
  will = some gone;
  will_delay = some 60;
  expiry = some 30;
  taken_over = false;
  closing = false;
  graceful = false;
}

abbrev row : Session
row = record {
  client = sensor;
  broker = some 1;
  connected = true;
  token = 7;
  protocol = 5;
  clean_start = false;
  expiry_interval = some 30;
  will = some gone;
  will_delay = some 60;
  will_fire_at = none;
  expires_at = none;
}

abbrev tables : Db
tables = record {
  sessions = row ∷ [];
  subscriptions = [];
  messages = [];
  deliveries = [];
  inbound_qos2 = [];
  retained = [];
  next_message = 1;
  next_delivery = 1;
}

abbrev clock : Env
clock = record { now = 100; expiry_of = λ p. 0; max_queued = 5 }

abbrev no_faults : Faults
no_faults = record { will = none; deletion = false; update = false }

protects_example :
    (any (is_row sensor 2 8) (take_ownership false 2 8 (roaming 0) tables).0.sessions ≡ true)
    × OnlyAdds (take_ownership false 2 8 (roaming 0) tables).0 (
        handle_disconnect clock no_faults 100
          (roaming 7)
          (take_ownership false 2 8 (roaming 0) tables).0)
    × ((attest_owned_sessions false 1
          (roaming 7 ∷ [])
          (take_ownership false 2 8 (roaming 0) tables).0).sessions
        ≡ (take_ownership false 2 8 (roaming 0) tables).0.sessions)
protects_example =
    take_ownership-protects clock no_faults 2 1 8 100 (roaming 0) (roaming 7) tables refl
      (λ e. omega (arith, e))

clamped : will_timing 100 (roaming 7) ≡ at 130
unfolding will_timing
clamped = refl

abbrev normal : ℕ
normal = 0

abbrev thirty : ℕ
thirty = 30
