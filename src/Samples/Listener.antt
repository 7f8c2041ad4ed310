-- ===== src/Samples/Listener.antt =====
-- The theorems on the connections of a broker, and on what it hears of the others, at concrete inputs.
use pgmqtt.Prelude.{
  ℕ, ◌+◌, ◌≤◌, ◌≡◌, ◌≢◌, refl, sym, ap, true, false, ◌&&◌, Option, none, some, [], ◌∷◌, Bytes,
  codes, any, same, same_iff, zero, suc, is_empty, ◌==◌, if◌then◌else◌, Bool-cases, inl, inr,
}
use pgmqtt.Engine.Db.{Db, Session, Will}
use pgmqtt.Engine.Publish.{Env}
use pgmqtt.Engine.Registry.{conn_for}
use pgmqtt.Engine.Session.{Life, Faults, is_own, handle_disconnect}
use pgmqtt.Engine.Session.Superseded.{is_row}
use pgmqtt.Engine.Shutdown.{
  Conns, close_for_takeover, with_conn, if_token, quota_exceeded_for_token, is_elsewhere,
  sweep_orphaned_sockets,
}
use pgmqtt.Engine.Shutdown.Unlinked.{IsLinked, sweep_orphaned_sockets_exact}
use pgmqtt.Engine.Shutdown.Kicked.{Kicked, quota_exceeded_for_token-strands}
use pgmqtt.Janitor.Dead.{DeadFaults}
use pgmqtt.Listener.Notices.{takeover_notice, quota_notice, dispatch_notification}
use pgmqtt.Listener.Notices.Heard.{Replaced, dispatch-notices, takeover_notice_exact}
use pgmqtt.Listener.Reconnect.{Outage, reconnect}
use pgmqtt.Listener.Run.{broken, hung_up, Host, recovered, run}
use pgmqtt.Listener.Run.Recovered.{is_ghost, waits_with, reaped_host, recovered-restores}

abbrev sensor : Bytes
sensor = codes "sensor"

abbrev gone : Will
gone = record {
  topic = codes "state";
  payload = codes "off";
  qos = 1;
  retain = true;
  properties = none;
}

abbrev roaming : Life
roaming = record {
  client = sensor;
  token = 7;
  protocol = 5;
  clean_start = false;
  will = some gone;
  will_delay = some 60;
  expiry = some 300;
  taken_over = false;
  closing = false;
  graceful = false;
}

abbrev conns : Conns
conns = record {
  registry = (sensor, 4) ∷ [];
  life = λ c. roaming;
  kicked = λ c. false;
  signals = [];
}

abbrev row : ℕ → Session
row owner = record {
  client = sensor;
  broker = some owner;
  connected = true;
  token = 7;
  protocol = 5;
  clean_start = false;
  expiry_interval = some 300;
  will = some gone;
  will_delay = some 60;
  will_fire_at = none;
  expires_at = none;
}

abbrev tables : ℕ → Db
tables owner = record {
  sessions = row owner ∷ [];
  subscriptions = [];
  messages = [];
  deliveries = [];
  inbound_qos2 = [];
  retained = [];
  next_message = 1;
  next_delivery = 1;
}

of_sensor : (client : Bytes) (c : ℕ) → conn_for client conns.registry ≡ some c → sensor ≡ client
of_sensor client c e = elim (Bool-cases (same sensor client)) [
  | inl m ↦ (same_iff sensor client).0 m
  | inr m ↦ cc (rw m at e)
]

conns-IsLinked : IsLinked conns
conns-IsLinked = record {
  named = of_sensor;
  real = λ client c e. ap (λ k. is_empty k) (sym (of_sensor client c e));
  alive = λ client c e. refl;
}

orphan_example :
    conn_for sensor (sweep_orphaned_sockets false (some 1) (tables 2) conns).registry ≡ (
      if any (λ s. is_elsewhere 1 s.broker && same s.client sensor) (tables 2).sessions
      then none
      else conn_for sensor conns.registry)
orphan_example = sweep_orphaned_sockets_exact 1 (tables 2) conns sensor conns-IsLinked

abbrev clock : Env
clock = record { now = 100; expiry_of = λ p. 0; max_queued = 5 }

abbrev no_faults : Faults
no_faults = record { will = none; deletion = false; update = false }

quota_example :
    let h' = quota_exceeded_for_token sensor 7 conns in
    Kicked conns sensor 4 h'
    × (handle_disconnect clock no_faults 100 (h'.life 4) (tables 1) ≡ tables 1)
quota_example =
    quota_exceeded_for_token-strands conns sensor 4 7 clock no_faults 100 (tables 1) conns-IsLinked
      refl refl refl

abbrev zeros : ℕ → Bytes
zeros zero = []
zeros (suc n) = 0 ∷ zeros n

-- A token as a text of 36 bytes: the token, and then zeros.
abbrev print : ℕ → Bytes
print t = t ∷ zeros 35

abbrev parse : Bytes → Option ℕ
parse [] = none
parse (t ∷ ts) = some t

notices_example :
    (dispatch_notification parse (codes "b1") (takeover_notice print (codes "b1") sensor 7) conns
      ≡ (with_conn (if_token 7 close_for_takeover) (conn_for sensor conns.registry) conns, none))
    × (dispatch_notification parse (codes "b1") (quota_notice print (codes "b1") sensor 7) conns
        ≡ (quota_exceeded_for_token sensor 7 conns, none))
notices_example = dispatch-notices print parse (λ t. refl) (λ t. refl) (codes "b1") sensor 7 conns

takeover_example :
    let h' =
      (dispatch_notification parse
        (codes "b1")
        (takeover_notice print (codes "b1") sensor 7)
        conns).0 in
    ((conns.life 4).token ≡ 7 → Replaced conns sensor 4 h')
    × ((conns.life 4).token ≢ 7 → h' ≡ conns)
takeover_example =
    takeover_notice_exact print parse (λ t. refl) (λ t. refl) (codes "b1") sensor 7 4 conns
      conns-IsLinked refl

-- The third dial succeeds, or none.
abbrev short : Outage
short = record { dials = λ n. n == 3; gone = λ n. false; stops = λ n. false }

abbrev long : Outage
long = record short { dials = λ n. false }

short_test : reconnect short ≡ (true, 1 ∷ 2 ∷ [])
unfolding reconnect
short_test = refl

long_test : reconnect long ≡ (false, 1 ∷ 2 ∷ 4 ∷ 8 ∷ [])
unfolding reconnect
long_test = refl

abbrev host : Host
host = record { self = 1; id = codes "b1"; conns = conns; db = tables 1; delivered = [] }

abbrev works : DeadFaults
works = record { lock = false; query = false; will = λ c. none; schedule = false; clear = false }

restores_example :
    let y = reaped_host clock works 100 host in
    let l = host.conns.life 4 in
    (run parse (broken short false false ∷ hung_up ∷ []) y
      ≡ run parse (hung_up ∷ []) (recovered false y))
    × (any (is_own l) host.db.sessions ≡ true
        → any (is_row l.client 1 l.token) (recovered false y).db.sessions ≡ true)
    × ((wait later : ℕ)
        → 100 + wait ≤ later
        → any (waits_with l 1 wait) host.db.sessions ≡ true
        → any (λ s. is_row l.client 1 l.token s && is_ghost later s) (recovered false y).db.sessions
          ≡ true)
unfolding reconnect
restores_example =
    recovered-restores clock works 100 host sensor 4 parse short false (hung_up ∷ []) refl refl refl
      refl refl refl

waits_test : any (waits_with roaming 1 60) (tables 1).sessions ≡ true
waits_test = refl
