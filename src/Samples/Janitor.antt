-- ===== src/Samples/Janitor.antt =====
-- The theorems on the janitor at concrete inputs.
use pgmqtt.Prelude.{
  suc, inl, ℕ, ◌+◌, ◌≤◌, ◌≡◌, refl, Bool, true, false, none, some, List, [], ◌∷◌, ◌++◌, arith,
  Bytes, codes, any, map,
}
use pgmqtt.Engine.Db.{Db, Session, Will, Delivery}
use pgmqtt.Engine.Publish.{Env, begin}
use pgmqtt.Engine.Connect.Handshake.{clean_up}
use pgmqtt.Janitor.Schedule.{
  Job, job_find_dead_brokers, job_expire_sessions, default_interval, is_job, Timetable, should_run,
  tick, run,
}
use pgmqtt.Janitor.Schedule.Spacing.{firings, Apart, run-Apart}
use pgmqtt.Janitor.Schedule.Prompt.{tick_prompt}
use pgmqtt.Janitor.Sweeps.{expire_sessions, Ages, Graces}
use pgmqtt.Janitor.Dead.{find_dead_brokers, DeadFaults, handle_dead_broker}
use pgmqtt.Janitor.Dead.Reaped.{reap, has_owner, handle_dead_broker-reaps}
use pgmqtt.Janitor.Wills.{WillFaults, is_due_will, fire_due_wills}
use pgmqtt.Janitor.Cleared.{IsOver, rows_of, expire_sessions_exact, fire_due_wills-loses}
use pgmqtt.Janitor.Consistent.{IsConsistent, tick-IsConsistent}
use pgmqtt.Janitor.Tick.{Conditions, janitor_tick, janitor_run}
use pgmqtt.Janitor.Immortal.{Lasting}
use pgmqtt.Janitor.Kept.{janitor_run-Lasting}

-- Every job counts its runs.
abbrev counting : Job → ℕ → ℕ → ℕ × Bool
counting j now n = (suc n, false)

abbrev unstarted : Timetable
unstarted = record { interval = default_interval; last_run = λ j. none }

apart_example :
    Apart 5 none
      (firings job_find_dead_brokers (run counting (1 ∷ 2 ∷ 6 ∷ 4 ∷ 11 ∷ []) 0 unstarted).2)
apart_example =
    run-Apart counting job_find_dead_brokers (1 ∷ 2 ∷ 6 ∷ 4 ∷ 11 ∷ []) 0 unstarted (omega arith)

firings_test :
    firings job_find_dead_brokers (run counting (1 ∷ 2 ∷ 6 ∷ 4 ∷ 11 ∷ []) 0 unstarted).2
    ≡ 1 ∷ 6 ∷ 11 ∷ []
unfolding run tick
firings_test = refl

prompt_example :
    ((should_run unstarted job_find_dead_brokers 3 ≡ true
        → (counting job_find_dead_brokers 3 0).1 ≡ false)
      → (any (is_job job_expire_sessions) (tick counting 3 0 unstarted).ran
          ≡ should_run unstarted job_expire_sessions 3)
        × ((l : ℕ) × ((tick counting 3 0 unstarted).table.last_run job_expire_sessions ≡ some l)
            × (3 ≤ l + unstarted.interval job_expire_sessions)))
    × (should_run unstarted job_find_dead_brokers 3 ≡ true
        → (counting job_find_dead_brokers 3 0).1 ≡ true
        → (tick counting 3 0 unstarted).ran ≡ job_find_dead_brokers ∷ [])
prompt_example = tick_prompt counting unstarted 3 job_expire_sessions 0

abbrev sensor : Bytes
sensor = codes "sensor"

abbrev gone : Will
gone = record {
  topic = codes "state";
  payload = codes "off";
  qos = 1;
  retain = true;
  properties = none;
}

-- The session of broker 1, away since 50.
abbrev row : Session
row = record {
  client = sensor;
  broker = some 1;
  connected = false;
  token = 7;
  protocol = 5;
  clean_start = false;
  expiry_interval = some 30;
  will = some gone;
  will_delay = some 10;
  will_fire_at = some 60;
  expires_at = some 80;
}

abbrev tables : Db
tables = record {
  sessions = row ∷ [];
  subscriptions = [];
  messages = [];
  deliveries =
      record { id = 1; client = sensor; message = 1; qos = 1; state = 0; packet_id = none } ∷ [];
  inbound_qos2 = (sensor, 4) ∷ [];
  retained = [];
  next_message = 2;
  next_delivery = 2;
}

abbrev clock : Env
clock = record { now = 100; expiry_of = λ p. 0; max_queued = 5 }

abbrev works : DeadFaults
works = record { lock = false; query = false; will = λ c. none; schedule = false; clear = false }

reaps_example :
    let db' = (handle_dead_broker clock works false 1 100 tables).0 in
    (db'.sessions ≡ map (reap 1 100) tables.sessions)
    × (any (λ s. has_owner 1 s.broker) db'.sessions ≡ false)
    × ((rows : List Delivery) × (db'.deliveries ≡ tables.deliveries ++ rows))
reaps_example = handle_dead_broker-reaps clock works 1 100 tables refl refl refl refl

abbrev after_expiry : Db
after_expiry = (expire_sessions false 100 tables).0

expiry_example :
    (IsOver 100 sensor tables.sessions
      → rows_of sensor after_expiry
        ≡ record { session = none; deliveries = []; subscriptions = []; claims = [] })
    × (¬ IsOver 100 sensor tables.sessions → rows_of sensor after_expiry ≡ rows_of sensor tables)
    × (after_expiry.messages ≡ tables.messages)
    × (after_expiry.retained ≡ tables.retained)
expiry_example = expire_sessions_exact 100 tables sensor

expired_test : IsOver 100 sensor tables.sessions
expired_test = inl (refl, refl, (80, refl, omega arith))

abbrev fine : WillFaults
fine = record { query = false; will = λ c. none; clear = false; locked = λ c. false }

abbrev unpublished : WillFaults
unpublished = record fine { will = λ c. some begin }

loses_example :
    ((fire_due_wills clock unpublished 100 tables).0.messages ≡ tables.messages)
    × (any (is_due_will unpublished 100) (fire_due_wills clock unpublished 100 tables).0.sessions
        ≡ false)
loses_example = fire_due_wills-loses clock unpublished 100 tables refl refl λ c. refl

due_test : any (is_due_will unpublished 100) tables.sessions ≡ true
due_test = refl

abbrev ages : Ages
ages = record { last_seen = λ c. 50; received_at = λ c p. 40; created_at = λ m. 30 }

abbrev graces : Graces
graces = record { orphan = 600; inbound = 3600 }

abbrev conditions : ℕ → Conditions
conditions now = record {
  env = clock;
  ages = ages;
  graces = graces;
  locked = λ b. false;
  dead = λ b. works;
  wills = fine;
  fails = λ j. false;
}

-- A message whose only delivery goes with an expired session.
abbrev stale : Db
stale = record tables {
  messages =
      record {
        id = 1;
        topic = codes "t";
        payload = [];
        qos = 1;
        retain = false;
        properties = none;
        publisher = some sensor;
        expires_at = none;
      }
      ∷ [];
}

tick_example : IsConsistent ages graces 5000 (janitor_tick conditions 5000 stale unstarted).state
unfolding find_dead_brokers
tick_example =
    tick-IsConsistent conditions 5000 stale unstarted refl refl refl refl refl refl λ _. refl

dead_owner_example :
    Lasting sensor
      (janitor_run conditions (100 ∷ 9000 ∷ []) (clean_up false sensor tables) unstarted).0.sessions
dead_owner_example =
    janitor_run-Lasting sensor false conditions (100 ∷ 9000 ∷ []) tables unstarted refl
