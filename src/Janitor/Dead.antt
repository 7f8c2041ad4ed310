-- ===== src/Janitor/Dead.antt =====
-- `findDeadBrokerCandidates` and `handleDeadBroker` of internal/janitor/janitor.go.
pub mod Reaped
use pgmqtt.Prelude.{
  ℕ, ◌+◌, min, Bool, true, false, not, ◌&&◌, ◌||◌, Option, none, some, List, [], ◌∷◌, Bytes, any,
  map, ltb, ◌==◌, if◌then◌else◌,
}
use pgmqtt.Engine.Db.{Db, Session, Will}
use pgmqtt.Engine.Publish.{Env, Stage, publish_core}
use pgmqtt.Engine.Session.{or_zero, is_will, update_sessions, fire_will}

abbrev pub owns : ℕ → Option ℕ → Bool
owns b none = false
owns b (some x) = x == b

abbrev pub is_of : ℕ → Session → Bool
is_of b s = owns b s.broker

abbrev pub add_broker : Option ℕ → List ℕ → List ℕ
add_broker none bs = bs
add_broker (some b) bs = if any (λ x. x == b) bs then bs else b ∷ bs

-- SELECT DISTINCT broker_id FROM sessions WHERE broker_id IS NOT NULL
unfoldable pub candidates : List Session → List ℕ
candidates [] = []
candidates (s ∷ ss) = add_broker s.broker (candidates ss)

-- What fails: the connection or the lock, the query of the wills, the transaction of a client's will, and the two statements.
pub record DeadFaults : Type 0 where
  pub lock : Bool
  pub query : Bool
  pub will : Bytes → Option Stage
  pub schedule : Bool
  pub clear : Bool

abbrev pub fires_now : ℕ → Session → Bool
fires_now b s = is_of b s && is_will s.will && or_zero s.will_delay == 0

-- The wills without a delay, one transaction each; a failure is logged.
unfoldable pub fire_each : Env → (Bytes → Option Stage) → (Session → Bool) → List Session → Db → Db
fire_each env at p [] db = db
fire_each env at p (s ∷ ss) db =
    fire_each env at p ss (if p s then (fire_will env (at s.client) s.will db).0 else db)

abbrev pub or_infinite : ℕ → Option ℕ → ℕ
or_infinite t none = t
or_infinite t (some u) = min t u

abbrev pub is_delayed : ℕ → Session → Bool
is_delayed b s = is_of b s && is_will s.will && ltb 0 (or_zero s.will_delay)

abbrev pub scheduled : ℕ → Session → Session
scheduled now s = record s {
  connected = false;
  broker = none;
  will_fire_at = some (or_infinite (now + or_zero s.will_delay) s.expires_at);
}

abbrev pub cleared : Session → Session
cleared s = record s { connected = false; broker = none; will = none; will_delay = none }

-- The two statements, each a transaction of its own. The result says whether the broker was claimed, and whether
-- a statement failed.
abbrev pub release_sessions : DeadFaults → ℕ → ℕ → Db → Db × Bool × Bool
release_sessions f b now db =
    if f.schedule
    then (db, true, true)
    else let db' = update_sessions (is_delayed b) (scheduled now) db in
      (if f.clear
        then (db', true, true)
        else (update_sessions (is_of b) cleared db', any (is_of b) db'.sessions, false))

-- handleDeadBroker; `locked` says that the broker, or another janitor, holds the lock of the broker
unfoldable pub handle_dead_broker : Env → DeadFaults → Bool → ℕ → ℕ → Db → Db × Bool × Bool
unfolding fire_each
handle_dead_broker env f locked b now db =
    if f.lock
    then (db, false, true)
    else if locked
    then (db, false, false)
    else if f.query
    then (db, true, true)
    else release_sessions f b now (fire_each env f.will (fires_now b) db.sessions db)

-- The part of Tick that handles the candidates, one after the other; a failure is logged.
unfoldable pub handle_each : Env → (ℕ → DeadFaults) → (ℕ → Bool) → ℕ → List ℕ → Db → Db
unfolding handle_dead_broker
handle_each env f locked now [] db = db
handle_each env f locked now (b ∷ bs) db =
    handle_each env f locked now bs (handle_dead_broker env (f b) (locked b) b now db).0

-- The first job of a tick.
unfoldable pub find_dead_brokers : Env → Bool → (ℕ → DeadFaults) → (ℕ → Bool) → ℕ → Db → Db × Bool
unfolding candidates handle_each
find_dead_brokers env fails f locked now db =
    if fails then (db, true) else (handle_each env f locked now (candidates db.sessions) db, false)
