-- ===== src/Janitor/Wills.antt =====
-- `fireDueWills` of internal/janitor/janitor.go.
use pgmqtt.Prelude.{
  ℕ, Bool, true, false, not, ◌&&◌, Option, none, List, Bytes, any, same, if◌then◌else◌,
}
use pgmqtt.Engine.Db.{Db, Session}
use pgmqtt.Engine.Publish.{Env, Stage}
use pgmqtt.Engine.Session.{is_will, update_sessions}
use pgmqtt.Janitor.Sweeps.{is_over}
use pgmqtt.Janitor.Dead.{fire_each}

-- What fails: the query, the transaction of a client's will, and the clearing or the commit; and the rows that another
-- transaction has locked.
pub record WillFaults : Type 0 where
  pub query : Bool
  pub will : Bytes → Option Stage
  pub clear : Bool
  pub locked : Bytes → Bool

-- will_fire_at <= now() AND will_topic IS NOT NULL … FOR UPDATE SKIP LOCKED
abbrev pub is_due_will : WillFaults → ℕ → Session → Bool
is_due_will f now s = is_over now s.will_fire_at && is_will s.will && not (f.locked s.client)

-- client_id = ANY(…)
abbrev pub has_due : WillFaults → ℕ → List Session → Session → Bool
has_due f now ss s = any (λ r. is_due_will f now r && same r.client s.client) ss

abbrev pub unwilled : Session → Session
unwilled s = record s { will_fire_at = none; will = none; will_delay = none }

-- The wills are published first and cleared afterwards, also those that could not be published.
unfoldable pub fire_due_wills : Env → WillFaults → ℕ → Db → Db × Bool
unfolding fire_each
fire_due_wills env f now db =
    if f.query
    then (db, true)
    else let db' = fire_each env f.will (is_due_will f now) db.sessions db in
      (if f.clear
        then (db', true)
        else (update_sessions (has_due f now db.sessions) unwilled db', false))
