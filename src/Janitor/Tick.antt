-- ===== src/Janitor/Tick.antt =====
-- `Tick` of internal/janitor/janitor.go with its jobs.
use pgmqtt.Prelude.{ℕ, Bool, List}
use pgmqtt.Engine.Db.{Db}
use pgmqtt.Engine.Publish.{Env}
use pgmqtt.Janitor.Schedule.{
  Job, job_find_dead_brokers, job_fire_due_wills, job_expire_sessions, job_expire_retained,
  job_sweep_inbound_qos2, job_sweep_orphan_deliveries, job_refresh_deliveries_gauge,
  job_refresh_state_gauges, job_sweep_orphan_messages, job_refresh_notify_queue, Timetable, Ticked,
  tick, run,
}
use pgmqtt.Janitor.Sweeps as Sweeps
use pgmqtt.Janitor.Sweeps.{Ages, Graces}
use pgmqtt.Janitor.Dead as Dead
use pgmqtt.Janitor.Dead.{DeadFaults}
use pgmqtt.Janitor.Wills as Wills
use pgmqtt.Janitor.Wills.{WillFaults}

-- What a tick meets: the ages of the rows, which brokers hold their locks, and what fails.
pub record Conditions : Type 0 where
  pub env : Env
  pub ages : Ages
  pub graces : Graces
  pub locked : ℕ → Bool
  pub dead : ℕ → DeadFaults
  pub wills : WillFaults
  pub fails : Job → Bool

-- What a job does to the tables; the gauges only read.
abbrev pub exec : (ℕ → Conditions) → Job → ℕ → Db → Db × Bool
exec at job_find_dead_brokers now db =
    Dead.find_dead_brokers (at now).env ((at now).fails job_find_dead_brokers) (at now).dead
      (at now).locked now db
exec at job_fire_due_wills now db = Wills.fire_due_wills (at now).env (at now).wills now db
exec at job_expire_sessions now db =
    Sweeps.expire_sessions ((at now).fails job_expire_sessions) now db
exec at job_expire_retained now db =
    Sweeps.expire_retained ((at now).fails job_expire_retained) now db
exec at job_sweep_inbound_qos2 now db =
    Sweeps.sweep_inbound_qos2 ((at now).fails job_sweep_inbound_qos2) (at now).ages (at now).graces
      now db
exec at job_sweep_orphan_deliveries now db =
    Sweeps.sweep_orphan_deliveries ((at now).fails job_sweep_orphan_deliveries) (at now).ages
      (at now).graces now db
exec at job_refresh_deliveries_gauge now db = (db, (at now).fails job_refresh_deliveries_gauge)
exec at job_refresh_state_gauges now db = (db, (at now).fails job_refresh_state_gauges)
exec at job_sweep_orphan_messages now db =
    Sweeps.sweep_orphan_messages ((at now).fails job_sweep_orphan_messages) (at now).ages
      (at now).graces now db
exec at job_refresh_notify_queue now db = (db, (at now).fails job_refresh_notify_queue)

-- Tick
abbrev pub janitor_tick : (ℕ → Conditions) → ℕ → Db → Timetable → Ticked Db
janitor_tick at = tick (exec at)

-- Run
abbrev pub janitor_run :
    (ℕ → Conditions) → List ℕ → Db → Timetable → Db × Timetable × List (ℕ × List Job)
janitor_run at = run (exec at)
