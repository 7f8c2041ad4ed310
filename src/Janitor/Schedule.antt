-- ===== src/Janitor/Schedule.antt =====
-- `shouldRun`, `markRun` and `Tick` of internal/janitor/janitor.go: which jobs a tick runs, and in which order. What a
-- job does is a parameter. Times are in seconds.
pub mod Spacing
pub mod Prompt
use pgmqtt.Prelude.{
  ℕ, ◌+◌, Bool, true, false, ◌||◌, Option, none, some, List, [], ◌∷◌, ◌++◌, leb, ◌==◌,
  if◌then◌else◌,
}

-- The first is the search for dead brokers with the handling of each that is found.
pub data Job : Type 0 where
  job_find_dead_brokers job_fire_due_wills job_expire_sessions job_expire_retained
        job_sweep_inbound_qos2 job_sweep_orphan_deliveries job_refresh_deliveries_gauge
        job_refresh_state_gauges job_sweep_orphan_messages job_refresh_notify_queue :
      Job

abbrev pub number_of : Job → ℕ
number_of job_find_dead_brokers = 0
number_of job_fire_due_wills = 1
number_of job_expire_sessions = 2
number_of job_expire_retained = 3
number_of job_sweep_inbound_qos2 = 4
number_of job_sweep_orphan_deliveries = 5
number_of job_refresh_deliveries_gauge = 6
number_of job_refresh_state_gauges = 7
number_of job_sweep_orphan_messages = 8
number_of job_refresh_notify_queue = 9

-- defaultJobIntervals
abbrev pub default_interval : Job → ℕ
default_interval job_find_dead_brokers = 5
default_interval job_fire_due_wills = 1
default_interval job_expire_sessions = 1
default_interval job_expire_retained = 5
default_interval job_sweep_inbound_qos2 = 30
default_interval job_sweep_orphan_deliveries = 30
default_interval job_refresh_deliveries_gauge = 10
default_interval job_refresh_state_gauges = 10
default_interval job_sweep_orphan_messages = 30
default_interval job_refresh_notify_queue = 10

abbrev pub is_job : Job → Job → Bool
is_job a b = number_of a == number_of b

-- jobIntervals and lastRun, in which a job that has never run is missing
pub record Timetable : Type 0 where
  pub interval : Job → ℕ
  pub last_run : Job → Option ℕ

abbrev pub is_past : ℕ → ℕ → Option ℕ → Bool
is_past now interval none = true
is_past now interval (some last) = leb (last + interval) now

abbrev pub should_run : Timetable → Job → ℕ → Bool
should_run t j now = t.interval j == 0 || is_past now (t.interval j) (t.last_run j)

abbrev pub mark_run : Job → ℕ → Timetable → Timetable
mark_run j now t = record t { last_run = λ k. if is_job k j then some now else t.last_run k }

-- The order within a tick.
abbrev pub job_order : List Job
job_order =
    job_fire_due_wills ∷ job_expire_sessions ∷ job_expire_retained ∷ job_sweep_inbound_qos2
    ∷ job_sweep_orphan_deliveries ∷ job_refresh_deliveries_gauge ∷ job_refresh_state_gauges
    ∷ job_sweep_orphan_messages ∷ job_refresh_notify_queue ∷ []

-- A tick's state, the jobs it has run, and whether one of them has failed.
pub record Ticked {ℓ} (S : Type ℓ) : Type ℓ where
  pub state : S
  pub table : Timetable
  pub ran : List Job
  pub failed : Bool

module _ {ℓ} {S : Type ℓ} (exec : Job → ℕ → S → S × Bool) where
  abbrev pub run_job : Job → ℕ → Ticked S → Ticked S
  run_job j now x = record {
    state = (exec j now x.state).0;
    table = mark_run j now x.table;
    ran = x.ran ++ j ∷ [];
    failed = x.failed || (exec j now x.state).1;
  }

  unfoldable pub run_jobs : List Job → ℕ → Ticked S → Ticked S
  run_jobs [] now x = x
  run_jobs (j ∷ js) now x =
      run_jobs js now (if should_run x.table j now then run_job j now x else x)

  -- A failure of the first job ends the tick; that of another does not.
  abbrev pub after_first : ℕ → Ticked S → Ticked S
  after_first now y = if y.failed then y else run_jobs job_order now y

  unfoldable pub tick : ℕ → S → Timetable → Ticked S
  unfolding run_jobs
  tick now s t =
      let x : Ticked S = record { state = s; table = t; ran = []; failed = false } in
      if should_run t job_find_dead_brokers now
      then after_first now (run_job job_find_dead_brokers now x)
      else run_jobs job_order now x

  -- `Run`: one tick after the other; the log says when which job has run.
  unfoldable pub run : List ℕ → S → Timetable → S × Timetable × List (ℕ × List Job)
  run [] s t = (s, t, [])
  run (now ∷ later) s t =
      let y = tick now s t in
      let (s', t', log) = run later y.state y.table in (s', t', (now, y.ran) ∷ log)
