-- ===== src/Janitor/Kept.antt =====
-- The session of a broker that has died.
use pgmqtt.Prelude.{
  ℕ, ◌≡◌, refl, Bool, true, false, List, [], ◌∷◌, map, arith, any, all, same, Bytes, if◌then◌else◌,
  if_both,
}
use pgmqtt.Engine.Db.{Db, Session}
use pgmqtt.Engine.Connect.Handshake.{untimed, clean_up}
use pgmqtt.Janitor.Sweeps.{has_session}
use pgmqtt.Engine.Publish.{Env}
use pgmqtt.Janitor.Schedule.{
  Job, job_find_dead_brokers, job_fire_due_wills, job_expire_sessions, job_expire_retained,
  job_sweep_inbound_qos2, job_sweep_orphan_deliveries, job_refresh_deliveries_gauge,
  job_refresh_state_gauges, job_sweep_orphan_messages, job_refresh_notify_queue, should_run,
  job_order, Timetable, Ticked, run_job, run_jobs, tick, run,
}
use pgmqtt.Janitor.Dead as Dead
use pgmqtt.Janitor.Dead.{DeadFaults, candidates, handle_each, handle_dead_broker}
use pgmqtt.Janitor.Tick.{Conditions, exec, janitor_run}
use pgmqtt.Janitor.Immortal.{
  lasts, Lasting, expires, expires_retained, sweeps_inbound, sweeps_deliveries, sweeps_messages,
  fires, reaps, Works, idle, further, Works-Lasting,
}

handle_each-Works :
    (env : Env) (f : ℕ → DeadFaults) (locked : ℕ → Bool) (now : ℕ) (bs : List ℕ) (start db : Db)
    → Works start db
    → Works start (handle_each env f locked now bs db)
unfolding handle_each
handle_each-Works env f locked now [] start db w = w
handle_each-Works env f locked now (b ∷ bs) start db w =
    handle_each-Works env f locked now bs start _ (further w (reaps env (f b) (locked b) b now db))

module _ (at : ℕ → Conditions) (start : Db) where
  exec-Works : (j : Job) (now : ℕ) (db : Db) → Works start db → Works start (exec at j now db).0
  unfolding Dead.find_dead_brokers
  exec-Works job_find_dead_brokers now db w =
      if_both (λ (x : Db × Bool). Works start x.0) ((at now).fails job_find_dead_brokers) (λ _. w)
        λ _.
          handle_each-Works (at now).env (at now).dead (at now).locked now (candidates db.sessions)
            start db w
  exec-Works job_fire_due_wills now db w = further w (fires (at now).env (at now).wills now db)
  exec-Works job_expire_sessions now db w = further w (expires _ now db)
  exec-Works job_expire_retained now db w = further w (expires_retained _ now db)
  exec-Works job_sweep_inbound_qos2 now db w = further w (sweeps_inbound _ _ _ now db)
  exec-Works job_sweep_orphan_deliveries now db w = further w (sweeps_deliveries _ _ _ now db)
  exec-Works job_refresh_deliveries_gauge now db w = w
  exec-Works job_refresh_state_gauges now db w = w
  exec-Works job_sweep_orphan_messages now db w = further w (sweeps_messages _ _ _ now db)
  exec-Works job_refresh_notify_queue now db w = w

  run_jobs-Works :
      (js : List Job) (now : ℕ) (x : Ticked Db)
      → Works start x.state
      → Works start (run_jobs (exec at) js now x).state
  unfolding run_jobs
  run_jobs-Works [] now x w = w
  run_jobs-Works (j ∷ js) now x w = run_jobs-Works js now _ (
      if_both (λ (y : Ticked Db). Works start y.state) (should_run x.table j now)
        (λ _. exec-Works j now x.state w) λ _. w)

  tick-Works :
      (now : ℕ) (db : Db) (t : Timetable)
      → Works start db
      → Works start (tick (exec at) now db t).state
  unfolding tick
  tick-Works now db t w =
      if_both (λ (y : Ticked Db). Works start y.state) (should_run t job_find_dead_brokers now)
        (λ _.
          if_both (λ (y : Ticked Db). Works start y.state) (exec at job_find_dead_brokers now db).1
            (λ _. exec-Works job_find_dead_brokers now db w)
            λ _.
              run_jobs-Works job_order now (run_job (exec at) job_find_dead_brokers now begun)
                (exec-Works job_find_dead_brokers now db w))
        λ _. run_jobs-Works job_order now begun w
    where
      begun : Ticked Db
      begun = record { state = db; table = t; ran = []; failed = false }

  run-Works :
      (times : List ℕ) (db : Db) (t : Timetable)
      → Works start db
      → Works start (janitor_run at times db t).0
  unfolding run
  run-Works [] db t w = w
  run-Works (now ∷ later) db t w = run-Works later _ _ (tick-Works now db t w)

module _ (client : Bytes) where
  -- What the clearing of a client's timers leaves.
  untimed-Lasting :
      (ss : List Session)
      → any (λ s. same s.client client) ss ≡ true
      → Lasting client (map (λ s. if same s.client client then untimed s else s) ss)
  untimed-Lasting ss h = (there ss h, every ss)
    where
      there :
          (ss : List Session)
          → any (λ s. same s.client client) ss ≡ true
          → any
              (λ s. same s.client client)
              (map (λ s. if same s.client client then untimed s else s) ss)
            ≡ true
      there [] h = h
      there (s ∷ ss) h = ground (arith, there ss, h)

      every :
          (ss : List Session)
          → all (lasts client) (map (λ s. if same s.client client then untimed s else s) ss) ≡ true
      every [] = refl
      every (s ∷ ss) = ground (arith, every ss)

  cleaned-Lasting :
      (clean : Bool) (db : Db)
      → has_session db client ≡ true
      → Lasting client (clean_up clean client db).sessions
  cleaned-Lasting true db h = untimed-Lasting db.sessions h
  cleaned-Lasting false db h = untimed-Lasting db.sessions h

-- After the cleanup of a CONNECT, whatever expiry interval the session has: the client's session is still there after any number
-- of the janitor's ticks at any times, whichever brokers have died, its own among them, and whatever fails, and still
-- has no expiry time.
pub janitor_run-Lasting :
    (client : Bytes) (clean : Bool) (at : ℕ → Conditions) (times : List ℕ) (db : Db) (t : Timetable)
    → has_session db client ≡ true
    → Lasting client (janitor_run at times (clean_up clean client db) t).0.sessions
janitor_run-Lasting client clean at times db t h =
    Works-Lasting client (run-Works at (clean_up clean client db) times _ t idle)
      (cleaned-Lasting client clean db h)
