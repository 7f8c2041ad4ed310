-- ===== src/Janitor/Consistent.antt =====
-- The tables after a tick of the janitor.
use pgmqtt.Prelude.{
  ℕ, ◌+◌, ◌≡◌, refl, Bool, true, false, not, ◌&&◌, ◌||◌, List, [], ◌∷◌, arith, Bytes, same,
  same_self, any, all, keep, ltb, leb, ◌==◌, if◌then◌else◌, if_both, Bool-cases, inl, inr,
}
use pgmqtt.Engine.Db.{Db, Session}
use pgmqtt.Janitor.Schedule.{
  Job, job_find_dead_brokers, job_fire_due_wills, job_expire_sessions, job_expire_retained,
  job_sweep_inbound_qos2, job_sweep_orphan_deliveries, job_refresh_deliveries_gauge,
  job_refresh_state_gauges, job_sweep_orphan_messages, job_refresh_notify_queue, Timetable,
  should_run, mark_run, job_order, Ticked, run_job, run_jobs, tick,
}
use pgmqtt.Janitor.Sweeps.{
  Ages, Graces, is_expired, expire_sessions, expire_retained, sweep_inbound_qos2,
  sweep_orphan_deliveries, sweep_orphan_messages, has_session, is_orphan, is_referenced,
}
use pgmqtt.Janitor.Cleared.{IsOver, expired_iff}
use pgmqtt.Janitor.Tick.{Conditions, exec, janitor_tick}

all-keep {ℓ} : {A : Type ℓ} (p : A → Bool) (xs : List A) → all p (keep p xs) ≡ true
all-keep p [] = refl
all-keep p (x ∷ xs) = ground (arith, all-keep p xs)

all-weaken {ℓ} :
    {A : Type ℓ} (p q : A → Bool) (xs : List A)
    → ((x : A) → p x ≡ true → q x ≡ true)
    → all p xs ≡ true
    → all q xs ≡ true
all-weaken p q [] h k = refl
all-weaken p q (x ∷ xs) h k = ground (arith, all-weaken p q xs h, h x, k)

-- A row that passes the test is found by the test and its client.
none-left :
    (now : ℕ) (xs ys : List Session)
    → ((p : Session → Bool) → any p xs ≡ true → any p ys ≡ true)
    → any
        (is_expired now)
        (keep (λ s. not (any (λ r. is_expired now r && same r.client s.client) ys)) xs)
      ≡ false
none-left now [] ys h = refl
none-left now (x ∷ xs) ys h = elim (Bool-cases (is_expired now x)) [
  | inl e ↦
      rw (h (λ r. is_expired now r && same r.client x.client) (found e))
        (none-left now xs ys λ p k. h p (ground (arith, k)))
  | inr e ↦ ground (arith, e, none-left now xs ys (λ p k. h p (ground (arith, k))))
]
  where
    found :
        is_expired now x ≡ true
        → any (λ r. is_expired now r && same r.client x.client) (x ∷ xs) ≡ true
    found e = rw (e, same_self x.client) refl

-- No client has a session that is over, every delivery has its session, and every message that is older than the grace
-- has a delivery.
pub record IsConsistent (a : Ages) (g : Graces) (now : ℕ) (db : Db) : Type 0 where
  pub sessions : (c : Bytes) → ¬ IsOver now c db.sessions
  pub deliveries : all (λ d. any (λ s. same s.client d.client) db.sessions) db.deliveries ≡ true
  pub messages :
      all
        (λ m. leb now (a.created_at m.id + g.orphan) || any (λ d. d.message == m.id) db.deliveries)
        db.messages
      ≡ true

none_over :
    (now : ℕ) (c : Bytes) (ss : List Session)
    → any (is_expired now) ss ≡ false
    → any (λ s. is_expired now s && same s.client c) ss ≡ false
none_over now c [] h = refl
none_over now c (s ∷ ss) h = ground (arith, h, none_over now c ss)

module _ (at : ℕ → Conditions) (now : ℕ) where
  abbrev Due : Timetable → Job → Type 0
  Due t j = should_run t j now ≡ true

  abbrev Expired : Db → Type 0
  Expired db = any (is_expired now) db.sessions ≡ false

  abbrev Housed : Db → Type 0
  Housed db = all (λ d. has_session db d.client) db.deliveries ≡ true

  abbrev Needed : Db → Type 0
  Needed db =
      all
        (λ m.
          leb now ((at now).ages.created_at m.id + (at now).graces.orphan) || is_referenced db m.id)
        db.messages
      ≡ true

  -- What holds before the expiry, between the sweeps, and after them.
  abbrev Before : Db → Timetable → Type 0
  Before db t =
      Due t job_expire_sessions
      × Due t job_sweep_orphan_deliveries
      × Due t job_sweep_orphan_messages

  abbrev Cleared : Db → Timetable → Type 0
  Cleared db t = Expired db × Due t job_sweep_orphan_deliveries × Due t job_sweep_orphan_messages

  abbrev Swept : Db → Timetable → Type 0
  Swept db t = Expired db × Housed db × Due t job_sweep_orphan_messages

  abbrev Done : Db → Timetable → Type 0
  Done db t = Expired db × Housed db × Needed db

  abbrev job_turn : Job → Ticked Db → Ticked Db
  job_turn j x = if should_run x.table j now then run_job (exec at) j now x else x

  -- A job that is due runs.
  turn_due :
      (P : Ticked Db → Type 0) (j : Job) (x : Ticked Db)
      → Due x.table j
      → P (run_job (exec at) j now x)
      → P (job_turn j x)
  turn_due P j x d h = if_both P (should_run x.table j now) (λ _. h) λ e. cc (e, d)

  abbrev Holds : (Db → Timetable → Type 0) → Ticked Db → Type 0
  Holds P x = P x.state x.table

  fires_wills : (x : Ticked Db) → Holds Before x → Holds Before (job_turn job_fire_due_wills x)
  fires_wills x h =
      if_both (Holds Before) (should_run x.table job_fire_due_wills now) (λ _. h) λ _. h

  -- Jobs that fail or run leave what holds of the sessions, deliveries and messages.
  expires_retained :
      (x : Ticked Db) → Holds Cleared x → Holds Cleared (job_turn job_expire_retained x)
  unfolding expire_retained
  expires_retained x h =
      if_both (Holds Cleared) (should_run x.table job_expire_retained now)
        (λ _.
          if_both (λ (r : Db × Bool). Cleared r.0 (mark_run job_expire_retained now x.table))
            ((at now).fails job_expire_retained) (λ _. h) λ _. h)
        λ _. h

  sweeps_inbound :
      (x : Ticked Db) → Holds Cleared x → Holds Cleared (job_turn job_sweep_inbound_qos2 x)
  unfolding sweep_inbound_qos2
  sweeps_inbound x h =
      if_both (Holds Cleared) (should_run x.table job_sweep_inbound_qos2 now)
        (λ _.
          if_both (λ (r : Db × Bool). Cleared r.0 (mark_run job_sweep_inbound_qos2 now x.table))
            ((at now).fails job_sweep_inbound_qos2) (λ _. h) λ _. h)
        λ _. h

  expires :
      (x : Ticked Db)
      → (at now).fails job_expire_sessions ≡ false
      → Holds Before x
      → Holds Cleared (job_turn job_expire_sessions x)
  unfolding expire_sessions
  expires x f (due, d, m) = turn_due (Holds Cleared) job_expire_sessions x due (
      if_both (λ (r : Db × Bool). Cleared r.0 (mark_run job_expire_sessions now x.table))
        ((at now).fails job_expire_sessions) (λ e. cc (e, f))
        λ _. (none-left now x.state.sessions x.state.sessions (λ p h. h), d, m))

  sweeps_deliveries :
      (x : Ticked Db)
      → (at now).fails job_sweep_orphan_deliveries ≡ false
      → Holds Cleared x
      → Holds Swept (job_turn job_sweep_orphan_deliveries x)
  unfolding sweep_orphan_deliveries
  sweeps_deliveries x f (e, due, m) = turn_due (Holds Swept) job_sweep_orphan_deliveries x due (
      if_both (λ (r : Db × Bool). Swept r.0 (mark_run job_sweep_orphan_deliveries now x.table))
        ((at now).fails job_sweep_orphan_deliveries) (λ e. cc (e, f)) λ _. (e, housed, m))
    where
      housed :
          all
            (λ d. has_session x.state d.client)
            (keep
              (λ d. not (is_orphan (at now).ages (at now).graces now x.state d.client))
              x.state.deliveries)
          ≡ true
      housed =
          all-weaken (λ d. not (is_orphan (at now).ages (at now).graces now x.state d.client))
            (λ d. has_session x.state d.client) _ (λ d h. ground (arith, h))
            (all-keep _ x.state.deliveries)

  sweeps_messages :
      (x : Ticked Db)
      → (at now).fails job_sweep_orphan_messages ≡ false
      → Holds Swept x
      → Holds Done (job_turn job_sweep_orphan_messages x)
  unfolding sweep_orphan_messages
  sweeps_messages x f (e, h, due) = turn_due (Holds Done) job_sweep_orphan_messages x due (
      if_both (λ (r : Db × Bool). Done r.0 (mark_run job_sweep_orphan_messages now x.table))
        ((at now).fails job_sweep_orphan_messages) (λ e. cc (e, f)) λ _. (e, h, needed))
    where
      needed :
          all
            (λ m.
              leb now ((at now).ages.created_at m.id + (at now).graces.orphan)
              || is_referenced x.state m.id)
            (keep
              (λ m. not (
                ltb ((at now).ages.created_at m.id + (at now).graces.orphan) now
                && not (is_referenced x.state m.id)))
              x.state.messages)
          ≡ true
      needed =
          all-weaken
            (λ m. not (
              ltb ((at now).ages.created_at m.id + (at now).graces.orphan) now
              && not (is_referenced x.state m.id)))
            (λ m.
              leb now ((at now).ages.created_at m.id + (at now).graces.orphan)
              || is_referenced x.state m.id)
            _ (λ m h. ground (arith, h)) (all-keep _ x.state.messages)

  gauge_both :
      (P : Db → Timetable → Type 0) (j : Job) (x : Ticked Db)
      → P (exec at j now x.state).0 (mark_run j now x.table)
      → Holds P x
      → Holds P (job_turn j x)
  gauge_both P j x h k = if_both (Holds P) (should_run x.table j now) (λ _. h) λ _. k

  abbrev Works : Type 0
  Works =
      ((at now).fails job_expire_sessions ≡ false)
      × ((at now).fails job_sweep_orphan_deliveries ≡ false)
      × ((at now).fails job_sweep_orphan_messages ≡ false)

  jobs-Done :
      (x : Ticked Db) → Works → Holds Before x → Holds Done (run_jobs (exec at) job_order now x)
  unfolding run_jobs
  jobs-Done x (f, g, k) h =
      let x1 = job_turn job_fire_due_wills x in
      let x2 = job_turn job_expire_sessions x1 in
      let x3 = job_turn job_expire_retained x2 in
      let x4 = job_turn job_sweep_inbound_qos2 x3 in
      let x5 = job_turn job_sweep_orphan_deliveries x4 in
      let x6 = job_turn job_refresh_deliveries_gauge x5 in
      let x7 = job_turn job_refresh_state_gauges x6 in
      let x8 = job_turn job_sweep_orphan_messages x7 in
      let cleared = expires x1 f (fires_wills x h) in
      let swept = sweeps_deliveries x4 g (sweeps_inbound x3 (expires_retained x2 cleared)) in
      let gauged = gauge_both Swept job_refresh_deliveries_gauge x5 swept swept in
      let done =
        sweeps_messages x7 k (gauge_both Swept job_refresh_state_gauges x6 gauged gauged) in
      gauge_both Done job_refresh_notify_queue x8 done done

  tick-Done :
      (db : Db) (t : Timetable)
      → Works
      → Before db t
      → (Due t job_find_dead_brokers → (exec at job_find_dead_brokers now db).1 ≡ false)
      → Holds Done (janitor_tick at now db t)
  unfolding tick
  tick-Done db t w h first =
      let x : Ticked Db = record { state = db; table = t; ran = []; failed = false } in
      if_both (Holds Done) (should_run t job_find_dead_brokers now)
        (λ due.
          if_both (Holds Done) (run_job (exec at) job_find_dead_brokers now x).failed
            (λ bad. cc (bad, first due))
            λ _. jobs-Done (run_job (exec at) job_find_dead_brokers now x) w h)
        λ _. jobs-Done x w h

-- If a tick is one at which the expiry of sessions and the two sweeps of orphans are due, none of their statements fails, and the
-- search for dead brokers does not fail when it is due, then the tick leaves no session that is over, no delivery
-- without a session, and no message without a delivery but those younger than the grace, whatever the tables held before
-- and whichever of the other jobs are due or fail.
pub tick-IsConsistent :
    (at : ℕ → Conditions) (now : ℕ) (db : Db) (t : Timetable)
    → should_run t job_expire_sessions now ≡ true
    → should_run t job_sweep_orphan_deliveries now ≡ true
    → should_run t job_sweep_orphan_messages now ≡ true
    → (at now).fails job_expire_sessions ≡ false
    → (at now).fails job_sweep_orphan_deliveries ≡ false
    → (at now).fails job_sweep_orphan_messages ≡ false
    → (should_run t job_find_dead_brokers now ≡ true
        → (exec at job_find_dead_brokers now db).1 ≡ false)
    → IsConsistent (at now).ages (at now).graces now (janitor_tick at now db t).state
tick-IsConsistent at now db t d e m f g k first =
    let (none, housed, needed) = tick-Done at now db t (f, g, k) (d, e, m) first in
    let ss = (janitor_tick at now db t).state.sessions in
    record {
      sessions = λ c over. cc ((expired_iff now c ss).1 over, none_over now c ss none);
      deliveries = housed;
      messages = needed;
    }
