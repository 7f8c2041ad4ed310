-- ===== src/Janitor/Schedule/Spacing.antt =====
-- How far apart the runs of a job are.
use pgmqtt.Prelude.{
  ℕ, ◌+◌, ◌≤◌, ◌<◌, ◌≡◌, refl, sym, ap, ◌∙◌, ◌⊎◌, inl, inr, Bool, true, false, ◌||◌, Option, none,
  some, List, [], ◌∷◌, ◌++◌, arith, any, ◌==◌, if◌then◌else◌, Bool-cases, if_both, subst,
}
use pgmqtt.Janitor.Schedule.{
  Job, job_find_dead_brokers, job_fire_due_wills, job_expire_sessions, job_expire_retained,
  job_sweep_inbound_qos2, job_sweep_orphan_deliveries, job_refresh_deliveries_gauge,
  job_refresh_state_gauges, job_sweep_orphan_messages, job_refresh_notify_queue, number_of, is_job,
  Timetable, is_past, should_run, job_order, Ticked, run_job, run_jobs, after_first, tick, run,
}

job_at : ℕ → Job
job_at n =
    if n == 0
    then job_find_dead_brokers
    else if n == 1
    then job_fire_due_wills
    else if n == 2
    then job_expire_sessions
    else if n == 3
    then job_expire_retained
    else if n == 4
    then job_sweep_inbound_qos2
    else if n == 5
    then job_sweep_orphan_deliveries
    else if n == 6
    then job_refresh_deliveries_gauge
    else if n == 7
    then job_refresh_state_gauges
    else if n == 8
    then job_sweep_orphan_messages
    else job_refresh_notify_queue

job_at-number_of : (j : Job) → job_at (number_of j) ≡ j
unfolding job_at
job_at-number_of job_find_dead_brokers = refl
job_at-number_of job_fire_due_wills = refl
job_at-number_of job_expire_sessions = refl
job_at-number_of job_expire_retained = refl
job_at-number_of job_sweep_inbound_qos2 = refl
job_at-number_of job_sweep_orphan_deliveries = refl
job_at-number_of job_refresh_deliveries_gauge = refl
job_at-number_of job_refresh_state_gauges = refl
job_at-number_of job_sweep_orphan_messages = refl
job_at-number_of job_refresh_notify_queue = refl

pub is_job_eq : (j k : Job) → is_job j k ≡ true → j ≡ k
is_job_eq j k h = sym (job_at-number_of j) ∙ ap job_at (ground (arith, h)) ∙ job_at-number_of k

pub is_job_self : (j : Job) → is_job j j ≡ true
is_job_self j = ground arith

pub any-snoc :
    (j k : Job) (js : List Job) → any (is_job j) (js ++ k ∷ []) ≡ (any (is_job j) js || is_job j k)
any-snoc j k [] = ground arith
any-snoc j k (i ∷ is) = ground (arith, any-snoc j k is)

module _ {ℓ} {S : Type ℓ} (exec : Job → ℕ → S → S × Bool) (t : Timetable) (now : ℕ) (j : Job) where
  -- Within a tick: the job has not run, and is as it was; or it was due, and has.
  abbrev pub Midway : Ticked S → Type 0
  Midway x =
      (x.table.interval j ≡ t.interval j)
      × (((any (is_job j) x.ran ≡ false) × (x.table.last_run j ≡ t.last_run j))
          ⊎ ((any (is_job j) x.ran ≡ true)
              × (x.table.last_run j ≡ some now)
              × (should_run t j now ≡ true)))

  pub due_as_before :
      (x : Ticked S)
      → x.table.interval j ≡ t.interval j
      → x.table.last_run j ≡ t.last_run j
      → should_run x.table j now ≡ should_run t j now
  due_as_before x i l = rw (i, l) refl

  pub run_job-Midway :
      (k : Job) (x : Ticked S)
      → should_run x.table k now ≡ true
      → Midway x
      → Midway (run_job exec k now x)
  run_job-Midway k x due (i, h) = elim (Bool-cases (is_job j k)) [
    | inr other ↦ (
      i,
      elim h [
        | inl (a, b) ↦ inl (any-snoc j k x.ran ∙ ground (arith, a, other), ground (arith, b, other))
        | inr (a, b, c) ↦ inr (any-snoc j k x.ran ∙ ground (arith, a), ground (arith, b, other), c)
      ],
    )
    | inl same ↦ (
      i,
      inr (
        any-snoc j k x.ran ∙ ground (arith, same),
        ground (arith, same),
        elim h [
          | inl (a, b) ↦
              sym (due_as_before x i b)
              ∙ subst (λ m. should_run x.table m now ≡ true) (sym (is_job_eq j k same)) due
          | inr (a, b, c) ↦ c
        ],
      ),
    )
  ]

  run_jobs-Midway : (js : List Job) (x : Ticked S) → Midway x → Midway (run_jobs exec js now x)
  unfolding run_jobs
  run_jobs-Midway [] x h = h
  run_jobs-Midway (k ∷ js) x h =
      run_jobs-Midway js _
        (if_both Midway (should_run x.table k now) (λ due. run_job-Midway k x due h) λ _. h)

  pub tick-Midway : (s : S) → Midway (tick exec now s t)
  unfolding tick
  tick-Midway s =
      if_both Midway (should_run t job_find_dead_brokers now)
        (λ due.
          after (run_job exec job_find_dead_brokers now (start s))
            (run_job-Midway job_find_dead_brokers (start s) due begun))
        λ _. run_jobs-Midway job_order (start s) begun
    where
      start : S → Ticked S
      start s = record { state = s; table = t; ran = []; failed = false }

      begun : Midway (start s)
      begun = (refl, inl (refl, refl))

      after : (y : Ticked S) → Midway y → Midway (after_first exec now y)
      after y h = if_both Midway y.failed (λ _. h) λ _. run_jobs-Midway job_order y h

-- When a job has run, from the log of the ticks.
abbrev pub firings : Job → List (ℕ × List Job) → List ℕ
firings j [] = []
firings j ((now, ran) ∷ log) = if any (is_job j) ran then now ∷ firings j log else firings j log

-- Each time lies at least `d` after the one before, which is `last` for the first.
abbrev pub Apart : ℕ → Option ℕ → List ℕ → Type 0
Apart d last [] = Unit {0}
Apart d none (b ∷ bs) = Apart d (some b) bs
Apart d (some a) (b ∷ bs) = (a + d ≤ b) × Apart d (some b) bs

Apart-cons :
    (d now : ℕ) (o : Option ℕ) (bs : List ℕ)
    → is_past now d o ≡ true
    → Apart d (some now) bs
    → Apart d o (now ∷ bs)
Apart-cons d now none bs due h = h
Apart-cons d now (some a) bs due h = (ground (arith, due), h)

module _ {ℓ} {S : Type ℓ} (exec : Job → ℕ → S → S × Bool) (j : Job) where
  -- Whatever the jobs do and whichever of them fail, and even if the clock is set back between the ticks: two runs of a job that has an
  -- interval are at least that far apart, and the first is as far from the last run before.
  pub run-Apart :
      (times : List ℕ) (s : S) (t : Timetable)
      → 0 < t.interval j
      → Apart (t.interval j) (t.last_run j) (firings j (run exec times s t).2)
  unfolding run
  run-Apart [] s t pos = tt
  run-Apart (now ∷ later) s t pos =
      let y = tick exec now s t in
      let (same, h) = tick-Midway exec t now j s in
      let rest = run-Apart later y.state y.table (omega (arith, same, pos)) in
      elim h [
        | inl (idle, last) ↦ rw idle (rw (same, last) at rest)
        | inr (ran, last, due) ↦
            rw ran
              (Apart-cons (t.interval j) now (t.last_run j) _ (past due) (rw (same, last) at rest))
      ]
    where
      past : should_run t j now ≡ true → is_past now (t.interval j) (t.last_run j) ≡ true
      past due = ground (arith, due, pos)
