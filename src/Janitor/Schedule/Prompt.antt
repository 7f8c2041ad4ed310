-- ===== src/Janitor/Schedule/Prompt.antt =====
-- That a tick runs every job that is due.
use pgmqtt.Prelude.{
  ℕ, ◌+◌, ◌≤◌, ◌≡◌, refl, sym, ◌∙◌, ◌⊎◌, inl, inr, Bool, true, false, Option, none, some, List, [],
  ◌∷◌, arith, any, if◌then◌else◌, Bool-cases, if_both, subst,
}
use pgmqtt.Janitor.Schedule.{
  Job, job_find_dead_brokers, job_fire_due_wills, job_expire_sessions, job_expire_retained,
  job_sweep_inbound_qos2, job_sweep_orphan_deliveries, job_refresh_deliveries_gauge,
  job_refresh_state_gauges, job_sweep_orphan_messages, job_refresh_notify_queue, is_job, Timetable,
  should_run, job_order, Ticked, run_job, run_jobs, tick,
}
use pgmqtt.Janitor.Schedule.Spacing.{
  is_job_eq, any-snoc, Midway, due_as_before, run_job-Midway, tick-Midway,
}

module _ {ℓ} {S : Type ℓ} (exec : Job → ℕ → S → S × Bool) (t : Timetable) (now : ℕ) (j : Job) where
  abbrev Has : Ticked S → Type 0
  Has x = any (is_job j) x.ran ≡ true

  run_job-Has : (k : Job) (x : Ticked S) → Has x → Has (run_job exec k now x)
  run_job-Has k x h = any-snoc j k x.ran ∙ ground (arith, h)

  run_jobs-Has : (js : List Job) (x : Ticked S) → Has x → Has (run_jobs exec js now x)
  unfolding run_jobs
  run_jobs-Has [] x h = h
  run_jobs-Has (k ∷ js) x h =
      run_jobs-Has js _ (if_both Has (should_run x.table k now) (λ _. run_job-Has k x h) λ _. h)

  -- After the turn of the job itself.
  turn_of_job :
      (k : Job) (x : Ticked S)
      → is_job j k ≡ true
      → Midway exec t now j x
      → Has (if should_run x.table k now then run_job exec k now x else x)
        ⊎ (should_run t j now ≡ false)
  turn_of_job k x same (i, h) = elim (Bool-cases (should_run x.table k now)) [
    | inl due ↦ inl (rw due (any-snoc j k x.ran ∙ ground (arith, same)))
    | inr early ↦ elim h [
      | inl (a, b) ↦ inr (
          sym (due_as_before exec t now j x i b)
          ∙ subst (λ m. should_run x.table m now ≡ false) (sym (is_job_eq j k same)) early)
      | inr (a, b, c) ↦ inl (rw early a)
    ]
  ]

  run_jobs-covers :
      (js : List Job) (x : Ticked S)
      → any (is_job j) js ≡ true
      → Midway exec t now j x
      → Has (run_jobs exec js now x) ⊎ (should_run t j now ≡ false)
  unfolding run_jobs
  run_jobs-covers [] x h m = cc
  run_jobs-covers (k ∷ js) x h m = elim (Bool-cases (is_job j k)) [
    | inl same ↦ elim (turn_of_job k x same m) [
      | inl ran ↦ inl (run_jobs-Has js _ ran)
      | inr early ↦ inr early
    ]
    | inr other ↦ run_jobs-covers js _ (ground (arith, h, other)) (
        if_both (Midway exec t now j) (should_run x.table k now)
          (λ due. run_job-Midway exec t now j k x due m) λ _. m)
  ]

listed : (j : Job) → (any (is_job j) job_order ≡ true) ⊎ (j ≡ job_find_dead_brokers)
listed job_find_dead_brokers = inr refl
listed job_fire_due_wills = inl refl
listed job_expire_sessions = inl refl
listed job_expire_retained = inl refl
listed job_sweep_inbound_qos2 = inl refl
listed job_sweep_orphan_deliveries = inl refl
listed job_refresh_deliveries_gauge = inl refl
listed job_refresh_state_gauges = inl refl
listed job_sweep_orphan_messages = inl refl
listed job_refresh_notify_queue = inl refl

-- A job that is not due has run within its interval.
waits :
    (t : Timetable) (now : ℕ) (j : Job) (o : Option ℕ)
    → should_run t j now ≡ false
    → t.last_run j ≡ o
    → (l : ℕ) × (o ≡ some l) × (now ≤ l + t.interval j)
waits t now j none early e = absurd (ground (arith, early, e))
waits t now j (some l) early e = (l, refl, ground (arith, early, e))

module _ {ℓ} {S : Type ℓ} (exec : Job → ℕ → S → S × Bool) (t : Timetable) (now : ℕ) (j : Job) where
  abbrev Covered : Ticked S → Type 0
  Covered x = Has exec t now j x ⊎ (should_run t j now ≡ false)

  tick-Covered :
      (s : S)
      → (should_run t job_find_dead_brokers now ≡ true
          → (exec job_find_dead_brokers now s).1 ≡ false)
      → Covered (tick exec now s t)
  unfolding tick
  tick-Covered s fine =
      if_both Covered (should_run t job_find_dead_brokers now)
        (λ due.
          if_both Covered (exec job_find_dead_brokers now s).1 (λ bad. cc (bad, fine due))
            λ _. elim (listed j) [
              | inl l ↦
                  run_jobs-covers exec t now j job_order
                    (run_job exec job_find_dead_brokers now (start s)) l
                    (run_job-Midway exec t now j job_find_dead_brokers (start s) due
                      (refl, inl (refl, refl)))
              | inr e ↦ inl (
                  run_jobs-Has exec t now j job_order
                    (run_job exec job_find_dead_brokers now (start s))
                    (subst (λ k. any (is_job k) (job_find_dead_brokers ∷ []) ≡ true) (sym e) refl))
            ])
        λ early. elim (listed j) [
          | inl l ↦ run_jobs-covers exec t now j job_order (start s) l (refl, inl (refl, refl))
          | inr e ↦ inr (subst (λ k. should_run t k now ≡ false) (sym e) early)
        ]
    where
      start : S → Ticked S
      start s = record { state = s; table = t; ran = []; failed = false }

  tick-stops :
      (s : S)
      → should_run t job_find_dead_brokers now ≡ true
      → (exec job_find_dead_brokers now s).1 ≡ true
      → (tick exec now s t).ran ≡ job_find_dead_brokers ∷ []
  unfolding tick
  tick-stops s due bad =
      if_both (λ (x : Ticked S). x.ran ≡ job_find_dead_brokers ∷ [])
        (should_run t job_find_dead_brokers now)
        (λ _.
          if_both (λ (x : Ticked S). x.ran ≡ job_find_dead_brokers ∷ [])
            (exec job_find_dead_brokers now s).1 (λ _. refl) λ good. cc (bad, good))
        λ early. cc (due, early)

  -- A tick whose search for dead brokers does not fail runs exactly the jobs that are due, and after it no job's last run is
  -- further back than its interval; if the search is due and fails, the tick runs nothing else.
  pub tick_prompt :
      (s : S)
      → ((should_run t job_find_dead_brokers now ≡ true
            → (exec job_find_dead_brokers now s).1 ≡ false)
          → (any (is_job j) (tick exec now s t).ran ≡ should_run t j now)
            × ((l : ℕ) × ((tick exec now s t).table.last_run j ≡ some l)
                × (now ≤ l + t.interval j)))
        × (should_run t job_find_dead_brokers now ≡ true
            → (exec job_find_dead_brokers now s).1 ≡ true
            → (tick exec now s t).ran ≡ job_find_dead_brokers ∷ [])
  tick_prompt s = (
    λ fine. prompt (tick exec now s t) (tick-Midway exec t now j s) (tick-Covered s fine),
    tick-stops s,
  )
    where
      prompt :
          (y : Ticked S)
          → Midway exec t now j y
          → Covered y
          → (any (is_job j) y.ran ≡ should_run t j now)
            × ((l : ℕ) × (y.table.last_run j ≡ some l) × (now ≤ l + t.interval j))
      prompt y (i, inr (ran, last, due)) c = (ran ∙ sym due, (now, last, omega arith))
      prompt y (i, inl (idle, last)) (inl ran) = cc (idle, ran)
      prompt y (i, inl (idle, last)) (inr early) =
          let (l, e, k) = waits t now j (t.last_run j) early refl in
          (idle ∙ sym early, (l, last ∙ e, k))
