-- ===== src/Listener/Run/Recovered.antt =====
-- What a broker does after an outage of its connection to Postgres.
use pgmqtt.Prelude.{
  ℕ, ◌+◌, ◌≤◌, ◌≡◌, refl, sym, subst, ap, ◌∙◌, Bool, true, false, ◌&&◌, Option, none, some, List,
  [], ◌∷◌, Bytes, same, map, any, ◌==◌, if◌then◌else◌, if_both, ==_iff, Bool-cases, inl, inr, arith,
}
use pgmqtt.Engine.Db.{Session}
use pgmqtt.Engine.Registry.{Registry, conn_for}
use pgmqtt.Engine.Session.{Life, or_zero, is_will, is_own, attested, attest_owned_sessions}
use pgmqtt.Engine.Session.Superseded.{is_row}
use pgmqtt.Janitor.Sweeps.{is_over}
use pgmqtt.Engine.Publish.{Env}
use pgmqtt.Janitor.Dead.{is_of, is_delayed, or_infinite, scheduled, DeadFaults, handle_dead_broker}
use pgmqtt.Janitor.Dead.Reaped.{freed, handle_dead_broker-frees}
use pgmqtt.Listener.Reconnect.{Outage, reconnect}
use pgmqtt.Listener.Run.{Wait, broken, Host, recovered, run}

own-freed : (l : Life) (b clock : ℕ) (s : Session) → is_own l (freed b clock s) ≡ is_own l s
own-freed l b clock s =
    if_both (λ (x : Session). is_own l x ≡ is_own l s) (is_of b s)
      (λ _.
        if_both (λ (x : Session). is_own l x ≡ is_own l s) (is_delayed b s) (λ _. refl) λ _. refl)
      λ _. refl

any-freed :
    (l : Life) (b clock : ℕ) (ss : List Session)
    → any (is_own l) (map (freed b clock) ss) ≡ any (is_own l) ss
any-freed l b clock [] = refl
any-freed l b clock (s ∷ ss) = ground (arith, own-freed l b clock s, any-freed l b clock ss)

any-held :
    (h : ℕ → Life) (client : Bytes) (c : ℕ) (rs : Registry) (s : Session)
    → conn_for client rs ≡ some c
    → is_own (h c) s ≡ true
    → any (λ l. is_own l s) (map (λ r. h r.1) rs) ≡ true
any-held h client c [] s e o = cc e
any-held h client c ((k, x) ∷ rs) s e o = elim (Bool-cases (same k client)) [
  | inl m ↦ rw (ap (λ y. is_own (h y) s) (found (rw m at e)) ∙ o) refl
  | inr m ↦ ground (arith, any-held h client c rs s (rw m at e) o)
]
  where
    found : some x ≡ some c → x ≡ c
    found e = ground (arith, e)

module _ (q : Session → Bool) (self : ℕ) (stable : (s : Session) → q (attested self s) ≡ q s) where
  any-attested :
      (h : ℕ → Life) (client : Bytes) (c : ℕ) (rs : Registry) (ss : List Session)
      → conn_for client rs ≡ some c
      → any (λ s. is_own (h c) s && q s) ss ≡ true
      → any
          (λ s. is_row (h c).client self (h c).token s && q s)
          (map (λ s. if any (λ l. is_own l s) (map (λ r. h r.1) rs) then attested self s else s) ss)
        ≡ true
  any-attested h client c rs [] e o = cc o
  any-attested h client c rs (s ∷ ss) e o = elim (Bool-cases (is_own (h c) s && q s)) [
    | inl m ↦
        rw (any-held h client c rs s e (ground (arith, m)))
          (ground (arith, m, stable s, (==_iff self self).1 refl))
    | inr m ↦ ground (arith, any-attested h client c rs ss e, o, m)
  ]

-- A session whose will is delayed has it due once the delay is over.
abbrev pub is_ghost : ℕ → Session → Bool
is_ghost later s = is_over later s.will_fire_at && is_will s.will

abbrev pub waits_with : Life → ℕ → ℕ → Session → Bool
waits_with l self wait s = is_own l s && is_delayed self s && or_zero s.will_delay == wait

over-infinite :
    (t later : ℕ) (o : Option ℕ) → t ≤ later → is_over later (some (or_infinite t o)) ≡ true
over-infinite t later none h = ground (arith, h)
over-infinite t later (some u) h = ground (arith, h)

freed-ghost :
    (l : Life) (self clock wait later : ℕ) (s : Session)
    → clock + wait ≤ later
    → waits_with l self wait s ≡ true
    → (is_own l (freed self clock s) && is_ghost later (freed self clock s)) ≡ true
freed-ghost l self clock wait later s h w =
    subst (λ x. is_own l x && is_ghost later x ≡ true) (sym scheduled_row)
      (ground (
        arith,
        w,
        over-infinite (clock + or_zero s.will_delay) later s.expires_at (ground (arith, w, h)),
      ))
  where
    scheduled_row : freed self clock s ≡ scheduled clock s
    scheduled_row =
        if_both (λ x. x ≡ scheduled clock s) (is_of self s)
          (λ _.
            if_both (λ x. x ≡ scheduled clock s) (is_delayed self s) (λ _. refl)
              λ n. ground (arith, w, n))
          λ n. ground (arith, w, n)

any-ghost :
    (l : Life) (self clock wait later : ℕ) (ss : List Session)
    → clock + wait ≤ later
    → any (waits_with l self wait) ss ≡ true
    → any (λ s. is_own l s && is_ghost later s) (map (freed self clock) ss) ≡ true
any-ghost l self clock wait later [] h w = cc w
any-ghost l self clock wait later (s ∷ ss) h w = elim (Bool-cases (waits_with l self wait s)) [
  | inl m ↦ rw (freed-ghost l self clock wait later s h m) refl
  | inr m ↦ ground (arith, any-ghost l self clock wait later ss h, w, m)
]

-- The reaping of this broker by another, while it has lost its connection to Postgres.
abbrev pub reaped_host : Env → DeadFaults → ℕ → Host → Host
reaped_host env f clock x = record x { db = (handle_dead_broker env f false x.self clock x.db).0 }

module _ (env : Env) (f : DeadFaults) (clock : ℕ) (x : Host) (client : Bytes) (c : ℕ)
    (l : f.lock ≡ false) (qu : f.query ≡ false) (sc : f.schedule ≡ false) (cl : f.clear ≡ false)
    (found : conn_for client x.conns.registry ≡ some c) where
  recovers :
      (q : Session → Bool)
      → ((s : Session) → q (attested x.self s) ≡ q s)
      → any (λ s. is_own (x.conns.life c) s && q s) (map (freed x.self clock) x.db.sessions) ≡ true
      → any
          (λ s. is_row (x.conns.life c).client x.self (x.conns.life c).token s && q s)
          (recovered false (reaped_host env f clock x)).db.sessions
        ≡ true
  unfolding attest_owned_sessions
  recovers q stable o =
      any-attested q x.self stable x.conns.life client c x.conns.registry _ found (
        ap (any (λ s. is_own (x.conns.life c) s && q s))
          (handle_dead_broker-frees env f x.self clock x.db l qu sc cl).0
        ∙ o)

-- While a broker has lost its connection to Postgres, another takes it for dead and handles it without a failure; then
-- the broker is connected again, and its attestation does not fail. It then goes on with the next notifications; the session of each
-- connection that it has held on to, with its token, is connected and its own again. But if the session has a will with a delay,
-- the will that the other broker has scheduled is still there and due once the delay is over, though the client is
-- connected.
pub recovered-restores :
    (env : Env) (f : DeadFaults) (clock : ℕ) (x : Host) (client : Bytes) (c : ℕ)
    (parse : Bytes → Option ℕ) (o : Outage) (stopped : Bool) (ws : List Wait)
    → f.lock ≡ false
    → f.query ≡ false
    → f.schedule ≡ false
    → f.clear ≡ false
    → conn_for client x.conns.registry ≡ some c
    → (reconnect o).0 ≡ true
    → let y = reaped_host env f clock x in
      let l = x.conns.life c in
      (run parse (broken o stopped false ∷ ws) y ≡ run parse ws (recovered false y))
      × (any (is_own l) x.db.sessions ≡ true
          → any (is_row l.client x.self l.token) (recovered false y).db.sessions ≡ true)
      × ((wait later : ℕ)
          → clock + wait ≤ later
          → any (waits_with l x.self wait) x.db.sessions ≡ true
          → any
              (λ s. is_row l.client x.self l.token s && is_ghost later s)
              (recovered false y).db.sessions
            ≡ true)
unfolding run
recovered-restores env f clock x client c parse o stopped ws a b d e found up = (
  rw up refl,
  λ own. plain (x.conns.life c) _ (
      recovers env f clock x client c a b d e found (λ s. true) (λ s. refl)
        (any-true (x.conns.life c) _
          ∙ any-freed (x.conns.life c) x.self clock x.db.sessions
          ∙ own)),
  λ wait later h w.
      recovers env f clock x client c a b d e found (is_ghost later) (λ s. same_ghost later s)
        (any-ghost (x.conns.life c) x.self clock wait later x.db.sessions h w),
)
  where
    same_ghost : (later : ℕ) (s : Session) → is_ghost later (attested x.self s) ≡ is_ghost later s
    same_ghost later s = refl

    any-true : (l : Life) (ss : List Session) → any (λ s. is_own l s && true) ss ≡ any (is_own l) ss
    any-true l [] = refl
    any-true l (s ∷ ss) = ground (arith, any-true l ss)

    plain :
        (l : Life) (ss : List Session)
        → any (λ s. is_row l.client x.self l.token s && true) ss ≡ true
        → any (is_row l.client x.self l.token) ss ≡ true
    plain l [] h = h
    plain l (s ∷ ss) h = ground (arith, plain l ss, h)
