-- ===== src/Janitor/Dead/Reaped.antt =====
-- What the handling of a dead broker does to the sessions.
use pgmqtt.Prelude.{
  ℕ, ◌+◌, ◌&&◌, none, some, not, ltb, ◌==◌, ◌≡◌, refl, sym, ap, ◌∙◌, Bool, true, false, Option,
  List, [], ◌∷◌, ◌++◌, map, arith, Bytes, any, if◌then◌else◌, Bool-cases, inl, inr, if_both,
  append-nil, append_assoc,
}
use pgmqtt.Engine.Db.{Db, Session, Delivery, Will}
use pgmqtt.Engine.Publish.{Env, Stage}
use pgmqtt.Engine.Session.{now, or_zero, is_will, fire_will}
use pgmqtt.Engine.Session.Superseded.{OnlyAdds, fired-OnlyAdds}
use pgmqtt.Janitor.Dead.{
  owns, or_infinite, is_of, DeadFaults, fires_now, fire_each, is_delayed, scheduled, cleared,
  handle_dead_broker,
}

if-OnlyAdds :
    (env : Env) (fault : Option Stage) (b : Bool) (s : Session) (db : Db)
    → OnlyAdds db (if b then (fire_will env fault s.will db).0 else db)
if-OnlyAdds env fault b s db =
    if_both (OnlyAdds db) b (λ _. fired-OnlyAdds env fault now s.will db)
      λ _. (refl, ([], sym (append-nil db.deliveries)))

-- Publishing wills changes no session and takes no delivery away.
pub fire_each-OnlyAdds :
    (env : Env) (at : Bytes → Option Stage) (p : Session → Bool) (ss : List Session) (db : Db)
    → OnlyAdds db (fire_each env at p ss db)
unfolding fire_each
fire_each-OnlyAdds env at p [] db = (refl, ([], sym (append-nil db.deliveries)))
fire_each-OnlyAdds env at p (s ∷ ss) db =
    let db' : Db = if p s then (fire_will env (at s.client) s.will db).0 else db in
    let (same, (rows, kept)) = if-OnlyAdds env (at s.client) (p s) s db in
    let (same', (rows', kept')) = fire_each-OnlyAdds env at p ss db' in
    (
      same' ∙ same,
      (rows ++ rows', kept' ∙ ap (λ ds. ds ++ rows') kept ∙ append_assoc db.deliveries rows rows'),
    )

-- What becomes of a session: one of the dead broker has no owner any more, its will is scheduled if it is delayed and
-- dropped if not; any other stays.
abbrev pub freed : ℕ → ℕ → Session → Session
freed b clock s = if is_of b s then (if is_delayed b s then scheduled clock s else cleared s) else s

both : (b clock : ℕ) (s : Session) → Session
both b clock s =
    let s' = if is_delayed b s then scheduled clock s else s in
    if is_of b s' then cleared s' else s'

statement_twice : (b clock : ℕ) (s : Session) → both b clock s ≡ freed b clock s
unfolding both
statement_twice b clock s = elim (Bool-cases (is_delayed b s)) [
  | inl e ↦ rw (e, owner e) refl
  | inr e ↦ rw e refl
]
  where
    owner : is_delayed b s ≡ true → is_of b s ≡ true
    owner e = ground (arith, e)

two_statements :
    (b clock : ℕ) (ss : List Session)
    → map
        (λ s. if is_of b s then cleared s else s)
        (map (λ s. if is_delayed b s then scheduled clock s else s) ss)
      ≡ map (freed b clock) ss
unfolding both
two_statements b clock [] = refl
two_statements b clock (s ∷ ss) = λ i. statement_twice b clock s i ∷ two_statements b clock ss i

none-freed : (b clock : ℕ) (ss : List Session) → any (is_of b) (map (freed b clock) ss) ≡ false
none-freed b clock [] = refl
none-freed b clock (s ∷ ss) = rw (free (is_of b s) (is_delayed b s) refl) (none-freed b clock ss)
  where
    free :
        (o d : Bool)
        → is_of b s ≡ o
        → is_of b (if o then (if d then scheduled clock s else cleared s) else s) ≡ false
    free true true e = refl
    free true false e = refl
    free false d e = e

-- What the two statements leave, in the terms of the code.
pub handle_dead_broker-frees :
    (env : Env) (f : DeadFaults) (b clock : ℕ) (db : Db)
    → f.lock ≡ false
    → f.query ≡ false
    → f.schedule ≡ false
    → f.clear ≡ false
    → let db' = (handle_dead_broker env f false b clock db).0 in
      (db'.sessions ≡ map (freed b clock) db.sessions)
      × (any (is_of b) db'.sessions ≡ false)
      × ((rows : List Delivery) × (db'.deliveries ≡ db.deliveries ++ rows))
unfolding handle_dead_broker
handle_dead_broker-frees env f b clock db l q s c =
    if_both Reaps f.lock (λ bad. cc (bad, l))
      λ _.
        if_both Reaps f.query (λ bad. cc (bad, q))
          λ _.
            if_both Reaps f.schedule (λ bad. cc (bad, s))
              λ _. if_both Reaps f.clear (λ bad. cc (bad, c)) λ _. (all, unowned, fired.1)
  where
    Reaps : Db × Bool × Bool → Type 0
    Reaps (db', claimed, failed) =
        (db'.sessions ≡ map (freed b clock) db.sessions)
        × (any (is_of b) db'.sessions ≡ false)
        × ((rows : List Delivery) × (db'.deliveries ≡ db.deliveries ++ rows))

    fired : OnlyAdds db (fire_each env f.will (fires_now b) db.sessions db)
    fired = fire_each-OnlyAdds env f.will (fires_now b) db.sessions db

    all :
        map
          (λ x. if is_of b x then cleared x else x)
          (map
            (λ x. if is_delayed b x then scheduled clock x else x)
            (fire_each env f.will (fires_now b) db.sessions db).sessions)
        ≡ map (freed b clock) db.sessions
    all = two_statements b clock _ ∙ ap (map (freed b clock)) fired.0

    unowned :
        any (is_of b) (
          map
            (λ x. if is_of b x then cleared x else x)
            (map
              (λ x. if is_delayed b x then scheduled clock x else x)
              (fire_each env f.will (fires_now b) db.sessions db).sessions))
        ≡ false
    unowned = ap (any (is_of b)) all ∙ none-freed b clock db.sessions

-- The time of a will, or that of the session's expiry if it is before.
abbrev pub time_to_fire : ℕ → Option ℕ → ℕ
time_to_fire t none = t
time_to_fire t (some u) = if ltb u t then u else t

abbrev is_none {ℓ} : {A : Type ℓ} → Option A → Bool
is_none none = true
is_none (some a) = false

-- A row after the reaping of its owner, column by column; `keeps` says that it has a will with a delay.
abbrev pub reaped_row : Bool → ℕ → Session → Session
reaped_row keeps clock s = record {
  client = s.client;
  broker = none;
  connected = false;
  token = s.token;
  protocol = s.protocol;
  clean_start = s.clean_start;
  expiry_interval = s.expiry_interval;
  will = if keeps then s.will else none;
  will_delay = if keeps then s.will_delay else none;
  will_fire_at =
      if keeps
      then some (time_to_fire (clock + or_zero s.will_delay) s.expires_at)
      else s.will_fire_at;
  expires_at = s.expires_at;
}

abbrev pub has_owner : ℕ → Option ℕ → Bool
has_owner b none = false
has_owner b (some x) = x == b

abbrev pub reap : ℕ → ℕ → Session → Session
reap b clock s =
    if has_owner b s.broker
    then reaped_row (not (is_none s.will) && ltb 0 (or_zero s.will_delay)) clock s
    else s

owner : (b : ℕ) (o : Option ℕ) → owns b o ≡ has_owner b o
owner b none = refl
owner b (some x) = refl

willed : (w : Option Will) (d : ℕ) → (is_will w && ltb 0 d) ≡ (not (is_none w) && ltb 0 d)
willed none d = refl
willed (some w) d = refl

same_time : (t : ℕ) (o : Option ℕ) → or_infinite t o ≡ time_to_fire t o
same_time t none = refl
same_time t (some u) = ground arith

any-owner : (b : ℕ) (ss : List Session) → any (λ s. has_owner b s.broker) ss ≡ any (is_of b) ss
any-owner b [] = refl
any-owner b (s ∷ ss) = ground (arith, owner b s.broker, any-owner b ss)

freed-reap : (b clock : ℕ) (s : Session) → freed b clock s ≡ reap b clock s
freed-reap b clock s =
    by_cases (owns b s.broker) (has_owner b s.broker) (is_delayed b s)
      (not (is_none s.will) && ltb 0 (or_zero s.will_delay)) (owner b s.broker)
      (same_delay (owns b s.broker) (is_will s.will) (ltb 0 (or_zero s.will_delay))
        (willed s.will (or_zero s.will_delay)))
  where
    same_delay : (o w d : Bool) {k : Bool} → (w && d) ≡ k → o ≡ true → (o && w && d) ≡ k
    same_delay true w d h e = h
    same_delay false w d h e = cc e

    by_cases :
        (o o' w w' : Bool)
        → o ≡ o'
        → (o ≡ true → w ≡ w')
        → (if o then (if w then scheduled clock s else cleared s) else s)
          ≡ (if o' then reaped_row w' clock s else s)
    by_cases true true true true e k = λ i. record (scheduled clock s) {
      will_fire_at = some (same_time (clock + or_zero s.will_delay) s.expires_at i);
    }
    by_cases true true false false e k = refl
    by_cases false false w w' e k = refl
    by_cases true true true false e k = cc (k refl)
    by_cases true true false true e k = cc (k refl)
    by_cases true false w w' e k = cc e
    by_cases false true w w' e k = cc e

map-reap : (b clock : ℕ) (ss : List Session) → map (freed b clock) ss ≡ map (reap b clock) ss
map-reap b clock [] = refl
map-reap b clock (s ∷ ss) = λ i. freed-reap b clock s i ∷ map-reap b clock ss i

-- If the lock of a broker is free and no statement fails: no session is owned by the broker any more; each that was is not
-- connected, with its will scheduled after the delay (or at the session's expiry if that is before) if it has one,
-- and else dropped; every other session is as it was; and no delivery is lost.
pub handle_dead_broker-reaps :
    (env : Env) (f : DeadFaults) (b clock : ℕ) (db : Db)
    → f.lock ≡ false
    → f.query ≡ false
    → f.schedule ≡ false
    → f.clear ≡ false
    → let db' = (handle_dead_broker env f false b clock db).0 in
      (db'.sessions ≡ map (reap b clock) db.sessions)
      × (any (λ s. has_owner b s.broker) db'.sessions ≡ false)
      × ((rows : List Delivery) × (db'.deliveries ≡ db.deliveries ++ rows))
handle_dead_broker-reaps env f b clock db l q s c =
    let (rows, unowned, added) = handle_dead_broker-frees env f b clock db l q s c in
    (
      rows ∙ map-reap b clock db.sessions,
      any-owner b (handle_dead_broker env f false b clock db).0.sessions ∙ unowned,
      added,
    )
