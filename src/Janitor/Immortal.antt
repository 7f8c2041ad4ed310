-- ===== src/Janitor/Immortal.antt =====
-- A session without an expiry time, whatever the janitor does.
use pgmqtt.Prelude.{
  ℕ, ◌≡◌, refl, sym, subst, Bool, true, false, not, ◌&&◌, ◌||◌, Option, none, some, List, [], ◌∷◌,
  map, arith, Bytes, same, same_iff, any, all, keep, if◌then◌else◌, if_both,
}
use pgmqtt.Engine.Db.{Db, Session}
use pgmqtt.Engine.Publish.{Env, Stage}
use pgmqtt.Janitor.Sweeps.{
  Ages, Graces, is_expired, has_expired, is_over, expire_sessions, expire_retained,
  sweep_inbound_qos2, sweep_orphan_deliveries, sweep_orphan_messages,
}
use pgmqtt.Janitor.Dead.{
  DeadFaults, fires_now, fire_each, is_of, is_delayed, scheduled, cleared, release_sessions,
  handle_dead_broker,
}
use pgmqtt.Janitor.Dead.Reaped.{fire_each-OnlyAdds}
use pgmqtt.Janitor.Wills.{WillFaults, is_due_will, has_due, unwilled, fire_due_wills}

abbrev pub is_timeless : Option ℕ → Bool
is_timeless none = true
is_timeless (some t) = false

-- No row of the client has an expiry time.
abbrev pub lasts : Bytes → Session → Bool
lasts client s = not (same s.client client) || is_timeless s.expires_at

-- The client has a session, and it has no expiry time.
abbrev pub Lasting : Bytes → List Session → Type 0
Lasting client ss = (any (λ s. same s.client client) ss ≡ true) × (all (lasts client) ss ≡ true)

-- A job of the janitor: what it does to the tables.
pub data Work : Db → Db → Type 0 where
  expires : (fails : Bool) (now : ℕ) (db : Db) → Work db (expire_sessions fails now db).0
  expires_retained : (fails : Bool) (now : ℕ) (db : Db) → Work db (expire_retained fails now db).0
  sweeps_inbound :
      (fails : Bool) (a : Ages) (g : Graces) (now : ℕ) (db : Db)
      → Work db (sweep_inbound_qos2 fails a g now db).0
  sweeps_deliveries :
      (fails : Bool) (a : Ages) (g : Graces) (now : ℕ) (db : Db)
      → Work db (sweep_orphan_deliveries fails a g now db).0
  sweeps_messages :
      (fails : Bool) (a : Ages) (g : Graces) (now : ℕ) (db : Db)
      → Work db (sweep_orphan_messages fails a g now db).0
  fires : (env : Env) (f : WillFaults) (now : ℕ) (db : Db) → Work db (fire_due_wills env f now db).0
  reaps :
      (env : Env) (f : DeadFaults) (locked : Bool) (b now : ℕ) (db : Db)
      → Work db (handle_dead_broker env f locked b now db).0

pub data Works (db : Db) : Db → Type 0 where
  idle : Works db db
  further : {db' db'' : Db} → Works db db' → Work db' db'' → Works db db''

module _ (client : Bytes) where
  -- An update that keeps clients and expiry times.
  map-Lasting :
      (f : Session → Session)
      → ((s : Session) → (f s).client ≡ s.client)
      → ((s : Session) → (f s).expires_at ≡ s.expires_at)
      → (ss : List Session) → Lasting client ss
      → Lasting client (map f ss)
  map-Lasting f c e ss (h, k) = (there ss h, every ss k)
    where
      there :
          (ss : List Session)
          → any (λ s. same s.client client) ss ≡ true
          → any (λ s. same s.client client) (map f ss) ≡ true
      there [] h = h
      there (s ∷ ss) h = rw (c s) (ground (arith, there ss, h))

      every :
          (ss : List Session) → all (lasts client) ss ≡ true → all (lasts client) (map f ss) ≡ true
      every [] h = h
      every (s ∷ ss) h = rw (c s, e s) (ground (arith, every ss, h))

  if-field {ℓ} :
      {A : Type ℓ} (g : Session → A) (f : Session → Session) (p : Session → Bool)
      → ((s : Session) → g (f s) ≡ g s)
      → (s : Session) → g (if p s then f s else s) ≡ g s
  if-field g f p h s = if_both (λ (x : Session). g x ≡ g s) (p s) (λ _. h s) λ _. refl

  update-Lasting :
      (p : Session → Bool) (f : Session → Session) (ss : List Session)
      → ((s : Session) → (f s).client ≡ s.client)
      → ((s : Session) → (f s).expires_at ≡ s.expires_at)
      → Lasting client ss
      → Lasting client (map (λ s. if p s then f s else s) ss)
  update-Lasting p f ss c e h =
      map-Lasting (λ s. if p s then f s else s) (if-field (λ s. s.client) f p c)
        (if-field (λ s. s.expires_at) f p e) ss h

  timeless-over : (now : ℕ) (o : Option ℕ) → is_timeless o ≡ true → is_over now o ≡ false
  timeless-over now none h = refl
  timeless-over now (some t) h = cc

  -- No row of the client is expired.
  none_over :
      (now : ℕ) (ss : List Session)
      → all (lasts client) ss ≡ true
      → any (λ s. is_expired now s && same s.client client) ss ≡ false
  none_over now [] h = refl
  none_over now (s ∷ ss) h = ground (arith, timeless-over now s.expires_at, none_over now ss, h)

  expires-Lasting :
      (now : ℕ) (db : Db)
      → Lasting client db.sessions
      → Lasting client (keep (λ s. not (has_expired now db s.client)) db.sessions)
  expires-Lasting now db (h, k) = (there db.sessions h, every db.sessions k)
    where
      stays : (s : Session) → same s.client client ≡ true → has_expired now db s.client ≡ false
      stays s e =
          subst (λ c. has_expired now db c ≡ false) (sym ((same_iff s.client client).0 e))
            (none_over now db.sessions k)

      there :
          (ss : List Session)
          → any (λ s. same s.client client) ss ≡ true
          → any (λ s. same s.client client) (keep (λ s. not (has_expired now db s.client)) ss)
            ≡ true
      there [] h = h
      there (s ∷ ss) h = ground (arith, there ss, stays s, h)

      every :
          (ss : List Session)
          → all (lasts client) ss ≡ true
          → all (lasts client) (keep (λ s. not (has_expired now db s.client)) ss) ≡ true
      every [] h = h
      every (s ∷ ss) h = ground (arith, every ss, h)

  released-Lasting :
      (f : DeadFaults) (b now : ℕ) (db : Db)
      → Lasting client db.sessions
      → Lasting client (release_sessions f b now db).0.sessions
  released-Lasting f b now db h =
      let h' =
        update-Lasting (is_delayed b) (scheduled now) db.sessions (λ s. refl) (λ s. refl) h in
      if_both (λ (x : Db × Bool × Bool). Lasting client x.0.sessions) f.schedule (λ _. h)
        λ _.
          if_both (λ (x : Db × Bool × Bool). Lasting client x.0.sessions) f.clear (λ _. h')
            λ _. update-Lasting (is_of b) cleared _ (λ s. refl) (λ s. refl) h'

  fired-Lasting :
      (env : Env) (at : Bytes → Option Stage) (p : Session → Bool) (db : Db)
      → Lasting client db.sessions
      → Lasting client (fire_each env at p db.sessions db).sessions
  fired-Lasting env at p db =
      subst (Lasting client) (sym (fire_each-OnlyAdds env at p db.sessions db).0)

  Work-Lasting :
      {db db' : Db} → Work db db' → Lasting client db.sessions → Lasting client db'.sessions
  unfolding expire_sessions expire_retained sweep_inbound_qos2 sweep_orphan_deliveries
      sweep_orphan_messages fire_due_wills handle_dead_broker
  Work-Lasting (expires fails now db) h =
      if_both (λ (x : Db × Bool). Lasting client x.0.sessions) fails (λ _. h)
        λ _. expires-Lasting now db h
  Work-Lasting (expires_retained fails now db) h =
      if_both (λ (x : Db × Bool). Lasting client x.0.sessions) fails (λ _. h) λ _. h
  Work-Lasting (sweeps_inbound fails a g now db) h =
      if_both (λ (x : Db × Bool). Lasting client x.0.sessions) fails (λ _. h) λ _. h
  Work-Lasting (sweeps_deliveries fails a g now db) h =
      if_both (λ (x : Db × Bool). Lasting client x.0.sessions) fails (λ _. h) λ _. h
  Work-Lasting (sweeps_messages fails a g now db) h =
      if_both (λ (x : Db × Bool). Lasting client x.0.sessions) fails (λ _. h) λ _. h
  Work-Lasting (fires env f now db) h =
      let h' = fired-Lasting env f.will (is_due_will f now) db h in
      if_both (λ (x : Db × Bool). Lasting client x.0.sessions) f.query (λ _. h)
        λ _.
          if_both (λ (x : Db × Bool). Lasting client x.0.sessions) f.clear (λ _. h')
            λ _. update-Lasting (has_due f now db.sessions) unwilled _ (λ s. refl) (λ s. refl) h'
  Work-Lasting (reaps env f locked b now db) h =
      if_both (λ (x : Db × Bool × Bool). Lasting client x.0.sessions) f.lock (λ _. h)
        λ _.
          if_both (λ (x : Db × Bool × Bool). Lasting client x.0.sessions) locked (λ _. h)
            λ _.
              if_both (λ (x : Db × Bool × Bool). Lasting client x.0.sessions) f.query (λ _. h)
                λ _. released-Lasting f b now _ (fired-Lasting env f.will (fires_now b) db h)

  -- The whole history of the janitor keeps such a session.
  pub Works-Lasting :
      {db db' : Db} → Works db db' → Lasting client db.sessions → Lasting client db'.sessions
  Works-Lasting idle h = h
  Works-Lasting (further w s) h = Work-Lasting s (Works-Lasting w h)
