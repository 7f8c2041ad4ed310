-- ===== src/Janitor/Cleared.antt =====
-- What becomes of a session that is over, and of the wills that are due.
use pgmqtt.Prelude.{
  ℕ, ◌≡◌, refl, ap, ◌∙◌, Bool, true, false, not, ◌&&◌, Option, none, some, List, [], ◌∷◌, map,
  arith, Bytes, ◌≤◌, ◌⊎◌, ◌↔◌, subst, sym, same, same_self, same_iff, any, keep, if◌then◌else◌,
  Bool-cases, inl, inr, if_both,
}
use pgmqtt.Engine.Db.{Db, Session, Delivery, Subscription, Will}
use pgmqtt.Engine.Publish.{Env, Stage, begin, publish_core}
use pgmqtt.Engine.Session.{find_session, fire_will}
use pgmqtt.Janitor.Sweeps.{is_over, is_expired, has_expired, expire_sessions}
use pgmqtt.Janitor.Dead.{fire_each}
use pgmqtt.Janitor.Dead.Reaped.{fire_each-OnlyAdds}
use pgmqtt.Janitor.Wills.{WillFaults, is_due_will, has_due, unwilled, fire_due_wills}

module _ (c : Bytes) (dead : Bytes → Bool) where
  keep-alive {ℓ} :
      {A : Type ℓ} (key : A → Bytes) (xs : List A)
      → keep (λ x. same (key x) c) (keep (λ x. not (dead (key x))) xs)
        ≡ (if dead c then [] else keep (λ x. same (key x) c) xs)
  keep-alive key [] = ground arith
  keep-alive key (x ∷ xs) = elim (Bool-cases (same (key x) c)) [
    | inl e ↦ ground (arith, keep-alive key xs, e, ap dead ((same_iff (key x) c).0 e))
    | inr e ↦ ground (arith, keep-alive key xs, e)
  ]

  find-alive :
      (xs : List Session)
      → find_session c (keep (λ x. not (dead x.client)) xs)
        ≡ (if dead c then none else find_session c xs)
  find-alive [] = ground arith
  find-alive (x ∷ xs) = elim (Bool-cases (same x.client c)) [
    | inl e ↦ ground (arith, find-alive xs, e, ap dead ((same_iff x.client c).0 e))
    | inr e ↦ ground (arith, find-alive xs, e)
  ]

-- The client has a session that is not connected and whose expiry time has come.
abbrev pub IsOver : ℕ → Bytes → List Session → Type 0
IsOver now c [] = ⊥
IsOver now c (s ∷ ss) =
    ((s.client ≡ c) × (s.connected ≡ false) × ((t : ℕ) × (s.expires_at ≡ some t) × (t ≤ now)))
    ⊎ IsOver now c ss

has_come : (now : ℕ) (o : Option ℕ) → (is_over now o ≡ true) ↔ ((t : ℕ) × (o ≡ some t) × (t ≤ now))
has_come now none = (λ h. cc h, λ (t, e, h). cc e)
has_come now (some u) = (
  λ h. (u, refl, ground arith),
  λ (t, e, h). subst (λ o. is_over now o ≡ true) (sym e) (ground (arith, h)),
)

pub expired_iff :
    (now : ℕ) (c : Bytes) (ss : List Session)
    → (any (λ s. is_expired now s && same s.client c) ss ≡ true) ↔ IsOver now c ss
expired_iff now c [] = (λ h. cc h, λ h. absurd h)
expired_iff now c (s ∷ ss) = (found (expired_iff now c ss).0, counted (expired_iff now c ss).1)
  where
    found :
        (any (λ s. is_expired now s && same s.client c) ss ≡ true → IsOver now c ss)
        → any (λ s. is_expired now s && same s.client c) (s ∷ ss) ≡ true
        → IsOver now c (s ∷ ss)
    found rest h = elim (Bool-cases (is_expired now s && same s.client c)) [
      | inl e ↦ inl (
        (same_iff s.client c).0 (ground (arith, e)),
        ground (arith, e),
        (has_come now s.expires_at).0 (ground (arith, e)),
      )
      | inr e ↦ inr (rest (ground (arith, h, e)))
    ]

    counted :
        (IsOver now c ss → any (λ s. is_expired now s && same s.client c) ss ≡ true)
        → IsOver now c (s ∷ ss)
        → any (λ s. is_expired now s && same s.client c) (s ∷ ss) ≡ true
    counted rest (inl (k, a, o)) =
        ground (arith, (same_iff s.client c).1 k, a, (has_come now s.expires_at).1 o)
    counted rest (inr h) = ground (arith, rest h)

-- What the tables hold of a client: its session, deliveries, subscriptions and QoS 2 claims.
pub record Rows : Type 0 where
  pub session : Option Session
  pub deliveries : List Delivery
  pub subscriptions : List Subscription
  pub claims : List (Bytes × ℕ)

abbrev pub rows_of : Bytes → Db → Rows
rows_of c db = record {
  session = find_session c db.sessions;
  deliveries = keep (λ d. same d.client c) db.deliveries;
  subscriptions = keep (λ s. same s.client c) db.subscriptions;
  claims = keep (λ r. same r.0 c) db.inbound_qos2;
}

expired_rows :
    (now : ℕ) (db : Db) (c : Bytes)
    → rows_of c (expire_sessions false now db).0 ≡ (
        if has_expired now db c
        then record { session = none; deliveries = []; subscriptions = []; claims = [] }
        else rows_of c db)
unfolding expire_sessions
expired_rows now db c = by_cases (has_expired now db c) refl
  where
    dead : Bytes → Bool
    dead = has_expired now db

    rows :
        (b : Bool)
        → dead c ≡ b
        → rows_of c (expire_sessions false now db).0 ≡ record {
          session = if b then none else find_session c db.sessions;
          deliveries = if b then [] else keep (λ d. same d.client c) db.deliveries;
          subscriptions = if b then [] else keep (λ s. same s.client c) db.subscriptions;
          claims = if b then [] else keep (λ r. same r.0 c) db.inbound_qos2;
        }
    rows b e =
        subst
          (λ b. rows_of c (expire_sessions false now db).0 ≡ record {
            session = if b then none else find_session c db.sessions;
            deliveries = if b then [] else keep (λ d. same d.client c) db.deliveries;
            subscriptions = if b then [] else keep (λ s. same s.client c) db.subscriptions;
            claims = if b then [] else keep (λ r. same r.0 c) db.inbound_qos2;
          })
          e
          λ i. record {
            session = find-alive c dead db.sessions i;
            deliveries = keep-alive c dead (λ d. d.client) db.deliveries i;
            subscriptions = keep-alive c dead (λ s. s.client) db.subscriptions i;
            claims = keep-alive c dead (λ r. r.0) db.inbound_qos2 i;
          }

    by_cases :
        (b : Bool)
        → dead c ≡ b
        → rows_of c (expire_sessions false now db).0 ≡ (
            if b
            then record { session = none; deliveries = []; subscriptions = []; claims = [] }
            else rows_of c db)
    by_cases true e = rows true e
    by_cases false e = rows false e

-- If the statement does not fail, the expiry of sessions takes away all that the tables hold of a client that has a session which is
-- not connected and whose expiry time has come; it leaves all that they hold of any other client; and it touches no
-- message and no retained message.
pub expire_sessions_exact :
    (now : ℕ) (db : Db) (c : Bytes)
    → (IsOver now c db.sessions
        → rows_of c (expire_sessions false now db).0
          ≡ record { session = none; deliveries = []; subscriptions = []; claims = [] })
      × (¬ IsOver now c db.sessions → rows_of c (expire_sessions false now db).0 ≡ rows_of c db)
      × ((expire_sessions false now db).0.messages ≡ db.messages)
      × ((expire_sessions false now db).0.retained ≡ db.retained)
unfolding expire_sessions
expire_sessions_exact now db c = (
  λ over. expired_rows now db c ∙ rw ((expired_iff now c db.sessions).1 over) refl,
  λ alive. elim (Bool-cases (has_expired now db c)) [
    | inl e ↦ absurd (alive ((expired_iff now c db.sessions).0 e))
    | inr e ↦ expired_rows now db c ∙ rw e refl
  ],
  refl,
  refl,
)

-- A will that is due is found by its client.
none-due :
    (f : WillFaults) (now : ℕ) (xs ys : List Session)
    → ((p : Session → Bool) → any p xs ≡ true → any p ys ≡ true)
    → any (is_due_will f now) (map (λ s. if has_due f now ys s then unwilled s else s) xs) ≡ false
none-due f now [] ys h = refl
none-due f now (x ∷ xs) ys h = elim (Bool-cases (has_due f now ys x)) [
  | inl e ↦ ground (arith, e, none-due f now xs ys (λ p k. h p (ground (arith, k))))
  | inr e ↦ ground (arith, e, undue, none-due f now xs ys (λ p k. h p (ground (arith, k))))
]
  where
    undue : has_due f now ys x ≡ false → is_due_will f now x ≡ false
    undue e = elim (Bool-cases (is_due_will f now x)) [
      | inr d ↦ d
      | inl d ↦ cc (
        h (λ r. is_due_will f now r && same r.client x.client) (rw (d, same_self x.client) refl),
        e,
      )
    ]

-- If the query and the clearing do not fail, no will that is due and not locked is left, and the sessions are as before but for the
-- wills that were.
pub fire_due_wills-clears :
    (env : Env) (f : WillFaults) (now : ℕ) (db : Db)
    → f.query ≡ false
    → f.clear ≡ false
    → let db' = (fire_due_wills env f now db).0 in
      (db'.sessions ≡ map (λ s. if has_due f now db.sessions s then unwilled s else s) db.sessions)
      × (any (is_due_will f now) db'.sessions ≡ false)
unfolding fire_due_wills
fire_due_wills-clears env f now db q c =
    if_both Clears f.query (λ bad. cc (bad, q))
      λ _.
        if_both Clears f.clear (λ bad. cc (bad, c))
          λ _. (
            same_rows,
            ap (any (is_due_will f now)) same_rows
                ∙ none-due f now db.sessions db.sessions (λ p h. h),
          )
  where
    Clears : Db × Bool → Type 0
    Clears (db', failed) =
        (db'.sessions
          ≡ map (λ s. if has_due f now db.sessions s then unwilled s else s) db.sessions)
        × (any (is_due_will f now) db'.sessions ≡ false)

    same_rows :
        map
          (λ s. if has_due f now db.sessions s then unwilled s else s)
          (fire_each env f.will (is_due_will f now) db.sessions db).sessions
        ≡ map (λ s. if has_due f now db.sessions s then unwilled s else s) db.sessions
    same_rows =
        ap (map (λ s. if has_due f now db.sessions s then unwilled s else s))
          (fire_each-OnlyAdds env f.will (is_due_will f now) db.sessions db).0

unpublished : (env : Env) (w : Option Will) (db : Db) → (fire_will env (some begin) w db).0 ≡ db
unfolding publish_core
unpublished env none db = refl
unpublished env (some w) db = refl

none_published :
    (env : Env) (at : Bytes → Option Stage) (p : Session → Bool)
    → ((c : Bytes) → at c ≡ some begin)
    → (ss : List Session) (db : Db) → fire_each env at p ss db ≡ db
unfolding fire_each
none_published env at p h [] db = refl
none_published env at p h (s ∷ ss) db =
    none_published env at p h ss _
    ∙ if_both (λ (x : Db). x ≡ db) (p s)
        (λ _. ap (λ o. (fire_will env o s.will db).0) (h s.client) ∙ unpublished env s.will db)
        λ _. refl

-- If the publishing of the due wills fails, because no transaction can be begun, while the job's own transaction goes
-- through, no message is published and yet no due will is left: the wills are lost.
pub fire_due_wills-loses :
    (env : Env) (f : WillFaults) (now : ℕ) (db : Db)
    → f.query ≡ false
    → f.clear ≡ false
    → ((c : Bytes) → f.will c ≡ some begin)
    → ((fire_due_wills env f now db).0.messages ≡ db.messages)
      × (any (is_due_will f now) (fire_due_wills env f now db).0.sessions ≡ false)
unfolding fire_due_wills
fire_due_wills-loses env f now db q c fails = (
  if_both (λ (x : Db × Bool). x.0.messages ≡ db.messages) f.query (λ _. refl)
      λ _.
        if_both (λ (x : Db × Bool). x.0.messages ≡ db.messages) f.clear (λ _. same_messages)
          λ _. same_messages,
  (fire_due_wills-clears env f now db q c).1,
)
  where
    same_messages : (fire_each env f.will (is_due_will f now) db.sessions db).messages ≡ db.messages
    same_messages =
        ap (λ d. d.messages) (none_published env f.will (is_due_will f now) fails db.sessions db)
