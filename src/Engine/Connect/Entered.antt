-- ===== src/Engine/Connect/Entered.antt =====
-- What a CONNECT that is accepted leaves behind.
use pgmqtt.Engine.Inbound.{mqtt5}
use pgmqtt.Prelude.{
  ◌⊎◌, ◌↔◌, ◌==◌, same_iff, ℕ, suc, ◌≡◌, refl, sym, ap, ◌∙◌, subst, Bool, true, false, not, ◌&&◌,
  Option, none, some, List, [], ◌∷◌, ◌++◌, map, arith, Bytes, same, same_self, keep, any,
  if◌then◌else◌, if_both, append-nil, inl, inr, Bool-cases,
}
use pgmqtt.Engine.Db.{Db, Session, Delivery}
use pgmqtt.Engine.Registry.{Registry, conn_for, register_conn}
use pgmqtt.Engine.Session.{Life, find_session, owned, new_session, take_row, take_ownership}
use pgmqtt.Engine.Outbound.{Conn}
use pgmqtt.Engine.Session.Superseded.{is_row, take_ownership-Taken}
use pgmqtt.Engine.Connect.{Connect, Policy, UserRow, Compare, pass, life_of, open_conn, checks}
use pgmqtt.Engine.Connect.Handshake.{
  Effect, connack, Offer, offer_of, Broker, Reply, unanswered, accepted, ConnectFaults, Setting,
  untimed, drop_state, clean_up, connack_of, resume, welcome, owning, proceed, handle_connect,
}

abbrev pub is_none : Option ℕ → Bool
is_none none = true
is_none (some n) = false

-- The row of a connected session with this owner and token, and with no timer set.
abbrev pub is_live : Bytes → ℕ → ℕ → Session → Bool
is_live client self t s = is_row client self t s && is_none s.will_fire_at && is_none s.expires_at

-- The sessions of the other clients.
abbrev pub others : Bytes → List Session → List Session
others client = keep (λ s. not (same s.client client))

any-untimed :
    (client : Bytes) (self t : ℕ) (ss : List Session)
    → any (is_row client self t) ss ≡ true
    → any (is_live client self t) (map (λ s. if same s.client client then untimed s else s) ss)
      ≡ true
any-untimed client self t [] h = h
any-untimed client self t (s ∷ ss) h = elim (Bool-cases (same s.client client)) [
  | inl e ↦ ground (arith, any-untimed client self t ss, h, e)
  | inr e ↦ ground (arith, any-untimed client self t ss, h, e)
]

module _ (client : Bytes) (f : Session → Session)
    (keeps : (s : Session) → same (f s).client client ≡ same s.client client) where
  others-update :
      (ss : List Session)
      → others client (map (λ s. if same s.client client then f s else s) ss) ≡ others client ss
  others-update [] = refl
  others-update (s ∷ ss) = elim (Bool-cases (same s.client client)) [
    | inl e ↦ rw (e, keeps s, e) (others-update ss)
    | inr e ↦ rw (e, e) (ap (λ r. s ∷ r) (others-update ss))
  ]

keep-append {ℓ} :
    {A : Type ℓ} (p : A → Bool) (xs ys : List A) → keep p (xs ++ ys) ≡ keep p xs ++ keep p ys
keep-append p [] ys = refl
keep-append p (x ∷ xs) ys = ground (arith, keep-append p xs ys)

gone {ℓ} : {A : Type ℓ} (p : A → Bool) (xs : List A) → any p (keep (λ x. not (p x)) xs) ≡ false
gone p [] = refl
gone p (x ∷ xs) = ground (arith, gone p xs)

-- A clean start leaves none of the client's rows.
abbrev IsDropped : Bytes → Db → Type 0
IsDropped client db =
    (any (λ r. same r.client client) db.subscriptions ≡ false)
    × (any (λ d. same d.client client) db.deliveries ≡ false)
    × (any (λ r. same r.0 client) db.inbound_qos2 ≡ false)

clean_up-IsDropped :
    (clean : Bool) (client : Bytes) (db : Db)
    → clean ≡ true
    → IsDropped client (clean_up clean client db)
clean_up-IsDropped true client db h = (
  gone (λ r. same r.client client) db.subscriptions,
  gone (λ d. same d.client client) db.deliveries,
  gone (λ r. same r.0 client) db.inbound_qos2,
)
clean_up-IsDropped false client db h = cc

others-take_row :
    (self t : ℕ) (l : Life) (db : Db) (o : Option Session)
    → others l.client (take_row self t l db o).0.sessions ≡ others l.client db.sessions
others-take_row self t l db none =
    keep-append (λ s. not (same s.client l.client)) db.sessions (new_session self t l ∷ [])
    ∙ rw (same_self l.client) (append-nil _)
others-take_row self t l db (some r) =
    others-update l.client (owned self t l) (λ s. refl) db.sessions

conn_for-registered :
    (client : Bytes) (c : ℕ) (rs : Registry)
    → conn_for client (register_conn client c rs).1 ≡ some c
unfolding register_conn
conn_for-registered client c [] = rw (same_self client) refl
conn_for-registered client c ((k, x) ∷ rs) = elim (Bool-cases (same k client)) [
  | inl e ↦ rw (e, same_self client) refl
  | inr e ↦ rw (e, e) (conn_for-registered client c rs)
]

-- The broker after a CONNECT under this client id, and the CONNACK if there is one.
pub record IsEntered (p : Policy) (s : Setting) (pk : Connect) (client : Bytes) (b b' : Broker)
    : Type 0 where
  pub found : conn_for client b'.registry ≡ some s.conn
  pub live : any (is_live client p.self s.token) b'.db.sessions ≡ true
  pub apart : others client b'.db.sessions ≡ others client b.db.sessions
  pub unsubscribed : pk.clean ≡ true → any (λ r. same r.client client) b'.db.subscriptions ≡ false
  pub unqueued : pk.clean ≡ true → any (λ d. same d.client client) b'.db.deliveries ≡ false
  pub unclaimed : pk.clean ≡ true → any (λ r. same r.0 client) b'.db.inbound_qos2 ≡ false

abbrev pub is_new : Option Session → Bool
is_new none = true
is_new (some s) = false

module _ (p : Policy) (s : Setting) (pk : Connect) (client : Bytes) (b : Broker) where
  abbrev owned_db : Db
  owned_db =
      (take_row p.self s.token (life_of pk client) b.db (find_session client b.db.sessions)).0

  abbrev cleaned : Db
  cleaned = clean_up pk.clean client owned_db

  owned_live : any (is_row client p.self s.token) owned_db.sessions ≡ true
  unfolding take_ownership
  owned_live =
      (take_ownership-Taken p.self s.token (life_of pk client)
        (record (life_of pk client) { token = suc s.token }) (ground arith) refl b.db).1

  same_sessions :
      (clean : Bool) (db : Db) → (if clean then drop_state client db else db).sessions ≡ db.sessions
  same_sessions true db = refl
  same_sessions false db = refl

  cleaned_live : any (is_live client p.self s.token) cleaned.sessions ≡ true
  cleaned_live =
      rw (same_sessions pk.clean owned_db)
        (any-untimed client p.self s.token owned_db.sessions owned_live)

  cleaned_apart : others client cleaned.sessions ≡ others client b.db.sessions
  cleaned_apart =
      rw (same_sessions pk.clean owned_db)
        (others-update client untimed (λ x. refl) owned_db.sessions)
      ∙ others-take_row p.self s.token (life_of pk client) b.db (find_session client b.db.sessions)

  -- The drain of a resumed session changes deliveries alone.
  cleaned-IsEntered :
      (b' : Broker) (rows : List Delivery)
      → conn_for client b'.registry ≡ some s.conn
      → b'.db ≡ record cleaned { deliveries = rows }
      → (pk.clean ≡ true → rows ≡ cleaned.deliveries)
      → IsEntered p s pk client b b'
  cleaned-IsEntered b' rows r e d = record {
    found = r;
    live = ap (λ db. any (is_live client p.self s.token) db.sessions) e ∙ cleaned_live;
    apart = ap (λ db. others client db.sessions) e ∙ cleaned_apart;
    unsubscribed = λ c.
        ap (λ db. any (λ x. same x.client client) db.subscriptions) e
        ∙ (clean_up-IsDropped pk.clean client owned_db c).0;
    unqueued = λ c.
        ap (λ db. any (λ x. same x.client client) db.deliveries) e
        ∙ ap (any (λ x. same x.client client)) (d c)
        ∙ (clean_up-IsDropped pk.clean client owned_db c).1;
    unclaimed = λ c.
        ap (λ db. any (λ x. same x.0 client) db.inbound_qos2) e
        ∙ (clean_up-IsDropped pk.clean client owned_db c).2;
  }

  is_new-take_row :
      (o : Option Session) → (take_row p.self s.token (life_of pk client) b.db o).1.2 ≡ is_new o
  is_new-take_row none = refl
  is_new-take_row (some r) = refl

  abbrev Entering : ConnectFaults → Broker × Reply → Type 0
  Entering f x =
      IsEntered p s pk client b x.0
      × (f.connack ≡ true → x.1 ≡ unanswered)
      × (f.connack ≡ false
          → (l : Life) × (c : Conn) × (es : List Effect) × (x.1 ≡ accepted l c)
            × (x.0.events
                ≡ es ++ connack_of p pk client (is_new (find_session client b.db.sessions)) ∷ []))

  unresumed : (clean : Bool) (c d : Conn) → clean ≡ true → (if clean then c else d).rows ≡ c.rows
  unresumed true c d h = refl
  unresumed false c d h = cc

  welcome-Entering :
      (f : ConnectFaults) (l : Life) (new : Bool) (b' : Broker)
      → new ≡ is_new (find_session client b.db.sessions)
      → conn_for client b'.registry ≡ some s.conn
      → b'.db ≡ cleaned
      → Entering f (welcome p s f pk client new l b')
  welcome-Entering f l new b' n r e =
      if_both (Entering f) f.connack
        (λ bad. (
          cleaned-IsEntered b' cleaned.deliveries r e (λ _. refl),
          λ _. refl,
          λ good. cc (bad, good),
        ))
        λ good. (
          cleaned-IsEntered _ rows r (ap (λ (db : Db). record db { deliveries = rows }) e)
              λ c. unresumed pk.clean _ _ c ∙ ap (λ db. db.deliveries) e,
          λ bad. cc (bad, good),
          λ _. (l, _, b'.events, refl, ap (λ k. b'.events ++ connack_of p pk client k ∷ []) n),
        )
    where
      rows : List Delivery
      rows = (resume s f pk (open_conn pk client b'.db)).rows

  entering :
      (f : ConnectFaults) (b' : Broker)
      → f.ownership ≡ false
      → f.cleanup ≡ false
      → Entering f (
          owning p s f pk client b'
            (take_ownership f.ownership p.self s.token (life_of pk client) b.db))
  unfolding take_ownership
  entering f b' own clean =
      subst
        (λ o.
          Entering f
            (owning p s f pk client b' (take_ownership o p.self s.token (life_of pk client) b.db)))
        (sym own)
        (if_both (Entering f) f.cleanup (λ bad. cc (bad, clean))
          λ _.
            welcome-Entering f _ _ _ (is_new-take_row (find_session client b.db.sessions))
              (conn_for-registered client s.conn b'.registry) refl)

admission :
    (p : Policy) (compares : Compare) (users : Bytes → UserRow) (s : Setting) (f : ConnectFaults)
    (pk : Connect) (b : Broker) (client : Bytes)
    → checks p compares users s.made_up pk ≡ pass client
    → f.ownership ≡ false
    → f.cleanup ≡ false
    → let x = handle_connect p compares users s f pk b in
      IsEntered p s pk client b x.0
      × (f.connack ≡ true → x.1 ≡ unanswered)
      × (f.connack ≡ false
          → (l : Life) × (c : Conn) × (es : List Effect) × (x.1 ≡ accepted l c)
            × (x.0.events
                ≡ es ++ connack_of p pk client (is_new (find_session client b.db.sessions)) ∷ []))
unfolding handle_connect
admission p compares users s f pk b client passed own clean =
    subst (λ c. Entering p s pk client b f (proceed p s f pk b c)) (sym passed)
      (entering p s pk client b f _ own clean)

-- A session of the client exists.
abbrev pub HasSession : Bytes → List Session → Type 0
HasSession client [] = ⊥
HasSession client (s ∷ ss) = (s.client ≡ client) ⊎ HasSession client ss

found_iff :
    (client : Bytes) (ss : List Session)
    → (is_new (find_session client ss) ≡ false) ↔ HasSession client ss
found_iff client [] = (λ h. cc h, λ h. absurd h)
found_iff client (s ∷ ss) = elim (Bool-cases (same s.client client)) [
  | inl e ↦ rw e (λ h. inl ((same_iff s.client client).0 e), λ h. refl)
  | inr e ↦ rw e (
    λ h. inr ((found_iff client ss).0 h),
    λ h. elim h [
      | inl k ↦ cc ((same_iff s.client client).1 k, e)
      | inr k ↦ (found_iff client ss).1 k
    ],
  )
]

present_iff :
    (clean new : Bool) → ((not clean && not new) ≡ true) ↔ ((clean ≡ false) × (new ≡ false))
present_iff clean new = ground arith

-- If the CONNECT passes the checks and Postgres answers: the connection is the one that is found for its client; the
-- session's row names this broker, connected, with the new token and no timer for will or expiry; no
-- session of another client has changed; a clean start leaves no subscription, delivery or QoS 2 claim behind.
-- It is accepted exactly if the CONNACK can be written, whose Session Present is set exactly if the
-- session existed and no clean start was asked for.
pub handle_connect-enters :
    (p : Policy) (compares : Compare) (users : Bytes → UserRow) (s : Setting) (f : ConnectFaults)
    (pk : Connect) (b : Broker) (client : Bytes)
    → checks p compares users s.made_up pk ≡ pass client
    → f.ownership ≡ false
    → f.cleanup ≡ false
    → let x = handle_connect p compares users s f pk b in
      IsEntered p s pk client b x.0
      × (f.connack ≡ true → x.1 ≡ unanswered)
      × (f.connack ≡ false
          → (l : Life) × (c : Conn) × (es : List Effect) × (present : Bool) × (o : Option Offer)
            × (x.1 ≡ accepted l c)
            × (x.0.events ≡ es ++ connack present o ∷ [])
            × ((present ≡ true) ↔ ((pk.clean ≡ false) × HasSession client b.db.sessions)))
handle_connect-enters p compares users s f pk b client passed own clean =
    let (entered, lost, told) = admission p compares users s f pk b client passed own clean in
    (
      entered,
      lost,
      λ good.
          let (l, c, es, reply, events) = told good in
          let new = is_new (find_session client b.db.sessions) in
          (
            l,
            c,
            es,
            not pk.clean && not new,
            if pk.version == mqtt5 then some (offer_of p pk client) else none,
            reply,
            events,
            (
              λ h.
                  let (a, n) = (present_iff pk.clean new).0 h in
                  (a, (found_iff client b.db.sessions).0 n),
              λ (a, e). (present_iff pk.clean new).1 (a, (found_iff client b.db.sessions).1 e),
            ),
          ),
    )
