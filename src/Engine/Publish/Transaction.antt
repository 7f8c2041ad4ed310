-- ===== src/Engine/Publish/Transaction.antt =====
-- The transaction of `publishCore` by what it meets: which statement fails, and whether the packet has been claimed.
use pgmqtt.Prelude.{
  ℕ, zero, suc, ◌+◌, ◌≡◌, ◌≢◌, refl, sym, ap, ◌∙◌, subst, inl, inr, Bool, true, false, not, ◌&&◌,
  Option, none, some, List, [], ◌∷◌, ◌++◌, map, arith, Bytes, same, same_self, same_iff, keep,
  is_empty, length, ltb, if◌then◌else◌, Bool-cases, if_both, All,
}
use pgmqtt.Engine.Db.{Db, Delivery, Retained, has_inbound}
use pgmqtt.Engine.Publish.{
  Env, Request, Published, Match, matches, queues, new_deliveries, new_message, expires_at,
  upsert_retained, mqtt_publish, store_retained, claim, Stage, begin, qos2_dedup, retain, publish,
  notify, commit, fails_at, is_some, Outcome, done, duplicate, failed, publish_core,
}

-- The expiry of a message: none if it has no interval.
abbrev pub lapse : ℕ → ℕ → Option ℕ
lapse now zero = none
lapse now (suc n) = some (now + suc n)

-- The publisher, whose absence is the empty text.
abbrev pub author : Bytes → Option Bytes
author [] = none
author (x ∷ xs) = some (x ∷ xs)

same_lapse : (now n : ℕ) → (if ltb 0 n then some (now + n) else none) ≡ lapse now n
same_lapse now zero = refl
same_lapse now (suc n) = ground arith

same_author : (xs : Bytes) → (if is_empty xs then none else some xs) ≡ author xs
same_author [] = refl
same_author (x ∷ xs) = refl

-- The retained message of a topic.
abbrev pub find_retained : Bytes → List Retained → Option Retained
find_retained t [] = none
find_retained t (r ∷ rs) = if same r.topic t then some r else find_retained t rs

-- The retained messages after a PUBLISH: as before without its retain flag; else nothing for its topic if it is empty, and itself if
-- not; and every other topic as before.
pub record Retains (env : Env) (p : Request) (before after : List Retained) : Type 0 where
  pub plain : p.retain ≡ false → after ≡ before
  pub cleared : p.retain ≡ true → p.payload ≡ [] → find_retained p.topic after ≡ none
  pub set :
      p.retain ≡ true
      → p.payload ≢ []
      → find_retained p.topic after
        ≡ some (record {
          topic = p.topic;
          payload = p.payload;
          qos = p.qos;
          properties = p.properties;
          expires_at = lapse env.now (env.expiry_of p.properties);
        })
  pub others : (t : Bytes) → t ≢ p.topic → find_retained t after ≡ find_retained t before

-- The client of a row, with the QoS that it gets.
abbrev pub row_key : Delivery → Bytes × ℕ
row_key d = (d.client, d.qos)

abbrev pub match_key : Match → Bytes × ℕ
match_key m = (m.client, m.deliver_qos)

abbrev pub claims_after : Option (Bytes × ℕ) → List (Bytes × ℕ) → List (Bytes × ℕ)
claims_after none rs = rs
claims_after (some k) rs = k ∷ rs

module _ (env : Env) (p : Request) (db : Db) where
  -- What a transaction that commits does to each table, and what it returns.
  pub record Commits (db' : Db) (res : Published) : Type 0 where
    pub message :
        db'.messages
        ≡ db.messages
          ++ record {
            id = db.next_message;
            topic = p.topic;
            payload = p.payload;
            qos = p.qos;
            retain = p.retain;
            properties = p.properties;
            publisher = author p.publisher;
            expires_at = lapse env.now (env.expiry_of p.properties);
          }
            ∷ []
    pub queued :
        (rows : List Delivery) × (db'.deliveries ≡ db.deliveries ++ rows)
        × (map row_key rows
            ≡ map match_key (keep (queues env db) (matches p db.subscriptions db.sessions)))
        × All (λ d. (d.message ≡ db.next_message) × (d.state ≡ 0) × (d.packet_id ≡ none)) rows
        × (res.delivered ≡ length rows)
    pub claimed : db'.inbound_qos2 ≡ claims_after p.dedup_key db.inbound_qos2
    pub retains : Retains env p db.retained db'.retained
    pub sessions : db'.sessions ≡ db.sessions
    pub subscriptions : db'.subscriptions ≡ db.subscriptions
    pub numbered : res.message_id ≡ db.next_message
    pub next : db'.next_message ≡ suc db.next_message

  -- The packet is of no QoS 2 handshake, or of one that has not been claimed.
  abbrev pub IsUnclaimed : Option (Bytes × ℕ) → Type 0
  IsUnclaimed none = Unit {0}
  IsUnclaimed (some (c, q)) = has_inbound c q db ≡ false

  -- The transaction comes to this statement, when none before it fails.
  abbrev pub Reaches : Stage → Type 0
  Reaches begin = Unit {0}
  Reaches qos2_dedup = p.dedup_key ≢ none
  Reaches retain = IsUnclaimed p.dedup_key × (p.retain ≡ true)
  Reaches publish = IsUnclaimed p.dedup_key
  Reaches notify = IsUnclaimed p.dedup_key × (is_empty (mqtt_publish env p db).1.broker_ids ≡ false)
  Reaches commit = IsUnclaimed p.dedup_key

  unclaimed : (k : Option (Bytes × ℕ)) → IsUnclaimed k → (claim k db).1 ≡ true
  unclaimed none h = refl
  unclaimed (some (c, q)) h = rw h refl

  abbrev kept : List Retained → List Retained
  kept rs =
      if not p.retain
      then rs
      else if is_empty p.payload
      then keep (λ r. not (same r.topic p.topic)) rs
      else upsert_retained
          (record {
            topic = p.topic;
            payload = p.payload;
            qos = p.qos;
            properties = p.properties;
            expires_at = expires_at env p.properties;
          })
          rs

  store_shape : (d : Db) → store_retained env p d ≡ record d { retained = kept d.retained }
  store_shape d = elim (Bool-cases (not p.retain)) [
    | inl e ↦ rw e refl
    | inr e ↦ elim (Bool-cases (is_empty p.payload)) [
      | inl k ↦ rw (e, k) refl
      | inr k ↦ rw (e, k) refl
    ]
  ]

  claim_shape :
      (k : Option (Bytes × ℕ))
      → IsUnclaimed k
      → (claim k db).0 ≡ record db { inbound_qos2 = claims_after k db.inbound_qos2 }
  claim_shape none h = refl
  claim_shape (some (c, q)) h = rw h refl

  abbrev after_writes : Db
  after_writes = record db {
    inbound_qos2 = claims_after p.dedup_key db.inbound_qos2;
    retained = kept db.retained;
  }

  prepared_as :
      IsUnclaimed p.dedup_key → store_retained env p (claim p.dedup_key db).0 ≡ after_writes
  prepared_as h =
      ap (store_retained env p) (claim_shape p.dedup_key h)
      ∙ store_shape (record db { inbound_qos2 = claims_after p.dedup_key db.inbound_qos2 })

  keys_of-new :
      (message id : ℕ) (ms : List Match)
      → map row_key (new_deliveries message id ms) ≡ map match_key ms
  unfolding new_deliveries
  keys_of-new message id [] = refl
  keys_of-new message id (m ∷ ms) =
      ap (λ ks. (m.client, m.deliver_qos) ∷ ks) (keys_of-new message (suc id) ms)

  new_rows :
      (message id : ℕ) (ms : List Match)
      → All
          (λ d. (d.message ≡ message) × (d.state ≡ 0) × (d.packet_id ≡ none))
          (new_deliveries message id ms)
  unfolding new_deliveries
  new_rows message id [] = tt
  new_rows message id (m ∷ ms) = ((refl, refl, refl), new_rows message (suc id) ms)

  find-keep :
      (t : Bytes) (rs : List Retained)
      → find_retained t (keep (λ r. not (same r.topic p.topic)) rs)
        ≡ (if same t p.topic then none else find_retained t rs)
  find-keep t [] = ground arith
  find-keep t (r ∷ rs) = elim (Bool-cases (same r.topic t)) [
    | inl e ↦ ground (arith, e, find-keep t rs, ap (λ x. same x p.topic) ((same_iff r.topic t).0 e))
    | inr e ↦ ground (arith, e, find-keep t rs)
  ]

  find-upsert :
      (t : Bytes) (n : Retained) (rs : List Retained)
      → find_retained t (upsert_retained n rs)
        ≡ (if same n.topic t then some n else find_retained t rs)
  find-upsert t n [] = refl
  find-upsert t n (r ∷ rs) = elim (Bool-cases (same r.topic n.topic)) [
    | inl e ↦ rw e (ground (arith, ap (λ x. same x t) ((same_iff r.topic n.topic).0 e)))
    | inr e ↦ elim (Bool-cases (same n.topic t)) [
      | inl k ↦ rw e (
          ground
            (arith, e, k, find-upsert t n rs, ap (λ x. same r.topic x) ((same_iff n.topic t).0 k)))
      | inr k ↦ rw e (ground (arith, e, k, find-upsert t n rs))
    ]
  ]

  kept-Retains : Retains env p db.retained (kept db.retained)
  kept-Retains = record {
    plain = λ e. rw e refl;
    cleared = λ r e. rw (r, e) (find-keep p.topic db.retained ∙ rw (same_self p.topic) refl);
    set = λ r n.
        rw (r, filled p.payload n)
          (find-upsert p.topic (row (expires_at env p.properties)) db.retained
            ∙ rw (same_self p.topic) refl
            ∙ ap (λ t. some (row t)) (same_lapse env.now (env.expiry_of p.properties)));
    others = λ t n. other t (other_topic t n);
  }
    where
      filled : (xs : Bytes) → xs ≢ [] → is_empty xs ≡ false
      filled [] h = absurd (h refl)
      filled (x ∷ xs) h = refl

      row : Option ℕ → Retained
      row t = record {
        topic = p.topic;
        payload = p.payload;
        qos = p.qos;
        properties = p.properties;
        expires_at = t;
      }

      other_topic : (t : Bytes) → t ≢ p.topic → (same t p.topic ≡ false) × (same p.topic t ≡ false)
      other_topic t n = (
        elim (Bool-cases (same t p.topic)) [
          | inl e ↦ absurd (n ((same_iff t p.topic).0 e))
          | inr e ↦ e
        ],
        elim (Bool-cases (same p.topic t)) [
          | inl e ↦ absurd (n (sym ((same_iff p.topic t).0 e)))
          | inr e ↦ e
        ],
      )

      other :
          (t : Bytes)
          → (same t p.topic ≡ false) × (same p.topic t ≡ false)
          → find_retained t (kept db.retained) ≡ find_retained t db.retained
      other t (a, b) =
          if_both (λ rs. find_retained t rs ≡ find_retained t db.retained) (not p.retain)
            (λ _. refl)
            λ _.
              if_both (λ rs. find_retained t rs ≡ find_retained t db.retained) (is_empty p.payload)
                (λ _. find-keep t db.retained ∙ rw a refl)
                λ _. find-upsert t _ db.retained ∙ rw b refl

  after_writes-Commits :
      Commits (mqtt_publish env p after_writes).0 (mqtt_publish env p after_writes).1
  unfolding mqtt_publish
  after_writes-Commits =
      let inserted = keep (queues env db) (matches p db.subscriptions db.sessions) in
      let rows = new_deliveries db.next_message db.next_delivery inserted in
      record {
        message = λ i.
            db.messages
            ++ record (new_message env p db.next_message) {
              publisher = same_author p.publisher i;
              expires_at = same_lapse env.now (env.expiry_of p.properties) i;
            }
              ∷ [];
        queued = (
          rows,
          refl,
          keys_of-new db.next_message db.next_delivery inserted,
          new_rows db.next_message db.next_delivery inserted,
          refl,
        );
        claimed = refl;
        retains = kept-Retains;
        sessions = refl;
        subscriptions = refl;
        numbered = refl;
        next = refl;
      }

  -- The transaction as its tests run, for whatever its tables are.
  abbrev run_of : Option Stage → Db × Published → Bool → Db × Outcome
  run_of fault (published, res) fresh =
      if fails_at begin fault
      then (db, failed begin)
      else if is_some p.dedup_key && fails_at qos2_dedup fault
      then (db, failed qos2_dedup)
      else if not fresh
      then (db, duplicate)
      else if p.retain && fails_at retain fault
      then (db, failed retain)
      else if fails_at publish fault
      then (db, failed publish)
      else if not (is_empty res.broker_ids) && fails_at notify fault
      then (db, failed notify)
      else if fails_at commit fault
      then (db, failed commit)
      else (published, done res)

  unclaimed_run :
      (fault : Option Stage)
      → IsUnclaimed p.dedup_key
      → publish_core env fault p db ≡ run_of fault (mqtt_publish env p after_writes) true
  unfolding publish_core
  unclaimed_run fault h =
      ap (λ b. run_of fault (mqtt_publish env p (store_retained env p (claim p.dedup_key db).0)) b)
        (unclaimed p.dedup_key h)
      ∙ ap (λ d. run_of fault (mqtt_publish env p d) true) (prepared_as h)

  and_false : (b : Bool) → (b && false) ≡ false
  and_false b = ground arith

  has_key : (k : Option (Bytes × ℕ)) → k ≢ none → is_some k ≡ true
  has_key none h = absurd (h refl)
  has_key (some k) h = refl

  reached : (s : Stage) → Reaches s → publish_core env (some s) p db ≡ (db, failed s)
  unfolding publish_core mqtt_publish
  reached begin h = refl
  reached qos2_dedup h = rw (has_key p.dedup_key h) refl
  reached retain (h, r) =
      unclaimed_run (some retain) h ∙ rw (and_false (is_some p.dedup_key), r) refl
  reached publish h =
      unclaimed_run (some publish) h ∙ rw (and_false (is_some p.dedup_key), and_false p.retain) refl
  reached notify (h, b) =
      unclaimed_run (some notify) h
      ∙ rw (and_false (is_some p.dedup_key), and_false p.retain, b) refl
  reached commit h =
      unclaimed_run (some commit) h
      ∙ rw
          (
            and_false (is_some p.dedup_key),
            and_false p.retain,
            and_false (not (is_empty (mqtt_publish env p after_writes).1.broker_ids)),
          )
          refl

  claimed_not : (k : Option (Bytes × ℕ)) → ¬ IsUnclaimed k → (claim k db).1 ≡ false
  claimed_not none h = absurd (h tt)
  claimed_not (some (c, q)) h = elim (Bool-cases (has_inbound c q db)) [
    | inl e ↦ rw e refl
    | inr e ↦ absurd (h e)
  ]

  -- A test that has to be passed: what it guards does not fail if it is reached.
  no_fault : (b f : Bool) → (b ≡ true → f ≡ true → ⊥) → (b && f) ≡ false
  no_fault true true h = absurd (h refl refl)
  no_fault true false h = refl
  no_fault false f h = refl

  no_failure : (f : Bool) → (f ≡ true → ⊥) → f ≡ false
  no_failure true h = absurd (h refl)
  no_failure false h = refl

  keyed : (k : Option (Bytes × ℕ)) → is_some k ≡ true → k ≢ none
  keyed none h = cc
  keyed (some k) h = λ e. cc e

  notified : (b : Bool) → not b ≡ true → b ≡ false
  notified b h = ground arith

  finished :
      (fault : Option Stage)
      → IsUnclaimed p.dedup_key
      → ((s : Stage) → fails_at s fault ≡ true → ¬ Reaches s)
      → publish_core env fault p db
        ≡ ((mqtt_publish env p after_writes).0, done (mqtt_publish env p after_writes).1)
  unfolding mqtt_publish
  finished fault u h =
      unclaimed_run fault u
      ∙ rw
          (
            no_failure (fails_at begin fault) (λ e. h begin e tt),
            no_fault (is_some p.dedup_key) (fails_at qos2_dedup fault)
                λ k e. h qos2_dedup e (keyed p.dedup_key k),
            no_fault p.retain (fails_at retain fault) (λ r e. h retain e (u, r)),
            no_failure (fails_at publish fault) (λ e. h publish e u),
            no_fault (not (is_empty (mqtt_publish env p after_writes).1.broker_ids))
                (fails_at notify fault) λ b e. h notify e (u, notified _ b),
            no_failure (fails_at commit fault) (λ e. h commit e u),
          )
          refl

  -- `publishCore` by what it meets. If a statement that it comes to fails, it reports which, and no table has changed. Else, if the QoS 2
  -- packet is claimed already, it answers `duplicate`, and no table has changed. Else it commits: the message is
  -- stored with a new id; each client that is to be queued has a delivery of that message in the queued state; the claim
  -- and the retained message are there, other retained messages stay; and the tables of sessions and subscriptions are as they
  -- were.
  pub publish_core_transaction :
      (fault : Option Stage)
      → ((s : Stage) → fault ≡ some s → Reaches s → publish_core env fault p db ≡ (db, failed s))
        × (¬ IsUnclaimed p.dedup_key
            → fails_at begin fault ≡ false
            → fails_at qos2_dedup fault ≡ false
            → publish_core env fault p db ≡ (db, duplicate))
        × (IsUnclaimed p.dedup_key
            → ((s : Stage) → fails_at s fault ≡ true → ¬ Reaches s)
            → (res : Published) × ((publish_core env fault p db).1 ≡ done res)
              × Commits (publish_core env fault p db).0 res)
  unfolding publish_core
  publish_core_transaction fault = (
    λ s e r. ap (λ o. publish_core env o p db) e ∙ reached s r,
    λ c a b. rw (a, b, and_false (is_some p.dedup_key), claimed_not p.dedup_key c) refl,
    λ u h. (
      (mqtt_publish env p after_writes).1,
      ap (λ x. x.1) (finished fault u h),
      subst (λ (d : Db). Commits d (mqtt_publish env p after_writes).1)
          (sym (ap (λ x. x.0) (finished fault u h))) after_writes-Commits,
    ),
  )
