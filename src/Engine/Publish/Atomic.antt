-- ===== src/Engine/Publish/Atomic.antt =====
-- The transaction of `publishCore`: all of it or nothing, and a QoS 2 packet once.
use pgmqtt.Prelude.{
  ℕ, suc, ◌≡◌, ◌≢◌, refl, sym, ap, ◌∙◌, subst, inl, inr, Bool, true, false, not, ◌&&◌, Option, none,
  some, List, [], ◌∷◌, ◌++◌, arith, Bytes, same_self, any, is_empty, length, Bool-cases, if_both,
}
use pgmqtt.Engine.Db.{Db, Delivery, is_pair, has_inbound}
use pgmqtt.Engine.Publish.{
  Env, Request, Published, new_message, mqtt_publish, store_retained, claim, Stage, begin,
  qos2_dedup, retain, publish, notify, commit, fails_at, is_some, Outcome, done, duplicate, failed,
  publish_core,
}

not-true : (b : Bool) → not b ≡ true → b ≡ false
not-true b h = ground arith

not-false : (b : Bool) → not b ≡ false → b ≡ true
not-false b h = ground arith

module _ (env : Env) (p : Request) (db : Db) where
  -- What a committed transaction has done to the tables that others read.
  pub record Committed (db' : Db) (res : Published) : Type 0 where
    pub message : db'.messages ≡ db.messages ++ new_message env p db.next_message ∷ []
    pub numbered : res.message_id ≡ db.next_message
    pub next : db'.next_message ≡ suc db.next_message
    pub kept :
        (rows : List Delivery) × (db'.deliveries ≡ db.deliveries ++ rows)
        × (length rows ≡ res.delivered)
    pub sessions : db'.sessions ≡ db.sessions
    pub claimed : db'.inbound_qos2 ≡ (claim p.dedup_key db).0.inbound_qos2

  abbrev pub Atomic : Db × Outcome → Type 0
  Atomic (db', done res) = ((claim p.dedup_key db).1 ≡ true) × Committed db' res
  Atomic (db', duplicate) = (db' ≡ db) × ((claim p.dedup_key db).1 ≡ false)
  Atomic (db', failed s) = db' ≡ db

  -- Neither the claim nor the retained row touches the other tables.
  stored :
      (d : Db)
      → ((store_retained env p d).messages ≡ d.messages)
        × ((store_retained env p d).next_message ≡ d.next_message)
        × ((store_retained env p d).deliveries ≡ d.deliveries)
        × ((store_retained env p d).sessions ≡ d.sessions)
        × ((store_retained env p d).inbound_qos2 ≡ d.inbound_qos2)
  stored d = ground arith

  claim_keeps :
      (k : Option (Bytes × ℕ))
      → ((claim k db).0.messages ≡ db.messages)
        × ((claim k db).0.next_message ≡ db.next_message)
        × ((claim k db).0.deliveries ≡ db.deliveries)
        × ((claim k db).0.sessions ≡ db.sessions)
  claim_keeps none = (refl, refl, refl, refl)
  claim_keeps (some (c, q)) = ground arith

  committed :
      (d : Db)
      → (d.messages ≡ db.messages)
        × (d.next_message ≡ db.next_message)
        × (d.deliveries ≡ db.deliveries)
        × (d.sessions ≡ db.sessions)
      → d.inbound_qos2 ≡ (claim p.dedup_key db).0.inbound_qos2
      → Committed (mqtt_publish env p d).0 (mqtt_publish env p d).1
  unfolding mqtt_publish
  committed d (m, n, r, s) q = record {
    message = rw (m, n);
    numbered = n;
    next = ap suc n;
    kept = (_, rw r, refl);
    sessions = s;
    claimed = q;
  }

  -- What the statements before the commit leave.
  abbrev all_done : Db × Published
  all_done = mqtt_publish env p (store_retained env p (claim p.dedup_key db).0)

  Committed-all :
      Committed
        (mqtt_publish env p (store_retained env p (claim p.dedup_key db).0)).0
        (mqtt_publish env p (store_retained env p (claim p.dedup_key db).0)).1
  Committed-all =
      let d = (claim p.dedup_key db).0 in
      let (a, b, c, e, f) = stored d in
      let (a', b', c', e') = claim_keeps p.dedup_key in
      committed (store_retained env p d) (a ∙ a', b ∙ b', c ∙ c', e ∙ e') f

  -- `publishCore` either commits, and then the message, its deliveries and the QoS 2 claim are all there; or
  -- it answers `duplicate` because the claim was there already; or a statement failed. In the last two
  -- cases no table has changed, whichever statement it was.
  pub publish_core-Atomic : (fault : Option Stage) → Atomic (publish_core env fault p db)
  unfolding publish_core
  publish_core-Atomic fault =
      if_both Atomic (fails_at begin fault) (λ _. refl)
        λ _.
          if_both Atomic (is_some p.dedup_key && fails_at qos2_dedup fault) (λ _. refl)
            λ _.
              if_both Atomic (not (claim p.dedup_key db).1) (λ stale. (refl, not-true _ stale))
                λ fresh.
                  if_both Atomic (p.retain && fails_at retain fault) (λ _. refl)
                    λ _.
                      if_both Atomic (fails_at publish fault) (λ _. refl)
                        λ _.
                          if_both Atomic
                            (not (is_empty all_done.1.broker_ids) && fails_at notify fault)
                            (λ _. refl)
                            λ _.
                              if_both Atomic (fails_at commit fault) (λ _. refl)
                                λ _. (not-false _ fresh, Committed-all)

-- A claim that is in the table is not made again.
claim-taken :
    (c : Bytes) (q : ℕ) (db : Db) → has_inbound c q db ≡ true → (claim (some (c, q)) db).1 ≡ false
claim-taken c q db h = ground arith

claim-leaves :
    (c : Bytes) (q : ℕ) (db : Db)
    → (claim (some (c, q)) db).1 ≡ true
    → any (is_pair c q) (claim (some (c, q)) db).0.inbound_qos2 ≡ true
claim-leaves c q db h = elim (Bool-cases (has_inbound c q db)) [
  | inl e ↦ absurd (ground (arith, e))
  | inr e ↦ rw e (ground (arith, same_self c))
]

-- After a QoS 2 packet has been published, a publish of any packet under the same client and packet id,
-- with any content and whatever statement of it fails, changes no table and is never published, as long as
-- the claim is in the table; and the first publish puts it there.
pub publish_core_once :
    (env env' : Env) (fault fault' : Option Stage) (p p' : Request) (db db' : Db) (c : Bytes)
    (q : ℕ) (res : Published)
    → p.dedup_key ≡ some (c, q)
    → p'.dedup_key ≡ some (c, q)
    → publish_core env fault p db ≡ (db', done res)
    → (has_inbound c q db' ≡ true)
      × ((db'' : Db)
          → has_inbound c q db'' ≡ true
          → ((publish_core env' fault' p' db'').0 ≡ db'')
            × ((r : Published) → (publish_core env' fault' p' db'').1 ≢ done r))
publish_core_once env env' fault fault' p p' db db' c q res k k' e = (
  present,
  λ db'' h.
      blocked db'' h (publish_core env' fault' p' db'') (publish_core-Atomic env' p' db'' fault'),
)
  where
    first : Atomic env p db (db', done res)
    first = subst (Atomic env p db) e (publish_core-Atomic env p db fault)

    present : has_inbound c q db' ≡ true
    present =
        rw (first.1.claimed, k) (claim-leaves c q db (ap (λ o. (claim o db).1) (sym k) ∙ first.0))

    blocked :
        (d : Db)
        → has_inbound c q d ≡ true
        → (x : Db × Outcome) → Atomic env' p' d x
        → (x.0 ≡ d) × ((r : Published) → x.1 ≢ done r)
    blocked d h (d', done r) a = absurd (cc (claim-taken c q d h, a.0, k'))
    blocked d h (d', duplicate) a = (a.0, λ r x. cc)
    blocked d h (d', failed s) a = (a, λ r x. cc)
