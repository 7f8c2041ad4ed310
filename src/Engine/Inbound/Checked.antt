-- ===== src/Engine/Inbound/Checked.antt =====
-- What the part of handlePublish behind the slot does to the counter and to inbound_qos2.
use pgmqtt.Prelude.{
  ℕ, ◌≡◌, refl, sym, ap, ◌∙◌, Bool, true, false, not, ◌&&◌, Option, none, some, List, ◌∷◌, arith,
  Bytes, is_empty, ◌==◌, if◌then◌else◌, if_both, ==_iff,
}
use pgmqtt.Engine.Db.{Db, has_inbound}
use pgmqtt.Engine.Publish.{Env, Outcome, done, duplicate, failed, publish_core, claim}
use pgmqtt.Engine.Publish.Atomic.{Atomic, publish_core-Atomic}
use pgmqtt.Engine.Inbound.{
  mqtt5, notify, Result, Peer, Packet, Faults, State, emit, request, acknowledge, finish,
  with_properties, checked, raise_quota, alias_given,
}

module _ (c : Peer) (pk : Packet) where
  -- What the part of the handler behind the slot may have done.
  abbrev pub Kept : State → State × Result × Bool → Type 0
  Kept s (s', r, true) =
      (s'.inflight ≡ s.inflight)
      × (s'.db.inbound_qos2 ≡ (c.client, pk.packet_id) ∷ s.db.inbound_qos2)
      × (pk.qos ≡ 2)
      × (has_inbound c.client pk.packet_id s.db ≡ false)
  Kept s (s', r, false) = (s'.inflight ≡ s.inflight) × (s'.db.inbound_qos2 ≡ s.db.inbound_qos2)

  raise_quota-Kept :
      (o : List Bytes) (s : State)
      → ((raise_quota o s).inflight ≡ s.inflight) × ((raise_quota o s).db ≡ s.db)
  raise_quota-Kept o s = ground arith

  acknowledge-Kept :
      (f : Faults) (s : State)
      → ((acknowledge pk f s).0.inflight ≡ s.inflight) × ((acknowledge pk f s).0.db ≡ s.db)
  acknowledge-Kept f s = ground arith

  raised :
      (f : Faults) (o : List Bytes) (s : State)
      → ((acknowledge pk f (raise_quota o s)).0.inflight ≡ s.inflight)
        × ((acknowledge pk f (raise_quota o s)).0.db ≡ s.db)
  raised f o s =
      let (i, d) = acknowledge-Kept f (raise_quota o s) in
      let (i', d') = raise_quota-Kept o s in (i ∙ i', d ∙ d')

  kept_row :
      (db : Db)
      → (claim (some (c.client, pk.packet_id)) db).1 ≡ true
      → ((claim (some (c.client, pk.packet_id)) db).0.inbound_qos2
          ≡ (c.client, pk.packet_id) ∷ db.inbound_qos2)
        × (has_inbound c.client pk.packet_id db ≡ false)
  kept_row db h = ground arith

  dedup_key_of : Bool → Option (Bytes × ℕ)
  dedup_key_of b = if b then some (c.client, pk.packet_id) else none

  done-Kept :
      (db : Db) (s s' : State) (r : Result) (b : Bool)
      → pk.qos == 2 ≡ b
      → (claim (if b then some (c.client, pk.packet_id) else none) db).1 ≡ true
      → s'.inflight ≡ s.inflight
      → s.db ≡ db
      → s'.db.inbound_qos2
        ≡ (claim (if b then some (c.client, pk.packet_id) else none) db).0.inbound_qos2
      → Kept s (s', r, b)
  done-Kept db s s' r true q h i d e =
      let (row, new) = kept_row db h in
      (
        i,
        e ∙ row ∙ ap (λ x. (c.client, pk.packet_id) ∷ x.inbound_qos2) (sym d),
        (==_iff _ _).0 q,
        rw d new,
      )
  done-Kept db s s' r false q h i d e = (i, e ∙ ap (λ x. x.inbound_qos2) (sym d))

  finish-Kept :
      (env : Env) (f : Faults) (props : Option Bytes) (s : State) (x : Db × Outcome)
      → Atomic env (request c pk props) s.db x
      → Kept s (finish c pk f s x)
  finish-Kept env f props s (db, duplicate) (e, _) = (refl, ap (λ d. d.inbound_qos2) e)
  finish-Kept env f props s (db, failed st) e =
      if_both (λ (t : State). (t.inflight ≡ s.inflight) × (t.db.inbound_qos2 ≡ s.db.inbound_qos2))
        (c.protocol == mqtt5) (λ _. (refl, ap (λ d. d.inbound_qos2) e))
        λ _. (refl, ap (λ d. d.inbound_qos2) e)
  finish-Kept env f props s (db, done res) (fresh, all) =
      let told = emit (notify res.broker_ids res.message_id) (record s { db = db }) in
      let (i, d) = raised f res.overflow_clients told in
      let (s', r) = acknowledge pk f (raise_quota res.overflow_clients told) in
      done-Kept s.db s s' r (pk.qos == 2) refl fresh i refl
        (ap (λ x. x.inbound_qos2) d ∙ all.claimed)

  pub checked-Kept : (env : Env) (f : Faults) (s : State) → Kept s (checked env c pk f s)
  unfolding checked
  checked-Kept env f s =
      if_both (Kept s) (c.protocol == mqtt5 && not (is_empty pk.subscription_ids))
        (λ _. (refl, refl))
        λ _.
          if_both (Kept s) (c.protocol == mqtt5 && alias_given pk.alias) (λ _. (refl, refl))
            λ _. published f.properties
    where
      published : (o : Option (Option Bytes)) → Kept s (with_properties env c pk f s o)
      published none = (refl, refl)
      published (some props) =
          finish-Kept env f props s (publish_core env f.statement (request c pk props) s.db)
            (publish_core-Atomic env (request c pk props) s.db f.statement)
