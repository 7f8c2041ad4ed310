-- ===== src/Janitor/Sweeps.antt =====
-- The sweeps of internal/janitor/janitor.go: `expireSessions`, `expireRetained`, `sweepInboundQoS2`,
-- `sweepOrphanDeliveries` and `sweepOrphanMessages`. Times are in seconds. The columns that hold ages, which no other
-- part reads, are arguments.
use pgmqtt.Prelude.{
  ℕ, ◌+◌, Bool, true, false, not, ◌&&◌, ◌||◌, Option, none, some, Bytes, same, keep, any, ltb, leb,
  ◌==◌, if◌then◌else◌,
}
use pgmqtt.Engine.Db.{Db, Session}

-- last_seen of a session, received_at of a QoS 2 claim and created_at of a message
pub record Ages : Type 0 where
  pub last_seen : Bytes → ℕ
  pub received_at : Bytes → ℕ → ℕ
  pub created_at : ℕ → ℕ

pub record Graces : Type 0 where
  pub orphan : ℕ
  pub inbound : ℕ

abbrev pub is_over : ℕ → Option ℕ → Bool
is_over now none = false
is_over now (some t) = leb t now

-- connected = false AND session_expires_at IS NOT NULL AND session_expires_at <= now()
abbrev pub is_expired : ℕ → Session → Bool
is_expired now s = not s.connected && is_over now s.expires_at

-- client_id = ANY(the clients of the expired sessions)
abbrev pub has_expired : ℕ → Db → Bytes → Bool
has_expired now db client = any (λ s. is_expired now s && same s.client client) db.sessions

-- expireSessions. The foreign keys of subscriptions and inbound_qos2 cascade.
unfoldable pub expire_sessions : Bool → ℕ → Db → Db × Bool
expire_sessions fails now db = if fails then (db, true) else (
  record db {
    deliveries = keep (λ d. not (has_expired now db d.client)) db.deliveries;
    sessions = keep (λ s. not (has_expired now db s.client)) db.sessions;
    subscriptions = keep (λ s. not (has_expired now db s.client)) db.subscriptions;
    inbound_qos2 = keep (λ r. not (has_expired now db r.0)) db.inbound_qos2;
  },
  false,
)

-- expireRetained
unfoldable pub expire_retained : Bool → ℕ → Db → Db × Bool
expire_retained fails now db =
    if fails
    then (db, true)
    else (record db { retained = keep (λ r. not (is_over now r.expires_at)) db.retained }, false)

-- A session of the client that is not connected.
abbrev pub is_away : Db → Bytes → Bool
is_away db client = any (λ s. same s.client client && not s.connected) db.sessions

abbrev pub is_stale_claim : Ages → Graces → ℕ → Db → Bytes × ℕ → Bool
is_stale_claim a g now db (client, pid) =
    ltb (a.received_at client pid + g.inbound) now && is_away db client

-- sweepInboundQoS2
unfoldable pub sweep_inbound_qos2 : Bool → Ages → Graces → ℕ → Db → Db × Bool
sweep_inbound_qos2 fails a g now db = if fails then (db, true) else (
  record db { inbound_qos2 = keep (λ r. not (is_stale_claim a g now db r)) db.inbound_qos2 },
  false,
)

abbrev pub has_session : Db → Bytes → Bool
has_session db client = any (λ s. same s.client client) db.sessions

-- A clean session that has been away for longer than the grace.
abbrev pub is_abandoned : Ages → Graces → ℕ → Db → Bytes → Bool
is_abandoned a g now db client =
    any
      (λ s.
        same s.client client
        && not s.connected
        && s.clean_start
        && ltb (a.last_seen s.client + g.orphan) now)
      db.sessions

abbrev pub is_orphan : Ages → Graces → ℕ → Db → Bytes → Bool
is_orphan a g now db client = not (has_session db client) || is_abandoned a g now db client

-- sweepOrphanDeliveries
unfoldable pub sweep_orphan_deliveries : Bool → Ages → Graces → ℕ → Db → Db × Bool
sweep_orphan_deliveries fails a g now db = if fails then (db, true) else (
  record db { deliveries = keep (λ d. not (is_orphan a g now db d.client)) db.deliveries },
  false,
)

abbrev pub is_referenced : Db → ℕ → Bool
is_referenced db id = any (λ d. d.message == id) db.deliveries

-- sweepOrphanMessages
unfoldable pub sweep_orphan_messages : Bool → Ages → Graces → ℕ → Db → Db × Bool
sweep_orphan_messages fails a g now db = if fails then (db, true) else (
  record db {
    messages =
        keep (λ m. not (ltb (a.created_at m.id + g.orphan) now && not (is_referenced db m.id)))
          db.messages;
  },
  false,
)
