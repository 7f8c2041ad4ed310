-- ===== src/Engine/Shutdown.antt =====
-- The connections of a broker as others see them: `shutdown`, `ShutdownForTakeover` and `gracefulClose` of
-- internal/engine/conn.go, the quota kicks of internal/engine/publish.go, and `sweepOrphanedSockets`, `KickAllDrains` and
-- `shutdownGracefully` of internal/engine/engine.go. A connection is its number.
pub mod Unlinked
pub mod Kicked
use pgmqtt.Prelude.{
  ℕ, Bool, true, false, not, ◌&&◌, Option, none, some, List, [], ◌∷◌, ◌++◌, Bytes, same, any, map,
  ◌==◌, if◌then◌else◌,
}
use pgmqtt.Engine.Db.{Db, Session}
use pgmqtt.Engine.Inbound.{mqtt5}
use pgmqtt.Engine.Registry.{Registry, conn_for}
use pgmqtt.Engine.Session.{Life, update_sessions}
use pgmqtt.Engine.Connect.Handshake.{shut_down}

-- What others do to a connection: hand it a DISCONNECT with a reason code, or wake its drain loop; and the call of
-- NotifyQuota for a broker, a client and a token.
pub data Signal : Type 0 where
  disconnects : ℕ → ℕ → Signal
  kicks : ℕ → Signal
  notifies : ℕ → Bytes → ℕ → Signal

-- `kicked` is quotaOnce of each connection.
pub record Conns : Type 0 where
  pub registry : Registry
  pub life : ℕ → Life
  pub kicked : ℕ → Bool
  pub signals : List Signal

abbrev pub set_life : ℕ → (Life → Life) → Conns → Conns
set_life c f h = record h { life = λ k. if k == c then f (h.life k) else h.life k }

abbrev pub shut : Life → Life
shut l = record l { closing = true }

abbrev pub superseded : Life → Life
superseded l = record l { taken_over = true }

-- shutdown
abbrev pub close_conn : ℕ → Conns → Conns
close_conn c h =
    if (h.life c).closing
    then h
    else record (set_life c shut h) { registry = shut_down (h.life c).client c h.registry }

-- ShutdownForTakeover
abbrev pub close_for_takeover : ℕ → Conns → Conns
close_for_takeover c h = close_conn c (set_life c superseded h)

-- A DISCONNECT is for MQTT 5 only; a write to a connection that is closing is refused.
abbrev pub disconnect_with : ℕ → ℕ → Conns → Conns
disconnect_with code c h =
    if (h.life c).protocol == mqtt5 && not (h.life c).closing
    then record h { signals = h.signals ++ disconnects c code ∷ [] }
    else h

-- gracefulClose
abbrev pub graceful_close : ℕ → Conns → Conns
graceful_close c h = close_conn c (disconnect_with 0x8B c h)

-- kickForQuota
abbrev pub kick_for_quota : ℕ → Conns → Conns
kick_for_quota c h =
    if h.kicked c
    then h
    else close_conn c
        (disconnect_with 0x97 c (record h { kicked = λ k. if k == c then true else h.kicked k }))

abbrev pub with_conn : (ℕ → Conns → Conns) → Option ℕ → Conns → Conns
with_conn f none h = h
with_conn f (some c) h = f c h

-- QuotaExceededLocally
abbrev pub quota_exceeded_locally : Bytes → Conns → Conns
quota_exceeded_locally client h = with_conn kick_for_quota (conn_for client h.registry) h

-- A connection that has the token; one with another token has superseded it.
abbrev pub if_token : ℕ → (ℕ → Conns → Conns) → ℕ → Conns → Conns
if_token token f c h = if (h.life c).token == token then f c h else h

-- QuotaExceededLocallyForToken
abbrev pub quota_exceeded_for_token : Bytes → ℕ → Conns → Conns
quota_exceeded_for_token client token h =
    with_conn (if_token token kick_for_quota) (conn_for client h.registry) h

abbrev pub quota_at : ℕ → Session → Conns → Option ℕ → Conns
quota_at self s h none = h
quota_at self s h (some b) =
    if b == self
    then quota_exceeded_for_token s.client s.token h
    else record h { signals = h.signals ++ notifies b s.client s.token ∷ [] }

abbrev pub is_over_cap : List Bytes → Session → Bool
is_over_cap clients s = any (λ c. same c s.client) clients && s.connected

-- The rows of connected sessions with an owner, one after the other.
unfoldable pub dispatch_quota : ℕ → List Bytes → List Session → Conns → Conns
dispatch_quota self clients [] h = h
dispatch_quota self clients (s ∷ ss) h =
    dispatch_quota self clients ss (if is_over_cap clients s then quota_at self s h s.broker else h)

-- dispatchQuotaExceeded; a query that fails is logged
unfoldable pub dispatch_quota_exceeded : Bool → ℕ → List Bytes → Db → Conns → Conns
unfolding dispatch_quota
dispatch_quota_exceeded fails self clients db h =
    if fails then h else dispatch_quota self clients db.sessions h

abbrev pub is_registered : Registry → Bytes → Bool
is_registered rs client = any (λ r. same r.0 client) rs

abbrev pub is_elsewhere : ℕ → Option ℕ → Bool
is_elsewhere self none = false
is_elsewhere self (some b) = not (b == self)

-- client_id = ANY($1) AND broker_id IS NOT NULL AND broker_id != $2
unfoldable pub orphans : ℕ → Registry → List Session → List Bytes
orphans self rs [] = []
orphans self rs (s ∷ ss) =
    let rest = orphans self rs ss in
    if is_registered rs s.client && is_elsewhere self s.broker then s.client ∷ rest else rest

unfoldable pub close_each : List Bytes → Conns → Conns
close_each [] h = h
close_each (k ∷ ks) h = close_each ks (with_conn close_conn (conn_for k h.registry) h)

abbrev pub sweep_as : Bool → Option ℕ → Db → Conns → Conns
sweep_as fails none db h = h
sweep_as fails (some self) db h =
    if fails then h else close_each (orphans self h.registry db.sessions) h

-- sweepOrphanedSockets, where the broker may not have an id yet
unfoldable pub sweep_orphaned_sockets : Bool → Option ℕ → Db → Conns → Conns
unfolding orphans close_each
sweep_orphaned_sockets fails self db h = sweep_as fails self db h

abbrev pub kicks_of : Registry → List Signal
kicks_of [] = []
kicks_of ((k, c) ∷ rs) = kicks c ∷ kicks_of rs

-- KickAllDrains
abbrev pub kick_all_drains : Conns → Conns
kick_all_drains h = record h { signals = h.signals ++ kicks_of h.registry }

unfoldable pub close_all : Registry → Conns → Conns
close_all [] h = h
close_all ((k, c) ∷ rs) h = close_all rs (graceful_close c h)

abbrev pub detached : Session → Session
detached s = record s { connected = false; broker = none }

abbrev pub owned_by : Option ℕ → Session → Bool
owned_by none s = false
owned_by (some b) s = is_here s.broker
  where
    is_here : Option ℕ → Bool
    is_here none = false
    is_here (some x) = x == b

-- shutdownGracefully, at its first call
unfoldable pub shut_down_gracefully : Bool → Option ℕ → Db → Conns → Db × Conns
unfolding close_all
shut_down_gracefully fails self db h =
    (if fails then db else update_sessions (owned_by self) detached db, close_all h.registry h)
