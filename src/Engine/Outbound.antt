-- ===== src/Engine/Outbound.antt =====
-- The sending side of a connection: its state, the topic aliases (`resolveAliasForOutbound`), the window
-- (`tryAcquireInflight`, `returnInflight`) and its SQL on deliveries, of internal/engine/conn.go and deliver.go.
pub mod Deliver
pub mod Acks
pub mod Drain
pub mod Rows
pub mod Slots
pub mod Held
pub mod Release
pub mod Ending
pub mod Alias
pub mod Untold
pub mod Fan
use pgmqtt.Prelude.{
  ℕ, ◌+◌, ◌-◌, ◌%◌, ◌/◌, ℤ, pos, max, Bool, true, false, not, ◌&&◌, ◌||◌, Option, none, some, List,
  [], ◌∷◌, ◌++◌, map, Bytes, same, keep, any, is_empty, ltb, leb, ◌==◌, if◌then◌else◌,
}
use pgmqtt.Engine.Db.{Message, Subscription, Delivery}
use pgmqtt.Engine.PacketId.{Allocator, Seed, Probe, alloc_packet_id}
use pgmqtt.Engine.PacketId as PacketId
use pgmqtt.Engine.Inbound.{mqtt5}

-- `inflight`: a channel of which only the capacity and the length matter.
pub record Window : Type 0 where
  pub capacity : ℕ
  pub used : ℕ

pub record Aliases : Type 0 where
  pub maximum : ℕ
  pub next : ℕ
  pub table : List (Bytes × ℕ)

-- A PUBLISH to the client. `expiry`, `subscription_ids` and `alias` are set over the stored properties.
pub record Publish : Type 0 where
  pub topic : Bytes
  pub payload : Bytes
  pub qos : ℕ
  pub dup : Bool
  pub retain : Bool
  pub properties : Option Bytes
  pub expiry : Option ℕ
  pub subscription_ids : List ℕ
  pub alias : Option ℕ
  pub packet_id : ℕ

pub data Sent : Type 0 where
  publish : Publish → Sent
  pubrel : ℕ → Sent

-- The connection, the tables that it works on, and what it has written to its socket. `window` is `none` for a
-- nil channel, `kick` a signal that waits in drainKick, and a maximum packet size of 0 is no limit.
pub record Conn : Type 0 where
  pub protocol : ℕ
  pub client : Bytes
  pub window : Option Window
  pub kick : Bool
  pub aliases : Aliases
  pub max_packet : ℕ
  pub allocator : Allocator
  pub rows : List Delivery
  pub messages : List Message
  pub subscriptions : List Subscription
  pub wire : List Sent

-- A row of the query: the delivery with its message. Times are in microseconds.
pub record Item : Type 0 where
  pub id : ℕ
  pub qos : ℕ
  pub state : ℕ
  pub packet_id : Option ℕ
  pub topic : Bytes
  pub payload : Bytes
  pub properties : Option Bytes
  pub expires_at : Option ℕ
  pub subscription_ids : List ℕ
  pub retain : Bool
  pub dup : Bool

-- What a call meets outside: whether the client has a socket here, the clock at its two readings, the size of
-- an encoded packet (`none` if it cannot be encoded), and what fails.
pub record World : Type 0 where
  pub online : Bool
  pub now : ℕ
  pub later : ℕ
  pub size : Publish → Option ℕ
  pub seed_fails : Bool
  pub probe_fails : ℕ → Bool
  pub delete_fails : Bool
  pub update_fails : Bool
  pub write_fails : Bool

pub data Sending : Type 0 where
  sent unsent alloc_failed update_failed write_failed : Sending

abbrev pub find_alias : Bytes → List (Bytes × ℕ) → Option ℕ
find_alias topic [] = none
find_alias topic ((t, a) ∷ rest) = if same t topic then some a else find_alias topic rest

-- The alias, 0 if there is none, and whether it is new.
abbrev pub new_alias : Bytes → Aliases → Option ℕ → Aliases × ℕ × Bool
new_alias topic a (some n) = (a, n, false)
new_alias topic a none = if leb a.maximum a.next then (a, 0, false) else (
  record a { next = (a.next + 1) % 65536; table = (topic, (a.next + 1) % 65536) ∷ a.table },
  (a.next + 1) % 65536,
  true,
)

-- `aliasOut` is nil exactly if the maximum is 0.
unfoldable pub resolve_alias : Bytes → Aliases → Aliases × ℕ × Bool
resolve_alias topic a =
    if a.maximum == 0 then (a, 0, false) else new_alias topic a (find_alias topic a.table)

abbrev pub signal : Conn → Conn
signal c = record c { kick = true }

-- The slot that was taken, if the channel has room; a send on a full channel takes the default branch.
abbrev pub acquire_from : Conn → Option Window → Conn × Bool
acquire_from c none = (c, true)
acquire_from c (some w) =
    if ltb w.used w.capacity
    then (record c { window = some (record w { used = w.used + 1 }) }, true)
    else (c, false)

unfoldable pub try_acquire_inflight : Conn → Conn × Bool
try_acquire_inflight c = if not (c.protocol == mqtt5) then (c, true) else acquire_from c c.window

abbrev pub return_to : Conn → Option Window → Conn
return_to c none = c
return_to c (some w) = signal (record c { window = some (record w { used = w.used - 1 }) })

unfoldable pub return_inflight : Conn → Conn
return_inflight c = return_to c c.window

abbrev pub is_id : ℕ → Option ℕ → Bool
is_id pid none = false
is_id pid (some p) = p == pid

-- client_id=$1 AND packet_id=$2
abbrev pub holds_id : Bytes → ℕ → Delivery → Bool
holds_id client pid d = same d.client client && is_id pid d.packet_id

abbrev pub greater_id : Option ℕ → Option ℕ → Option ℕ
greater_id none m = m
greater_id (some p) none = some p
greater_id (some p) (some q) = some (max p q)

-- SELECT MAX(packet_id) … WHERE client_id=$1
abbrev pub greatest_id : Bytes → List Delivery → Option ℕ
greatest_id client [] = none
greatest_id client (d ∷ ds) =
    if same d.client client
    then greater_id d.packet_id (greatest_id client ds)
    else greatest_id client ds

abbrev pub as_int : Option ℕ → Option ℤ
as_int none = none
as_int (some n) = some (pos n)

abbrev pub seed_of : World → Conn → Seed
seed_of w c = if w.seed_fails then none else some (as_int (greatest_id c.client c.rows))

abbrev pub probe_of : World → Conn → Probe
probe_of w c tries pid =
    if w.probe_fails tries then none else some (any (holds_id c.client pid) c.rows)

-- DELETE FROM deliveries WHERE id=$1
abbrev pub delete_row : ℕ → List Delivery → List Delivery
delete_row id = keep (λ d. not (d.id == id))

-- UPDATE deliveries SET packet_id=$1, state=1 WHERE id=$2 AND state=0
abbrev pub is_queued : ℕ → Delivery → Bool
is_queued id d = d.id == id && d.state == 0

abbrev pub claim_row : ℕ → ℕ → List Delivery → List Delivery
claim_row id pid =
    map (λ d. if is_queued id d then record d { packet_id = some pid; state = 1 } else d)

-- An expired or oversized message loses its row; an error of the statement is ignored.
abbrev pub drop_row : World → Item → Conn → Conn
drop_row w i c = if w.delete_fails then c else record c { rows = delete_row i.id c.rows }
