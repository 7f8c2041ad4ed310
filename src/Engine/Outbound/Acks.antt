-- ===== src/Engine/Outbound/Acks.antt =====
-- `handlePuback`, `handlePubrec` and `handlePubcomp` of internal/engine/conn.go.
use pgmqtt.Prelude.{
  ℕ, Bool, not, ◌&&◌, [], ◌∷◌, ◌++◌, map, Bytes, keep, any, leb, ◌==◌, if◌then◌else◌,
}
use pgmqtt.Engine.Db.{Delivery}
use pgmqtt.Engine.Outbound.{Conn, pubrel, holds_id, return_inflight}

-- Whether the statement fails, and the write of PUBREL.
pub record AckFaults : Type 0 where
  pub statement : Bool
  pub write : Bool

pub data AckResult : Type 0 where
  ok query_failed write_failed : AckResult

abbrev pub acknowledges : Bytes → ℕ → ℕ → Delivery → Bool
acknowledges client pid qos d = holds_id client pid d && d.qos == qos

-- DELETE FROM deliveries WHERE client_id=$1 AND packet_id=$2 AND qos=…
abbrev pub delete_acknowledged : ℕ → ℕ → Conn → Conn
delete_acknowledged pid qos c = record c {
  rows = keep (λ d. not (acknowledges c.client pid qos d)) c.rows;
}

abbrev pub is_known : ℕ → ℕ → Conn → Bool
is_known pid qos c = any (acknowledges c.client pid qos) c.rows

-- What PUBACK and PUBCOMP do.
unfoldable pub complete : ℕ → ℕ → AckFaults → Conn → Conn × AckResult
complete qos pid f c = if f.statement then (c, query_failed) else (
  if is_known pid qos c
      then return_inflight (delete_acknowledged pid qos c)
      else delete_acknowledged pid qos c,
  ok,
)

abbrev pub handle_puback : ℕ → AckFaults → Conn → Conn × AckResult
handle_puback = complete 1

abbrev pub handle_pubcomp : ℕ → AckFaults → Conn → Conn × AckResult
handle_pubcomp = complete 2

-- UPDATE deliveries SET state=2 WHERE client_id=$1 AND packet_id=$2 AND qos=2 AND state=1
abbrev pub receive_row : ℕ → Conn → Delivery → Delivery
receive_row pid c d =
    if acknowledges c.client pid 2 d && d.state == 1 then record d { state = 2 } else d

unfoldable pub handle_pubrec : ℕ → ℕ → AckFaults → Conn → Conn × AckResult
handle_pubrec reason pid f c =
    if leb 0x80 reason
    then (
      if f.statement then return_inflight c else return_inflight (delete_acknowledged pid 2 c),
      if f.statement then query_failed else ok,
    )
    else if f.statement
    then (c, query_failed)
    else if f.write
    then (record c { rows = map (receive_row pid c) c.rows }, write_failed)
    else (record c { rows = map (receive_row pid c) c.rows; wire = c.wire ++ pubrel pid ∷ [] }, ok)
