-- ===== src/Listener/Run.antt =====
-- `run` of internal/listener/listener.go.
pub mod Recovered
pub mod Exits
use pgmqtt.Prelude.{
  ℕ, ℤ, Bool, true, false, Option, none, some, List, [], ◌∷◌, ◌++◌, Bytes, map, if◌then◌else◌,
}
use pgmqtt.Engine.Db.{Db}
use pgmqtt.Engine.Session.{Life, attest_owned_sessions}
use pgmqtt.Engine.Registry.{Registry}
use pgmqtt.Engine.Shutdown.{Conns, kick_all_drains}
use pgmqtt.Listener.Notices.{Notification, dispatch_notification}
use pgmqtt.Listener.Reconnect.{Outage, reconnect}

-- What a wait for a notification ends with. An outage comes with what the dials do, whether the context is
-- cancelled in the end, and whether the attestation fails.
pub data Wait : Type 0 where
  notified : Notification → Wait
  cancelled hung_up : Wait
  broken : Outage → Bool → Bool → Wait

-- `id` is the text of the broker's UUID, `delivered` what Deliver has been called with, if the payload was a number.
pub record Host : Type 0 where
  pub self : ℕ
  pub id : Bytes
  pub conns : Conns
  pub db : Db
  pub delivered : List ℤ

-- `exited` ends the process; `waiting` says that the goroutine still runs.
pub data Ended : Type 0 where
  waiting returned exited : Ended

abbrev pub held : Conns → List Life
held h = map (λ r. h.life r.1) h.registry

-- AttestOwnedSessions, then KickAllDrains
abbrev pub recovered : Bool → Host → Host
recovered fails x = record x {
  db = attest_owned_sessions fails x.self (held x.conns) x.db;
  conns = kick_all_drains x.conns;
}

abbrev pub with_delivery : Option ℤ → List ℤ → List ℤ
with_delivery none zs = zs
with_delivery (some z) zs = zs ++ z ∷ []

abbrev pub heard : (Bytes → Option ℕ) → Notification → Host → Host
heard parse n x =
    let (conns, z) = dispatch_notification parse x.id n x.conns in
    record x { conns = conns; delivered = with_delivery z x.delivered }

unfoldable pub run : (Bytes → Option ℕ) → List Wait → Host → Host × Ended
unfolding dispatch_notification reconnect attest_owned_sessions
run parse [] x = (x, waiting)
run parse (notified n ∷ ws) x = run parse ws (heard parse n x)
run parse (cancelled ∷ ws) x = (x, returned)
run parse (hung_up ∷ ws) x = (x, returned)
run parse (broken o stopped fails ∷ ws) x =
    let rest = run parse ws (recovered fails x) in
    if (reconnect o).0 then rest else if stopped then (x, returned) else (x, exited)
