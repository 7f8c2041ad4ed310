-- ===== src/Engine/Publish/Accounts.antt =====
-- What becomes of each client when a message is published by `mqtt_publish`.
use pgmqtt.Prelude.{Bool, not, ◌&&◌, Bytes, same, ◌==◌}
use pgmqtt.Engine.Db.{Db, Delivery}
use pgmqtt.Engine.Publish.{Match}

-- A QoS 0 message for a client who is not connected.
abbrev pub is_skipped : Match → Bool
is_skipped m = m.deliver_qos == 0 && not m.connected

module _ (c : Bytes) where
  abbrev of_client : Match → Bool
  of_client m = same m.client c

  abbrev has_client : Delivery → Bool
  has_client d = same d.client c
