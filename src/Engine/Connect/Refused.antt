-- ===== src/Engine/Connect/Refused.antt =====
-- A CONNECT that is not accepted.
use pgmqtt.Prelude.{ℕ, ◌≡◌, ◌≢◌, Bool, true, false, List, ◌++◌, any}
use pgmqtt.Engine.Db.{Db}
use pgmqtt.Engine.Connect.{Connect, infra}
use pgmqtt.Engine.Connect.Handshake.{
  Effect, reject, auth_failure, notify_takeover, close_taken_over, lift_cap, connack, Broker,
  refusing, Reply, refused, unanswered, accepted,
}

-- A verdict on the client: a CONNACK of either kind, or a failure counted for its address.
abbrev pub is_verdict : Effect → Bool
is_verdict (reject v c) = true
is_verdict auth_failure = true
is_verdict (notify_takeover b c t) = false
is_verdict (close_taken_over c) = false
is_verdict (lift_cap n) = false
is_verdict (connack p o) = true

-- What a CONNECT that is not accepted has done: on a fault of the client nothing but the answer that goes
-- with it, on a fault of Postgres no verdict.
abbrev pub Outcomes : ℕ → Broker → Broker × Reply → Type 0
Outcomes v b (b', refused r) =
    (r ≢ infra
      → (b'.db ≡ b.db) × (b'.registry ≡ b.registry) × (b'.events ≡ b.events ++ refusing v r))
    × (r ≡ infra → (es : List Effect) × (b'.events ≡ b.events ++ es) × (any is_verdict es ≡ false))
Outcomes v b (b', unanswered) =
    (es : List Effect) × (b'.events ≡ b.events ++ es) × (any is_verdict es ≡ false)
Outcomes v b (b', accepted l c) = Unit {0}

abbrev NoVerdict : Broker → List Effect → Type 0
NoVerdict b events = (es : List Effect) × (events ≡ b.events ++ es) × (any is_verdict es ≡ false)
