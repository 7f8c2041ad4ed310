-- ===== src/Engine/Inbound/Resume.antt =====
-- A session that is resumed with QoS 2 packets of an earlier connection waiting for PUBREL: `inboundInflight` starts
-- at 0, but `handlePubrel` gives a slot back for each of them.
use pgmqtt.Prelude.{
  ℕ, suc, ◌+◌, ◌<◌, ◌≡◌, subst, ℤ, pos, negsuc, increment, IsDiff, to_uint16, true, none, List, [],
  ◌∷◌, arith, ltb,
}
use pgmqtt.Wire.Topic.{validate_topic_name}
use pgmqtt.Engine.Publish.{Env}
use pgmqtt.Engine.Inbound.{
  mqtt5, err, receive_maximum_exceeded, Peer, Packet, Faults, State, takes_slot, exceeds,
  handle_publish,
}
use pgmqtt.Engine.Inbound.Slots.{IsKey, Balanced, handle_publish-Balanced, handle_pubrel-Balanced}
use pgmqtt.Engine.Inbound.Window.{Input, publish, pubrel, run, max_of, waits, refuse_full}

run-Balanced :
    (c : Peer) (base : ℕ) (is : List Input) (s : State)
    → c.protocol ≡ mqtt5
    → Balanced c base s
    → Balanced c base (run c is s)
unfolding run
run-Balanced c base [] s v b = b
run-Balanced c base (publish env pk f ∷ is) s v b =
    run-Balanced c base is _ v (handle_publish-Balanced env c base pk f s v b)
run-Balanced c base (pubrel pid f ∷ is) s v b =
    run-Balanced c base is _ v (handle_pubrel-Balanced c base pid f s b)

below :
    (i : ℤ) (n k base m : ℕ)
    → IsDiff i n base
    → base ≡ n + suc (suc k)
    → m + k < 65535
    → ltb m (to_uint16 (increment i)) ≡ true
below (pos x) n k base m d e h = absurd (omega (arith, d, e))
below (negsuc x) n k base m d e h =
    subst (λ y. ltb m (to_uint16 (increment (negsuc y))) ≡ true) x_is (ground (arith, h))
  where
    x_is : suc k ≡ x
    x_is = omega (arith, d, e)

-- Once the packets of a resumed session that wait are `k + 2` fewer than when its client connected, where the limit and `k` together are
-- below 65535, every PUBLISH with a valid topic that needs a slot is refused for the Receive Maximum, however few packets
-- wait.
pub resumed_refuses :
    (c : Peer) (is : List Input) (s : State) (k : ℕ) (env : Env) (pk : Packet) (f : Faults)
    → c.protocol ≡ mqtt5
    → s.inflight ≡ pos 0
    → IsKey c.client s.db
    → waits c s ≡ waits c (run c is s) + suc (suc k)
    → max_of c + k < 65535
    → validate_topic_name pk.topic ≡ none
    → takes_slot c pk f (run c is s) ≡ true
    → (handle_publish env c pk f (run c is s)).1 ≡ err receive_maximum_exceeded
resumed_refuses c is s k env pk f v zero key fewer m t slot =
    refuse_full c env pk f t (run c is s) (rw slot over)
  where
    start : Balanced c (waits c s) s
    start = record { balance = rw zero (omega arith); key = key }

    over : exceeds c (run c is s) ≡ true
    over =
        below (run c is s).inflight _ k (waits c s) (max_of c)
          (run-Balanced c (waits c s) is s v start).balance fewer m
