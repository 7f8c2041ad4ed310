-- ===== src/Engine/Inbound/Window.antt =====
-- A connection's PUBLISH and PUBREL packets in sequence, against the server's Receive Maximum.
use pgmqtt.Prelude.{
  ℕ, suc, ◌%◌, ◌≤◌, ◌<◌, ◌≡◌, ◌≢◌, ◌↔◌, refl, ap, ℤ, pos, negsuc, IsDiff, Bool, true, false, ◌&&◌,
  Option, none, some, List, [], ◌∷◌, arith, same_self, ltb, if_both,
}
use pgmqtt.Wire.Topic.{TopicError, validate_topic_name}
use pgmqtt.Engine.Db.{Db, has_inbound, delete_inbound}
use pgmqtt.Engine.Publish.{Env}
use pgmqtt.Engine.Inbound.{
  mqtt5, Result, err, receive_maximum_exceeded, Peer, Packet, Faults, PubrelFaults, State, checked,
  release, occupy, takes_slot, exceeds, with_topic, handle_publish, handle_pubrel,
  server_receive_maximum,
}
use pgmqtt.Engine.Inbound.Slots.{
  waiting, waiting-delete, takes_slot_new, Balanced, handle_publish-Balanced,
  handle_pubrel-Balanced,
}
use pgmqtt.Engine.Inbound.Checked.{Kept, checked-Kept}

pub data Input : Type 0 where
  publish : Env → Packet → Faults → Input
  pubrel : ℕ → PubrelFaults → Input

-- The read loop handles one packet after the other.
unfoldable pub run : Peer → List Input → State → State
unfolding handle_publish handle_pubrel
run c [] s = s
run c (publish env pk f ∷ is) s = run c is (handle_publish env c pk f s).0
run c (pubrel pid f ∷ is) s = run c is (handle_pubrel c pid f s).0

abbrev pub max_of : Peer → ℕ
max_of c = server_receive_maximum c.receive_maximum

abbrev pub waits : Peer → State → ℕ
waits c s = waiting c.client s.db.inbound_qos2

-- The counter is the number of packets that wait, and that is within the limit.
pub record Within (c : Peer) (s : State) : Type 0 where
  pub balanced : Balanced c 0 s
  pub bound : waits c s ≤ max_of c

counted : (i : ℤ) (n : ℕ) → IsDiff i n 0 → i ≡ pos n
counted (pos m) n h = ap pos (omega (arith, h))
counted (negsuc m) n h = absurd (omega (arith, h))

exceeds_iff :
    (c : Peer) (s : State)
    → max_of c < 65535
    → Within c s
    → (exceeds c s ≡ true) ↔ (waits c s ≡ max_of c)
exceeds_iff c s m w =
    rw (counted s.inflight (waits c s) w.balanced.balance) (test (max_of c) (waits c s) m w.bound)
  where
    test : (m n : ℕ) → m < 65535 → n ≤ m → (ltb m (suc n % 65536) ≡ true) ↔ (n ≡ m)
    test m n h h' = ground arith

release-bound :
    (c : Peer) (pk : Packet) (s : State) (taken : Bool) (x : State × Result × Bool)
    → Kept c pk (occupy taken s) x
    → waits c s ≤ max_of c
    → (pk.qos ≡ 2 → has_inbound c.client pk.packet_id s.db ≡ false → waits c s ≢ max_of c)
    → waits c (release taken x).0 ≤ max_of c
release-bound c pk s true (s', r, true) (i, rows, q, new) b h =
    rw (rows, same_self c.client) (omega (arith, b, h q new))
release-bound c pk s true (s', r, false) (i, rows) b h = rw rows b
release-bound c pk s false (s', r, true) (i, rows, q, new) b h =
    rw (rows, same_self c.client) (omega (arith, b, h q new))
release-bound c pk s false (s', r, false) (i, rows) b h = rw rows b

publish-Within :
    (env : Env) (c : Peer) (pk : Packet) (f : Faults) (s : State)
    → c.protocol ≡ mqtt5
    → max_of c < 65535
    → Within c s
    → Within c (handle_publish env c pk f s).0
unfolding handle_publish
publish-Within env c pk f s v m w = record {
  balanced = handle_publish-Balanced env c 0 pk f s v w.balanced;
  bound = go (validate_topic_name pk.topic);
}
  where
    full :
        takes_slot c pk f s && exceeds c s ≡ false
        → pk.qos ≡ 2
        → has_inbound c.client pk.packet_id s.db ≡ false
        → waits c s ≢ max_of c
    full room q new e =
        absurd (cc (room, takes_slot_new c pk f s v q new, (exceeds_iff c s m w).1 e))

    go : (o : Option TopicError) → waits c (with_topic env c pk f s o).0 ≤ max_of c
    go (some e) = w.bound
    go none =
        if_both (λ (x : State × Result). waits c x.0 ≤ max_of c)
          (takes_slot c pk f s && exceeds c s) (λ _. w.bound)
          λ room.
            release-bound c pk s (takes_slot c pk f s)
              (checked env c pk f (occupy (takes_slot c pk f s) s))
              (checked-Kept c pk env f (occupy (takes_slot c pk f s) s)) w.bound (full room)

pubrel-Within :
    (c : Peer) (pid : ℕ) (f : PubrelFaults) (s : State)
    → Within c s
    → Within c (handle_pubrel c pid f s).0
unfolding handle_pubrel
pubrel-Within c pid f s w = record {
  balanced = handle_pubrel-Balanced c 0 pid f s w.balanced;
  bound =
      if_both (λ (x : State × Result). waits c x.0 ≤ max_of c) f.delete (λ _. w.bound)
        λ _.
          if_both (λ t. waits c t ≤ max_of c) (has_inbound c.client pid s.db) (λ _. fewer)
            λ _. fewer;
}
  where
    fewer : waiting c.client (delete_inbound c.client pid s.db).inbound_qos2 ≤ max_of c
    fewer = omega (arith, waiting-delete c.client pid s.db.inbound_qos2, w.bound)

-- If the limit is below 65535: a connection of an MQTT 5 client that starts with as many slots taken as packets wait for PUBREL, and no more
-- than the limit, stays so through any sequence of PUBLISH and PUBREL packets and failures: so the number of
-- QoS 2 packets that wait never exceeds the server's Receive Maximum.
pub run-Within :
    (c : Peer) (is : List Input) (s : State)
    → c.protocol ≡ mqtt5
    → max_of c < 65535
    → Within c s
    → Within c (run c is s)
unfolding run
run-Within c [] s v m w = w
run-Within c (publish env pk f ∷ is) s v m w =
    run-Within c is _ v m (publish-Within env c pk f s v m w)
run-Within c (pubrel pid f ∷ is) s v m w = run-Within c is _ v m (pubrel-Within c pid f s w)

-- The answers of a handler that was not turned away for its slot.
Admitted : Result → Type 0
Admitted r = r ≢ err receive_maximum_exceeded

abbrev code : Result → ℕ
code (err receive_maximum_exceeded) = 1
code r = 0

module _ (c : Peer) (env : Env) (pk : Packet) (f : Faults)
    (t : validate_topic_name pk.topic ≡ none) where
  pub refuse_full :
      (s : State)
      → takes_slot c pk f s && exceeds c s ≡ true
      → (handle_publish env c pk f s).1 ≡ err receive_maximum_exceeded
  unfolding handle_publish
  refuse_full s e = rw t (
      if_both (λ (x : State × Result). x.1 ≡ err receive_maximum_exceeded)
        (takes_slot c pk f s && exceeds c s) (λ _. refl) λ no. absurd (cc (e, no)))

-- A PUBLISH of QoS 1 or 2 that is not a retransmission of a QoS 2 packet that waits, as far as the query can tell.
abbrev pub NeedsSlot : Peer → Packet → Faults → State → Type 0
NeedsSlot c pk f s =
    (0 < pk.qos)
    × ¬ (
        (pk.qos ≡ 2)
        × (pk.dup ≡ true)
        × (f.probe ≡ false)
        × (has_inbound c.client pk.packet_id s.db ≡ true))
