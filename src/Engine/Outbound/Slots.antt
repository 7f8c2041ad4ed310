-- ===== src/Engine/Outbound/Slots.antt =====
-- The slots of outbound flow control against the deliveries in flight.
use pgmqtt.Prelude.{
  ℕ, ◌<◌, ◌≡◌, refl, sym, subst, true, false, not, ◌&&◌, Option, none, arith, Bytes, any, all, ltb,
  ◌==◌, if_both, count-keep-le,
}
use pgmqtt.Engine.PacketId as PacketId
use pgmqtt.Engine.PacketId.{Allocator, alloc_packet_id}
use pgmqtt.Engine.Outbound.{
  Aliases, Publish, Conn, Item, World, Sending, holds_id, is_queued, seed_of, probe_of, drop_row,
}
use pgmqtt.Engine.Outbound.Deliver.{
  expired, oversized, packet_of, name_topic, send, allocated, known_id, number, number_or_claim,
  with_slot, take_slot, prepare, deliver_one,
}
use pgmqtt.Engine.Outbound.Rows.{unnumbered, queued_for, count-in_flight-delete_row, all-keep}
use pgmqtt.Engine.Outbound.Held.{
  Holds, acquire-Holds, alloc-free, claim-Holds, keep-Holds, return-Holds, rows-Holds,
}

module _ (w : World) (i : Item) (works : w.write_fails ≡ false) where
  send-Holds : (pk : Publish) (c : Conn) → Holds 0 c → Holds 0 (send w i pk c).0
  send-Holds pk c h = rw works (keep-Holds 0 c _ h refl refl refl refl)

  allocated-Holds :
      (pk : Publish) (c : Conn) (r : PacketId.Result ℕ)
      → Holds 1 c
      → all (queued_for c.client i.id) c.rows ≡ true
      → ((pid : ℕ) → r ≡ PacketId.ok pid → any (holds_id c.client pid) c.rows ≡ false)
      → Holds 0 (allocated w i pk c r).0
  allocated-Holds pk c (PacketId.err e) h own free = return-Holds 0 c h
  allocated-Holds pk c (PacketId.ok pid) h own free =
      if_both (λ (x : Conn × Sending). Holds 0 x.0) w.update_fails (λ _. return-Holds 0 c h)
        λ _.
          if_both (λ (x : Conn × Sending). Holds 0 x.0) (any (is_queued i.id) c.rows)
            (λ there. send-Holds _ _ (claim-Holds c i.id pid h own (free pid refl) there))
            λ _. return-Holds 0 c h

  number-Holds :
      (pk : Publish) (c : Conn)
      → Holds 1 c
      → all (queued_for c.client i.id) c.rows ≡ true
      → Holds 0 (number w i pk c none).0
  number-Holds pk c h own =
      allocated-Holds pk _ _
        (keep-Holds 1 c
          (record c { allocator = (alloc_packet_id (seed_of w c) (probe_of w c) c.allocator).0 }) h
          refl refl refl refl)
        own λ pid e. alloc-free w c pid e

  take-Holds :
      (pk : Publish) (c : Conn)
      → i.state ≡ 0
      → 0 < i.qos
      → Holds 0 c
      → all (queued_for c.client i.id) c.rows ≡ true
      → Holds 0 (take_slot w i pk c).0
  take-Holds pk c z q h own =
      if_both (λ (x : Conn × Sending). Holds 0 x.0) (ltb 0 i.qos && i.state == 0)
        (λ _.
          acquire-Holds 0 c h (λ x. Holds 0 (with_slot w i pk x).0)
            (λ c' h' r k. numbered c' h' (rw (r, k) own)) h)
        λ no. absurd (ground (arith, no, z, q))
    where
      unknown : known_id i ≡ none
      unknown = rw z refl

      numbered :
          (c' : Conn)
          → Holds 1 c'
          → all (queued_for c'.client i.id) c'.rows ≡ true
          → Holds 0 (number_or_claim w i pk c').0
      numbered c' h' own' =
          if_both (λ (x : Conn × Sending). Holds 0 x.0) (i.qos == 0)
            (λ e. absurd (ground (arith, e, q)))
            λ _.
              subst (λ o. Holds 0 (number w i pk c' o).0) (sym unknown) (number-Holds pk c' h' own')

  drop-Holds :
      (c : Conn)
      → Holds 0 c
      → all (queued_for c.client i.id) c.rows ≡ true
      → Holds 0 (drop_row w i c)
  drop-Holds c h own =
      if_both (Holds 0) w.delete_fails (λ _. h)
        λ _.
          rows-Holds 0 0 c _ h
            (record {
              packet_ids = λ q. omega (
                arith,
                count-keep-le (holds_id c.client q) (λ d. not (d.id == i.id)) c.rows,
                h.table.packet_ids q,
              );
              row_ids = λ k. omega (
                arith,
                count-keep-le (λ d. d.id == k) (λ d. not (d.id == i.id)) c.rows,
                h.table.row_ids k,
              );
              numbers = all-keep unnumbered (λ d. not (d.id == i.id)) c.rows h.table.numbers;
            })
            (omega (arith, count-in_flight-delete_row c.client i.id i.id c.rows own))

  prepare-Holds :
      (c : Conn) (x : Aliases × Option ℕ × Bytes)
      → i.state ≡ 0
      → 0 < i.qos
      → Holds 0 c
      → all (queued_for c.client i.id) c.rows ≡ true
      → Holds 0 (prepare w i c x).0
  prepare-Holds c (a, alias, topic) z q h own =
      let h' = keep-Holds 0 c (record c { aliases = a }) h refl refl refl refl in
      if_both (λ (x : Conn × Sending). Holds 0 x.0) (oversized w c (packet_of w i c alias topic))
        (λ _. drop-Holds (record c { aliases = a }) h' own)
        λ _. take-Holds (packet_of w i c alias topic) (record c { aliases = a }) z q h' own

-- Sending a QoS 1 or 2 delivery, whose row is queued for the client or gone, keeps the slots that an MQTT 5
-- connection holds equal to its deliveries in flight, no more than its Receive Maximum, and the packet ids in use
-- unique: on every branch (no socket, expired, too large, no slot, no packet id, a failed statement, no row),
-- unless the write fails.
pub deliver_one-Holds :
    (w : World) (i : Item) (c : Conn)
    → w.write_fails ≡ false
    → i.state ≡ 0
    → 0 < i.qos
    → all (queued_for c.client i.id) c.rows ≡ true
    → Holds 0 c
    → Holds 0 (deliver_one w i c).0
unfolding deliver_one
deliver_one-Holds w i c works z q own h =
    if_both (λ (x : Conn × Sending). Holds 0 x.0) (not w.online) (λ _. h)
      λ _.
        if_both (λ (x : Conn × Sending). Holds 0 x.0) (expired w.now i.expires_at)
          (λ _. drop-Holds w i works c h own)
          λ _. prepare-Holds w i works c (name_topic c i.topic) z q h own
