-- ===== src/Engine/Outbound/Ending.antt =====
-- The drain loop ends, and what it leaves.
use pgmqtt.Prelude.{
  ℕ, zero, suc, ◌≤◌, ◌<◌, ◌≡◌, ◌≢◌, refl, sym, subst, Bool, true, not, ◌&&◌, Option, none, some,
  List, [], ◌∷◌, arith, Bytes, any, count, ltb, ◌==◌, if_both,
}
use pgmqtt.Engine.Db.{Delivery, Message}
use pgmqtt.Engine.PacketId as PacketId
use pgmqtt.Engine.PacketId.{alloc_packet_id}
use pgmqtt.Engine.Outbound.{
  Aliases, Publish, Conn, Item, World, Sending, sent, unsent, is_queued, claim_row,
  try_acquire_inflight, seed_of, probe_of,
}
use pgmqtt.Engine.Outbound.Deliver.{
  send, allocated, known_id, number, number_or_claim, take_slot, prepare, oversized, packet_of,
  name_topic, expired, deliver_one,
}
use pgmqtt.Engine.Outbound.Drain.{
  find_message, waits, or_next, unexpired, next_queued, Turn, more, done, failed, turn_of,
  drain_item, drain_once, Weather, End, stuck, after_turn, drain,
}

-- Queued deliveries, of all clients.
abbrev pub is_waiting : Delivery → Bool
is_waiting d = d.state == 0

-- After a delivery that was sent, fewer wait.
abbrev Fewer : ℕ → Conn × Sending → Type 0
Fewer n (c, sent) = count is_waiting c.rows < n
Fewer n (c, s) = Unit

count-claim_row-le :
    (id pid : ℕ) (rows : List Delivery)
    → count is_waiting (claim_row id pid rows) ≤ count is_waiting rows
count-claim_row-le id pid [] = omega arith
count-claim_row-le id pid (d ∷ ds) = ground (arith, count-claim_row-le id pid ds)

count-claim_row :
    (id pid : ℕ) (rows : List Delivery)
    → any (is_queued id) rows ≡ true
    → count is_waiting (claim_row id pid rows) < count is_waiting rows
count-claim_row id pid [] h = absurd (ground arith)
count-claim_row id pid (d ∷ ds) h =
    ground (arith, count-claim_row id pid ds, count-claim_row-le id pid ds, h)

module _ (w : World) (i : Item) (n : ℕ) where
  send-Fewer : (pk : Publish) (c : Conn) → count is_waiting c.rows < n → Fewer n (send w i pk c)
  send-Fewer pk c h = if_both (Fewer n) w.write_fails (λ _. tt) λ _. h

  allocated-Fewer :
      (pk : Publish) (c : Conn) (r : PacketId.Result ℕ)
      → count is_waiting c.rows ≤ n
      → Fewer n (allocated w i pk c r)
  allocated-Fewer pk c (PacketId.err e) h = tt
  allocated-Fewer pk c (PacketId.ok pid) h =
      if_both (Fewer n) w.update_fails (λ _. tt)
        λ _.
          if_both (Fewer n) (any (is_queued i.id) c.rows)
            (λ there. send-Fewer _ _ (omega (arith, count-claim_row i.id pid c.rows there, h)))
            λ _. tt

  numbered-Fewer :
      (pk : Publish) (c : Conn)
      → i.state ≡ 0
      → 0 < i.qos
      → count is_waiting c.rows ≤ n
      → Fewer n (number_or_claim w i pk c)
  numbered-Fewer pk c z q h =
      if_both (Fewer n) (i.qos == 0) (λ e. absurd (ground (arith, e, q)))
        λ _.
          subst (λ o. Fewer n (number w i pk c o)) (sym unknown)
            (allocated-Fewer pk _ (alloc_packet_id (seed_of w c) (probe_of w c) c.allocator).1 h)
    where
      unknown : known_id i ≡ none
      unknown = rw z refl

  acquired_rows : (c : Conn) → (try_acquire_inflight c).0.rows ≡ c.rows
  unfolding try_acquire_inflight
  acquired_rows c = ground arith

  take_slot-Fewer :
      (pk : Publish) (c : Conn)
      → i.state ≡ 0
      → 0 < i.qos
      → count is_waiting c.rows ≤ n
      → Fewer n (take_slot w i pk c)
  take_slot-Fewer pk c z q h =
      if_both (Fewer n) (ltb 0 i.qos && i.state == 0)
        (λ _.
          if_both (Fewer n) (try_acquire_inflight c).1
            (λ _. numbered-Fewer pk (try_acquire_inflight c).0 z q (rw (acquired_rows c) h))
            λ _. tt)
        λ _. numbered-Fewer pk c z q h

  prepare-Fewer :
      (c : Conn) (x : Aliases × Option ℕ × Bytes)
      → i.state ≡ 0
      → 0 < i.qos
      → count is_waiting c.rows ≤ n
      → Fewer n (prepare w i c x)
  prepare-Fewer c (a, alias, topic) z q h =
      if_both (Fewer n) (oversized w c (packet_of w i c alias topic)) (λ _. tt)
        λ _. take_slot-Fewer (packet_of w i c alias topic) (record c { aliases = a }) z q h

  deliver_one-Fewer :
      (c : Conn)
      → i.state ≡ 0
      → 0 < i.qos
      → count is_waiting c.rows ≤ n
      → Fewer n (deliver_one w i c)
  unfolding deliver_one
  deliver_one-Fewer c z q h =
      if_both (Fewer n) (not w.online) (λ _. tt)
        λ _.
          if_both (Fewer n) (expired w.now i.expires_at) (λ _. tt)
            λ _. prepare-Fewer c (name_topic c i.topic) z q h

-- What the query selects is queued, and of QoS 1 or 2.
abbrev Queued : Option Item → Type 0
Queued none = Unit
Queued (some i) = (i.state ≡ 0) × (0 < i.qos)

unexpired-Queued :
    (now : ℕ) (c : Conn) (d : Delivery) (o : Option Message)
    → d.state ≡ 0
    → 0 < d.qos
    → Queued (unexpired now c d o)
unexpired-Queued now c d none z q = tt
unexpired-Queued now c d (some m) z q =
    if_both Queued (expired now m.expires_at) (λ _. tt) λ _. (z, q)

or_next-Queued : (x y : Option Item) → Queued x → Queued y → Queued (or_next x y)
or_next-Queued none y h k = k
or_next-Queued (some i) y h k = h

next_queued-Queued : (now : ℕ) (c : Conn) (ds : List Delivery) → Queued (next_queued now c ds)
unfolding next_queued
next_queued-Queued now c [] = tt
next_queued-Queued now c (d ∷ ds) =
    if_both Queued (waits c.client d)
      (λ e.
        or_next-Queued (unexpired now c d (find_message d.message c.messages)) _
          (unexpired-Queued now c d (find_message d.message c.messages) (ground (arith, e))
            (ground (arith, e)))
          (next_queued-Queued now c ds))
      λ _. next_queued-Queued now c ds

abbrev FewerTurn : ℕ → Conn × Turn → Type 0
FewerTurn n (c, more) = count is_waiting c.rows < n
FewerTurn n (c, t) = Unit

turn-Fewer : (n : ℕ) (x : Conn × Sending) → Fewer n x → FewerTurn n (x.0, turn_of x.1)
turn-Fewer n (c, sent) h = h
turn-Fewer n (c, unsent) h = tt
turn-Fewer n (c, Sending.alloc_failed) h = tt
turn-Fewer n (c, Sending.update_failed) h = tt
turn-Fewer n (c, Sending.write_failed) h = tt

drain_once-Fewer :
    (b : Bool) (w : World) (c : Conn) → FewerTurn (count is_waiting c.rows) (drain_once b w c)
unfolding drain_once
drain_once-Fewer b w c =
    if_both (FewerTurn (count is_waiting c.rows)) b (λ _. tt)
      λ _. item (next_queued w.now c c.rows) (next_queued-Queued w.now c c.rows)
  where
    item : (o : Option Item) → Queued o → FewerTurn (count is_waiting c.rows) (drain_item w c o)
    item none h = tt
    item (some i) (z, q) =
        turn-Fewer _ (deliver_one w i c)
          (deliver_one-Fewer w i (count is_waiting c.rows) c z q (omega arith))

after :
    (n : ℕ) (at : ℕ → Weather) (c : Conn) (x : Conn × Turn)
    → FewerTurn (count is_waiting c.rows) x
    → ((c' : Conn) → count is_waiting c'.rows < count is_waiting c.rows → (drain n at c').1 ≢ stuck)
    → (after_turn x (drain n at x.0)).1 ≢ stuck
after n at c (c', more) k h e = h c' k e
after n at c (c', done) k h e = cc
after n at c (c', failed) k h e = cc

-- After a kick, and while nobody else queues deliveries, the drain loop ends, whatever fails and whatever the clock
-- says: one turn more than there are queued deliveries is enough, since each turn that goes on has taken one out
-- of the queue.
pub drain_ends :
    (fuel : ℕ) (at : ℕ → Weather) (c : Conn)
    → count is_waiting c.rows < fuel
    → (drain fuel at c).1 ≢ stuck
unfolding drain
drain_ends zero at c h = absurd (omega (arith, h))
drain_ends (suc n) at c h =
    if_both (λ (x : Conn × End). x.1 ≢ stuck) (at n).closing (λ _ e. cc)
      λ _.
        after n at c (drain_once (at n).scan_fails (at n).world c)
          (drain_once-Fewer (at n).scan_fails (at n).world c)
          λ c' k. drain_ends n at c' (omega (arith, h, k))
