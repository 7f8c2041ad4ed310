-- ===== src/Engine/Subscribe/Overrun.antt =====
-- The retained messages that a subscription replays, and the window that they pass by.
use pgmqtt.Prelude.{
  ℕ, ◌+◌, ◌<◌, ◌≡◌, ◌∙◌, false, none, some, List, [], ◌∷◌, ◌++◌, map, arith, Bytes, same_self, any,
  count, ltb, ◌==◌, if_both,
}
use pgmqtt.Engine.Db.{Delivery, Retained}
use pgmqtt.Engine.PacketId as PacketId
use pgmqtt.Engine.PacketId.{Allocator}
use pgmqtt.Engine.Outbound.{Window, World, Publish}
use pgmqtt.Engine.Outbound.Rows.{in_flight}
use pgmqtt.Engine.Subscribe.{Dispatch}
use pgmqtt.Engine.Subscribe.Retained.{
  Station, Passage, Sent, replayed, effective_qos, retained_packet, persist, waits_for, number_row,
  numbering, send_retained,
}

-- A row that is appended for a new message is the only one that is numbered, and then in flight.
count-numbered :
    (client : Bytes) (message pid id qos : ℕ) (rows : List Delivery)
    → any (λ d. d.message == message) rows ≡ false
    → count (in_flight client) (
        map (number_row client message pid) (
          rows
          ++ record {
            id = id;
            client = client;
            message = message;
            qos = qos;
            state = 0;
            packet_id = none;
          }
            ∷ []))
      ≡ count (in_flight client) rows + 1
count-numbered client message pid id qos [] h = ground (arith, same_self client)
count-numbered client message pid id qos (d ∷ ds) h =
    ground (arith, count-numbered client message pid id qos ds, h)

module _ (d : Dispatch) (r : Retained) (st : Station) (slots : Window) where
  abbrev Overrun : Station × Sent → Type 0
  Overrun (st', s) =
      s ≡ replayed
      → (st'.conn.window ≡ some slots)
        × (count (in_flight st'.conn.client) st'.conn.rows ≡ slots.used + 1)

  module _ (channel : st.conn.window ≡ some slots)
      (held : slots.used ≡ count (in_flight st.conn.client) st.conn.rows)
      (unused : any (λ d. d.message == st.next_message) st.conn.rows ≡ false) where
    numbering-Overrun :
        (w : World) (pk : Publish) (a : Allocator) (x : PacketId.Result ℕ)
        → Overrun (
            numbering w st.next_message pk
              (record (persist d r st) { conn = record (persist d r st).conn { allocator = a } })
              x)
    numbering-Overrun w pk a (PacketId.err e) = λ h. cc h
    numbering-Overrun w pk a (PacketId.ok pid) =
        if_both Overrun w.update_fails (λ _ h. cc h)
          λ _.
            if_both Overrun
              (any (waits_for st.conn.client st.next_message) (persist d r st).conn.rows)
              (λ _.
                if_both Overrun w.write_fails (λ _ h. cc h)
                  λ _ _. (
                    channel,
                    count-numbered st.conn.client st.next_message pid st.next_delivery
                          (effective_qos d r) st.conn.rows unused
                        ∙ omega (arith, held),
                  ))
              λ _ h. cc h

-- On a connection whose slots are its deliveries in flight, be its window full or not, a retained message that is replayed with a
-- QoS above 0 is sent and is then in flight, but takes no slot: the window is as it was, and counts one
-- less than the deliveries in flight.
pub send_retained-overruns :
    (p : Passage) (d : Dispatch) (r : Retained) (st : Station) (slots : Window)
    → st.conn.window ≡ some slots
    → slots.used ≡ count (in_flight st.conn.client) st.conn.rows
    → any (λ x. x.message == st.next_message) st.conn.rows ≡ false
    → 0 < effective_qos d r
    → (send_retained p d r st).1 ≡ replayed
    → ((send_retained p d r st).0.conn.window ≡ some slots)
      × (count
            (in_flight (send_retained p d r st).0.conn.client)
            (send_retained p d r st).0.conn.rows
          ≡ slots.used + 1)
unfolding send_retained
send_retained-overruns p d r st slots channel held unused q =
    if_both (Overrun d r st slots) (ltb 0 (effective_qos d r))
      (λ _.
        if_both (Overrun d r st slots) p.persist_fails (λ _ h. cc h)
          λ _.
            numbering-Overrun d r st slots channel held unused p.world
              (retained_packet p.world d r st.conn) _ _)
      λ low. absurd (ground (arith, low, q))
