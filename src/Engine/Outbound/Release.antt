-- ===== src/Engine/Outbound/Release.antt =====
-- The acknowledgements and the slots: what gives a slot back.
use pgmqtt.Prelude.{
  ℕ, ◌+◌, ◌-◌, ◌≤◌, ◌<◌, ◌≡◌, refl, sym, ap, ◌∙◌, subst, Bool, true, false, not, some, List, [],
  ◌∷◌, arith, Bytes, keep, any, all, count, leb, ◌==◌, if_both, map, count-none, count-some,
  count-keep-le,
}
use pgmqtt.Engine.Db.{Delivery}
use pgmqtt.Engine.Outbound.{Window, Conn, holds_id, return_inflight, return_to}
use pgmqtt.Engine.Outbound.Acks.{
  AckFaults, AckResult, acknowledges, delete_acknowledged, is_known, complete, receive_row,
  handle_pubrec,
}
use pgmqtt.Engine.Outbound.Rows.{in_flight, unnumbered, all-keep}
use pgmqtt.Engine.Outbound.Held.{IsTable, Holds, keep-Holds, rows-Holds, return-Holds}

module _ (client : Bytes) (pid qos : ℕ) where
  others : Delivery → Bool
  others d = not (acknowledges client pid qos d)

  count-in_flight-acknowledged :
      (rows : List Delivery)
      → all unnumbered rows ≡ true
      → count (in_flight client) rows
        ≡ count (in_flight client) (keep (λ d. not (acknowledges client pid qos d)) rows)
          + count (acknowledges client pid qos) rows
  count-in_flight-acknowledged [] h = refl
  count-in_flight-acknowledged (d ∷ ds) h = ground (arith, count-in_flight-acknowledged ds, h)

  count-acknowledges-le :
      (rows : List Delivery)
      → count (acknowledges client pid qos) rows ≤ count (holds_id client pid) rows
  count-acknowledges-le [] = omega arith
  count-acknowledges-le (d ∷ ds) = ground (arith, count-acknowledges-le ds)

  keep-IsTable :
      (q : Delivery → Bool) (rows : List Delivery)
      → IsTable client rows
      → IsTable client (keep q rows)
  keep-IsTable q rows t = record {
    packet_ids = λ p. omega (arith, count-keep-le (holds_id client p) q rows, t.packet_ids p);
    row_ids = λ k. omega (arith, count-keep-le (λ d. d.id == k) q rows, t.row_ids k);
    numbers = all-keep unnumbered q rows t.numbers;
  }

  keep_all :
      (rows : List Delivery)
      → any (acknowledges client pid qos) rows ≡ false
      → keep (λ d. not (acknowledges client pid qos d)) rows ≡ rows
  keep_all [] h = refl
  keep_all (d ∷ ds) h = ground (arith, keep_all ds, h)

-- PUBACK (QoS 1) and PUBCOMP (QoS 2), for a packet id that is known or not, keep the slots equal to the
-- deliveries in flight: a slot is given back exactly if a delivery was completed.
pub complete-Holds :
    (qos pid : ℕ) (f : AckFaults) (c : Conn) → Holds 0 c → Holds 0 (complete qos pid f c).0
unfolding complete
complete-Holds qos pid f c h =
    if_both (λ (x : Conn × AckResult). Holds 0 x.0) f.statement (λ _. h)
      λ _.
        if_both (Holds 0) (is_known pid qos c)
          (λ e. return-Holds 0 _ (
            rows-Holds 0 1 c _ h rest (
              omega (
                arith,
                counts,
                count-some (acknowledges c.client pid qos) c.rows e,
                count-acknowledges-le c.client pid qos c.rows,
                h.table.packet_ids pid,
              ))))
          λ e.
            rows-Holds 0 0 c _ h rest
              (omega (arith, counts, count-none (acknowledges c.client pid qos) c.rows e))
  where
    rest : IsTable c.client (delete_acknowledged pid qos c).rows
    rest = keep-IsTable c.client pid qos _ c.rows h.table

    counts :
        count (in_flight c.client) c.rows
        ≡ count (in_flight c.client) (delete_acknowledged pid qos c).rows
          + count (acknowledges c.client pid qos) c.rows
    counts = count-in_flight-acknowledged c.client pid qos c.rows h.table.numbers

module _ (pid : ℕ) (c : Conn) where
  count-received :
      (p : Delivery → Bool)
      → ((d : Delivery) → p (receive_row pid c d) ≡ p d)
      → (rows : List Delivery) → count p (map (receive_row pid c) rows) ≡ count p rows
  count-received p e [] = refl
  count-received p e (d ∷ ds) = ground (arith, count-received p e ds, e d)

  numbers-received :
      (rows : List Delivery)
      → all unnumbered rows ≡ true
      → all unnumbered (map (receive_row pid c) rows) ≡ true
  numbers-received [] h = refl
  numbers-received (d ∷ ds) h = ground (arith, numbers-received ds, h)

  received-Holds : Holds 0 c → Holds 0 (record c { rows = map (receive_row pid c) c.rows })
  received-Holds h =
      rows-Holds 0 0 c _ h
        (record {
          packet_ids = λ q. omega (
            arith,
            count-received (holds_id c.client q) (λ d. ground arith) c.rows,
            h.table.packet_ids q,
          );
          row_ids = λ k. omega (
            arith,
            count-received (λ d. d.id == k) (λ d. ground arith) c.rows,
            h.table.row_ids k,
          );
          numbers = numbers-received c.rows h.table.numbers;
        })
        (omega (arith, count-received (in_flight c.client) (λ d. ground arith) c.rows))

-- A PUBREC that reports success keeps the slots equal to the deliveries in flight, known or not.
handle_pubrec-Holds :
    (reason pid : ℕ) (f : AckFaults) (c : Conn)
    → reason < 0x80
    → Holds 0 c
    → Holds 0 (handle_pubrec reason pid f c).0
unfolding handle_pubrec
handle_pubrec-Holds reason pid f c r h =
    if_both (λ (x : Conn × AckResult). Holds 0 x.0) (leb 0x80 reason)
      (λ e. absurd (ground (arith, e, r)))
      λ _.
        if_both (λ (x : Conn × AckResult). Holds 0 x.0) f.statement (λ _. h)
          λ _.
            if_both (λ (x : Conn × AckResult). Holds 0 x.0) f.write (λ _. received-Holds pid c h)
              λ _. keep-Holds 0 _ _ (received-Holds pid c h) refl refl refl refl

-- On a connection whose slots are its deliveries in flight, a PUBREC that reports a failure gives a slot back also
-- if its packet id is unknown: the same deliveries are in flight, and the window counts one less than them.
pub handle_pubrec-inflates :
    (reason pid : ℕ) (f : AckFaults) (c : Conn) (slots : Window)
    → c.window ≡ some slots
    → slots.used ≡ count (in_flight c.client) c.rows
    → 0x80 ≤ reason
    → is_known pid 2 c ≡ false
    → ((handle_pubrec reason pid f c).0.rows ≡ c.rows)
      × ((handle_pubrec reason pid f c).0.window
          ≡ some (record slots { used = count (in_flight c.client) c.rows - 1 }))
unfolding handle_pubrec return_inflight
handle_pubrec-inflates reason pid f c slots channel held r unknown =
    if_both (λ (x : Conn × AckResult). Less x.0) (leb 0x80 reason)
      (λ _.
        if_both Less f.statement (λ _. returned c refl refl)
          λ _. returned (delete_acknowledged pid 2 c) (keep_all c.client pid 2 c.rows unknown) refl)
      λ e. absurd (ground (arith, e, r))
  where
    Less : Conn → Type 0
    Less x =
        (x.rows ≡ c.rows)
        × (x.window ≡ some (record slots { used = count (in_flight c.client) c.rows - 1 }))

    returned : (c' : Conn) → c'.rows ≡ c.rows → c'.window ≡ c.window → Less (return_inflight c')
    returned c' e w =
        subst (λ o. Less (return_to c' o)) (sym (w ∙ channel))
          (e, ap (λ n. some (record slots { used = n })) (omega (arith, held)))
