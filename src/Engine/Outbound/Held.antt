-- ===== src/Engine/Outbound/Held.antt =====
-- An MQTT 5 connection whose slots are its deliveries in flight, and the single changes.
use pgmqtt.Prelude.{
  ℕ, suc, ◌+◌, ◌-◌, ◌≤◌, ◌≡◌, refl, sym, ◌∙◌, subst, inl, inr, Bool, true, false, not, none, some,
  List, arith, Bytes, any, all, count, ltb, ◌==◌, if◌then◌else◌, Bool-cases, if_both, ==_iff,
  count-none, count-some,
}
use pgmqtt.Engine.Db.{Delivery}
use pgmqtt.Engine.PacketId as PacketId
use pgmqtt.Engine.PacketId.{Allocator, alloc_packet_id}
use pgmqtt.Engine.PacketId.Alloc.{alloc_packet_id_lem}
use pgmqtt.Engine.Inbound.{mqtt5}
use pgmqtt.Engine.Outbound.{
  Window, Conn, World, try_acquire_inflight, acquire_from, return_inflight, holds_id, is_queued,
  claim_row, seed_of, probe_of,
}
use pgmqtt.Engine.Outbound.Rows.{
  in_flight, unnumbered, queued_for, count-in_flight-claim_row, count-holds_id-claim_row,
  count-others-claim_row, count-ids-claim_row, unnumbered-claim_row, count-is_queued-le,
}

-- The rows are sound: unique packet ids and row ids, and no packet id before a delivery is sent.
pub record IsTable (client : Bytes) (rows : List Delivery) : Type 0 where
  pub packet_ids : (pid : ℕ) → count (holds_id client pid) rows ≤ 1
  pub row_ids : (id : ℕ) → count (λ d. d.id == id) rows ≤ 1
  pub numbers : all unnumbered rows ≡ true

-- An MQTT 5 connection holds `extra` slots more than it has deliveries in flight, within its window.
pub record Holds (extra : ℕ) (c : Conn) : Type 0 where
  pub version : c.protocol ≡ mqtt5
  pub slots : Window
  pub channel : c.window ≡ some slots
  pub held : slots.used ≡ count (in_flight c.client) c.rows + extra
  pub within : slots.used ≤ slots.capacity
  pub table : IsTable c.client c.rows

-- The same tables, window and client.
pub keep-Holds :
    (n : ℕ) (c c' : Conn)
    → Holds n c
    → c'.protocol ≡ c.protocol
    → c'.client ≡ c.client
    → c'.window ≡ c.window
    → c'.rows ≡ c.rows
    → Holds n c'
keep-Holds n c c' h p k w r = record {
  version = p ∙ h.version;
  slots = h.slots;
  channel = w ∙ h.channel;
  held = rw (k, r) h.held;
  within = h.within;
  table = rw (k, r) h.table;
}

-- Another table with as many in flight.
pub rows-Holds :
    (n m : ℕ) (c : Conn) (rows : List Delivery)
    → Holds n c
    → IsTable c.client rows
    → count (in_flight c.client) c.rows + n ≡ count (in_flight c.client) rows + m
    → Holds m (record c { rows = rows })
rows-Holds n m c rows h t e = record {
  version = h.version;
  slots = h.slots;
  channel = h.channel;
  held = h.held ∙ e;
  within = h.within;
  table = t;
}

pub return-Holds : (n : ℕ) (c : Conn) → Holds (suc n) c → Holds n (return_inflight c)
unfolding return_inflight
return-Holds n c h = rw h.channel (record {
  version = h.version;
  slots = record h.slots { used = h.slots.used - 1 };
  channel = refl;
  held = omega (arith, h.held);
  within = omega (arith, h.within);
  table = h.table;
})

-- Either a slot is taken, or there is none and nothing changes.
pub acquire-Holds :
    (n : ℕ) (c : Conn)
    → Holds n c
    → (P : Conn × Bool → Type 0)
    → ((c' : Conn) → Holds (suc n) c' → c'.rows ≡ c.rows → c'.client ≡ c.client → P (c', true))
    → P (c, false)
    → P (try_acquire_inflight c)
unfolding try_acquire_inflight
acquire-Holds n c h P got full =
    if_both P (not (c.protocol == mqtt5)) (λ other. absurd (ground (arith, other, h.version)))
      λ _.
        subst (λ x. P (acquire_from c x)) (sym h.channel)
          (if_both P (ltb h.slots.used h.slots.capacity) (λ lt. got _ (taken lt) refl refl)
            λ _. full)
  where
    taken :
        ltb h.slots.used h.slots.capacity ≡ true
        → Holds (suc n) (record c { window = some (record h.slots { used = h.slots.used + 1 }) })
    taken lt = record {
      version = h.version;
      slots = record h.slots { used = h.slots.used + 1 };
      channel = refl;
      held = omega (arith, h.held);
      within = ground (arith, lt);
      table = h.table;
    }

module _ (c : Conn) (id pid : ℕ) where
  one_queued :
      IsTable c.client c.rows → any (is_queued id) c.rows ≡ true → count (is_queued id) c.rows ≡ 1
  one_queued t e =
      omega (arith, count-some (is_queued id) c.rows e, count-is_queued-le id c.rows, t.row_ids id)

  claim-IsTable :
      IsTable c.client c.rows
      → all (queued_for c.client id) c.rows ≡ true
      → any (holds_id c.client pid) c.rows ≡ false
      → count (is_queued id) c.rows ≡ 1
      → IsTable c.client (claim_row id pid c.rows)
  claim-IsTable t own free one = record {
    packet_ids = λ q. elim (Bool-cases (pid == q)) [
      | inl e ↦
          subst (λ k. count (holds_id c.client k) (claim_row id pid c.rows) ≤ 1)
            ((==_iff pid q).0 e)
            (omega (
              arith,
              count-holds_id-claim_row c.client id pid c.rows own t.numbers,
              count-none (holds_id c.client pid) c.rows free,
              one,
            ))
      | inr e ↦
          omega
            (arith, count-others-claim_row c.client id pid q c.rows e own t.numbers, t.packet_ids q)
    ];
    row_ids = λ k. omega (arith, count-ids-claim_row c.client id pid k c.rows, t.row_ids k);
    numbers = unnumbered-claim_row c.client id pid c.rows t.numbers;
  }

  pub claim-Holds :
      Holds 1 c
      → all (queued_for c.client id) c.rows ≡ true
      → any (holds_id c.client pid) c.rows ≡ false
      → any (is_queued id) c.rows ≡ true
      → Holds 0 (record c { rows = claim_row id pid c.rows })
  claim-Holds h own free there =
      let one = one_queued h.table there in
      rows-Holds 1 0 c _ h (claim-IsTable h.table own free one)
        (omega (arith, count-in_flight-claim_row c.client id pid c.rows own, one))

-- The id that is allocated is free in the table.
pub alloc-free :
    (w : World) (c : Conn) (pid : ℕ)
    → (alloc_packet_id (seed_of w c) (probe_of w c) c.allocator).1 ≡ PacketId.ok pid
    → any (holds_id c.client pid) c.rows ≡ false
alloc-free w c pid e =
    let (_, _, (k, t, _, _, f)) =
      (alloc_packet_id_lem (seed_of w c) (probe_of w c) c.allocator).0 pid e in
    answered (w.probe_fails t) (any (holds_id c.client pid) c.rows) f
  where
    answered : (a b : Bool) → (if a then none else some b) ≡ some false → b ≡ false
    answered a b h = ground (arith, h)
