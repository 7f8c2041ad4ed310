-- ===== src/Engine/Outbound/Fan/Framed.antt =====
-- What a delivery leaves alone.
use pgmqtt.Prelude.{
  ℕ, ◌≡◌, refl, ap, ◌∙◌, inl, inr, Bool, true, false, not, ◌&&◌, Option, none, some, List, [], ◌∷◌,
  arith, Bytes, keep, any, ltb, ◌==◌, if◌then◌else◌, Bool-cases, if_both,
}
use pgmqtt.Engine.Db.{Delivery}
use pgmqtt.Engine.PacketId.{Allocator, alloc_packet_id}
use pgmqtt.Engine.PacketId as PacketId
use pgmqtt.Engine.Inbound.{mqtt5}
use pgmqtt.Engine.Outbound.{
  Aliases, Window, Publish, Conn, Item, World, Sending, acquire_from, try_acquire_inflight,
  return_to, return_inflight, delete_row, is_queued, claim_row, drop_row,
}
use pgmqtt.Engine.Outbound.Deliver.{
  expired, name_topic, packet_of, oversized, send, allocated, known_id, number, number_or_claim,
  with_slot, take_slot, prepare, deliver_one,
}

module _ (p : Delivery → Bool) (i : Item)
    (spared : (d : Delivery) → d.id == i.id ≡ true → p d ≡ false) where
  keep-delete_row : (rows : List Delivery) → keep p (delete_row i.id rows) ≡ keep p rows
  keep-delete_row [] = refl
  keep-delete_row (d ∷ ds) = ground (arith, keep-delete_row ds, spared d)

  keep-claim_row : (pid : ℕ) (rows : List Delivery) → keep p (claim_row i.id pid rows) ≡ keep p rows
  keep-claim_row pid [] = refl
  keep-claim_row pid (d ∷ ds) = elim (Bool-cases (is_queued i.id d)) [
    | inl q ↦
        rw
          (
            q,
            spared d (ground (arith, q)),
            spared (record d { packet_id = some pid; state = 1 }) (ground (arith, q)),
          )
          (keep-claim_row pid ds)
    | inr q ↦ rw q (ap (λ r. if p d then d ∷ r else r) (keep-claim_row pid ds))
  ]

  -- The rows that the test keeps, and the client, are as before.
  abbrev pub Framed : Conn → Conn → Type 0
  Framed c c' = (keep p c'.rows ≡ keep p c.rows) × (c'.client ≡ c.client)

  return_inflight-Framed : (c c' : Conn) → Framed c c' → Framed c (return_inflight c')
  unfolding return_inflight
  return_inflight-Framed c c' f = by_window c'.window
    where
      by_window : (o : Option Window) → Framed c (return_to c' o)
      by_window none = f
      by_window (some w) = f

  send-Framed : (w : World) (pk : Publish) (c c' : Conn) → Framed c c' → Framed c (send w i pk c').0
  send-Framed w pk c c' f =
      if_both (λ (x : Conn × Sending). Framed c x.0) w.write_fails
        (λ _. if_both (Framed c) (ltb 0 i.qos) (λ _. return_inflight-Framed c c' f) λ _. f) λ _. f

  drop_row-Framed : (w : World) (c c' : Conn) → Framed c c' → Framed c (drop_row w i c')
  drop_row-Framed w c c' (r, k) =
      if_both (Framed c) w.delete_fails (λ _. (r, k)) λ _. (keep-delete_row c'.rows ∙ r, k)

  allocated-Framed :
      (w : World) (pk : Publish) (c c' : Conn) (r : PacketId.Result ℕ)
      → Framed c c'
      → Framed c (allocated w i pk c' r).0
  allocated-Framed w pk c c' (PacketId.err e) f = return_inflight-Framed c c' f
  allocated-Framed w pk c c' (PacketId.ok pid) f =
      if_both (λ (x : Conn × Sending). Framed c x.0) w.update_fails
        (λ _. return_inflight-Framed c c' f)
        λ _.
          if_both (λ (x : Conn × Sending). Framed c x.0) (any (is_queued i.id) c'.rows)
            (λ _.
              send-Framed w (record pk { packet_id = pid }) c
                (record c' { rows = claim_row i.id pid c'.rows })
                (keep-claim_row pid c'.rows ∙ f.0, f.1))
            λ _. return_inflight-Framed c c' f

  number-Framed :
      (w : World) (pk : Publish) (c c' : Conn) (o : Option ℕ)
      → Framed c c'
      → Framed c (number w i pk c' o).0
  number-Framed w pk c c' (some n) f = send-Framed w _ c c' f
  number-Framed w pk c c' none f = allocated-Framed w pk c _ _ f

  number_or_claim-Framed :
      (w : World) (pk : Publish) (c c' : Conn)
      → Framed c c'
      → Framed c (number_or_claim w i pk c').0
  number_or_claim-Framed w pk c c' f =
      if_both (λ (x : Conn × Sending). Framed c x.0) (i.qos == 0)
        (λ _.
          if_both (λ (x : Conn × Sending). Framed c x.0) w.delete_fails (λ _. f)
            λ _.
              if_both (λ (x : Conn × Sending). Framed c x.0) (any (λ d. d.id == i.id) c'.rows)
                (λ _.
                  send-Framed w pk c (record c' { rows = delete_row i.id c'.rows })
                    (keep-delete_row c'.rows ∙ f.0, f.1))
                λ _. f)
        λ _. number-Framed w pk c c' (known_id i) f

  try_acquire_inflight-Framed : (c c' : Conn) → Framed c c' → Framed c (try_acquire_inflight c').0
  unfolding try_acquire_inflight
  try_acquire_inflight-Framed c c' f =
      if_both (λ (x : Conn × Bool). Framed c x.0) (not (c'.protocol == mqtt5)) (λ _. f)
        λ _. by_window c'.window
    where
      by_window : (o : Option Window) → Framed c (acquire_from c' o).0
      by_window none = f
      by_window (some w) =
          if_both (λ (x : Conn × Bool). Framed c x.0) (ltb w.used w.capacity) (λ _. f) λ _. f

  take_slot-Framed :
      (w : World) (pk : Publish) (c c' : Conn) → Framed c c' → Framed c (take_slot w i pk c').0
  take_slot-Framed w pk c c' f =
      if_both (λ (x : Conn × Sending). Framed c x.0) (ltb 0 i.qos && i.state == 0)
        (λ _. slotted (try_acquire_inflight c') (try_acquire_inflight-Framed c c' f))
        λ _. number_or_claim-Framed w pk c c' f
    where
      slotted : (x : Conn × Bool) → Framed c x.0 → Framed c (with_slot w i pk x).0
      slotted (d, true) g = number_or_claim-Framed w pk c d g
      slotted (d, false) g = g

  prepare-Framed :
      (w : World) (c : Conn) (x : Aliases × Option ℕ × Bytes) → Framed c (prepare w i c x).0
  prepare-Framed w c (a, alias, topic) =
      if_both (λ (x : Conn × Sending). Framed c x.0) (oversized w c (packet_of w i c alias topic))
        (λ _. drop_row-Framed w c (record c { aliases = a }) (refl, refl))
        λ _.
          take_slot-Framed w (packet_of w i c alias topic) c (record c { aliases = a }) (refl, refl)

  pub deliver_one-Framed : (w : World) (c : Conn) → Framed c (deliver_one w i c).0
  unfolding deliver_one
  deliver_one-Framed w c =
      if_both (λ (x : Conn × Sending). Framed c x.0) (not w.online) (λ _. (refl, refl))
        λ _.
          if_both (λ (x : Conn × Sending). Framed c x.0) (expired w.now i.expires_at)
            (λ _. drop_row-Framed w c c (refl, refl)) λ _. prepare-Framed w c (name_topic c i.topic)
