-- ===== src/Engine/Subscribe/Replayed.antt =====
-- What a subscription replays of the retained messages.
use pgmqtt.Wire.Topic.Matching.{topic_match}
use pgmqtt.Prelude.{
  zero, suc, false, not, ◌&&◌, ◌-◌, ◌/◌, ◌%◌, min, arith, ℕ, ◌≡◌, refl, sym, ap, ◌∙◌, Bool, true,
  Option, none, some, List, [], ◌∷◌, ◌++◌, map, Bytes, any, keep, ltb, ◌==◌, if◌then◌else◌, if_both,
  append_assoc, append-nil,
}
use pgmqtt.Engine.Db.{Retained}
use pgmqtt.Engine.PacketId as PacketId
use pgmqtt.Engine.PacketId.{Allocator}
use pgmqtt.Engine.Outbound.{Conn, World, Publish, publish}
use pgmqtt.Engine.Outbound.Deliver.{expired, expiry_of, remaining}
use pgmqtt.Engine.Inbound.{mqtt5}
use pgmqtt.Engine.Subscribe.{Dispatch, null_int}
use pgmqtt.Engine.Subscribe.Retained.{
  Station, Passage, Sent, replayed, persist_failed, alloc_failed, number_failed, row_missing,
  write_failed, ids_of_dispatch, is_due, effective_qos, retained_packet, persist, waits_for,
  numbering, send_retained, is_replayed, send_all, dispatch_retained,
}

-- A packet without its packet id.
abbrev pub blank : Publish → Publish
blank q = record q { packet_id = 0 }

-- One packet has been written, this one but for its packet id.
abbrev Writes : Publish → Station → Station × Sent → Type 0
Writes pk st (st', s) =
    s ≡ replayed
    → (st'.conn.protocol ≡ st.conn.protocol)
      × ((q : Publish) × (st'.conn.wire ≡ st.conn.wire ++ publish q ∷ []) × (blank q ≡ blank pk))

module _ (p : Passage) (d : Dispatch) (r : Retained) (st : Station) (pk : Publish) where
  numbering-Writes :
      (a : Allocator) (x : PacketId.Result ℕ)
      → Writes pk st (
          numbering p.world st.next_message pk
            (record (persist d r st) { conn = record (persist d r st).conn { allocator = a } })
            x)
  numbering-Writes a (PacketId.err e) = λ h. cc h
  numbering-Writes a (PacketId.ok pid) =
      if_both (Writes pk st) p.world.update_fails (λ _ h. cc h)
        λ _.
          if_both (Writes pk st)
            (any (waits_for st.conn.client st.next_message) (persist d r st).conn.rows)
            (λ _.
              if_both (Writes pk st) p.world.write_fails (λ _ h. cc h)
                λ _ _. (refl, (record pk { packet_id = pid }, refl, refl)))
            λ _ h. cc h

send_retained-Writes :
    (p : Passage) (d : Dispatch) (r : Retained) (st : Station)
    → Writes (retained_packet p.world d r st.conn) st (send_retained p d r st)
unfolding send_retained
send_retained-Writes p d r st =
    let pk = retained_packet p.world d r st.conn in
    if_both (Writes pk st) (ltb 0 (effective_qos d r))
      (λ _.
        if_both (Writes pk st) p.persist_fails (λ _ h. cc h) λ _. numbering-Writes p d r st pk _ _)
      λ _. if_both (Writes pk st) p.world.write_fails (λ _ h. cc h) λ _ _. (refl, (pk, refl, refl))

same_expiry :
    (w : World) (c c' : Conn)
    → c'.protocol ≡ c.protocol
    → (o : Option ℕ) → expiry_of w c' o ≡ expiry_of w c o
same_expiry w c c' h none = refl
same_expiry w c c' h (some t) = ap (λ v. if v == mqtt5 then some (remaining w.later t) else none) h

-- The packet depends on the connection by its version alone.
same_packet :
    (w : World) (d : Dispatch) (r : Retained) (c c' : Conn)
    → c'.protocol ≡ c.protocol
    → retained_packet w d r c' ≡ retained_packet w d r c
same_packet w d r c c' h = λ i. record (retained_packet w d r c) {
  expiry = same_expiry w c c' h r.expires_at i;
  subscription_ids = if h i == mqtt5 then ids_of_dispatch (null_int d.subscription_id) else [];
}

replayed_inv : (s : Sent) → is_replayed s ≡ true → s ≡ replayed
replayed_inv replayed h = refl
replayed_inv persist_failed h = cc
replayed_inv alloc_failed h = cc
replayed_inv number_failed h = cc
replayed_inv row_missing h = cc
replayed_inv write_failed h = cc

-- The packets, but for their ids, of these rows.
abbrev pub expected : (Bytes → Passage) → Dispatch → Conn → List Retained → List Publish
expected at d c = map (λ r. retained_packet (at r.topic).world d r c)

same_expected :
    (at : Bytes → Passage) (d : Dispatch) (c c' : Conn)
    → c'.protocol ≡ c.protocol
    → (rs : List Retained) → expected at d c' rs ≡ expected at d c rs
same_expected at d c c' h [] = refl
same_expected at d c c' h (r ∷ rs) =
    ap (λ q. q ∷ expected at d c' rs) (same_packet (at r.topic).world d r c c' h)
    ∙ ap (λ qs. retained_packet (at r.topic).world d r c ∷ qs) (same_expected at d c c' h rs)

-- These packets and no more have been written, in order.
abbrev pub Replays : (Bytes → Passage) → Dispatch → List Retained → Station → Station → Type 0
Replays at d rs st st' =
    (qs : List Publish) × (st'.conn.wire ≡ st.conn.wire ++ map publish qs)
    × (map blank qs ≡ expected at d st.conn rs)

Replays-cons :
    (at : Bytes → Passage) (d : Dispatch) (r : Retained) (rs : List Retained) (st : Station)
    (x : Station × Sent) (st'' : Station)
    → Writes (retained_packet (at r.topic).world d r st.conn) st x
    → is_replayed x.1 ≡ true
    → Replays at d rs x.0 st''
    → Replays at d (r ∷ rs) st st''
Replays-cons at d r rs st (st', s) st'' w went (qs, wrote, same) =
    let (version, (q, one, e)) = w (replayed_inv s went) in
    (
      q ∷ qs,
      wrote
          ∙ ap (λ u. u ++ map publish qs) one
          ∙ append_assoc st.conn.wire (publish q ∷ []) (map publish qs),
      ap (λ b. b ∷ map blank qs) e
          ∙ ap (λ bs. retained_packet (at r.topic).world d r st.conn ∷ bs)
              (same ∙ same_expected at d st.conn st'.conn version rs),
    )

send_all-Replays :
    (at : Bytes → Passage) (d : Dispatch) (rs : List Retained) (st : Station)
    → (send_all at d rs st).1 ≡ true
    → Replays at d rs st (send_all at d rs st).0
unfolding send_all
send_all-Replays at d [] st h = ([], sym (append-nil st.conn.wire), refl)
send_all-Replays at d (r ∷ rs) st h =
    if_both (λ (x : Station × Bool). x.1 ≡ true → Replays at d (r ∷ rs) st x.0)
      (is_replayed (send_retained (at r.topic) d r st).1)
      (λ went k.
        Replays-cons at d r rs st (send_retained (at r.topic) d r st)
          (send_all at d rs (send_retained (at r.topic) d r st).0).0
          (send_retained-Writes (at r.topic) d r st) went
          (send_all-Replays at d rs (send_retained (at r.topic) d r st).0 k))
      (λ _ k. cc k) h

-- The rows that a filter gets: those whose topic it matches by the grammar of levels, and which have not expired.
abbrev pub lives : ℕ → Option ℕ → Bool
lives now none = true
lives now (some t) = ltb now t

abbrev pub wanted : ℕ → Bytes → List Retained → List Retained
wanted now filter [] = []
wanted now filter (r ∷ rs) =
    if topic_match filter r.topic && lives now r.expires_at
    then r ∷ wanted now filter rs
    else wanted now filter rs

-- The remaining time in seconds, for MQTT 5: at least 1, with the times in microseconds.
abbrev pub time_left : ℕ → ℕ → Option ℕ → Option ℕ
time_left protocol now none = none
time_left protocol now (some t) =
    if protocol == 5
    then some (if ltb (t - now) 1000000 then 1 else (t - now) / 1000000 % 4294967296)
    else none

abbrev pub identifiers : ℕ → ℕ → List ℕ
identifiers protocol zero = []
identifiers protocol (suc n) = if protocol == 5 then suc n ∷ [] else []

-- A PUBLISH for each row, written out.
abbrev pub replays_of : (Bytes → Passage) → ℕ → Dispatch → List Retained → List Publish
replays_of at protocol d [] = []
replays_of at protocol d (r ∷ rs) =
    record {
      topic = r.topic;
      payload = r.payload;
      qos = if ltb d.qos r.qos then d.qos else r.qos;
      dup = false;
      retain = true;
      properties = r.properties;
      expiry = time_left protocol (at r.topic).world.later r.expires_at;
      subscription_ids = identifiers protocol d.subscription_id;
      alias = none;
      packet_id = 0;
    }
    ∷ replays_of at protocol d rs

same_qos : (a b : ℕ) → min a b ≡ (if ltb b a then b else a)
same_qos a b = ground arith

same_time_left :
    (w : World) (c : Conn) (o : Option ℕ) → expiry_of w c o ≡ time_left c.protocol w.later o
same_time_left w c none = refl
same_time_left w c (some t) = refl

same_identifiers :
    (protocol n : ℕ)
    → (if protocol == mqtt5 then ids_of_dispatch (null_int n) else []) ≡ identifiers protocol n
same_identifiers protocol zero = ground arith
same_identifiers protocol (suc n) = ground arith

expected-replays_of :
    (at : Bytes → Passage) (d : Dispatch) (c : Conn) (rs : List Retained)
    → expected at d c rs ≡ replays_of at c.protocol d rs
expected-replays_of at d c [] = refl
expected-replays_of at d c (r ∷ rs) = λ i.
    record (retained_packet (at r.topic).world d r c) {
      qos = same_qos r.qos d.qos i;
      expiry = same_time_left (at r.topic).world c r.expires_at i;
      subscription_ids = same_identifiers c.protocol d.subscription_id i;
    }
    ∷ expected-replays_of at d c rs i

same_life : (now : ℕ) (o : Option ℕ) → not (expired now o) ≡ lives now o
same_life now none = refl
same_life now (some t) = ground arith

due-wanted :
    (now : ℕ) (filter : Bytes) (rs : List Retained)
    → keep (is_due now filter) rs ≡ wanted now filter rs
due-wanted now filter [] = refl
due-wanted now filter (r ∷ rs) =
    ground (arith, same_life now r.expires_at, due-wanted now filter rs)

-- A dispatch of retained messages whose query fails writes nothing and reports it. One that reports success has written one PUBLISH
-- for each retained message whose topic the filter matches and which has not expired, in order, and no other; each but for its packet
-- id is the message with retain set, the lesser of the two QoS, and, for MQTT 5 alone, the subscription's identifier
-- and the remaining time.
pub dispatch_retained-replays :
    (query_fails : Bool) (now : ℕ) (at : Bytes → Passage) (d : Dispatch) (table : List Retained)
    (st : Station)
    → (query_fails ≡ true → dispatch_retained query_fails now at d table st ≡ (st, false))
      × ((dispatch_retained query_fails now at d table st).1 ≡ true
          → (qs : List Publish) × ((dispatch_retained query_fails now at d table st).0.conn.wire
              ≡ st.conn.wire ++ map publish qs)
            × (map blank qs ≡ replays_of at st.conn.protocol d (wanted now d.filter table)))
unfolding dispatch_retained
dispatch_retained-replays query_fails now at d table st = (
  λ e. rw e refl,
  λ h.
      let (qs, wrote, same) = replayed_all h in
      (
        qs,
        wrote,
        same
            ∙ expected-replays_of at d st.conn (keep (is_due now d.filter) table)
            ∙ ap (replays_of at st.conn.protocol d) (due-wanted now d.filter table),
      ),
)
  where
    replayed_all :
        (dispatch_retained query_fails now at d table st).1 ≡ true
        → Replays at d
            (keep (is_due now d.filter) table)
            st
            (dispatch_retained query_fails now at d table st).0
    replayed_all =
        if_both
          (λ (x : Station × Bool).
            x.1 ≡ true → Replays at d (keep (is_due now d.filter) table) st x.0)
          query_fails (λ _ h. cc h) λ _. send_all-Replays at d (keep (is_due now d.filter) table) st
