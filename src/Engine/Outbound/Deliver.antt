-- ===== src/Engine/Outbound/Deliver.antt =====
-- `deliverOneTracked` of internal/engine/deliver.go.
use pgmqtt.Prelude.{
  ℕ, ◌-◌, ◌%◌, ◌/◌, Bool, false, not, ◌&&◌, Option, none, some, [], ◌∷◌, ◌++◌, Bytes, any, ltb, leb,
  ◌==◌, if◌then◌else◌,
}
use pgmqtt.Engine.PacketId.{Allocator, Seed, Probe, alloc_packet_id}
use pgmqtt.Engine.PacketId as PacketId
use pgmqtt.Engine.Inbound.{mqtt5}
use pgmqtt.Engine.Outbound.{
  Aliases, Publish, Conn, Item, World, Sending, resolve_alias, try_acquire_inflight,
  return_inflight, seed_of, probe_of, delete_row, is_queued, claim_row, drop_row, sent, unsent,
  alloc_failed, update_failed, write_failed, publish,
}

abbrev pub expired : ℕ → Option ℕ → Bool
expired now none = false
expired now (some t) = leb t now

-- The whole seconds that are left, and 1 if that is less.
abbrev pub remaining : ℕ → ℕ → ℕ
remaining now t = if ltb (t - now) 1000000 then 1 else (t - now) / 1000000 % 4294967296

abbrev pub expiry_of : World → Conn → Option ℕ → Option ℕ
expiry_of w c none = none
expiry_of w c (some t) = if c.protocol == mqtt5 then some (remaining w.later t) else none

-- The aliases afterwards, the alias to send, and the topic name to send with it.
abbrev pub aliased : Bytes → Aliases × ℕ × Bool → Aliases × Option ℕ × Bytes
aliased topic (a, alias, fresh) =
    if ltb 0 alias then (a, some alias, if fresh then topic else []) else (a, none, topic)

abbrev pub name_topic : Conn → Bytes → Aliases × Option ℕ × Bytes
name_topic c topic =
    if c.protocol == mqtt5 && ltb 0 c.aliases.maximum
    then aliased topic (resolve_alias topic c.aliases)
    else (c.aliases, none, topic)

abbrev pub packet_of : World → Item → Conn → Option ℕ → Bytes → Publish
packet_of w i c alias topic = record {
  topic = topic;
  payload = i.payload;
  qos = i.qos;
  dup = i.dup;
  retain = i.retain;
  properties = i.properties;
  expiry = expiry_of w c i.expires_at;
  subscription_ids = if c.protocol == mqtt5 then i.subscription_ids else [];
  alias = alias;
  packet_id = 0;
}

abbrev pub exceeds_size : ℕ → Option ℕ → Bool
exceeds_size limit none = false
exceeds_size limit (some n) = ltb limit n

abbrev pub oversized : World → Conn → Publish → Bool
oversized w c pk = ltb 0 c.max_packet && exceeds_size c.max_packet (w.size pk)

-- The write; a slot is given back if it fails.
abbrev pub send : World → Item → Publish → Conn → Conn × Sending
send w i pk c =
    if w.write_fails
    then (if ltb 0 i.qos then return_inflight c else c, write_failed)
    else (record c { wire = c.wire ++ publish pk ∷ [] }, sent)

abbrev pub allocated : World → Item → Publish → Conn → PacketId.Result ℕ → Conn × Sending
allocated w i pk c (PacketId.err e) = (return_inflight c, alloc_failed)
allocated w i pk c (PacketId.ok pid) =
    if w.update_fails
    then (return_inflight c, update_failed)
    else if any (is_queued i.id) c.rows
    then send w i (record pk { packet_id = pid }) (record c { rows = claim_row i.id pid c.rows })
    else (return_inflight c, unsent)

abbrev pub known_id : Item → Option ℕ
known_id i = if leb 1 i.state then i.packet_id else none

abbrev pub number : World → Item → Publish → Conn → Option ℕ → Conn × Sending
number w i pk c (some p) = send w i (record pk { packet_id = p % 65536 }) c
number w i pk c none =
    let (a, r) = alloc_packet_id (seed_of w c) (probe_of w c) c.allocator in
    allocated w i pk (record c { allocator = a }) r

-- QoS 0: only the caller whose DELETE returned the row writes.
abbrev pub claim_unacknowledged : World → Item → Publish → Conn → Conn × Sending
claim_unacknowledged w i pk c =
    if w.delete_fails
    then (c, unsent)
    else if any (λ d. d.id == i.id) c.rows
    then send w i pk (record c { rows = delete_row i.id c.rows })
    else (c, unsent)

abbrev pub number_or_claim : World → Item → Publish → Conn → Conn × Sending
number_or_claim w i pk c =
    if i.qos == 0 then claim_unacknowledged w i pk c else number w i pk c (known_id i)

abbrev pub with_slot : World → Item → Publish → Conn × Bool → Conn × Sending
with_slot w i pk (c, acquired) = if acquired then number_or_claim w i pk c else (c, unsent)

abbrev pub take_slot : World → Item → Publish → Conn → Conn × Sending
take_slot w i pk c =
    if ltb 0 i.qos && i.state == 0
    then with_slot w i pk (try_acquire_inflight c)
    else number_or_claim w i pk c

abbrev pub prepare : World → Item → Conn → Aliases × Option ℕ × Bytes → Conn × Sending
prepare w i c (a, alias, topic) =
    let c' = record c { aliases = a } in
    let pk = packet_of w i c alias topic in
    if oversized w c pk then (drop_row w i c', unsent) else take_slot w i pk c'

-- deliverOneTracked
unfoldable pub deliver_one : World → Item → Conn → Conn × Sending
deliver_one w i c =
    if not w.online
    then (c, unsent)
    else if expired w.now i.expires_at
    then (drop_row w i c, unsent)
    else prepare w i c (name_topic c i.topic)
