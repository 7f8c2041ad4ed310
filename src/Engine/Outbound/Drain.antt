-- ===== src/Engine/Outbound/Drain.antt =====
-- The drain loop of internal/engine/conn.go (`runDrainLoop`, `drainOnce`) and the queue of a resumed session,
-- `drainSessionQueue` of internal/engine/deliver.go.
use pgmqtt.Prelude.{
  ℕ, zero, suc, ◌%◌, Bool, true, false, ◌&&◌, Option, none, some, List, [], ◌∷◌, ◌++◌, Bytes, same,
  keep, any, ltb, leb, ◌==◌, if◌then◌else◌,
}
use pgmqtt.Wire.Topic.Matching.{topic_match}
use pgmqtt.Engine.Db.{Message, Subscription, Delivery}
use pgmqtt.Engine.Outbound.{
  Conn, Item, World, pubrel, Sending, sent, unsent, alloc_failed, update_failed, write_failed,
}
use pgmqtt.Engine.Outbound.Deliver.{expired, deliver_one}

abbrev pub find_message : ℕ → List Message → Option Message
find_message id [] = none
find_message id (m ∷ ms) = if m.id == id then some m else find_message id ms

-- The subscriptions of the client that the topic matches.
abbrev pub matching : Conn → Bytes → List Subscription
matching c topic = keep (λ s. same s.client c.client && topic_match s.filter topic) c.subscriptions

abbrev pub insert : ℕ → List ℕ → List ℕ
insert n [] = n ∷ []
insert n (m ∷ ms) = if leb n m then n ∷ m ∷ ms else m ∷ insert n ms

abbrev pub add_id : Option ℕ → List ℕ → List ℕ
add_id none ids = ids
add_id (some n) ids = insert n ids

-- array_agg(subscription_id ORDER BY subscription_id) FILTER (WHERE subscription_id IS NOT NULL)
abbrev pub ids_of : List Subscription → List ℕ
ids_of [] = []
ids_of (s ∷ ss) = add_id s.subscription_id (ids_of ss)

-- The row of the query, with the DUP flag that the caller sets.
abbrev pub item_of : Conn → Delivery → Message → Item
item_of c d m = record {
  id = d.id;
  qos = d.qos;
  state = d.state;
  packet_id = d.packet_id;
  topic = m.topic;
  payload = m.payload;
  properties = m.properties;
  expires_at = m.expires_at;
  subscription_ids = ids_of (matching c m.topic);
  retain = m.retain && any (λ s. s.retain_as_published) (matching c m.topic);
  dup = d.state == 1;
}

abbrev pub unexpired : ℕ → Conn → Delivery → Option Message → Option Item
unexpired now c d none = none
unexpired now c d (some m) = if expired now m.expires_at then none else some (item_of c d m)

abbrev pub waits : Bytes → Delivery → Bool
waits client d = same d.client client && d.state == 0 && ltb 0 d.qos

abbrev pub or_next : Option Item → Option Item → Option Item
or_next none o = o
or_next (some i) o = some i

-- SELECT … WHERE d.state = 0 AND d.qos > 0 … ORDER BY d.id LIMIT 1, where the rows are in the order of their ids
unfoldable pub next_queued : ℕ → Conn → List Delivery → Option Item
next_queued now c [] = none
next_queued now c (d ∷ ds) =
    let rest = next_queued now c ds in
    if waits c.client d
    then or_next (unexpired now c d (find_message d.message c.messages)) rest
    else rest

pub data Turn : Type 0 where
  more done failed : Turn

abbrev pub turn_of : Sending → Turn
turn_of sent = more
turn_of unsent = done
turn_of alloc_failed = failed
turn_of update_failed = failed
turn_of write_failed = failed

abbrev pub drain_item : World → Conn → Option Item → Conn × Turn
drain_item w c none = (c, done)
drain_item w c (some i) = let (c', s) = deliver_one w i c in (c', turn_of s)

-- drainOnce; a scan that fails is an error
unfoldable pub drain_once : Bool → World → Conn → Conn × Turn
drain_once scan_fails w c =
    if scan_fails then (c, failed) else drain_item w c (next_queued w.now c c.rows)

-- What a turn of the loop meets: whether the connection is closing, whether the scan fails, and the world.
pub record Weather : Type 0 where
  pub closing : Bool
  pub scan_fails : Bool
  pub world : World

-- How the inner loop ends, after one kick: `stuck` if the fuel is spent.
pub data End : Type 0 where
  closed finished broken stuck : End

-- After a turn, with what the further turns would do.
abbrev pub after_turn : Conn × Turn → Conn × End → Conn × End
after_turn (c, more) rest = rest
after_turn (c, done) rest = (c, finished)
after_turn (c, failed) rest = (c, broken)

-- The loop, on fuel; what the world is like at a turn is a function of the turns that are left.
unfoldable pub drain : ℕ → (ℕ → Weather) → Conn → Conn × End
drain zero at c = (c, stuck)
drain (suc n) at c =
    let next = drain_once (at n).scan_fails (at n).world c in
    let rest = drain n at next.0 in if (at n).closing then (c, closed) else after_turn next rest

-- drainSessionQueue: one item after the other, until an error.
abbrev pub release_item : Bool → Option ℕ → Conn → Conn × Sending
release_item write_fails none c = (c, unsent)
release_item write_fails (some p) c =
    if write_fails
    then (c, write_failed)
    else (record c { wire = c.wire ++ pubrel (p % 65536) ∷ [] }, sent)

abbrev pub resume_item : World → Item → Conn → Conn × Sending
resume_item w i c =
    if i.state == 2 then release_item w.write_fails i.packet_id c else deliver_one w i c

abbrev pub goes_on : Sending → Bool
goes_on sent = true
goes_on unsent = true
goes_on alloc_failed = false
goes_on update_failed = false
goes_on write_failed = false

unfoldable pub resume_items : (ℕ → World) → List Item → Conn → Conn × Bool
resume_items at [] c = (c, true)
resume_items at (i ∷ is) c =
    let (c', s) = resume_item (at i.id) i c in
    let rest = resume_items at is c' in if goes_on s then rest else (c', false)

abbrev pub add_item : Option Item → List Item → List Item
add_item none is = is
add_item (some i) is = i ∷ is

unfoldable pub pending_items : ℕ → Conn → List Delivery → List Item
pending_items now c [] = []
pending_items now c (d ∷ ds) =
    let rest = pending_items now c ds in
    if same d.client c.client && leb d.state 2
    then add_item (unexpired now c d (find_message d.message c.messages)) rest
    else rest

unfoldable pub drain_session_queue : Bool → ℕ → (ℕ → World) → Conn → Conn × Bool
unfolding pending_items resume_items
drain_session_queue query_fails now at c =
    if query_fails then (c, false) else resume_items at (pending_items now c c.rows) c
