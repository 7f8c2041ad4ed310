-- ===== src/Samples/Subscribe.antt =====
-- The theorems on subscriptions at concrete inputs.
use pgmqtt.Prelude.{
  Bool, map, ℕ, List, ◌++◌, arith, inr, ◌≡◌, refl, true, false, none, some, [], ◌∷◌, Bytes, codes,
}
use pgmqtt.Engine.Db.{Retained}
use pgmqtt.Engine.PacketId.{fresh, retry, alloc_packet_id}
use pgmqtt.Wire.Topic.Matching.{topic_match}
use pgmqtt.Engine.Outbound.{World, Publish, publish}
use pgmqtt.Engine.Subscribe.{
  Asked, Subscribe, Subscribed, unsuback, query_failed, unwritten, done, Dispatch, SubscribeFaults,
  Table, handle_unsubscribe,
}
use pgmqtt.Engine.Subscribe.Stored.{HasId, Stored}
use pgmqtt.Engine.Subscribe.Removed.{Codes, Removes, handle_unsubscribe_lem}
use pgmqtt.Engine.Subscribe.Retained.{Station, Passage, replayed, send_retained, dispatch_retained}
use pgmqtt.Engine.Subscribe.Replayed.{blank, wanted, replays_of, dispatch_retained-replays}

abbrev lamp : Bytes
lamp = codes "lamp"

abbrev hall : Asked
hall = record {
  filter = codes "hall/+";
  qos = 1;
  no_local = false;
  retain_as_published = false;
  retain_handling = 0;
}

abbrev works : SubscribeFaults
works = record { begin = false; statement = false; write = false }

abbrev empty : Table
empty = record { subs = []; written = [] }

abbrev asking : Subscribe
asking = record { packet_id = 7; ids = 3 ∷ []; filters = hall ∷ [] }

id_test : HasId 5 asking.ids 3
id_test = inr (inr (refl, refl, omega arith, omega arith))

abbrev subscribed : Table
subscribed = record {
  subs =
      record {
        client = lamp;
        filter = codes "hall/+";
        qos = 1;
        no_local = false;
        retain_as_published = false;
        retain_handling = 0;
        subscription_id = some 3;
      }
      ∷ [];
  written = [];
}

abbrev unsubscribed : Table × Subscribed
unsubscribed = handle_unsubscribe lamp works 8 (codes "hall/+" ∷ []) subscribed

unsubscribe_example :
    (works.begin ≡ true → unsubscribed ≡ (subscribed, query_failed))
    × (works.statement ≡ true → unsubscribed ≡ (subscribed, query_failed))
    × (works.begin ≡ false
        → works.statement ≡ false
        → (cs : List ℕ) × Codes lamp subscribed.subs [] (codes "hall/+" ∷ []) cs
          × Removes lamp (codes "hall/+" ∷ []) subscribed.subs unsubscribed.0.subs
          × (works.write ≡ true
              → (unsubscribed.0.written ≡ subscribed.written) × (unsubscribed.1 ≡ unwritten))
          × (works.write ≡ false
              → (unsubscribed.0.written ≡ subscribed.written ++ unsuback 8 cs ∷ [])
                × (unsubscribed.1 ≡ done [])))
unsubscribe_example = handle_unsubscribe_lem lamp works 8 (codes "hall/+" ∷ []) subscribed

abbrev light : Retained
light = record {
  topic = codes "hall/1";
  payload = codes "on";
  qos = 1;
  properties = none;
  expires_at = none;
}

abbrev fine : World
fine = record {
  online = true;
  now = 0;
  later = 0;
  size = λ p. none;
  seed_fails = false;
  probe_fails = λ t. false;
  delete_fails = false;
  update_fails = false;
  write_fails = false;
}

abbrev passage : Passage
passage = record { persist_fails = false; world = fine }

abbrev dispatching : Dispatch
dispatching = record { filter = codes "hall/+"; qos = 1; subscription_id = 3 }

-- The only slot is taken.
abbrev station : Station
station = record {
  conn = record {
    protocol = 5;
    client = lamp;
    window = some (record { capacity = 1; used = 1 });
    kick = false;
    aliases = record { maximum = 0; next = 0; table = [] };
    max_packet = 0;
    allocator = fresh;
    rows =
        record { id = 1; client = lamp; message = 1; qos = 1; state = 1; packet_id = some 1 } ∷ [];
    messages = [];
    subscriptions = [];
    wire = [];
  };
  next_message = 2;
  next_delivery = 2;
}

went : (send_retained passage dispatching light station).1 ≡ replayed
unfolding send_retained alloc_packet_id retry
went = refl

all_went : (dispatch_retained false 0 (λ t. passage) dispatching (light ∷ []) station).1 ≡ true
unfolding dispatch_retained topic_match send_retained alloc_packet_id retry
all_went = refl

abbrev replayed_to : Station × Bool
replayed_to = dispatch_retained false 0 (λ t. passage) dispatching (light ∷ []) station

replay_example :
    (false ≡ true → replayed_to ≡ (station, false))
    × (replayed_to.1 ≡ true
        → (qs : List Publish) × (replayed_to.0.conn.wire ≡ station.conn.wire ++ map publish qs)
          × (map blank qs
              ≡ replays_of (λ t. passage) 5 dispatching (wanted 0 dispatching.filter (light ∷ []))))
replay_example = dispatch_retained-replays false 0 (λ t. passage) dispatching (light ∷ []) station
