-- ===== src/Samples/Engine.antt =====
-- The theorems on packet ids and on the publish path of internal/engine at concrete inputs.
use pgmqtt.Prelude.{
  ℕ, ◌≤◌, ◌≡◌, ◌≢◌, ◌↔◌, refl, Bool, true, false, Option, none, some, List, [], ◌∷◌, arith, Bytes,
  codes, any, ◌==◌,
}
use pgmqtt.Engine.PacketId.{
  Allocator, fresh, alloc_packet_id, ensure_seeded, max_retries, ok, err, no_packet_id,
}
use pgmqtt.Engine.PacketId.Alloc.{Free, AllTaken, alloc_packet_id_lem}
use pgmqtt.Engine.Db.{Subscription, Db, has_inbound}
use pgmqtt.Wire.Topic.Matching.{topic_match}
use pgmqtt.Engine.Publish.{
  broker_ids, Env, Request, Stage, Published, begin, qos2_dedup, fails_at, failed, duplicate,
  retain, matches, mqtt_publish, publish_core, done,
}
use pgmqtt.Engine.Publish.Fanout.{stored, mqtt_publish-cap_bound}
use pgmqtt.Engine.Publish.Transaction.{IsUnclaimed, Reaches, Commits, publish_core_transaction}
use pgmqtt.Engine.Publish.Atomic.{publish_core_once}

abbrev wrapped : Allocator
wrapped = record { seeded = true; counter = 4294967294 }

-- Ids 1 and 2 are taken.
abbrev two_taken : ℕ → ℕ → Option Bool
two_taken t pid = some (any (λ x. x == pid) (1 ∷ 2 ∷ []))

alloc_example :
    ((pid : ℕ)
      → (alloc_packet_id (some none) two_taken fresh).1 ≡ ok pid
      → (1 ≤ pid)
        × (pid ≤ 65535)
        × Free max_retries two_taken (ensure_seeded fresh (some none)).0 pid)
    × (((alloc_packet_id (some none) two_taken fresh).1 ≡ err no_packet_id) ↔ (
        ((ensure_seeded fresh (some none)).1 ≡ true)
        × AllTaken max_retries two_taken (ensure_seeded fresh (some none)).0))
alloc_example = alloc_packet_id_lem (some none) two_taken fresh

abbrev in_flight : List ℕ
in_flight = 1 ∷ 2 ∷ []

-- A lamp that is subscribed twice, and a phone that publishes.
abbrev lamp : Bytes
lamp = codes "lamp"

abbrev phone : Bytes
phone = codes "phone"

abbrev hall : Bytes
hall = codes "hall/light"

abbrev subscribed : Bytes → ℕ → Subscription
subscribed filter q = record {
  client = lamp;
  filter = filter;
  qos = q;
  no_local = false;
  retain_as_published = false;
  retain_handling = 0;
  subscription_id = none;
}

abbrev house : Db
house = record {
  sessions =
      record {
        client = lamp;
        broker = some 1;
        connected = true;
        token = 7;
        protocol = 5;
        clean_start = false;
        expiry_interval = none;
        will = none;
        will_delay = none;
        will_fire_at = none;
        expires_at = none;
      }
      ∷ [];
  subscriptions = subscribed hall 1 ∷ subscribed (codes "hall/#") 2 ∷ [];
  messages = [];
  deliveries = [];
  inbound_qos2 = [];
  retained = [];
  next_message = 10;
  next_delivery = 20;
}

abbrev clock : Env
clock = record { now = 100; expiry_of = λ p. 0; max_queued = 5 }

abbrev switch_on : Request
switch_on = record {
  topic = hall;
  payload = codes "on";
  qos = 2;
  retain = true;
  properties = none;
  publisher = phone;
  dedup_key = some (phone, 4);
}

cap_example : stored lamp (mqtt_publish clock switch_on house).0.deliveries ≤ 5
cap_example =
    mqtt_publish-cap_bound clock switch_on house lamp (omega arith) (omega arith) tt (omega arith)

transaction_example :
    ((s : Stage)
      → none ≡ some s
      → Reaches clock switch_on house s
      → publish_core clock none switch_on house ≡ (house, failed s))
    × (¬ IsUnclaimed clock switch_on house switch_on.dedup_key
        → fails_at begin none ≡ false
        → fails_at qos2_dedup none ≡ false
        → publish_core clock none switch_on house ≡ (house, duplicate))
    × (IsUnclaimed clock switch_on house switch_on.dedup_key
        → ((s : Stage) → fails_at s none ≡ true → ¬ Reaches clock switch_on house s)
        → (res : Published) × ((publish_core clock none switch_on house).1 ≡ done res)
          × Commits clock switch_on house (publish_core clock none switch_on house).0 res)
transaction_example = publish_core_transaction clock switch_on house none

unclaimed_test : has_inbound phone 4 house ≡ false
unclaimed_test = refl

once_example :
    (has_inbound phone 4 (publish_core clock none switch_on house).0 ≡ true)
    × ((db'' : Db)
        → has_inbound phone 4 db'' ≡ true
        → ((publish_core clock (some retain) switch_on db'').0 ≡ db'')
          × ((r : _) → (publish_core clock (some retain) switch_on db'').1 ≢ done r))
unfolding publish_core mqtt_publish broker_ids matches topic_match
once_example =
    publish_core_once clock clock none (some retain) switch_on switch_on house
      (publish_core clock none switch_on house).0 phone 4 _ refl refl refl
