-- ===== src/Samples/Outbound.antt =====
-- The theorems on outbound delivery at concrete inputs.
use pgmqtt.Prelude.{ℕ, ◌≢◌, refl, true, false, none, some, [], ◌∷◌, arith, Bytes, codes}
use pgmqtt.Engine.Db.{Message, Delivery}
use pgmqtt.Engine.PacketId.{fresh}
use pgmqtt.Engine.Outbound.{Aliases, Conn, Item, World}
use pgmqtt.Engine.Outbound.Deliver.{deliver_one}
use pgmqtt.Engine.Outbound.Acks.{AckFaults, complete}
use pgmqtt.Engine.Outbound.Slots.{deliver_one-Holds}
use pgmqtt.Engine.Outbound.Held.{IsTable, Holds}
use pgmqtt.Engine.Outbound.Release.{complete-Holds}
use pgmqtt.Engine.Outbound.Drain.{Weather, stuck, drain}
use pgmqtt.Engine.Outbound.Ending.{drain_ends}
use pgmqtt.Engine.Outbound.Alias.{IsAliases}
use pgmqtt.Engine.Outbound.Untold.{IsFull}

abbrev lamp : Bytes
lamp = codes "lamp"

abbrev hall : Bytes
hall = codes "hall"

-- One delivery is in flight, one waits.
abbrev flying : Delivery
flying = record { id = 1; client = lamp; message = 1; qos = 2; state = 1; packet_id = some 1 }

abbrev waiting : Delivery
waiting = record { id = 2; client = lamp; message = 1; qos = 1; state = 0; packet_id = none }

abbrev greeting : Message
greeting = record {
  id = 1;
  topic = hall;
  payload = codes "on";
  qos = 2;
  retain = false;
  properties = none;
  publisher = none;
  expires_at = none;
}

abbrev no_aliases : Aliases
no_aliases = record { maximum = 4; next = 0; table = [] }

abbrev conn : ℕ → Conn
conn capacity = record {
  protocol = 5;
  client = lamp;
  window = some (record { capacity = capacity; used = 1 });
  kick = false;
  aliases = no_aliases;
  max_packet = 0;
  allocator = fresh;
  rows = flying ∷ waiting ∷ [];
  messages = greeting ∷ [];
  subscriptions = [];
  wire = [];
}

abbrev item : Item
item = record {
  id = 2;
  qos = 1;
  state = 0;
  packet_id = none;
  topic = hall;
  payload = codes "on";
  properties = none;
  expires_at = none;
  subscription_ids = [];
  retain = false;
  dup = false;
}

abbrev fine : World
fine = record {
  online = true;
  now = 0;
  later = 0;
  size = λ p. none;
  seed_fails = false;
  probe_fails = λ t. false;
  delete_fails = false;
  update_fails = false;
  write_fails = false;
}

abbrev no_faults : AckFaults
no_faults = record { statement = false; write = false }

two_rows-IsTable : IsTable lamp (flying ∷ waiting ∷ [])
two_rows-IsTable = record {
  packet_ids = λ p. ground arith;
  row_ids = λ k. ground arith;
  numbers = refl;
}

conn-Holds : Holds 0 (conn 2)
conn-Holds = record {
  version = refl;
  slots = record { capacity = 2; used = 1 };
  channel = refl;
  held = refl;
  within = omega arith;
  table = two_rows-IsTable;
}

deliver_example : Holds 0 (deliver_one fine item (conn 2)).0
deliver_example = deliver_one-Holds fine item (conn 2) refl refl (omega arith) refl conn-Holds

complete_example : Holds 0 (complete 1 9 no_faults (conn 2)).0
complete_example = complete-Holds 1 9 no_faults (conn 2) conn-Holds

abbrev calm : ℕ → Weather
calm n = record { closing = false; scan_fails = false; world = fine }

drain_example : (drain 2 calm (conn 2)).1 ≢ stuck
drain_example = drain_ends 2 calm (conn 2) (omega arith)

no_aliases-IsAliases : IsAliases no_aliases
no_aliases-IsAliases = record {
  small = omega arith;
  next = omega arith;
  listed = tt;
  distinct = tt;
}

full-IsFull : IsFull fine item (conn 1)
full-IsFull = record {
  version = refl;
  slots = record { capacity = 1; used = 1 };
  channel = refl;
  full = omega arith;
  unlimited = refl;
  room = omega arith;
  maximum = omega arith;
  unknown = refl;
}
