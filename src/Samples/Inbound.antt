-- ===== src/Samples/Inbound.antt =====
-- The theorems on inbound flow control at concrete inputs.
use pgmqtt.Prelude.{ℕ, ◌+◌, ◌≡◌, refl, pos, false, none, some, List, [], ◌∷◌, arith, Bytes, codes}
use pgmqtt.Wire.Topic.{valid_utf8, validate_topic_name}
use pgmqtt.Engine.Db.{Db}
use pgmqtt.Engine.Publish.{Env}
use pgmqtt.Engine.Inbound.{
  no_code, err, receive_maximum_exceeded, Peer, Packet, Faults, PubrelFaults, State, handle_publish,
  handle_pubrel,
}
use pgmqtt.Engine.Inbound.Slots.{IsKey}
use pgmqtt.Engine.Inbound.Window.{Input, publish, pubrel, run, waits, Within, run-Within}
use pgmqtt.Engine.Inbound.Resume.{resumed_refuses}

abbrev phone : Bytes
phone = codes "phone"

abbrev peer : Peer
peer = record { protocol = 5; client = phone; receive_maximum = 2 }

abbrev tables : List (Bytes × ℕ) → Db
tables rows = record {
  sessions = [];
  subscriptions = [];
  messages = [];
  deliveries = [];
  inbound_qos2 = rows;
  retained = [];
  next_message = 1;
  next_delivery = 1;
}

abbrev clock : Env
clock = record { now = 100; expiry_of = λ p. 0; max_queued = 5 }

abbrev numbered : ℕ → Packet
numbered pid = record {
  topic = codes "hall";
  payload = [];
  qos = 2;
  dup = false;
  retain = false;
  packet_id = pid;
  subscription_ids = [];
  alias = none;
}

abbrev no_faults : Faults
no_faults = record {
  probe = false;
  statement = none;
  code = no_code;
  write = false;
  properties = some none;
}

abbrev works : PubrelFaults
works = record { delete = false; write = false }

abbrev first_connection : State
first_connection = record { inflight = pos 0; db = tables []; events = [] }

first-Within : Within peer first_connection
first-Within = record {
  balanced = record { balance = refl; key = λ q. omega arith };
  bound = omega arith;
}

abbrev two_packets : List Input
two_packets = publish clock (numbered 7) no_faults ∷ publish clock (numbered 8) no_faults ∷ []

run_example : Within peer (run peer two_packets first_connection)
run_example = run-Within peer two_packets first_connection refl (omega arith) first-Within

topic_valid : validate_topic_name (codes "hall") ≡ none
unfolding validate_topic_name valid_utf8
topic_valid = refl

-- Packets 1 and 2 wait when the client connects again, which then sends PUBREL for both.
abbrev again : State
again = record { inflight = pos 0; db = tables ((phone, 1) ∷ (phone, 2) ∷ []); events = [] }

abbrev releases : List Input
releases = pubrel 1 works ∷ pubrel 2 works ∷ []

again-IsKey : IsKey phone again.db
again-IsKey q = ground arith

none_wait : waits peer again ≡ waits peer (run peer releases again) + 2
unfolding run handle_pubrel
none_wait = refl

refused_example :
    (handle_publish clock peer (numbered 3) no_faults (run peer releases again)).1
    ≡ err receive_maximum_exceeded
refused_example =
    resumed_refuses peer releases again 0 clock (numbered 3) no_faults refl refl again-IsKey
      none_wait (omega arith) topic_valid refl
