-- ===== src/Engine/Subscribe/Stored.antt =====
-- What SUBSCRIBE leaves in the table, which is a finite map from client and filter to options, and what it answers.
use pgmqtt.Prelude.{
  ℕ, zero, suc, ◌≢◌, ◌≤◌, ◌≡◌, ◌⊎◌, true, false, ◌&&◌, Option, none, some, List, [], ◌∷◌, ◌++◌,
  Bytes, same, count, if◌then◌else◌,
}
use pgmqtt.Engine.Db.{Subscription}
use pgmqtt.Engine.Subscribe.{
  Asked, Subscribe, suback, disconnect, is_accepted, is_key, Dispatch, SubscribeFaults, Subscribed,
  protocol_error, unwritten, done, Table,
}
use pgmqtt.Engine.Subscribe.Coded.{Coded}

-- The table as a map.
abbrev pub find : Bytes → Bytes → List Subscription → Option Subscription
find c g [] = none
find c g (s ∷ ss) = if is_key c g s then some s else find c g ss

-- The last of the filters that is this one, if it is accepted.
abbrev pub last_asked : Bytes → List Asked → Option Asked
last_asked g [] = none
last_asked g (f ∷ fs) = elim (last_asked g fs) [
  | some a ↦ some a
  | none ↦ if is_accepted f.filter && same f.filter g then some f else none
]

-- No subscription identifier is 0.
abbrev pub id_column : ℕ → Option ℕ
id_column zero = none
id_column (suc n) = some (suc n)

abbrev pub asked_or : Bytes → ℕ → Option Asked → Option Subscription → Option Subscription
asked_or client id (some f) before = some (record {
  client = client;
  filter = f.filter;
  qos = f.qos;
  no_local = f.no_local;
  retain_as_published = f.retain_as_published;
  retain_handling = f.retain_handling;
  subscription_id = id_column id;
})
asked_or client id none before = before

-- The map after a SUBSCRIBE: for this client the last options asked for, and else as before.
abbrev pub Stores : Bytes → ℕ → List Asked → List Subscription → List Subscription → Type 0
Stores client id fs before after =
    (c g : Bytes)
    → (find c g after ≡ (
        if same client c
        then asked_or client id (last_asked g fs) (find c g before)
        else find c g before))
      × (count (is_key c g) before ≤ 1 → count (is_key c g) after ≤ 1)

-- The reason codes of the filters, in order.
abbrev pub AllCoded : List Asked → List ℕ → Type 0
AllCoded [] ks = ks ≡ []
AllCoded (f ∷ fs) ks = (k : ℕ) × (rest : List ℕ) × (ks ≡ k ∷ rest) × Coded f k × AllCoded fs rest

-- The subscription identifier of a packet, which is 0 if it has none: MQTT 3.1.1 has none, and one of MQTT 5 stands alone
-- and is in range.
abbrev pub HasId : ℕ → List ℕ → ℕ → Type 0
HasId protocol ids id =
    ((protocol ≢ 5) × (id ≡ 0))
    ⊎ (((protocol ≡ 5) × (ids ≡ []) × (id ≡ 0))
        ⊎ ((protocol ≡ 5) × (ids ≡ id ∷ []) × (1 ≤ id) × (id ≤ 268435455)))

module _ (protocol : ℕ) (client : Bytes) (f : SubscribeFaults) (pk : Subscribe) (t : Table) where
  -- What a SUBSCRIBE with filters and a transaction that was begun does.
  abbrev pub Stored : ℕ → Table × Subscribed → Type 0
  Stored id x =
      (codes : List ℕ) × AllCoded pk.filters codes
      × Stores client id pk.filters t.subs x.0.subs
      × (f.write ≡ true → (x.0.written ≡ t.written) × (x.1 ≡ unwritten))
      × (f.write ≡ false
          → (x.0.written ≡ t.written ++ suback pk.packet_id codes ∷ [])
            × ((ds : List Dispatch) × (x.1 ≡ done ds)))

  abbrev told : Table × Subscribed
  told = (record t { written = t.written ++ disconnect 0x82 ∷ [] }, protocol_error)
