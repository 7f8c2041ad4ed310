-- ===== src/Lib.antt =====
-- pgmqtt: an MQTT 3.1.1 and 5 broker that keeps all its state in Postgres.
--
-- The program. A broker process (internal/engine) accepts MQTT connections and reads and writes packets with
-- internal/mqtt, a framing around the codec of the mochi-mqtt packages. Sessions, subscriptions, messages and
-- deliveries are rows of Postgres (internal/db), so any broker process can serve any session. A PUBLISH is one
-- transaction that inserts the message and a delivery for each subscriber and notifies the brokers that
-- own the subscribers' sessions; those send the deliveries to their sockets.
--
-- The files.
--   Prelude: the library names and the helpers that all share: tests on numbers, lists measured by native
--     numbers, counting, masks on a byte, signed integers.
--   Wire: internal/mqtt. Topic is topic.go, with the grammar of MQTT 4.7 in Topic/Grammar, shared subscriptions
--     in Topic/Shared and the SQL function mqtt_topic_match of internal/db/migrations/0001_init.sql in
--     Topic/Matching. Varint and Properties are decodeVarint and V5ConnectMaximumPacketSize of codec.go; Codec is
--     Reader.Read, SetMaxPacketSize and Encode of codec.go with the buffer pool of buf.go.
--   Engine: internal/engine. PacketId is AllocPacketID of conn.go; Db the tables; Publish is publishCore of publish.go
--     with mqtt_publish of internal/db/migrations/0018; Inbound is handlePublish of publish.go and handlePubrel of
--     conn.go. Outbound is the sending side: Deliver is deliverOneTracked of deliver.go, Fan is Deliver, Drain the drain loop of
--     conn.go and drainSessionQueue of deliver.go, Acks the acknowledgements of conn.go. Session is takeOwnership of connect.go, handleDisconnect and
--     handleGracefulDisconnect of conn.go, AttestOwnedSessions of engine.go and will.go. IpLimit is iplimit.go, Rate
--     tryConsumeRateToken of conn.go, and Reserve and Registry are tryReserveConn and registerConn of engine.go.
--     Connect is handleConnect of connect.go with auth.go: the checks in Connect, the handshake in Connect/Handshake.
--     Subscribe is handleSubscribe of subscribe.go and handleUnsubscribe of conn.go, Subscribe/Retained the dispatch of
--     retained messages.
--     Shutdown is how a connection is closed by others: shutdown, ShutdownForTakeover and gracefulClose of conn.go, the
--     quota kicks of publish.go, sweepOrphanedSockets, KickAllDrains and shutdownGracefully of engine.go.
--     Run is run and dispatch of conn.go, with the recovery from a panic; the handlers are a parameter.
--   Listener: internal/listener. Notices is dispatchNotification with the notifiers of notifier.go, Reconnect is
--     reconnect, and Run is run.
--   Janitor: internal/janitor. Schedule is shouldRun and Tick with the jobs as a parameter; Sweeps, Dead and Wills are the
--     jobs, and Tick puts them together.
--   Samples: the theorems at concrete inputs.
--
-- How code becomes definitions. A Go string or slice of bytes is the list of its bytes. A table is the list of its
-- rows and a statement a function on the tables; a transaction that fails leaves the tables as they were; a
-- commit whose answer is lost counts as one that failed and was rolled back, and that it may have gone through is not
-- modelled. What
-- may fail outside of a function (a statement, a write to a socket) is an argument that says whether it does. A
-- packet that is written and a call that only has effects elsewhere is an event in a list. Locks, contexts, logs
-- and metrics are left out.
--
-- Bounds and fuel. The walk over the properties of a CONNECT runs on as much fuel as the body has bytes;
-- Wire/Properties/Safety proves that it is enough. Counters of 32 bits wrap where the code relies on it (PacketId),
-- and `uint16(current)` of the inbound counter wraps as in Go; the 32-bit counter below it is not bounded,
-- since it stays near the number of packets in flight. The drain loop runs on fuel, and Engine/Outbound/Ending proves
-- how much is enough. The accept loops of Reserve interleave at each atomic operation; the other operations
-- run one after the other.
--
-- Not modelled: the codec of mochi-mqtt, which is a parameter of Wire/Codec, with its ConnectValidate, an argument of
-- Engine/Connect, as is the comparison of bcrypt; the rate limiters of golang.org/x/time/rate, which are one of
-- Engine/IpLimit; the clock, the ages of rows (last_seen, received_at, created_at) and the JSON of the properties,
-- which are arguments; the order in which Postgres lists clients and brokers; the pool hands out the buffer put back
-- last; the text of a UUID and its parser, which are parameters of Listener; and, of the broker, the
-- accept loops and the websocket adapter of internal/engine, the gauges and metrics of
-- internal/janitor, the dialing of internal/listener, and internal/operator, internal/config, internal/metrics and the
-- opening of the pool in internal/db.
pub mod Prelude
pub mod Wire
pub mod Engine
pub mod Janitor
pub mod Listener
pub mod Samples
