-- ===== src/Engine/Subscribe.antt =====
-- `handleSubscribe` of internal/engine/subscribe.go and `handleUnsubscribe` of internal/engine/conn.go, with their
-- SQL on subscriptions.
pub mod Stored
pub mod Coded
pub mod Removed
pub mod Retained
pub mod Overrun
pub mod Replayed
use pgmqtt.Prelude.{
  ℕ, ◌+◌, Bool, true, false, not, ◌&&◌, ◌||◌, Option, none, some, List, [], ◌∷◌, ◌++◌, Bytes, same,
  keep, any, is_empty, length, ltb, leb, ◌==◌, if◌then◌else◌,
}
use pgmqtt.Wire.Topic.{TopicError, validate_topic_filter}
use pgmqtt.Wire.Topic.Shared.{shared_subscription}
use pgmqtt.Engine.Db.{Subscription}
use pgmqtt.Engine.Inbound.{mqtt5}

-- A topic filter of a SUBSCRIBE, with its options.
pub record Asked : Type 0 where
  pub filter : Bytes
  pub qos : ℕ
  pub no_local : Bool
  pub retain_as_published : Bool
  pub retain_handling : ℕ

pub record Subscribe : Type 0 where
  pub packet_id : ℕ
  pub ids : List ℕ
  pub filters : List Asked

-- What goes to the socket.
pub data Ack : Type 0 where
  suback unsuback : ℕ → List ℕ → Ack
  disconnect : ℕ → Ack

abbrev pub is_valid : Option TopicError → Bool
is_valid none = true
is_valid (some e) = false

abbrev pub is_shared : Bytes → Bool
is_shared filter = (shared_subscription filter).shared

-- A text that may be subscribed to: not a shared subscription, and a filter by the grammar.
abbrev pub is_accepted : Bytes → Bool
is_accepted filter = not (is_shared filter) && is_valid (validate_topic_filter filter)

-- The reason code of a subscription that was stored.
abbrev pub granted_code : ℕ → ℕ
granted_code qos = if leb qos 2 then qos else 0x80

abbrev pub code_of : Asked → ℕ
code_of f =
    if is_shared f.filter
    then 0x9E
    else if is_valid (validate_topic_filter f.filter)
    then granted_code f.qos
    else 0x8F

abbrev pub null_int : ℕ → Option ℕ
null_int v = if v == 0 then none else some v

abbrev pub row_of : Bytes → ℕ → Asked → Subscription
row_of client id f = record {
  client = client;
  filter = f.filter;
  qos = f.qos;
  no_local = f.no_local;
  retain_as_published = f.retain_as_published;
  retain_handling = f.retain_handling;
  subscription_id = null_int id;
}

-- The primary key of subscriptions.
abbrev pub is_key : Bytes → Bytes → Subscription → Bool
is_key client filter s = same s.client client && same s.filter filter

-- INSERT … ON CONFLICT (client_id, topic_filter) DO UPDATE
abbrev pub upsert : Subscription → List Subscription → List Subscription
upsert r [] = r ∷ []
upsert r (s ∷ ss) = if is_key r.client r.filter s then r ∷ ss else s ∷ upsert r ss

-- Retained messages to send for a filter, with the options of its subscription.
pub record Dispatch : Type 0 where
  pub filter : Bytes
  pub qos : ℕ
  pub subscription_id : ℕ

-- 0 is always, 1 is only for a new subscription, and 2 is never.
abbrev pub sends_retained : ℕ → Bool → Bool
sends_retained handling new = handling == 0 || (handling == 1 && new)

abbrev pub dispatch_of : ℕ → Asked → Bool → List Dispatch
dispatch_of id f new =
    if sends_retained f.retain_handling new
    then record { filter = f.filter; qos = f.qos; subscription_id = id } ∷ []
    else []

-- The table, the reason codes and the dispatches after the loop over the filters.
abbrev pub take_filter : Bytes → ℕ → Asked → List Subscription → List Subscription × List Dispatch
take_filter client id f subs =
    if is_accepted f.filter
    then (
      upsert (row_of client id f) subs,
      dispatch_of id f (not (any (is_key client f.filter) subs)),
    )
    else (subs, [])

unfoldable pub take_filters :
    Bytes → ℕ → List Asked → List Subscription → List Subscription × List ℕ × List Dispatch
take_filters client id [] subs = (subs, [], [])
take_filters client id (f ∷ fs) subs =
    let (subs', now) = take_filter client id f subs in
    let (after, codes, later) = take_filters client id fs subs' in
    (after, code_of f ∷ codes, now ++ later)

-- At most one Subscription Identifier, from 1 to 268435455; 0 stands for none.
abbrev pub one_id : List ℕ → Option ℕ
one_id [] = some 0
one_id (v ∷ []) = if ltb 0 v && leb v 268435455 then some v else none
one_id (v ∷ w ∷ vs) = none

abbrev pub id_of_packet : ℕ → List ℕ → Option ℕ
id_of_packet protocol ids = if protocol == mqtt5 then one_id ids else some 0

-- What fails: the begin of the transaction, a statement or the commit, and the write of the answer.
pub record SubscribeFaults : Type 0 where
  pub begin : Bool
  pub statement : Bool
  pub write : Bool

-- `done` carries the retained messages that are to be sent.
pub data Subscribed : Type 0 where
  protocol_error query_failed unwritten : Subscribed
  done : List Dispatch → Subscribed

-- The table of subscriptions and what has been written.
pub record Table : Type 0 where
  pub subs : List Subscription
  pub written : List Ack

abbrev pub after_commit :
    SubscribeFaults → ℕ → Table → List Subscription × List ℕ × List Dispatch → Table × Subscribed
after_commit f pid t (subs, codes, ds) =
    if f.write
    then (record t { subs = subs }, unwritten)
    else (record { subs = subs; written = t.written ++ suback pid codes ∷ [] }, done ds)

abbrev pub with_id : Bytes → SubscribeFaults → Subscribe → Table → Option ℕ → Table × Subscribed
with_id client f pk t none =
    (record t { written = t.written ++ disconnect 0x82 ∷ [] }, protocol_error)
with_id client f pk t (some id) =
    if f.statement
    then (t, query_failed)
    else after_commit f pk.packet_id t (take_filters client id pk.filters t.subs)

-- handleSubscribe, up to the dispatch of the retained messages
unfoldable pub handle_subscribe :
    ℕ → Bytes → SubscribeFaults → Subscribe → Table → Table × Subscribed
handle_subscribe protocol client f pk t =
    if is_empty pk.filters
    then (record t { written = t.written ++ disconnect 0x82 ∷ [] }, protocol_error)
    else if f.begin
    then (t, query_failed)
    else with_id client f pk t (id_of_packet protocol pk.ids)

-- DELETE FROM subscriptions WHERE client_id=$1 AND topic_filter=$2, for each valid filter, and the reason codes
abbrev pub remove_filter : Bytes → Bytes → List Subscription → List Subscription × ℕ
remove_filter client filter subs =
    if is_valid (validate_topic_filter filter)
    then (
      keep (λ s. not (is_key client filter s)) subs,
      if any (is_key client filter) subs then 0x00 else 0x11,
    )
    else (subs, 0x8F)

unfoldable pub remove_filters : Bytes → List Bytes → List Subscription → List Subscription × List ℕ
remove_filters client [] subs = (subs, [])
remove_filters client (f ∷ fs) subs =
    let (subs', code) = remove_filter client f subs in
    let (after, codes) = remove_filters client fs subs' in (after, code ∷ codes)

-- handleUnsubscribe
unfoldable pub handle_unsubscribe :
    Bytes → SubscribeFaults → ℕ → List Bytes → Table → Table × Subscribed
handle_unsubscribe client f pid filters t =
    let (subs, codes) = remove_filters client filters t.subs in
    if f.begin || f.statement
    then (t, query_failed)
    else if f.write
    then (record t { subs = subs }, unwritten)
    else (record { subs = subs; written = t.written ++ unsuback pid codes ∷ [] }, done [])
