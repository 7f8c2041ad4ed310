-- ===== src/Engine/Outbound/Untold.antt =====
-- An alias that the client is never told of: the window is full when a topic is sent for the first time.
use pgmqtt.Prelude.{
  ◌+◌, ◌≤◌, ◌<◌, ◌≡◌, refl, sym, subst, true, false, not, ◌&&◌, none, some, [], ◌∷◌, arith,
  same_self, ltb, ◌==◌, if_both,
}
use pgmqtt.Engine.Inbound.{mqtt5}
use pgmqtt.Engine.Outbound.{
  Window, Conn, Item, World, unsent, find_alias, resolve_alias, try_acquire_inflight, acquire_from,
}
use pgmqtt.Engine.Outbound.Deliver.{
  expired, oversized, packet_of, name_topic, with_slot, prepare, deliver_one,
}

-- The window has no room: the delivery is not sent.
module _ (w : World) (i : Item) (c : Conn) where
  -- A connection to an MQTT 5 client with a full window and room for one more alias.
  pub record IsFull : Type 0 where
    pub version : c.protocol ≡ mqtt5
    pub slots : Window
    pub channel : c.window ≡ some slots
    pub full : slots.capacity ≤ slots.used
    pub unlimited : c.max_packet ≡ 0
    pub room : c.aliases.next < c.aliases.maximum
    pub maximum : c.aliases.maximum ≤ 65535
    pub unknown : find_alias i.topic c.aliases.table ≡ none

  fresh_alias :
      IsFull
      → name_topic c i.topic ≡ (
        record c.aliases {
          next = c.aliases.next + 1;
          table = (i.topic, c.aliases.next + 1) ∷ c.aliases.table;
        },
        some (c.aliases.next + 1),
        i.topic,
      )
  unfolding resolve_alias
  fresh_alias f = ground (arith, f.version, f.unknown, f.room, f.maximum)

  -- The connection with the new alias.
  abbrev pub told : Conn
  told = record c {
    aliases = record c.aliases {
      next = c.aliases.next + 1;
      table = (i.topic, c.aliases.next + 1) ∷ c.aliases.table;
    };
  }

  no_slot : IsFull → try_acquire_inflight told ≡ (told, false)
  unfolding try_acquire_inflight
  no_slot f =
      if_both (λ x. x ≡ (told, false)) (not (c.protocol == mqtt5))
        (λ e. absurd (ground (arith, e, f.version)))
        λ _.
          subst (λ o. acquire_from told o ≡ (told, false)) (sym f.channel)
            (if_both (λ x. x ≡ (told, false)) (ltb f.slots.used f.slots.capacity)
              (λ lt. absurd (ground (arith, lt, f.full))) λ _. refl)

  kept_queued :
      IsFull
      → i.state ≡ 0
      → 0 < i.qos
      → prepare w i c (told.aliases, some (c.aliases.next + 1), i.topic) ≡ (told, unsent)
  kept_queued f z q =
      let pk = packet_of w i c (some (c.aliases.next + 1)) i.topic in
      if_both (λ x. x ≡ (told, unsent)) (oversized w c pk)
        (λ e. absurd (ground (arith, e, f.unlimited)))
        λ _.
          if_both (λ x. x ≡ (told, unsent)) (ltb 0 i.qos && i.state == 0)
            (λ _. subst (λ x. with_slot w i pk x ≡ (told, unsent)) (sym (no_slot f)) refl)
            λ e. absurd (ground (arith, e, z, q))

  not_sent :
      IsFull
      → w.online ≡ true
      → expired w.now i.expires_at ≡ false
      → i.state ≡ 0
      → 0 < i.qos
      → deliver_one w i c ≡ (told, unsent)
  unfolding deliver_one
  not_sent f on fresh z q =
      if_both (λ x. x ≡ (told, unsent)) (not w.online) (λ e. absurd (ground (arith, e, on)))
        λ _.
          if_both (λ x. x ≡ (told, unsent)) (expired w.now i.expires_at)
            (λ e. absurd (cc (e, fresh)))
            λ _.
              subst (λ x. prepare w i c x ≡ (told, unsent)) (sym (fresh_alias f))
                (kept_queued f z q)

  short_name : IsFull → name_topic told i.topic ≡ (told.aliases, some (c.aliases.next + 1), [])
  unfolding resolve_alias
  short_name f = ground (arith, f.version, f.room, same_self i.topic)

  -- On a connection of an MQTT 5 client with a full window and room for an alias, a queued delivery with a topic
  -- that has no alias yet is not sent, and nothing is written; but the alias is entered, so that from then on
  -- a packet with this topic carries the alias and an empty topic name, of which the client was never told.
  pub deliver_one-untold :
      IsFull
      → w.online ≡ true
      → expired w.now i.expires_at ≡ false
      → i.state ≡ 0
      → 0 < i.qos
      → ((deliver_one w i c).1 ≡ unsent)
        × ((deliver_one w i c).0.wire ≡ c.wire)
        × (name_topic (deliver_one w i c).0 i.topic
            ≡ ((deliver_one w i c).0.aliases, some (c.aliases.next + 1), []))
  deliver_one-untold f on fresh z q =
      subst
        (λ x.
          (x.1 ≡ unsent)
          × (x.0.wire ≡ c.wire)
          × (name_topic x.0 i.topic ≡ (x.0.aliases, some (c.aliases.next + 1), [])))
        (sym (not_sent f on fresh z q)) (refl, refl, short_name f)
