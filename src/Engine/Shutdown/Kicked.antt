-- ===== src/Engine/Shutdown/Kicked.antt =====
-- What a quota kick does to a connection, and to the session of its client.
use pgmqtt.Prelude.{
  ℕ, ◌≡◌, refl, sym, subst, Bool, true, false, none, some, List, [], ◌∷◌, ◌++◌, Bytes, same, ◌==◌,
  if◌then◌else◌, ==_iff,
}
use pgmqtt.Engine.Db.{Db}
use pgmqtt.Engine.Publish.{Env}
use pgmqtt.Engine.Inbound.{mqtt5}
use pgmqtt.Engine.Registry.{conn_for}
use pgmqtt.Engine.Session.{Life, Faults, handle_disconnect}
use pgmqtt.Engine.Shutdown.{
  Signal, disconnects, Conns, close_conn, disconnect_with, kick_for_quota, quota_exceeded_for_token,
}
use pgmqtt.Engine.Shutdown.Unlinked.{IsLinked, conn_for-close_conn}

-- The end of a connection that has been shut down changes no table.
pub closing-inert :
    (env : Env) (f : Faults) (clock : ℕ) (l : Life) (db : Db)
    → l.closing ≡ true
    → handle_disconnect env f clock l db ≡ db
unfolding handle_disconnect
closing-inert env f clock l db h = rw h refl

pub close_conn-closes :
    (h : Conns) (c : ℕ) → (h.life c).closing ≡ false → ((close_conn c h).life c).closing ≡ true
close_conn-closes h c e = rw (e, (==_iff c c).1 refl) refl

pub close_conn-keeps_mark :
    (h : Conns) (c : ℕ)
    → (h.life c).closing ≡ false
    → ((close_conn c h).life c).taken_over ≡ (h.life c).taken_over
close_conn-keeps_mark h c e = rw (e, (==_iff c c).1 refl) refl

module _ (h : Conns) (client : Bytes) (c : ℕ) where
  -- The connection is shut down, and told so if it speaks MQTT 5.
  abbrev pub Kicked : Conns → Type 0
  Kicked h' =
      ((other : Bytes)
        → conn_for other h'.registry
          ≡ (if same client other then none else conn_for other h.registry))
      × ((h'.life c).closing ≡ true)
      × (h'.signals ≡ (
          if (h.life c).protocol == mqtt5 then h.signals ++ disconnects c 0x97 ∷ [] else h.signals))

  kick-Kicked :
      IsLinked h
      → conn_for client h.registry ≡ some c
      → h.kicked c ≡ false
      → Kicked (kick_for_quota c h)
  kick-Kicked l e new = rw new (by_version ((h.life c).protocol == mqtt5) refl)
    where
      marked : List Signal → Conns
      marked s = record h { kicked = λ k. if k == c then true else h.kicked k; signals = s }

      Told : List Signal → Conns → Type 0
      Told s h' =
          ((other : Bytes)
            → conn_for other h'.registry
              ≡ (if same client other then none else conn_for other h.registry))
          × ((h'.life c).closing ≡ true)
          × (h'.signals ≡ s)

      closed_once : (s : List Signal) → Told s (close_conn c (marked s))
      closed_once s = (
        λ other.
            conn_for-close_conn (marked s) client c
              (record { named = l.named; real = l.real; alive = l.alive }) e other,
        close_conn-closes (marked s) c (l.alive client c e),
        rw (l.alive client c e) refl,
      )

      by_version :
          (b : Bool)
          → ((h.life c).protocol == mqtt5) ≡ b
          → Kicked (close_conn c (disconnect_with 0x97 c (marked h.signals)))
      by_version true v =
          rw (v, l.alive client c e) (closed_once (h.signals ++ disconnects c 0x97 ∷ []))
      by_version false v = rw v (closed_once h.signals)

  kicked_for_token :
      (token : ℕ)
      → (h.life c).token ≡ token
      → conn_for client h.registry ≡ some c
      → quota_exceeded_for_token client token h ≡ kick_for_quota c h
  kicked_for_token token t e = rw (e, t, (==_iff token token).1 refl) refl

-- A kick for a client that is found, with the token that the kick names, and that has not been kicked: the connection is shut down, is told
-- 0x97 if it speaks MQTT 5, and is not found any more, while every other client is found as before. Yet the end of the
-- connection then changes no table: no will is published or scheduled, and the session stays as it is, whoever owns it.
pub quota_exceeded_for_token-strands :
    (h : Conns) (client : Bytes) (c token : ℕ) (env : Env) (f : Faults) (clock : ℕ) (db : Db)
    → IsLinked h
    → conn_for client h.registry ≡ some c
    → (h.life c).token ≡ token
    → h.kicked c ≡ false
    → let h' = quota_exceeded_for_token client token h in
      Kicked h client c h' × (handle_disconnect env f clock (h'.life c) db ≡ db)
quota_exceeded_for_token-strands h client c token env f clock db l e t new =
    subst (λ x. Kicked h client c x × (handle_disconnect env f clock (x.life c) db ≡ db))
      (sym (kicked_for_token h client c token t e)) (k, closing-inert env f clock _ db k.1)
  where
    k : Kicked h client c (kick_for_quota c h)
    k = kick-Kicked h client c l e new
