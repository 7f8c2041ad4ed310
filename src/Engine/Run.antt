-- ===== src/Engine/Run.antt =====
-- The life of a connection: `run` and `dispatch` of internal/engine/conn.go. What the handlers do is a parameter; the
-- other modules of Engine are about them.
pub mod Course
use pgmqtt.Prelude.{Bool, true, false, not, ◌&&◌, ◌||◌, List, [], ◌∷◌, ◌++◌, ℕ, ◌==◌, if◌then◌else◌}
use pgmqtt.Engine.Inbound.{mqtt5}

-- The types of packet that are told apart.
pub data PacketKind : Type 0 where
  connect publish puback pubrec pubrel pubcomp subscribe unsubscribe pingreq disconnect auth
        unsupported :
      PacketKind

-- What a turn of the read loop meets: the deadline cannot be set, the read fails (because the packet is too large, or
-- not), or a packet comes.
pub data Turn : Type 0 where
  undeadlined : Turn
  unread : Bool → Turn
  incoming : PacketKind → Turn

-- What `run` and `dispatch` do: `enters` is the call of `handleConnect`, `ends` that of `handleDisconnect`, `recovers` the
-- recovery from a panic and `shuts` the deferred call of `shutdown`.
pub data Act : Type 0 where
  enters pongs ends recovers shuts : Act
  handles : PacketKind → Act
  disconnects : ℕ → Act

-- How a handler comes back: without an error, with one, or by a panic.
pub data Return : Type 0 where
  normally with_error panicking : Return

-- The handlers, each with the state that it leaves.
pub record Handlers {ℓ} (S : Type ℓ) : Type ℓ where
  pub connects : S → S × Return
  pub handle : PacketKind → S → S × Return
  pub take_token : S → S × Bool
  pub pong_fails : S → Bool
  pub protocol_of : S → ℕ
  pub end_session : S → S
  pub shutdown : S → S

abbrev pub error_if : Bool → Return
error_if b = if b then with_error else normally

abbrev pub is_metered : PacketKind → Bool
is_metered publish = true
is_metered subscribe = true
is_metered p = false

module _ {ℓ} {S : Type ℓ} (h : Handlers S) where
  -- The second switch of dispatch: the state, what was done, and how it comes back.
  abbrev pub route : PacketKind → S → S × List Act × Return
  route connect s = (s, [], with_error)
  route pingreq s = (s, pongs ∷ [], error_if (h.pong_fails s))
  route auth s = (s, disconnects 0x82 ∷ [], with_error)
  route unsupported s = (s, [], with_error)
  route p s = let (s', back) = h.handle p s in (s', handles p ∷ [], back)

  abbrev pub with_token : PacketKind → S × Bool → S × List Act × Return
  with_token p (s, has_token) =
      if has_token then route p s else (s, disconnects 0x96 ∷ [], with_error)

  unfoldable pub dispatch : PacketKind → S → S × List Act × Return
  dispatch p s = if is_metered p then with_token p (h.take_token s) else route p s

  -- The deferred shutdown, with no end of the session before it.
  abbrev pub drop_conn : List Act → S → S × List Act × Bool
  drop_conn acts s = (h.shutdown s, acts ++ shuts ∷ [], true)

  -- A panic is recovered, and then the connection is shut down.
  abbrev pub recover : List Act → S → S × List Act × Bool
  recover acts s = (h.shutdown s, acts ++ recovers ∷ shuts ∷ [], true)

  -- The end of the loop, and the deferred shutdown.
  abbrev pub conclude : List Act → S → S × List Act × Bool
  conclude acts s = (h.shutdown (h.end_session s), acts ++ ends ∷ shuts ∷ [], true)

  abbrev pub too_large : Bool → S → List Act
  too_large large s = if large && h.protocol_of s == mqtt5 then disconnects 0x95 ∷ [] else []

  abbrev pub prepend : List Act → S × List Act × Bool → S × List Act × Bool
  prepend acts (s, later, finished) = (s, acts ++ later, finished)

  abbrev pub after_dispatch : S × List Act × Return → S × List Act × Bool → S × List Act × Bool
  after_dispatch (s, acts, normally) rest = prepend acts rest
  after_dispatch (s, acts, with_error) rest = conclude acts s
  after_dispatch (s, acts, panicking) rest = recover acts s

  -- The loop; it is not finished when the turns are used up.
  unfoldable pub serve : List Turn → S → S × List Act × Bool
  serve [] s = (s, [], false)
  serve (undeadlined ∷ ts) s = drop_conn [] s
  serve (unread large ∷ ts) s = conclude (too_large large s) s
  serve (incoming p ∷ ts) s =
      let rest = serve ts (dispatch p s).0 in after_dispatch (dispatch p s) rest

  abbrev pub after_connect : List Turn → S × Return → S × List Act × Bool
  after_connect ts (s, normally) = prepend (enters ∷ []) (serve ts s)
  after_connect ts (s, with_error) = drop_conn (enters ∷ []) s
  after_connect ts (s, panicking) = recover (enters ∷ []) s

  -- run; the first packet has to be a CONNECT
  unfoldable pub run : List Turn → S → S × List Act × Bool
  run [] s = (s, [], false)
  run (incoming connect ∷ ts) s = after_connect ts (h.connects s)
  run (t ∷ ts) s = drop_conn [] s
