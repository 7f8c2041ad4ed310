-- ===== src/Listener/Notices.antt =====
-- `dispatchNotification` and `parseTakeoverPayload` of internal/listener/listener.go, and the notifiers of
-- internal/listener/notifier.go. The text of a UUID and its parser (github.com/google/uuid) are parameters.
pub mod Heard
use pgmqtt.Prelude.{
  ℕ, zero, suc, ◌+◌, ◌*◌, ◌-◌, ℤ, pos, negsuc, Bool, true, false, not, ◌&&◌, ◌||◌, Option, none,
  some, List, [], ◌∷◌, ◌++◌, Bytes, codes, same, length, take, drop, ltb, leb, ◌==◌, if◌then◌else◌,
}
use pgmqtt.Engine.Registry.{conn_for}
use pgmqtt.Engine.Shutdown.{
  Conns, close_for_takeover, with_conn, if_token, quota_exceeded_locally, quota_exceeded_for_token,
}

pub record Notification : Type 0 where
  pub channel : Bytes
  pub payload : Bytes

-- The channels of the broker whose UUID has this text.
abbrev pub pub_channel : Bytes → Bytes
pub_channel id = codes "pgmqtt_" ++ id

abbrev pub takeover_channel : Bytes → Bytes
takeover_channel id = codes "pgmqtt_takeover_" ++ id

abbrev pub quota_channel : Bytes → Bytes
quota_channel id = codes "pgmqtt_quota_" ++ id

abbrev pub is_digit : ℕ → Bool
is_digit c = leb 0x30 c && leb c 0x39

abbrev pub digits : Bytes → ℕ → Option ℕ
digits [] n = some n
digits (c ∷ cs) n = let rest = digits cs (10 * n + (c - 0x30)) in if is_digit c then rest else none

abbrev pub max_int64 : ℕ
max_int64 = 9223372036854775807

abbrev pub if_fits : Option ℕ → Option ℤ
if_fits none = none
if_fits (some n) = if leb n max_int64 then some (pos n) else none

abbrev pub negated : ℕ → ℤ
negated zero = pos 0
negated (suc n) = negsuc n

abbrev pub if_fits_negated : Option ℕ → Option ℤ
if_fits_negated none = none
if_fits_negated (some n) = if leb n (max_int64 + 1) then some (negated n) else none

abbrev pub parse_unsigned : Bytes → Option ℕ
parse_unsigned [] = none
parse_unsigned (c ∷ cs) = digits (c ∷ cs) 0

-- strconv.ParseInt(s, 10, 64)
unfoldable pub parse_int : Bytes → Option ℤ
parse_int [] = none
parse_int (c ∷ cs) =
    if c == 0x2D
    then if_fits_negated (parse_unsigned cs)
    else if c == 0x2B
    then if_fits (parse_unsigned cs)
    else if_fits (parse_unsigned (c ∷ cs))

module _ (print : ℕ → Bytes) where
  -- NotifyTakeover and NotifyQuota, to the broker whose UUID has this text
  abbrev pub takeover_notice : Bytes → Bytes → ℕ → Notification
  takeover_notice id client prev = record {
    channel = takeover_channel id;
    payload = print prev ++ client;
  }

  abbrev pub quota_notice : Bytes → Bytes → ℕ → Notification
  quota_notice id client token = record {
    channel = quota_channel id;
    payload = print token ++ client;
  }

module _ (parse : Bytes → Option ℕ) where
  abbrev pub split_at_token : Bytes → Option ℕ → Option ℕ × Bytes
  split_at_token payload none = (none, payload)
  split_at_token payload (some t) = (some t, drop 36 payload)

  -- parseTakeoverPayload
  unfoldable pub parse_takeover_payload : Bytes → Option ℕ × Bytes
  parse_takeover_payload payload =
      if ltb (length payload) 36
      then (none, payload)
      else split_at_token payload (parse (take 36 payload))

  abbrev pub superseding : Option ℕ → ℕ → Conns → Conns
  superseding none c h = close_for_takeover c h
  superseding (some prev) c h = if_token prev close_for_takeover c h

  abbrev pub hear_takeover : Option ℕ × Bytes → Conns → Conns
  hear_takeover (token, client) h = with_conn (superseding token) (conn_for client h.registry) h

  abbrev pub hear_quota : Option ℕ × Bytes → Conns → Conns
  hear_quota (none, client) h = quota_exceeded_locally client h
  hear_quota (some token, client) h = quota_exceeded_for_token client token h

  -- dispatchNotification: the connections, and the message for Deliver
  unfoldable pub dispatch_notification : Bytes → Notification → Conns → Conns × Option ℤ
  unfolding parse_int parse_takeover_payload
  dispatch_notification id n h =
      if same n.channel (pub_channel id)
      then (h, parse_int n.payload)
      else if same n.channel (takeover_channel id)
      then (hear_takeover (parse_takeover_payload n.payload) h, none)
      else if same n.channel (quota_channel id)
      then (hear_quota (parse_takeover_payload n.payload) h, none)
      else (h, none)
