-- ===== src/Engine/IpLimit.antt =====
-- internal/engine/iplimit.go and `checkIPLimitsString` of internal/engine/engine.go: the limits for each address. The
-- token buckets of golang.org/x/time/rate and the parsing of net and netip are the parameter `Net`.
pub mod Steps
pub mod Boxed
use pgmqtt.Prelude.{
  ℕ, ◌+◌, Bool, true, false, not, ◌&&◌, ◌||◌, Option, none, some, List, [], ◌∷◌, Bytes, keep,
  is_empty, ltb, ◌==◌, if◌then◌else◌,
}

pub record Net : Type 1 where
  -- a rate.Limiter
  pub Bucket : Type 0
  -- events in a number of seconds, and the burst
  pub new_bucket : ℕ → ℕ → ℕ → Bucket
  -- AllowN(now, 1)
  pub allow : ℕ → Bucket → Bucket × Bool
  -- net.SplitHostPort without the port, netip.ParseAddr and Addr.Unmap, with an address as a number
  pub split_host_port : Bytes → Option Bytes
  pub parse_addr : Bytes → Option ℕ
  pub unmap : ℕ → ℕ

pub data Verdict : Type 0 where
  pass penalty_box rate_limit : Verdict

module _ (net : Net) where
  open net use {Bucket, new_bucket, allow, split_host_port, parse_addr, unmap}

  abbrev pub host_of : Bytes → Option Bytes → Bytes
  host_of s none = s
  host_of s (some host) = host

  abbrev pub unmapped : Option ℕ → Option ℕ
  unmapped none = none
  unmapped (some a) = some (unmap a)

  abbrev pub parse_ip : Bytes → Option ℕ
  parse_ip s = if is_empty s then none else unmapped (parse_addr (host_of s (split_host_port s)))

  -- Times are in nanoseconds; `until` is `none` for the zero time.
  pub record Entry : Type 0 where
    pub connect : Option Bucket
    pub auth : Option Bucket
    pub last_seen : ℕ
    pub until : Option ℕ

  -- A limit of 0 is disabled.
  pub record Limiter : Type 0 where
    pub connects_per_sec : ℕ
    pub auth_failures_per_min : ℕ
    pub penalty : ℕ
    pub gc_idle : ℕ
    pub entries : List (ℕ × Entry)

  abbrev pub lookup : ℕ → List (ℕ × Entry) → Option Entry
  lookup a [] = none
  lookup a ((k, e) ∷ es) = if k == a then some e else lookup a es

  abbrev pub store : ℕ → Entry → List (ℕ × Entry) → List (ℕ × Entry)
  store a e [] = (a, e) ∷ []
  store a e ((k, x) ∷ es) = if k == a then (a, e) ∷ es else (k, x) ∷ store a e es

  abbrev pub put : ℕ → Entry → Limiter → Limiter
  put a e l = record l { entries = store a e l.entries }

  abbrev pub new_entry : ℕ → Limiter → Entry
  new_entry now l = record {
    connect =
        if ltb 0 l.connects_per_sec
        then some (new_bucket l.connects_per_sec 1 l.connects_per_sec)
        else none;
    auth =
        if ltb 0 l.auth_failures_per_min
        then some (new_bucket l.auth_failures_per_min 60 l.auth_failures_per_min)
        else none;
    last_seen = now;
    until = none;
  }

  -- entryFor with create = true
  abbrev pub or_new : ℕ → Limiter → Option Entry → Entry
  or_new now l none = new_entry now l
  or_new now l (some e) = e

  abbrev pub entry_for : ℕ → ℕ → Limiter → Entry
  entry_for now a l = or_new now l (lookup a l.entries)

  abbrev pub in_box : ℕ → Option ℕ → Bool
  in_box now none = false
  in_box now (some t) = ltb now t

  -- The connect bucket of an entry, with the entry afterwards.
  abbrev pub tick_connect : ℕ → Entry → Option Bucket → Entry × Bool
  tick_connect now e none = (e, true)
  tick_connect now e (some b) =
      (record e { last_seen = now; connect = some (allow now b).0 }, (allow now b).1)

  abbrev pub connect_at : ℕ → Limiter → Option ℕ → Limiter × Bool
  connect_at now l none = (l, true)
  connect_at now l (some a) =
      let e = entry_for now a l in
      (put a (tick_connect now e e.connect).0 l, (tick_connect now e e.connect).1)

  unfoldable pub allow_connect : ℕ → Bytes → Limiter → Limiter × Bool
  allow_connect now ip l =
      if l.connects_per_sec == 0 then (l, true) else connect_at now l (parse_ip ip)

  abbrev pub tick_auth : ℕ → ℕ → Entry → Option Bucket → Entry
  tick_auth now penalty e none = e
  tick_auth now penalty e (some b) =
      if in_box now e.until then record e { last_seen = now } else record e {
        last_seen = now;
        auth = some (allow now b).0;
        until = if (allow now b).1 then e.until else some (now + penalty);
      }

  abbrev pub failure_at : ℕ → Limiter → Option ℕ → Limiter
  failure_at now l none = l
  failure_at now l (some a) =
      let e = entry_for now a l in put a (tick_auth now l.penalty e e.auth) l

  unfoldable pub record_auth_failure : ℕ → Bytes → Limiter → Limiter
  record_auth_failure now ip l =
      if l.auth_failures_per_min == 0 then l else failure_at now l (parse_ip ip)

  -- A penalty that is over is cleared.
  abbrev pub box_of : ℕ → ℕ → Limiter → Option Entry → Limiter × Bool
  box_of now a l none = (l, false)
  box_of now a l (some e) =
      if in_box now e.until then (l, true) else (put a (record e { until = none }) l, false)

  abbrev pub box_at : ℕ → Limiter → Option ℕ → Limiter × Bool
  box_at now l none = (l, false)
  box_at now l (some a) = box_of now a l (lookup a l.entries)

  unfoldable pub in_penalty_box : ℕ → Bytes → Limiter → Limiter × Bool
  in_penalty_box now ip l =
      if l.auth_failures_per_min == 0 then (l, false) else box_at now l (parse_ip ip)

  abbrev pub reaped : ℕ → ℕ → Entry → Bool
  reaped now idle e = ltb (e.last_seen + idle) now && not (in_box now e.until)

  unfoldable pub gc_once : ℕ → Limiter → Limiter
  gc_once now l = record l { entries = keep (λ e. not (reaped now l.gc_idle e.1)) l.entries }

  -- checkIPLimitsString
  unfoldable pub check_ip_limits : ℕ → Bytes → Limiter → Limiter × Verdict
  check_ip_limits now ip l =
      if (in_penalty_box now ip l).1
      then ((in_penalty_box now ip l).0, penalty_box)
      else if (allow_connect now ip (in_penalty_box now ip l).0).1
      then ((allow_connect now ip (in_penalty_box now ip l).0).0, pass)
      else ((allow_connect now ip (in_penalty_box now ip l).0).0, rate_limit)
