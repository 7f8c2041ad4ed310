-- ===== src/Engine/PacketId.antt =====
-- The allocator of outbound packet ids of internal/engine/conn.go: `ensurePacketIDSeeded`,
-- `nextPacketIDCandidate`, `packetIDInUse` and `AllocPacketID`. What the database answers is an argument.
pub mod Candidates
pub mod Alloc
use pgmqtt.Prelude.{
  ℤ, pos, negsuc, ℕ, zero, suc, ◌+◌, ◌-◌, ◌%◌, ◌^◌, Bool, true, false, Option, none, some, ltb,
  if◌then◌else◌,
}

abbrev pub u32 : ℕ
u32 = 4294967296

-- packetIDSeeded and packetIDState of a Conn
pub record Allocator : Type 0 where
  pub seeded : Bool
  pub counter : ℕ

abbrev pub fresh : Allocator
fresh = record { seeded = false; counter = 0 }

pub data Error : Type 0 where
  query_failed no_packet_id : Error

pub data Result {ℓ} (A : Type ℓ) : Type ℓ where
  ok : A → Result A
  err : Error → Result A

-- MAX(packet_id), NULL if no row has one, clamped to 0..65535
abbrev pub clamp_seed : Option ℤ → ℕ
clamp_seed none = 0
clamp_seed (some (negsuc n)) = 0
clamp_seed (some (pos n)) = if ltb 65535 n then 65535 else n

-- The answer of the seeding query; `none` is an error, after which the next call tries again.
abbrev pub Seed : Type 0
Seed = Option (Option ℤ)

abbrev pub seed_from : Allocator → Seed → Allocator × Bool
seed_from a none = (a, false)
seed_from a (some q) = (record a { seeded = true; counter = clamp_seed q }, true)

-- The allocator afterwards, and whether it is seeded or the query failed.
unfoldable pub ensure_seeded : Allocator → Seed → Allocator × Bool
ensure_seeded a q = if a.seeded then (a, true) else seed_from a q

-- `((v-1) % 65535) + 1` on the uint32 `v` that `Add(1)` returns
abbrev pub id_of : ℕ → ℕ
id_of v = (v + u32 - 1) % u32 % 65535 + 1

unfoldable pub next_candidate : Allocator → Allocator × ℕ
next_candidate a = let v = (a.counter + 1) % u32 in (record a { counter = v }, id_of v)

-- The answer of `packetIDInUse` to a try (they are counted down) for an id; `none` is an error.
abbrev pub Probe : Type 0
Probe = ℕ → ℕ → Option Bool

abbrev pub max_retries : ℕ
max_retries = 8

-- The retry loop, with the number of tries left.
unfoldable pub retry : ℕ → Probe → Allocator → Allocator × Result ℕ
unfolding next_candidate
retry zero probe a = (a, err no_packet_id)
retry (suc tries) probe a =
    let (a', pid) = next_candidate a in
    elim (probe tries pid) [
      | none ↦ (a', err query_failed)
      | some false ↦ (a', ok pid)
      | some true ↦ retry tries probe a'
    ]

unfoldable pub alloc_packet_id : Seed → Probe → Allocator → Allocator × Result ℕ
unfolding ensure_seeded
alloc_packet_id q probe a =
    let (a', seeded) = ensure_seeded a q in
    if seeded then retry max_retries probe a' else (a', err query_failed)
