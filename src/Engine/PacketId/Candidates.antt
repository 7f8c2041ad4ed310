-- ===== src/Engine/PacketId/Candidates.antt =====
-- The sequence of packet ids that the counter runs through.
use pgmqtt.Prelude.{ℕ, zero, suc, ◌+◌, ◌%◌, ◌≤◌, ◌<◌, ◌≡◌, ◌≢◌, arith, ◌==◌, if◌then◌else◌}
use pgmqtt.Engine.PacketId.{u32, Allocator, next_candidate}

-- The successor on the cycle 1, 2, …, 65535.
abbrev pub cycle : ℕ → ℕ
cycle p = if p == 65535 then 1 else p + 1

-- Every candidate lies in 1..65535, whatever the counter. Of two candidates in a row the second is the
-- cyclic successor of the first, but for the one time that the 32-bit counter has just come back to 0:
-- then the same id, 1, is handed out twice in a row.
pub next_candidate_lem :
    (a : Allocator)
    → (1 ≤ (next_candidate a).1)
      × ((next_candidate a).1 ≤ 65535)
      × ((next_candidate (next_candidate a).0).1
          ≡ (if (next_candidate a).0.counter == 0 then 1 else cycle (next_candidate a).1))
      × ((next_candidate a).0.counter ≡ 0 → (next_candidate a).1 ≡ 1)
unfolding next_candidate
next_candidate_lem a = (omega arith, omega arith, ground arith, λ h. omega arith)

-- The candidate of the call after `k` others.
unfoldable pub nth : ℕ → Allocator → ℕ
nth zero a = (next_candidate a).1
nth (suc k) a = nth k (next_candidate a).0

nth_lem : (k : ℕ) (a : Allocator) → a.counter + k + 1 < u32 → nth k a ≡ (a.counter + k) % 65535 + 1
unfolding nth next_candidate
nth_lem zero a h = omega arith
nth_lem (suc k) a h = omega (arith, nth_lem k (next_candidate a).0 (omega arith))

-- Any 65535 candidates in a row are pairwise different while the 32-bit counter does not wrap, so an id
-- comes back only after all the others.
nth_distinct :
    (a : Allocator) (i j : ℕ) → i < j → j < i + 65535 → a.counter + j + 1 < u32 → nth i a ≢ nth j a
nth_distinct a i j h k w = λ e. omega (arith, nth_lem i a (omega arith), nth_lem j a w)
