-- ===== src/Engine/PacketId/Alloc.antt =====
-- What `AllocPacketID` hands out.
use pgmqtt.Prelude.{
  pos, ℕ, zero, suc, ◌+◌, ◌≤◌, ◌<◌, ◌≡◌, ◌⊎◌, ◌↔◌, refl, subst, ap, ◌∙◌, ltb, List, [], ◌∷◌, All,
  any, Bool, true, false, arith, Option, none, some, ◌==◌, Bool-cases, inl, inr,
}
use pgmqtt.Engine.PacketId.{
  Allocator, Seed, Probe, no_packet_id, ok, err, next_candidate, retry, max_retries, ensure_seeded,
  alloc_packet_id, fresh,
}
use pgmqtt.Engine.PacketId.Candidates.{nth, next_candidate_lem}

probe_cases : (o : Option Bool) → (o ≡ none) ⊎ ((o ≡ some false) ⊎ (o ≡ some true))
probe_cases none = inl refl
probe_cases (some false) = inr (inl refl)
probe_cases (some true) = inr (inr refl)

-- The id comes from try number `k`, with `t` tries left after it, in which the database said that it
-- is free.
abbrev pub Free : ℕ → Probe → Allocator → ℕ → Type 0
Free tries probe a pid =
    (k : ℕ) × (t : ℕ) × (k + suc t ≡ tries) × (nth k a ≡ pid) × (probe t pid ≡ some false)

first-Free :
    (tries : ℕ) (probe : Probe) (a : Allocator) (pid : ℕ)
    → probe tries (next_candidate a).1 ≡ some false
    → (next_candidate a).1 ≡ pid
    → Free (suc tries) probe a pid
unfolding nth
first-Free tries probe a pid e d =
    (0, tries, omega arith, d, subst (λ p. probe tries p ≡ some false) d e)

later-Free :
    (tries : ℕ) (probe : Probe) (a : Allocator) (pid : ℕ)
    → Free tries probe (next_candidate a).0 pid
    → Free (suc tries) probe a pid
unfolding nth
later-Free tries probe a pid (k, t, h, e, f) = (suc k, t, omega arith, e, f)

retry-ok :
    (tries : ℕ) (probe : Probe) (a : Allocator) (pid : ℕ)
    → (retry tries probe a).1 ≡ ok pid
    → Free tries probe a pid
unfolding retry
retry-ok zero probe a pid h = cc
retry-ok (suc tries) probe a pid h = elim (probe_cases (probe tries (next_candidate a).1)) [
  | inl e ↦ absurd (ground (arith, e))
  | inr (inl e) ↦ first-Free tries probe a pid e (ground (arith, e))
  | inr (inr e) ↦
      later-Free tries probe a pid
        (retry-ok tries probe (next_candidate a).0 pid (ground (arith, e)))
]

-- Every try failed because the id is taken.
abbrev pub AllTaken : ℕ → Probe → Allocator → Type 0
AllTaken zero probe a = Unit
AllTaken (suc t) probe a =
    (probe t (next_candidate a).1 ≡ some true) × AllTaken t probe (next_candidate a).0

retry-AllTaken :
    (tries : ℕ) (probe : Probe) (a : Allocator)
    → ((retry tries probe a).1 ≡ err no_packet_id) ↔ AllTaken tries probe a
unfolding retry
retry-AllTaken zero probe a = (λ h. tt, λ h. refl)
retry-AllTaken (suc tries) probe a = elim (probe_cases (probe tries (next_candidate a).1)) [
  | inl e ↦ (λ h. absurd (ground (arith, e)), λ h. absurd (ground (arith, e)))
  | inr (inl e) ↦ (λ h. absurd (ground (arith, e)), λ h. absurd (ground (arith, e)))
  | inr (inr e) ↦ (
    λ h. (e, (retry-AllTaken tries probe (next_candidate a).0).0 (ground (arith, e))),
    λ h. ground (arith, e, (retry-AllTaken tries probe (next_candidate a).0).1 h.1),
  )
]

nth_range : (k : ℕ) (a : Allocator) → (1 ≤ nth k a) × (nth k a ≤ 65535)
unfolding nth
nth_range zero a = let (lo, hi, _, _) = next_candidate_lem a in (lo, hi)
nth_range (suc k) a = nth_range k (next_candidate a).0

-- An id that `AllocPacketID` returns lies in 1..65535, is one of the next eight candidates of the seeded
-- counter, and is one that the database has just said to be free; and the answer `no_packet_id` comes
-- exactly when the counter is seeded and the database said of all eight that they are taken.
pub alloc_packet_id_lem :
    (q : Seed) (probe : Probe) (a : Allocator)
    → ((pid : ℕ)
        → (alloc_packet_id q probe a).1 ≡ ok pid
        → (1 ≤ pid) × (pid ≤ 65535) × Free max_retries probe (ensure_seeded a q).0 pid)
      × (((alloc_packet_id q probe a).1 ≡ err no_packet_id)
          ↔ (((ensure_seeded a q).1 ≡ true) × AllTaken max_retries probe (ensure_seeded a q).0))
unfolding alloc_packet_id
alloc_packet_id_lem q probe a =
    let tried = retry-AllTaken max_retries probe (ensure_seeded a q).0 in
    elim (Bool-cases (ensure_seeded a q).1) [
      | inr e ↦ (
        λ pid h. absurd (ground (arith, e)),
        (λ h. absurd (ground (arith, e)), λ h. absurd (ground (arith, e))),
      )
      | inl e ↦ rw e (
        λ pid h. in_range pid (retry-ok max_retries probe (ensure_seeded a q).0 pid h),
        (λ h. (refl, tried.0 h), λ h. tried.1 h.1),
      )
    ]
  where
    in_range :
        (pid : ℕ)
        → Free max_retries probe (ensure_seeded a q).0 pid
        → (1 ≤ pid) × (pid ≤ 65535) × Free max_retries probe (ensure_seeded a q).0 pid
    in_range pid (k, t, h, e, f) =
        let (lo, hi) = nth_range k (ensure_seeded a q).0 in
        (subst (λ p. 1 ≤ p) e lo, subst (λ p. p ≤ 65535) e hi, (k, t, h, e, f))

-- A database that knows the ids in flight.
abbrev pub Honest : List ℕ → Probe → Type 0
Honest ids probe = (t p : ℕ) → probe t p ≡ some (any (λ x. x == p) ids)

above : (m : ℕ) (ids : List ℕ) → All (λ x. x ≤ m) ids → any (λ x. x == m + 1) ids ≡ false
above m [] h = refl
above m (x ∷ ids) (h, hs) = ground (arith, above m ids hs)

retry_free :
    (tries : ℕ) (probe : Probe) (a : Allocator) (pid : ℕ)
    → (next_candidate a).1 ≡ pid
    → probe tries pid ≡ some false
    → retry (suc tries) probe a ≡ ((next_candidate a).0, ok pid)
unfolding retry
retry_free tries probe a pid e f = ground (arith, e, f)

candidate_after :
    (m : ℕ)
    → m < 65535
    → let a : Allocator = record { seeded = true; counter = m } in
      ((next_candidate a).0 ≡ record { seeded = true; counter = m + 1 })
      × ((next_candidate a).1 ≡ m + 1)
unfolding next_candidate
candidate_after m h = (ground arith, omega arith)

short : (m : ℕ) → m < 65535 → ltb 65535 m ≡ false
short m h = ground arith

-- On a resumed session the first id is one more than the greatest id in flight, unless that is 65535; it
-- is found at the first try and is none of the ids that are in flight from the connection before.
pub alloc_packet_id-resumed :
    (m : ℕ) (ids : List ℕ) (probe : Probe)
    → m < 65535
    → All (λ x. x ≤ m) ids
    → Honest ids probe
    → (alloc_packet_id (some (some (pos m))) probe fresh
        ≡ (record { seeded = true; counter = m + 1 }, ok (m + 1)))
      × (any (λ x. x == m + 1) ids ≡ false)
unfolding alloc_packet_id
alloc_packet_id-resumed m ids probe h k honest = (
  rw (short m h) (
      retry_free 7 probe (record { seeded = true; counter = m }) (m + 1) (candidate_after m h).1
        (honest 7 (m + 1) ∙ ap some (above m ids k))
      ∙ ap (λ a. (a, ok (m + 1))) (candidate_after m h).0),
  above m ids k,
)
