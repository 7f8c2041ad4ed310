-- ===== src/Engine/Reserve.antt =====
-- `tryReserveConn` and `releaseConn` of internal/engine/engine.go: the cap on connections, with any number of
-- accept loops that interleave at each atomic operation.
use pgmqtt.Prelude.{
  ℕ, ◌+◌, ◌-◌, ◌≤◌, ◌<◌, ◌≡◌, refl, ◌∙◌, Bool, true, false, ◌&&◌, List, [], ◌∷◌, ◌++◌, arith, ltb,
  leb, all, count, ◌==◌, if◌then◌else◌,
}

-- Where a caller is: before the load, with what it has loaded, with a slot, or turned away or gone.
pub data Phase : Type 0 where
  before : Phase
  loaded : ℕ → Phase
  holding gone : Phase

-- The next atomic operation of a caller: the load, at which it gives up if the cap is reached, the
-- compare-and-swap, which goes back to the load if it fails, and the release. A cap of 0 is none.
unfoldable pub advance : ℕ → ℕ → Phase → ℕ × Phase
advance cap conns before =
    if cap == 0
    then (conns + 1, holding)
    else if leb cap conns
    then (conns, gone)
    else (conns, loaded conns)
advance cap conns (loaded cur) = if conns == cur then (cur + 1, holding) else (conns, before)
advance cap conns holding = (conns - 1, gone)
advance cap conns gone = (conns, gone)

-- openConns and the callers.
pub record Pool : Type 0 where
  pub conns : ℕ
  pub callers : List Phase

-- Any caller takes its next step, or a new one comes.
pub data Step (cap : ℕ) : Pool → Pool → Type 0 where
  arrive :
      {conns : ℕ} {ps : List Phase}
      → Step cap
          (record { conns = conns; callers = ps })
          (record { conns = conns; callers = before ∷ ps })
  turn :
      (conns : ℕ) (ps qs : List Phase) (p : Phase)
      → Step cap
          (record { conns = conns; callers = ps ++ p ∷ qs })
          (record { conns = (advance cap conns p).0; callers = ps ++ (advance cap conns p).1 ∷ qs })

pub data Run (cap : ℕ) : Pool → Type 0 where
  start : Run cap (record { conns = 0; callers = [] })
  next : {a b : Pool} → Run cap a → Step cap a b → Run cap b

abbrev pub is_holding : Phase → Bool
is_holding holding = true
is_holding p = false

-- A caller that may still swap has loaded a number below the cap.
abbrev below : ℕ → Phase → Bool
below cap (loaded cur) = ltb cur cap
below cap p = true

abbrev pub IsBounded : ℕ → Pool → Type 0
IsBounded cap s =
    (s.conns ≡ count is_holding s.callers) × (s.conns ≤ cap) × (all (below cap) s.callers ≡ true)

count-append :
    (p : Phase → Bool) (xs ys : List Phase) → count p (xs ++ ys) ≡ count p xs + count p ys
count-append p [] ys = omega arith
count-append p (x ∷ xs) ys = ground (arith, count-append p xs ys)

all-append : (p : Phase → Bool) (xs ys : List Phase) → all p (xs ++ ys) ≡ (all p xs && all p ys)
all-append p [] ys = refl
all-append p (x ∷ xs) ys = ground (arith, all-append p xs ys)

-- The counters of one operation.
advance_lem :
    (cap conns k : ℕ) (p : Phase)
    → 0 < cap
    → conns ≡ k + (if is_holding p then 1 else 0)
    → conns ≤ cap
    → below cap p ≡ true
    → ((advance cap conns p).0 ≡ k + (if is_holding (advance cap conns p).1 then 1 else 0))
      × ((advance cap conns p).0 ≤ cap)
      × (below cap (advance cap conns p).1 ≡ true)
unfolding advance
advance_lem cap conns k before c o h b = ground arith
advance_lem cap conns k (loaded cur) c o h b = ground arith
advance_lem cap conns k holding c o h b = ground arith
advance_lem cap conns k gone c o h b = ground arith

advance-IsBounded :
    (cap conns : ℕ) (ps qs : List Phase) (p : Phase)
    → 0 < cap
    → IsBounded cap (record { conns = conns; callers = ps ++ p ∷ qs })
    → IsBounded cap
        (record { conns = (advance cap conns p).0; callers = ps ++ (advance cap conns p).1 ∷ qs })
advance-IsBounded cap conns ps qs p c (o, h, b) =
    let (o', h', b') =
      advance_lem cap conns (count is_holding ps + count is_holding qs) p c
        (o ∙ count-append is_holding ps (p ∷ qs) ∙ ground arith) h
        (ground (arith, b, all-append (below cap) ps (p ∷ qs))) in
    (
      o' ∙ (ground (arith, count-append is_holding ps ((advance cap conns p).1 ∷ qs))),
      h',
      all-append (below cap) ps ((advance cap conns p).1 ∷ qs)
          ∙ ground (arith, b, all-append (below cap) ps (p ∷ qs), b'),
    )

step-IsBounded : (cap : ℕ) (a b : Pool) → 0 < cap → IsBounded cap a → Step cap a b → IsBounded cap b
step-IsBounded cap _ _ c h (arrive) = h
step-IsBounded cap _ _ c h (turn conns ps qs p) = advance-IsBounded cap conns ps qs p c h

-- With a cap, whatever the interleaving of the callers' loads, swaps and releases, openConns is at every moment the
-- number of connections that hold a slot, and that never exceeds the cap.
pub Run-IsBounded :
    (cap : ℕ) (s : Pool)
    → 0 < cap
    → Run cap s
    → (s.conns ≡ count is_holding s.callers) × (s.conns ≤ cap)
Run-IsBounded cap s c r = let (o, h, _) = go s r in (o, h)
  where
    go : (x : Pool) → Run cap x → IsBounded cap x
    go x start = (refl, ground arith, refl)
    go x (next a s') = step-IsBounded cap _ _ c (go _ a) s'
