-- ===== src/Engine/Rate.antt =====
-- `tryConsumeRateToken` of internal/engine/conn.go: the token bucket of a connection's PUBLISH and SUBSCRIBE packets.
-- The product of the elapsed seconds and the rate, truncated to a whole number, is computed in floating point;
-- it is the argument `refill`, on nanoseconds.
use pgmqtt.Prelude.{
  ℕ, suc, ◌+◌, ◌-◌, min, ◌≤◌, ◌<◌, ◌≡◌, refl, Bool, true, false, Option, none, some, List, [], ◌∷◌,
  arith, ltb, ◌==◌, if◌then◌else◌, Bool-cases, inl, inr, if_both, subst, sym, ◌∙◌,
}

-- rateTokens and rateLast; the zero time is `none`.
pub record Rate : Type 0 where
  pub tokens : ℕ
  pub last : Option ℕ

-- The bucket of a new connection: full, unless the limit is off.
abbrev pub new_rate : ℕ → ℕ → Rate
new_rate cap now =
    if ltb 0 cap
    then record { tokens = cap; last = some now }
    else record { tokens = 0; last = none }

abbrev pub top_up : (ℕ → ℕ) → ℕ → ℕ → Rate → Option ℕ → Rate
top_up refill cap now r none = record { tokens = cap; last = some now }
top_up refill cap now r (some t) =
    if ltb 0 (refill (now - t))
    then record { tokens = min (r.tokens + refill (now - t)) cap; last = some now }
    else r

abbrev pub spend : Rate → Rate × Bool
spend r = if r.tokens == 0 then (r, false) else (record r { tokens = r.tokens - 1 }, true)

-- A rate of 0 is no limit.
unfoldable pub try_consume_rate_token : (ℕ → ℕ) → ℕ → ℕ → Rate → Rate × Bool
try_consume_rate_token refill cap now r =
    if cap == 0 then (r, true) else spend (top_up refill cap now r r.last)

-- How many of the packets that arrive at these times pass.
unfoldable pub passed : (ℕ → ℕ) → ℕ → List ℕ → Rate → ℕ
passed refill cap [] r = 0
passed refill cap (t ∷ ts) r =
    let (r', ok) = try_consume_rate_token refill cap t r in
    let rest = passed refill cap ts r' in if ok then suc rest else rest

-- What a rate of refilling must satisfy: two intervals yield no more than both together.
abbrev pub IsSteady : (ℕ → ℕ) → Type 0
IsSteady refill = (x y : ℕ) → refill x + refill y ≤ refill (x + y)

-- The times do not decrease, from `l` to `e`.
abbrev pub Ascends : ℕ → ℕ → List ℕ → Type 0
Ascends l e [] = l ≤ e
Ascends l e (t ∷ ts) = (l ≤ t) × Ascends t e ts

Ascends-from : (l t e : ℕ) (ts : List ℕ) → l ≤ t → Ascends t e ts → Ascends l e ts
Ascends-from l t e [] h k = omega (arith, h, k)
Ascends-from l t e (u ∷ ts) h (k, m) = (omega (arith, h, k), m)

ends_after : (l e : ℕ) (ts : List ℕ) → Ascends l e ts → l ≤ e
ends_after l e [] h = h
ends_after l e (t ∷ ts) (h, k) = omega (arith, h, ends_after t e ts k)

module _ (refill : ℕ → ℕ) (steady : IsSteady refill) (cap : ℕ) (positive : 0 < cap) where
  split : (l t e : ℕ) → l ≤ t → t ≤ e → refill (t - l) + refill (e - t) ≤ refill (e - l)
  split l t e h k =
      subst (λ d. refill (t - l) + refill (e - t) ≤ refill d) (omega (arith, h, k))
        (steady (t - l) (e - t))

  -- One call: a token at most, from the tokens there were and those refilled.
  spent :
      (k : ℕ) (r : Rate) (ts : List ℕ)
      → ((r' : Rate) → r'.last ≡ r.last → passed refill cap ts r' ≤ r'.tokens + k)
      → (if (spend r).1
          then suc (passed refill cap ts (spend r).0)
          else passed refill cap ts (spend r).0)
        ≤ r.tokens + k
  spent k r ts h = elim (Bool-cases (r.tokens == 0)) [
    | inl e ↦ rw e (h r refl)
    | inr e ↦ rw e (ground (arith, e, h (record r { tokens = r.tokens - 1 }) refl))
  ]

  passed-from :
      (ts : List ℕ) (l e : ℕ) (r : Rate)
      → r.last ≡ some l
      → Ascends l e ts
      → passed refill cap ts r ≤ r.tokens + refill (e - l)
  unfolding passed try_consume_rate_token
  passed-from [] l e r h a = ground arith
  passed-from (t ∷ ts) l e r h (lt, a) =
      if_both P (cap == 0) (λ z. absurd (ground (arith, z, positive)))
        λ _.
          subst (λ o. P (spend (top_up refill cap t r o))) (sym h)
            (if_both (λ x. P (spend x)) (ltb 0 (refill (t - l)))
              (λ _. omega (
                arith,
                split l t e lt (ends_after t e ts a),
                spent (refill (e - t))
                    (record { tokens = min (r.tokens + refill (t - l)) cap; last = some t }) ts
                    λ r' q. passed-from ts t e r' q a,
              ))
              λ _.
                spent (refill (e - l)) r ts
                  λ r' q. passed-from ts l e r' (q ∙ h) (Ascends-from l t e ts lt a))
    where
      P : Rate × Bool → Type 0
      P x =
          (if x.1 then suc (passed refill cap ts x.0) else passed refill cap ts x.0)
          ≤ r.tokens + refill (e - l)

-- Of the metered packets of a connection that was made at time `t` that arrive by time `e`, in order, no more pass than
-- the rate and what is refilled in the time between, if the limit is on and the refilling steady.
pub passed-le :
    (refill : ℕ → ℕ) (cap t e : ℕ) (ts : List ℕ)
    → IsSteady refill
    → 0 < cap
    → Ascends t e ts
    → passed refill cap ts (new_rate cap t) ≤ cap + refill (e - t)
passed-le refill cap t e ts steady c a =
    if_both (λ r. passed refill cap ts r ≤ cap + refill (e - t)) (ltb 0 cap)
      (λ _. passed-from refill steady cap c ts t e (record { tokens = cap; last = some t }) refl a)
      λ off. absurd (ground (arith, off, c))
