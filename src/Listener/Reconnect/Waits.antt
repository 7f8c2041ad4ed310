-- ===== src/Listener/Reconnect/Waits.antt =====
-- How long a broker goes on trying to connect again.
use pgmqtt.Prelude.{ℕ, ◌≡◌, Bool, true, false, ◌||◌, List, [], ◌∷◌, take, length, arith}
use pgmqtt.Listener.Reconnect.{Outage, attempts, reconnect}

abbrev pub any_dial : Outage → Bool
any_dial o = o.dials 1 || o.dials 2 || o.dials 3 || o.dials 4 || o.dials 5

abbrev pub doubling : List ℕ
doubling = 1 ∷ 2 ∷ 4 ∷ 8 ∷ []

-- `reconnect` succeeds only if one of the first five dials does, and the waits that it goes through are the first
-- few of 1, 2, 4 and 8 seconds, whatever is cancelled. If the context is not cancelled, it succeeds exactly if one of the five dials does;
-- it goes through all four waits if none does, and through no wait if the first does.
pub reconnect_lem :
    (o : Outage)
    → ((reconnect o).0 ≡ true → any_dial o ≡ true)
      × ((reconnect o).1 ≡ take (length (reconnect o).1) doubling)
      × (((n : ℕ) → o.gone n ≡ false)
          → ((n : ℕ) → o.stops n ≡ false)
          → ((reconnect o).0 ≡ any_dial o)
            × (any_dial o ≡ false → (reconnect o).1 ≡ doubling)
            × (o.dials 1 ≡ true → (reconnect o).1 ≡ []))
unfolding reconnect attempts
reconnect_lem o = (
  ground arith,
  ground arith,
  λ g s. (
    ground (arith, g 1, g 2, g 3, g 4, g 5, s 1, s 2, s 3, s 4),
    λ none_dials. ground (arith, g 1, g 2, g 3, g 4, g 5, s 1, s 2, s 3, s 4, none_dials),
    λ first. ground (arith, g 1, first),
  ),
)
