-- ===== src/Listener/Reconnect.antt =====
-- `reconnect` of internal/listener/listener.go. Times are in seconds.
pub mod Waits
use pgmqtt.Prelude.{
  ℕ, zero, suc, ◌*◌, min, Bool, true, false, List, [], ◌∷◌, ltb, ◌==◌, if◌then◌else◌,
}

abbrev pub initial_backoff : ℕ
initial_backoff = 1

abbrev pub max_backoff : ℕ
max_backoff = 16

abbrev pub max_attempts : ℕ
max_attempts = 5

-- Whether the n-th dial succeeds, whether the context is cancelled before it, and in the wait after it.
pub record Outage : Type 0 where
  pub dials : ℕ → Bool
  pub gone : ℕ → Bool
  pub stops : ℕ → Bool

abbrev pub next_backoff : ℕ → ℕ
next_backoff b = if ltb b max_backoff then min (b * 2) max_backoff else b

-- Whether it has connected, and the waits that have passed; `left` counts the attempts from the n-th.
unfoldable pub attempts : Outage → ℕ → ℕ → ℕ → Bool × List ℕ
attempts o zero n backoff = (false, [])
attempts o (suc left) n backoff =
    let rest = attempts o left (suc n) (next_backoff backoff) in
    if o.gone n
    then (false, [])
    else if o.dials n
    then (true, [])
    else if n == max_attempts
    then (false, [])
    else if o.stops n
    then (false, [])
    else (rest.0, backoff ∷ rest.1)

unfoldable pub reconnect : Outage → Bool × List ℕ
unfolding attempts
reconnect o = attempts o max_attempts 1 initial_backoff
