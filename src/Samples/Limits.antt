-- ===== src/Samples/Limits.antt =====
-- The theorems on the limits of addresses and connections, and on the registry, at concrete inputs.
use pgmqtt.Prelude.{
  ℕ, ◌-◌, ◌≤◌, ◌≡◌, refl, none, some, [], ◌∷◌, arith, Bytes, codes, length, ltb, count, ◌/◌, ◌+◌,
}
use pgmqtt.Engine.IpLimit.{Net, penalty_box, Entry, Limiter, record_auth_failure, check_ip_limits}
use pgmqtt.Engine.IpLimit.Boxed.{check, failure, gc, run, exhausted_refused}
use pgmqtt.Engine.Rate.{new_rate, passed, IsSteady, passed-le}
use pgmqtt.Engine.Reserve.{
  advance, loaded, Pool, before, holding, is_holding, arrive, turn, Run, start, next, Run-IsBounded,
}

-- Buckets that are never refilled, and addresses by the length of their text.
abbrev toy : Net
toy = record {
  Bucket = ℕ;
  new_bucket = λ n s burst. burst;
  allow = λ now b. (b - 1, ltb 0 b);
  split_host_port = λ s. none;
  parse_addr = λ s. some (length s);
  unmap = λ a. a;
}

abbrev guesser : Bytes
guesser = codes "10.0.0.1"

abbrev spent : Entry toy
spent = record { connect = none; auth = some 0; last_seen = 90; until = none }

abbrev limiter : Limiter toy
limiter = record {
  connects_per_sec = 0;
  auth_failures_per_min = 3;
  penalty = 60;
  gc_idle = 5;
  entries = (8, spent) ∷ [];
}

refused_address_example :
    (check_ip_limits toy 150 guesser (
      run toy
        (check 110 guesser ∷ failure 120 guesser ∷ gc 140 ∷ [])
        (record_auth_failure toy 100 guesser limiter))).1
    ≡ penalty_box
refused_address_example =
    exhausted_refused toy 8 100 150 guesser guesser limiter spent 0
      (check 110 guesser ∷ failure 120 guesser ∷ gc 140 ∷ []) refl refl refl refl refl refl
      (omega arith, (omega arith, (omega arith, tt))) (omega arith) refl

abbrev one_held : Pool
one_held = record { conns = 1; callers = holding ∷ [] }

one_held-Run : Run 2 one_held
unfolding advance
one_held-Run = next (next (next start arrive) (turn 0 [] [] before)) (turn 0 [] [] (loaded 0))

cap_of_two_example : (1 ≡ count is_holding (holding ∷ [])) × (1 ≤ 2)
cap_of_two_example = Run-IsBounded 2 one_held (omega arith) one_held-Run

-- A token for every tenth of the time.
abbrev tenth : ℕ → ℕ
tenth d = d / 10

tenth-IsSteady : IsSteady tenth
tenth-IsSteady x y = omega arith

rate_example : passed tenth 2 (100 ∷ 105 ∷ 130 ∷ []) (new_rate 2 100) ≤ 2 + tenth (130 - 100)
rate_example =
    passed-le tenth 2 100 130 (100 ∷ 105 ∷ 130 ∷ []) tenth-IsSteady (omega arith)
      (omega arith, (omega arith, (omega arith, omega arith)))
