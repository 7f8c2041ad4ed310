-- ===== src/Listener/Run/Exits.antt =====
-- When the listener ends the process.
use pgmqtt.Prelude.{
  ℕ, ◌≡◌, ◌↔◌, refl, true, false, Option, List, [], ◌∷◌, Bytes, Bool-cases, inl, inr, ◌⊎◌,
}
use pgmqtt.Listener.Reconnect.{reconnect}
use pgmqtt.Listener.Run.{
  Wait, notified, cancelled, hung_up, broken, Host, exited, heard, recovered, run,
}

-- Some outage among the waits was not overcome.
abbrev pub GivenUp : List Wait → Type 0
GivenUp [] = ⊥
GivenUp (notified n ∷ ws) = GivenUp ws
GivenUp (cancelled ∷ ws) = ⊥
GivenUp (hung_up ∷ ws) = ⊥
GivenUp (broken o stopped fails ∷ ws) =
    (((reconnect o).0 ≡ false) × (stopped ≡ false)) ⊎ (((reconnect o).0 ≡ true) × GivenUp ws)

-- The listener ends the process if and only if, of the outages before the goroutine returns, one was not overcome by any dial
-- while the context was not cancelled.
pub run_exits_iff :
    (parse : Bytes → Option ℕ) (ws : List Wait) (x : Host)
    → ((run parse ws x).1 ≡ exited) ↔ GivenUp ws
unfolding run
run_exits_iff parse [] x = (λ e. cc e, λ g. absurd g)
run_exits_iff parse (notified n ∷ ws) x = run_exits_iff parse ws (heard parse n x)
run_exits_iff parse (cancelled ∷ ws) x = (λ e. cc e, λ g. absurd g)
run_exits_iff parse (hung_up ∷ ws) x = (λ e. cc e, λ g. absurd g)
run_exits_iff parse (broken o stopped fails ∷ ws) x =
    let (gives_up, exits) = run_exits_iff parse ws (recovered fails x) in
    elim (Bool-cases (reconnect o).0) [
      | inl r ↦ (
        λ e. inr (r, gives_up (rw r at e)),
        λ g. elim g [ inl (a, b) ↦ cc (a, r) | inr (a, g') ↦ rw r (exits g') ],
      )
      | inr r ↦ elim (Bool-cases stopped) [
        | inl s ↦ (
          λ e. cc (rw (r, s) at e),
          λ g. elim g [ inl (a, b) ↦ cc (b, s) | inr (a, g') ↦ cc (a, r) ],
        )
        | inr s ↦ (λ e. inl (r, s), λ g. rw (r, s) refl)
      ]
    ]
