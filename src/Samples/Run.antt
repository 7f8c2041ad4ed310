-- ===== src/Samples/Run.antt =====
-- The theorem on the course of a connection at a concrete input.
use pgmqtt.Prelude.{ℕ, suc, ◌+◌, ◌≡◌, refl, true, false, List, [], ◌∷◌}
use pgmqtt.Engine.Run.{
  PacketKind, connect, publish, pingreq, disconnect, Turn, incoming, undeadlined, enters, handles,
  pongs, ends, shuts, Return, normally, with_error, Handlers, run, serve, dispatch,
}
use pgmqtt.Engine.Run.Course.{is_connect, Entered, run-Course}

abbrev back_of : PacketKind → Return
back_of disconnect = with_error
back_of p = normally

-- Every packet is counted; a DISCONNECT is the only error; the end of the session adds 10 and the shutdown 100.
abbrev counting : Handlers ℕ
counting = record {
  connects = λ n. (n, normally);
  handle = λ p n. (suc n, back_of p);
  take_token = λ n. (n, true);
  pong_fails = λ n. false;
  protocol_of = λ n. 5;
  end_session = λ n. n + 10;
  shutdown = λ n. n + 100;
}

abbrev turns : List Turn
turns = incoming publish ∷ incoming pingreq ∷ incoming disconnect ∷ undeadlined ∷ []

turns_test :
    run counting (incoming connect ∷ turns) 0
    ≡ (112, enters ∷ handles publish ∷ pongs ∷ handles disconnect ∷ ends ∷ shuts ∷ [], true)
unfolding run serve dispatch
turns_test = refl

served_example :
    ((t : Turn)
      → is_connect counting t ≡ false
      → run counting (t ∷ turns) 0 ≡ (100, shuts ∷ [], true))
    × ((run counting (incoming connect ∷ turns) 0).2 ≡ true
        → Entered counting turns
            (0, normally)
            (run counting (incoming connect ∷ turns) 0).1
            (run counting (incoming connect ∷ turns) 0).0)
served_example = run-Course counting turns 0
