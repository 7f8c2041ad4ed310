-- ===== src/Engine/Connect/Stranded.antt =====
-- A CONNECT whose CONNACK cannot be written.
use pgmqtt.Prelude.{
  ◌≡◌, ◌≢◌, refl, ap, ◌∙◌, true, false, not, none, some, [], ◌∷◌, arith, Bytes, same, any, keep,
  ◌==◌, Bool-cases, inl, inr, if_both,
}
use pgmqtt.Engine.Registry.{Registry, conn_for, unregister_conn_if_same}
use pgmqtt.Engine.Connect.{Connect, Policy, UserRow, Compare, pass, checks}
use pgmqtt.Engine.Connect.Handshake.{
  Broker, Reply, refused, unanswered, accepted, ConnectFaults, Setting, shut_down, close_unaccepted,
  handle_connect,
}
use pgmqtt.Engine.Connect.Entered.{is_live, handle_connect-enters}

conn_for-others :
    (client : Bytes) (rs : Registry) → conn_for client (keep (λ r. not (same r.0 client)) rs) ≡ none
conn_for-others client [] = refl
conn_for-others client ((k, x) ∷ rs) = elim (Bool-cases (same k client)) [
  | inl e ↦ rw e (conn_for-others client rs)
  | inr e ↦ rw (e, e) (conn_for-others client rs)
]

shut_down-gone :
    (client : Bytes) (s : Setting) (rs : Registry)
    → client ≢ []
    → conn_for client rs ≡ some s.conn
    → conn_for client (shut_down client s.conn rs) ≡ none
unfolding unregister_conn_if_same
shut_down-gone [] s rs n h = absurd (n refl)
shut_down-gone (b ∷ bs) s rs n h = rw h (
    if_both (λ (r : Registry). conn_for (b ∷ bs) r ≡ none) (s.conn == s.conn)
      (λ _. conn_for-others (b ∷ bs) rs) λ bad. ground (arith, bad))

closed :
    (client : Bytes) (s : Setting) (x : Broker × Reply)
    → client ≢ []
    → x.1 ≡ unanswered
    → conn_for client x.0.registry ≡ some s.conn
    → (conn_for client (close_unaccepted client s x).0.registry ≡ none)
      × ((close_unaccepted client s x).0.db ≡ x.0.db)
unfolding close_unaccepted
closed client s (b, refused r) n e h = cc
closed client s (b, unanswered) n e h = (shut_down-gone client s b.registry n h, refl)
closed client s (b, accepted l c) n e h = cc

-- If the CONNACK of a CONNECT that passes the checks cannot be written, the connection is closed and no longer found
-- for its client, but its session's row still says that this broker has it, connected, with the new token
-- and no timer: the session of a closed connection.
pub handle_connect-strands :
    (p : Policy) (compares : Compare) (users : Bytes → UserRow) (s : Setting) (f : ConnectFaults)
    (pk : Connect) (b : Broker) (client : Bytes)
    → checks p compares users s.made_up pk ≡ pass client
    → client ≢ []
    → f.ownership ≡ false
    → f.cleanup ≡ false
    → f.connack ≡ true
    → let x = close_unaccepted client s (handle_connect p compares users s f pk b) in
      (conn_for client x.0.registry ≡ none)
      × (any (is_live client p.self s.token) x.0.db.sessions ≡ true)
handle_connect-strands p compares users s f pk b client passed n own clean cut =
    let (entered, lost, _) =
      handle_connect-enters p compares users s f pk b client passed own clean in
    let (none_found, same_db) =
      closed client s (handle_connect p compares users s f pk b) n (lost cut) entered.found in
    (none_found, ap (λ db. any (is_live client p.self s.token) db.sessions) same_db ∙ entered.live)
