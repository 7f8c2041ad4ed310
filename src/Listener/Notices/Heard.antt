-- ===== src/Listener/Notices/Heard.antt =====
-- What becomes of the notices that one broker sends another.
use pgmqtt.Prelude.{
  ℕ, ◌≡◌, ◌≢◌, refl, sym, ap, ◌∙◌, subst, Bool, true, false, Option, none, some, ◌++◌, Bytes, same,
  same_self, same_iff, length, take, drop, ltb, ◌==◌, if◌then◌else◌, Bool-cases, inl, inr, arith,
  ==_iff, length-append, take-length-append, drop-length-append, if_both,
}
use pgmqtt.Engine.Registry.{conn_for}
use pgmqtt.Engine.Session.{Life}
use pgmqtt.Engine.Shutdown.{
  Conns, set_life, superseded, close_for_takeover, with_conn, if_token, quota_exceeded_for_token,
}
use pgmqtt.Engine.Shutdown.Unlinked.{IsLinked, conn_for-close_conn}
use pgmqtt.Engine.Shutdown.Kicked.{close_conn-closes, close_conn-keeps_mark}
use pgmqtt.Listener.Notices.{
  pub_channel, takeover_channel, quota_channel, takeover_notice, quota_notice,
  parse_takeover_payload, split_at_token, hear_takeover, hear_quota, dispatch_notification,
}

-- The connection is marked and shut down, and nothing else.
abbrev pub Replaced : Conns → Bytes → ℕ → Conns → Type 0
Replaced h client c h' =
    ((other : Bytes)
      → conn_for other h'.registry
        ≡ (if same client other then none else conn_for other h.registry))
    × ((h'.life c).taken_over ≡ true)
    × ((h'.life c).closing ≡ true)

either :
    (P : Life → Type 0) (b : Bool) (x : Life)
    → P (superseded x)
    → P x
    → P (if b then superseded x else x)
either P true x p q = p
either P false x p q = q

replaces :
    (h : Conns) (client : Bytes) (c : ℕ)
    → IsLinked h
    → conn_for client h.registry ≡ some c
    → Replaced h client c (close_for_takeover c h)
replaces h client c l e = (
  λ other. conn_for-close_conn marked client c linked e other,
  close_conn-keeps_mark marked c (linked.alive client c e) ∙ rw ((==_iff c c).1 refl) refl,
  close_conn-closes marked c (linked.alive client c e),
)
  where
    marked : Conns
    marked = set_life c superseded h

    linked : IsLinked marked
    linked = record {
      named =
          λ k d f. either (λ x. x.client ≡ k) (d == c) (h.life d) (l.named k d f) (l.named k d f);
      real = l.real;
      alive = λ k d f.
          either (λ x. x.closing ≡ false) (d == c) (h.life d) (l.alive k d f) (l.alive k d f);
    }

-- Texts of different lengths differ.
apart : (a b : Bytes) → length a ≢ length b → same a b ≡ false
apart a b h = elim (Bool-cases (same a b)) [
  | inl e ↦ absurd (h (ap length ((same_iff a b).0 e)))
  | inr e ↦ e
]

module _ (print : ℕ → Bytes) (parse : Bytes → Option ℕ) (fixed : (t : ℕ) → length (print t) ≡ 36)
    (parses : (t : ℕ) → parse (print t) ≡ some t) where
  take-print : (t : ℕ) (client : Bytes) → take 36 (print t ++ client) ≡ print t
  take-print t client =
      subst (λ n. take n (print t ++ client) ≡ print t) (fixed t)
        (take-length-append (print t) client)

  drop-print : (t : ℕ) (client : Bytes) → drop 36 (print t ++ client) ≡ client
  drop-print t client =
      subst (λ n. drop n (print t ++ client) ≡ client) (fixed t)
        (drop-length-append (print t) client)

  -- The payload of a notice is split into what it was made of.
  payload_splits :
      (t : ℕ) (client : Bytes) → parse_takeover_payload parse (print t ++ client) ≡ (some t, client)
  unfolding parse_takeover_payload
  payload_splits t client =
      if_both (λ (x : Option ℕ × Bytes). x ≡ (some t, client)) (ltb (length (print t ++ client)) 36)
        (λ short. absurd (ground (arith, short, length-append (print t) client, fixed t)))
        λ _.
          ap (λ b. split_at_token parse (print t ++ client) (parse b)) (take-print t client)
          ∙ ap (split_at_token parse (print t ++ client)) (parses t)
          ∙ ap (λ b. (some t, b)) (drop-print t client)

  takeover-apart : (id : Bytes) → same (takeover_channel id) (pub_channel id) ≡ false
  takeover-apart id = apart (takeover_channel id) (pub_channel id) λ e. absurd (omega (arith, e))

  quota-apart : (id : Bytes) → same (quota_channel id) (pub_channel id) ≡ false
  quota-apart id = apart (quota_channel id) (pub_channel id) λ e. absurd (omega (arith, e))

  -- If the text of a UUID has 36 bytes and is parsed back: a notice that NotifyTakeover or NotifyQuota sends a broker
  -- asks that broker for the takeover, or the kick, of the client's connection if it has the token that the notice
  -- names, whatever bytes the client id has, and for nothing else.
  pub dispatch-notices :
      (id client : Bytes) (token : ℕ) (h : Conns)
      → (dispatch_notification parse id (takeover_notice print id client token) h
          ≡ (with_conn (if_token token close_for_takeover) (conn_for client h.registry) h, none))
        × (dispatch_notification parse id (quota_notice print id client token) h
            ≡ (quota_exceeded_for_token client token h, none))
  unfolding dispatch_notification
  dispatch-notices id client token h = (
    rw (takeover-apart id, same_self (takeover_channel id))
        (ap (λ x. (hear_takeover parse x h, none)) (payload_splits token client)),
    rw (quota-apart id, same_self id)
        (ap (λ x. (hear_quota parse x h, none)) (payload_splits token client)),
  )

  -- A takeover notice, on the broker that has a connection of the client: if the connection has the token that the notice
  -- names, it is marked as taken over and shut down, and not found any more, while every other client is found as
  -- before; if it has another token, nothing changes.
  pub takeover_notice_exact :
      (id client : Bytes) (token c : ℕ) (h : Conns)
      → IsLinked h
      → conn_for client h.registry ≡ some c
      → let h' = (dispatch_notification parse id (takeover_notice print id client token) h).0 in
        ((h.life c).token ≡ token → Replaced h client c h') × ((h.life c).token ≢ token → h' ≡ h)
  takeover_notice_exact id client token c h l e =
      subst Outcome
        (sym (
          ap (λ x. x.0) (dispatch-notices id client token h).0
          ∙ ap (λ o. with_conn (if_token token close_for_takeover) o h) e))
        (
          λ t.
              if_both (Replaced h client c) ((h.life c).token == token)
                (λ _. replaces h client c l e) λ n. ground (arith, t, n),
          λ other.
              if_both (λ x. x ≡ h) ((h.life c).token == token)
                (λ m. absurd (other ((==_iff _ token).0 m))) λ _. refl,
        )
    where
      Outcome : Conns → Type 0
      Outcome h' =
          ((h.life c).token ≡ token → Replaced h client c h') × ((h.life c).token ≢ token → h' ≡ h)
