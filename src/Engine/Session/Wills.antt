-- ===== src/Engine/Session/Wills.antt =====
-- When wills are published, and what a DISCONNECT may change.
use pgmqtt.Prelude.{
  ℕ, ◌+◌, ◌≤◌, ◌<◌, ◌≡◌, ◌≢◌, refl, ap, ◌∙◌, subst, min, Bool, not, ◌&&◌, ◌||◌, Option, none, some,
  arith, is_empty, ◌==◌, if◌then◌else◌, if_both,
}
use pgmqtt.Engine.Db.{Db}
use pgmqtt.Engine.Publish.{Env}
use pgmqtt.Engine.Inbound.{mqtt5}
use pgmqtt.Engine.Session.{
  Life, mqtt311, max_uint32, or_zero, is_will, Timing, now, no_will, at, delayed, will_timing,
  Lifetime, deleted, kept, lifetime, Faults, fire_now, end_session, handle_disconnect,
  override_expiry, handle_graceful_disconnect,
}

-- The time of a scheduled will lies ahead, in a session that is kept until then or for ever.
abbrev pub Lasts : ℕ → ℕ → Lifetime → Type 0
Lasts clock t deleted = ⊥
Lasts clock t (kept none) = clock < t
Lasts clock t (kept (some u)) = (clock < t) × (t ≤ u)

abbrev Scheduled : ℕ → Timing → Lifetime → Type 0
Scheduled clock now k = Unit
Scheduled clock no_will k = Unit
Scheduled clock (at t) k = Lasts clock t k

ahead_of_clock :
    (clock delay expiry : ℕ)
    → Scheduled clock (delayed clock (min delay expiry)) (
        if expiry == 0
        then deleted
        else if expiry == max_uint32
        then kept none
        else kept (some (clock + expiry)))
ahead_of_clock clock delay expiry =
    if_both
      (λ t. Scheduled clock t (
        if expiry == 0
        then deleted
        else if expiry == max_uint32
        then kept none
        else kept (some (clock + expiry))))
      (min delay expiry == 0) (λ _. tt)
      λ e.
        if_both (λ k. Scheduled clock (at (clock + min delay expiry)) k) (expiry == 0)
          (λ z. absurd (ground (arith, e, z)))
          λ _.
            if_both (λ k. Scheduled clock (at (clock + min delay expiry)) k) (expiry == max_uint32)
              (λ _. ground (arith, e)) λ _. (ground (arith, e), omega arith)

timing-Scheduled : (clock : ℕ) (l : Life) → Scheduled clock (will_timing clock l) (lifetime clock l)
unfolding will_timing lifetime
timing-Scheduled clock l =
    if_both (λ t. Scheduled clock t (lifetime clock l)) (is_will l.will && not l.taken_over)
      (λ _.
        if_both (λ t. Scheduled clock t (lifetime clock l)) (l.protocol == mqtt5)
          (λ v. rw v (
            if_both
              (λ k.
                Scheduled clock (delayed clock (min (or_zero l.will_delay) (or_zero l.expiry))) k)
              (l.protocol == mqtt311) (λ e. absurd (ground (arith, e, v)))
              λ _. ahead_of_clock clock (or_zero l.will_delay) (or_zero l.expiry)))
          λ _. tt)
      λ _. tt

-- If a will is scheduled rather than published at once, its time lies ahead, and the session is kept at least
-- until then: no will is due after its session has ended.
pub will_timing-Lasts :
    (clock t : ℕ) (l : Life) → will_timing clock l ≡ at t → Lasts clock t (lifetime clock l)
will_timing-Lasts clock t l e =
    subst (λ x. Scheduled clock x (lifetime clock l)) e (timing-Scheduled clock l)

-- With no will there is none to publish.
no_timing : (clock : ℕ) (l : Life) → l.will ≡ none → will_timing clock l ≡ no_will
unfolding will_timing
no_timing clock l h = rw h refl

end-messages :
    (f : Faults) (l : Life) (t : Timing) (b : Bool) (k : Lifetime) (db : Db)
    → (end_session f l t b k db).messages ≡ db.messages
end-messages f l t b deleted db =
    if_both (λ (x : Db). x.messages ≡ db.messages) f.deletion (λ _. refl) λ _. ground arith
end-messages f l t b (kept u) db =
    if_both (λ (x : Db). x.messages ≡ db.messages) f.update (λ _. refl) λ _. refl

silent :
    (env : Env) (f : Faults) (clock : ℕ) (l : Life) (db : Db)
    → l.will ≡ none
    → (handle_disconnect env f clock l db).messages ≡ db.messages
unfolding handle_disconnect
silent env f clock l db h =
    if_both (λ (x : Db). x.messages ≡ db.messages) (l.closing || is_empty l.client) (λ _. refl)
      λ _.
        end-messages f l (will_timing clock l) _ (lifetime clock l) _
        ∙ ap (λ t. (fire_now env f.will t l.will db).0.messages) (no_timing clock l h)

override-will : (l : Life) (o : Option ℕ) → (override_expiry l o).0.will ≡ l.will
override-will l none = refl
override-will l (some v) = ground arith

override-expiry :
    (l : Life) (o : Option ℕ) → or_zero l.expiry ≡ 0 → or_zero (override_expiry l o).0.expiry ≡ 0
override-expiry l none h = h
override-expiry l (some v) h = ground (arith, h)

-- A DISCONNECT with any reason but 0x04 drops the will: when the connection ends no message is published. And
-- whatever its reason, it cannot give a session that ends with the connection a longer life.
pub handle_graceful_disconnect-silent :
    (env : Env) (f : Faults) (clock reason : ℕ) (expiry : Option ℕ) (l : Life) (db : Db)
    → (reason ≢ 4
        → (handle_disconnect env f clock (handle_graceful_disconnect reason expiry l).0 db).messages
          ≡ db.messages)
      × (or_zero l.expiry ≡ 0 → or_zero (handle_graceful_disconnect reason expiry l).0.expiry ≡ 0)
unfolding handle_graceful_disconnect
handle_graceful_disconnect-silent env f clock reason expiry l db = (
  λ r.
      silent env f clock (handle_graceful_disconnect reason expiry l).0 db
        (override-will (left reason) expiry ∙ dropped r),
  λ z. override-expiry (left reason) expiry (
      if_both (λ (x : Life). or_zero x.expiry ≡ 0) (l.protocol == mqtt5 && reason == 4) (λ _. z)
        λ _. z),
)
  where
    left : ℕ → Life
    left r = if l.protocol == mqtt5 && r == 4 then l else record l { will = none }

    dropped :
        reason ≢ 4
        → (if l.protocol == mqtt5 && reason == 4 then l else record l { will = none }).will ≡ none
    dropped r =
        if_both (λ (x : Life). x.will ≡ none) (l.protocol == mqtt5 && reason == 4)
          (λ e. absurd (r (ground (arith, e)))) λ _. refl
