-- ===== src/Engine/Shutdown/Unlinked.antt =====
-- Which connections are found after some have been shut down.
use pgmqtt.Prelude.{
  ℕ, ◌≡◌, refl, sym, ap, ◌∙◌, subst, inl, inr, Bool, true, false, not, ◌&&◌, ◌||◌, Option, none,
  some, List, [], ◌∷◌, arith, Bytes, same, same_self, same_iff, any, is_empty, keep, ◌==◌,
  if◌then◌else◌, Bool-cases, ==_iff,
}
use pgmqtt.Engine.Db.{Db, Session}
use pgmqtt.Engine.Registry.{Registry, conn_for, conn_for-keep, unregister_conn_if_same}
use pgmqtt.Engine.Session.{Life}
use pgmqtt.Engine.Shutdown.{
  Conns, shut, close_conn, with_conn, is_registered, is_elsewhere, orphans, close_each,
  sweep_orphaned_sockets,
}

-- Each connection that is found under a client id is of that client, which has a name, and is open.
pub record IsLinked (h : Conns) : Type 0 where
  pub named :
      (client : Bytes) (c : ℕ) → conn_for client h.registry ≡ some c → (h.life c).client ≡ client
  pub real :
      (client : Bytes) (c : ℕ) → conn_for client h.registry ≡ some c → is_empty client ≡ false
  pub alive :
      (client : Bytes) (c : ℕ) → conn_for client h.registry ≡ some c → (h.life c).closing ≡ false

none-removed :
    (client : Bytes) (rs : Registry) → conn_for client (keep (λ r. not (same r.0 client)) rs) ≡ none
none-removed client [] = refl
none-removed client ((j, x) ∷ rs) = ground (arith, none-removed client rs)

-- What is found after a connection has been taken out that its client is registered with.
conn_for-unregister :
    (client k : Bytes) (c : ℕ) (rs : Registry)
    → conn_for k rs ≡ some c
    → conn_for client (unregister_conn_if_same k c rs)
      ≡ (if same k client then none else conn_for client rs)
unfolding unregister_conn_if_same
conn_for-unregister client k c rs e =
    rw (e, (==_iff c c).1 refl)
      (elim (Bool-cases (same k client)) [
        | inl s ↦ rw s (
            subst (λ j. conn_for client (keep (λ r. not (same r.0 j)) rs) ≡ none)
              (sym ((same_iff k client).0 s)) (none-removed client rs))
        | inr s ↦ rw s (conn_for-keep client k rs s)
      ])

-- A connection that is found is shut down: its client is not found any more, every other is as before.
pub conn_for-close_conn :
    (h : Conns) (k : Bytes) (c : ℕ)
    → IsLinked h
    → conn_for k h.registry ≡ some c
    → (client : Bytes)
    → conn_for client (close_conn c h).registry
      ≡ (if same k client then none else conn_for client h.registry)
conn_for-close_conn h k c l e client =
    rw (l.alive k c e, l.named k c e, l.real k c e) (conn_for-unregister client k c h.registry e)

pub close_conn-IsLinked :
    (h : Conns) (k : Bytes) (c : ℕ)
    → IsLinked h
    → conn_for k h.registry ≡ some c
    → IsLinked (close_conn c h)
close_conn-IsLinked h k c l e = record {
  named = λ client d f.
      let (apart, g) = before client d f in
      life_after d (λ x. x.client ≡ client) (λ _. l.named client d g) (l.named client d g);
  real = λ client d f. let (apart, g) = before client d f in l.real client d g;
  alive = λ client d f.
      let (apart, g) = before client d f in
      life_after d (λ x. x.closing ≡ false) (λ m. absurd (other client d g apart m))
        (l.alive client d g);
}
  where
    life_after :
        (d : ℕ) (P : Life → Type 0)
        → (d ≡ c → P (shut (h.life d)))
        → P (h.life d)
        → P ((close_conn c h).life d)
    life_after d P x y = rw (l.alive k c e) (by_test (d == c) refl)
      where
        by_test : (b : Bool) → (d == c) ≡ b → P (if b then shut (h.life d) else h.life d)
        by_test true m = x ((==_iff d c).0 m)
        by_test false m = y

    after :
        (client : Bytes) (b : Bool)
        → same k client ≡ b
        → conn_for client (close_conn c h).registry
          ≡ (if b then none else conn_for client h.registry)
    after client b s = conn_for-close_conn h k c l e client ∙ rw s refl

    before :
        (client : Bytes) (d : ℕ)
        → conn_for client (close_conn c h).registry ≡ some d
        → (same k client ≡ false) × (conn_for client h.registry ≡ some d)
    before client d f = elim (Bool-cases (same k client)) [
      | inl s ↦ cc (f, after client true s)
      | inr s ↦ (s, sym (after client false s) ∙ f)
    ]

    other :
        (client : Bytes) (d : ℕ)
        → conn_for client h.registry ≡ some d
        → same k client ≡ false
        → ¬ (d ≡ c)
    other client d g apart m = cc (l.named client d g, l.named k c e, m, apart, same_self k)

-- The sweep's list of clients.
orphaned : ℕ → Registry → List Session → Bytes → Bool
orphaned self rs ss client =
    any (λ s. is_registered rs s.client && is_elsewhere self s.broker && same s.client client) ss

orphans-orphaned :
    (self : ℕ) (rs : Registry) (ss : List Session) (client : Bytes)
    → any (λ k. same k client) (orphans self rs ss) ≡ orphaned self rs ss client
unfolding orphans orphaned
orphans-orphaned self rs [] client = refl
orphans-orphaned self rs (s ∷ ss) client = ground (arith, orphans-orphaned self rs ss client)

registered :
    (client : Bytes) (rs : Registry) → is_registered rs client ≡ false → conn_for client rs ≡ none
registered client [] h = refl
registered client ((k, c) ∷ rs) h = ground (arith, registered client rs, h)

conn_for-close_each :
    (ks : List Bytes) (h : Conns)
    → IsLinked h
    → (client : Bytes)
    → conn_for client (close_each ks h).registry
      ≡ (if any (λ k. same k client) ks then none else conn_for client h.registry)
unfolding close_each
conn_for-close_each [] h l client = refl
conn_for-close_each (k ∷ ks) h l client =
    by_conn (λ x y. conn_for-close_each ks x y client) (conn_for k h.registry) refl
  where
    by_conn :
        ((x : Conns)
          → IsLinked x
          → conn_for client (close_each ks x).registry
            ≡ (if any (λ k. same k client) ks then none else conn_for client x.registry))
        → (o : Option ℕ) → conn_for k h.registry ≡ o
        → conn_for client (close_each ks (with_conn close_conn o h)).registry ≡ (
            if same k client || any (λ k. same k client) ks
            then none
            else conn_for client h.registry)
    by_conn rest none e = rest h l ∙ elim (Bool-cases (same k client)) [
      | inl s ↦ ground (arith, s, sym e ∙ ap (λ j. conn_for j h.registry) ((same_iff k client).0 s))
      | inr s ↦ ground (arith, s)
    ]
    by_conn rest (some c) e =
        rest (close_conn c h) (close_conn-IsLinked h k c l e)
        ∙ ground (arith, conn_for-close_conn h k c l e client)

elsewhere : ℕ → List Session → Bytes → Bool
elsewhere self ss client = any (λ s. is_elsewhere self s.broker && same s.client client) ss

orphaned-registered :
    (self : ℕ) (rs : Registry) (ss : List Session) (client : Bytes)
    → is_registered rs client ≡ true
    → orphaned self rs ss client ≡ elsewhere self ss client
unfolding orphaned elsewhere
orphaned-registered self rs [] client h = refl
orphaned-registered self rs (s ∷ ss) client h = elim (Bool-cases (same s.client client)) [
  | inl e ↦ ground (
    arith,
    e,
    orphaned-registered self rs ss client h,
    h,
    ap (is_registered rs) ((same_iff s.client client).0 e),
  )
  | inr e ↦ ground (arith, e, orphaned-registered self rs ss client h)
]

-- If the broker has its id and the query does not fail, the ownership sweep shuts down the connection of each client
-- whose session another broker owns, and no other: such a client is not found any more, and every other is found as before.
pub sweep_orphaned_sockets_exact :
    (self : ℕ) (db : Db) (h : Conns) (client : Bytes)
    → IsLinked h
    → conn_for client (sweep_orphaned_sockets false (some self) db h).registry ≡ (
        if any (λ s. is_elsewhere self s.broker && same s.client client) db.sessions
        then none
        else conn_for client h.registry)
unfolding sweep_orphaned_sockets elsewhere
sweep_orphaned_sockets_exact self db h client l =
    conn_for-close_each (orphans self h.registry db.sessions) h l client
    ∙ ap (λ b. if b then none else conn_for client h.registry)
        (orphans-orphaned self h.registry db.sessions client)
    ∙ elim (Bool-cases (is_registered h.registry client)) [
      | inl e ↦
          ap (λ b. if b then none else conn_for client h.registry)
            (orphaned-registered self h.registry db.sessions client e)
      | inr e ↦ ground (arith, registered client h.registry e)
    ]
