-- ===== src/Engine/Outbound/Fan/Isolated.antt =====
-- What the delivery of a message leaves alone.
use pgmqtt.Prelude.{
  ℕ, ◌≡◌, refl, sym, ap, ◌∙◌, subst, inl, inr, Bool, true, false, not, Option, none, some, List, [],
  ◌∷◌, arith, Bytes, same, same_iff, keep, any, ◌==◌, if◌then◌else◌, Bool-cases, if_both,
}
use pgmqtt.Engine.Db.{Db, Delivery}
use pgmqtt.Engine.Outbound.{Conn, Item, World}
use pgmqtt.Engine.Outbound.Deliver.{deliver_one}
use pgmqtt.Engine.Outbound.Drain.{find_message}
use pgmqtt.Engine.Outbound.Fan.{
  scan_message, Fleet, find_conn, put_conn, deliver_to, deliver_each, deliver,
}
use pgmqtt.Engine.Outbound.Fan.Framed.{deliver_one-Framed}

find_conn-client :
    (client : Bytes) (cs : List Conn) (c : Conn) → find_conn client cs ≡ some c → c.client ≡ client
find_conn-client client [] c e = cc e
find_conn-client client (x ∷ xs) c e = elim (Bool-cases (same x.client client)) [
  | inl m ↦ ap_client (rw m at e) ((same_iff x.client client).0 m)
  | inr m ↦ find_conn-client client xs c (rw m at e)
]
  where
    ap_client : some x ≡ some c → x.client ≡ client → c.client ≡ client
    ap_client e m = cc (e, m)

find_conn-put_conn :
    (client : Bytes) (c : Conn) (cs : List Conn)
    → same c.client client ≡ false
    → find_conn client (put_conn c cs) ≡ find_conn client cs
find_conn-put_conn client c [] h = refl
find_conn-put_conn client c (x ∷ xs) h = elim (Bool-cases (same x.client c.client)) [
  | inl m ↦
      rw (m, h, subst (λ k. same k client ≡ false) (sym ((same_iff x.client c.client).0 m)) h) refl
  | inr m ↦
      rw m (ap (λ o. if same x.client client then some x else o) (find_conn-put_conn client c xs h))
]

abbrev pub is_scanned : List (Bytes × Item) → Delivery → Bool
is_scanned is d = any (λ x. d.id == x.1.id) is

abbrev pub is_addressed : List (Bytes × Item) → Bytes → Bool
is_addressed is client = any (λ x. same x.0 client) is

module _ (at : ℕ → World) where
  rows-deliver_to :
      (p : Delivery → Bool) (i : Item) (s : Fleet) (o : Option Conn)
      → ((d : Delivery) → d.id == i.id ≡ true → p d ≡ false)
      → keep p (deliver_to (at i.id) i s o).rows ≡ keep p s.rows
  rows-deliver_to p i s none h = refl
  rows-deliver_to p i s (some c) h =
      (deliver_one-Framed p i h (record (at i.id) { online = true }) (record c { rows = s.rows })).0

  rows-deliver_each :
      (p : Delivery → Bool) (is : List (Bytes × Item)) (s : Fleet)
      → ((d : Delivery) → is_scanned is d ≡ true → p d ≡ false)
      → keep p (deliver_each at is s).rows ≡ keep p s.rows
  unfolding deliver_each
  rows-deliver_each p [] s h = refl
  rows-deliver_each p ((client, i) ∷ is) s h =
      rows-deliver_each p is (deliver_to (at i.id) i s (find_conn client s.conns))
        (λ d k. h d (ground (arith, k)))
      ∙ rows-deliver_to p i s (find_conn client s.conns) λ d k. h d (ground (arith, k))

  conns-deliver_to :
      (client other : Bytes) (i : Item) (s : Fleet) (o : Option Conn)
      → find_conn other s.conns ≡ o
      → same other client ≡ false
      → find_conn client (deliver_to (at i.id) i s o).conns ≡ find_conn client s.conns
  conns-deliver_to client other i s none e h = refl
  conns-deliver_to client other i s (some c) e h =
      find_conn-put_conn client (deliver_one w i view).0 s.conns
        (subst (λ k. same k client ≡ false) (sym (kept ∙ find_conn-client other s.conns c e)) h)
    where
      w : World
      w = record (at i.id) { online = true }

      view : Conn
      view = record c { rows = s.rows }

      kept : (deliver_one w i view).0.client ≡ c.client
      kept = (deliver_one-Framed (λ d. false) i (λ d k. refl) w view).1

  conns-deliver_each :
      (client : Bytes) (is : List (Bytes × Item)) (s : Fleet)
      → is_addressed is client ≡ false
      → find_conn client (deliver_each at is s).conns ≡ find_conn client s.conns
  unfolding deliver_each
  conns-deliver_each client [] s h = refl
  conns-deliver_each client ((other, i) ∷ is) s h =
      conns-deliver_each client is (deliver_to (at i.id) i s (find_conn other s.conns))
        (ground (arith, h))
      ∙ conns-deliver_to client other i s (find_conn other s.conns) refl (ground (arith, h))

-- `Deliver` changes nothing but what it has scanned, whatever fails: the rows whose id is none of the scanned deliveries' are as
-- before, and so is the connection of each client that has none of them; and if the scan fails, everything is.
pub deliver_isolated :
    (fails : Bool) (now self : ℕ) (at : ℕ → World) (db : Db) (id : ℕ) (conns : List Conn)
    → let is = scan_message now self db (find_message id db.messages) in
      let s = (deliver fails now self at db id conns).0 in
      (keep (λ d. not (is_scanned is d)) s.rows ≡ keep (λ d. not (is_scanned is d)) db.deliveries)
      × ((client : Bytes)
          → is_addressed is client ≡ false
          → find_conn client s.conns ≡ find_conn client conns)
      × (fails ≡ true → s ≡ record { rows = db.deliveries; conns = conns })
unfolding deliver
deliver_isolated fails now self at db id conns =
    if_both (λ (x : Fleet × Bool). Isolated x.0) fails (λ e. (refl, λ client h. refl, λ f. refl))
      λ works. (
        rows-deliver_each at (λ d. not (is_scanned is d)) is start (λ d h. rw h refl),
        λ client h. conns-deliver_each at client is start h,
        λ f. cc (f, works),
      )
  where
    is : List (Bytes × Item)
    is = scan_message now self db (find_message id db.messages)

    start : Fleet
    start = record { rows = db.deliveries; conns = conns }

    Isolated : Fleet → Type 0
    Isolated s =
        (keep (λ d. not (is_scanned is d)) s.rows ≡ keep (λ d. not (is_scanned is d)) db.deliveries)
        × ((client : Bytes)
            → is_addressed is client ≡ false
            → find_conn client s.conns ≡ find_conn client conns)
        × (fails ≡ true → s ≡ start)
