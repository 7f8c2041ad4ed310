-- ===== src/Engine/Inbound/Slots.antt =====
-- The slots of inbound flow control against the rows of inbound_qos2.
use pgmqtt.Prelude.{
  ℕ, zero, suc, ◌+◌, ◌≤◌, ◌≡◌, refl, sym, ap, ◌∙◌, subst, inl, inr, ℤ, pos, negsuc, increment,
  decrement, IsDiff, increment-IsDiff, decrement-IsDiff, Bool, true, false, not, ◌&&◌, Option, none,
  some, List, ◌∷◌, arith, Bytes, count-none, count-some, count-keep, count-keep-le, same, same_self,
  keep, count, ◌==◌, if◌then◌else◌, Bool-cases, if_both, ==_iff,
}
use pgmqtt.Wire.Topic.{TopicError, validate_topic_name}
use pgmqtt.Engine.Db.{Db, is_pair, has_inbound, delete_inbound}
use pgmqtt.Engine.Publish.{Env}
use pgmqtt.Engine.Inbound.{
  mqtt5, Result, Peer, Packet, Faults, PubrelFaults, State, checked, release, occupy, takes_slot,
  exceeds, with_topic, handle_publish, handle_pubrel,
}
use pgmqtt.Engine.Inbound.Checked.{Kept, checked-Kept}

-- The client's packets that wait for PUBREL, and how many rows stand for one of them.
abbrev pub waiting : Bytes → List (Bytes × ℕ) → ℕ
waiting client = count (λ r. same r.0 client)

abbrev pub copies : Bytes → ℕ → List (Bytes × ℕ) → ℕ
copies client pid = count (is_pair client pid)

-- The primary key of the table.
abbrev pub IsKey : Bytes → Db → Type 0
IsKey client db = (pid : ℕ) → copies client pid db.inbound_qos2 ≤ 1

-- The pending packets of the client are those that hold a slot, and `base` others.
pub record Balanced (c : Peer) (base : ℕ) (s : State) : Type 0 where
  pub balance : IsDiff s.inflight (waiting c.client s.db.inbound_qos2) base
  pub key : IsKey c.client s.db

decrement-increment : (i : ℤ) → decrement (increment i) ≡ i
decrement-increment (pos n) = refl
decrement-increment (negsuc zero) = refl
decrement-increment (negsuc (suc n)) = refl

-- One more row, of a packet that was not there.
add-Balanced :
    (c : Peer) (base pid : ℕ) (s s' : State)
    → Balanced c base s
    → has_inbound c.client pid s.db ≡ false
    → s'.inflight ≡ increment s.inflight
    → s'.db.inbound_qos2 ≡ (c.client, pid) ∷ s.db.inbound_qos2
    → Balanced c base s'
add-Balanced c base pid s s' b new i rows = record {
  balance =
      rw (i, rows, same_self c.client)
        (increment-IsDiff s.inflight (waiting c.client s.db.inbound_qos2) base b.balance);
  key = λ q.
      rw (rows, same_self c.client)
        (elim (Bool-cases (pid == q)) [
          | inl e ↦ rw e (
              omega (
                arith,
                count-none (is_pair c.client q) _
                    (subst (λ t. has_inbound c.client t s.db ≡ false) ((==_iff pid q).0 e) new),
              ))
          | inr e ↦ rw e (b.key q)
        ]);
}

-- The same rows and the same counter.
keep-Balanced :
    (c : Peer) (base : ℕ) (s s' : State)
    → Balanced c base s
    → s'.inflight ≡ s.inflight
    → s'.db.inbound_qos2 ≡ s.db.inbound_qos2
    → Balanced c base s'
keep-Balanced c base s s' b i rows = record {
  balance = rw (i, rows) b.balance;
  key = λ q. rw rows (b.key q);
}

-- Only a packet that took a slot keeps it.
release-Balanced :
    (c : Peer) (base : ℕ) (pk : Packet) (taken : Bool) (s : State) (x : State × Result × Bool)
    → Balanced c base s
    → (pk.qos ≡ 2 → has_inbound c.client pk.packet_id s.db ≡ false → taken ≡ true)
    → Kept c pk (occupy taken s) x
    → Balanced c base (release taken x).0
release-Balanced c base pk true s (s', r, true) b t (i, rows, q, new) =
    add-Balanced c base pk.packet_id s s' b new i rows
release-Balanced c base pk true s (s', r, false) b t (i, rows) =
    keep-Balanced c base s _ b (ap decrement i ∙ decrement-increment s.inflight) rows
release-Balanced c base pk false s (s', r, true) b t (i, rows, q, new) = absurd (cc (t q new))
release-Balanced c base pk false s (s', r, false) b t (i, rows) = keep-Balanced c base s s' b i rows

pub takes_slot_new :
    (c : Peer) (pk : Packet) (f : Faults) (s : State)
    → c.protocol ≡ mqtt5
    → pk.qos ≡ 2
    → has_inbound c.client pk.packet_id s.db ≡ false
    → takes_slot c pk f s ≡ true
takes_slot_new c pk f s v q h = rw (v, q, h) (ground arith)

-- After a PUBLISH of an MQTT 5 client has been handled, whatever it holds, whatever fails, and on every branch,
-- the slots held are again those of the client's packets that wait for PUBREL: a slot taken is given back unless a new
-- row was committed for it.
pub handle_publish-Balanced :
    (env : Env) (c : Peer) (base : ℕ) (pk : Packet) (f : Faults) (s : State)
    → c.protocol ≡ mqtt5
    → Balanced c base s
    → Balanced c base (handle_publish env c pk f s).0
unfolding handle_publish
handle_publish-Balanced env c base pk f s v b = go (validate_topic_name pk.topic)
  where
    go : (o : Option TopicError) → Balanced c base (with_topic env c pk f s o).0
    go (some e) = b
    go none =
        if_both (λ (x : State × Result). Balanced c base x.0) (takes_slot c pk f s && exceeds c s)
          (λ _. keep-Balanced c base s _ b refl refl)
          λ _.
            release-Balanced c base pk (takes_slot c pk f s) s
              (checked env c pk f (occupy (takes_slot c pk f s) s)) b (takes_slot_new c pk f s v)
              (checked-Kept c pk env f (occupy (takes_slot c pk f s) s))

pub waiting-delete :
    (client : Bytes) (pid : ℕ) (rows : List (Bytes × ℕ))
    → waiting client rows
      ≡ waiting client (keep (λ r. not (is_pair client pid r)) rows) + copies client pid rows
waiting-delete client pid rows =
    count-keep (λ r. same r.0 client) (is_pair client pid) rows λ x h. ground (arith, h)

deleted-Balanced :
    (c : Peer) (base pid : ℕ) (s s' : State)
    → Balanced c base s
    → s'.db.inbound_qos2 ≡ (delete_inbound c.client pid s.db).inbound_qos2
    → s'.inflight ≡ (if has_inbound c.client pid s.db then decrement s.inflight else s.inflight)
    → Balanced c base s'
deleted-Balanced c base pid s s' b rows i = record {
  balance = rw rows (
      subst (λ j. IsDiff j (waiting c.client (delete_inbound c.client pid s.db).inbound_qos2) base)
        (sym i) moved);
  key = λ q. rw rows (
      omega (
        arith,
        count-keep-le (is_pair c.client q) (λ r. not (is_pair c.client pid r)) s.db.inbound_qos2,
        b.key q,
      ));
}
  where
    moved :
        IsDiff
          (if has_inbound c.client pid s.db then decrement s.inflight else s.inflight)
          (waiting c.client (delete_inbound c.client pid s.db).inbound_qos2)
          base
    moved =
        if_both
          (λ (j : ℤ).
            IsDiff j (waiting c.client (delete_inbound c.client pid s.db).inbound_qos2) base)
          (has_inbound c.client pid s.db)
          (λ e. decrement-IsDiff s.inflight _ base (
            subst (λ n. IsDiff s.inflight n base)
              (omega (
                arith,
                waiting-delete c.client pid s.db.inbound_qos2,
                count-some (is_pair c.client pid) s.db.inbound_qos2 e,
                b.key pid,
              ))
              b.balance))
          λ e.
            subst (λ n. IsDiff s.inflight n base)
              (omega (
                arith,
                waiting-delete c.client pid s.db.inbound_qos2,
                count-none (is_pair c.client pid) s.db.inbound_qos2 e,
              ))
              b.balance

-- After a PUBREL has been handled, known or not, and whether or not the statement fails, the same holds.
pub handle_pubrel-Balanced :
    (c : Peer) (base pid : ℕ) (f : PubrelFaults) (s : State)
    → Balanced c base s
    → Balanced c base (handle_pubrel c pid f s).0
unfolding handle_pubrel
handle_pubrel-Balanced c base pid f s b =
    if_both (λ (x : State × Result). Balanced c base x.0) f.delete (λ _. b)
      λ _.
        if_both (Balanced c base) (has_inbound c.client pid s.db)
          (λ e. deleted-Balanced c base pid s _ b refl (rw e refl))
          λ e. deleted-Balanced c base pid s _ b refl (rw e refl)
