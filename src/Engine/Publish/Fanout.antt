-- ===== src/Engine/Publish/Fanout.antt =====
-- Who receives a message: the fan-out of `mqtt_publish`.
use Prim.Native.Nat.{zero-le}
use native.Mathlib.Nat.{le_trans}
use pgmqtt.Prelude.{
  ℕ, suc, ◌+◌, ◌≤◌, ◌<◌, ◌≡◌, refl, sym, ◌∙◌, subst, inl, inr, min, max, Bool, true, false, not,
  ◌&&◌, ◌||◌, Option, none, some, List, [], ◌∷◌, ◌++◌, arith, Bytes, same, same_iff, any, keep,
  count, ltb, leb, ◌==◌, if◌then◌else◌, Bool-cases, if_both, All,
}
use pgmqtt.Engine.Db.{Db, Session, Subscription, Delivery}
use pgmqtt.Engine.Publish.{
  Env, Request, Match, reaches, better, best_qos, with_match, matches, depth, over_cap, queues,
  new_deliveries, mqtt_publish,
}

-- A QoS that some subscription of the client reaches, and that none of them exceeds.
abbrev pub IsBest : Request → Bytes → List Subscription → ℕ → Type 0
IsBest p client subs q =
    (any (λ s. reaches p client s && s.qos == q) subs ≡ true)
    × All (λ s. reaches p client s ≡ true → s.qos ≤ q) subs

abbrev pub Best : Request → Bytes → List Subscription → Option ℕ → Type 0
Best p client subs none = any (reaches p client) subs ≡ false
Best p client subs (some q) = IsBest p client subs q

or_true : (b : Bool) → (b || true) ≡ true
or_true b = ground arith

larger_left : (q r : ℕ) → leb r q ≡ true → max q r ≡ q
larger_left q r h = ground arith

larger_right : (q r : ℕ) → leb r q ≡ false → max q r ≡ r
larger_right q r h = ground arith

module _ (p : Request) (client : Bytes) where
  none_reaches :
      (q : ℕ) (ss : List Subscription)
      → any (reaches p client) ss ≡ false
      → All (λ s. reaches p client s ≡ true → s.qos ≤ q) ss
  none_reaches q [] h = tt
  none_reaches q (s ∷ ss) h =
      (λ k. absurd (ground (arith, k, h)), none_reaches q ss (ground (arith, h)))

  All-le :
      (q r : ℕ) (ss : List Subscription)
      → q ≤ r
      → All (λ s. reaches p client s ≡ true → s.qos ≤ q) ss
      → All (λ s. reaches p client s ≡ true → s.qos ≤ r) ss
  All-le q r [] h a = tt
  All-le q r (s ∷ ss) h (a, as') = (λ k. le_trans (a k) h, All-le q r ss h as')

  Best-step :
      (s : Subscription) (ss : List Subscription) (o : Option ℕ)
      → reaches p client s ≡ true
      → Best p client ss o
      → IsBest p client (s ∷ ss) (better s.qos o)
  Best-step s ss none e h = (rw e (ground arith), (λ _. omega arith, none_reaches s.qos ss h))
  Best-step s ss (some r) e (h, a) = elim (Bool-cases (leb r s.qos)) [
    | inl lower ↦
        subst (IsBest p client (s ∷ ss)) (sym (larger_left s.qos r lower))
          (rw e (ground arith), (λ _. omega arith, All-le r s.qos ss (ground arith) a))
    | inr higher ↦
        subst (IsBest p client (s ∷ ss)) (sym (larger_right s.qos r higher))
          (rw (e, h) (or_true _), (λ _. ground arith, a))
  ]

  Best-skip :
      (s : Subscription) (ss : List Subscription) (o : Option ℕ)
      → reaches p client s ≡ false
      → Best p client ss o
      → Best p client (s ∷ ss) o
  Best-skip s ss none e h = rw (e, h)
  Best-skip s ss (some q) e (h, a) = (rw (e, h), (λ k. absurd (cc (sym e ∙ k)), a))

  -- The QoS granted to a client with overlapping subscriptions is the greatest of those that the message
  -- reaches, and there is none exactly if it reaches none.
  pub best_qos-Best : (subs : List Subscription) → Best p client subs (best_qos p client subs)
  best_qos-Best [] = refl
  best_qos-Best (s ∷ ss) =
      if_both (Best p client (s ∷ ss)) (reaches p client s)
        (λ e. Best-step s ss (best_qos p client ss) e (best_qos-Best ss))
        (λ e. Best-skip s ss (best_qos p client ss) e (best_qos-Best ss))

-- The queue cap.
abbrev pub stored : Bytes → List Delivery → ℕ
stored client = count (λ d. same d.client client && ltb 0 d.qos)

-- How many sessions a client has; its id is the primary key, so at most one.
abbrev pub sessions_of : Bytes → List Session → ℕ
sessions_of client = count (λ s. same s.client client)

stored-append :
    (c : Bytes) (ds es : List Delivery) → stored c (ds ++ es) ≡ stored c ds + stored c es
stored-append c [] es = omega arith
stored-append c (d ∷ ds) es = ground (arith, stored-append c ds es)

both : (a b : Bool) → (a && not b) ≡ true → (a ≡ true) × (b ≡ false)
both a b h = ground arith

count_cons : (b : Bool) (n : ℕ) → n ≤ (if b then suc n else n)
count_cons b n = ground arith

capped_cons :
    (o s : Bool) (n : ℕ) → (if o then 0 else n) ≤ (if o then 0 else if s then suc n else n)
capped_cons o s n = ground arith

room :
    (cap dep old new one : ℕ)
    → 0 < cap
    → one ≤ 1
    → old ≤ dep
    → old ≤ cap
    → new ≤ (if (if cap == 0 then false else leb cap dep) then 0 else one)
    → old + new ≤ cap
room cap dep old new one p o d h n = ground arith

stored_step :
    (q : ℕ) (c o s : Bool) (n k : ℕ)
    → ((ltb 0 q || c) && (q == 0 || not o)) ≡ true
    → n ≤ k
    → (if s && ltb 0 q then suc n else n) ≤ (if s && not o then suc k else k)
stored_step q c o s n k h le = ground arith

-- The new rows of QoS 1 and 2 of a client.
new_stored :
    (env : Env) (db : Db) (c : Bytes) (message id : ℕ) (ms : List Match)
    → stored c (new_deliveries message id (keep (queues env db) ms))
      ≤ count (λ m. same m.client c && not (over_cap env db m.client)) ms
unfolding new_deliveries
new_stored env db c message id [] = omega arith
new_stored env db c message id (m ∷ ms) =
    if_both
      (λ l.
        stored c (new_deliveries message id l)
        ≤ count (λ x. same x.client c && not (over_cap env db x.client)) (m ∷ ms))
      (queues env db m)
      (λ e.
        stored_step m.deliver_qos m.connected (over_cap env db m.client) (same m.client c) _ _ e
          (new_stored env db c message (suc id) ms))
      (λ e.
        le_trans (new_stored env db c message id ms)
          (count_cons (same m.client c && not (over_cap env db m.client)) _))

-- A client who is over the cap gets none, and any other at most one for each of its sessions.
count-with_match :
    (P : Match → Bool) (p : Request) (s : Session) (o : Option ℕ) (ms : List Match) (n k : ℕ)
    → ((m : Match) → m.client ≡ s.client → P m ≡ true → n ≡ suc k)
    → k ≤ n
    → count P ms ≤ k
    → count P (with_match p s o ms) ≤ n
count-with_match P p s none ms n k h le c = le_trans c le
count-with_match P p s (some q) ms n k h le c =
    let m : Match = record {
      client = s.client;
      broker = s.broker;
      connected = s.connected;
      deliver_qos = min q p.qos;
    } in
    if_both (λ x. x ≤ n) (P m)
      (λ e. subst (λ x. suc (count P ms) ≤ x) (sym (h m refl e)) (omega arith)) (λ e. le_trans c le)

abbrev allowed : Env → Db → Bytes → Match → Bool
allowed env db c m = same m.client c && not (over_cap env db m.client)

allowed-same :
    (env : Env) (db : Db) (c : Bytes) (m : Match)
    → allowed env db c m ≡ true
    → (same m.client c ≡ true) × (over_cap env db c ≡ false)
allowed-same env db c m h =
    let (a, b) = both (same m.client c) (over_cap env db m.client) h in
    (a, subst (λ x. over_cap env db x ≡ false) ((same_iff m.client c).0 a) b)

allowed-matches :
    (env : Env) (db : Db) (p : Request) (c : Bytes) (subs : List Subscription) (ss : List Session)
    → count (allowed env db c) (matches p subs ss)
      ≤ (if over_cap env db c then 0 else sessions_of c ss)
unfolding matches
allowed-matches env db p c subs [] = zero-le
allowed-matches env db p c subs (s ∷ ss) =
    count-with_match (allowed env db c) p s (best_qos p s.client subs) (matches p subs ss) _
      (if over_cap env db c then 0 else sessions_of c ss)
      (λ m e h. let (a, b) = allowed-same env db c m h in rw (b, subst (λ x. same x c ≡ true) e a))
      (capped_cons (over_cap env db c) (same s.client c) (sessions_of c ss))
      (allowed-matches env db p c subs ss)

stored-le-depth :
    (c : Bytes) (ds : List Delivery) → All (λ d. d.state ≤ 2) ds → stored c ds ≤ depth c ds
stored-le-depth c [] h = omega arith
stored-le-depth c (d ∷ ds) (h, hs) = ground (arith, stored-le-depth c ds hs)

-- With a cap on queued deliveries, no publish takes a client's deliveries of QoS 1 and 2 above the cap,
-- whatever is published and however many subscriptions overlap.
pub mqtt_publish-cap_bound :
    (env : Env) (p : Request) (db : Db) (c : Bytes)
    → 0 < env.max_queued
    → sessions_of c db.sessions ≤ 1
    → All (λ d. d.state ≤ 2) db.deliveries
    → stored c db.deliveries ≤ env.max_queued
    → stored c (mqtt_publish env p db).0.deliveries ≤ env.max_queued
unfolding mqtt_publish
mqtt_publish-cap_bound env p db c pos one states h =
    let ms = matches p db.subscriptions db.sessions in
    let rows = new_deliveries db.next_message db.next_delivery (keep (queues env db) ms) in
    subst (λ n. n ≤ env.max_queued) (sym (stored-append c db.deliveries rows))
      (room env.max_queued (depth c db.deliveries) _ _ _ pos one
        (stored-le-depth c db.deliveries states) h
        (le_trans (new_stored env db c db.next_message db.next_delivery ms)
          (allowed-matches env db p c db.subscriptions db.sessions)))
