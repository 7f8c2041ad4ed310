-- ===== src/Engine/IpLimit/Steps.antt =====
-- What each operation of the limiter leaves of an address in the penalty box.
use pgmqtt.Prelude.{
  ℕ, ◌<◌, ◌≡◌, refl, sym, ap, ◌∙◌, inl, inr, Bool, true, false, not, Option, none, some, List, [],
  ◌∷◌, arith, Bytes, keep, ◌==◌, if◌then◌else◌, Bool-cases, if_both, ==_iff,
}
use pgmqtt.Engine.IpLimit.{
  Net, Verdict, Entry, Limiter, lookup, store, put, entry_for, or_new, in_box, tick_connect,
  connect_at, allow_connect, tick_auth, failure_at, record_auth_failure, box_of, box_at,
  in_penalty_box, reaped, gc_once, check_ip_limits, parse_ip,
}

module _ (net : Net) where
  -- The address is in the box until `u`.
  pub record IsBoxed (a u : ℕ) (l : Limiter net) : Type 0 where
    pub entry : Entry net
    pub found : lookup net a l.entries ≡ some entry
    pub boxed : entry.until ≡ some u
    pub enabled : l.auth_failures_per_min == 0 ≡ false

  pub lookup-store :
      (a k : ℕ) (x : Entry net) (es : List (ℕ × Entry net))
      → lookup net a (store net k x es) ≡ (if k == a then some x else lookup net a es)
  lookup-store a k x [] = ground arith
  lookup-store a k x ((j, e) ∷ es) = ground (arith, lookup-store a k x es)

  lookup-keep :
      (a : ℕ) (p : Entry net → Bool) (e : Entry net) (es : List (ℕ × Entry net))
      → lookup net a es ≡ some e
      → p e ≡ true
      → lookup net a (keep (λ x. p x.1) es) ≡ some e
  lookup-keep a p e [] h k = cc
  lookup-keep a p e ((j, x) ∷ es) h k = elim (Bool-cases (j == a)) [
    | inl m ↦
        if_both (λ ys. lookup net a ys ≡ some e) (p x) (λ _. rw m (ground (arith, m, h)))
          λ n. absurd (drops m (ground (arith, m, h)) n)
    | inr m ↦
        if_both (λ ys. lookup net a ys ≡ some e) (p x)
          (λ _. rw m (lookup-keep a p e es (ground (arith, m, h)) k))
          λ _. lookup-keep a p e es (ground (arith, m, h)) k
  ]
    where
      drops : j == a ≡ true → some x ≡ some e → p x ≡ false → ⊥
      drops m h' n = cc (h', n, k)

  put-IsBoxed :
      (a u k : ℕ) (x : Entry net) (l : Limiter net)
      → IsBoxed a u l
      → (k ≡ a → x.until ≡ some u)
      → IsBoxed a u (put net k x l)
  put-IsBoxed a u k x l b h = elim (Bool-cases (k == a)) [
    | inl e ↦ record {
      entry = x;
      found = lookup-store a k x l.entries ∙ rw e refl;
      boxed = h ((==_iff k a).0 e);
      enabled = b.enabled;
    }
    | inr e ↦ record {
      entry = b.entry;
      found = lookup-store a k x l.entries ∙ rw e b.found;
      boxed = b.boxed;
      enabled = b.enabled;
    }
  ]

  module _ (a u : ℕ) where
    tick_auth-until :
        (now penalty : ℕ) (e : Entry net) (o : Option net.Bucket)
        → now < u
        → e.until ≡ some u
        → (tick_auth net now penalty e o).until ≡ some u
    tick_auth-until now penalty e none lt h = h
    tick_auth-until now penalty e (some b) lt h =
        if_both (λ (x : Entry net). x.until ≡ some u) (in_box net now e.until) (λ _. h)
          λ no. absurd (ground (arith, no, h, lt))

    tick_connect-until :
        (now : ℕ) (e : Entry net) (o : Option net.Bucket)
        → (tick_connect net now e o).0.until ≡ e.until
    tick_connect-until now e none = refl
    tick_connect-until now e (some b) = refl

    entry-until :
        (now k : ℕ) (l : Limiter net) (b : IsBoxed a u l)
        → k ≡ a
        → (entry_for net now k l).until ≡ some u
    entry-until now k l b e =
        ap (λ o. (or_new net now l o).until) (ap (λ j. lookup net j l.entries) e ∙ b.found)
        ∙ b.boxed

    failure-IsBoxed :
        (now : ℕ) (l : Limiter net) (o : Option ℕ)
        → now < u
        → IsBoxed a u l
        → IsBoxed a u (failure_at net now l o)
    failure-IsBoxed now l none lt b = b
    failure-IsBoxed now l (some k) lt b =
        put-IsBoxed a u k _ l b
          λ e. tick_auth-until now l.penalty (entry_for net now k l) _ lt (entry-until now k l b e)

    connect-IsBoxed :
        (now : ℕ) (l : Limiter net) (o : Option ℕ)
        → IsBoxed a u l
        → IsBoxed a u (connect_at net now l o).0
    connect-IsBoxed now l none b = b
    connect-IsBoxed now l (some k) b =
        put-IsBoxed a u k _ l b
          λ e. tick_connect-until now (entry_for net now k l) _ ∙ entry-until now k l b e

    box-IsBoxed :
        (now k : ℕ) (l : Limiter net) (o : Option (Entry net))
        → lookup net k l.entries ≡ o
        → now < u
        → IsBoxed a u l
        → IsBoxed a u (box_of net now k l o).0
    box-IsBoxed now k l none f lt b = b
    box-IsBoxed now k l (some e) f lt b =
        if_both (λ (x : Limiter net × Bool). IsBoxed a u x.0) (in_box net now e.until) (λ _. b)
          λ no. put-IsBoxed a u k _ l b λ same_address. absurd (clash same_address no)
      where
        outside : (o : Option ℕ) → o ≡ some u → in_box net now o ≡ false → ⊥
        outside o h n = ground (arith, h, n, lt)

        clash : k ≡ a → in_box net now e.until ≡ false → ⊥
        clash s n =
            outside (e.until)
              (ap (λ (x : Option (Entry net)). elim x [ none ↦ none | some y ↦ y.until ])
                  (sym f ∙ ap (λ j. lookup net j l.entries) s ∙ b.found)
                ∙ b.boxed)
              n

    pub gc-IsBoxed :
        (now : ℕ) (l : Limiter net) → now < u → IsBoxed a u l → IsBoxed a u (gc_once net now l)
    unfolding gc_once
    gc-IsBoxed now l lt b = record {
      entry = b.entry;
      found = lookup-keep a (λ e. not (reaped net now l.gc_idle e)) b.entry l.entries b.found stays;
      boxed = b.boxed;
      enabled = b.enabled;
    }
      where
        stays : not (reaped net now l.gc_idle b.entry) ≡ true
        stays = rw b.boxed (ground (arith, lt))

    penalty-IsBoxed :
        (now : ℕ) (ip : Bytes) (l : Limiter net)
        → now < u
        → IsBoxed a u l
        → IsBoxed a u (in_penalty_box net now ip l).0
    unfolding in_penalty_box
    penalty-IsBoxed now ip l lt b =
        if_both (λ (x : Limiter net × Bool). IsBoxed a u x.0) (l.auth_failures_per_min == 0)
          (λ _. b) λ _. at (parse_ip net ip)
      where
        at : (o : Option ℕ) → IsBoxed a u (box_at net now l o).0
        at none = b
        at (some k) = box-IsBoxed now k l (lookup net k l.entries) refl lt b

    allow-IsBoxed :
        (now : ℕ) (ip : Bytes) (l : Limiter net)
        → IsBoxed a u l
        → IsBoxed a u (allow_connect net now ip l).0
    unfolding allow_connect
    allow-IsBoxed now ip l b =
        if_both (λ (x : Limiter net × Bool). IsBoxed a u x.0) (l.connects_per_sec == 0) (λ _. b)
          λ _. connect-IsBoxed now l (parse_ip net ip) b

    pub check-IsBoxed :
        (now : ℕ) (ip : Bytes) (l : Limiter net)
        → now < u
        → IsBoxed a u l
        → IsBoxed a u (check_ip_limits net now ip l).0
    unfolding check_ip_limits
    check-IsBoxed now ip l lt b =
        let b' = penalty-IsBoxed now ip l lt b in
        if_both (λ (x : Limiter net × Verdict). IsBoxed a u x.0) (in_penalty_box net now ip l).1
          (λ _. b')
          λ _.
            if_both (λ (x : Limiter net × Verdict). IsBoxed a u x.0)
              (allow_connect net now ip (in_penalty_box net now ip l).0).1
              (λ _. allow-IsBoxed now ip _ b') λ _. allow-IsBoxed now ip _ b'

    pub auth-IsBoxed :
        (now : ℕ) (ip : Bytes) (l : Limiter net)
        → now < u
        → IsBoxed a u l
        → IsBoxed a u (record_auth_failure net now ip l)
    unfolding record_auth_failure
    auth-IsBoxed now ip l lt b =
        if_both (IsBoxed a u) (l.auth_failures_per_min == 0) (λ _. b)
          λ _. failure-IsBoxed now l (parse_ip net ip) lt b
