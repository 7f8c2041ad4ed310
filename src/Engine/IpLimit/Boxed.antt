-- ===== src/Engine/IpLimit/Boxed.antt =====
-- An address in the penalty box stays there until its time is over.
use pgmqtt.Prelude.{
  ℕ, ◌+◌, ◌<◌, ◌≡◌, refl, ◌∙◌, true, false, some, List, [], ◌∷◌, arith, Bytes, All, ◌==◌, if_both,
}
use pgmqtt.Engine.IpLimit.{
  Net, Verdict, penalty_box, Entry, Limiter, lookup, in_box, record_auth_failure, in_penalty_box,
  gc_once, check_ip_limits, parse_ip,
}
use pgmqtt.Engine.IpLimit.Steps.{IsBoxed, lookup-store, gc-IsBoxed, check-IsBoxed, auth-IsBoxed}

module _ (net : Net) where
  -- What the broker does with the limiter, each at its time.
  pub data Use : Type 0 where
    check failure : ℕ → Bytes → Use
    gc : ℕ → Use

  abbrev pub time_of : Use → ℕ
  time_of (check now ip) = now
  time_of (failure now ip) = now
  time_of (gc now) = now

  unfoldable pub run : List Use → Limiter net → Limiter net
  run [] l = l
  run (check now ip ∷ us) l = run us (check_ip_limits net now ip l).0
  run (failure now ip ∷ us) l = run us (record_auth_failure net now ip l)
  run (gc now ∷ us) l = run us (gc_once net now l)

  module _ (a u : ℕ) where
    run-IsBoxed :
        (us : List Use) (l : Limiter net)
        → All (λ x. time_of x < u) us
        → IsBoxed net a u l
        → IsBoxed net a u (run us l)
    unfolding run
    run-IsBoxed [] l h b = b
    run-IsBoxed (check now ip ∷ us) l (lt, h) b =
        run-IsBoxed us _ h (check-IsBoxed net a u now ip l lt b)
    run-IsBoxed (failure now ip ∷ us) l (lt, h) b =
        run-IsBoxed us _ h (auth-IsBoxed net a u now ip l lt b)
    run-IsBoxed (gc now ∷ us) l (lt, h) b = run-IsBoxed us _ h (gc-IsBoxed net a u now l lt b)

    boxed_refused :
        (now : ℕ) (ip : Bytes) (l : Limiter net)
        → now < u
        → parse_ip net ip ≡ some a
        → IsBoxed net a u l
        → (check_ip_limits net now ip l).1 ≡ penalty_box
    unfolding check_ip_limits in_penalty_box
    boxed_refused now ip l lt p b =
        if_both (λ (x : Limiter net × Verdict). x.1 ≡ penalty_box) (in_penalty_box net now ip l).1
          (λ _. refl) λ n. absurd (cc (n, inside))
      where
        box : in_box net now b.entry.until ≡ true
        box = rw b.boxed (ground (arith, lt))

        inside : (in_penalty_box net now ip l).1 ≡ true
        inside = rw (b.enabled, p, b.found, box) refl

  -- A failure for which the bucket has no token puts the address in the box.
  failure-boxes :
      (a t : ℕ) (ip : Bytes) (l : Limiter net) (e : Entry net) (bucket : net.Bucket)
      → l.auth_failures_per_min == 0 ≡ false
      → parse_ip net ip ≡ some a
      → lookup net a l.entries ≡ some e
      → e.auth ≡ some bucket
      → in_box net t e.until ≡ false
      → (net.allow t bucket).1 ≡ false
      → IsBoxed net a (t + l.penalty) (record_auth_failure net t ip l)
  unfolding record_auth_failure
  failure-boxes a t ip l e bucket en p f au out spent =
      rw (en, p, f, au, out, spent)
        (record {
          entry = record e {
            last_seen = t;
            auth = some (net.allow t bucket).0;
            until = some (t + l.penalty);
          };
          found = lookup-store net a a _ l.entries ∙ ground arith;
          boxed = refl;
          enabled = en;
        })

  -- Once a failed authentication has exhausted the bucket of its address, every connection from that address is refused
  -- until the penalty is over, whatever other checks, failures and collections of idle entries come between, and
  -- however many of them.
  pub exhausted_refused :
      (a t now : ℕ) (ip ip' : Bytes) (l : Limiter net) (e : Entry net) (bucket : net.Bucket)
      (us : List Use)
      → l.auth_failures_per_min == 0 ≡ false
      → parse_ip net ip ≡ some a
      → lookup net a l.entries ≡ some e
      → e.auth ≡ some bucket
      → in_box net t e.until ≡ false
      → (net.allow t bucket).1 ≡ false
      → All (λ x. time_of x < t + l.penalty) us
      → now < t + l.penalty
      → parse_ip net ip' ≡ some a
      → (check_ip_limits net now ip' (run us (record_auth_failure net t ip l))).1 ≡ penalty_box
  exhausted_refused a t now ip ip' l e bucket us en p f au out spent times lt p' =
      boxed_refused a (t + l.penalty) now ip' _ lt p' (
        run-IsBoxed a (t + l.penalty) us _ times
          (failure-boxes a t ip l e bucket en p f au out spent))
