-- ===== src/Engine/Session/Superseded.antt =====
-- A connection whose session another one has taken over.
use pgmqtt.Prelude.{
  ℕ, ◌≡◌, ◌≢◌, refl, sym, ap, ◌∙◌, subst, inl, inr, Bool, true, false, ◌&&◌, ◌||◌, Option, none,
  some, List, [], ◌∷◌, ◌++◌, map, arith, Bytes, same, same_self, any, is_empty, ◌==◌, if◌then◌else◌,
  Bool-cases, if_both, append-nil,
}
use pgmqtt.Engine.Db.{Db, Will, Session, Delivery}
use pgmqtt.Engine.Publish.{Env, Outcome, done, duplicate, failed, Stage, publish_core}
use pgmqtt.Engine.Publish.Atomic.{Atomic, publish_core-Atomic}
use pgmqtt.Engine.Session.{
  Life, find_session, owned, new_session, update_sessions, take_row, take_ownership, Timing, now,
  no_will, at, will_timing, Lifetime, deleted, kept, lifetime, Faults, will_request, fire_now,
  is_own, released, end_session, handle_disconnect, attested, attest_owned_sessions,
}

-- What the end of a connection may still do: add the deliveries of its will.
abbrev pub OnlyAdds : Db → Db → Type 0
OnlyAdds db db' =
    (db'.sessions ≡ db.sessions)
    × ((rows : List Delivery) × (db'.deliveries ≡ db.deliveries ++ rows))

published :
    (env : Env) (w : Will) (db : Db) (x : Db × Outcome)
    → Atomic env (will_request w) db x
    → OnlyAdds db x.0
published env w db (db', done res) (_, all) =
    let (rows, e, _) = all.kept in (all.sessions, (rows, e))
published env w db (db', duplicate) (e, _) =
    (ap (λ d. d.sessions) e, ([], ap (λ d. d.deliveries) e ∙ sym (append-nil db.deliveries)))
published env w db (db', failed s) e =
    (ap (λ d. d.sessions) e, ([], ap (λ d. d.deliveries) e ∙ sym (append-nil db.deliveries)))

unchanged : (db : Db) → OnlyAdds db db
unchanged db = (refl, ([], sym (append-nil db.deliveries)))

pub fired-OnlyAdds :
    (env : Env) (fault : Option Stage) (t : Timing) (w : Option Will) (db : Db)
    → OnlyAdds db (fire_now env fault t w db).0
fired-OnlyAdds env fault now none db = unchanged db
fired-OnlyAdds env fault now (some w) db =
    published env w db (publish_core env fault (will_request w) db)
      (publish_core-Atomic env (will_request w) db fault)
fired-OnlyAdds env fault no_will w db = unchanged db
fired-OnlyAdds env fault (at t) w db = unchanged db

update_none :
    (p : Session → Bool) (f : Session → Session) (ss : List Session)
    → any p ss ≡ false
    → map (λ s. if p s then f s else s) ss ≡ ss
update_none p f [] h = refl
update_none p f (s ∷ ss) h = ground (arith, update_none p f ss, h)

ended-OnlyAdds :
    (f : Faults) (l : Life) (t : Timing) (b : Bool) (k : Lifetime) (db db' : Db)
    → OnlyAdds db db'
    → any (is_own l) db'.sessions ≡ false
    → OnlyAdds db (end_session f l t b k db')
ended-OnlyAdds f l t b deleted db db' h none_own =
    if_both (OnlyAdds db) f.deletion (λ _. h)
      λ _.
        if_both (OnlyAdds db) (any (is_own l) db'.sessions) (λ e. absurd (cc (e, none_own))) λ _. h
ended-OnlyAdds f l t b (kept u) db db' (s, rows) none_own =
    if_both (OnlyAdds db) f.update (λ _. (s, rows))
      λ _. (update_none (is_own l) (released t u b) db'.sessions none_own ∙ s, rows)

superseded :
    (env : Env) (f : Faults) (clock : ℕ) (l : Life) (db : Db)
    → any (is_own l) db.sessions ≡ false
    → OnlyAdds db (handle_disconnect env f clock l db)
unfolding handle_disconnect
superseded env f clock l db h =
    let (s, rows) = fired-OnlyAdds env f.will (will_timing clock l) l.will db in
    if_both (OnlyAdds db) (l.closing || is_empty l.client) (λ _. unchanged db)
      λ _.
        ended-OnlyAdds f l (will_timing clock l) _ (lifetime clock l) db _ (s, rows)
          (ap (any (is_own l)) s ∙ h)

abbrev has_broker : ℕ → Option ℕ → Bool
has_broker b none = false
has_broker b (some x) = x == b

-- The row of a connected session with this owner and token.
abbrev pub is_row : Bytes → ℕ → ℕ → Session → Bool
is_row client self t s =
    same s.client client && s.connected && s.token == t && has_broker self s.broker

any-append {ℓ} :
    {A : Type ℓ} (p : A → Bool) (xs ys : List A) → any p (xs ++ ys) ≡ (any p xs || any p ys)
any-append p [] ys = refl
any-append p (x ∷ xs) ys = ground (arith, any-append p xs ys)

same_number : (n : ℕ) → n == n ≡ true
same_number n = ground arith

module _ (self t : ℕ) (l' l : Life) (rotated : t == l.token ≡ false) where
  rotated_row :
      (s : Session) → is_own l (if same s.client l.client then owned self t l' s else s) ≡ false
  rotated_row s = ground (arith, rotated)

  -- No row is that of the connection before.
  update-rotates :
      (ss : List Session)
      → any (is_own l) (map (λ s. if same s.client l.client then owned self t l' s else s) ss)
        ≡ false
  update-rotates [] = refl
  update-rotates (s ∷ ss) = rw (rotated_row s) (update-rotates ss)

  none-rotates : (ss : List Session) → find_session l.client ss ≡ none → any (is_own l) ss ≡ false
  none-rotates [] h = refl
  none-rotates (s ∷ ss) h = ground (arith, none-rotates ss, h)

  some-row :
      (ss : List Session) (r : Session)
      → find_session l.client ss ≡ some r
      → any
          (is_row l.client self t)
          (map (λ s. if same s.client l.client then owned self t l' s else s) ss)
        ≡ true
  some-row [] r h = cc
  some-row (s ∷ ss) r h = elim (Bool-cases (same s.client l.client)) [
    | inl e ↦ rw (e, same_number t, same_number self) (ground (arith, e))
    | inr e ↦ ground (arith, e, some-row ss r, h)
  ]

  abbrev pub Taken : Db → Type 0
  Taken db =
      (any (is_own l) db.sessions ≡ false) × (any (is_row l.client self t) db.sessions ≡ true)

  taken :
      (same_client : l'.client ≡ l.client) (db : Db) (o : Option Session)
      → find_session l.client db.sessions ≡ o
      → Taken (take_row self t l' db o).0
  taken c db none e = (
    any-append (is_own l) db.sessions (new_session self t l' ∷ [])
        ∙ rw (none-rotates db.sessions e, rotated) (ground arith),
    any-append (is_row l.client self t) db.sessions (new_session self t l' ∷ [])
        ∙ rw (c, same_self l.client, same_number t, same_number self) (ground arith),
  )
  taken c db (some r) e =
      subst (λ k. Taken (update_sessions (λ x. same x.client k) (owned self t l') db)) (sym c)
        (update-rotates db.sessions, some-row db.sessions r e)

  pub take_ownership-Taken :
      l'.client ≡ l.client → (db : Db) → Taken (take_ownership false self t l' db).0
  unfolding take_ownership
  take_ownership-Taken c db =
      taken c db (find_session l'.client db.sessions) (ap (λ k. find_session k db.sessions) (sym c))

-- After a session has been taken over, on this broker or another, with a token that the connection before did not
-- have, the row names the new owner, connected and with the new token; and neither the end of the connection before, whatever it does and whatever fails, nor an
-- attestation of the broker that still holds it, changes a session or takes a delivery away.
pub take_ownership-protects :
    (env : Env) (f : Faults) (self other t clock : ℕ) (l' l : Life) (db : Db)
    → l'.client ≡ l.client
    → t ≢ l.token
    → let db' = (take_ownership false self t l' db).0 in
      (any (is_row l.client self t) db'.sessions ≡ true)
      × OnlyAdds db' (handle_disconnect env f clock l db')
      × ((attest_owned_sessions false other (l ∷ []) db').sessions ≡ db'.sessions)
unfolding attest_owned_sessions
take_ownership-protects env f self other t clock l' l db c r =
    let (gone, row) = take_ownership-Taken self t l' l (ground (arith, r)) c db in
    (row, superseded env f clock l _ gone, update_none _ (attested other) _ (only _ gone))
  where
    only :
        (ss : List Session)
        → any (is_own l) ss ≡ false
        → any (λ s. any (λ x. is_own x s) (l ∷ [])) ss ≡ false
    only [] h = refl
    only (s ∷ ss) h = ground (arith, only ss, h)
