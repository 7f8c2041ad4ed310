-- ===== src/Engine/Run/Course.antt =====
-- The course that a connection takes, and the state that it leaves.
use pgmqtt.Prelude.{
  ◌≡◌, refl, sym, ap, ◌∙◌, Bool, true, false, ◌&&◌, List, [], ◌∷◌, ◌++◌, inl, inr, ◌⊎◌, all, arith,
  append-nil, append_assoc, if_both, ◌==◌, if◌then◌else◌,
}
use pgmqtt.Engine.Inbound.{mqtt5}
use pgmqtt.Engine.Run.{
  PacketKind, connect, publish, puback, pubrec, pubrel, pubcomp, subscribe, unsubscribe, pingreq,
  disconnect, auth, unsupported, Turn, undeadlined, unread, incoming, Act, enters, ends, recovers,
  shuts, disconnects, Return, normally, with_error, panicking, Handlers, dispatch, serve,
  after_connect, run, after_dispatch, is_metered, route,
}

abbrev pub is_deadline : Turn → Bool
is_deadline undeadlined = true
is_deadline t = false

-- Some read deadline cannot be set.
abbrev pub Undeadlined : List Turn → Type 0
Undeadlined [] = ⊥
Undeadlined (t ∷ ts) = (is_deadline t ≡ true) ⊎ Undeadlined ts

-- Neither a CONNECT, nor an end of the session, a recovery or a shutdown.
abbrev pub is_service : Act → Bool
is_service enters = false
is_service ends = false
is_service recovers = false
is_service shuts = false
is_service a = true

all-append :
    (p : Act → Bool) (xs ys : List Act)
    → all p xs ≡ true
    → all p ys ≡ true
    → all p (xs ++ ys) ≡ true
all-append p [] ys h k = k
all-append p (x ∷ xs) ys h k = ground (arith, all-append p xs ys, h, k)

module _ {ℓ} {S : Type ℓ} (h : Handlers S) where
  -- Packets that are dispatched one after the other, from a state to a state, with what was done; and the notice that a
  -- packet is too large.
  pub data Serves : S → List Act → S → Type ℓ where
    idle : {s : S} → Serves s [] s
    told : {s : S} → Serves s (disconnects 0x95 ∷ []) s
    handled :
        {s m : S} {later : List Act} (p : PacketKind)
        → Serves (dispatch h p s).0 later m
        → Serves s ((dispatch h p s).1 ++ later) m

  -- How it is over in a state: by an end of the session and the shutdown; by the shutdown alone, if a read deadline cannot be set;
  -- or by the recovery from the panic of a handler and the shutdown.
  abbrev pub IsOver : List Turn → S → List Act → S → Type ℓ
  IsOver ts m tail final =
      ((tail ≡ ends ∷ shuts ∷ []) × (final ≡ h.shutdown (h.end_session m)))
      ⊎ (((tail ≡ shuts ∷ []) × (final ≡ h.shutdown m) × Undeadlined ts)
          ⊎ ((tail ≡ recovers ∷ shuts ∷ [])
              × (final ≡ h.shutdown m)
              × ((p : PacketKind) × (s : S) × ((dispatch h p s).0 ≡ m)
                  × ((dispatch h p s).2 ≡ panicking))))

  pub record Course (ts : List Turn) (s : S) (acts : List Act) (final : S) : Type ℓ where
    pub body : List Act
    pub tail : List Act
    pub reached : S
    pub serves : Serves s body reached
    pub service : all is_service body ≡ true
    pub over : IsOver ts reached tail final
    pub acts_are : acts ≡ body ++ tail

  route-service : (p : PacketKind) (s : S) → all is_service (route h p s).1 ≡ true
  route-service connect s = refl
  route-service publish s = refl
  route-service puback s = refl
  route-service pubrec s = refl
  route-service pubrel s = refl
  route-service pubcomp s = refl
  route-service subscribe s = refl
  route-service unsubscribe s = refl
  route-service pingreq s = refl
  route-service disconnect s = refl
  route-service auth s = refl
  route-service unsupported s = refl

  dispatch-service : (p : PacketKind) (s : S) → all is_service (dispatch h p s).1 ≡ true
  unfolding dispatch
  dispatch-service p s =
      if_both (λ (x : S × List Act × Return). all is_service x.1 ≡ true) (is_metered p)
        (λ _.
          if_both (λ (x : S × List Act × Return). all is_service x.1 ≡ true) (h.take_token s).1
            (λ _. route-service p (h.take_token s).0) λ _. refl)
        λ _. route-service p s

  abbrev Loops : List Turn → S → S × List Act × Bool → Type ℓ
  Loops ts s x = x.2 ≡ true → Course ts s x.1 x.0

  later_turn :
      (t : Turn) (ts : List Turn) (m final : S) (tail : List Act)
      → IsOver ts m tail final
      → IsOver (t ∷ ts) m tail final
  later_turn t ts m final tail (inl k) = inl k
  later_turn t ts m final tail (inr (inl (a, b, c))) = inr (inl (a, b, inr c))
  later_turn t ts m final tail (inr (inr k)) = inr (inr k)

  -- A course after a packet that is handled.
  handled-Course :
      (p : PacketKind) (ts : List Turn) (s final : S) (acts : List Act)
      → Course ts (dispatch h p s).0 acts final
      → Course (incoming p ∷ ts) s ((dispatch h p s).1 ++ acts) final
  handled-Course p ts s final acts c = record {
    body = (dispatch h p s).1 ++ c.body;
    tail = c.tail;
    reached = c.reached;
    serves = handled p c.serves;
    service = all-append is_service (dispatch h p s).1 c.body (dispatch-service p s) c.service;
    over = later_turn (incoming p) ts c.reached final c.tail c.over;
    acts_are =
        ap (λ xs. (dispatch h p s).1 ++ xs) c.acts_are
        ∙ sym (append_assoc (dispatch h p s).1 c.body c.tail);
  }

  -- The last packet.
  last-Course :
      (p : PacketKind) (ts : List Turn) (s final : S) (tail : List Act)
      → IsOver (incoming p ∷ ts) (dispatch h p s).0 tail final
      → Course (incoming p ∷ ts) s ((dispatch h p s).1 ++ tail) final
  last-Course p ts s final tail o = record {
    body = (dispatch h p s).1 ++ [];
    tail = tail;
    reached = (dispatch h p s).0;
    serves = handled p idle;
    service = all-append is_service (dispatch h p s).1 [] (dispatch-service p s) refl;
    over = o;
    acts_are = ap (λ xs. xs ++ tail) (sym (append-nil (dispatch h p s).1));
  }

  after_dispatch-Loops :
      (p : PacketKind) (ts : List Turn) (s : S) (back : Return) (rest : S × List Act × Bool)
      → (dispatch h p s).2 ≡ back
      → Loops ts (dispatch h p s).0 rest
      → Loops
          (incoming p ∷ ts)
          s
          (after_dispatch h ((dispatch h p s).0, (dispatch h p s).1, back) rest)
  after_dispatch-Loops p ts s normally rest e l k = handled-Course p ts s rest.0 rest.1 (l k)
  after_dispatch-Loops p ts s with_error rest e l k =
      last-Course p ts s _ (ends ∷ shuts ∷ []) (inl (refl, refl))
  after_dispatch-Loops p ts s panicking rest e l k =
      last-Course p ts s _ (recovers ∷ shuts ∷ []) (inr (inr (refl, refl, (p, s, refl, e))))

  serve-Loops : (ts : List Turn) (s : S) → Loops ts s (serve h ts s)
  unfolding serve
  serve-Loops [] s e = cc e
  serve-Loops (undeadlined ∷ ts) s e = record {
    body = [];
    tail = shuts ∷ [];
    reached = s;
    serves = idle;
    service = refl;
    over = inr (inl (refl, refl, inl refl));
    acts_are = refl;
  }
  serve-Loops (unread large ∷ ts) s e = told_or_not (large && h.protocol_of s == mqtt5)
    where
      told_or_not :
          (b : Bool)
          → Course
              (unread large ∷ ts)
              s
              ((if b then disconnects 0x95 ∷ [] else []) ++ ends ∷ shuts ∷ [])
              (h.shutdown (h.end_session s))
      told_or_not true = record {
        body = disconnects 0x95 ∷ [];
        tail = ends ∷ shuts ∷ [];
        reached = s;
        serves = told;
        service = refl;
        over = inl (refl, refl);
        acts_are = refl;
      }
      told_or_not false = record {
        body = [];
        tail = ends ∷ shuts ∷ [];
        reached = s;
        serves = idle;
        service = refl;
        over = inl (refl, refl);
        acts_are = refl;
      }
  serve-Loops (incoming p ∷ ts) s e =
      after_dispatch-Loops p ts s (dispatch h p s).2 (serve h ts (dispatch h p s).0) refl
        (serve-Loops ts (dispatch h p s).0) e

  -- The course of a whole connection, by what its CONNECT comes back with.
  abbrev pub Entered : List Turn → S × Return → List Act → S → Type ℓ
  Entered ts (s, normally) acts final =
      (later : List Act) × (acts ≡ enters ∷ later) × Course ts s later final
  Entered ts (s, with_error) acts final = (acts ≡ enters ∷ shuts ∷ []) × (final ≡ h.shutdown s)
  Entered ts (s, panicking) acts final =
      (acts ≡ enters ∷ recovers ∷ shuts ∷ []) × (final ≡ h.shutdown s)

  abbrev pub is_connect : Turn → Bool
  is_connect (incoming connect) = true
  is_connect t = false

  entered :
      (ts : List Turn) (x : S × Return)
      → (after_connect h ts x).2 ≡ true
      → Entered ts x (after_connect h ts x).1 (after_connect h ts x).0
  entered ts (s, normally) e = ((serve h ts s).1, refl, serve-Loops ts s e)
  entered ts (s, with_error) e = (refl, refl)
  entered ts (s, panicking) e = (refl, refl)

  unopened :
      (t : Turn) (ts : List Turn) (s : S)
      → is_connect t ≡ false
      → run h (t ∷ ts) s ≡ (h.shutdown s, shuts ∷ [], true)
  unfolding run
  unopened (incoming connect) ts s e = cc e
  unopened undeadlined ts s e = refl
  unopened (unread large) ts s e = refl
  unopened (incoming publish) ts s e = refl
  unopened (incoming puback) ts s e = refl
  unopened (incoming pubrec) ts s e = refl
  unopened (incoming pubrel) ts s e = refl
  unopened (incoming pubcomp) ts s e = refl
  unopened (incoming subscribe) ts s e = refl
  unopened (incoming unsubscribe) ts s e = refl
  unopened (incoming pingreq) ts s e = refl
  unopened (incoming disconnect) ts s e = refl
  unopened (incoming auth) ts s e = refl
  unopened (incoming unsupported) ts s e = refl

  -- A connection that does not begin with a CONNECT is only shut down. One whose CONNECT is refused, or handled with a panic, is shut down after
  -- that, in the state that the handling has left, without an end of the session. Any other, when it is over, has
  -- dispatched packets one after the other; and then, in the state that they have left, its session has been ended, once, and it has
  -- been shut down; or it has been shut down without an end of the session, because a read deadline could not be set or
  -- the handler of a packet has panicked.
  pub run-Course :
      (ts : List Turn) (s : S)
      → ((t : Turn) → is_connect t ≡ false → run h (t ∷ ts) s ≡ (h.shutdown s, shuts ∷ [], true))
        × ((run h (incoming connect ∷ ts) s).2 ≡ true
            → Entered ts
                (h.connects s)
                (run h (incoming connect ∷ ts) s).1
                (run h (incoming connect ∷ ts) s).0)
  unfolding run
  run-Course ts s = (λ t e. unopened t ts s e, λ e. entered ts (h.connects s) e)
