-- ===== src/Engine/Registry.antt =====
-- The connections of a broker by client id, `registerConn`, `unregisterConnIfSame` and `ConnFor` of
-- internal/engine/engine.go. A connection is its number.
use pgmqtt.Prelude.{
  ℕ, ◌≡◌, ◌≢◌, refl, sym, ap, ◌∙◌, inl, inr, true, false, not, Option, none, some, List, [], ◌∷◌,
  Bytes, same, same_self, same_iff, All, keep, ◌==◌, if◌then◌else◌, Bool-cases, if_both, subst,
  ==_iff,
}

abbrev pub Registry : Type 0
Registry = List (Bytes × ℕ)

abbrev pub conn_for : Bytes → Registry → Option ℕ
conn_for client [] = none
conn_for client ((k, c) ∷ rs) = if same k client then some c else conn_for client rs

abbrev pub set_conn : Bytes → ℕ → Registry → Registry
set_conn client c [] = (client, c) ∷ []
set_conn client c ((k, x) ∷ rs) =
    if same k client then (client, c) ∷ rs else (k, x) ∷ set_conn client c rs

-- The connection that was there before, and the registry.
unfoldable pub register_conn : Bytes → ℕ → Registry → Option ℕ × Registry
register_conn client c rs = (conn_for client rs, set_conn client c rs)

abbrev pub delete_if : Bytes → ℕ → Registry → Option ℕ → Registry
delete_if client c rs none = rs
delete_if client c rs (some cur) = if cur == c then keep (λ r. not (same r.0 client)) rs else rs

unfoldable pub unregister_conn_if_same : Bytes → ℕ → Registry → Registry
unregister_conn_if_same client c rs = delete_if client c rs (conn_for client rs)

pub data Change : Type 0 where
  register unregister : Bytes → ℕ → Change

unfoldable pub apply : List Change → Registry → Registry
unfolding register_conn unregister_conn_if_same
apply [] rs = rs
apply (register k c ∷ xs) rs = apply xs (register_conn k c rs).1
apply (unregister k c ∷ xs) rs = apply xs (unregister_conn_if_same k c rs)

-- A change that is neither a takeover of this client nor the end of this connection.
abbrev pub Spares : Bytes → ℕ → Change → Type 0
Spares client c (register k d) = same k client ≡ false
Spares client c (unregister k d) = d ≢ c

conn_for-set_conn :
    (client k : Bytes) (c : ℕ) (rs : Registry)
    → conn_for client (set_conn k c rs) ≡ (if same k client then some c else conn_for client rs)
conn_for-set_conn client k c [] = refl
conn_for-set_conn client k c ((j, x) ∷ rs) = elim (Bool-cases (same j k)) [
  | inl e ↦
      rw (e, (same_iff j k).0 e)
        (elim (Bool-cases (same k client)) [ inl f ↦ rw f refl | inr f ↦ rw f refl ])
  | inr e ↦ rw e (elim (Bool-cases (same j client)) [
    | inl f ↦ rw f (apart j k client e f)
    | inr f ↦ rw f (conn_for-set_conn client k c rs)
  ])
]
  where
    apart :
        (j k client : Bytes)
        → same j k ≡ false
        → same j client ≡ true
        → some x ≡ (if same k client then some c else some x)
    apart j k client e f = elim (Bool-cases (same k client)) [
      | inl g ↦ absurd (cc (e, (same_iff k client).0 g))
      | inr g ↦ rw g refl
    ]

pub conn_for-keep :
    (client k : Bytes) (rs : Registry)
    → same k client ≡ false
    → conn_for client (keep (λ r. not (same r.0 k)) rs) ≡ conn_for client rs
conn_for-keep client k [] h = refl
conn_for-keep client k ((j, x) ∷ rs) h = elim (Bool-cases (same j k)) [
  | inl e ↦
      rw (e, subst (λ y. same y client ≡ false) (sym ((same_iff j k).0 e)) h)
        (conn_for-keep client k rs h)
  | inr e ↦ rw e (elim (Bool-cases (same j client)) [
    | inl f ↦ rw f refl
    | inr f ↦ rw f (conn_for-keep client k rs h)
  ])
]

unregister-spares :
    (client k : Bytes) (c d : ℕ) (rs : Registry) (o : Option ℕ)
    → conn_for k rs ≡ o
    → conn_for client rs ≡ some c
    → d ≢ c
    → conn_for client (delete_if k d rs o) ≡ some c
unregister-spares client k c d rs none e h n = h
unregister-spares client k c d rs (some cur) e h n =
    if_both (λ x. conn_for client x ≡ some c) (cur == d)
      (λ m. elim (Bool-cases (same k client)) [
        | inl s ↦ absurd (n (taken s ((==_iff cur d).0 m)))
        | inr s ↦ conn_for-keep client k rs s ∙ h
      ])
      λ _. h
  where
    value : Option ℕ → ℕ
    value none = 0
    value (some y) = y

    taken : same k client ≡ true → cur ≡ d → d ≡ c
    taken s m = sym m ∙ ap value (sym e ∙ ap (λ j. conn_for j rs) ((same_iff k client).0 s) ∙ h)

stays :
    (client : Bytes) (c : ℕ) (xs : List Change) (rs : Registry)
    → All (Spares client c) xs
    → conn_for client rs ≡ some c
    → conn_for client (apply xs rs) ≡ some c
unfolding apply
stays client c [] rs h e = e
stays client c (register k d ∷ xs) rs (h, a) e =
    stays client c xs _ a (unfold register_conn in (conn_for-set_conn client k d rs ∙ rw h e))
stays client c (unregister k d ∷ xs) rs (h, a) e =
    stays client c xs _ a (
      unfold unregister_conn_if_same in
      (unregister-spares client k c d rs (conn_for k rs) refl e h))

-- Once a connection is registered for a client, it is the one that is found for the client after any further
-- registrations of other clients and any endings of other connections, in particular that of the connection it has
-- replaced, in any order.
pub register_conn-stays :
    (client : Bytes) (c : ℕ) (xs : List Change) (rs : Registry)
    → All (Spares client c) xs
    → conn_for client (apply xs (register_conn client c rs).1) ≡ some c
unfolding register_conn
register_conn-stays client c xs rs h =
    stays client c xs _ h (conn_for-set_conn client client c rs ∙ rw (same_self client) refl)
