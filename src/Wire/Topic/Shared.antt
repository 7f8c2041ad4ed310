-- ===== src/Wire/Topic/Shared.antt =====
-- `SharedSubscription` of internal/mqtt/topic.go: the form $share/{group}/{filter}.
use pgmqtt.Prelude.{
  ℕ, zero, suc, ◌≡◌, refl, sym, ap, ◌↔◌, Bool, true, false, Option, none, some, [], ◌∷◌, ◌++◌,
  arith, Bytes, codes, Option-cases, take, drop, length, is_empty, ==_iff, ◌==◌, if◌then◌else◌,
  Bool-cases, inl, inr, ◌∙◌,
}
use pgmqtt.Wire.Topic.{slash, contains}

-- What follows the prefix, if the text has it (strings.HasPrefix and the slice after it).
unfoldable pub strip_prefix : Bytes → Bytes → Option Bytes
strip_prefix [] t = some t
strip_prefix (p ∷ ps) [] = none
strip_prefix (p ∷ ps) (c ∷ t) = if p == c then strip_prefix ps t else none

-- strings.IndexByte, with `none` for -1
unfoldable pub index_byte : ℕ → Bytes → Option ℕ
index_byte c [] = none
index_byte c (b ∷ s) =
    if b == c then some 0 else elim (index_byte c s) [ none ↦ none | some i ↦ some (suc i) ]

abbrev pub share_prefix : Bytes
share_prefix = codes "$share/"

pub record Shared : Type 0 where
  pub group : Bytes
  pub filter : Bytes
  pub shared : Bool

abbrev pub not_shared : Bytes → Shared
not_shared t = record { group = []; filter = t; shared = false }

-- `slash <= 0` holds at -1 and at 0.
abbrev pub cut_group : Bytes → Bytes → Option ℕ → Shared
cut_group t rest none = not_shared t
cut_group t rest (some zero) = not_shared t
cut_group t rest (some (suc i)) = record {
  group = take (suc i) rest;
  filter = drop (suc (suc i)) rest;
  shared = true;
}

abbrev pub after_prefix : Bytes → Option Bytes → Shared
after_prefix t none = not_shared t
after_prefix t (some rest) = cut_group t rest (index_byte slash rest)

unfoldable pub shared_subscription : Bytes → Shared
unfolding strip_prefix index_byte
shared_subscription t = after_prefix t (strip_prefix share_prefix t)

strip_prefix-append : (p t : Bytes) → strip_prefix p (p ++ t) ≡ some t
unfolding strip_prefix
strip_prefix-append [] t = refl
strip_prefix-append (c ∷ p) t = ground (arith, strip_prefix-append p t)

strip_prefix_inv : (p t r : Bytes) → strip_prefix p t ≡ some r → t ≡ p ++ r
unfolding strip_prefix
strip_prefix_inv [] t r h = ground arith
strip_prefix_inv (c ∷ p) [] r h = cc
strip_prefix_inv (c ∷ p) (d ∷ t) r h = ground (arith, strip_prefix_inv p t r)

-- The first separator splits the text.
index_byte-found :
    (c i : ℕ) (s : Bytes)
    → index_byte c s ≡ some i
    → (s ≡ take i s ++ c ∷ drop (suc i) s) × (contains c (take i s) ≡ false)
unfolding index_byte
index_byte-found c i [] h = cc
index_byte-found c zero (b ∷ s) h = elim (Bool-cases (b == c)) [
  | inl e ↦ (ap (λ x. x ∷ s) ((==_iff b c).0 e), refl)
  | inr e ↦ ground arith
]
index_byte-found c (suc i) (b ∷ s) h = ground (arith, index_byte-found c i s)

index_byte-append :
    (c : ℕ) (g f : Bytes)
    → contains c g ≡ false
    → (index_byte c (g ++ c ∷ f) ≡ some (length g))
      × (take (length g) (g ++ c ∷ f) ≡ g)
      × (drop (suc (length g)) (g ++ c ∷ f) ≡ f)
unfolding index_byte
index_byte-append c [] f h = ground arith
index_byte-append c (b ∷ g) f h = ground (arith, index_byte-append c g f)

abbrev share : Bytes → Bytes → Bytes
share g f = share_prefix ++ (g ++ slash ∷ f)

shared_form :
    (g f : Bytes)
    → is_empty g ≡ false
    → contains slash g ≡ false
    → shared_subscription (share g f) ≡ record { group = g; filter = f; shared = true }
shared_form [] f h k = cc
shared_form (b ∷ g) f h k =
    let (at, front, back) = index_byte-append slash (b ∷ g) f k in
    unfold shared_subscription in
    ground (arith, at, front, back, strip_prefix-append share_prefix ((b ∷ g) ++ slash ∷ f))

abbrev IsShare : Bytes → Bytes → Bytes → Type 0
IsShare t g f = (t ≡ share g f) × (is_empty g ≡ false) × (contains slash g ≡ false)

cut_group_inv :
    (t rest g f : Bytes) (o : Option ℕ)
    → index_byte slash rest ≡ o
    → cut_group t rest o ≡ record { group = g; filter = f; shared = true }
    → (rest ≡ g ++ slash ∷ f) × (is_empty g ≡ false) × (contains slash g ≡ false)
cut_group_inv t rest g f none e h = cc
cut_group_inv t rest g f (some zero) e h = cc
cut_group_inv t [] g f (some (suc i)) e h = unfold index_byte in cc
cut_group_inv t (b ∷ rest) g f (some (suc i)) e h =
    ground (arith, index_byte-found slash (suc i) (b ∷ rest))

shared_inv :
    (t g f : Bytes)
    → shared_subscription t ≡ record { group = g; filter = f; shared = true }
    → IsShare t g f
unfolding shared_subscription
shared_inv t g f h = elim (Option-cases (strip_prefix share_prefix t)) [
  | inl e ↦ absurd (cc (ap (λ o. after_prefix t o) e))
  | inr (rest, e) ↦
      let (a, b, c) =
        cut_group_inv t rest g f (index_byte slash rest) refl
          (sym (ap (λ o. after_prefix t o) e) ∙ h) in
      (strip_prefix_inv share_prefix t rest e ∙ ap (λ r. share_prefix ++ r) a, b, c)
]

-- A subscription is taken for a shared one exactly when it reads $share/{group}/{filter} with a
-- group that is neither empty nor contains a slash, and group and filter are then those two parts.
pub shared_subscription_iff :
    (t g f : Bytes)
    → (shared_subscription t ≡ record { group = g; filter = f; shared = true })
      ↔ ((t ≡ share_prefix ++ (g ++ slash ∷ f)) × (is_empty g ≡ false) × (contains slash g ≡ false))
shared_subscription_iff t g f = (shared_inv t g f, λ (e, h, k). rw e (shared_form g f h k))
