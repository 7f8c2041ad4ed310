-- ===== src/Engine/Subscribe/Coded.antt =====
-- The reason codes of SUBACK against the grammar of filters.
use pgmqtt.Prelude.{
  ℕ, ◌≤◌, ◌<◌, ◌≡◌, refl, ap, ◌↔◌, true, false, Option, none, some, ◌∷◌, ◌++◌, arith, Bytes,
  is_empty,
}
use pgmqtt.Wire.Topic.{TopicError, slash, contains, split, validate_topic_filter}
use pgmqtt.Wire.Topic.Shared.{share_prefix, shared_subscription, shared_subscription_iff}
use pgmqtt.Wire.Topic.Grammar.{IsTopicText, Levels, validate_topic_filter_iff}
use pgmqtt.Engine.Subscribe.{Asked, is_valid, is_shared, code_of}

-- $share/{group}/{filter}
abbrev pub IsShare : Bytes → Type 0
IsShare t =
    (g : Bytes) × (f : Bytes) × (t ≡ share_prefix ++ (g ++ slash ∷ f))
    × (is_empty g ≡ false)
    × (contains slash g ≡ false)

abbrev pub IsFilter : Bytes → Type 0
IsFilter t = IsTopicText t × Levels (split t)

is_shared_iff : (t : Bytes) → (is_shared t ≡ true) ↔ IsShare t
is_shared_iff t = (
  λ h.
      let s = shared_subscription t in
      let (a, b, c) =
        (shared_subscription_iff t s.group s.filter).0
          (ap (λ b. record { group = s.group; filter = s.filter; shared = b }) h) in
      (s.group, s.filter, a, b, c),
  λ (g, f, a, b, c). ap (λ s. s.shared) ((shared_subscription_iff t g f).1 (a, b, c)),
)

is_valid_inv : (o : Option TopicError) → is_valid o ≡ true → o ≡ none
is_valid_inv none h = refl
is_valid_inv (some e) h = cc

pub is_valid_iff : (t : Bytes) → (is_valid (validate_topic_filter t) ≡ true) ↔ IsFilter t
is_valid_iff t = (
  λ h. (validate_topic_filter_iff t).0 (is_valid_inv (validate_topic_filter t) h),
  λ h. ap is_valid ((validate_topic_filter_iff t).1 h),
)

-- The code of a filter: 0x9E for a shared subscription; 0x8F for another text that is no filter by the grammar; and for
-- the rest the QoS asked for if that is at most 2, else 0x80.
pub record Coded (f : Asked) (k : ℕ) : Type 0 where
  pub shared : IsShare f.filter → k ≡ 0x9E
  pub unfit : ¬ IsShare f.filter → ¬ IsFilter f.filter → k ≡ 0x8F
  pub granted : ¬ IsShare f.filter → IsFilter f.filter → f.qos ≤ 2 → k ≡ f.qos
  pub excessive : ¬ IsShare f.filter → IsFilter f.filter → 2 < f.qos → k ≡ 0x80

pub code_of-Coded : (f : Asked) → Coded f (code_of f)
code_of-Coded f = record {
  shared = λ s. ground (arith, (is_shared_iff f.filter).1 s);
  unfit = λ s v. ground (arith, is_shared_iff f.filter, is_valid_iff f.filter, s, v);
  granted = λ s v q. ground (arith, is_shared_iff f.filter, is_valid_iff f.filter, s, v, q);
  excessive = λ s v q. ground (arith, is_shared_iff f.filter, is_valid_iff f.filter, s, v, q);
}
