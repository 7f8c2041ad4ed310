-- ===== src/Wire/Topic/Grammar.antt =====
-- The filters and names that topic.go accepts are exactly those of the grammar of MQTT 4.7.1.
use pgmqtt.Prelude.{
  ℕ, suc, ◌+◌, ◌≤◌, ◌≡◌, refl, sym, ◌∙◌, subst, ◌↔◌, ◌⊎◌, inl, inr, Bool, true, false, not, ◌||◌,
  Option, none, some, List, [], ◌∷◌, arith, Bytes, length, is_empty, any, same_iff, Bool-cases, ltb,
  if◌then◌else◌, ◌==◌, All,
}
use native.Mathlib.Nat.{zero-add}
use pgmqtt.Wire.Topic.{
  plus, hash, valid_utf8, contains, split, max_topic_length, validate_topic_name, level_fails,
  check_levels, validate_topic_filter, push_byte,
}

-- A level of a filter that is not the multi-level wildcard.
pub data Level : Bytes → Type 0 where
  single : Level (plus ∷ [])
  plain : {p : Bytes} → contains hash p ≡ false → contains plus p ≡ false → Level p

abbrev pub PlainLevel : Bytes → Type 0
PlainLevel p = (contains hash p ≡ false) × (contains plus p ≡ false)

-- `#` may only be the last level.
pub data Levels : List Bytes → Type 0 where
  end : Levels []
  multi : Levels ((hash ∷ []) ∷ [])
  level : {p : Bytes} {ps : List Bytes} → Level p → Levels ps → Levels (p ∷ ps)

-- One level passes the three tests exactly when it is a level, or a last `#`.
abbrev Passes : Bytes → List Bytes → Type 0
Passes p ps = Level p ⊎ ((p ≡ hash ∷ []) × (ps ≡ []))

nil_of_length : (ps : List Bytes) → length ps ≡ 0 → ps ≡ []
nil_of_length [] h = refl
nil_of_length (p ∷ ps) h = absurd (omega arith)

level-Passes :
    (i : ℕ) (p : Bytes) (ps : List Bytes)
    → level_fails (i + suc (length ps)) i p ≡ false
    → Passes p ps
level-Passes i p ps h = elim (Bool-cases (contains hash p)) [
  | inl wild ↦ inr (
    ground (arith, same_iff p (hash ∷ [])),
    nil_of_length ps (ground (arith, same_iff p (hash ∷ []))),
  )
  | inr no_hash ↦ elim (Bool-cases (contains plus p)) [
    | inl wild ↦ inl (subst Level (sym (ground (arith, same_iff p (plus ∷ [])))) single)
    | inr no_plus ↦ inl (plain no_hash no_plus)
  ]
]

Passes-level :
    (i : ℕ) (p : Bytes) (ps : List Bytes)
    → Passes p ps
    → level_fails (i + suc (length ps)) i p ≡ false
Passes-level i p ps (inl single) = ground arith
Passes-level i p ps (inl (plain a b)) = ground (arith, same_iff p (hash ∷ []))
Passes-level i p ps (inr (e, e')) = rw (e, e') (ground arith)

Passes-step : (i : ℕ) (p : Bytes) (ps : List Bytes) → Levels ps → Passes p ps → Levels (p ∷ ps)
Passes-step i p ps ls (inl l) = level l ls
Passes-step i p ps ls (inr (e, e')) = rw (e, e') multi

check_levels-Levels :
    (i : ℕ) (ps : List Bytes) → check_levels (i + length ps) i ps ≡ none → Levels ps
unfolding check_levels
check_levels-Levels i [] h = end
check_levels-Levels i (p ∷ ps) h = elim (Bool-cases (level_fails (i + suc (length ps)) i p)) [
  | inl bad ↦ absurd (ground arith)
  | inr good ↦
      Passes-step i p ps (check_levels-Levels (i + 1) ps (ground arith)) (level-Passes i p ps good)
]

Levels-check_levels :
    (i : ℕ) {ps : List Bytes} → Levels ps → check_levels (i + length ps) i ps ≡ none
unfolding check_levels
Levels-check_levels i end = refl
Levels-check_levels i multi = ground arith
Levels-check_levels i (level {p} {ps} l ls) =
    ground (arith, Passes-level i p ps (inl l), Levels-check_levels (i + 1) ls)

-- What MQTT 4.7 asks of every topic, name or filter.
pub record IsTopicText (t : Bytes) : Type 0 where
  pub nonempty : is_empty t ≡ false
  pub short : length t ≤ max_topic_length
  pub utf8 : valid_utf8 t ≡ true
  pub no_nul : contains 0 t ≡ false

-- Three guards that each return an error, in a row.
module _ {ℓ} {E : Type ℓ} (e : E) where
  guards_pass :
      (a b c : Bool) (r : Option E)
      → (if a then some e else if b then some e else if c then some e else r) ≡ none
      → (a ≡ false) × (b ≡ false) × (c ≡ false) × (r ≡ none)
  guards_pass false false false r h = (refl, refl, refl, h)
  guards_pass true _ _ r h = cc
  guards_pass false true _ r h = cc
  guards_pass false false true r h = cc

or_false : (a b : Bool) → (a || b) ≡ false → (a ≡ false) × (b ≡ false)
or_false a b h = ground arith

not_long : (n k : ℕ) → ltb k n ≡ false → n ≤ k
not_long n k h = ground arith

short_enough : (n k : ℕ) → n ≤ k → ltb k n ≡ false
short_enough n k h = ground arith

not-false : (b : Bool) → not b ≡ false → b ≡ true
not-false b h = ground arith

filter_accepted : (t : Bytes) → validate_topic_filter t ≡ none → IsTopicText t × Levels (split t)
unfolding validate_topic_filter
filter_accepted t h =
    let (size, text, nul, rest) = guards_pass _ _ _ _ _ h in
    let (a, b) = or_false _ _ size in
    (
      record { nonempty = a; short = not_long _ _ b; utf8 = not-false _ text; no_nul = nul },
      check_levels-Levels 0 (split t) (rw zero-add rest),
    )

filter_grammar : (t : Bytes) → IsTopicText t × Levels (split t) → validate_topic_filter t ≡ none
unfolding validate_topic_filter
filter_grammar t (h, ls) =
    rw (h.nonempty, short_enough _ _ h.short, h.utf8, h.no_nul)
      (rw zero-add at (Levels-check_levels 0 ls))

-- `ValidateTopicFilter` returns nil exactly on the non-empty texts of at most 65535 bytes of valid
-- UTF-8 with no NUL whose levels follow the grammar: `#` only as the whole last level, `+` only as
-- a whole level.
pub validate_topic_filter_iff :
    (t : Bytes) → (validate_topic_filter t ≡ none) ↔ (IsTopicText t × Levels (split t))
validate_topic_filter_iff t = (filter_accepted t, filter_grammar t)

pub any_iff :
    (t : Bytes)
    → any (λ b. b == plus || b == hash || b == 0) t
      ≡ (contains plus t || contains hash t || contains 0 t)
any_iff [] = refl
any_iff (b ∷ t) = ground (arith, any_iff t)

three_false : (a b c : Bool) → (a || b || c) ≡ false → (a ≡ false) × (b ≡ false) × (c ≡ false)
three_false a b c h = ground arith

name_accepted :
    (t : Bytes)
    → validate_topic_name t ≡ none
    → IsTopicText t × (contains hash t ≡ false) × (contains plus t ≡ false)
unfolding validate_topic_name
name_accepted t h =
    let (size, text, wild, _) = guards_pass _ _ _ _ _ h in
    let (a, b) = or_false _ _ size in
    let (p, q, r) = three_false _ _ _ (sym (any_iff t) ∙ wild) in
    (record { nonempty = a; short = not_long _ _ b; utf8 = not-false _ text; no_nul = r }, q, p)

name_grammar :
    (t : Bytes)
    → IsTopicText t × (contains hash t ≡ false) × (contains plus t ≡ false)
    → validate_topic_name t ≡ none
unfolding validate_topic_name
name_grammar t (h, a, b) =
    rw (h.nonempty, short_enough _ _ h.short, h.utf8, any_iff t, a, b, h.no_nul)

-- Splitting a text with no wildcard gives levels with no wildcard.
push_byte-plain :
    (c : ℕ) (ps : List Bytes)
    → (c == hash) ≡ false
    → (c == plus) ≡ false
    → All PlainLevel ps
    → All PlainLevel (push_byte c ps)
push_byte-plain c [] a b h = ground arith
push_byte-plain c (p ∷ ps) a b h = ground arith

pub split-plain :
    (t : Bytes) → contains hash t ≡ false → contains plus t ≡ false → All PlainLevel (split t)
unfolding split
split-plain [] a b = ground arith
split-plain (c ∷ t) a b = ground (arith, split-plain t, push_byte-plain c (split t))

plain-Levels : (ps : List Bytes) → All PlainLevel ps → Levels ps
plain-Levels [] h = end
plain-Levels (p ∷ ps) ((a, b), h) = level (plain a b) (plain-Levels ps h)

-- `ValidateTopicName` returns nil exactly on the topic texts without `+` and `#`, and each of these
-- is also a valid filter.
pub validate_topic_name_iff :
    (t : Bytes)
    → ((validate_topic_name t ≡ none)
        ↔ (IsTopicText t × (contains hash t ≡ false) × (contains plus t ≡ false)))
      × (validate_topic_name t ≡ none → validate_topic_filter t ≡ none)
validate_topic_name_iff t = (
  (name_accepted t, name_grammar t),
  λ h.
      let (text, a, b) = name_accepted t h in
      filter_grammar t (text, plain-Levels (split t) (split-plain t a b)),
)
