-- ===== src/Wire/Topic/Matching.antt =====
-- `mqtt_topic_match` of internal/db/migrations/0001_init.sql, which every query of the broker uses
-- to pair subscriptions with topics.
use pgmqtt.Prelude.{
  ℕ, ◌≡◌, refl, ◌↔◌, inl, inr, Bool, true, false, not, ◌&&◌, ◌||◌, none, List, [], ◌∷◌, arith,
  Bytes, same, same_iff, same_self, is_empty, ◌==◌, if◌then◌else◌, Bool-cases, All,
}
use pgmqtt.Wire.Topic.{plus, hash, split, push_byte, validate_topic_name}
use pgmqtt.Wire.Topic.Grammar.{validate_topic_name_iff, PlainLevel, split-plain}

-- string_to_array(s, '/'), which has no element for the empty text.
unfoldable pub levels_of : Bytes → List Bytes
unfolding split
levels_of [] = []
levels_of (c ∷ s) = split (c ∷ s)

-- The loop from the pair of positions that the two lists begin at; at the end it compares the lengths.
unfoldable pub match_levels : List Bytes → List Bytes → Bool
match_levels [] [] = true
match_levels [] (t ∷ ts) = false
match_levels (f ∷ fs) [] = if same f (hash ∷ []) then true else false
match_levels (f ∷ fs) (t ∷ ts) =
    if same f (hash ∷ [])
    then true
    else if not (same f (plus ∷ [])) && not (same f t)
    then false
    else match_levels fs ts

abbrev pub starts_with_dollar : Bytes → Bool
starts_with_dollar [] = false
starts_with_dollar (c ∷ s) = c == b'$'

abbrev pub wild_root : List Bytes → Bool
wild_root [] = false
wild_root (f ∷ fs) = same f (hash ∷ []) || same f (plus ∷ [])

abbrev pub match_arrays : List Bytes → List Bytes → Bytes → Bool
match_arrays [] ts topic = false
match_arrays (f ∷ fs) [] topic = false
match_arrays (f ∷ fs) (t ∷ ts) topic =
    if wild_root (f ∷ fs) && starts_with_dollar topic then false else match_levels (f ∷ fs) (t ∷ ts)

unfoldable pub topic_match : Bytes → Bytes → Bool
unfolding levels_of match_levels
topic_match filter topic = match_arrays (levels_of filter) (levels_of topic) topic

-- What it means for the levels of a filter to match those of a topic (MQTT 4.7.1).
pub data Matches : List Bytes → List Bytes → Type 0 where
  exact : Matches [] []
  -- `#` stands for any number of levels, none included.
  rest : {ts fs : List Bytes} → Matches ((hash ∷ []) ∷ fs) ts
  one : {t : Bytes} {fs ts : List Bytes} → Matches fs ts → Matches ((plus ∷ []) ∷ fs) (t ∷ ts)
  equal : {t : Bytes} {fs ts : List Bytes} → Matches fs ts → Matches (t ∷ fs) (t ∷ ts)

match_levels-Matches : (fs ts : List Bytes) → match_levels fs ts ≡ true → Matches fs ts
unfolding match_levels
match_levels-Matches [] [] h = exact
match_levels-Matches [] (t ∷ ts) h = cc
match_levels-Matches (f ∷ fs) [] h = rw ((same_iff f (hash ∷ [])).0 (ground arith)) rest
match_levels-Matches (f ∷ fs) (t ∷ ts) h = elim (Bool-cases (same f (hash ∷ []))) [
  | inl e ↦ rw ((same_iff f (hash ∷ [])).0 e) rest
  | inr e ↦ elim (Bool-cases (same f (plus ∷ []))) [
    | inl e' ↦ rw ((same_iff f (plus ∷ [])).0 e') (one (match_levels-Matches fs ts (ground arith)))
    | inr e' ↦
        rw ((same_iff f t).0 (ground arith)) (equal (match_levels-Matches fs ts (ground arith)))
  ]
]

Matches-match_levels : {fs ts : List Bytes} → Matches fs ts → match_levels fs ts ≡ true
unfolding match_levels
Matches-match_levels exact = refl
Matches-match_levels (rest {ts = []}) = refl
Matches-match_levels (rest {ts = t ∷ ts}) = refl
Matches-match_levels (one m) = ground (arith, Matches-match_levels m)
Matches-match_levels (equal {t} m) = ground (arith, Matches-match_levels m, same_self t)

push_byte-nonempty : (c : ℕ) (ps : List Bytes) → is_empty (push_byte c ps) ≡ false
push_byte-nonempty c [] = refl
push_byte-nonempty c (p ∷ ps) = refl

split-nonempty : (t : Bytes) → is_empty (split t) ≡ false
unfolding split
split-nonempty [] = refl
split-nonempty (c ∷ t) = ground (arith, push_byte-nonempty c (split t))

module _ (topic : Bytes) where
  arrays_match :
      (fs ts : List Bytes)
      → match_arrays fs ts topic ≡ true
      → ((wild_root fs && starts_with_dollar topic) ≡ false) × Matches fs ts
  arrays_match [] ts h = cc
  arrays_match (f ∷ fs) [] h = cc
  arrays_match (f ∷ fs) (t ∷ ts) h =
      (ground arith, match_levels-Matches (f ∷ fs) (t ∷ ts) (ground arith))

  match_arrays_of :
      (fs ts : List Bytes)
      → is_empty fs ≡ false
      → is_empty ts ≡ false
      → (wild_root fs && starts_with_dollar topic) ≡ false
      → Matches fs ts
      → match_arrays fs ts topic ≡ true
  match_arrays_of [] ts h k d m = cc
  match_arrays_of (f ∷ fs) [] h k d m = cc
  match_arrays_of (f ∷ fs) (t ∷ ts) h k d m = rw d (Matches-match_levels m)

no_levels : (topic : Bytes) (fs : List Bytes) → match_arrays fs [] topic ≡ false
no_levels topic [] = refl
no_levels topic (f ∷ fs) = refl

abbrev TopicMatches : Bytes → Bytes → Type 0
TopicMatches filter topic =
    (is_empty filter ≡ false)
    × (is_empty topic ≡ false)
    × ((wild_root (split filter) && starts_with_dollar topic) ≡ false)
    × Matches (split filter) (split topic)

match_sound : (filter topic : Bytes) → topic_match filter topic ≡ true → TopicMatches filter topic
unfolding topic_match
match_sound [] t h = cc
match_sound (c ∷ f) [] h = absurd (cc (no_levels [] (levels_of (c ∷ f))))
match_sound (c ∷ f) (d ∷ t) h =
    let (a, b) = arrays_match (d ∷ t) (split (c ∷ f)) (split (d ∷ t)) h in (refl, refl, a, b)

match_complete :
    (filter topic : Bytes) → TopicMatches filter topic → topic_match filter topic ≡ true
unfolding topic_match
match_complete [] t h = cc
match_complete (c ∷ f) [] h = cc
match_complete (c ∷ f) (d ∷ t) (_, _, a, b) =
    match_arrays_of (d ∷ t) (split (c ∷ f)) (split (d ∷ t)) (split-nonempty (c ∷ f))
      (split-nonempty (d ∷ t)) a b

-- `mqtt_topic_match` answers true exactly when neither text is empty, a filter that begins with a
-- wildcard level does not meet a topic that begins with `$`, and the levels of the filter match
-- those of the topic, where `#` stands for any number of levels and `+` for one.
pub topic_match_iff :
    (filter topic : Bytes)
    → (topic_match filter topic ≡ true) ↔ (
        (is_empty filter ≡ false)
        × (is_empty topic ≡ false)
        × ((wild_root (split filter) && starts_with_dollar topic) ≡ false)
        × Matches (split filter) (split topic))
topic_match_iff filter topic = (match_sound filter topic, match_complete filter topic)

Matches-self : (ts : List Bytes) → Matches ts ts
Matches-self [] = exact
Matches-self (t ∷ ts) = equal (Matches-self ts)

plain-root : (ps : List Bytes) → All PlainLevel ps → wild_root ps ≡ false
plain-root [] h = refl
plain-root (p ∷ ps) ((a, b), h) = ground (arith, same_iff p (hash ∷ []), same_iff p (plus ∷ []))

-- A subscription to a valid topic name receives what is published to that name, also one that
-- begins with `$`.
topic_match_self : (t : Bytes) → validate_topic_name t ≡ none → topic_match t t ≡ true
topic_match_self t h =
    let (text, a, b) = (validate_topic_name_iff t).0.0 h in
    match_complete t t (
      text.nonempty,
      text.nonempty,
      rw (plain-root (split t) (split-plain t a b)),
      Matches-self (split t),
    )
