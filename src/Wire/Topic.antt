-- ===== src/Wire/Topic.antt =====
-- internal/mqtt/topic.go: validation of topic names and filters, and shared subscriptions. Strings
-- are lists of bytes; what is used of Go's `utf8` and `strings` packages is written out.
pub mod Grammar
pub mod Shared
pub mod Matching
use pgmqtt.Prelude.{
  ℕ, ◌+◌, ◌-◌, Bool, true, false, not, ◌&&◌, ◌||◌, Option, none, some, List, [], ◌∷◌, Bytes, length,
  is_empty, any, same, leb, ltb, ◌==◌, if◌then◌else◌,
}

abbrev pub slash : ℕ
slash = b'/'

abbrev pub plus : ℕ
plus = b'+'

abbrev pub hash : ℕ
hash = b'#'

-- The bytes that may follow a lead byte, as ranges: the table of Go's `unicode/utf8`.
abbrev pub Ranges : Type 0
Ranges = List (ℕ × ℕ)

abbrev pub cont : ℕ × ℕ
cont = (0x80, 0xBF)

unfoldable pub utf8_lead : ℕ → Option Ranges
utf8_lead b =
    if ltb b 0x80
    then some []
    else if ltb b 0xC2
    then none
    else if ltb b 0xE0
    then some (cont ∷ [])
    else if b == 0xE0
    then some ((0xA0, 0xBF) ∷ cont ∷ [])
    else if b == 0xED
    then some ((0x80, 0x9F) ∷ cont ∷ [])
    else if ltb b 0xF0
    then some (cont ∷ cont ∷ [])
    else if b == 0xF0
    then some ((0x90, 0xBF) ∷ cont ∷ cont ∷ [])
    else if ltb b 0xF4
    then some (cont ∷ cont ∷ cont ∷ [])
    else if b == 0xF4
    then some ((0x80, 0x8F) ∷ cont ∷ cont ∷ [])
    else none

-- The first argument holds the continuation bytes that are still due.
unfoldable pub utf8_scan : Ranges → Bytes → Bool
unfolding utf8_lead
utf8_scan [] [] = true
utf8_scan (r ∷ rs) [] = false
utf8_scan [] (b ∷ s) = elim (utf8_lead b) [ none ↦ false | some rs ↦ utf8_scan rs s ]
utf8_scan ((lo, hi) ∷ rs) (b ∷ s) = leb lo b && leb b hi && utf8_scan rs s

-- utf8.ValidString
unfoldable pub valid_utf8 : Bytes → Bool
unfolding utf8_scan
valid_utf8 s = utf8_scan [] s

-- strings.Contains with a pattern of one byte
abbrev pub contains : ℕ → Bytes → Bool
contains c = any (λ b. b == c)

abbrev pub push_byte : ℕ → List Bytes → List Bytes
push_byte c [] = (c ∷ []) ∷ []
push_byte c (p ∷ ps) = (c ∷ p) ∷ ps

-- strings.Split(s, "/")
unfoldable pub split : Bytes → List Bytes
split [] = [] ∷ []
split (c ∷ s) = let rest = split s in if c == slash then [] ∷ rest else push_byte c rest

pub data TopicError : Type 0 where
  invalid_topic_name invalid_topic_filter : TopicError

abbrev pub max_topic_length : ℕ
max_topic_length = 65535

-- `none` is Go's nil error.
unfoldable pub validate_topic_name : Bytes → Option TopicError
validate_topic_name t =
    if is_empty t || ltb max_topic_length (length t)
    then some invalid_topic_name
    else if not (valid_utf8 t)
    then some invalid_topic_name
    else if any (λ b. b == plus || b == hash || b == 0) t
    then some invalid_topic_name
    else none

-- The three tests of the loop body on part number `i` of `n`.
abbrev pub level_fails : ℕ → ℕ → Bytes → Bool
level_fails n i p =
    contains hash p && not (same p (hash ∷ []))
    || contains plus p && not (same p (plus ∷ []))
    || same p (hash ∷ []) && not (i == n - 1)

unfoldable pub check_levels : ℕ → ℕ → List Bytes → Option TopicError
check_levels n i [] = none
check_levels n i (p ∷ ps) =
    if level_fails n i p then some invalid_topic_filter else check_levels n (i + 1) ps

unfoldable pub validate_topic_filter : Bytes → Option TopicError
validate_topic_filter t =
    if is_empty t || ltb max_topic_length (length t)
    then some invalid_topic_filter
    else if not (valid_utf8 t)
    then some invalid_topic_filter
    else if contains 0 t
    then some invalid_topic_filter
    else let parts = split t in check_levels (length parts) 0 parts
