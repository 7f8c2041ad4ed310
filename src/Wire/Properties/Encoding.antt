-- ===== src/Wire/Properties/Encoding.antt =====
-- Properties of a CONNECT as bytes, and the walk over them.
use native.Mathlib.Nat.{zero-add, add-zero}
use pgmqtt.Prelude.{
  ℕ, zero, suc, ◌+◌, ◌/◌, ◌%◌, ◌≤◌, ◌<◌, ◌≡◌, refl, sym, ap, subst, ◌∙◌, some, List, [], ◌∷◌, ◌++◌,
  arith, Bytes, length, drop, drop-length-append, length-append, append_assoc,
}
use pgmqtt.Wire.Properties.{
  Turn, go_on, return, Outcome, present, absent, byte_at, skip_string, then_skip, read_u32,
  property, turn, walk,
}

-- The properties that a CONNECT may carry; a number is one byte, the size of 32 bits.
pub data Property : Type 0 where
  session_expiry : ℕ → ℕ → ℕ → ℕ → Property
  auth_method auth_data : Bytes → Property
  problem_info response_info : ℕ → Property
  receive_maximum alias_maximum : ℕ → ℕ → Property
  user_property : Bytes → Bytes → Property
  maximum_packet_size : ℕ → Property

abbrev u16 : ℕ → Bytes
u16 n = n / 256 ∷ n % 256 ∷ []

abbrev pub text : Bytes → Bytes
text s = length s / 256 ∷ length s % 256 ∷ s

unfoldable pub encode_property : Property → Bytes
encode_property (session_expiry a b c d) = 0x11 ∷ a ∷ b ∷ c ∷ d ∷ []
encode_property (auth_method s) = 0x15 ∷ text s
encode_property (auth_data s) = 0x16 ∷ text s
encode_property (problem_info b) = 0x17 ∷ b ∷ []
encode_property (response_info b) = 0x19 ∷ b ∷ []
encode_property (receive_maximum a b) = 0x21 ∷ a ∷ b ∷ []
encode_property (alias_maximum a b) = 0x22 ∷ a ∷ b ∷ []
encode_property (user_property k v) = 0x26 ∷ text k ++ text v
encode_property (maximum_packet_size n) = 0x27 ∷ u16 (n / 65536) ++ u16 (n % 65536)

unfoldable pub encode_properties : List Property → Bytes
unfolding encode_property
encode_properties [] = []
encode_properties (p ∷ ps) = encode_property p ++ encode_properties ps

-- The first Maximum Packet Size of the block.
abbrev pub first_size : List Property → Outcome
first_size [] = absent
first_size (maximum_packet_size n ∷ ps) = present n
first_size (p ∷ ps) = first_size ps

suc_index : (i k : ℕ) → suc i + k ≡ suc (i + k)
suc_index i k = omega arith

byte_at-drop : (i k : ℕ) (body : Bytes) → byte_at body (i + k) ≡ byte_at (drop i body) k
byte_at-drop zero k body = rw zero-add
byte_at-drop (suc i) k [] = refl
byte_at-drop (suc i) k (b ∷ body) = rw suc_index (byte_at-drop i k body)

drop_nil : (n : ℕ) → drop {A = ℕ} n [] ≡ []
drop_nil zero = refl
drop_nil (suc n) = refl

drop-drop : (i k : ℕ) (body : Bytes) → drop (i + k) body ≡ drop k (drop i body)
drop-drop zero k body = rw zero-add
drop-drop (suc i) k [] = drop_nil _ ∙ sym (drop_nil k)
drop-drop (suc i) k (b ∷ body) = rw suc_index (drop-drop i k body)

module _ (body : Bytes) where
  -- The text at an offset shows what the walk reads there.
  read_at : (off k : ℕ) (s : Bytes) → drop off body ≡ s → byte_at body (off + k) ≡ byte_at s k
  read_at off k s h = byte_at-drop off k body ∙ ap (λ t. byte_at t k) h

  pub go_past : (off : ℕ) (s t : Bytes) → drop off body ≡ s ++ t → drop (off + length s) body ≡ t
  go_past off s t h =
      drop-drop off (length s) body ∙ ap (drop (length s)) h ∙ drop-length-append s t

  pub first_at : (off b : ℕ) (s : Bytes) → drop off body ≡ b ∷ s → byte_at body off ≡ some b
  first_at off b s h = subst (λ i. byte_at body i ≡ some b) (add-zero off) (read_at off 0 _ h)

  next_at : (off b : ℕ) (s : Bytes) → drop off body ≡ b ∷ s → drop (off + 1) body ≡ s
  next_at off b s h = go_past off (b ∷ []) s h

  module _ (end : ℕ) where
    skip_string-text :
        (off : ℕ) (s rest : Bytes)
        → drop off body ≡ text s ++ rest
        → off + length (text s) ≤ end
        → skip_string body end off ≡ go_on (off + length (text s))
    unfolding skip_string
    skip_string-text off s rest h k =
        ground (arith, byte_at-drop off 0 body, byte_at-drop off 1 body)

    read_u32-value :
        (off n : ℕ) (rest : Bytes)
        → drop off body ≡ u16 (n / 65536) ++ (u16 (n % 65536) ++ rest)
        → off + 4 ≤ end
        → read_u32 body end off ≡ return (present n)
    unfolding read_u32
    read_u32-value off n rest h k =
        ground (arith, read_at off 0 _ h, read_at off 1 _ h, read_at off 2 _ h, read_at off 3 _ h)

    pair_skipped :
        (a b : Bytes) (off : ℕ) (rest : Bytes)
        → drop (off + 1) body ≡ text a ++ (text b ++ rest)
        → off + 1 + length (text a) + length (text b) ≤ end
        → then_skip body end (skip_string body end (off + 1))
          ≡ go_on (off + 1 + length (text a) + length (text b))
    pair_skipped a b off rest h k =
        rw (skip_string-text (off + 1) a (text b ++ rest) h (omega arith)) (
          skip_string-text (off + 1 + length (text a)) b rest
            (go_past (off + 1) (text a) (text b ++ rest) h) k)

    -- What a turn does at an encoded property.
    abbrev Turns : Property → ℕ → Turn
    Turns (maximum_packet_size n) off = return (present n)
    Turns p off = go_on (off + length (encode_property p))

    turn_lem :
        (p : Property) (off : ℕ) (rest : Bytes)
        → drop off body ≡ encode_property p ++ rest
        → off + length (encode_property p) ≤ end
        → turn body end off (byte_at body off) ≡ Turns p off
    unfolding encode_property property
    turn_lem (session_expiry a b c d) off rest h k = rw (first_at off _ _ h) (ground arith)
    turn_lem (auth_method s) off rest h k =
        rw (first_at off _ _ h)
          (skip_string-text (off + 1) s rest (next_at off _ _ h) (omega arith) ∙ ground arith)
    turn_lem (auth_data s) off rest h k =
        rw (first_at off _ _ h)
          (skip_string-text (off + 1) s rest (next_at off _ _ h) (omega arith) ∙ ground arith)
    turn_lem (problem_info b) off rest h k = rw (first_at off _ _ h) (ground arith)
    turn_lem (response_info b) off rest h k = rw (first_at off _ _ h) (ground arith)
    turn_lem (receive_maximum a b) off rest h k = rw (first_at off _ _ h) (ground arith)
    turn_lem (alias_maximum a b) off rest h k = rw (first_at off _ _ h) (ground arith)
    turn_lem (user_property a b) off rest h k = rw (first_at off _ _ h) (
        pair_skipped a b off rest (next_at off _ _ h ∙ append_assoc (text a) (text b) rest)
          (omega (arith, length-append a (text b)))
        ∙ ground (arith, length-append a (text b)))
    turn_lem (maximum_packet_size n) off rest h k =
        rw (first_at off _ _ h) (read_u32-value (off + 1) n rest (next_at off _ _ h) (omega arith))

    pub encode-nonempty : (p : Property) → 0 < length (encode_property p)
    unfolding encode_property
    encode-nonempty (session_expiry a b c d) = omega arith
    encode-nonempty p = omega arith

    walk_step :
        (fuel off off' : ℕ)
        → off < end
        → off' ≤ end
        → turn body end off (byte_at body off) ≡ go_on off'
        → walk (suc fuel) body end off ≡ walk fuel body end off'
    unfolding walk
    walk_step fuel off off' h k e = ground (arith, e)

    walk_stop :
        (fuel off : ℕ) (r : Outcome)
        → off < end
        → turn body end off (byte_at body off) ≡ return r
        → walk (suc fuel) body end off ≡ r
    unfolding walk
    walk_stop fuel off r h e = ground (arith, e)

    walk_property :
        (p : Property) (ps : List Property) (fuel off : ℕ)
        → off + length (encode_property p) ≤ end
        → turn body end off (byte_at body off) ≡ Turns p off
        → walk fuel body end (off + length (encode_property p)) ≡ first_size ps
        → walk (suc fuel) body end off ≡ first_size (p ∷ ps)
    walk_property (maximum_packet_size n) ps fuel off k t ih =
        walk_stop fuel off _ (omega (arith, encode-nonempty (maximum_packet_size n))) t
    walk_property q ps fuel off k t ih =
        walk_step fuel off _ (omega (arith, encode-nonempty q)) k t ∙ ih

    pub walk_found :
        (fuel off : ℕ) (ps : List Property) (rest : Bytes)
        → drop off body ≡ encode_properties ps ++ rest
        → off + length (encode_properties ps) ≡ end
        → length (encode_properties ps) < fuel
        → walk fuel body end off ≡ first_size ps
    unfolding encode_properties
    walk_found zero off ps rest h e f = absurd (omega arith)
    walk_found (suc fuel) off [] rest h e f = unfold walk in ground arith
    walk_found (suc fuel) off (p ∷ ps) rest h e f =
        let split = length-append (encode_property p) (encode_properties ps) in
        let next = h ∙ append_assoc (encode_property p) (encode_properties ps) rest in
        walk_property p ps fuel off (omega arith)
          (turn_lem p off (encode_properties ps ++ rest) next (omega arith))
          (walk_found fuel _ ps rest (go_past off _ _ next) (omega arith)
            (omega (arith, encode-nonempty p)))
