-- ===== src/Wire/Codec/Reader.antt =====
-- `Reader`, `SetMaxPacketSize`, `Read` and `decodeBody` of internal/mqtt/codec.go. The buffered stream is
-- the list of the bytes that will still come, after which it is at its end.
use Prim.Native.Nat.{zero-le}
use pgmqtt.Prelude.{
  ℕ, ◌≤◌, ◌≡◌, ◌≢◌, ◌++◌, length-append, take-length-append, ◌+◌, suc, zero, ◌*◌, sym, ap, ◌∙◌,
  drop-length-append, refl, inl, inr, false, Option, none, some, [], ◌∷◌, arith, Bytes, length,
  take, drop, ltb, ◌==◌, if◌then◌else◌, Bool-cases,
}
use pgmqtt.Wire.Codec.{Mochi, PacketType, body, pingreq, pingresp, invalid, classify}

abbrev pub max_packet_size_bound : ℕ
max_packet_size_bound = 268435455

abbrev pub pre_connect_max_packet_size : ℕ
pre_connect_max_packet_size = 1048576

pub record Reader : Type 0 where
  pub protocol_version : ℕ
  pub max_packet_size : ℕ
  -- `none` is a nil slice
  pub last_connect_body : Option Bytes

abbrev pub new_reader : Reader
new_reader = record { protocol_version = 0; max_packet_size = 0; last_connect_body = none }

unfoldable pub set_max_packet_size : Reader → ℕ → Reader
set_max_packet_size r n = record r { max_packet_size = n }

pub data ReadError : Type 0 where
  eof bad_header bad_length packet_too_large short_body bad_body invalid_type : ReadError

pub data Result {ℓ} (A : Type ℓ) : Type ℓ where
  ok : A → Result A
  err : ReadError → Result A

-- The active cap: the one that is set, and that for peers who have not authenticated if none is.
abbrev pub active_cap : Reader → ℕ
active_cap r = if r.max_packet_size == 0 then pre_connect_max_packet_size else r.max_packet_size

not_less : (n k : ℕ) → ltb k n ≡ false → n ≤ k
not_less n k h = ground arith

short_enough : (n k : ℕ) → n ≤ k → ltb k n ≡ false
short_enough n k h = ground arith

enough : (xs ys : Bytes) → ltb (length (xs ++ ys)) (length xs) ≡ false
enough xs ys = short_enough _ _ (omega (arith, length-append xs ys))

length_of_take : (n : ℕ) (xs : Bytes) → n ≤ length xs → length (take n xs) ≡ n
length_of_take zero xs h = refl
length_of_take (suc n) [] h = omega arith
length_of_take (suc n) (x ∷ xs) h = ap suc (length_of_take n xs (omega arith))

take_and_drop : (n : ℕ) (xs : Bytes) → (take n xs ++ drop n xs) ≡ xs
take_and_drop zero xs = refl
take_and_drop (suc n) [] = refl
take_and_drop (suc n) (x ∷ xs) = λ i. x ∷ take_and_drop n xs i

capped_unset :
    (m a : ℕ)
    → m ≡ 0
    → a ≤ (if m == 0 then 1048576 else m) + (if m == 0 then 1048576 else m)
    → a ≤ 2 * 1048576
capped_unset m a e h = ground arith

capped_set :
    (m a : ℕ)
    → m ≢ 0
    → a ≤ (if m == 0 then 1048576 else m) + (if m == 0 then 1048576 else m)
    → a ≤ 2 * m
capped_set m a e h = elim (Bool-cases (m == 0)) [
  | inl k ↦ absurd (e (ground (arith, k)))
  | inr k ↦ ground (arith, h, k)
]

module _ (m : Mochi) where
  open m use {Packet, type_of, version_of, decode_header, decode_length, framed, decode}

  abbrev pub decoded : Option Packet → Result Packet
  decoded none = err bad_body
  decoded (some pk) = ok pk

  abbrev pub decode_as : PacketType → Packet → Bytes → Result Packet
  decode_as (body k) pk px = decoded (decode k pk px)
  decode_as pingreq pk px = ok pk
  decode_as pingresp pk px = ok pk
  decode_as invalid pk px = err invalid_type

  unfoldable pub decode_body : Packet → Bytes → Result Packet
  decode_body pk px = decode_as (classify (type_of pk)) pk px

  -- What a call of `Read` leaves: the reader, the input, how many bytes it allocated for the body and for the copy of
  -- it that `decodeBody` makes.
  pub record ReadResult : Type 0 where
    pub reader : Reader
    pub input : Bytes
    pub allocated : ℕ
    pub result : Result Packet

  abbrev pub fail_read : Reader → Bytes → ℕ → ReadError → ReadResult
  fail_read r input n e = record { reader = r; input = input; allocated = n; result = err e }

  -- After the decoding: a CONNECT sets the version and leaves its body, any other packet clears it.
  abbrev pub remember : Reader → Bytes → Bytes → ℕ → Result Packet → ReadResult
  remember r px input n (err e) = fail_read r input n e
  remember r px input n (ok pk) =
      if type_of pk == 1
      then record {
        reader = record r { protocol_version = version_of pk; last_connect_body = some px };
        input = input;
        allocated = n;
        result = ok pk;
      }
      else record {
        reader = record r { last_connect_body = none };
        input = input;
        allocated = n;
        result = ok pk;
      }

  -- io.ReadFull into a body of `n` bytes, which `decodeBody` copies
  abbrev pub read_body : Reader → Packet → ℕ → Bytes → ReadResult
  read_body r pk n input =
      if ltb (length input) n
      then fail_read r [] n short_body
      else remember r (take n input) (drop n input) (n + n)
          (decode_body (framed n r.protocol_version pk) (take n input))

  abbrev pub read_frame : Reader → Packet → Bytes → Option (ℕ × Bytes) → ReadResult
  read_frame r pk input none = fail_read r input 0 bad_length
  read_frame r pk input (some (remaining, rest)) =
      if ltb max_packet_size_bound remaining
      then fail_read r rest 0 packet_too_large
      else if ltb (active_cap r) remaining
      then fail_read r rest 0 packet_too_large
      else read_body r pk remaining rest

  abbrev pub read_header : Reader → Bytes → Option Packet → ReadResult
  read_header r input none = fail_read r input 0 bad_header
  read_header r input (some pk) = read_frame r pk input (decode_length input)

  unfoldable pub read : Reader → Bytes → ReadResult
  unfolding decode_body classify
  read r [] = fail_read r [] 0 eof
  read r (hb ∷ input) = read_header r input (decode_header hb)

  -- What the input says of its first frame: a header byte, a length, and behind it a body of that length.
  abbrev pub Frames : Bytes → Bytes → Bytes → Type 0
  Frames input px rest =
      (hb : ℕ) × (tail : Bytes) × (input ≡ hb ∷ tail)
      × (decode_length tail ≡ some (length px, px ++ rest))

  -- How `Read` changes the reader: only a packet that was read does, and a CONNECT more than others.
  abbrev pub Remembers : Reader → Bytes → Bytes → Reader → Result Packet → Type 0
  Remembers r input rest r' (err e) = r' ≡ r
  Remembers r input rest r' (ok pk) =
      (r'.max_packet_size ≡ r.max_packet_size)
      × ((type_of pk ≡ 1)
          → (r'.protocol_version ≡ version_of pk)
            × ((px : Bytes) × (r'.last_connect_body ≡ some px) × Frames input px rest))
      × ((type_of pk ≢ 1)
          → (r'.protocol_version ≡ r.protocol_version) × (r'.last_connect_body ≡ none))

  abbrev Obeys : Reader → Bytes → ReadResult → Type 0
  Obeys r input x =
      (x.allocated ≤ active_cap r + active_cap r)
      × (x.allocated ≤ max_packet_size_bound + max_packet_size_bound)
      × Remembers r input x.input x.reader x.result

  remember-Obeys :
      (r : Reader) (input px rest : Bytes) (n : ℕ) (d : Result Packet)
      → n ≤ active_cap r + active_cap r
      → n ≤ max_packet_size_bound + max_packet_size_bound
      → Frames input px rest
      → Obeys r input (remember r px rest n d)
  remember-Obeys r input px rest n (err e) h k f = (h, k, refl)
  remember-Obeys r input px rest n (ok pk) h k f = elim (Bool-cases (type_of pk == 1)) [
    | inl e ↦ rw e (h, k, (refl, λ _. (refl, (px, refl, f)), λ q. absurd (q (ground arith))))
    | inr e ↦ rw e (h, k, (refl, λ q. absurd (ground arith), λ _. (refl, refl)))
  ]

  module _ (r : Reader) (hb : ℕ) (tail : Bytes) where
    read_body-Obeys :
        (pk : Packet) (n : ℕ) (rest : Bytes)
        → decode_length tail ≡ some (n, rest)
        → n ≤ active_cap r
        → n ≤ max_packet_size_bound
        → Obeys r (hb ∷ tail) (read_body r pk n rest)
    read_body-Obeys pk n rest l h k = elim (Bool-cases (ltb (length rest) n)) [
      | inl e ↦ rw e (omega arith, omega arith, refl)
      | inr e ↦ rw e (
          remember-Obeys r (hb ∷ tail) (take n rest) (drop n rest) (n + n) _ (omega arith)
            (omega arith)
            (
              hb,
              tail,
              refl,
              l
                  ∙ ap (λ x. some x)
                      (λ i. (
                        sym (length_of_take n rest (not_less n (length rest) e)) i,
                        sym (take_and_drop n rest) i,
                      )),
            ))
    ]

    read_frame-Obeys :
        (pk : Packet) (o : Option (ℕ × Bytes))
        → decode_length tail ≡ o
        → Obeys r (hb ∷ tail) (read_frame r pk tail o)
    read_frame-Obeys pk none l = (zero-le, zero-le, refl)
    read_frame-Obeys pk (some (n, rest)) l = elim (Bool-cases (ltb max_packet_size_bound n)) [
      | inl e ↦ rw e (zero-le, zero-le, refl)
      | inr e ↦ rw e (elim (Bool-cases (ltb (active_cap r) n)) [
        | inl e' ↦ rw e' (zero-le, zero-le, refl)
        | inr e' ↦ rw e' (read_body-Obeys pk n rest l (not_less _ _ e') (not_less _ _ e))
      ])
    ]

    read_header-Obeys : (o : Option Packet) → Obeys r (hb ∷ tail) (read_header r tail o)
    read_header-Obeys none = (zero-le, zero-le, refl)
    read_header-Obeys (some pk) = read_frame-Obeys pk (decode_length tail) refl

  read-Obeys : (r : Reader) (input : Bytes) → Obeys r input (read r input)
  unfolding read
  read-Obeys r [] = (zero-le, zero-le, refl)
  read-Obeys r (hb ∷ tail) = read_header-Obeys r hb tail (decode_header hb)

  -- Whatever the peer sends, what `Read` allocates for the body and its copy is at most twice the cap that is set, or 2 MiB if none is
  -- set, and never more than twice 268435455 bytes. A call that fails leaves the reader as it was; one that reads a
  -- CONNECT takes over its version and keeps the body that stands behind the length in the input, where the rest
  -- begins; and one that reads another packet clears the kept body.
  pub read_lem :
      (r : Reader) (input : Bytes)
      → ((r.max_packet_size ≡ 0) → (read r input).allocated ≤ 2 * 1048576)
        × ((r.max_packet_size ≢ 0) → (read r input).allocated ≤ 2 * r.max_packet_size)
        × ((read r input).allocated ≤ 2 * 268435455)
        × Remembers r input (read r input).input (read r input).reader (read r input).result
  read_lem r input =
      let (cap, bound, remembers) = read-Obeys r input in
      (
        λ e. capped_unset r.max_packet_size (read r input).allocated e cap,
        λ e. capped_set r.max_packet_size (read r input).allocated e cap,
        omega arith,
        remembers,
      )

  remember-input :
      (r : Reader) (px input : Bytes) (n : ℕ) (d : Result Packet)
      → ((remember r px input n d).input ≡ input) × ((remember r px input n d).result ≡ d)
  remember-input r px input n (err e) = (refl, refl)
  remember-input r px input n (ok pk) = ground arith

  read_body-frame :
      (r : Reader) (pk : Packet) (px rest : Bytes)
      → ((read_body r pk (length px) (px ++ rest)).input ≡ rest)
        × ((read_body r pk (length px) (px ++ rest)).result
            ≡ decode_body (framed (length px) r.protocol_version pk) px)
  read_body-frame r pk px rest =
      rw (enough px rest, take-length-append px rest, drop-length-append px rest)
        (remember-input r px rest (length px + length px) _)

  -- A frame whose header and length the package decodes, and whose body fits the cap, is read whole and
  -- nothing behind it: its body goes to the decoder, and what follows it is left for the next call.
  read-frame :
      (r : Reader) (hb : ℕ) (size px rest : Bytes) (pk : Packet)
      → decode_header hb ≡ some pk
      → decode_length (size ++ (px ++ rest)) ≡ some (length px, px ++ rest)
      → length px ≤ active_cap r
      → length px ≤ max_packet_size_bound
      → ((read r (hb ∷ size ++ (px ++ rest))).input ≡ rest)
        × ((read r (hb ∷ size ++ (px ++ rest))).result
            ≡ decode_body (framed (length px) r.protocol_version pk) px)
  unfolding read
  read-frame r hb size px rest pk h l c b =
      rw (h, l, short_enough _ _ b, short_enough _ _ c) (read_body-frame r pk px rest)
