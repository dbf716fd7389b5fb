-- ===== src/Utf8/RoundTrip.antt =====
-- Decoding what was encoded gives the text back, and the size of the bytes is `utf8_len`.
use wenchang.Base.{
  ℕ, ◌+◌, ◌-◌, ◌/◌, ◌<◌, ◌≤◌, false, ◌≡◌, refl, Option, none, some, [], ◌∷◌, ◌++◌, arith, length,
  length-append,
}
use native.Mathlib.Decide.{dec_lt}
use wenchang.Text.{Str}
use wenchang.Utf8.{
  Bytes, is_surrogate, continuation, encode_char, encode, both, Decoder, start, more, emit, wait,
  step, decode_from, decode, onto, char_len, utf8_len,
}

-- The decoder over one byte.
decode_from-wait :
    (d d' : Decoder) (b : ℕ) (bs : Bytes)
    → step d b ≡ wait d'
    → decode_from d (b ∷ bs) ≡ decode_from d' bs
unfolding decode_from
decode_from-wait start d' b bs h = rw (h, decode_from)
decode_from-wait (more _ _ _) d' b bs h = rw (h, decode_from)

decode_from-emit :
    (d : Decoder) (b c : ℕ) (bs : Bytes)
    → step d b ≡ emit c
    → decode_from d (b ∷ bs) ≡ onto c (decode_from start bs)
unfolding decode_from
decode_from-emit start b c bs h = rw (h, decode_from)
decode_from-emit (more _ _ _) b c bs h = rw (h, decode_from)

first_of_two :
    (c : ℕ) → 0x80 ≤ c → c < 0x800 → step start (192 + c / 64) ≡ wait (more 1 (c / 64) 0x80)
unfolding step
first_of_two c l u = ground arith

first_of_three :
    (c : ℕ) → c < 0x10000 → step start (224 + c / 4096) ≡ wait (more 2 (c / 4096) 0x800)
unfolding step
first_of_three c u = ground arith

first_of_four :
    (c : ℕ) → c < 0x110000 → step start (240 + c / 262144) ≡ wait (more 3 (c / 262144) 0x10000)
unfolding step
first_of_four c u = ground arith

middle :
    (n c low : ℕ) → 1 < n → step (more n (c / 64) low) (continuation c) ≡ wait (more (n - 1) c low)
unfolding step continuation
middle n c low h = ground arith

last :
    (c low : ℕ)
    → low ≤ c
    → c < 0x110000
    → is_surrogate c ≡ false
    → step (more 1 (c / 64) low) (continuation c) ≡ emit c
unfolding step continuation is_surrogate
last c low l u s = ground arith

-- The four forms of an encoded code point.
pub data Encoding (c : ℕ) (bs : Bytes) : Type 0 where
  one_byte : c < 0x80 → bs ≡ c ∷ [] → Encoding c bs
  two_bytes : 0x80 ≤ c → c < 0x800 → bs ≡ (192 + c / 64) ∷ continuation c ∷ [] → Encoding c bs
  three_bytes :
      0x800 ≤ c
      → c < 0x10000
      → is_surrogate c ≡ false
      → bs ≡ (224 + c / 4096) ∷ continuation (c / 64) ∷ continuation c ∷ []
      → Encoding c bs
  four_bytes :
      0x10000 ≤ c
      → c < 0x110000
      → bs
        ≡ (240 + c / 262144) ∷ continuation (c / 4096) ∷ continuation (c / 64) ∷ continuation c ∷ []
      → Encoding c bs

pub encode_char-Encoding : (c : ℕ) (bs : Bytes) → encode_char c ≡ some bs → Encoding c bs
unfolding encode_char
encode_char-Encoding c bs h = elim (dec_lt c 0x80) [
  | yes a ↦ one_byte a (ground arith)
  | no a ↦ elim (dec_lt c 0x800) [
    | yes b ↦ two_bytes (omega arith) b (ground arith)
    | no b ↦ elim (dec_lt c 0x10000) [
      | yes d ↦ three_bytes (omega arith) d (ground arith) (ground arith)
      | no d ↦ four_bytes (omega arith) (ground arith) (ground arith)
    ]
  ]
]

surrogate-lt : (c : ℕ) → 0x10000 ≤ c → is_surrogate c ≡ false
unfolding is_surrogate
surrogate-lt c h = ground arith

surrogate-ge : (c : ℕ) → c < 0x800 → is_surrogate c ≡ false
unfolding is_surrogate
surrogate-ge c h = ground arith

quotients : (c : ℕ) → (c / 64 / 64 ≡ c / 4096) × (c / 4096 / 64 ≡ c / 262144)
quotients c = (omega arith, omega arith)

decode_from-Encoding :
    (c : ℕ) (bs rest : Bytes)
    → Encoding c bs
    → decode_from start (bs ++ rest) ≡ onto c (decode_from start rest)
decode_from-Encoding c bs rest (one_byte u e) =
    rw e (decode_from-emit start c c rest (unfold step in ground arith))
decode_from-Encoding c bs rest (two_bytes l u e) =
    rw (e, decode_from-wait start _ _ _ (first_of_two c l u))
      (decode_from-emit _ _ c rest (last c 0x80 l (omega arith) (surrogate-ge c u)))
decode_from-Encoding c bs rest (three_bytes l u s e) =
    let q = quotients c in
    rw
      (
        e,
        decode_from-wait start _ _ _ (first_of_three c u),
        decode_from-wait _ _ _ _ (rw q.0 at (middle 2 (c / 64) 0x800 (omega arith))),
      )
      (decode_from-emit _ _ c rest (last c 0x800 l (omega arith) s))
decode_from-Encoding c bs rest (four_bytes l u e) =
    let q = quotients c in
    rw
      (
        e,
        decode_from-wait start _ _ _ (first_of_four c u),
        decode_from-wait _ _ _ _ (rw q.1 at (middle 3 (c / 4096) 0x10000 (omega arith))),
        decode_from-wait _ _ _ _ (rw q.0 at (middle 2 (c / 64) 0x10000 (omega arith))),
      )
      (decode_from-emit _ _ c rest (last c 0x10000 l u (surrogate-lt c l)))

-- The bytes of a code point, read from the start, give the code point.
decode_from-encode_char :
    (c : ℕ) (bs rest : Bytes)
    → encode_char c ≡ some bs
    → decode_from start (bs ++ rest) ≡ onto c (decode_from start rest)
decode_from-encode_char c bs rest h = decode_from-Encoding c bs rest (encode_char-Encoding c bs h)

pub both-eq_some :
    (x y : Option Bytes) {bs : Bytes}
    → both x y ≡ some bs
    → (a : Bytes) × (b : Bytes) × (x ≡ some a) × (y ≡ some b) × (a ++ b ≡ bs)
unfolding both
both-eq_some (some a) (some b) h = (a, b, refl, refl, ground arith)
both-eq_some (some a) none h = cc
both-eq_some none y h = cc

decode_from-encode : (s : Str) (bs : Bytes) → encode s ≡ some bs → decode_from start bs ≡ some s
unfolding encode
decode_from-encode [] bs h = let e : [] ≡ bs = ground arith in rw (← e) (unfold decode_from in refl)
decode_from-encode (c ∷ s) bs h =
    let (a, b, ha, hb, e) = both-eq_some (encode_char c) (encode s) h in
    rw (← e, decode_from-encode_char c a b ha, decode_from-encode s b hb) (unfold onto in refl)

-- Encoding and then decoding gives the text back, for every text that can be encoded.
pub decode-encode : (s : Str) (bs : Bytes) → encode s ≡ some bs → decode bs ≡ some s
unfolding decode
decode-encode s bs h = decode_from-encode s bs h

length-Encoding : (c : ℕ) (bs : Bytes) → Encoding c bs → length bs ≡ char_len c
unfolding char_len
length-Encoding c bs (one_byte u e) = ground arith
length-Encoding c bs (two_bytes l u e) = ground arith
length-Encoding c bs (three_bytes l u s e) = ground arith
length-Encoding c bs (four_bytes l u e) = ground arith

-- The bytes of a text that can be encoded are as many as `utf8_len` counts.
length-encode : (s : Str) (bs : Bytes) → encode s ≡ some bs → length bs ≡ utf8_len s
unfolding encode utf8_len
length-encode [] bs h = ground arith
length-encode (c ∷ s) bs h =
    let (a, b, ha, hb, e) = both-eq_some (encode_char c) (encode s) h in
    rw (
      ← e,
      length-append a b,
      length-encode s b hb,
      length-Encoding c a (encode_char-Encoding c a ha),
    )
