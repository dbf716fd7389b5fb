-- ===== src/Storage/Filesystem/Segment/RoundTrip.antt =====
-- A name of a file decodes to the segment that it encodes, and to no other
-- (src/wenchang/storage/filesystem.py).
use wenchang.Base.{
  ℕ, ◌+◌, ◌*◌, ◌/◌, ◌%◌, ◌<◌, ◌≤◌, Bool, true, false, not, ◌&&◌, Option, none, some, [], ◌∷◌, ◌++◌,
  ◌≡◌, ◌≢◌, ◌↔◌, refl, sym, ap, ◌∙◌, arith, leb, ◌==◌, length, Bool-cases, inl, inr, if◌then◌else◌,
}
use wenchang.Base.Result.{Result, ok, err, guard, >>=-eq-ok}
use wenchang.Text.{Str, codes, str_eq, str_eq_iff, str_dec}
use wenchang.Utf8.{Bytes, encode}
use wenchang.Utf8.RoundTrip.{decode-encode}
use wenchang.Utf8.Octets.{AreOctets, encode-AreOctets}
use wenchang.Errors.{Error, value_error}
use wenchang.Storage.Filesystem.Segment.{
  is_literal, hex_digit, hex_value, encode_byte, encode_bytes, bounded, encoded_raw, encode_segment,
  Scan, between, escape, half, wait, emit, read_char, first_digit, second_digit, onto, raw_from,
  is_canonical, if_canonical, decoded_raw, decode_segment, max_segment_bytes,
}

hex_value-hex_digit : (n : ℕ) → n < 16 → hex_value (hex_digit n) ≡ some n
unfolding hex_value hex_digit
hex_value-hex_digit n h = ground arith

pub raw_from-emit :
    (scan : Scan) (char b : ℕ) (name : Str)
    → read_char scan char ≡ emit b
    → raw_from scan (char ∷ name) ≡ onto b (raw_from between name)
unfolding raw_from
raw_from-emit between char b name h = rw (h, raw_from)
raw_from-emit escape char b name h = rw (h, raw_from)
raw_from-emit (half high) char b name h = rw (h, raw_from)

pub raw_from-wait :
    (scan next : Scan) (char : ℕ) (name : Str)
    → read_char scan char ≡ wait next
    → raw_from scan (char ∷ name) ≡ raw_from next name
unfolding raw_from
raw_from-wait between next char name h = rw (h, raw_from)
raw_from-wait escape next char name h = rw (h, raw_from)
raw_from-wait (half high) next char name h = rw (h, raw_from)

read_char-literal : (b : ℕ) → is_literal b ≡ true → read_char between b ≡ emit b
unfolding read_char is_literal
read_char-literal b h = ground arith

read_char-escape : (n : ℕ) → n < 16 → read_char escape (hex_digit n) ≡ wait (half n)
unfolding read_char first_digit
read_char-escape n h = rw (hex_value-hex_digit n h) refl

read_char-half : (high n : ℕ) → n < 16 → read_char (half high) (hex_digit n) ≡ emit (high * 16 + n)
unfolding read_char second_digit
read_char-half high n h = rw (hex_value-hex_digit n h) refl

-- One byte, escaped or not, is read back.
raw_from-encode_byte :
    (first : Bool) (b : ℕ) (name : Str)
    → b < 256
    → raw_from between (encode_byte first b ++ name) ≡ onto b (raw_from between name)
unfolding encode_byte
raw_from-encode_byte first b name h = elim (Bool-cases (is_literal b && not (first && b == b'.'))) [
  | inl plain ↦
      let literal : is_literal b ≡ true = ground arith in
      rw plain (raw_from-emit between b b name (read_char-literal b literal))
  | inr escaped ↦
      let whole : b / 16 * 16 + b % 16 ≡ b = omega arith in
      let low = read_char-half (b / 16) (b % 16) (omega arith) in
      rw
        (
          escaped,
          raw_from-wait between escape b'%' (hex_digit (b / 16) ∷ hex_digit (b % 16) ∷ name)
              (unfold read_char in refl),
          raw_from-wait escape (half (b / 16)) (hex_digit (b / 16)) (hex_digit (b % 16) ∷ name)
              (read_char-escape (b / 16) (omega (arith, h))),
        )
        (raw_from-emit (half (b / 16)) (hex_digit (b % 16)) b name (rw whole at low))
]

pub raw_from-encode_bytes :
    (first : Bool) (bs : Bytes) → AreOctets bs → raw_from between (encode_bytes first bs) ≡ some bs
unfolding encode_bytes
raw_from-encode_bytes first [] h = unfold raw_from in refl
raw_from-encode_bytes first (b ∷ bs) h =
    rw
      (raw_from-encode_byte first b (encode_bytes false bs) h.0, raw_from-encode_bytes false bs h.1)
      (unfold onto in refl)

-- No escape is a single `%`.
encode_bytes-percent : (bs : Bytes) → encode_bytes true bs ≢ codes "%"
unfolding encode_bytes encode_byte is_literal
encode_bytes-percent [] h = cc h
encode_bytes-percent (b ∷ bs) h = elim (Bool-cases (is_literal b && not (b == b'.'))) [
  | inl plain ↦
      let e : b ∷ encode_bytes false bs ≡ b'%' ∷ [] = rw plain at h in
      let same : b ≡ b'%' = cc e in ground arith
  | inr escaped ↦ cc (rw escaped at h)
]

guard-eq_ok :
    (b : Bool) {u : Unit {0}}
    → Path (Result Error (Unit {0})) (guard b value_error) (ok u)
    → b ≡ true
guard-eq_ok true h = refl
guard-eq_ok false h = cc h

bounded-eq-ok : (x : Str) {y : Str} → bounded x ≡ ok y → (y ≡ x) × (length y ≤ max_segment_bytes)
unfolding bounded
bounded-eq-ok x {y} h =
    let (u, small, same) = >>=-eq-ok (guard (leb (length x) max_segment_bytes) value_error) _ h in
    let it : x ≡ y = cc same in
    let passed : leb (length x) max_segment_bytes ≡ true =
      guard-eq_ok (leb (length x) max_segment_bytes) small in
    (sym it, rw (← it) (ground arith))

module _ (c : ℕ) (segment : Str) where
  -- A name that was encoded of a segment that is not empty.
  pub record IsName (name : Str) : Type 0 where
    pub raw : Bytes
    pub encodes : encode (c ∷ segment) ≡ some raw
    pub is_name : name ≡ encode_bytes true raw
    pub short : length name ≤ max_segment_bytes

  encoded_raw-IsName :
      (o : Option Bytes) {name : Str}
      → encode (c ∷ segment) ≡ o
      → encoded_raw o ≡ ok name
      → IsName name
  unfolding encoded_raw
  encoded_raw-IsName none e h = cc h
  encoded_raw-IsName (some raw) e h =
      let (named, short) = bounded-eq-ok (encode_bytes true raw) h in
      record { raw = raw; encodes = e; is_name = named; short = short }

  pub encode_segment-IsName : {name : Str} → encode_segment (c ∷ segment) ≡ ok name → IsName name
  unfolding encode_segment
  encode_segment-IsName h = encoded_raw-IsName (encode (c ∷ segment)) refl h

  IsName-raw : {name : Str} → IsName name → decoded_raw (raw_from between name) ≡ some (c ∷ segment)
  unfolding decoded_raw
  IsName-raw n =
      let octets = encode-AreOctets (c ∷ segment) n.raw n.encodes in
      rw (n.is_name, raw_from-encode_bytes true n.raw octets)
        (decode-encode (c ∷ segment) n.raw n.encodes)

  decode-IsName :
      (name : Str)
      → encode_segment (c ∷ segment) ≡ ok name
      → decode_segment name ≡ some (c ∷ segment)
  unfolding decode_segment if_canonical is_canonical
  decode-IsName name h =
      let n = encode_segment-IsName h in
      let other : str_eq name (codes "%") ≡ false = elim (Bool-cases (str_eq name (codes "%"))) [
        | inl e ↦
            absurd (encode_bytes-percent n.raw (sym n.is_name ∙ (str_eq_iff name (codes "%")).0 e))
        | inr e ↦ e
      ] in
      let canonical : str_eq name name ≡ true = (str_eq_iff name name).1 refl in
      rw (other, IsName-raw n, h, canonical) refl

canonical-eq-some :
    (name segment decoded : Str) (r : Result Error Str)
    → (if is_canonical name r then some decoded else none) ≡ some segment
    → (r ≡ ok name) × (decoded ≡ segment)
unfolding is_canonical
canonical-eq-some name segment decoded (err e) h = cc h
canonical-eq-some name segment decoded (ok x) h = elim (Bool-cases (str_eq x name)) [
  | inl e ↦
      let same : x ≡ name = (str_eq_iff x name).0 e in
      let it : some decoded ≡ some segment = rw e at h in (ap ok same, cc it)
  | inr e ↦ cc (rw e at h)
]

decoded_canonical :
    (name segment : Str) (o : Option Str)
    → if_canonical name o ≡ some segment
    → encode_segment segment ≡ ok name
unfolding if_canonical is_canonical
decoded_canonical name segment none h = cc h
decoded_canonical name segment (some decoded) h =
    let (r, same) = canonical-eq-some name segment decoded (encode_segment decoded) h in
    rw (← same) r

empty_segment : encode_segment [] ≡ ok (codes "%")
unfolding encode_segment
empty_segment = refl

encode-decode_segment :
    (segment name : Str) → decode_segment name ≡ some segment → encode_segment segment ≡ ok name
unfolding decode_segment
encode-decode_segment segment name h = elim (Bool-cases (str_eq name (codes "%"))) [
  | inl e ↦
      let it : some [] ≡ some segment = rw e at h in
      let same : [] ≡ segment = cc it in
      let spelled : codes "%" ≡ name = sym ((str_eq_iff name (codes "%")).0 e) in
      rw (← same, ← spelled) empty_segment
  | inr e ↦ decoded_canonical name segment (decoded_raw (raw_from between name)) (rw e at h)
]

decode-encode_segment :
    (segment name : Str) → encode_segment segment ≡ ok name → decode_segment name ≡ some segment
unfolding decode_segment encode_segment str_dec
decode-encode_segment [] name h = let e : codes "%" ≡ name = cc h in rw (← e) refl
decode-encode_segment (c ∷ segment) name h = decode-IsName c segment name h

-- `_encode_segment` gives a name exactly when `_decode_segment` gives the segment back for it, so two
-- segments never share a name, and a name that is not canonical is no segment's.
pub decode_segment-encode_segment :
    (segment name : Str) → (encode_segment segment ≡ ok name) ↔ (decode_segment name ≡ some segment)
decode_segment-encode_segment segment name =
    (decode-encode_segment segment name, encode-decode_segment segment name)
