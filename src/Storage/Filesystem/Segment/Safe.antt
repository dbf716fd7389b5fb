-- ===== src/Storage/Filesystem/Segment/Safe.antt =====
-- The name of a segment can neither leave its directory nor be taken for another file's
-- (src/wenchang/storage/filesystem.py).
use wenchang.Base.{
  ℕ, ◌/◌, ◌%◌, ◌<◌, ◌≤◌, Bool, true, false, not, ◌&&◌, Option, none, some, [], ◌∷◌, ◌++◌, ◌≡◌, ◌≢◌,
  refl, arith, ◌==◌, length, Bool-cases, inl, inr,
}
use wenchang.Base.Result.{ok}
use wenchang.Text.{Str, codes}
use wenchang.Text.Split.{Lacks}
use wenchang.Paths.{slash}
use wenchang.Utf8.{Bytes, encode, decode}
use wenchang.Utf8.RoundTrip.{decode-encode}
use wenchang.Utf8.Octets.{AreOctets, encode-AreOctets}
use wenchang.Storage.Filesystem.Segment.{
  is_literal, hex_digit, hex_value, encode_byte, encode_bytes, encode_segment, Scan, between,
  escape, half, Read, reject, wait, emit, read_char, first_digit, second_digit, onto, raw_from,
  max_segment_bytes,
}
use wenchang.Storage.Filesystem.Segment.RoundTrip.{
  encode_segment-IsName, raw_from-wait, raw_from-emit, raw_from-encode_bytes,
}

-- A name of one file inside a directory, not hidden, not too long, and without the ending of a body
-- or of a sidecar.
pub record IsFileName (name : Str) : Type 0 where
  pub some_char : name ≢ []
  pub no_slash : Lacks slash name
  pub visible : (rest : Str) → name ≢ b'.' ∷ rest
  pub short : length name ≤ max_segment_bytes
  pub no_body : (front : Str) → name ≢ front ++ codes "%obj"
  pub no_sidecar : (front : Str) → name ≢ front ++ codes "%meta"

Lacks-append : (c : ℕ) (s t : Str) → Lacks c s → Lacks c t → Lacks c (s ++ t)
Lacks-append c [] t h k = k
Lacks-append c (d ∷ s) t h k = (h.0, Lacks-append c s t h.1 k)

hex_digit-slash : (n : ℕ) → n < 16 → hex_digit n ≢ b'/'
unfolding hex_digit
hex_digit-slash n h e = ground arith

encode_byte-Lacks : (first : Bool) (b : ℕ) → b < 256 → Lacks slash (encode_byte first b)
unfolding encode_byte is_literal
encode_byte-Lacks first b h = elim (Bool-cases (is_literal b && not (first && b == b'.'))) [
  | inl plain ↦ rw plain ((λ e. ground arith), tt)
  | inr escaped ↦ rw escaped (
    (λ e. ground arith),
    (hex_digit-slash (b / 16) (omega (arith, h)), (hex_digit-slash (b % 16) (omega arith), tt)),
  )
]

encode_bytes-Lacks :
    (first : Bool) (bs : Bytes) → AreOctets bs → Lacks slash (encode_bytes first bs)
unfolding encode_bytes
encode_bytes-Lacks first [] h = tt
encode_bytes-Lacks first (b ∷ bs) h =
    Lacks-append slash (encode_byte first b) (encode_bytes false bs) (encode_byte-Lacks first b h.0)
      (encode_bytes-Lacks false bs h.1)

encode_bytes-visible : (bs : Bytes) (rest : Str) → encode_bytes true bs ≢ b'.' ∷ rest
unfolding encode_bytes encode_byte
encode_bytes-visible [] rest e = cc e
encode_bytes-visible (b ∷ bs) rest e = elim (Bool-cases (is_literal b && not (b == b'.'))) [
  | inl plain ↦
      let it : b ∷ encode_bytes false bs ≡ b'.' ∷ rest = rw plain at e in
      let same : b ≡ b'.' = cc it in ground arith
  | inr escaped ↦
      let it : b'%' ∷ hex_digit (b / 16) ∷ hex_digit (b % 16) ∷ encode_bytes false bs
          ≡ b'.' ∷ rest =
        rw escaped at e in
      ground arith
]

-- What follows one character.
abbrev after : Read → Str → Option Bytes
after reject name = none
after (wait next) name = raw_from next name
after (emit b) name = onto b (raw_from between name)

raw_from-reject :
    (scan : Scan) (char : ℕ) (name : Str)
    → read_char scan char ≡ reject
    → raw_from scan (char ∷ name) ≡ none
unfolding raw_from
raw_from-reject between char name h = rw (h, raw_from)
raw_from-reject escape char name h = rw (h, raw_from)
raw_from-reject (half high) char name h = rw (h, raw_from)

raw_from_read :
    (scan : Scan) (char : ℕ) (name : Str) (r : Read)
    → read_char scan char ≡ r
    → raw_from scan (char ∷ name) ≡ after r name
raw_from_read scan char name reject h = raw_from-reject scan char name h
raw_from_read scan char name (wait next) h = raw_from-wait scan next char name h
raw_from_read scan char name (emit b) h = raw_from-emit scan char b name h

raw_from-after :
    (scan : Scan) (char : ℕ) (name : Str)
    → raw_from scan (char ∷ name) ≡ after (read_char scan char) name
raw_from-after scan char name = raw_from_read scan char name (read_char scan char) refl

after-none :
    (r : Read) (name : Str) → ((scan : Scan) → raw_from scan name ≡ none) → after r name ≡ none
after-none reject name h = refl
after-none (wait next) name h = h next
after-none (emit b) name h = rw (h between) (unfold onto in refl)

module _ (d : ℕ) (tail : Str) (no_digit : hex_value d ≡ none) where
  bad_escape : raw_from escape (d ∷ tail) ≡ none
  bad_escape = rw (raw_from-after escape d tail) (unfold read_char first_digit in rw no_digit refl)

  -- A `%` in front of something else than a digit cannot be read.
  raw_from-broken : (scan : Scan) (front : Str) → raw_from scan (front ++ b'%' ∷ d ∷ tail) ≡ none
  raw_from-broken between [] =
      rw (raw_from-after between b'%' (d ∷ tail)) (unfold read_char in bad_escape)
  raw_from-broken escape [] =
      rw (raw_from-after escape b'%' (d ∷ tail)) (unfold read_char first_digit hex_value in refl)
  raw_from-broken (half high) [] =
      rw (raw_from-after (half high) b'%' (d ∷ tail))
        (unfold read_char second_digit hex_value in refl)
  raw_from-broken scan (c ∷ front) =
      rw (raw_from-after scan c (front ++ b'%' ∷ d ∷ tail))
        (after-none (read_char scan c) _ (λ next. raw_from-broken next front))

  encode_bytes-ending :
      (bs : Bytes) (front : Str) → AreOctets bs → encode_bytes true bs ≢ front ++ b'%' ∷ d ∷ tail
  encode_bytes-ending bs front h e =
      let read = raw_from-encode_bytes true bs h in
      let broken : raw_from between (encode_bytes true bs) ≡ none =
        rw e (raw_from-broken between front) in
      cc (read, broken)

encode_bytes_empty : (bs : Bytes) → encode_bytes true bs ≡ [] → bs ≡ []
unfolding encode_bytes encode_byte
encode_bytes_empty [] e = refl
encode_bytes_empty (b ∷ bs) e = elim (Bool-cases (is_literal b && not (b == b'.'))) [
  | inl plain ↦ cc (rw plain at e)
  | inr escaped ↦ cc (rw escaped at e)
]

raw_some : (c : ℕ) (segment : Str) (raw : Bytes) → encode (c ∷ segment) ≡ some raw → raw ≢ []
raw_some c segment raw h e =
    let read : decode raw ≡ some (c ∷ segment) = decode-encode (c ∷ segment) raw h in
    let nothing : decode raw ≡ some [] = rw e (decode-encode [] [] (unfold encode in refl)) in
    cc (read, nothing)

-- `%` is too short for an ending.
percent_ending : (d : ℕ) (tail front : Str) → codes "%" ≢ front ++ b'%' ∷ d ∷ tail
percent_ending d tail [] h = cc h
percent_ending d tail (x ∷ []) h = cc h
percent_ending d tail (x ∷ y ∷ front) h = cc h

percent-IsFileName : IsFileName (codes "%")
percent-IsFileName = record {
  some_char = λ e. cc e;
  no_slash = ((λ e. ground arith), tt);
  visible = λ rest e. (let same : Path ℕ b'%' b'.' = cc e in ground arith);
  short = omega arith;
  no_body = percent_ending b'o' (codes "bj");
  no_sidecar = percent_ending b'm' (codes "eta");
}

module _ (name : Str) where
  encoded-IsFileName :
      (raw : Bytes)
      → AreOctets raw
      → raw ≢ []
      → name ≡ encode_bytes true raw
      → length name ≤ max_segment_bytes
      → IsFileName name
  encoded-IsFileName raw octets filled e short = rw e (record {
    some_char = λ none. filled (encode_bytes_empty raw none);
    no_slash = encode_bytes-Lacks true raw octets;
    visible = encode_bytes-visible raw;
    short = rw e at short;
    no_body =
        λ front. encode_bytes-ending b'o' (codes "bj") (unfold hex_value in refl) raw front octets;
    no_sidecar =
        λ front. encode_bytes-ending b'm' (codes "eta") (unfold hex_value in refl) raw front octets;
  })

-- The name that `_encode_segment` gives is not empty, has at most 200 characters and no `/`, does not
-- begin with `.`, and does not end in the suffix of a body or of a sidecar: it names one file of its
-- directory, which is neither the lock nor a temporary file.
pub encode_segment-IsFileName :
    (segment name : Str) → encode_segment segment ≡ ok name → IsFileName name
unfolding encode_segment
encode_segment-IsFileName [] name h = let e : codes "%" ≡ name = cc h in rw (← e) percent-IsFileName
encode_segment-IsFileName (c ∷ segment) name h =
    let n = encode_segment-IsName c segment h in
    encoded-IsFileName name n.raw (encode-AreOctets (c ∷ segment) n.raw n.encodes)
      (λ e. raw_some c segment n.raw n.encodes e) n.is_name n.short
