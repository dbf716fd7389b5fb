-- ===== src/Utf8.antt =====
-- Python's UTF-8 codec, for `str.encode("utf-8")`, `bytes.decode("utf-8")` and the size of a text
-- with `errors="surrogatepass"` (`_utf8_len` of src/wenchang/core.py).
pub mod RoundTrip
pub mod Octets
use wenchang.Base.{
  ℕ, ◌+◌, ◌-◌, ◌*◌, ◌/◌, ◌%◌, Bool, true, false, ◌&&◌, ◌||◌, not, Option, none, some, List, [], ◌∷◌,
  ◌++◌, ltb, leb, ◌==◌, if◌then◌else◌,
}
use wenchang.Text.{Str}

abbrev pub Bytes : Type 0
Bytes = List ℕ

pub is_surrogate : ℕ → Bool
is_surrogate c = leb 0xD800 c && leb c 0xDFFF

pub continuation : ℕ → ℕ
continuation n = 128 + n % 64

-- The bytes of one code point. A surrogate has none under `errors="strict"`.
unfoldable pub encode_char : ℕ → Option Bytes
unfolding is_surrogate continuation
encode_char c =
    if ltb c 0x80
    then some (c ∷ [])
    else if ltb c 0x800
    then some ((192 + c / 64) ∷ continuation c ∷ [])
    else if is_surrogate c
    then none
    else if ltb c 0x10000
    then some ((224 + c / 4096) ∷ continuation (c / 64) ∷ continuation c ∷ [])
    else if ltb c 0x110000
    then some
        ((240 + c / 262144) ∷ continuation (c / 4096) ∷ continuation (c / 64) ∷ continuation c ∷ [])
    else none

unfoldable pub both : Option Bytes → Option Bytes → Option Bytes
both (some a) (some b) = some (a ++ b)
both _ _ = none

-- `s.encode("utf-8")`; `none` is a `UnicodeEncodeError`.
unfoldable pub encode : Str → Option Bytes
unfolding encode_char both
encode [] = some []
encode (c ∷ s) = both (encode_char c) (encode s)

-- What the decoder waits for: the continuation bytes still to come, the value so far, and the
-- least value that is not an overlong form.
pub data Decoder : Type 0 where
  start : Decoder
  more : ℕ → ℕ → ℕ → Decoder

-- The decoder after a byte, and the code point that it completes.
pub data Step : Type 0 where
  reject : Step
  wait : Decoder → Step
  emit : ℕ → Step

finish : ℕ → ℕ → Step
finish low value =
    if leb low value && (ltb value 0x110000 && not (is_surrogate value)) then emit value else reject

pub step : Decoder → ℕ → Step
unfolding finish is_surrogate
step start b =
    if ltb b 0x80
    then emit b
    else if ltb b 0xC0
    then reject
    else if ltb b 0xE0
    then wait (more 1 (b - 192) 0x80)
    else if ltb b 0xF0
    then wait (more 2 (b - 224) 0x800)
    else if ltb b 0xF8
    then wait (more 3 (b - 240) 0x10000)
    else reject
step (more left value low) b =
    if not (leb 0x80 b && ltb b 0xC0)
    then reject
    else let value' = value * 64 + (b - 128) in
      if left == 1 then finish low value' else wait (more (left - 1) value' low)

onto : ℕ → Option Str → Option Str
onto c none = none
onto c (some s) = some (c ∷ s)

pub decode_from : Decoder → Bytes → Option Str
unfolding step onto
decode_from start [] = some []
decode_from (more _ _ _) [] = none
decode_from d (b ∷ bs) = elim (step d b) [
  | reject ↦ none
  | wait d' ↦ decode_from d' bs
  | emit c ↦ onto c (decode_from start bs)
]

-- `data.decode("utf-8")`; `none` is a `UnicodeDecodeError`.
unfoldable pub decode : Bytes → Option Str
unfolding decode_from
decode = decode_from start

char_len : ℕ → ℕ
char_len c = if ltb c 0x80 then 1 else if ltb c 0x800 then 2 else if ltb c 0x10000 then 3 else 4

unfoldable pub utf8_len : Str → ℕ
unfolding char_len
utf8_len [] = 0
utf8_len (c ∷ s) = char_len c + utf8_len s
