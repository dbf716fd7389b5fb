-- ===== src/Storage/Filesystem/Segment.antt =====
-- Names of files for the segments of keys: `_encode_segment`, `_decode_segment`
-- (src/wenchang/storage/filesystem.py).
pub mod RoundTrip
pub mod Safe
use wenchang.Base.{
  ℕ, ◌+◌, ◌-◌, ◌*◌, ◌/◌, ◌%◌, Bool, true, false, not, ◌&&◌, ◌||◌, Option, none, some, List, [], ◌∷◌,
  ◌++◌, leb, ltb, ◌==◌, length, if◌then◌else◌,
}
use wenchang.Base.Result.{Result, ok, err, ◌>>=◌, ◌>>◌, guard}
use wenchang.Text.{Str, codes, str_eq}
use wenchang.Utf8.{Bytes, encode, decode}
use wenchang.Errors.{Error, value_error}

abbrev pub max_segment_bytes : ℕ
max_segment_bytes = 200

-- `_LITERAL`
unfoldable pub is_literal : ℕ → Bool
is_literal b =
    (leb 97 b && leb b 122) || (leb 48 b && leb b 57) || (b == b'_' || b == b'-' || b == b'.')

-- A digit of `f"{byte:02X}"`
unfoldable pub hex_digit : ℕ → ℕ
hex_digit n = if ltb n 10 then 48 + n else 55 + n

-- One byte of the loop; `first` is `index == 0`.
unfoldable pub encode_byte : Bool → ℕ → Str
unfolding is_literal hex_digit
encode_byte first b =
    if is_literal b && not (first && b == b'.')
    then b ∷ []
    else b'%' ∷ hex_digit (b / 16) ∷ hex_digit (b % 16) ∷ []

unfoldable pub encode_bytes : Bool → Bytes → Str
unfolding encode_byte
encode_bytes first [] = []
encode_bytes first (b ∷ bs) = encode_byte first b ++ encode_bytes false bs

-- `if len(encoded) > _MAX_SEGMENT_BYTES: raise`
unfoldable pub bounded : Str → Result Error Str
bounded encoded = do guard (leb (length encoded) max_segment_bytes) value_error; ok encoded

unfoldable pub encoded_raw : Option Bytes → Result Error Str
unfolding encode_bytes bounded
encoded_raw none = err value_error
encoded_raw (some raw) = bounded (encode_bytes true raw)

-- `_encode_segment`; an `InvalidStorageKeyError` is a `ValueError`.
unfoldable pub encode_segment : Str → Result Error Str
unfolding encoded_raw
encode_segment [] = ok (codes "%")
encode_segment (c ∷ segment) = encoded_raw (encode (c ∷ segment))

-- `int(digit, 16)` of a digit of `_HEX`
unfoldable pub hex_value : ℕ → Option ℕ
hex_value d =
    if leb 48 d && leb d 57
    then some (d - 48)
    else if leb 65 d && leb d 70
    then some (d - 55)
    else none

-- Where the loop stands: between two bytes, or behind a `%` and the digits read.
pub data Scan : Type 0 where
  between escape : Scan
  half : ℕ → Scan

pub data Read : Type 0 where
  reject : Read
  wait : Scan → Read
  emit : ℕ → Read

unfoldable pub first_digit : Option ℕ → Read
first_digit none = reject
first_digit (some n) = wait (half n)

unfoldable pub second_digit : ℕ → Option ℕ → Read
second_digit high none = reject
second_digit high (some n) = emit (high * 16 + n)

unfoldable pub read_char : Scan → ℕ → Read
unfolding hex_value first_digit second_digit
read_char between char =
    if char == b'%' then wait escape else if ltb char 128 then emit char else reject
read_char escape char = first_digit (hex_value char)
read_char (half high) char = second_digit high (hex_value char)

unfoldable pub onto : ℕ → Option Bytes → Option Bytes
onto b none = none
onto b (some bs) = some (b ∷ bs)

-- The `while index < len(name)`
unfoldable pub raw_from : Scan → Str → Option Bytes
unfolding read_char onto
raw_from between [] = some []
raw_from escape [] = none
raw_from (half high) [] = none
raw_from scan (char ∷ name) = elim (read_char scan char) [
  | reject ↦ none
  | wait next ↦ raw_from next name
  | emit b ↦ onto b (raw_from between name)
]

unfoldable pub is_canonical : Str → Result Error Str → Bool
is_canonical name (ok canonical) = str_eq canonical name
is_canonical name (err _) = false

unfoldable pub if_canonical : Str → Option Str → Option Str
unfolding is_canonical
if_canonical name none = none
if_canonical name (some decoded) =
    if is_canonical name (encode_segment decoded) then some decoded else none

unfoldable pub decoded_raw : Option Bytes → Option Str
decoded_raw none = none
decoded_raw (some raw) = decode raw

-- `_decode_segment`
unfoldable pub decode_segment : Str → Option Str
unfolding raw_from decoded_raw if_canonical
decode_segment name =
    if str_eq name (codes "%")
    then some []
    else if_canonical name (decoded_raw (raw_from between name))
