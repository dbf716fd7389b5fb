-- ===== src/Tests/Codec.antt =====
-- A concrete codec with the round trips that `IsCodec` asks for: texts end in a 0, instants are
-- written in digits, and bytes stand for themselves.
use wenchang.Base.{
  ◌+◌, ◌*◌, ◌/◌, ◌%◌, ◌<◌, All, Bool-cases, inl, inr, ltb, arith, ℕ, zero, suc, true, Option, none,
  some, List, [], ◌∷◌, ◌++◌, map, ◌≡◌, refl, ap,
}
use wenchang.Text.{Str}
use wenchang.Utf8.{Bytes, encode, encode_char, both}
use wenchang.FileFormat.Metadata.{Codec, IsCodec, IsBase64, IsEncodable, Datetime, array}

ended : Str → Str
ended [] = 0 ∷ []
ended (c ∷ s) = suc c ∷ ended s

dump : List Str → Str
unfolding ended
dump [] = []
dump (x ∷ xs) = ended x ++ dump xs

under : ℕ → List Str → List Str
under c [] = []
under c (x ∷ xs) = (c ∷ x) ∷ xs

load : Str → List Str
unfolding under
load [] = []
load (zero ∷ s) = [] ∷ load s
load (suc c ∷ s) = under c (load s)

load-ended : (x s : Str) → load (ended x ++ s) ≡ x ∷ load s
unfolding ended load under
load-ended [] s = refl
load-ended (c ∷ x) s = rw (load-ended x s, under)

load-dump : (xs : List Str) → load (dump xs) ≡ xs
unfolding dump load
load-dump [] = refl
load-dump (x ∷ xs) = rw (load-ended x (dump xs), load-dump xs)

-- An instant as six digits of base 2048, the least first.
abbrev pub digits_of : ℕ → Str
digits_of t =
    t % 2048
    ∷ t / 2048 % 2048
    ∷ t / 2048 / 2048 % 2048
    ∷ t / 2048 / 2048 / 2048 % 2048
    ∷ t / 2048 / 2048 / 2048 / 2048 % 2048
    ∷ t / 2048 / 2048 / 2048 / 2048 / 2048
    ∷ []

abbrev value_of : ℕ → ℕ → ℕ → ℕ → ℕ → ℕ → ℕ
value_of a b c d e f = a + 2048 * (b + 2048 * (c + 2048 * (d + 2048 * (e + 2048 * f))))

unfoldable pub timestamp : Str → Option Datetime
timestamp (a ∷ b ∷ c ∷ d ∷ e ∷ f ∷ []) =
    some (record { micros = value_of a b c d e f; aware = true })
timestamp _ = none

pub timestamp-digits_of :
    (t : ℕ) → timestamp (digits_of t) ≡ some (record { micros = t; aware = true })
unfolding timestamp
timestamp-digits_of t =
    let whole : value_of (t % 2048) (t / 2048 % 2048) (t / 2048 / 2048 % 2048)
          (t / 2048 / 2048 / 2048 % 2048) (t / 2048 / 2048 / 2048 / 2048 % 2048)
          (t / 2048 / 2048 / 2048 / 2048 / 2048)
        ≡ t =
      omega arith in
    ap (λ n. some (record { micros = n; aware = true })) whole

small_char : (c : ℕ) → c < 2048 → (bs : Bytes) × (encode_char c ≡ some bs)
unfolding encode_char
small_char c h = elim (Bool-cases (ltb c 0x80)) [
  | inl e ↦ rw e (_, refl)
  | inr e ↦ let f : ltb c 0x800 ≡ true = ground arith in rw (e, f) (_, refl)
]

pub small-IsEncodable : (s : Str) → All (λ c. c < 2048) s → IsEncodable s
unfolding encode both
small-IsEncodable [] h = ([], refl)
small-IsEncodable (c ∷ s) h =
    let (a, e) = small_char c h.0 in
    let (b, f) = small-IsEncodable s h.1 in (a ++ b, rw (e, f) refl)

unfoldable pub test_codec : Codec
unfolding dump load timestamp
test_codec = record {
  dumps = dump;
  loads = λ s. array (map some (load s));
  isoformat = digits_of;
  fromisoformat = timestamp;
  b64encode = λ bs. bs;
  b64decode = some;
}

pub test_codec-IsCodec : IsCodec test_codec
unfolding test_codec timestamp
test_codec-IsCodec = record {
  loads-dumps = λ xs h. ap (λ ys. array (map some ys)) (load-dump xs);
  fromisoformat-isoformat = λ t h. timestamp-digits_of t;
}

pub test_codec-IsBase64 : IsBase64 test_codec
unfolding test_codec
test_codec-IsBase64 = record { b64decode-b64encode = λ bs h. refl }
