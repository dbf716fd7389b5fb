-- ===== src/Utf8/Octets.antt =====
-- The bytes of an encoded text are octets.
use wenchang.Base.{ℕ, ◌/◌, ◌<◌, some, [], ◌∷◌, ◌++◌, ◌≡◌, All, arith}
use wenchang.Text.{Str}
use wenchang.Utf8.{Bytes, encode, encode_char, continuation}
use wenchang.Utf8.RoundTrip.{
  Encoding, one_byte, two_bytes, three_bytes, four_bytes, encode_char-Encoding, both-eq_some,
}

abbrev pub AreOctets : Bytes → Type 0
AreOctets = All (λ b. b < 256)

continuation-lt : (n : ℕ) → continuation n < 256
unfolding continuation
continuation-lt n = omega arith

encode_char-AreOctets : (c : ℕ) (bs : Bytes) → Encoding c bs → AreOctets bs
encode_char-AreOctets c bs (one_byte u e) = rw e (omega (arith, u), tt)
encode_char-AreOctets c bs (two_bytes l u e) = rw e (omega (arith, u), (continuation-lt c, tt))
encode_char-AreOctets c bs (three_bytes l u s e) =
    rw e (omega (arith, u), (continuation-lt (c / 64), (continuation-lt c, tt)))
encode_char-AreOctets c bs (four_bytes l u e) = rw e (
  omega (arith, u),
  (continuation-lt (c / 4096), (continuation-lt (c / 64), (continuation-lt c, tt))),
)

append-AreOctets : (a b : Bytes) → AreOctets a → AreOctets b → AreOctets (a ++ b)
append-AreOctets [] b h k = k
append-AreOctets (x ∷ a) b h k = (h.0, append-AreOctets a b h.1 k)

pub encode-AreOctets : (s : Str) (bs : Bytes) → encode s ≡ some bs → AreOctets bs
unfolding encode
encode-AreOctets [] bs h = let e : [] ≡ bs = ground arith in rw (← e) tt
encode-AreOctets (c ∷ s) bs h =
    let (a, b, ha, hb, e) = both-eq_some (encode_char c) (encode s) h in
    rw (← e) (
      append-AreOctets a b (encode_char-AreOctets c a (encode_char-Encoding c a ha))
        (encode-AreOctets s b hb))
