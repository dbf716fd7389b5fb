-- ===== src/Tests/JsonCodec.antt =====
-- A concrete JSON text with the round trip that `IsListingCodec` asks for: instructions for a stack
-- of values, and instants in digits.
use wenchang.Base.{true, false, ℕ, zero, suc, Option, none, some, List, [], ◌∷◌, ◌≡◌, refl, arith}
use wenchang.Json.{
  Json, string, array, object, scalar, null, number, boolean, Items, no_items, item, Members,
  no_members, member,
}
use wenchang.Text.{Str}
use wenchang.Core.Cached.{ListingCodec, IsListingCodec}
use wenchang.Tests.Codec.{test_codec, timestamp, timestamp-digits_of, digits_of, small-IsEncodable}

pub data Entry : Type 0 where
  value : Json → Entry
  listed : Items → Entry
  mapped : Members → Entry
  text : Str → Entry

step : ℕ → List Entry → List Entry
step zero st = text [] ∷ st
step (suc zero) (text s ∷ st) = value (string s) ∷ st
step (suc (suc zero)) st = listed no_items ∷ st
step (suc (suc (suc zero))) (value x ∷ listed xs ∷ st) = listed (item x xs) ∷ st
step (suc (suc (suc (suc zero)))) (listed xs ∷ st) = value (array xs) ∷ st
step (suc (suc (suc (suc (suc zero))))) st = mapped no_members ∷ st
step (suc (suc (suc (suc (suc (suc zero)))))) (text key ∷ value x ∷ mapped ms ∷ st) =
    mapped (member key x ms) ∷ st
step (suc (suc (suc (suc (suc (suc (suc zero))))))) (mapped ms ∷ st) = value (object ms) ∷ st
step (suc (suc (suc (suc (suc (suc (suc (suc zero)))))))) st = value scalar ∷ st
step (suc (suc (suc (suc (suc (suc (suc (suc (suc zero))))))))) st = value null ∷ st
step (suc (suc (suc (suc (suc (suc (suc (suc (suc (suc zero)))))))))) (text (n ∷ s) ∷ st) =
    value (number n) ∷ st
step (suc (suc (suc (suc (suc (suc (suc (suc (suc (suc (suc zero))))))))))) st =
    value (boolean true) ∷ st
step (suc (suc (suc (suc (suc (suc (suc (suc (suc (suc (suc (suc zero)))))))))))) st =
    value (boolean false) ∷ st
step (suc (suc (suc (suc (suc (suc (suc (suc (suc (suc (suc (suc (suc c))))))))))))) (text s ∷ st) =
    text (c ∷ s) ∷ st
step _ st = st

run : Str → List Entry → List Entry
unfolding step
run [] st = st
run (n ∷ code) st = run code (step n st)

write_text : Str → Str → Str
write_text [] code = 0 ∷ code
write_text (c ∷ s) code =
    write_text s
      (suc (suc (suc (suc (suc (suc (suc (suc (suc (suc (suc (suc (suc c)))))))))))) ∷ code)

unfoldable mutual
  unfolding write_text

  write : Json → Str → Str
  write (string s) code = write_text s (1 ∷ code)
  write (array xs) code = write_items xs (4 ∷ code)
  write (object ms) code = write_members ms (7 ∷ code)
  write scalar code = 8 ∷ code
  write null code = 9 ∷ code
  write (number n) code = write_text (n ∷ []) (10 ∷ code)
  write (boolean true) code = 11 ∷ code
  write (boolean false) code = 12 ∷ code

  write_items : Items → Str → Str
  write_items no_items code = 2 ∷ code
  write_items (item x xs) code = write_items xs (write x (3 ∷ code))

  write_members : Members → Str → Str
  write_members no_members code = 5 ∷ code
  write_members (member key x ms) code = write_members ms (write x (write_text key (6 ∷ code)))

run-write_text :
    (s code : Str) (st : List Entry) → run (write_text s code) st ≡ run code (text s ∷ st)
unfolding run write_text step
run-write_text [] code st = refl
run-write_text (c ∷ s) code st = run-write_text s _ st

mutual
  unfolding run write write_items write_members step

  run-write :
      (x : Json) (code : Str) (st : List Entry) → run (write x code) st ≡ run code (value x ∷ st)
  run-write (string s) code st = run-write_text s (1 ∷ code) st
  run-write (array xs) code st = run-write_items xs (4 ∷ code) st
  run-write (object ms) code st = run-write_members ms (7 ∷ code) st
  run-write scalar code st = refl
  run-write null code st = refl
  run-write (number n) code st = run-write_text (n ∷ []) (10 ∷ code) st
  run-write (boolean true) code st = refl
  run-write (boolean false) code st = refl

  run-write_items :
      (xs : Items) (code : Str) (st : List Entry)
      → run (write_items xs code) st ≡ run code (listed xs ∷ st)
  run-write_items no_items code st = refl
  run-write_items (item x xs) code st =
      rw (run-write_items xs (write x (3 ∷ code)) st) (run-write x (3 ∷ code) (listed xs ∷ st))

  run-write_members :
      (ms : Members) (code : Str) (st : List Entry)
      → run (write_members ms code) st ≡ run code (mapped ms ∷ st)
  run-write_members no_members code st = refl
  run-write_members (member key x ms) code st =
      rw
        (
          run-write_members ms (write x (write_text key (6 ∷ code))) st,
          run-write x (write_text key (6 ∷ code)) (mapped ms ∷ st),
        )
        (run-write_text key (6 ∷ code) (value x ∷ mapped ms ∷ st))

top : List Entry → Option Json
top (value x ∷ []) = some x
top _ = none

unfoldable pub listing_codec : ListingCodec
unfolding write run top
listing_codec = record {
  dumps = λ x. write x [];
  loads = λ s. top (run s []);
  isoformat = λ t. digits_of t.micros;
}

pub listing_codec-IsListingCodec : IsListingCodec test_codec listing_codec
unfolding listing_codec test_codec timestamp top
listing_codec-IsListingCodec = record {
  loads-dumps = λ x h. rw (run-write x [] []) refl;
  fromisoformat-isoformat = λ t aware h. (
    small-IsEncodable (digits_of t.micros) (
      omega arith,
      (omega arith, (omega arith, (omega arith, (omega arith, (omega arith, tt))))),
    ),
    rw (timestamp-digits_of t.micros) (ground arith),
  );
}
