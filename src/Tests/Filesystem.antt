-- ===== src/Tests/Filesystem.antt =====
-- The theorems on file names for one segment with characters of each kind.
use wenchang.Base.{some, ◌≡◌, ◌↔◌, refl}
use wenchang.Base.Result.{ok}
use wenchang.Text.{Str, codes}
use wenchang.Utf8.{encode}
use wenchang.Storage.Filesystem.Segment.{encode_segment, decode_segment}
use wenchang.Storage.Filesystem.Segment.RoundTrip.{decode_segment-encode_segment}
use wenchang.Storage.Filesystem.Segment.Safe.{IsFileName, encode_segment-IsFileName}

abbrev segment : Str
segment = codes ".A/b.md"

abbrev name : Str
name = codes "%2E%41%2Fb.md"

name_encoded : encode_segment segment ≡ ok name
unfolding encode_segment encode
name_encoded = refl

decode_segment-encode_segment_example :
    (encode_segment segment ≡ ok name) ↔ (decode_segment name ≡ some segment)
decode_segment-encode_segment_example = decode_segment-encode_segment segment name

encode_segment-IsFileName_example : IsFileName name
encode_segment-IsFileName_example = encode_segment-IsFileName segment name name_encoded
