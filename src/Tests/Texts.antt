-- ===== src/Tests/Texts.antt =====
-- The theorems on fact lines, bodies, metadata and UTF-8 at concrete texts.
use wenchang.Base.{true, some, List, [], ◌∷◌, ◌≡◌, refl}
use wenchang.Base.Result.{ok}
use wenchang.Text.{Str, codes, has, join}
use wenchang.Utf8.{encode, decode}
use wenchang.Utf8.RoundTrip.{decode-encode}
use wenchang.FileFormat.Facts.{Fact, IsFact, is_blank, stated, format_fact, parse_fact}
use wenchang.FileFormat.Facts.RoundTrip.{format_fact-parse_fact, parse_fact-format_fact}
use wenchang.FileFormat.Body.{BodyLine, fact, parse_body, serialize_body, render_lines, render_line}
use wenchang.FileFormat.Body.RoundTrip.{serialize_body-parse_body, parse_body-serialize_body}
use wenchang.FileFormat.Metadata.{FileMetadata}

abbrev tea : Fact
tea = record { label = stated; text = codes "likes tea" }

abbrev tea_line : Str
tea_line = codes "- [stated] likes tea"

tea-IsFact : IsFact tea
unfolding has is_blank
tea-IsFact = (refl, refl)

tea_parsed : parse_fact tea_line ≡ some tea
unfolding format_fact
tea_parsed = parse_fact-format_fact tea tea-IsFact

format_fact-parse_fact_example : (format_fact tea ≡ tea_line) × IsFact tea
format_fact-parse_fact_example = format_fact-parse_fact tea_line tea tea_parsed

parse_fact-format_fact_example : parse_fact (format_fact tea) ≡ some tea
parse_fact-format_fact_example = parse_fact-format_fact tea tea-IsFact

serialize_body-parse_body_example :
    serialize_body (parse_body (codes "# Tea\n- [stated] likes tea\n"))
    ≡ ok (codes "# Tea\n- [stated] likes tea\n")
serialize_body-parse_body_example =
    serialize_body-parse_body (codes "# Tea\n- [stated] likes tea\n")

abbrev tea_body : List BodyLine
tea_body = fact tea ∷ fact tea ∷ []

tea_rendered : serialize_body tea_body ≡ ok (codes "- [stated] likes tea\n- [stated] likes tea")
unfolding serialize_body render_lines render_line format_fact join
tea_rendered = refl

parse_body-serialize_body_example :
    parse_body (codes "- [stated] likes tea\n- [stated] likes tea") ≡ tea_body
parse_body-serialize_body_example =
    parse_body-serialize_body tea_body (codes "- [stated] likes tea\n- [stated] likes tea")
      (tea-IsFact, (tea-IsFact, tt)) tea_rendered

abbrev profile : FileMetadata
profile = record {
  description = codes "Preferences";
  aliases = codes "prefs" ∷ codes "likes" ∷ [];
  sources = codes "chat" ∷ codes "web" ∷ [];
  last_updated = record { micros = 86400000012; aware = true };
}

euro_encoded : encode (0x20AC ∷ 0x41 ∷ []) ≡ some (0xE2 ∷ 0x82 ∷ 0xAC ∷ 0x41 ∷ [])
unfolding encode
euro_encoded = refl

decode-encode_example : decode (0xE2 ∷ 0x82 ∷ 0xAC ∷ 0x41 ∷ []) ≡ some (0x20AC ∷ 0x41 ∷ [])
decode-encode_example =
    decode-encode (0x20AC ∷ 0x41 ∷ []) (0xE2 ∷ 0x82 ∷ 0xAC ∷ 0x41 ∷ []) euro_encoded
