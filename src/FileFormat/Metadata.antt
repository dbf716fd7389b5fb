-- ===== src/FileFormat/Metadata.antt =====
-- File metadata and its flat string map: `FileMetadata`, `metadata_to_map`, `metadata_from_map`
-- (src/wenchang/file_format.py). JSON, ISO 8601 and base64 texts are read and written by Python's
-- standard library, which enters as a `Codec`.
pub mod RoundTrip
use wenchang.Base.{
  ℕ, ◌<◌, All, Bool, true, false, not, ◌&&◌, ◌||◌, Option, none, some, List, [], ◌∷◌, map, ◌≡◌,
  if◌then◌else◌, leb,
}
use wenchang.Base.Result.{Result, ok, err, ◌>>=◌, ◌>>◌, guard}
use wenchang.Text.{Str, codes, has}
use wenchang.Text.SortedSet.{SortedSet, IsSorted, set_of}
use wenchang.Utf8.{Bytes, encode}
use wenchang.Dict
use wenchang.Dict.{Dict}
use wenchang.Errors.{Error, metadata_format, value_error, overflow}

-- A `datetime`: its instant, in microseconds from one day before `datetime.min` in UTC, and whether
-- it has a UTC offset. An offset is less than a day, so that every aware datetime has an instant. It
-- is only compared and rendered in UTC, so the offset itself is not kept.
pub record Datetime : Type 0 where
  pub micros : ℕ
  pub aware : Bool

-- `datetime.min` and `datetime.max` in UTC
abbrev pub utc_min : ℕ
utc_min = 86400000000

abbrev pub utc_max : ℕ
utc_max = 315537984399999999

-- Whether `astimezone(UTC)` has a result; otherwise it is an `OverflowError`.
abbrev pub is_renderable : ℕ → Bool
is_renderable t = leb utc_min t && leb t utc_max

-- What `json.loads` returned, as far as the program looks at it. `none` is an item that is no text.
pub data Loaded : Type 0 where
  invalid not_array : Loaded
  array : List (Option Str) → Loaded

pub record Codec : Type 0 where
  -- `json.dumps` of a list of texts
  pub dumps : List Str → Str
  pub loads : Str → Loaded
  -- `isoformat` of the instant in UTC, with `Z` for the offset
  pub isoformat : ℕ → Str
  -- `datetime.fromisoformat`; `none` is a `ValueError`
  pub fromisoformat : Str → Option Datetime
  -- `base64.urlsafe_b64encode`, and the decoder with `validate=True`
  pub b64encode : List ℕ → Str
  pub b64decode : Str → Option (List ℕ)

-- A text that UTF-8 can encode: it has no surrogate. Two surrogates may be one character when they
-- are read back from JSON.
abbrev pub IsEncodable : Str → Type 0
IsEncodable s = (bs : Bytes) × (encode s ≡ some bs)

-- The documented round trips of the formats: JSON of texts without surrogates, and ISO 8601 of the
-- instants that a `datetime` in UTC holds.
pub record IsCodec (c : Codec) : Type 0 where
  pub loads-dumps :
      (xs : List Str) → All IsEncodable xs → c.loads (c.dumps xs) ≡ array (map some xs)
  pub fromisoformat-isoformat :
      (t : ℕ)
      → is_renderable t ≡ true
      → c.fromisoformat (c.isoformat t) ≡ some (record { micros = t; aware = true })

-- The documented round trip of base64, of bytes.
pub record IsBase64 (c : Codec) : Type 0 where
  pub b64decode-b64encode :
      (bs : List ℕ) → All (λ b. b < 256) bs → c.b64decode (c.b64encode bs) ≡ some bs

pub record FileMetadata : Type 0 where
  pub description : Str
  pub aliases : List Str
  pub sources : SortedSet
  pub last_updated : Datetime

abbrev pub description_key : Str
description_key = codes "description"

abbrev pub aliases_key : Str
aliases_key = codes "aliases"

abbrev pub sources_key : Str
sources_key = codes "sources"

abbrev pub last_updated_key : Str
last_updated_key = codes "last-updated"

-- `"\n" in s or "\r" in s`
unfoldable pub has_line_end : Str → Bool
unfolding has
has_line_end s = has b'\n' s || has b'\r' s

-- `FileMetadata(...)`, with the tests of its `__post_init__`.
unfoldable pub make_metadata : Str → List Str → SortedSet → Datetime → Result Error FileMetadata
make_metadata description aliases sources last_updated = do
  guard (not (has_line_end description)) value_error
  guard last_updated.aware value_error
  ok (record {
    description = description;
    aliases = aliases;
    sources = sources;
    last_updated = last_updated;
  })

-- What every `FileMetadata` has: its tests passed, and its sources are a set.
pub record IsMetadata (m : FileMetadata) : Type 0 where
  pub one_line : has_line_end m.description ≡ false
  pub aware : m.last_updated.aware ≡ true
  pub sorted : IsSorted m.sources

strings : List (Option Str) → Option (List Str)
strings [] = some []
strings (none ∷ items) = none
strings (some s ∷ items) = elim (strings items) [ none ↦ none | some rest ↦ some (s ∷ rest) ]

pub found : Option Str → Error → Result Error Str
found none e = err e
found (some s) e = ok s

module _ (c : Codec) where
  -- The map of metadata whose instant can be rendered.
  unfoldable pub rendered_map : FileMetadata → Dict Str
  rendered_map m =
      (description_key, m.description)
      ∷ (aliases_key, c.dumps m.aliases)
      ∷ (sources_key, c.dumps m.sources)
      ∷ (last_updated_key, c.isoformat m.last_updated.micros)
      ∷ []

  unfoldable pub metadata_to_map : FileMetadata → Result Error (Dict Str)
  unfolding rendered_map
  metadata_to_map m =
      if is_renderable m.last_updated.micros then ok (rendered_map m) else err overflow

  loaded_strings : Str → Loaded → Result Error (List Str)
  loaded_strings key invalid = err (metadata_format key)
  loaded_strings key not_array = err (metadata_format key)
  loaded_strings key (array items) = elim (strings items) [
    | none ↦ err (metadata_format key)
    | some texts ↦ ok texts
  ]

  pub parse_string_list : Str → Str → Result Error (List Str)
  unfolding loaded_strings strings
  parse_string_list key raw = loaded_strings key (c.loads raw)

  parse_timestamp : Option Datetime → Result Error Datetime
  parse_timestamp none = err (metadata_format last_updated_key)
  parse_timestamp (some t) = if t.aware then ok t else err (metadata_format last_updated_key)

  -- A `ValueError` of the constructor is blamed on the description.
  blame_description : Result Error FileMetadata → Result Error FileMetadata
  blame_description (ok m) = ok m
  blame_description (err _) = err (metadata_format description_key)

  -- The keys are looked for first, then the values are parsed.
  pub read_fields : Dict Str → Result Error (Str × List Str × List Str × Datetime)
  unfolding found parse_timestamp
  read_fields values = do
    description ← found (Dict.get description_key values) (metadata_format description_key)
    raw_aliases ← found (Dict.get aliases_key values) (metadata_format aliases_key)
    raw_sources ← found (Dict.get sources_key values) (metadata_format sources_key)
    raw_last_updated ← found (Dict.get last_updated_key values) (metadata_format last_updated_key)
    aliases ← parse_string_list aliases_key raw_aliases
    sources ← parse_string_list sources_key raw_sources
    last_updated ← parse_timestamp (c.fromisoformat raw_last_updated)
    ok (description, aliases, sources, last_updated)

  pub metadata_from_map : Dict Str → Result Error FileMetadata
  unfolding read_fields blame_description
  metadata_from_map values = do
    fields ← read_fields values
    blame_description (make_metadata fields.0 fields.1 (set_of fields.2) fields.3)
