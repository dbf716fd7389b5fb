-- ===== src/Core/Cached.antt =====
-- An entity's listing as it is kept in the index cache: `_encode_listing`, `_str_list`,
-- `_decode_entry`, `_decode_listing` (src/wenchang/core.py).
pub mod RoundTrip
use wenchang.Base.{
  ℕ, ◌<◌, Bool, true, false, not, ◌&&◌, Option, none, some, List, [], ◌∷◌, map, all, ◌≡◌,
}
use wenchang.Base.Result.{Result, ok, err}
use wenchang.Base.Optional.{◌>>=◌, ◌>>◌, require}
use wenchang.Json.{
  Json, string, array, object, Items, Members, values, items, fields, members, no_items, item,
  no_members, member,
}
use wenchang.Text.{Str, codes, str_eq, starts_with}
use wenchang.Text.SortedSet
use wenchang.Text.SortedSet.{set_of}
use wenchang.Dict
use wenchang.Dict.{Dict}
use wenchang.Paths.{is_valid_path}
use wenchang.Errors.{Error, VersionToken}
use wenchang.FileFormat.Metadata.{IsEncodable, Codec, Datetime, FileMetadata, make_metadata}
use wenchang.Core.{FileEntry}

-- Python's JSON, and `isoformat`.
pub record ListingCodec : Type 0 where
  pub dumps : Json → Str
  -- `none` is a `ValueError` or a `RecursionError`.
  pub loads : Str → Option Json
  pub isoformat : Datetime → Str

-- JSON of texts, arrays and objects that is read back as it was: its texts have no surrogates, and no
-- key stands twice in an object.
mutual
  pub IsPlain : Json → Type 0
  IsPlain (string s) = IsEncodable s
  IsPlain (array xs) = ArePlain xs
  IsPlain (object ms) = AreMembers [] ms
  IsPlain _ = ⊥

  pub ArePlain : Items → Type 0
  ArePlain no_items = Unit
  ArePlain (item x xs) = IsPlain x × ArePlain xs

  pub AreMembers : List Str → Members → Type 0
  AreMembers keys no_members = Unit
  AreMembers keys (member key x ms) =
      IsEncodable key × (SortedSet.member key keys ≡ false) × IsPlain x × AreMembers (key ∷ keys) ms

-- The instants of the aware datetimes: those of UTC, and less than a day on either side.
abbrev pub instant_bound : ℕ
instant_bound = 315538070400000000

-- The documented round trips, of plain JSON and of an aware datetime.
pub record IsListingCodec (c : Codec) (l : ListingCodec) : Type 0 where
  pub loads-dumps : (x : Json) → IsPlain x → l.loads (l.dumps x) ≡ some x
  pub fromisoformat-isoformat :
      (t : Datetime)
      → t.aware ≡ true
      → t.micros < instant_bound
      → IsEncodable (l.isoformat t) × (c.fromisoformat (l.isoformat t) ≡ some t)

abbrev pub path_field : Str
path_field = codes "path"

abbrev pub version_field : Str
version_field = codes "version"

abbrev pub description_field : Str
description_field = codes "description"

abbrev pub aliases_field : Str
aliases_field = codes "aliases"

abbrev pub sources_field : Str
sources_field = codes "sources"

abbrev pub last_updated_field : Str
last_updated_field = codes "last_updated"

abbrev pub entry_fields : List Str
entry_fields =
    path_field ∷ version_field ∷ description_field ∷ aliases_field ∷ sources_field
    ∷ last_updated_field ∷ []

-- `list(texts)` as JSON
unfoldable pub text_array : List Str → Json
text_array texts = array (items (map string texts))

unfoldable pub encode_entry : ListingCodec → FileEntry → Json
unfolding text_array
encode_entry l e = object (
    members (
      (path_field, string e.path)
      ∷ (version_field, string e.version)
      ∷ (description_field, string e.metadata.description)
      ∷ (aliases_field, text_array e.metadata.aliases)
      ∷ (sources_field, text_array e.metadata.sources)
      ∷ (last_updated_field, string (l.isoformat e.metadata.last_updated))
      ∷ []))

unfoldable pub encode_listing : ListingCodec → Str → List FileEntry → Str
unfolding encode_entry
encode_listing l token entries = l.dumps (
    object (
      members (
        (codes "token", string token)
        ∷ (codes "entries", array (items (map (encode_entry l) entries)))
        ∷ [])))

-- `type(value) is str`
unfoldable pub text_of : Json → Option Str
text_of (string s) = some s
text_of _ = none

unfoldable pub texts_of : List Json → Option (List Str)
unfolding text_of
texts_of [] = some []
texts_of (x ∷ xs) = let rest = texts_of xs in (do s ← text_of x; ss ← rest; some (s ∷ ss))

-- `_str_list`
unfoldable pub str_list : Json → Option (List Str)
unfolding texts_of
str_list (array xs) = texts_of (values xs)
str_list _ = none

-- `fields.keys() == _ENTRY_FIELDS`
unfoldable pub has_entry_fields : Dict Json → Bool
has_entry_fields d =
    all (λ key. SortedSet.member key entry_fields) (Dict.keys d)
    && all (λ key. SortedSet.member key (Dict.keys d)) entry_fields

-- `except ValueError: return None`
unfoldable pub made : Result Error FileMetadata → Option FileMetadata
made (ok m) = some m
made (err _) = none

unfoldable pub decode_entry : Codec → Json → Str → Option FileEntry
unfolding has_entry_fields text_of str_list made
decode_entry c (object ms) prefix = do
  let d = fields ms
  require (has_entry_fields d)
  path_value ← Dict.get path_field d
  version_value ← Dict.get version_field d
  description_value ← Dict.get description_field d
  last_updated_value ← Dict.get last_updated_field d
  aliases_value ← Dict.get aliases_field d
  sources_value ← Dict.get sources_field d
  aliases ← str_list aliases_value
  sources ← str_list sources_value
  path ← text_of path_value
  version ← text_of version_value
  description ← text_of description_value
  last_updated ← text_of last_updated_value
  require (is_valid_path path && starts_with path prefix)
  instant ← c.fromisoformat last_updated
  metadata ← made (make_metadata description aliases (set_of sources) instant)
  some (record { path = path; metadata = metadata; version = version })
decode_entry c _ prefix = none

-- The loop over the entries, with the paths that were read.
unfoldable pub decode_entries : Codec → Str → List Str → List Json → Option (List FileEntry)
unfolding decode_entry
decode_entries c prefix paths [] = some []
decode_entries c prefix paths (x ∷ xs) = do
  entry ← decode_entry c x prefix
  require (not (SortedSet.member entry.path paths))
  entries ← decode_entries c prefix (entry.path ∷ paths) xs
  some (entry ∷ entries)

unfoldable pub list_of : Json → Option (List Json)
list_of (array xs) = some (values xs)
list_of _ = none

-- The listing at the top, if it is tagged with the token.
unfoldable pub decode_top : Codec → Str → Str → Json → Option (List FileEntry)
unfolding decode_entries text_of list_of
decode_top c token prefix (object ms) = do
  tag ← Dict.get (codes "token") (fields ms)
  found ← text_of tag
  require (str_eq found token)
  raw_entries ← Dict.get (codes "entries") (fields ms)
  xs ← list_of raw_entries
  decode_entries c prefix [] xs
decode_top c token prefix _ = none

unfoldable pub decode_listing : Codec → ListingCodec → Str → Str → Str → Option (List FileEntry)
unfolding decode_top
decode_listing c l raw token prefix = do decoded ← l.loads raw; decode_top c token prefix decoded
