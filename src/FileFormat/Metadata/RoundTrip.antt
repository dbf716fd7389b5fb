-- ===== src/FileFormat/Metadata/RoundTrip.antt =====
-- Metadata read back from its map, and what the maps that can be read hold.
use wenchang.Base.{
  Bool-cases, inl, inr, true, All, Option, some, List, [], ◌∷◌, map, ◌≡◌, refl, arith,
}
use wenchang.Base.Result.{Result, ok, err, >>=-eq-ok}
use wenchang.Text.{Str, str_dec}
use wenchang.Text.SortedSet.{set_of, set_of-sorted, set_of-IsSorted}
use wenchang.Dict
use wenchang.Dict.{Dict}
use wenchang.Errors.{Error, overflow}
use wenchang.FileFormat.Metadata.{
  Codec, IsCodec, Datetime, FileMetadata, IsMetadata, make_metadata, metadata_to_map,
  metadata_from_map, parse_string_list, strings, loaded_strings, blame_description, read_fields,
  array, rendered_map, is_renderable, IsEncodable, aliases_key, sources_key,
}

strings-map-some : (xs : List Str) → strings (map some xs) ≡ some xs
unfolding strings
strings-map-some [] = refl
strings-map-some (x ∷ xs) = rw (strings-map-some xs, strings)

module _ (c : Codec) where
  loaded_strings-some :
      (key : Str) (items : List (Option Str)) (xs : List Str)
      → strings items ≡ some xs
      → loaded_strings c key (array items) ≡ ok xs
  unfolding loaded_strings
  loaded_strings-some key items xs h = rw (h, loaded_strings)

  parse_string_list-dumps :
      IsCodec c
      → (key : Str) (xs : List Str) → All IsEncodable xs
      → parse_string_list c key (c.dumps xs) ≡ ok xs
  unfolding parse_string_list
  parse_string_list-dumps law key xs h =
      rw (law.loads-dumps xs h) (loaded_strings-some key (map some xs) xs (strings-map-some xs))

  -- Metadata whose map was rendered has an instant that can be rendered.
  pub metadata_to_map-eq_ok :
      (m : FileMetadata) (d : Dict Str)
      → metadata_to_map c m ≡ ok d
      → (d ≡ rendered_map c m) × (is_renderable m.last_updated.micros ≡ true)
  unfolding metadata_to_map
  metadata_to_map-eq_ok m d h = elim (Bool-cases (is_renderable m.last_updated.micros)) [
    | inl e ↦ let same : ok (rendered_map c m) ≡ ok d = rw e at h in (cc same, e)
    | inr e ↦ let none_of_it : err overflow ≡ ok d = rw e at h in cc none_of_it
  ]

  pub metadata_to_map-renderable :
      (m : FileMetadata)
      → is_renderable m.last_updated.micros ≡ true
      → metadata_to_map c m ≡ ok (rendered_map c m)
  unfolding metadata_to_map
  metadata_to_map-renderable m h = rw h refl

  -- Metadata that can be built, with aliases and sources without surrogates and an instant that can
  -- be rendered, is read back from its map as it was, if the codec has its round trips.
  pub metadata_from_map-rendered_map :
      IsCodec c
      → (m : FileMetadata) → IsMetadata m
      → All IsEncodable m.aliases
      → All IsEncodable m.sources
      → is_renderable m.last_updated.micros ≡ true
      → metadata_from_map c (rendered_map c m) ≡ ok m
  unfolding metadata_from_map rendered_map Dict.get str_dec
  metadata_from_map-rendered_map law m v aliases sources renders =
      rw
        (
          parse_string_list-dumps law aliases_key m.aliases aliases,
          parse_string_list-dumps law sources_key m.sources sources,
          law.fromisoformat-isoformat m.last_updated.micros renders,
          set_of-sorted m.sources v.sorted,
        )
        (unfold make_metadata in rw (v.one_line) (ground arith))

  make_metadata-IsMetadata :
      (d : Str) (aliases : List Str) (sources : List Str) (t : Datetime) (m : FileMetadata)
      → make_metadata d aliases (set_of sources) t ≡ ok m
      → IsMetadata m
  unfolding make_metadata
  make_metadata-IsMetadata d aliases sources t m h = ground (arith, set_of-IsSorted sources)

  blame_description-eq_ok :
      (r : Result Error FileMetadata) {m : FileMetadata} → blame_description c r ≡ ok m → r ≡ ok m
  unfolding blame_description
  blame_description-eq_ok r h = ground arith

  -- What is read from any map is metadata that can be built.
  pub metadata_from_map-IsMetadata :
      (values : Dict Str) (m : FileMetadata) → metadata_from_map c values ≡ ok m → IsMetadata m
  unfolding metadata_from_map
  metadata_from_map-IsMetadata values m h =
      let (fields, _, k) = >>=-eq-ok (read_fields c values) _ h in
      make_metadata-IsMetadata fields.0 fields.1 fields.2 fields.3 m
        (blame_description-eq_ok (make_metadata fields.0 fields.1 (set_of fields.2) fields.3) k)
