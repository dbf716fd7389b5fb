-- ===== src/Core/Cached/RoundTrip.antt =====
-- What was stored in the index cache is read back (`_encode_listing`, `_decode_listing` of
-- src/wenchang/core.py).
use wenchang.Base.{
  All, ◌<◌, true, false, Option, none, some, List, [], ◌∷◌, map, ◌≡◌, refl, if◌then◌else◌,
}
use wenchang.Base.Optional.{◌>>◌, require}
use wenchang.Json.{string, array, object, items, fields, members, values-items}
use wenchang.Text.{Str, codes, str_eq, str_dec, starts_with}
use wenchang.Text.SortedSet.{member, set_of, set_of-sorted}
use wenchang.Dict
use wenchang.Paths.{is_valid_path}
use wenchang.FileFormat.Metadata.{IsEncodable, Codec, FileMetadata, make_metadata, IsMetadata}
use wenchang.Utf8.{encode}
use wenchang.Core.{FileEntry}
use wenchang.Core.Cached.{
  IsPlain, ArePlain, AreMembers, instant_bound, ListingCodec, IsListingCodec, text_array,
  encode_entry, encode_listing, text_of, texts_of, str_list, has_entry_fields, made, decode_entry,
  decode_entries, list_of, decode_top, decode_listing,
}

-- An entry that a listing of the prefix gives.
pub record IsEntry (prefix : Str) (e : FileEntry) : Type 0 where
  pub path : is_valid_path e.path ≡ true
  pub under : starts_with e.path prefix ≡ true
  pub metadata : IsMetadata e.metadata
  pub path_text : IsEncodable e.path
  pub version_text : IsEncodable e.version
  pub description_text : IsEncodable e.metadata.description
  pub aliases_text : All IsEncodable e.metadata.aliases
  pub sources_text : All IsEncodable e.metadata.sources
  pub instant : e.metadata.last_updated.micros < instant_bound

-- Entries of the prefix, at paths that differ from each other and from those given.
abbrev pub IsListing : Str → List Str → List FileEntry → Type 0
IsListing prefix paths [] = Unit
IsListing prefix paths (e ∷ es) =
    IsEntry prefix e × (member e.path paths ≡ false) × IsListing prefix (e.path ∷ paths) es

texts_of-map : (texts : List Str) → texts_of (map string texts) ≡ some texts
unfolding texts_of text_of
texts_of-map [] = refl
texts_of-map (s ∷ texts) = rw (texts_of-map texts) refl

str_list-text_array : (texts : List Str) → str_list (text_array texts) ≡ some texts
unfolding str_list text_array
str_list-text_array texts = rw (values-items (map string texts)) (texts_of-map texts)

made-make_metadata :
    (m : FileMetadata)
    → IsMetadata m
    → made (make_metadata m.description m.aliases (set_of m.sources) m.last_updated) ≡ some m
unfolding made make_metadata
made-make_metadata m h = rw (h.one_line, h.aware, set_of-sorted m.sources h.sorted) refl

module _ (c : Codec) (l : ListingCodec) (law : IsListingCodec c l) (prefix : Str) where
  decode_entry-encode_entry :
      (e : FileEntry) → IsEntry prefix e → decode_entry c (encode_entry l e) prefix ≡ some e
  unfolding decode_entry encode_entry has_entry_fields text_of Dict.get Dict.keys str_dec member
      fields members
  decode_entry-encode_entry e h =
      rw
        (
          str_list-text_array e.metadata.aliases,
          str_list-text_array e.metadata.sources,
          h.path,
          h.under,
          (law.fromisoformat-isoformat e.metadata.last_updated h.metadata.aware h.instant).1,
          made-make_metadata e.metadata h.metadata,
        )
        refl

  decode_entries-map :
      (paths : List Str) (es : List FileEntry)
      → IsListing prefix paths es
      → decode_entries c prefix paths (map (encode_entry l) es) ≡ some es
  unfolding decode_entries
  decode_entries-map paths [] h = refl
  decode_entries-map paths (e ∷ es) h =
      rw (decode_entry-encode_entry e h.0, h.1, decode_entries-map (e.path ∷ paths) es h.2) refl

  tagged :
      (token tag : Str) (x : Option (List FileEntry))
      → (require (str_eq token tag) >> x) ≡ (if str_eq token tag then x else none)
  tagged token tag x =
      elim (str_eq token tag) as (λ b. (require b >> x) ≡ (if b then x else none)) [
        | true ↦ refl
        | false ↦ refl
      ]

  decode_top-lem :
      (token tag : Str) (es : List FileEntry)
      → IsListing prefix [] es
      → decode_top c tag prefix (
          object (
            members (
              (codes "token", string token)
              ∷ (codes "entries", array (items (map (encode_entry l) es)))
              ∷ [])))
        ≡ (if str_eq token tag then some es else none)
  unfolding decode_top Dict.get str_dec fields members text_of list_of
  decode_top-lem token tag es h =
      rw (values-items (map (encode_entry l) es), decode_entries-map [] es h)
        (tagged token tag (some es))

  ArePlain-texts : (texts : List Str) → All IsEncodable texts → ArePlain (items (map string texts))
  unfolding items ArePlain IsPlain
  ArePlain-texts [] h = tt
  ArePlain-texts (s ∷ texts) h = (h.0, ArePlain-texts texts h.1)

  encode_entry-IsPlain : (e : FileEntry) → IsEntry prefix e → IsPlain (encode_entry l e)
  unfolding encode_entry text_array members IsPlain AreMembers member str_dec encode
  encode_entry-IsPlain e h = (
    (_, refl),
    refl,
    h.path_text,
    (
      (_, refl),
      refl,
      h.version_text,
      (
        (_, refl),
        refl,
        h.description_text,
        (
          (_, refl),
          refl,
          ArePlain-texts e.metadata.aliases h.aliases_text,
          (
            (_, refl),
            refl,
            ArePlain-texts e.metadata.sources h.sources_text,
            (
              (_, refl),
              refl,
              (law.fromisoformat-isoformat e.metadata.last_updated h.metadata.aware h.instant).0,
              tt,
            ),
          ),
        ),
      ),
    ),
  )

  entries-ArePlain :
      (paths : List Str) (es : List FileEntry)
      → IsListing prefix paths es
      → ArePlain (items (map (encode_entry l) es))
  unfolding items ArePlain
  entries-ArePlain paths [] h = tt
  entries-ArePlain paths (e ∷ es) h =
      (encode_entry-IsPlain e h.0, entries-ArePlain (e.path ∷ paths) es h.2)

  encode_listing-IsPlain :
      (token : Str) (es : List FileEntry)
      → IsEncodable token
      → IsListing prefix [] es
      → IsPlain (
          object (
            members (
              (codes "token", string token)
              ∷ (codes "entries", array (items (map (encode_entry l) es)))
              ∷ [])))
  unfolding members IsPlain AreMembers member str_dec encode
  encode_listing-IsPlain token es t h =
      ((_, refl), refl, t, ((_, refl), refl, entries-ArePlain [] es h, tt))

  -- With the documented round trips of JSON without surrogates or repeated keys, and of the instants
  -- of aware datetimes: the listing stored under a token without surrogates, of entries under the
  -- prefix whose texts have no surrogates, with valid metadata and distinct valid paths, is read back
  -- whole under that token, and is a miss under any other.
  pub decode_listing-encode_listing :
      (token tag : Str) (es : List FileEntry)
      → IsEncodable token
      → IsListing prefix [] es
      → decode_listing c l (encode_listing l token es) tag prefix
        ≡ (if str_eq token tag then some es else none)
  unfolding decode_listing encode_listing
  decode_listing-encode_listing token tag es t h =
      rw (law.loads-dumps _ (encode_listing-IsPlain token es t h)) (decode_top-lem token tag es h)
