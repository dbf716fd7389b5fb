-- ===== src/Tests/Listing.antt =====
-- The theorems on listings, the memory index and the tools over the in-memory storage with one file.
use wenchang.Base.{
  List, true, none, some, [], ◌∷◌, ◌≡◌, ◌<◌, refl, if◌then◌else◌, arith, All, length,
}
use wenchang.Base.Result.{ok}
use wenchang.Text.{codes, str_dec, str_eq, split, starts_with, ends_with, but_last}
use wenchang.Text.SortedSet.{member}
use wenchang.Dict
use wenchang.Utf8.{encode}
use wenchang.Paths.{build_prefix, is_valid_segment, is_valid_path, is_valid_prefix}
use wenchang.FileFormat.Metadata.{has_line_end}
use wenchang.Storage.Memory.{memory, decimal, digits, put_locked, list_keys, sort}
use wenchang.Storage.Memory.Lawful.{memory_contract}
use wenchang.Core.{FileEntry, Config}
use wenchang.Core.Cursor.{entries_of}
use wenchang.Core.Listing.{drain}
use wenchang.Core.Listing.Cap.{listed_under}
use wenchang.Core.Listing.Keys.{CanEncode}
use wenchang.Core.Listing.Drain.{drain_lem}
use wenchang.Core.Cached.{encode_listing, decode_listing}
use wenchang.Core.Cached.RoundTrip.{IsEntry, decode_listing-encode_listing}
use wenchang.Core.Operator.{ExportedObject, export}
use wenchang.Core.Operator.Export.{Exported, export_lem}
use wenchang.Tests.Codec.{test_codec, test_codec-IsBase64}
use wenchang.Tests.JsonCodec.{listing_codec, listing_codec-IsListingCodec}
use wenchang.Tests.Store.{notes, profile, profile-IsSorted, stored_state, stored-Good, limits}

abbrev entry : FileEntry
entry = record { path = notes; metadata = profile; version = codes "1" }

entry-IsEntry : IsEntry (codes "user/u1/") entry
unfolding is_valid_path split is_valid_segment str_dec ends_with but_last has_line_end starts_with
    encode
entry-IsEntry = record {
  path = refl;
  under = refl;
  metadata = record { one_line = refl; aware = refl; sorted = profile-IsSorted };
  path_text = (_, refl);
  version_text = (_, refl);
  description_text = (_, refl);
  aliases_text = ((_, refl), tt);
  sources_text = ((_, refl), ((_, refl), tt));
  instant = omega arith;
}

decode_listing-encode_listing_example :
    decode_listing test_codec listing_codec
      (encode_listing listing_codec (codes "abc") (entry ∷ []))
      (codes "abd")
      (codes "user/u1/")
    ≡ (if str_eq (codes "abc") (codes "abd") then some (entry ∷ []) else none)
unfolding member encode
decode_listing-encode_listing_example =
    decode_listing-encode_listing test_codec listing_codec listing_codec-IsListingCodec
      (codes "user/u1/") (codes "abc") (codes "abd") (entry ∷ []) (_, refl)
      (entry-IsEntry, refl, tt)

valid_prefix : is_valid_prefix (codes "user/u1/") ≡ true
unfolding is_valid_prefix split is_valid_segment str_dec ends_with but_last
valid_prefix = refl

few : length (listed_under memory memory_contract stored_state (codes "user/u1/")) < 2
unfolding memory memory_contract stored_state put_locked Dict.get Dict.put Dict.keys str_dec decimal
    digits list_keys sort starts_with
few = omega arith

keys_encode : All CanEncode (listed_under memory memory_contract stored_state (codes "user/u1/"))
unfolding memory memory_contract stored_state put_locked Dict.get Dict.put Dict.keys str_dec decimal
    digits list_keys sort starts_with encode
keys_encode = ((notes, refl), tt)

drain_lem_example : drain memory test_codec limits 2 (codes "user/u1/") stored_state ≡ (
  entries_of test_codec (listed_under memory memory_contract stored_state (codes "user/u1/")),
  stored_state,
)
drain_lem_example =
    drain_lem memory memory_contract test_codec limits stored_state stored-Good (codes "user/u1/")
      test_codec-IsBase64 (omega arith) valid_prefix 2 keys_encode few

abbrev uncached : Config
uncached = record limits { index_cache = none }

user_valid : is_valid_segment (codes "user") ≡ true
unfolding is_valid_segment str_dec
user_valid = refl

u1_valid : is_valid_segment (codes "u1") ≡ true
unfolding is_valid_segment str_dec
u1_valid = refl

entity_built : build_prefix (codes "user") (some (codes "u1")) none ≡ some (codes "user/u1/")
unfolding build_prefix is_valid_segment str_dec
entity_built = refl

export_lem_example :
    (objects : List ExportedObject) × (export memory limits 2
        (codes "user")
        (codes "u1")
        stored_state
      ≡ (ok objects, stored_state))
    × Exported memory memory_contract limits stored_state (codes "user/u1/") objects
export_lem_example =
    export_lem memory memory_contract limits stored_state test_codec stored-Good (codes "user/u1/")
      (omega arith) 2 (codes "user") (codes "u1") user_valid u1_valid entity_built few
