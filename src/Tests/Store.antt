-- ===== src/Tests/Store.antt =====
-- The theorems on `MemoryStore` over the in-memory storage, with one file in it.
use wenchang.Base.{List, true, none, some, [], ◌∷◌, ◌≡◌, ◌≢◌, refl}
use wenchang.Base.Result.{ok}
use wenchang.Text.{Str, codes, str_dec}
use wenchang.Text.Order.{before}
use wenchang.Text.SortedSet.{IsSorted}
use wenchang.Dict
use wenchang.FileFormat.Metadata.{FileMetadata, rendered_map}
use wenchang.Storage.{current_version, ListedObject}
use wenchang.Storage.Contract.{update}
use wenchang.Storage.Memory.{
  World, memory, put_locked, put_if_version, delete_if_version, list_page, decimal, digits,
}
use wenchang.Storage.Memory.Lawful.{
  Sound, memory_contract, put_locked-Sound, put_if_version-matched, delete_if_version_lem,
  DeleteOutcome,
}
use wenchang.Storage.Memory.Listed.{IsPage, list_page-IsPage}
use wenchang.Core.{Config}
use wenchang.Core.Rules.{Holds}
use wenchang.Core.Write.{write_file}
use wenchang.Core.Write.Outcome.{Written}
use wenchang.Core.Edit.{append_line, replace_fact}
use wenchang.Core.Edit.Outcome.{Appended, Replaced}
use wenchang.Core.RoundTrip.{write_file_lem, append_line_lem, replace_fact_lem}
use wenchang.Tests.Codec.{test_codec}

abbrev pub empty : World
empty = record { objects = []; next_token = 1; clock = 100; uuids = 0; cache = [] }

empty-Sound : Sound empty
unfolding Dict.get
empty-Sound = record { unique = tt; issued = λ key. tt }

abbrev pub notes : Str
notes = codes "user/u1/prefs/notes.md"

abbrev pub profile : FileMetadata
profile = record {
  description = codes "Preferences";
  aliases = codes "prefs" ∷ [];
  sources = codes "chat" ∷ codes "web" ∷ [];
  last_updated = record { micros = 86400000012; aware = true };
}

pub profile-IsSorted : IsSorted profile.sources
unfolding before
profile-IsSorted = ((refl, tt), (tt, tt))

unfoldable pub empty_state : memory.State
unfolding memory
empty_state = empty

pub empty-Good : memory_contract.Good empty_state
unfolding memory memory_contract empty_state
empty-Good = empty-Sound

-- The state behind a first `put` of the file.
abbrev pub stored : World
stored =
    (put_locked notes (codes "- [stated] likes tea\n") (rendered_map test_codec profile) empty).1

pub stored-Sound : Sound stored
stored-Sound =
    put_locked-Sound empty empty-Sound notes (codes "- [stated] likes tea\n")
      (rendered_map test_codec profile)

unfoldable pub stored_state : memory.State
unfolding memory
stored_state = stored

pub stored-Good : memory_contract.Good stored_state
unfolding memory memory_contract stored_state
stored-Good = stored-Sound

abbrev pub limits : Config
limits = record {
  max_file_bytes = 200;
  list_page_size = 2;
  index_max_bytes = 1000;
  scope_priority = [];
  max_files_per_entity = some 3;
  index_cache = some (codes "wenchang:");
}

write_file_lem_example :
    Holds memory memory_contract empty_state
      (Written memory memory_contract test_codec limits empty_state 9 notes
        (codes "chat")
        (codes "text")
        profile
        none)
      (write_file memory test_codec limits 9 notes
        (codes "text")
        profile
        none
        (codes "chat")
        empty_state)
write_file_lem_example =
    write_file_lem memory memory_contract test_codec limits empty_state notes (codes "chat") 9
      (codes "text") profile none empty-Good profile-IsSorted

append_line_lem_example :
    Holds memory memory_contract stored_state
      (Appended memory memory_contract test_codec limits stored_state notes
        (codes "chat")
        none
        none
        (codes "- [stated] likes cake")
        (codes "1"))
      (append_line memory test_codec limits notes
        (codes "- [stated] likes cake")
        (codes "1")
        (codes "chat")
        none
        none
        stored_state)
append_line_lem_example =
    append_line_lem memory memory_contract test_codec limits stored_state notes (codes "chat") none
      none (codes "1") (codes "- [stated] likes cake") stored-Good

replace_fact_lem_example :
    Holds memory memory_contract stored_state
      (Replaced memory memory_contract test_codec limits stored_state notes
        (codes "chat")
        none
        none
        (codes "tea")
        (codes "coffee"))
      (replace_fact memory test_codec limits notes
        (codes "tea")
        (codes "coffee")
        (codes "1")
        (codes "chat")
        none
        none
        stored_state)
replace_fact_lem_example =
    replace_fact_lem memory memory_contract test_codec limits stored_state notes (codes "chat") none
      none (codes "1") (codes "tea") (codes "coffee") stored-Good

put_if_version-matched_example :
    (v : Str) × ((put_if_version notes (codes "new") [] (some (codes "1")) stored).0 ≡ ok v)
    × (current_version (Dict.get notes stored.objects) ≢ some v)
    × ((j : Str)
        → Dict.get j (put_if_version notes (codes "new") [] (some (codes "1")) stored).1.objects
          ≡ update
              (λ i. Dict.get i stored.objects)
              notes
              (some (record { body = codes "new"; metadata = []; version = v }))
              j)
put_if_version-matched_example =
    put_if_version-matched notes (codes "new") [] (some (codes "1")) stored stored-Sound
      (unfold Dict.get Dict.put put_locked decimal digits str_dec in refl)

delete_if_version_lem_example :
    DeleteOutcome notes (codes "1") stored (delete_if_version notes (codes "1") stored)
delete_if_version_lem_example = delete_if_version_lem notes (codes "1") stored stored-Sound

list_page-IsPage_example :
    (page : List ListedObject) × (list_page
        (codes "user/u1/")
        (some (codes "user/u1/a/b.md"))
        2
        stored
      ≡ (ok page, stored))
    × IsPage stored (codes "user/u1/") (some (codes "user/u1/a/b.md")) 2 page
list_page-IsPage_example =
    list_page-IsPage (codes "user/u1/") (some (codes "user/u1/a/b.md")) 2 stored
