-- ===== src/Tests/Returns.antt =====
-- The theorems on operations that return, over the in-memory storage with one file in it.
use wenchang.Base.{All, ap, ◌<◌, true, false, none, some, [], ◌≡◌, refl, arith, leb, length}
use wenchang.Base.Result.{ok}
use wenchang.Text.{Str, codes, str_eq, str_dec, starts_with, ends_with, split, but_last}
use wenchang.Utf8.{encode}
use wenchang.Dict
use wenchang.Paths.{is_valid_path, is_valid_segment, parse_path, build_prefix}
use wenchang.FileFormat.Facts.{Fact, stated, parse_fact, format_fact, is_blank}
use wenchang.Text.{has}
use wenchang.FileFormat.Facts.RoundTrip.{parse_fact-format_fact}
use wenchang.FileFormat.Metadata.{IsMetadata, IsEncodable, has_line_end, rendered_map}
use wenchang.FileFormat.Metadata.RoundTrip.{metadata_from_map-rendered_map}
use wenchang.Storage.{StoredObject, current_version, same_token}
use wenchang.Storage.Memory.{memory, put_locked, decimal, digits, sort, list_keys}
use wenchang.Storage.Memory.Lawful.{memory_contract}
use wenchang.Core.Content.{append_to, count_occurrences, replace_first}
use wenchang.Core.Content.Once.{Once, replace_first-Once}
use wenchang.Core.Steps.{encoded}
use wenchang.Core.Outcome.{decoded-encode, Holds-ok}
use wenchang.Core.Progress.{IsOk}
use wenchang.Core.Rules.{Holds}
use wenchang.Core.Listing.{at_file_cap}
use wenchang.Core.Listing.Cap.{files_outside_system, listed_under, at_file_cap_lem}
use wenchang.Core.Edit.{append_line, replace_fact, is_fact_line, is_one_line}
use wenchang.Core.Edit.Returns.{Editable, append_line_returns, replace_fact_returns}
use wenchang.Core.Write.{write_file}
use wenchang.Core.Write.Returns.{CanWrite, write_file_returns}
use wenchang.Core.Read.{delete_file, read_file}
use wenchang.Core.RoundTrip.{write_file_lem, read_file-write_file}
use wenchang.Core.Write.Outcome.{Written}
use wenchang.Core.{MemoryFile}
use wenchang.Errors.{Error}
use wenchang.Base.Exec.{Exec}
use wenchang.Text.SortedSet.{insert}
use wenchang.Text.Order.{before}
use wenchang.Core.Read.Outcome.{Deleted, delete_file_lem}
use wenchang.Tests.Codec.{test_codec, test_codec-IsCodec}
use wenchang.Tests.Store.{
  empty_state, empty-Good, stored_state, stored-Good, notes, profile, profile-IsSorted, limits,
}

abbrev tea : Str
tea = codes "- [stated] likes tea\n"

abbrev old : StoredObject
old = record { body = tea; metadata = rendered_map test_codec profile; version = codes "1" }

notes_valid : is_valid_path notes ≡ true
unfolding is_valid_path split is_valid_segment str_dec ends_with
notes_valid = refl

notes_found : memory_contract.view stored_state notes ≡ some old
unfolding memory memory_contract stored_state Dict.get Dict.put put_locked decimal digits str_dec
notes_found = refl

tea_encoded : encode tea ≡ some tea
unfolding encode
tea_encoded = refl

one_line : has_line_end profile.description ≡ false
unfolding has_line_end has
one_line = refl

profile-IsMetadata : IsMetadata profile
profile-IsMetadata = record { one_line = one_line; aware = refl; sorted = profile-IsSorted }

surface : str_eq (codes "chat") [] ≡ false
unfolding str_dec
surface = refl

notes-Editable :
    Editable memory memory_contract test_codec limits stored_state notes
      (codes "chat")
      none
      none
      old
      tea
      profile
unfolding is_one_line encode
notes-Editable = record {
  valid = notes_valid;
  surface = surface;
  one_line = refl;
  found = notes_found;
  decodes = decoded-encode tea tea tea_encoded;
  parses =
      metadata_from_map-rendered_map test_codec test_codec-IsCodec profile profile-IsMetadata
        ((_, refl), tt) ((_, refl), ((_, refl), tt)) refl;
}

abbrev cake : Fact
cake = record { label = stated; text = codes "likes cake" }

abbrev cake_line : Str
cake_line = codes "- [stated] likes cake"

cake_fact : is_fact_line (parse_fact cake_line) ≡ true
unfolding format_fact has is_blank is_fact_line
cake_fact = rw (parse_fact-format_fact cake (refl, refl)) refl

cake_appended :
    encoded (append_to tea cake_line) ≡ ok (codes "- [stated] likes tea\n- [stated] likes cake\n")
unfolding encoded encode append_to ends_with str_dec
cake_appended = refl

append_line_returns_example :
    IsOk
      (append_line memory test_codec limits notes cake_line
        (codes "1")
        (codes "chat")
        none
        none
        stored_state).0
append_line_returns_example =
    append_line_returns memory memory_contract test_codec limits stored_state notes (codes "chat")
      none none notes-Editable (codes "- [stated] likes tea\n- [stated] likes cake\n") cake_line
      stored-Good cake_fact cake_appended (omega arith)

tea_once : count_occurrences tea (codes "tea") ≡ 1
unfolding count_occurrences starts_with
tea_once = refl

tea_replaced :
    encoded (replace_first tea (codes "tea") (codes "coffee"))
    ≡ ok (codes "- [stated] likes coffee\n")
unfolding encoded encode replace_first starts_with
tea_replaced = refl

tea_given : str_eq (codes "tea") [] ≡ false
unfolding str_dec
tea_given = refl

replace_fact_returns_example :
    IsOk
      (replace_fact memory test_codec limits notes
        (codes "tea")
        (codes "coffee")
        (codes "9")
        (codes "chat")
        none
        none
        stored_state).0
replace_fact_returns_example =
    replace_fact_returns memory memory_contract test_codec limits stored_state notes (codes "chat")
      none none notes-Editable (codes "- [stated] likes coffee\n") (codes "tea") (codes "coffee")
      (codes "9") stored-Good tea_given tea_once tea_replaced (omega arith)

replace_first-Once_example :
    Once (codes "tea") (codes "coffee") tea (replace_first tea (codes "tea") (codes "coffee"))
replace_first-Once_example = replace_first-Once (codes "tea") (codes "coffee") tea tea_once

empty-CanWrite :
    CanWrite memory memory_contract test_codec limits empty_state notes (codes "chat") 9 none
unfolding parse_path is_valid_path split is_valid_segment str_dec ends_with but_last build_prefix
    memory memory_contract empty_state list_keys sort Dict.keys
empty-CanWrite = (codes "user/u1/", refl, omega arith, omega arith)

text_encoded : encoded (codes "text") ≡ ok (codes "text")
unfolding encoded encode
text_encoded = refl

absent : same_token (current_version (memory_contract.view empty_state notes)) none ≡ true
unfolding memory memory_contract empty_state Dict.get
absent = refl

write_file_returns_example :
    IsOk
      (write_file memory test_codec limits 9 notes
        (codes "text")
        profile
        none
        (codes "chat")
        empty_state).0
write_file_returns_example =
    write_file_returns memory memory_contract test_codec limits empty_state notes (codes "chat") 9
      empty-Good (codes "text") (codes "text") profile none notes_valid surface one_line
      text_encoded (omega arith) absent empty-CanWrite

first_write : Exec Error memory.State MemoryFile
first_write = write_file memory test_codec limits 9 notes (codes "text") profile none (codes "chat")

first_write-IsOk : IsOk (first_write empty_state).0
unfolding first_write
first_write-IsOk =
    write_file_returns memory memory_contract test_codec limits empty_state notes (codes "chat") 9
      empty-Good (codes "text") (codes "text") profile none notes_valid surface one_line
      text_encoded (omega arith) absent empty-CanWrite

first_write-Written :
    Written memory memory_contract test_codec limits empty_state 9 notes
      (codes "chat")
      (codes "text")
      profile
      none
      first_write-IsOk.0
      (first_write empty_state).1
unfolding first_write
first_write-Written =
    Holds-ok memory memory_contract empty_state
      (Written memory memory_contract test_codec limits empty_state 9 notes (codes "chat")
        (codes "text") profile none)
      (first_write empty_state) first_write-IsOk.0 (first_write empty_state).1
      (write_file_lem memory memory_contract test_codec limits empty_state notes (codes "chat") 9
        (codes "text") profile none empty-Good profile-IsSorted)
      (ap (λ r. (r, (first_write empty_state).1)) first_write-IsOk.1)

aliases_encode : All IsEncodable first_write-IsOk.0.metadata.aliases
unfolding encode
aliases_encode = rw (first_write-Written.aliases) ((_, refl), tt)

sources_encode : All IsEncodable first_write-IsOk.0.metadata.sources
unfolding encode insert str_dec before
sources_encode = rw (first_write-Written.sources) ((_, refl), ((_, refl), tt))

read_file-write_file_example :
    read_file memory test_codec limits notes (first_write empty_state).1
    ≡ (ok first_write-IsOk.0, (first_write empty_state).1)
unfolding first_write
read_file-write_file_example =
    read_file-write_file memory memory_contract test_codec limits empty_state notes (codes "chat") 9
      (codes "text") profile none first_write-IsOk.0 (first_write empty_state).1 test_codec-IsCodec
      empty-Good profile-IsSorted (ap (λ r. (r, (first_write empty_state).1)) first_write-IsOk.1)
      aliases_encode sources_encode

few : length (listed_under memory memory_contract stored_state (codes "user/u1/")) < 9
unfolding memory memory_contract stored_state list_keys sort Dict.keys Dict.get Dict.put put_locked
    decimal digits str_dec starts_with
few = omega arith

at_file_cap_lem_example :
    at_file_cap memory test_codec limits 9 (codes "user/u1/") 3 stored_state ≡ (
      ok (
          leb 3 (
            files_outside_system
              (listed_under memory memory_contract stored_state (codes "user/u1/")))),
      stored_state,
    )
at_file_cap_lem_example =
    at_file_cap_lem memory memory_contract test_codec limits stored_state stored-Good
      (codes "user/u1/") 9 3 few

delete_file_lem_example :
    Holds memory memory_contract stored_state
      (λ _ s. Deleted memory memory_contract test_codec limits stored_state notes (codes "1") s)
      (delete_file memory test_codec limits notes (codes "1") stored_state)
delete_file_lem_example =
    delete_file_lem memory memory_contract test_codec limits stored_state notes (codes "1")
      stored-Good
