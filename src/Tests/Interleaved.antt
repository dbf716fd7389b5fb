-- ===== src/Tests/Interleaved.antt =====
-- The theorems on writes between other clients, over the in-memory storage with one file, while
-- another client stores a second file before the second call.
use wenchang.Base.{none, some, [], ◌∷◌, ◌≡◌, refl, ◌⊎◌}
use wenchang.Text.{codes, str_dec}
use wenchang.Dict
use wenchang.Storage.{StoredObject}
use wenchang.FileFormat.Metadata.{rendered_map}
use wenchang.Storage.Memory.{World, put_locked, put_if_version, decimal, digits}
use wenchang.Storage.Shared.Scheduled.{put, Timeline, shared_memory}
use wenchang.Storage.Shared.Scheduled.Reach.{Reach, here, next, puts, Reach-frozen}
use wenchang.Storage.Shared.Scheduled.Lawful.{scheduled_contract}
use wenchang.Core.Interleaved.{After}
use wenchang.Core.Interleaved.Commit.{Swapped}
use wenchang.Core.Interleaved.Edit.{Edited}
use wenchang.Core.Interleaved.Edit.Attempts.{
  Replaces, Appends, Landed, replace_fact-Edited, append_line-Edited,
}
use wenchang.Core.Interleaved.Write.{Replaced, write_file-Replaced}
use wenchang.Core.Interleaved.Delete.{delete_file-Swapped}
use wenchang.Core.Read.{delete_file}
use wenchang.Core.Write.{write_file}
use wenchang.Core.Edit.{append_line, replace_fact}
use wenchang.Tests.Codec.{test_codec}
use wenchang.Tests.Store.{notes, profile, stored, stored-Sound, limits}

abbrev busy : Timeline
busy = record {
  world = stored;
  schedule = [] ∷ (put (codes "user/u1/prefs/other.md") (codes "text") [] none ∷ []) ∷ [];
}

unfoldable busy_state : shared_memory.State
unfolding shared_memory
busy_state = busy

busy-Good : scheduled_contract.Good busy_state
unfolding shared_memory scheduled_contract busy_state
busy-Good = stored-Sound

abbrev first : StoredObject
first = record {
  body = codes "- [stated] likes tea\n";
  metadata = rendered_map test_codec profile;
  version = codes "1";
}

-- Another client has stored a second file.
abbrev later : World
later = (put_if_version (codes "user/u1/prefs/other.md") (codes "text") [] none stored).1

stored-later : Reach stored later
stored-later = next here (puts (codes "user/u1/prefs/other.md") (codes "text") [] none refl)

stored_first : Dict.get notes stored.objects ≡ some first
unfolding Dict.get Dict.put put_locked decimal digits str_dec
stored_first = refl

later_first : Dict.get notes later.objects ≡ some first
unfolding Dict.get Dict.put put_if_version put_locked decimal digits str_dec
later_first = refl

Reach-frozen_example : first ≡ first
Reach-frozen_example =
    Reach-frozen notes first first stored-Sound stored-later stored_first later_first refl

replace_fact-Edited_example :
    After shared_memory scheduled_contract busy_state
      (Edited shared_memory scheduled_contract test_codec limits notes
        (codes "chat")
        none
        none
        (Replaces shared_memory scheduled_contract test_codec limits notes
          (codes "chat")
          none
          none
          (codes "tea")
          (codes "coffee"))
        busy_state)
      (replace_fact shared_memory test_codec limits notes
        (codes "tea")
        (codes "coffee")
        (codes "1")
        (codes "chat")
        none
        none
        busy_state)
replace_fact-Edited_example =
    replace_fact-Edited shared_memory scheduled_contract test_codec limits notes (codes "chat") none
      none (codes "tea") (codes "coffee") (codes "1") busy_state busy-Good

append_line-Edited_example :
    After shared_memory scheduled_contract busy_state
      (λ f u.
        ((e : Edited shared_memory scheduled_contract test_codec limits notes
            (codes "chat")
            none
            none
            (Appends shared_memory scheduled_contract test_codec limits notes
              (codes "chat")
              none
              none
              (codes "- [stated] likes cake"))
            busy_state
            f
            u)
          × (e.old.version ≡ codes "1"))
        ⊎ Landed shared_memory scheduled_contract test_codec limits notes
            (codes "chat")
            none
            none
            (codes "- [stated] likes cake")
            (codes "1")
            busy_state
            f
            u)
      (append_line shared_memory test_codec limits notes
        (codes "- [stated] likes cake")
        (codes "1")
        (codes "chat")
        none
        none
        busy_state)
append_line-Edited_example =
    append_line-Edited shared_memory scheduled_contract test_codec limits notes (codes "chat") none
      none (codes "- [stated] likes cake") (codes "1") busy_state busy-Good

write_file-Replaced_example :
    After shared_memory scheduled_contract busy_state
      (Replaced shared_memory scheduled_contract test_codec limits notes
        (codes "text")
        profile
        (some (codes "1"))
        (codes "chat")
        busy_state)
      (write_file shared_memory test_codec limits 9 notes
        (codes "text")
        profile
        (some (codes "1"))
        (codes "chat")
        busy_state)
write_file-Replaced_example =
    write_file-Replaced shared_memory scheduled_contract test_codec limits 9 notes (codes "text")
      profile (some (codes "1")) (codes "chat") busy_state busy-Good

delete_file-Swapped_example :
    After shared_memory scheduled_contract busy_state
      (λ _ u. Swapped shared_memory scheduled_contract busy_state notes (some (codes "1")) none u)
      (delete_file shared_memory test_codec limits notes (codes "1") busy_state)
delete_file-Swapped_example =
    delete_file-Swapped shared_memory scheduled_contract test_codec limits notes (codes "1")
      busy_state busy-Good
