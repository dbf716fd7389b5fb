-- ===== src/Core/Merge.antt =====
-- `_merge_metadata` (src/wenchang/core.py).
use wenchang.Base.{Option, none, some, List, [], ◌∷◌, ◌++◌, if◌then◌else◌}
use wenchang.Text.{Str}
use wenchang.Text.SortedSet.{member, insert}
use wenchang.FileFormat.Metadata.{Datetime, FileMetadata}

-- The loop over `aliases`: an alias already there is skipped.
unfoldable pub merge_aliases : List Str → List Str → List Str
unfolding member
merge_aliases merged [] = merged
merge_aliases merged (alias ∷ aliases) =
    merge_aliases (if member alias merged then merged else merged ++ alias ∷ []) aliases

-- `aliases or ()`
given : Option (List Str) → List Str
given none = []
given (some aliases) = aliases

replaced : Option Str → Str → Str
replaced none old = old
replaced (some new) old = new

-- The clock's time is checked by `FileMetadata.__post_init__`, in `stamp` below.
unfoldable pub merge_metadata :
    FileMetadata → Str → Option (List Str) → Option Str → Datetime → FileMetadata
unfolding merge_aliases given replaced
merge_metadata stored source aliases description now = record {
  description = replaced description stored.description;
  aliases = merge_aliases stored.aliases (given aliases);
  sources = insert source stored.sources;
  last_updated = now;
}
