-- ===== src/Core/RoundTrip.antt =====
-- What the mutations leave, and that `read_file` returns a file that `write_file` has returned
-- (src/wenchang/core.py).
use wenchang.Base.{All, ℕ, Option, ◌≡◌, List}
use wenchang.Base.Result.{ok}
use wenchang.Text.{Str}
use wenchang.Text.SortedSet.{IsSorted}
use wenchang.Errors.{VersionToken}
use wenchang.FileFormat.Metadata.{Codec, IsCodec, IsEncodable, FileMetadata}
use wenchang.Storage.{Backend}
use wenchang.Storage.Contract.{Contract}
use wenchang.Core.{Config, MemoryFile}
use wenchang.Core.Rules.{Holds}
use wenchang.Core.Outcome.{read_file-Wrote, Same-refl, Holds-map, Holds-ok}
use wenchang.Core.Read.{read_file}
use wenchang.Core.Write.{write_file}
use wenchang.Core.Write.Outcome.{Written, write_file-Written}
use wenchang.Core.Edit.{append_line, replace_fact}
use wenchang.Core.Edit.Outcome.{Appended, append_line-Appended, Replaced, replace_fact-Replaced}

module _ (B : Backend) (C : Contract B) (c : Codec) (k : Config) (s : B.State)
    (path source : Str) where
  -- Over a backend that keeps its contract and answers every call, from a state that it reaches, a
  -- `write_file` whose given sources are listed in order that returns has found no file, or the
  -- file at the expected version, and has stored the content given under a new version, with the
  -- sources united, and no other object has changed; one that raises has changed no object.
  pub write_file_lem :
      (rounds : ℕ) (content : Str) (metadata : FileMetadata) (expected : Option VersionToken)
      → C.Good s
      → IsSorted metadata.sources
      → Holds B C s
          (Written B C c k s rounds path source content metadata expected)
          (write_file B c k rounds path content metadata expected source s)
  write_file_lem rounds content metadata expected good sorted =
      (write_file-Written B C c k s rounds path source content metadata expected sorted).at s
        (Same-refl B C c k s good)

  -- `read_file` returns the file, if its aliases and sources have no surrogates.
  abbrev pub ReadsBack : MemoryFile → B.State → Type 0
  ReadsBack f t =
      All IsEncodable f.metadata.aliases
      → All IsEncodable f.metadata.sources
      → read_file B c k path t ≡ (ok f, t)

  pub write_file-ReadsBack :
      (rounds : ℕ) (content : Str) (metadata : FileMetadata) (expected : Option VersionToken)
      → IsCodec c
      → C.Good s
      → IsSorted metadata.sources
      → Holds B C s ReadsBack (write_file B c k rounds path content metadata expected source s)
  write_file-ReadsBack rounds content metadata expected law good sorted =
      Holds-map B C c k s (write_file B c k rounds path content metadata expected source s)
        (λ f t w. read_file-Wrote B C c k s law path f t w.wrote)
        (write_file_lem rounds content metadata expected good sorted)

  -- Over a backend that keeps its contract and answers every call, from a state that it reaches and
  -- with a codec that has the round trips of JSON and of ISO 8601, the file that a `write_file`
  -- whose given sources are listed in order has returned is the one that `read_file` then returns,
  -- if the aliases and the sources of the file have no surrogates.
  pub read_file-write_file :
      (rounds : ℕ) (content : Str) (metadata : FileMetadata) (expected : Option VersionToken)
      (f : MemoryFile) (t : B.State)
      → IsCodec c
      → C.Good s
      → IsSorted metadata.sources
      → write_file B c k rounds path content metadata expected source s ≡ (ok f, t)
      → All IsEncodable f.metadata.aliases
      → All IsEncodable f.metadata.sources
      → read_file B c k path t ≡ (ok f, t)
  read_file-write_file rounds content metadata expected f t law good sorted e =
      Holds-ok B C s ReadsBack (write_file B c k rounds path content metadata expected source s) f t
        (write_file-ReadsBack rounds content metadata expected law good sorted) e

  module _ (aliases : Option (List Str)) (description : Option Str) (expected : VersionToken) where
    -- Over a backend that keeps its contract and answers every call, from a state that it reaches,
    -- an `append_line` that returns has found the file at the expected version and has stored its
    -- text with the line behind it under a new version, with the metadata merged, and no other
    -- object has changed; one that raises has changed no object.
    pub append_line_lem :
        (line : Str)
        → C.Good s
        → Holds B C s
            (Appended B C c k s path source aliases description line expected)
            (append_line B c k path line expected source aliases description s)
    append_line_lem line good =
        (append_line-Appended B C c k s path source aliases description line expected).at s
          (Same-refl B C c k s good)

    -- Over a backend that keeps its contract and answers every call, from a state that it reaches,
    -- a `replace_fact` that returns has found exactly one occurrence of the old text and has stored
    -- the text with the first occurrence replaced, with the metadata merged, and no other object
    -- has changed; one that raises has changed no object.
    pub replace_fact_lem :
        (old new : Str)
        → C.Good s
        → Holds B C s
            (Replaced B C c k s path source aliases description old new)
            (replace_fact B c k path old new expected source aliases description s)
    replace_fact_lem old new good =
        (replace_fact-Replaced B C c k s path source aliases description old new expected).at s
          (Same-refl B C c k s good)
