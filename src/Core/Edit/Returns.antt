-- ===== src/Core/Edit/Returns.antt =====
-- When `append_line` and `replace_fact` return (src/wenchang/core.py).
use wenchang.Base.{
  ◌≤◌, true, false, not, Option, none, some, List, [], ◌≡◌, refl, le→leb, length, ==_iff,
}
use wenchang.Base.Result.{ok}
use wenchang.Text.{Str, str_eq, str_eq_iff}
use wenchang.Utf8.{Bytes}
use wenchang.Paths.{is_valid_path}
use wenchang.Errors.{VersionToken}
use wenchang.FileFormat.Facts.{parse_fact}
use wenchang.FileFormat.Metadata.{
  Codec, Datetime, FileMetadata, IsMetadata, has_line_end, make_metadata, metadata_from_map,
  is_renderable, metadata_to_map, rendered_map,
}
use wenchang.FileFormat.Metadata.RoundTrip.{
  metadata_from_map-IsMetadata, metadata_to_map-renderable,
}
use wenchang.Storage.{Backend, StoredObject}
use wenchang.Storage.Contract.{Contract}
use wenchang.Core.{Config}
use wenchang.Core.Content.{count_occurrences, replace_first, append_to}
use wenchang.Core.Merge.{merge_metadata}
use wenchang.Core.Steps.{decoded, encoded, stamp}
use wenchang.Core.Outcome.{Same-refl}
use wenchang.Core.Progress.{
  IsOk, Returns, Returns-ensure, Returns-lift, Returns-demand, Returns-get, Returns-now,
  Returns-put_matched,
}
use wenchang.Core.Edit.{append_line, replace_fact, replace_attempts, is_fact_line, is_one_line}

-- Merged metadata passes the tests.
stamp-merge :
    (c : Codec) (stored : FileMetadata) (source : Str) (aliases : Option (List Str))
    (description : Option Str) (now : Datetime)
    → IsMetadata stored
    → is_one_line description ≡ true
    → now.aware ≡ true
    → stamp (merge_metadata stored source aliases description now)
      ≡ ok (merge_metadata stored source aliases description now)
unfolding stamp make_metadata merge_metadata is_one_line
stamp-merge c stored source aliases none now v h a = rw (v.one_line, a)
stamp-merge c stored source aliases (some d) now v h a =
    let one_line : not (has_line_end d) ≡ true = h in rw (one_line, a)

-- Merged metadata has the clock's time, which can be rendered.
merge-renderable :
    (c : Codec) (stored : FileMetadata) (source : Str) (aliases : Option (List Str))
    (description : Option Str) (now : Datetime)
    → is_renderable now.micros ≡ true
    → metadata_to_map c (merge_metadata stored source aliases description now)
      ≡ ok (rendered_map c (merge_metadata stored source aliases description now))
unfolding merge_metadata
merge-renderable c stored source aliases description now h = metadata_to_map-renderable c _ h

module _ (B : Backend) (C : Contract B) (c : Codec) (k : Config) (s : B.State) (path source : Str)
    (aliases : Option (List Str)) (description : Option Str) where
  -- The file is there, it can be read, and the arguments pass the tests.
  pub record Editable (old : StoredObject) (text : Str) (stored : FileMetadata) : Type 0 where
    pub valid : is_valid_path path ≡ true
    pub surface : str_eq source [] ≡ false
    pub one_line : is_one_line description ≡ true
    pub found : C.view s path ≡ some old
    pub decodes : decoded old.body ≡ ok text
    pub parses : metadata_from_map c old.metadata ≡ ok stored

  module _ {old : StoredObject} {text : Str} {stored : FileMetadata} (e : Editable old text stored)
      (body : Bytes) where
    append_line-Returns :
        (line : Str)
        → is_fact_line (parse_fact line) ≡ true
        → encoded (append_to text line) ≡ ok body
        → length body ≤ k.max_file_bytes
        → Returns B C s (append_line B c k path line old.version source aliases description)
    unfolding append_line
    append_line-Returns line fact encodes fits = Returns-ensure B C s _ _ _ e.valid (
        Returns-ensure B C s _ _ _ (rw (fact, e.surface) refl) (
          Returns-ensure B C s _ _ _ e.one_line (
            Returns-get B C s _ _ e.found (
              Returns-demand B C s _ _ refl (
                Returns-lift B C s _ e.decodes (
                  Returns-ensure B C s _ _ _ ((str_eq_iff _ _).1 refl) (
                    Returns-lift B C s _ e.parses (
                      Returns-lift B C s _ encodes (
                        Returns-ensure B C s _ _ _ (le→leb _ _ fits) (
                          Returns-now B C s _ λ now aware renders.
                            Returns-lift B C s _
                              (stamp-merge c stored source aliases description now
                                (metadata_from_map-IsMetadata c old.metadata stored e.parses)
                                e.one_line aware)
                              (Returns-lift B C s _
                                (merge-renderable c stored source aliases description now renders)
                                (Returns-put_matched B C s k path body _ _ _ _
                                  (rw e.found ((str_eq_iff _ _).1 refl))))))))))))))

    replace_fact-Returns :
        (old_text new_text : Str) (expected : VersionToken)
        → str_eq old_text [] ≡ false
        → count_occurrences text old_text ≡ 1
        → encoded (replace_first text old_text new_text) ≡ ok body
        → length body ≤ k.max_file_bytes
        → Returns B C s
            (replace_fact B c k path old_text new_text expected source aliases description)
    unfolding replace_fact replace_attempts
    replace_fact-Returns old_text new_text expected given once encodes fits =
        Returns-ensure B C s _ _ _ e.valid (
          Returns-ensure B C s _ _ _ (rw (given, e.surface) refl) (
            Returns-ensure B C s _ _ _ e.one_line (
              Returns-get B C s _ _ e.found (
                Returns-demand B C s _ _ refl (
                  Returns-lift B C s _ e.decodes (
                    Returns-lift B C s _ e.parses (
                      Returns-ensure B C s _ _ _ ((==_iff _ _).1 once) (
                        Returns-lift B C s _ encodes (
                          Returns-ensure B C s _ _ _ (le→leb _ _ fits) (
                            Returns-now B C s _ λ now aware renders.
                              Returns-lift B C s _
                                (stamp-merge c stored source aliases description now
                                  (metadata_from_map-IsMetadata c old.metadata stored e.parses)
                                  e.one_line aware)
                                (Returns-lift B C s _
                                  (merge-renderable c stored source aliases description now renders)
                                  (Returns-put_matched B C s k path body _ _ _ _
                                    (rw e.found ((str_eq_iff _ _).1 refl))))))))))))))

    -- Over a backend that keeps its contract and answers every call, from a state that it reaches,
    -- an `append_line` at the current version of a file that can be read returns, if the path, the
    -- fact line, the source and the description pass the tests and the new text can be encoded and
    -- fits the limit.
    pub append_line_returns :
        (line : Str)
        → C.Good s
        → is_fact_line (parse_fact line) ≡ true
        → encoded (append_to text line) ≡ ok body
        → length body ≤ k.max_file_bytes
        → IsOk (append_line B c k path line old.version source aliases description s).0
    append_line_returns line good fact encodes fits =
        (append_line-Returns line fact encodes fits).at s (Same-refl B C c k s good)

    -- Over a backend that keeps its contract and answers every call, from a state that it reaches,
    -- a `replace_fact` of a non-empty text that occurs exactly once in a file that can be read
    -- returns, whatever version was expected, if the path, the source and the description pass the
    -- tests and the new text can be encoded and fits the limit.
    pub replace_fact_returns :
        (old_text new_text : Str) (expected : VersionToken)
        → C.Good s
        → str_eq old_text [] ≡ false
        → count_occurrences text old_text ≡ 1
        → encoded (replace_first text old_text new_text) ≡ ok body
        → length body ≤ k.max_file_bytes
        → IsOk (replace_fact B c k path old_text new_text expected source aliases description s).0
    replace_fact_returns old_text new_text expected good given once encodes fits =
        (replace_fact-Returns old_text new_text expected given once encodes fits).at s
          (Same-refl B C c k s good)
