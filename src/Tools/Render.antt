-- ===== src/Tools/Render.antt =====
-- What an agent is shown: `render_result`, `render_error` (src/wenchang/tools.py). Values have the
-- types that they declare, so nothing is dropped for being wrongly typed. Messages are a parameter.
pub mod Failure
pub mod Category
use wenchang.Base.{
  ◌&&◌, ℕ, Bool, true, false, Option, none, some, List, [], ◌∷◌, ◌++◌, map, ◌==◌, if◌then◌else◌,
}
use wenchang.Json.{Json, string, array, object, null, boolean, number, items, members}
use wenchang.Text.{Str, codes}
use wenchang.Text.Split.{split}
use wenchang.Dict
use wenchang.Dict.{Dict}
use wenchang.Paths.{slash, PathParts, parse_path}
use wenchang.Errors.{
  Error, ErrorCategory, recoverable, permanent, transient, NotFoundReason, invalid_path,
  file_absent, RestrictionReason, system_read_only, role_required, not_granted, TransientReason,
  timeout, unavailable, version_conflict, oversize_write, file_quota_exceeded, replace_fact_match,
  invalid_argument, not_found, restricted_scope, backend_unavailable, resolver_failure,
  precondition_failed, metadata_format, unicode_decode, unicode_encode, value_error,
  purge_incomplete, out_of_fuel, category,
}
use wenchang.FileFormat.Metadata.{Codec, Datetime, FileMetadata, is_renderable}
use wenchang.Core.{MemoryFile, FileEntry}
use wenchang.Core.Cached.{text_array}
use wenchang.Core.Listing.{ListPage}
use wenchang.Core.Index.{MemoryIndex, CappedPrefix}

-- `_json_value` of the enumerations
unfoldable pub category_value : ErrorCategory → Str
category_value recoverable = codes "recoverable"
category_value permanent = codes "permanent"
category_value transient = codes "transient"

unfoldable pub not_found_value : NotFoundReason → Str
not_found_value invalid_path = codes "invalid_path"
not_found_value file_absent = codes "file_absent"

unfoldable pub restriction_value : RestrictionReason → Str
restriction_value system_read_only = codes "system_read_only"
restriction_value role_required = codes "role_required"
restriction_value not_granted = codes "not_granted"

unfoldable pub transient_value : TransientReason → Str
transient_value timeout = codes "timeout"
transient_value unavailable = codes "unavailable"

-- The location of a parsed path.
unfoldable pub location : PathParts → Dict Json
location parts =
    (codes "scope", string parts.scope)
    ∷ (codes "area", string parts.area)
    ∷ (codes "name", string parts.name)
    ∷ []

unfoldable pub file_location : Option PathParts → Dict Json
unfolding location
file_location (some parts) = location parts
file_location none = (codes "scope", null) ∷ (codes "area", null) ∷ (codes "name", null) ∷ []

unfoldable pub content_field : Option Str → Dict Json
content_field none = []
content_field (some content) = (codes "content", string content) ∷ []

module _ (c : Codec) where
  -- `_timestamp_or_drop`; an `OverflowError` drops the field.
  unfoldable pub timestamp_field : Datetime → Dict Json
  timestamp_field t =
      if t.aware && is_renderable t.micros
      then (codes "last_updated", string (c.isoformat t.micros)) ∷ []
      else []

  -- `_file_fields`
  unfoldable pub file_fields : Str → FileMetadata → Str → Option Str → Dict Json
  unfolding file_location content_field timestamp_field text_array
  file_fields path metadata version content =
      file_location (parse_path path)
      ++ (content_field content
          ++ ((codes "version", string version)
              ∷ (codes "description", string metadata.description)
              ∷ (codes "aliases", text_array metadata.aliases)
              ∷ (codes "sources", text_array metadata.sources)
              ∷ timestamp_field metadata.last_updated))

  unfoldable pub entry_fields_of : FileEntry → Json
  unfolding file_fields
  entry_fields_of e = object (members (file_fields e.path e.metadata e.version none))

-- `rstrip("/")`
unfoldable pub rstrip_slashes : Str → Str
rstrip_slashes [] = []
rstrip_slashes (c ∷ s) = elim (rstrip_slashes s) [
  | [] ↦ if c == slash then [] else c ∷ []
  | x ∷ xs ↦ c ∷ x ∷ xs
]

-- The scope and the area of a row's segments.
unfoldable pub row_fields : List Str → ℕ → Dict Json
row_fields (scope ∷ entity_id ∷ area ∷ rest) omitted =
    (codes "scope", string scope)
    ∷ (codes "area", string area)
    ∷ (codes "omitted", number omitted)
    ∷ []
row_fields (scope ∷ rest) omitted =
    (codes "scope", string scope) ∷ (codes "area", null) ∷ (codes "omitted", number omitted) ∷ []
row_fields [] omitted = []

-- `_capped_fields`
unfoldable pub capped_fields : CappedPrefix → Json
unfolding rstrip_slashes row_fields
capped_fields cap =
    object (members (row_fields (split slash (rstrip_slashes cap.prefix)) cap.omitted))

-- What a tool returned.
pub data Returned : Type 0 where
  nothing : Returned
  file : MemoryFile → Returned
  page : ListPage → Returned
  index : MemoryIndex → Returned

unfoldable pub cursor_value : Option Str → Json
cursor_value none = null
cursor_value (some cursor) = string cursor

unfoldable pub render_result : Codec → Returned → Dict Json
unfolding entry_fields_of cursor_value capped_fields
render_result c nothing = (codes "ok", boolean true) ∷ []
render_result c (file f) = file_fields c f.path f.metadata f.version (some f.content)
render_result c (page p) =
    (codes "entries", array (items (map (entry_fields_of c) p.entries)))
    ∷ (codes "next_cursor", cursor_value p.next_cursor)
    ∷ []
render_result c (index i) =
    (codes "entries", array (items (map (entry_fields_of c) i.entries)))
    ∷ (codes "capped", array (items (map capped_fields i.capped)))
    ∷ []
