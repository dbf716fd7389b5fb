-- ===== src/Tools/Render/Failure.antt =====
-- `render_error`, `_wenchang_error_fields`, `_add_location` (src/wenchang/tools.py).
use wenchang.Base.{Option, none, some, List, [], ◌∷◌}
use wenchang.Json.{Json, string, number}
use wenchang.Text.{Str, codes}
use wenchang.Dict
use wenchang.Dict.{Dict}
use wenchang.Paths.{PathParts, parse_path}
use wenchang.Errors.{
  Error, ErrorCategory, version_conflict, oversize_write, file_quota_exceeded, replace_fact_match,
  invalid_argument, not_found, restricted_scope, backend_unavailable, resolver_failure,
  precondition_failed, metadata_format, unicode_decode, unicode_encode, value_error, overflow,
  purge_incomplete, out_of_fuel, category,
}
use wenchang.Core.Cached.{text_array}
use wenchang.Tools.Render.{
  location, category_value, not_found_value, restriction_value, transient_value,
}

-- The name of an error's class.
unfoldable pub class_name : Error → Str
class_name (version_conflict _ _ _) = codes "VersionConflictError"
class_name (oversize_write _ _ _) = codes "OversizeWriteError"
class_name (file_quota_exceeded _ _) = codes "FileQuotaExceededError"
class_name (replace_fact_match _ _ _ _) = codes "ReplaceFactMatchError"
class_name (invalid_argument _) = codes "InvalidArgumentError"
class_name (not_found _ _) = codes "NotFoundError"
class_name (restricted_scope _ _ _ _) = codes "RestrictedScopeError"
class_name (backend_unavailable _) = codes "BackendUnavailableError"
class_name resolver_failure = codes "ResolverFailureError"
class_name (precondition_failed _) = codes "PreconditionFailedError"
class_name (metadata_format _) = codes "MetadataFormatError"
class_name unicode_decode = codes "UnicodeDecodeError"
class_name unicode_encode = codes "UnicodeEncodeError"
class_name value_error = codes "ValueError"
class_name overflow = codes "OverflowError"
class_name (purge_incomplete _ _ _) = codes "PurgeIncompleteError"
class_name out_of_fuel = []

unfoldable pub roles_field : Option (List Str) → Dict Json
roles_field none = []
roles_field (some roles) = (codes "required_roles", text_array roles) ∷ []

-- The attributes of `_ERROR_FIELDS` that an error of the taxonomy has, in their order.
unfoldable pub error_fields : Error → Dict Json
unfolding roles_field not_found_value restriction_value transient_value
error_fields (version_conflict _ content version) =
    (codes "content", string content) ∷ (codes "version", string version) ∷ []
error_fields (oversize_write _ size limit) =
    (codes "size", number size) ∷ (codes "limit", number limit) ∷ []
error_fields (file_quota_exceeded _ limit) = (codes "limit", number limit) ∷ []
error_fields (replace_fact_match _ content version match_count) =
    (codes "content", string content)
    ∷ (codes "version", string version)
    ∷ (codes "match_count", number match_count)
    ∷ []
error_fields (invalid_argument argument) = (codes "argument", string argument) ∷ []
error_fields (not_found _ reason) = (codes "reason", string (not_found_value reason)) ∷ []
error_fields (restricted_scope _ scope reason required_roles) =
    (codes "reason", string (restriction_value reason))
    ∷ (codes "scope", string scope)
    ∷ roles_field required_roles
error_fields (backend_unavailable reason) = (codes "reason", string (transient_value reason)) ∷ []
error_fields _ = []

unfoldable pub error_path : Error → Option Str
error_path (version_conflict path _ _) = some path
error_path (oversize_write path _ _) = some path
error_path (file_quota_exceeded path _) = some path
error_path (replace_fact_match path _ _ _) = some path
error_path (not_found path _) = some path
error_path (restricted_scope path _ _ _) = some path
error_path _ = none

unfoldable pub parsed_location : Option PathParts → Dict Json
unfolding location
parsed_location none = []
parsed_location (some parts) = location parts

-- `_add_location`
unfoldable pub error_location : Option Str → Dict Json
unfolding parsed_location
error_location none = []
error_location (some path) = parsed_location (parse_path path)

-- `out[key] = value` for each
unfoldable pub put_all : Dict Json → Dict Json → Dict Json
put_all out [] = out
put_all out ((key, value) ∷ d) = put_all (Dict.put key value out) d

unfoldable pub head_fields : Str → Str → Str → Dict Json
head_fields name kind message =
    (codes "error", string name)
    ∷ (codes "category", string kind)
    ∷ (codes "message", string message)
    ∷ []

module _ (message : Error → Str) where
  -- `_wenchang_error_fields`
  unfoldable pub wenchang_error_fields : Error → ErrorCategory → Dict Json
  unfolding put_all error_location error_fields error_path head_fields class_name
  wenchang_error_fields e kind =
      put_all
        (put_all (head_fields (class_name e) (category_value kind) (message e))
          (error_location (error_path e)))
        (error_fields e)

  unfoldable pub render_outside : Error → Dict Json
  unfolding head_fields class_name
  render_outside (metadata_format key) =
      head_fields (class_name (metadata_format key)) (codes "internal")
        (message (metadata_format key))
  render_outside unicode_decode =
      head_fields (class_name unicode_decode) (codes "internal") (message unicode_decode)
  render_outside e = head_fields (class_name e) (codes "internal") (codes "internal error")

  unfoldable pub render_of : Error → Option ErrorCategory → Dict Json
  unfolding wenchang_error_fields render_outside
  render_of e none = render_outside e
  render_of e (some kind) = wenchang_error_fields e kind

  unfoldable pub render_error : Error → Dict Json
  unfolding render_of
  render_error e = render_of e (category e)
