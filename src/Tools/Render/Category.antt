-- ===== src/Tools/Render/Category.antt =====
-- The category that an agent is shown is the error's own (src/wenchang/tools.py).
use wenchang.Base.{false, Option, none, some, List, [], ◌∷◌, ◌≡◌, refl, ◌∙◌}
use wenchang.Json.{Json, string}
use wenchang.Text.{Str, codes, str_eq, str_dec}
use wenchang.Dict
use wenchang.Dict.{Dict}
use wenchang.Dict.Laws.{get-put}
use wenchang.Paths.{PathParts, parse_path}
use wenchang.Errors.{
  Error, ErrorCategory, version_conflict, oversize_write, file_quota_exceeded, replace_fact_match,
  invalid_argument, not_found, restricted_scope, backend_unavailable, resolver_failure,
  precondition_failed, metadata_format, unicode_decode, unicode_encode, value_error, overflow,
  purge_incomplete, out_of_fuel, category,
}
use wenchang.Tools.Render.{location, category_value}
use wenchang.Tools.Render.Failure.{
  class_name, roles_field, error_fields, error_path, parsed_location, error_location, put_all,
  head_fields, wenchang_error_fields, render_outside, render_of, render_error,
}

abbrev category_key : Str
category_key = codes "category"

-- The category of an error outside the taxonomy is shown as internal.
abbrev pub shown_category : Option ErrorCategory → Str
shown_category none = codes "internal"
shown_category (some kind) = category_value kind

-- No key is the category's.
abbrev Skips : Dict Json → Type 0
Skips [] = Unit
Skips ((key, value) ∷ d) = (str_eq category_key key ≡ false) × Skips d

get-put_all :
    (out d : Dict Json)
    → Skips d
    → Dict.get category_key (put_all out d) ≡ Dict.get category_key out
unfolding put_all
get-put_all out [] h = refl
get-put_all out ((key, value) ∷ d) h =
    get-put_all (Dict.put key value out) d h.1 ∙ get-put category_key key value out ∙ rw h.0 refl

get-head_fields :
    (name kind message : Str)
    → Dict.get category_key (head_fields name kind message) ≡ some (string kind)
unfolding head_fields Dict.get str_dec
get-head_fields name kind message = refl

parsed_location-Skips : (o : Option PathParts) → Skips (parsed_location o)
unfolding parsed_location location str_dec
parsed_location-Skips none = tt
parsed_location-Skips (some parts) = (refl, (refl, (refl, tt)))

error_location-Skips : (o : Option Str) → Skips (error_location o)
unfolding error_location
error_location-Skips none = tt
error_location-Skips (some path) = parsed_location-Skips (parse_path path)

roles_field-Skips : (o : Option (List Str)) → Skips (roles_field o)
unfolding roles_field str_dec
roles_field-Skips none = tt
roles_field-Skips (some roles) = (refl, tt)

error_fields-Skips : (e : Error) → Skips (error_fields e)
unfolding error_fields str_dec
error_fields-Skips (version_conflict _ _ _) = (refl, (refl, tt))
error_fields-Skips (oversize_write _ _ _) = (refl, (refl, tt))
error_fields-Skips (file_quota_exceeded _ _) = (refl, tt)
error_fields-Skips (replace_fact_match _ _ _ _) = (refl, (refl, (refl, tt)))
error_fields-Skips (invalid_argument _) = (refl, tt)
error_fields-Skips (not_found _ _) = (refl, tt)
error_fields-Skips (restricted_scope _ _ _ roles) = (refl, (refl, roles_field-Skips roles))
error_fields-Skips (backend_unavailable _) = (refl, tt)
error_fields-Skips resolver_failure = tt
error_fields-Skips (precondition_failed _) = tt
error_fields-Skips (metadata_format _) = tt
error_fields-Skips unicode_decode = tt
error_fields-Skips unicode_encode = tt
error_fields-Skips value_error = tt
error_fields-Skips overflow = tt
error_fields-Skips (purge_incomplete _ _ _) = tt
error_fields-Skips out_of_fuel = tt

module _ (message : Error → Str) where
  render_outside-category :
      (e : Error)
      → Dict.get category_key (render_outside message e) ≡ some (string (codes "internal"))
  unfolding render_outside
  render_outside-category (metadata_format key) = get-head_fields _ _ _
  render_outside-category unicode_decode = get-head_fields _ _ _
  render_outside-category (version_conflict _ _ _) = get-head_fields _ _ _
  render_outside-category (oversize_write _ _ _) = get-head_fields _ _ _
  render_outside-category (file_quota_exceeded _ _) = get-head_fields _ _ _
  render_outside-category (replace_fact_match _ _ _ _) = get-head_fields _ _ _
  render_outside-category (invalid_argument _) = get-head_fields _ _ _
  render_outside-category (not_found _ _) = get-head_fields _ _ _
  render_outside-category (restricted_scope _ _ _ _) = get-head_fields _ _ _
  render_outside-category (backend_unavailable _) = get-head_fields _ _ _
  render_outside-category resolver_failure = get-head_fields _ _ _
  render_outside-category (precondition_failed _) = get-head_fields _ _ _
  render_outside-category unicode_encode = get-head_fields _ _ _
  render_outside-category value_error = get-head_fields _ _ _
  render_outside-category overflow = get-head_fields _ _ _
  render_outside-category (purge_incomplete _ _ _) = get-head_fields _ _ _
  render_outside-category out_of_fuel = get-head_fields _ _ _

  render_of-category :
      (e : Error) (o : Option ErrorCategory)
      → Dict.get category_key (render_of message e o) ≡ some (string (shown_category o))
  unfolding render_of wenchang_error_fields
  render_of-category e none = render_outside-category e
  render_of-category e (some kind) =
      get-put_all
        (put_all (head_fields (class_name e) (category_value kind) (message e))
          (error_location (error_path e)))
        (error_fields e) (error_fields-Skips e)
      ∙ get-put_all (head_fields (class_name e) (category_value kind) (message e))
          (error_location (error_path e)) (error_location-Skips (error_path e))
      ∙ get-head_fields (class_name e) (category_value kind) (message e)

  -- For every error, with any messages: the category that `render_error` shows is the one that the
  -- error's class declares, whatever location and attributes are copied beside it, and `internal` for
  -- an error outside the taxonomy.
  pub render_error-category :
      (e : Error)
      → Dict.get (codes "category") (render_error message e)
        ≡ some (string (shown_category (category e)))
  unfolding render_error
  render_error-category e = render_of-category e (category e)
