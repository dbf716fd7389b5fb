-- ===== src/Errors.antt =====
-- The errors that the program raises (src/wenchang/errors.py, the `PreconditionFailedError` of
-- src/wenchang/storage/__init__.py, the errors of src/wenchang/file_format.py and core.py).
-- Messages are not modelled; the attributes that they are built from are.
pub mod Shown
use wenchang.Base.{ℕ, Option, none, some, List}
use wenchang.Text.{Str}

abbrev pub VersionToken : Type 0
VersionToken = Str

pub data ErrorCategory : Type 0 where
  recoverable permanent transient : ErrorCategory

pub data NotFoundReason : Type 0 where
  invalid_path file_absent : NotFoundReason

pub data RestrictionReason : Type 0 where
  system_read_only role_required not_granted : RestrictionReason

pub data TransientReason : Type 0 where
  timeout unavailable : TransientReason

pub data Error : Type 0 where
  version_conflict : Str → Str → VersionToken → Error
  oversize_write : Str → ℕ → ℕ → Error
  file_quota_exceeded : Str → ℕ → Error
  replace_fact_match : Str → Str → VersionToken → ℕ → Error
  invalid_argument : Str → Error
  not_found : Str → NotFoundReason → Error
  restricted_scope : Str → Str → RestrictionReason → Option (List Str) → Error
  backend_unavailable : TransientReason → Error
  resolver_failure : Error
  -- Outside the taxonomy.
  precondition_failed : Str → Error
  metadata_format : Str → Error
  unicode_decode unicode_encode value_error : Error
  -- An instant that no `datetime` in UTC holds.
  overflow : Error
  purge_incomplete : Str → Str → ℕ → Error
  -- A loop of the model ran out of the rounds that it was given.
  out_of_fuel : Error

-- The category that an error's class declares; none for an error outside the taxonomy.
unfoldable pub category : Error → Option ErrorCategory
category (version_conflict _ _ _) = some recoverable
category (oversize_write _ _ _) = some recoverable
category (file_quota_exceeded _ _) = some recoverable
category (replace_fact_match _ _ _ _) = some recoverable
category (invalid_argument _) = some recoverable
category (not_found _ _) = some recoverable
category (restricted_scope _ _ _ _) = some permanent
category resolver_failure = some permanent
category (backend_unavailable _) = some transient
category _ = none
