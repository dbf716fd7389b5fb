-- ===== src/Core/Steps.antt =====
-- Steps that the file operations of src/wenchang/core.py share.
use wenchang.Base.{none, some}
use wenchang.Base.Result.{Result, ok, err}
use wenchang.Base.Exec.{Exec, raise, lift, ◌>>=◌}
use wenchang.Text.{Str}
use wenchang.Utf8.{Bytes, encode, decode}
use wenchang.Errors.{Error, version_conflict, unicode_decode, unicode_encode, precondition_failed}
use wenchang.FileFormat.Metadata.{Codec, FileMetadata, make_metadata, metadata_from_map}
use wenchang.Storage.{StoredObject}

unfoldable pub decoded : Bytes → Result Error Str
decoded body = elim (decode body) [ none ↦ err unicode_decode | some content ↦ ok content ]

unfoldable pub encoded : Str → Result Error Bytes
encoded content = elim (encode content) [ none ↦ err unicode_encode | some body ↦ ok body ]

-- The tests that `dataclasses.replace` runs again.
unfoldable pub stamp : FileMetadata → Result Error FileMetadata
stamp m = make_metadata m.description m.aliases m.sources m.last_updated

-- What a failed precondition is caught with; every other outcome passes.
abbrev pub caught {ℓ} : {A S : Type ℓ} → Exec Error S A → Result Error A → Exec Error S A
caught handler (ok a) s = (ok a, s)
caught handler (err (precondition_failed _)) s = handler s
caught handler (err e) s = (err e, s)

-- `try: m except PreconditionFailedError: handler`
unfoldable pub on_precondition {ℓ} :
    {A S : Type ℓ} → Exec Error S A → Exec Error S A → Exec Error S A
on_precondition m handler s = let (r, s') = m s in caught handler r s'

module _ {S A : Type 0} where
  -- `raise VersionConflictError(path, obj.data.decode("utf-8"), obj.version)`
  unfoldable pub conflict : Str → StoredObject → Exec Error S A
  unfolding decoded
  conflict path obj = do
    content ← lift (decoded obj.body)
    raise (version_conflict path content obj.version)

  -- The same, with the metadata parsed between the two.
  unfoldable pub conflict_checked : Codec → Str → StoredObject → Exec Error S A
  unfolding decoded
  conflict_checked c path obj = do
    content ← lift (decoded obj.body)
    metadata ← lift (metadata_from_map c obj.metadata)
    raise (version_conflict path content obj.version)
