-- ===== src/Core/Interleaved/Delete.antt =====
-- `delete_file` (src/wenchang/core.py) while other clients act.
use wenchang.Base.{not, none, some}
use wenchang.Text.{Str, str_eq}
use wenchang.Errors.{VersionToken}
use wenchang.FileFormat.Metadata.{Codec}
use wenchang.Storage.{Backend}
use wenchang.Storage.Shared.{Shared}
use wenchang.Core.{Config}
use wenchang.Core.Steps.{conflict}
use wenchang.Core.Read.{delete_file, report_current}
use wenchang.Core.Interleaved.{
  After, Runs-raise, Runs-if, Runs-ensure, Runs-lift, Runs-demand, Runs-bind, Runs-get, Runs-weaken,
}
use wenchang.Core.Interleaved.Commit.{Swapped, Runs-on_precondition, Runs-delete}
use wenchang.Core.Interleaved.Edit.{Swapped-from}

module _ (B : Backend) (C : Shared B) (c : Codec) (k : Config) (path : Str) where
  -- While other clients act, a `delete_file` that returns has removed the file at one moment, at
  -- which it was at the expected version, and no other object changed at that moment.
  pub delete_file-Swapped :
      (expected : VersionToken) (s : B.State)
      → C.Good s
      → After B C s
          (λ _ u. Swapped B C s path (some expected) none u)
          (delete_file B c k path expected s)
  unfolding delete_file report_current conflict
  delete_file-Swapped expected s good =
      (Runs-ensure B C _ _ _ λ _. Runs-bind B C _ _ (Runs-get B C path s) λ o t l seen.
          Runs-demand B C _ _ _ λ object found.
            Runs-if B C (not (str_eq object.version expected)) _ _
              (λ _. Runs-lift B C _ _ λ text _. Runs-raise B C _)
              (λ _.
                Runs-on_precondition B C _ _
                  (Runs-weaken B C _ (λ a u w. Swapped-from B C s t u l w)
                    (Runs-delete B C k t path expected))
                  (Runs-bind B C _ _ (Runs-get B C path t) λ o' t' l' seen'.
                    Runs-demand B C _ _ _
                      λ object' _. Runs-lift B C _ _ λ text _. Runs-raise B C _))).at
        s good (C.Later-refl s)
