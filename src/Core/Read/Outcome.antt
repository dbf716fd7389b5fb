-- ===== src/Core/Read/Outcome.antt =====
-- `delete_file` removes exactly the file, or changes nothing (src/wenchang/core.py).
use wenchang.Base.{true, false, not, none, some, ◌≡◌, refl, ◌∙◌, arith, Bool-cases, inl, inr}
use wenchang.Base.Result.{Result, ok, err}
use wenchang.Base.Exec.{Exec, finally, ◌>>=◌}
use wenchang.Text.{Str, str_eq, str_eq_iff}
use wenchang.Paths.{is_valid_path}
use wenchang.Errors.{Error, VersionToken, precondition_failed}
use wenchang.FileFormat.Metadata.{Codec}
use wenchang.Storage.{Backend, StoredObject, current_version, same_token}
use wenchang.Storage.Contract.{Contract}
use wenchang.Core.{Config}
use wenchang.Core.Invalidate.{delete_and_invalidate}
use wenchang.Core.Steps.{caught, on_precondition, conflict}
use wenchang.Core.Rules.{
  Same, Holds, Leaves, Leaves-raise, Leaves-if, Leaves-ensure, Leaves-lift, Leaves-demand,
  Leaves-get,
}
use wenchang.Core.Commit.{Untouched-path, Changed}
use wenchang.Core.Outcome.{Same-refl}
use wenchang.Core.Read.{delete_file, report_current}

module _ (B : Backend) (C : Contract B) (c : Codec) (k : Config) (s₀ : B.State) (path : Str)
    (expected : VersionToken) where
  -- The delete went through, or its precondition failed and nothing has changed.
  data Deletion (x : Result Error (Unit {0}) × B.State) : Type 0 where
    gone : x.0 ≡ ok tt → Changed B C k s₀ path none x.1 → Deletion x
    kept :
        same_token (current_version (C.view s₀ path)) (some expected) ≡ false
        → x.0 ≡ err (precondition_failed path)
        → Same B C s₀ x.1
        → Deletion x

  delete_lem : (s : B.State) → Same B C s₀ s → Deletion (delete_and_invalidate B k path expected s)
  unfolding delete_and_invalidate finally
  delete_lem s same =
      elim (Bool-cases (same_token (current_version (C.view s path)) (some expected))) [
        | inl e ↦
            let (r, views) = C.delete_matched path expected s same.good e in
            let u = Untouched-path B C k path true (B.delete_if_version path expected s).1 in
            gone r (record {
              good = u.good (C.delete-Good path expected s same.good);
              views = λ j. u.views j ∙ (views j ∙ ground (arith, same.views j));
            })
        | inr e ↦
            let r = C.delete_failed path expected s e in
            let u = Untouched-path B C k path true s in
            rw r (
              kept (rw (same.views path) at e) refl
                (record { good = u.good same.good; views = λ j. u.views j ∙ same.views j }))
      ]

  module _ (matched : same_token (current_version (C.view s₀ path)) (some expected) ≡ true) where
    deleted :
        (handler : Exec Error B.State (Unit {0})) (x : Result Error (Unit {0}) × B.State)
        → Deletion x
        → ((caught handler x.0 x.1).0 ≡ ok tt)
          × Changed B C k s₀ path none (caught handler x.0 x.1).1
    deleted handler (ok u, s) (gone e changed) = (refl, changed)
    deleted handler (err u, s) (gone e changed) = cc e
    deleted handler x (kept n e same) = cc (matched, n)

  -- The file was at the expected version, and it alone is gone.
  pub record Deleted (s : B.State) : Type 0 where
    pub old : StoredObject
    pub found : C.view s₀ path ≡ some old
    pub version : old.version ≡ expected
    pub changed : Changed B C k s₀ path none s

  Holds-ok :
      (x : Result Error (Unit {0}) × B.State)
      → x.0 ≡ ok tt
      → Deleted x.1
      → Holds B C s₀ (λ _ s. Deleted s) x
  Holds-ok (ok u, s) e d = d
  Holds-ok (err u, s) e d = cc e

  delete_file-Deleted : Leaves B C s₀ (delete_file B c k path expected) (λ _ s. Deleted s)
  unfolding delete_file on_precondition conflict
  delete_file-Deleted = Leaves-ensure B C s₀ _ _ _ λ valid. Leaves-get B C s₀ _ _ (
      Leaves-demand B C s₀ _ _ _ λ old found.
        Leaves-if B C s₀ (not (str_eq old.version expected)) _ _
          (λ _. Leaves-lift B C s₀ _ _ λ content _. Leaves-raise B C s₀ _)
          (λ current. record {
            at = λ s same.
                let same_version : str_eq old.version expected ≡ true = ground arith in
                let (e, changed) =
                  deleted (rw found same_version) (report_current B c k path)
                    (delete_and_invalidate B k path expected s) (delete_lem s same) in
                Holds-ok _ e (record {
                  old = old;
                  found = found;
                  version = (str_eq_iff _ _).0 same_version;
                  changed = changed;
                });
          }))

  -- Over a backend that keeps its contract and answers every call, from a state that it reaches, a
  -- `delete_file` that returns has found the file at the expected version and has removed it, and
  -- no other object has changed; one that raises has changed no object.
  pub delete_file_lem :
      C.Good s₀ → Holds B C s₀ (λ _ s. Deleted s) (delete_file B c k path expected s₀)
  delete_file_lem good = delete_file-Deleted.at s₀ (Same-refl B C c k s₀ good)

  -- Over a backend that keeps its contract and answers every call, from a state that it reaches, a
  -- `delete_file` of a file at a well-formed path and at the expected version returns and removes
  -- it and no other, whatever its body and its metadata hold.
  delete_file_returns :
      (old : StoredObject)
      → C.Good s₀
      → is_valid_path path ≡ true
      → C.view s₀ path ≡ some old
      → old.version ≡ expected
      → ((delete_file B c k path expected s₀).0 ≡ ok tt)
        × Changed B C k s₀ path none (delete_file B c k path expected s₀).1
  unfolding delete_file on_precondition ◌>>=◌
  delete_file_returns old good valid found version =
      let current : str_eq old.version expected ≡ true = (str_eq_iff _ _).1 version in
      rw (valid, C.get-view path s₀, found, current)
        (deleted (rw found current) (report_current B c k path)
          (delete_and_invalidate B k path expected s₀) (delete_lem s₀ (Same-refl B C c k s₀ good)))
