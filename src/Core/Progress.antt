-- ===== src/Core/Progress.antt =====
-- Rules for the operations that return: one for each way to build an operation over a backend that
-- meets its contract, so that a call whose tests pass gives a value and no error.
use wenchang.Base.{Bool, true, false, Option, some, ◌≡◌, refl, ◌∙◌, arith}
use wenchang.Base.Result.{Result, ok, err}
use wenchang.Base.Exec.{Exec, pure, lift, ensure, demand, resume, ◌>>=◌, ◌>>◌}
use wenchang.Text.{Str}
use wenchang.Utf8.{Bytes}
use wenchang.Dict.{Dict}
use wenchang.Errors.{Error, VersionToken}
use wenchang.FileFormat.Metadata.{Datetime, is_renderable}
use wenchang.Storage.{Backend, StoredObject, current_version, same_token}
use wenchang.Storage.Contract.{Contract}
use wenchang.Core.{Config}
use wenchang.Core.Steps.{caught, on_precondition}
use wenchang.Core.Rules.{Same}
use wenchang.Core.Commit.{PutOutcome, went, failed, put, put_lem}

-- The call has given a value.
abbrev pub IsOk : {A : Type 0} → Result Error A → Type 0
IsOk {A} r = (a : A) × (r ≡ ok a)

module _ (B : Backend) (C : Contract B) (s₀ : B.State) where
  -- From the objects of `s₀`.
  pub record Returns {A : Type 0} (m : Exec Error B.State A) : Type 0 where
    pub at : (s : B.State) → Same B C s₀ s → IsOk (m s).0

  module _ {A : Type 0} where
    Returns-pure : (a : A) → Returns (pure a)
    unfolding pure
    Returns-pure a = record { at = λ s same. (a, refl) }

    pub Returns-ensure :
        (b : Bool) (e : Error) (m : Exec Error B.State A)
        → b ≡ true
        → Returns m
        → Returns (ensure b e >> m)
    unfolding ◌>>=◌
    Returns-ensure true e m h r = record { at = λ s same. r.at s same }
    Returns-ensure false e m h r = cc h

  module _ {A R : Type 0} where
    pub Returns-lift :
        {r : Result Error R} {a : R} (f : R → Exec Error B.State A)
        → r ≡ ok a
        → Returns (f a)
        → Returns (lift r >>= f)
    unfolding ◌>>=◌
    Returns-lift f h q = rw h (record { at = λ s same. q.at s same })

    pub Returns-demand :
        {o : Option R} {a : R} (e : Error) (f : R → Exec Error B.State A)
        → o ≡ some a
        → Returns (f a)
        → Returns (demand o e >>= f)
    unfolding ◌>>=◌
    Returns-demand e f h q = rw h (record { at = λ s same. q.at s same })

  module _ {A : Type 0} where
    pub Returns-get :
        {o : Option StoredObject} (key : Str) (f : Option StoredObject → Exec Error B.State A)
        → C.view s₀ key ≡ o
        → Returns (f o)
        → Returns (B.get key >>= f)
    unfolding ◌>>=◌
    Returns-get key f found q = record {
      at = λ s same. rw (C.get-view key s) (rw (same.views key, found) (q.at s same));
    }

    nowed :
        (x : Result Error Datetime × B.State) (t : Datetime) (f : Datetime → Exec Error B.State A)
        → x.0 ≡ ok t
        → Same B C s₀ x.1
        → Returns (f t)
        → IsOk (resume f x).0
    nowed (ok u, s) t f e same q = let u≡t : u ≡ t = ground arith in rw u≡t (q.at s same)
    nowed (err u, s) t f e same q = cc e

    pub Returns-now :
        (f : Datetime → Exec Error B.State A)
        → ((t : Datetime) → t.aware ≡ true → is_renderable t.micros ≡ true → Returns (f t))
        → Returns (B.now >>= f)
    unfolding ◌>>=◌
    Returns-now f q = record {
      at = λ s same.
          let (t, e, aware, renders) = C.now_aware s in
          nowed (B.now s) t f e
            (record { good = C.now-Good s same.good; views = λ j. C.view-now s j ∙ same.views j })
            (q t aware renders);
    }

  module _ (k : Config) (path : Str) (body : Bytes) (metadata : Dict Str)
      (expected : Option VersionToken) {A : Type 0} (a : VersionToken → A) where
    returned :
        (handler : Exec Error B.State A) (x : Result Error VersionToken × B.State)
        → PutOutcome B C k s₀ path body metadata expected x
        → same_token (current_version (C.view s₀ path)) expected ≡ true
        → (let (r, s) = resume (λ v. pure (a v)) x in IsOk (caught handler r s).0)
    unfolding pure
    returned handler (ok u, s) (went v e st) m = (a u, refl)
    returned handler (err u, s) (went v e st) m = cc e
    returned handler x (failed n e same) m = cc (m, n)

    -- A put at the current version goes through.
    pub Returns-put_matched :
        (handler : Exec Error B.State A)
        → same_token (current_version (C.view s₀ path)) expected ≡ true
        → Returns
            (on_precondition (put B C k s₀ path body metadata expected >>= λ v. pure (a v)) handler)
    unfolding on_precondition ◌>>=◌
    Returns-put_matched handler m = record {
      at = λ s same.
          returned handler (put B C k s₀ path body metadata expected s)
            (put_lem B C k s₀ path body metadata expected s same) m;
    }

    returned_put :
        (handler : Exec Error B.State VersionToken) (x : Result Error VersionToken × B.State)
        → PutOutcome B C k s₀ path body metadata expected x
        → same_token (current_version (C.view s₀ path)) expected ≡ true
        → IsOk (resume (λ v. pure (a v)) (caught handler x.0 x.1)).0
    unfolding pure
    returned_put handler (ok u, s) (went v e st) m = (a u, refl)
    returned_put handler (err u, s) (went v e st) m = cc e
    returned_put handler x (failed n e same) m = cc (m, n)

    pub Returns-put :
        (handler : Exec Error B.State VersionToken)
        → same_token (current_version (C.view s₀ path)) expected ≡ true
        → Returns
            (on_precondition (put B C k s₀ path body metadata expected) handler >>= λ v. pure (a v))
    unfolding on_precondition ◌>>=◌
    Returns-put handler m = record {
      at = λ s same.
          returned_put handler (put B C k s₀ path body metadata expected s)
            (put_lem B C k s₀ path body metadata expected s same) m;
    }
