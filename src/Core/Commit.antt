-- ===== src/Core/Commit.antt =====
-- The conditional put and delete with their cache invalidation, over a backend that meets its
-- contract: they change the one object, or nothing.
use wenchang.Base.{
  Bool, true, false, Option, none, some, ◌≡◌, ◌≢◌, refl, ◌∙◌, inl, inr, arith, Bool-cases,
}
use wenchang.Base.Result.{Result, ok, err}
use wenchang.Base.Exec.{Exec, pure, resume, finally, ◌>>=◌}
use wenchang.Text.{Str}
use wenchang.Utf8.{Bytes}
use wenchang.Dict.{Dict}
use wenchang.Paths.{PathParts, parse_path}
use wenchang.Errors.{Error, VersionToken, precondition_failed}
use wenchang.Storage.{Backend, StoredObject, current_version, same_token}
use wenchang.Storage.Contract.{Contract, update}
use wenchang.Core.{Config}
use wenchang.Core.Steps.{on_precondition, caught}
use wenchang.Core.Invalidate.{
  cache_set, invalidate_parts, invalidate_cached, invalidate_path, put_and_invalidate,
}
use wenchang.Core.Rules.{Same, Holds, Leaves}

module _ (B : Backend) (C : Contract B) (k : Config) where
  -- Invalidation only touches the cache.
  pub record Untouched (s t : B.State) : Type 0 where
    pub good : C.Good s → C.Good t
    pub views : (j : Str) → C.view t j ≡ C.view s j

  Untouched-cache_set : (key value : Str) (s : B.State) → Untouched s (cache_set B key value s)
  unfolding cache_set
  Untouched-cache_set key value s = record {
    good = C.cache_set-Good key value s;
    views = C.view-cache_set key value s;
  }

  Untouched-uuid : (s : B.State) → Untouched s (B.uuid s).1
  Untouched-uuid s = record { good = C.uuid-Good s; views = C.view-uuid s }

  Untouched-trans : {s t u : B.State} → Untouched s t → Untouched t u → Untouched s u
  Untouched-trans p q = record { good = λ g. q.good (p.good g); views = λ j. q.views j ∙ p.views j }

  Untouched-parts :
      (key_prefix : Str) (parts : Option PathParts) (bury : Bool) (s : B.State)
      → Untouched s (invalidate_parts B k key_prefix parts bury s)
  unfolding invalidate_parts
  Untouched-parts key_prefix none bury s = record { good = λ g. g; views = λ j. refl }
  Untouched-parts key_prefix (some parts) false s =
      Untouched-trans (Untouched-uuid s) (Untouched-cache_set _ _ _)
  Untouched-parts key_prefix (some parts) true s =
      Untouched-trans (Untouched-trans (Untouched-uuid s) (Untouched-cache_set _ _ _))
        (Untouched-cache_set _ _ _)

  Untouched-cached :
      (cache : Option Str) (path : Str) (bury : Bool) (s : B.State)
      → Untouched s (invalidate_cached B k cache path bury s)
  unfolding invalidate_cached
  Untouched-cached none path bury s = record { good = λ g. g; views = λ j. refl }
  Untouched-cached (some p) path bury s = Untouched-parts p (parse_path path) bury s

  pub Untouched-path :
      (path : Str) (bury : Bool) (s : B.State) → Untouched s (invalidate_path B k path bury s)
  unfolding invalidate_path
  Untouched-path path bury s = Untouched-cached k.index_cache path bury s

  module _ (s₀ : B.State) (path : Str) where
    -- The objects of `s₀`, but for the one at the path.
    pub record Changed (o : Option StoredObject) (s : B.State) : Type 0 where
      pub good : C.Good s
      pub views : (j : Str) → C.view s j ≡ update (C.view s₀) path o j

    module _ (body : Bytes) (metadata : Dict Str) (expected : Option VersionToken) where
      -- The put went through: the version matched, and the new version is another.
      pub record Stored (v : VersionToken) (s : B.State) : Type 0 where
        pub matched : same_token (current_version (C.view s₀ path)) expected ≡ true
        pub fresh : current_version (C.view s₀ path) ≢ some v
        pub changed : Changed (some (record { body = body; metadata = metadata; version = v })) s

      abbrev pub put : Exec Error B.State VersionToken
      put = put_and_invalidate B k path body metadata expected

      -- The put went through, or its precondition failed and nothing has changed.
      pub data PutOutcome (x : Result Error VersionToken × B.State) : Type 0 where
        went : (v : VersionToken) → x.0 ≡ ok v → Stored v x.1 → PutOutcome x
        failed :
            same_token (current_version (C.view s₀ path)) expected ≡ false
            → x.0 ≡ err (precondition_failed path)
            → Same B C s₀ x.1
            → PutOutcome x

      pub put_lem : (s : B.State) → Same B C s₀ s → PutOutcome (put s)
      unfolding put_and_invalidate finally
      put_lem s same = elim (Bool-cases (same_token (current_version (C.view s path)) expected)) [
        | inl e ↦
            let (v, r, fresh, views) = C.put_matched path body metadata expected s same.good e in
            let u = Untouched-path path false (B.put_if_version path body metadata expected s).1 in
            went v r (record {
              matched = rw (same.views path) at e;
              fresh = rw (same.views path) at fresh;
              changed = record {
                good = u.good (C.put-Good path body metadata expected s same.good);
                views = λ j. u.views j ∙ (views j ∙ ground (arith, same.views j));
              };
            })
        | inr e ↦
            let r = C.put_failed path body metadata expected s e in
            let u = Untouched-path path false s in
            rw r (
              failed (rw (same.views path) at e) refl
                (record { good = u.good same.good; views = λ j. u.views j ∙ same.views j }))
      ]

      module _ {A : Type 0} (Q : A → B.State → Type 0) where
        never :
            (x : Result Error VersionToken × B.State) (f : VersionToken → Exec Error B.State A)
            → Holds B C s₀ (λ _ _. ⊥) x
            → Holds B C s₀ Q (resume f x)
        never (ok v, s) f h = absurd h
        never (err e, s) f h = h

        caught_put :
            (handler : Exec Error B.State VersionToken) (f : VersionToken → Exec Error B.State A)
            (x : Result Error VersionToken × B.State)
            → PutOutcome x
            → ((v : VersionToken) (s : B.State) → Stored v s → Holds B C s₀ Q (f v s))
            → Leaves B C s₀ handler (λ _ _. ⊥)
            → Holds B C s₀ Q (resume f (caught handler x.0 x.1))
        caught_put handler f (ok u, s) (went v e st) q h =
            let u≡v : u ≡ v = ground arith in rw u≡v (q v s st)
        caught_put handler f (err u, s) (went v e st) q h = cc e
        caught_put handler f (ok u, s) (failed m e same) q h = cc e
        caught_put handler f (err u, s) (failed m e same) q h =
            let u≡ : u ≡ precondition_failed path = ground arith in
            rw u≡ (never (handler s) f (h.at s same))

        -- A put whose failed precondition is reported as an error.
        pub Leaves-put :
            (handler : Exec Error B.State VersionToken) (f : VersionToken → Exec Error B.State A)
            → Leaves B C s₀ handler (λ _ _. ⊥)
            → ((v : VersionToken) (s : B.State) → Stored v s → Holds B C s₀ Q (f v s))
            → Leaves B C s₀ (on_precondition put handler >>= f) Q
        unfolding on_precondition ◌>>=◌
        Leaves-put handler f h q = record {
          at = λ s same. caught_put handler f (put s) (put_lem s same) q h;
        }

        caught_put_matched :
            (a : VersionToken → A) (handler : Exec Error B.State A)
            (x : Result Error VersionToken × B.State)
            → PutOutcome x
            → same_token (current_version (C.view s₀ path)) expected ≡ true
            → ((v : VersionToken) (s : B.State) → Stored v s → Q (a v) s)
            → (let (r, s) = resume (λ v. pure (a v)) x in Holds B C s₀ Q (caught handler r s))
        unfolding pure
        caught_put_matched a handler (ok u, s) (went v e st) m q =
            let u≡v : u ≡ v = ground arith in rw u≡v (q v s st)
        caught_put_matched a handler (err u, s) (went v e st) m q = cc e
        caught_put_matched a handler x (failed n e same) m q = cc (m, n)

        -- A put at the version that was just read goes through.
        pub Leaves-put_matched :
            (a : VersionToken → A) (handler : Exec Error B.State A)
            → same_token (current_version (C.view s₀ path)) expected ≡ true
            → ((v : VersionToken) (s : B.State) → Stored v s → Q (a v) s)
            → Leaves B C s₀ (on_precondition (put >>= λ v. pure (a v)) handler) Q
        unfolding on_precondition ◌>>=◌
        Leaves-put_matched a handler m q = record {
          at = λ s same. caught_put_matched a handler (put s) (put_lem s same) m q;
        }
