-- ===== src/Core/Interleaved/Commit.antt =====
-- The conditional put and delete with their cache invalidation, while other clients act.
use wenchang.Base.{Bool, true, false, Option, none, some, ◌≡◌}
use wenchang.Base.Result.{Result, ok, err}
use wenchang.Base.Exec.{Exec, finally}
use wenchang.Text.{Str}
use wenchang.Utf8.{Bytes}
use wenchang.Dict.{Dict}
use wenchang.Paths.{PathParts, parse_path}
use wenchang.Errors.{
  Error, VersionToken, version_conflict, oversize_write, file_quota_exceeded, replace_fact_match,
  invalid_argument, not_found, restricted_scope, backend_unavailable, resolver_failure,
  precondition_failed, metadata_format, unicode_decode, unicode_encode, value_error, overflow,
  purge_incomplete, out_of_fuel,
}
use wenchang.Storage.{Backend, StoredObject, current_version, same_token}
use wenchang.Storage.Contract.{update}
use wenchang.Storage.Shared.{Shared, Acts}
use wenchang.Core.{Config}
use wenchang.Core.Invalidate.{
  cache_set, invalidate_parts, invalidate_cached, invalidate_path, put_and_invalidate,
  delete_and_invalidate,
}
use wenchang.Core.Steps.{caught, on_precondition}
use wenchang.Core.Interleaved.{After, Runs, later_After}

module _ (B : Backend) (C : Shared B) where
  abbrev IsLater : B.State → B.State → Type 0
  IsLater s u = C.Good s → C.Later s u

  then-Later : (s t u : B.State) → IsLater s t → IsLater t u → IsLater s u
  then-Later s t u p q g = C.Later-trans s t u (p g) (q (C.Later-Good s t g (p g)))

  cache_set-Later : (key value : Str) (s : B.State) → IsLater s (cache_set B key value s)
  unfolding cache_set
  cache_set-Later key value s g = C.cache_set-Moves key value s g

  uuid-Later : (s : B.State) → IsLater s (B.uuid s).1
  uuid-Later s g = C.uuid-Moves s g

  module _ (k : Config) where
    parts-Later :
        (key_prefix : Str) (parts : Option PathParts) (bury : Bool) (s : B.State)
        → IsLater s (invalidate_parts B k key_prefix parts bury s)
    unfolding invalidate_parts
    parts-Later key_prefix none bury s g = C.Later-refl s
    parts-Later key_prefix (some parts) false s g =
        then-Later _ _ _ (uuid-Later s) (cache_set-Later _ _ _) g
    parts-Later key_prefix (some parts) true s g =
        then-Later _ _ _ (then-Later _ _ _ (uuid-Later s) (cache_set-Later _ _ _))
          (cache_set-Later _ _ _) g

    cached-Later :
        (cache : Option Str) (path : Str) (bury : Bool) (s : B.State)
        → IsLater s (invalidate_cached B k cache path bury s)
    unfolding invalidate_cached
    cached-Later none path bury s g = C.Later-refl s
    cached-Later (some p) path bury s g = parts-Later p (parse_path path) bury s g

    path-Later :
        (path : Str) (bury : Bool) (s : B.State) → IsLater s (invalidate_path B k path bury s)
    unfolding invalidate_path
    path-Later path bury s = cached-Later k.index_cache path bury s

  -- At one moment between two states, the expected version stood at the path and the object took
  -- its place; no other object changed at that moment.
  pub record Swapped (s : B.State) (path : Str) (expected : Option VersionToken)
      (o : Option StoredObject) (u : B.State) : Type 0 where
    pub before : B.State
    pub behind : B.State
    pub from : C.Later s before
    pub at_once : C.Later before behind
    pub to : C.Later behind u
    pub good : C.Good before
    pub matched : same_token (current_version (C.view before path)) expected ≡ true
    pub views : (j : Str) → C.view behind j ≡ update (C.view before) path o j

  module _ {A : Type 0} (path : Str) (expected : Option VersionToken)
      (o : A → Option StoredObject) where
    abbrev Takes : B.State → B.State → A → Type 0
    Takes t t' a =
        (same_token (current_version (C.view t path)) expected ≡ true)
        × ((j : Str) → C.view t' j ≡ update (C.view t) path (o a) j)

    -- A write and the cleanup behind it.
    finished :
        (s t : B.State) (cleanup : B.State → B.State) (x : Result Error A × B.State)
        → ((u : B.State) → IsLater u (cleanup u))
        → C.Good t
        → C.Later s t
        → Acts C.Later Takes t x
        → After B C t (λ a u. Swapped s path expected (o a) u) (x.0, cleanup x.1)
    finished s t cleanup (err e, u) c g l m =
        C.Later-trans t u (cleanup u) m (c u (C.Later-Good t u g m))
    finished s t cleanup (ok a, u) c g l (b, b', from, at_once, to, (matched, views)) =
        let whole = C.Later-trans t b' u (C.Later-trans t b b' from at_once) to in
        let end = c u (C.Later-Good t u g whole) in
        (
          C.Later-trans t u (cleanup u) whole end,
          record {
            before = b;
            behind = b';
            from = C.Later-trans s t b l from;
            at_once = at_once;
            to = C.Later-trans b' u (cleanup u) to end;
            good = C.Later-Good t b g from;
            matched = matched;
            views = views;
          },
        )

  module _ {A : Type 0} (Q : A → B.State → Type 0) where
    handled :
        (t u : B.State) (e : Error) (handler : Exec Error B.State A)
        → C.Later t u
        → After B C u Q (handler u)
        → After B C t Q (caught handler (err e) u)
    handled t u (precondition_failed _) handler l q = later_After B C Q t u (handler u) l q
    handled t u (version_conflict _ _ _) handler l q = l
    handled t u (oversize_write _ _ _) handler l q = l
    handled t u (file_quota_exceeded _ _) handler l q = l
    handled t u (replace_fact_match _ _ _ _) handler l q = l
    handled t u (invalid_argument _) handler l q = l
    handled t u (not_found _ _) handler l q = l
    handled t u (restricted_scope _ _ _ _) handler l q = l
    handled t u (backend_unavailable _) handler l q = l
    handled t u resolver_failure handler l q = l
    handled t u (metadata_format _) handler l q = l
    handled t u unicode_decode handler l q = l
    handled t u unicode_encode handler l q = l
    handled t u value_error handler l q = l
    handled t u overflow handler l q = l
    handled t u (purge_incomplete _ _ _) handler l q = l
    handled t u out_of_fuel handler l q = l

  module _ {A : Type 0} {s : B.State} {Q : A → B.State → Type 0} where
    caught-After :
        (t : B.State) (handler : Exec Error B.State A) (x : Result Error A × B.State)
        → C.Good t
        → C.Later s t
        → Runs B C s handler Q
        → After B C t Q x
        → After B C t Q (caught handler x.0 x.1)
    caught-After t handler (ok a, u) g l h q = q
    caught-After t handler (err e, u) g l h m =
        handled Q t u e handler m (h.at u (C.Later-Good t u g m) (C.Later-trans s t u l m))

    -- A call whose failed precondition is handled.
    pub Runs-on_precondition :
        (m handler : Exec Error B.State A)
        → Runs B C s m Q
        → Runs B C s handler Q
        → Runs B C s (on_precondition m handler) Q
    unfolding on_precondition
    Runs-on_precondition m handler r h = record {
      at = λ t g l. caught-After t handler (m t) g l h (r.at t g l);
    }

  module _ (k : Config) (s : B.State) (path : Str) where
    pub Runs-put :
        (body : Bytes) (metadata : Dict Str) (expected : Option VersionToken)
        → Runs B C s (put_and_invalidate B k path body metadata expected) (λ v u.
          Swapped s path expected
            (some (record { body = body; metadata = metadata; version = v }))
            u)
    unfolding put_and_invalidate finally
    Runs-put body metadata expected = record {
      at = λ t g l.
          finished path expected
            (λ v. some (record { body = body; metadata = metadata; version = v })) s t
            (invalidate_path B k path false) (B.put_if_version path body metadata expected t)
            (λ u. path-Later k path false u) g l (C.put-Acts path body metadata expected t g);
    }

    pub Runs-delete :
        (expected : VersionToken)
        → Runs B C s
            (delete_and_invalidate B k path expected)
            (λ v u. Swapped s path (some expected) none u)
    unfolding delete_and_invalidate finally
    Runs-delete expected = record {
      at = λ t g l.
          finished path (some expected) (λ v. none) s t (invalidate_path B k path true)
            (B.delete_if_version path expected t) (λ u. path-Later k path true u) g l
            (C.delete-Acts path expected t g);
    }
