-- ===== src/Access/Resolver.antt =====
-- `resolve_identity` (src/wenchang/identity.py): the resolver is the adopter's, and enters by what its
-- `resolve` came to.
use wenchang.Base.{if◌then◌else◌, []}
use wenchang.Base.Result.{Result, ok, err}
use wenchang.Text.{Str, str_eq}
use wenchang.Errors.{Error, resolver_failure, value_error}
use wenchang.Access.{Identity}

pub record ResolutionFailure : Type 0 where
  pub detail : Str

-- `ResolutionFailure(...)`, with the test of its `__post_init__`.
make_failure : Str → Result Error ResolutionFailure
make_failure detail = if str_eq detail [] then err value_error else ok (record { detail = detail })

-- What `resolver.resolve` returned, an object of another type included, or that it raised.
pub data Resolution : Type 0 where
  resolved : Identity → Resolution
  refused : ResolutionFailure → Resolution
  foreign raised : Resolution

resolve_identity : Resolution → Result Error Identity
resolve_identity (resolved identity) = ok identity
resolve_identity (refused failure) = err resolver_failure
resolve_identity foreign = err resolver_failure
resolve_identity raised = err resolver_failure

-- `SandboxResolver.resolve`
sandbox_resolve : Identity → Resolution
sandbox_resolve identity = resolved identity
