-- ===== src/Tools/Session.antt =====
-- `MemoryTools` (src/wenchang/tools.py): each tool checks its arguments, a mutating one also the write
-- policy, and calls the client.
use wenchang.Base.{ℕ, Bool, true, false, not, Option, none, some, [], map}
use wenchang.Base.Result.{Result, ok, err}
use wenchang.Base.Exec.{Exec, lift, ensure, ◌>>=◌, ◌>>◌}
use wenchang.Text.{Str, codes, str_eq}
use wenchang.Dict.{Dict}
use wenchang.Errors.{Error, invalid_argument, value_error, unicode_encode}
use wenchang.FileFormat.Facts.{Fact, parse_fact}
use wenchang.FileFormat.Metadata.{make_metadata}
use wenchang.Access.{Identity, ScopePolicy}
use wenchang.Core.{MemoryFile}
use wenchang.Core.Listing.{ListPage}
use wenchang.Core.Index.{MemoryIndex}
use wenchang.Tools.{Client}
use wenchang.Tools.Arguments.{
  Arg, ListArg, exact, encodable, one_line_description, alias_tuple, optional, tool_path,
  writable_path, tool_prefix, unset_timestamp,
}

-- What `MemoryTools.__init__` keeps; the source is not empty.
pub record Session : Type 0 where
  pub identity : Identity
  pub policy : ScopePolicy
  pub source : Str

-- `_reraise_argument`, for the errors that are a `ValueError`: corrupt data passes unchanged.
unfoldable pub reraise_argument : Str → Error → Error
reraise_argument argument value_error = invalid_argument argument
reraise_argument argument unicode_encode = invalid_argument argument
reraise_argument argument e = e

-- `try: call except ValueError as exc: _reraise_argument(argument, exc)`
abbrev blame_result : {A S : Type 0} → Str → Result Error A × S → Result Error A × S
blame_result argument (ok a, s) = (ok a, s)
blame_result argument (err e, s) = (err (reraise_argument argument e), s)

unfoldable pub blame : {S A : Type 0} → Str → Exec Error S A → Exec Error S A
unfolding reraise_argument
blame argument call s = blame_result argument (call s)

unfoldable pub is_fact : Option Fact → Bool
is_fact none = false
is_fact (some _) = true

-- `{scope: grant.entity_id for scope, grant in grants.items()}`
unfoldable pub scope_map : Identity → Dict Str
scope_map identity = map (λ (scope, grant). (scope, grant.entity_id)) identity.grants

module _ (is_invisible : ℕ → Bool) (K : Client) (session : Session) where
  unfoldable pub get_memory_index : Exec Error K.State MemoryIndex
  unfolding scope_map
  get_memory_index = K.get_memory_index (scope_map session.identity)

  unfoldable pub read_file : Arg → Arg → Arg → Exec Error K.State MemoryFile
  read_file scope area name = do
    path ← lift (tool_path is_invisible session.identity scope area name)
    K.read_file path

  -- The call of the client, with the cursor that was given.
  unfoldable pub list_page_of : Str → Option Arg → Exec Error K.State ListPage
  list_page_of prefix none = K.list_prefix prefix none
  list_page_of prefix (some arg) = do
    cursor ← lift (exact (codes "cursor") arg)
    blame (codes "cursor") (K.list_prefix prefix (some cursor))

  unfoldable pub list_prefix : Arg → Option Arg → Option Arg → Exec Error K.State ListPage
  unfolding list_page_of
  list_prefix scope area cursor = do
    prefix ← lift (tool_prefix session.identity scope area)
    list_page_of prefix cursor

  unfoldable pub write_file :
      Arg → Arg → Arg → Arg → Arg → ListArg → Option Arg → Exec Error K.State MemoryFile
  write_file scope area name content_arg description_arg aliases_arg expected_arg = do
    path ← lift (writable_path is_invisible session.identity session.policy scope area name)
    content ← lift (exact (codes "content") content_arg)
    lift (encodable (codes "content") content)
    description ← lift (one_line_description description_arg)
    aliases ← lift (alias_tuple aliases_arg)
    expected_version ← lift (optional (exact (codes "expected_version")) expected_arg)
    metadata ← lift (make_metadata description aliases [] unset_timestamp)
    K.write_file path content metadata expected_version session.source

  unfoldable pub append_line :
      Arg → Arg → Arg → Arg → Arg → Option ListArg → Option Arg → Exec Error K.State MemoryFile
  unfolding is_fact
  append_line scope area name line_arg expected_arg aliases_arg description_arg = do
    path ← lift (writable_path is_invisible session.identity session.policy scope area name)
    line ← lift (exact (codes "line") line_arg)
    lift (encodable (codes "line") line)
    ensure (is_fact (parse_fact line)) (invalid_argument (codes "line"))
    expected_version ← lift (exact (codes "expected_version") expected_arg)
    aliases ← lift (optional alias_tuple aliases_arg)
    description ← lift (optional one_line_description description_arg)
    K.append_line path line expected_version session.source aliases description

  unfoldable pub replace_fact :
      Arg
      → Arg
      → Arg
      → Arg
      → Arg
      → Arg
      → Option ListArg
      → Option Arg
      → Exec Error K.State MemoryFile
  replace_fact scope area name old_arg new_arg expected_arg aliases_arg description_arg = do
    path ← lift (writable_path is_invisible session.identity session.policy scope area name)
    old_string ← lift (exact (codes "old_string") old_arg)
    new_string ← lift (exact (codes "new_string") new_arg)
    ensure (not (str_eq old_string [])) (invalid_argument (codes "old_string"))
    lift (encodable (codes "new_string") new_string)
    expected_version ← lift (exact (codes "expected_version") expected_arg)
    aliases ← lift (optional alias_tuple aliases_arg)
    description ← lift (optional one_line_description description_arg)
    K.replace_fact path old_string new_string expected_version session.source aliases description

  unfoldable pub delete_file : Arg → Arg → Arg → Arg → Exec Error K.State (Unit {0})
  delete_file scope area name expected_arg = do
    path ← lift (writable_path is_invisible session.identity session.policy scope area name)
    expected_version ← lift (exact (codes "expected_version") expected_arg)
    K.delete_file path expected_version
