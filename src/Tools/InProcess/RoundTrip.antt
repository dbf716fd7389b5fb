-- ===== src/Tools/InProcess/RoundTrip.antt =====
-- The tools, the store and the storage together: what the tool `write_file` stored is what the tool
-- `read_file` reads (src/wenchang/tools.py, transport.py and core.py).
use wenchang.Base.{All, ℕ, Bool, Option, ◌≡◌, refl, ◌∙◌, inl, inr}
use wenchang.Base.Result.{Result, ok, err}
use wenchang.Base.Exec.{Exec, ◌>>=◌}
use wenchang.Text.{Str}
use wenchang.Errors.{Error}
use wenchang.FileFormat.Metadata.{Codec, IsCodec, IsEncodable}
use wenchang.Core.Outcome.{Holds-ok}
use wenchang.Storage.{Backend}
use wenchang.Storage.Contract.{Contract}
use wenchang.Access.{Identity}
use wenchang.Core.{Config, MemoryFile}
use wenchang.Core.Rules.{Holds}
use wenchang.Core.Read
use wenchang.Core.RoundTrip.{ReadsBack, write_file-ReadsBack}
use wenchang.Core.Cached.{ListingCodec}
use wenchang.Tools.{Client}
use wenchang.Tools.Arguments.{Arg, ListArg, tool_path, writable_path}
use wenchang.Tools.Session.{Session, read_file, write_file}
use wenchang.Tools.Refusals.{plain_metadata}
use wenchang.Tools.Own.{Names, tool_path-Names}
use wenchang.Tools.Safety.{write_file-Guarded}
use wenchang.Tools.InProcess.{in_process}

-- The arguments name one path.
Names-unique :
    (identity : Identity) (scope area name : Arg) (p q : Str)
    → Names identity scope area name p
    → Names identity scope area name q
    → p ≡ q
Names-unique identity scope area name p q m n = cc (
  m.is_scope, m.is_area, m.is_name, m.granted, m.built_path, n.is_scope, n.is_area, n.is_name,
  n.granted, n.built_path,
)

module _ (B : Backend) (C : Contract B) (c : Codec) (l : ListingCodec) (k : Config) (rounds : ℕ)
    (is_invisible : ℕ → Bool) (session : Session) (scope area name : Arg) where
  abbrev client : Client
  client = in_process B c l k rounds

  unfoldable pub tool_write : Arg → Arg → ListArg → Option Arg → Exec Error B.State MemoryFile
  unfolding in_process
  tool_write = write_file is_invisible client session scope area name

  unfoldable pub tool_read : Exec Error B.State MemoryFile
  unfolding in_process
  tool_read = read_file is_invisible client session scope area name

  -- What the store does once the path is known.
  tool_read-path :
      (path : Str) (t : B.State)
      → tool_path is_invisible session.identity scope area name ≡ ok path
      → tool_read t ≡ Read.read_file B c k path t
  unfolding tool_read in_process read_file ◌>>=◌
  tool_read-path path t h = rw h refl

  refused_path :
      (e : Error) (content description : Arg) (aliases : ListArg) (expected : Option Arg)
      (s : B.State)
      → tool_path is_invisible session.identity scope area name ≡ err e
      → tool_write content description aliases expected s ≡ (err e, s)
  unfolding tool_write in_process write_file writable_path ◌>>=◌
  refused_path e content description aliases expected s h = rw h refl

  abbrev ToolReadsBack : MemoryFile → B.State → Type 0
  ToolReadsBack f t =
      All IsEncodable f.metadata.aliases
      → All IsEncodable f.metadata.sources
      → tool_read t ≡ (ok f, t)

  read_through :
      (path : Str) (s : B.State) (x : Result Error MemoryFile × B.State)
      → tool_path is_invisible session.identity scope area name ≡ ok path
      → Holds B C s (ReadsBack B C c k s path session.source) x
      → Holds B C s ToolReadsBack x
  read_through path s (ok f, t) h e = λ aliases sources. tool_read-path path t h ∙ e aliases sources
  read_through path s (err e, t) h same = same

  module _ (s : B.State) (good : C.Good s) (law : IsCodec c) (content description : Arg)
      (aliases : ListArg) (expected : Option Arg) where
    written :
        (path : Str)
        → tool_path is_invisible session.identity scope area name ≡ ok path
        → Holds B C s ToolReadsBack (tool_write content description aliases expected s)
    unfolding tool_write in_process
    written path h =
        elim ((write_file-Guarded is_invisible client session scope area name content description
            aliases expected).at
          s) [
            | inl (e, shown, refuses) ↦ rw refuses (record { good = good; views = λ j. refl })
            | inr (call, allowed, calls) ↦
                let (x, d, a, v, _, _, is_call) = allowed.is_call in
                let same : allowed.path ≡ path =
                  Names-unique session.identity scope area name allowed.path path allowed.named
                    (tool_path-Names is_invisible session.identity scope area name path h) in
                rw (calls, is_call, same)
                  (read_through path s _ h (
                    write_file-ReadsBack B C c k s path session.source rounds x (plain_metadata d a)
                      v law good tt))
          ]

    stored_back :
        (r : Result Error Str)
        → tool_path is_invisible session.identity scope area name ≡ r
        → Holds B C s ToolReadsBack (tool_write content description aliases expected s)
    stored_back (ok path) h = written path h
    stored_back (err e) h =
        rw (refused_path e content description aliases expected s h)
          (record { good = good; views = λ j. refl })

    -- Over a backend that keeps its contract and answers every call, from a state that it reaches
    -- and with a codec that has the round trips of JSON and of ISO 8601: a file that the tool
    -- `write_file` returned over the in-process client is what the tool `read_file` of the same
    -- session returns for the same scope, area and name, if the aliases and the sources of the file
    -- have no surrogates.
    read_file_after_write :
        (f : MemoryFile) (t : B.State)
        → tool_write content description aliases expected s ≡ (ok f, t)
        → All IsEncodable f.metadata.aliases
        → All IsEncodable f.metadata.sources
        → tool_read t ≡ (ok f, t)
    read_file_after_write f t e =
        Holds-ok B C s ToolReadsBack (tool_write content description aliases expected s) f t
          (stored_back (tool_path is_invisible session.identity scope area name) refl) e
