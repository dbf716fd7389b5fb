-- ===== src/Tools/Safety.antt =====
-- A mutating tool refuses with an error that an agent can be shown, or makes one call that the write
-- policy lets it make (src/wenchang/tools.py).
use wenchang.Base.{ℕ, Bool, true, not, Option, List, [], ◌≡◌, ◌≢◌, refl, arith}
use wenchang.Base.Exec.{Exec, lift, ◌>>=◌}
use wenchang.Text.{Str, codes, str_eq, str_eq_iff}
use wenchang.Errors.{Error, VersionToken}
use wenchang.Access.{Identity}
use wenchang.Access.Decision.{MayWrite}
use wenchang.Core.{MemoryFile}
use wenchang.Tools.{Client}
use wenchang.Tools.Arguments.{
  Arg, text, ListArg, exact, one_line_description, alias_tuple, optional, writable_path,
}
use wenchang.Tools.Session.{Session, read_file, write_file, append_line, replace_fact, delete_file}
use wenchang.Tools.Guard.{
  Guarded, Guarded-call, Guarded-lift, Guarded-lift_ok, Guarded-ensure, Guarded-ensure_if,
}
use wenchang.Tools.Refusals.{
  tool_path-Blames, exact-Blames, exact-eq-ok, encodable-Blames, one_line_description-Blames,
  alias_tuple-Blames, optional-Blames, invalid_argument-IsShown, plain_metadata, described,
}
use wenchang.Tools.Own.{
  Names, tool_path-Names, Authorized, writable_path-Blames, writable_path-MayWrite,
}

not_empty : (s : Str) → not (str_eq s []) ≡ true → s ≢ []
not_empty s h e = let same = (str_eq_iff s []).1 e in ground arith

module _ (is_invisible : ℕ → Bool) (K : Client) (session : Session) (scope area name : Arg) where
  -- One call of the client, authorized for this session and these arguments.
  abbrev pub Call :
      {A : Type 0} → (Str → Exec Error K.State A → Type 0) → Exec Error K.State A → Type 0
  Call IsCall call = Authorized session.identity session.policy scope area name IsCall call

  -- The rest of a mutating tool may rely on the path being authorized.
  at_path :
      {A : Type 0} (IsCall : Str → Exec Error K.State A → Type 0) (f : Str → Exec Error K.State A)
      → ((path : Str)
          → Names session.identity scope area name path
          → MayWrite path session.identity session.policy
          → Guarded (Call IsCall) (f path))
      → Guarded
          (Call IsCall)
          (lift (writable_path is_invisible session.identity session.policy scope area name) >>= f)
  at_path IsCall f h =
      Guarded-lift (Call IsCall) _ f
        (writable_path-Blames is_invisible session.identity session.policy scope area name)
        λ path e.
          let (named, may) =
            writable_path-MayWrite is_invisible session.identity session.policy scope area name path
              e in
          h path named may

  -- The check of a version token leaves the text that was given.
  with_text :
      {A : Type 0} (Allowed : Exec Error K.State A → Type 0) (argument : Str) (value : Arg)
      (f : Str → Exec Error K.State A)
      → ((s : Str) → value ≡ text s → Guarded Allowed (f s))
      → Guarded Allowed (lift (exact argument value) >>= f)
  with_text Allowed argument value f h =
      Guarded-lift Allowed _ f (exact-Blames argument value)
        λ s e. h s (exact-eq-ok argument value e)

  -- From any state of the client, the tool `delete_file` either raises an error of the taxonomy and
  -- leaves the state, or does exactly one call of the client's `delete_file`, with the version given,
  -- at the path that the arguments, all texts, name in the session's own entity, outside `system/`,
  -- where the policy lets the caller's role write.
  pub delete_file-Guarded :
      (expected : Arg)
      → Guarded
          (Call
            λ path call. (v : VersionToken) × (expected ≡ text v) × (call ≡ K.delete_file path v))
          (delete_file is_invisible K session scope area name expected)
  unfolding delete_file
  delete_file-Guarded expected = at_path _ _ λ path named may.
      with_text _ (codes "expected_version") expected _ λ v e.
        Guarded-call _ _
          (record { path = path; named = named; may_write = may; is_call = (v, e, refl) })

  -- The optional aliases and description of an edit leave the rest of the tool guarded.
  with_extras :
      {A : Type 0} (Allowed : Exec Error K.State A → Type 0) (aliases : Option ListArg)
      (description : Option Arg) (f : Option (List Str) → Option Str → Exec Error K.State A)
      → ((a : Option (List Str)) (d : Option Str) → Guarded Allowed (f a d))
      → Guarded Allowed (
          lift (optional alias_tuple aliases) >>= λ a.
          lift (optional one_line_description description) >>= λ d. f a d)
  with_extras Allowed aliases description f h =
      Guarded-lift Allowed _ _ (optional-Blames alias_tuple aliases alias_tuple-Blames) λ a _.
        Guarded-lift Allowed _ _
          (optional-Blames one_line_description description one_line_description-Blames)
          λ d _. h a d

  abbrev pub IsEdit :
      (Str → VersionToken → Option (List Str) → Option Str → Exec Error K.State MemoryFile)
      → Arg
      → Arg
      → Exec Error K.State MemoryFile
      → Type 0
  IsEdit edit change expected call =
      (s : Str) × (v : VersionToken) × (a : Option (List Str)) × (d : Option Str) × (change
        ≡ text s)
      × (expected ≡ text v)
      × (call ≡ edit s v a d)

  -- From any state of the client, the tool `append_line` either raises an error of the taxonomy and
  -- leaves the state, or does exactly one call of the client's `append_line`, with the line and the
  -- version given and the session's source, at the path that the arguments name in the session's own
  -- entity, outside `system/`, where the policy lets the caller's role write.
  append_line-Guarded :
      (line expected : Arg) (aliases : Option ListArg) (description : Option Arg)
      → Guarded
          (Call λ path. IsEdit (λ s v a d. K.append_line path s v session.source a d) line expected)
          (append_line is_invisible K session scope area name line expected aliases description)
  unfolding append_line
  append_line-Guarded line expected aliases description = at_path _ _ λ path named may.
      with_text _ (codes "line") line _ λ s line_is.
        Guarded-lift _ _ _ (encodable-Blames _ s) λ _ _.
          Guarded-ensure _ _ _ _ (invalid_argument-IsShown _) (
            with_text _ (codes "expected_version") expected _ λ v expected_is.
              with_extras _ aliases description _ λ a d. Guarded-call _ _ (record {
                path = path;
                named = named;
                may_write = may;
                is_call = (s, v, a, d, line_is, expected_is, refl);
              }))

  -- From any state of the client, the tool `write_file` either raises an error of the taxonomy and
  -- leaves the state, or does exactly one call of the client's `write_file`, with the content and the
  -- description given, no sources, a time not set and the session's source, at the path that the
  -- arguments name in the session's own entity, outside `system/`, where the policy lets the caller's
  -- role write.
  pub write_file-Guarded :
      (content description : Arg) (aliases : ListArg) (expected : Option Arg)
      → Guarded
          (Call λ path call.
            (s : Str) × (d : Str) × (a : List Str) × (v : Option VersionToken) × (content ≡ text s)
            × (description ≡ text d)
            × (call ≡ K.write_file path s (plain_metadata d a) v session.source))
          (write_file is_invisible K session scope area name content description aliases expected)
  unfolding write_file
  write_file-Guarded content description aliases expected = at_path _ _ λ path named may.
      with_text _ (codes "content") content _ λ s content_is.
        Guarded-lift _ _ _ (encodable-Blames _ s) λ _ _.
          Guarded-lift _ _ _ (one_line_description-Blames description) λ d accepted.
            Guarded-lift _ _ _ (alias_tuple-Blames aliases) λ a _.
              Guarded-lift _ _ _ (optional-Blames _ expected (exact-Blames _)) λ v _.
                let (description_is, made) = described description a accepted in
                Guarded-lift_ok _ _ _ _ made (
                  Guarded-call _ _ (record {
                    path = path;
                    named = named;
                    may_write = may;
                    is_call = (s, d, a, v, content_is, description_is, refl);
                  }))

  -- From any state of the client, the tool `replace_fact` either raises an error of the taxonomy and
  -- leaves the state, or does exactly one call of the client's `replace_fact`, with the old text, which
  -- is not empty, the new text and the version given and the session's source, at the path that the
  -- arguments name in the session's own entity, outside `system/`, where the policy lets the caller's
  -- role write.
  pub replace_fact-Guarded :
      (old new expected : Arg) (aliases : Option ListArg) (description : Option Arg)
      → Guarded
          (Call λ path call.
            (o : Str) × (old ≡ text o)
            × (o ≢ [])
            × IsEdit (λ s v a d. K.replace_fact path o s v session.source a d) new expected call)
          (replace_fact is_invisible K session scope area name old new expected aliases description)
  unfolding replace_fact
  replace_fact-Guarded old new expected aliases description = at_path _ _ λ path named may.
      with_text _ (codes "old_string") old _ λ o old_is.
        with_text _ (codes "new_string") new _ λ s new_is.
          Guarded-ensure_if _ _ _ _ (invalid_argument-IsShown _) λ given.
            Guarded-lift _ _ _ (encodable-Blames _ s) λ _ _.
              with_text _ (codes "expected_version") expected _ λ v expected_is.
                with_extras _ aliases description _ λ a d. Guarded-call _ _ (record {
                  path = path;
                  named = named;
                  may_write = may;
                  is_call = (o, old_is, not_empty o given, (s, v, a, d, new_is, expected_is, refl));
                })

-- The call that a reading tool makes: at a path that the arguments name in the session's own entity.
pub record OwnRead {C : Type 0} (identity : Identity) (scope area name : Arg)
    (IsCall : Str → C → Type 0) (call : C) : Type 0 where
  pub path : Str
  pub named : Names identity scope area name path
  pub is_call : IsCall path call

module _ (is_invisible : ℕ → Bool) (K : Client) (session : Session) (scope area name : Arg) where
  read_file-Guarded :
      Guarded
        (OwnRead session.identity scope area name λ path call. call ≡ K.read_file path)
        (read_file is_invisible K session scope area name)
  unfolding read_file
  read_file-Guarded =
      Guarded-lift _ _ _ (tool_path-Blames is_invisible session.identity scope area name) λ path e.
        Guarded-call _ _ (record {
          path = path;
          named = tool_path-Names is_invisible session.identity scope area name path e;
          is_call = refl;
        })
