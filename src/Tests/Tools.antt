-- ===== src/Tests/Tools.antt =====
-- The theorems on the tools, over a client that counts its calls.
use wenchang.Base.{some, ℕ, suc, Bool, false, Option, none, List, [], ◌≡◌, ◌≢◌}
use wenchang.Base.Result.{ok, err}
use wenchang.Text.{Str, codes}
use wenchang.Dict
use wenchang.Json.{string}
use wenchang.Tools.Render.Failure.{render_error}
use wenchang.Tools.Render.Category.{shown_category, render_error-category}
use wenchang.Errors.{category, file_absent, not_found, VersionToken}
use wenchang.Tools.{Client}
use wenchang.Tools.Arguments.{Arg, text, members}
use wenchang.Tools.Session.{Session, write_file, replace_fact, delete_file}
use wenchang.Tools.Guard.{Guarded}
use wenchang.Tools.Refusals.{plain_metadata}
use wenchang.Tools.Safety.{
  Call, IsEdit, write_file-Guarded, replace_fact-Guarded, delete_file-Guarded,
}
use wenchang.Tests.Access.{caller, policy}

-- Every file is there, with the content given.
unfoldable counting : Client
counting = record {
  State = ℕ;
  read_file = λ path n. (err (not_found path file_absent), suc n);
  write_file = λ path content metadata expected source n. (
    ok (record { path = path; content = content; metadata = metadata; version = codes "7" }),
    suc n,
  );
  append_line =
      λ path line expected source aliases description n. (err (not_found path file_absent), suc n);
  replace_fact = λ path old new expected source aliases description n.
      (err (not_found path file_absent), suc n);
  list_prefix = λ prefix cursor n. (ok (record { entries = []; next_cursor = none }), suc n);
  delete_file = λ path expected n. (ok tt, suc n);
  get_memory_index = λ scope_map n. (ok (record { entries = []; capped = [] }), suc n);
}

abbrev pub is_invisible : ℕ → Bool
is_invisible c = false

abbrev pub session : Session
session = record { identity = caller; policy = policy; source = codes "chat" }

abbrev pub user : Arg
user = text (codes "user")

abbrev pub prefs : Arg
prefs = text (codes "prefs")

abbrev pub notes_md : Arg
notes_md = text (codes "notes.md")

abbrev token : Arg
token = text (codes "7")

write_file-Guarded_example :
    Guarded
      (Call is_invisible counting session user prefs notes_md λ path call.
        (s : Str) × (d : Str) × (a : List Str) × (v : Option VersionToken) × (text (codes "- tea")
          ≡ text s)
        × (text (codes "Likes") ≡ text d)
        × (call ≡ counting.write_file path s (plain_metadata d a) v session.source))
      (write_file is_invisible counting session user prefs notes_md
        (text (codes "- tea"))
        (text (codes "Likes"))
        (members [])
        none)
write_file-Guarded_example =
    write_file-Guarded is_invisible counting session user prefs notes_md (text (codes "- tea"))
      (text (codes "Likes")) (members []) none

replace_fact-Guarded_example :
    Guarded
      (Call is_invisible counting session user prefs notes_md λ path call.
        (o : Str) × (text (codes "tea") ≡ text o)
        × (o ≢ [])
        × IsEdit is_invisible counting session user prefs notes_md
            (λ s v a d. counting.replace_fact path o s v session.source a d)
            (text (codes "cake"))
            token
            call)
      (replace_fact is_invisible counting session user prefs notes_md
        (text (codes "tea"))
        (text (codes "cake"))
        token
        none
        none)
replace_fact-Guarded_example =
    replace_fact-Guarded is_invisible counting session user prefs notes_md (text (codes "tea"))
      (text (codes "cake")) token none none

delete_file-Guarded_example :
    Guarded
      (Call is_invisible counting session user prefs notes_md
        λ path call. (v : VersionToken) × (token ≡ text v) × (call ≡ counting.delete_file path v))
      (delete_file is_invisible counting session user prefs notes_md token)
delete_file-Guarded_example =
    delete_file-Guarded is_invisible counting session user prefs notes_md token

render_error-category_example :
    Dict.get
      (codes "category")
      (render_error (λ e. codes "gone") (not_found (codes "user/u1/prefs/notes.md") file_absent))
    ≡ some (
        string (shown_category (category (not_found (codes "user/u1/prefs/notes.md") file_absent))))
render_error-category_example =
    render_error-category (λ e. codes "gone")
      (not_found (codes "user/u1/prefs/notes.md") file_absent)
