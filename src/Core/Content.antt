-- ===== src/Core/Content.antt =====
-- The edits of a file's text: counting and replacing occurrences (`_count_occurrences` and the
-- `str.replace` of `replace_fact`), and appending a line (`append_line`).
pub mod Once
use wenchang.Base.{ℕ, suc, ◌&&◌, not, [], ◌∷◌, ◌++◌, length, drop, if◌then◌else◌}
use wenchang.Text.{Str, str_eq, starts_with, ends_with}
use wenchang.FileFormat.Facts.{newline}

-- The rounds of `content.find(old_string, index)`: every start position is tried once, since the
-- next search begins one behind the last hit. The empty text also occurs at the end.
unfoldable pub count_occurrences : Str → Str → ℕ
unfolding starts_with
count_occurrences [] old = if starts_with [] old then 1 else 0
count_occurrences (c ∷ content) old =
    let rest = count_occurrences content old in
    if starts_with (c ∷ content) old then suc rest else rest

-- `content.replace(old_string, new_string, 1)`
unfoldable pub replace_first : Str → Str → Str → Str
unfolding starts_with
replace_first [] old new = if starts_with [] old then new else []
replace_first (c ∷ content) old new =
    let rest = replace_first content old new in
    if starts_with (c ∷ content) old then new ++ drop (length old) (c ∷ content) else c ∷ rest

-- `content + sep + line + "\n"`
unfoldable pub append_to : Str → Str → Str
unfolding ends_with
append_to content line =
    let sep =
      if not (str_eq content []) && not (ends_with content (newline ∷ []))
      then newline ∷ []
      else [] in
    content ++ (sep ++ (line ++ newline ∷ []))
