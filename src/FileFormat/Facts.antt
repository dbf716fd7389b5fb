-- ===== src/FileFormat/Facts.antt =====
-- Fact lines `- [<label>] <text>`: `Fact`, `format_fact`, `parse_fact`
-- (src/wenchang/file_format.py).
pub mod RoundTrip
use wenchang.Base.{
  ℕ, Bool, true, false, not, ◌&&◌, ◌||◌, Option, none, some, List, [], ◌∷◌, ◌++◌, ◌≡◌, ◌==◌, leb,
  if◌then◌else◌, all,
}
use wenchang.Text.{Str, codes, has}

abbrev pub newline : ℕ
newline = b'\n'

pub data ConfidenceLabel : Type 0 where
  stated observed inferred system : ConfidenceLabel

pub label_text : ConfidenceLabel → Str
label_text stated = codes "stated"
label_text observed = codes "observed"
label_text inferred = codes "inferred"
label_text system = codes "system"

pub record Fact : Type 0 where
  pub label : ConfidenceLabel
  pub text : Str

-- What `str.strip` takes off: the code points with `str.isspace`.
is_space : ℕ → Bool
is_space c =
    (leb 9 c && leb c 13)
    || ((leb 28 c && leb c 32)
        || (c == 0x85
            || (c == 0xA0
                || (c == 0x1680
                    || ((leb 0x2000 c && leb c 0x200A)
                        || (c == 0x2028
                            || (c == 0x2029 || (c == 0x202F || (c == 0x205F || c == 0x3000)))))))))

-- `text.strip() == ""`
unfoldable pub is_blank : Str → Bool
unfolding is_space
is_blank = all is_space

-- What `Fact.__post_init__` lets through.
abbrev pub IsFact : Fact → Type 0
IsFact f = (has newline f.text ≡ false) × (is_blank f.text ≡ false)

unfoldable pub format_fact : Fact → Str
unfolding label_text
format_fact f = codes "- [" ++ (label_text f.label ++ (codes "] " ++ f.text))

-- The rest of a text behind a literal of the pattern.
pub behind : Str → Str → Option Str
behind [] s = some s
behind (c ∷ p) [] = none
behind (c ∷ p) (d ∷ s) = if c == d then behind p s else none

-- One alternative of `- \[(stated|observed|inferred|system)\] (.*)`. The dot takes no newline.
pub match_label : ConfidenceLabel → Str → Option Fact
match_label label line = elim (behind (codes "- [" ++ (label_text label ++ codes "] ")) line) [
  | none ↦ none
  | some text ↦ if has newline text then none else some (record { label = label; text = text })
]

pub or_else : Option Fact → Option Fact → Option Fact
or_else (some f) g = some f
or_else none g = g

-- `_FACT_LINE_PATTERN.fullmatch(line)`
pub match_line : Str → Option Fact
match_line line = or_else (match_label stated line) (
    or_else (match_label observed line)
      (or_else (match_label inferred line) (match_label system line)))

pub unless_blank : Option Fact → Option Fact
unless_blank none = none
unless_blank (some f) = if is_blank f.text then none else some f

pub parse_fact : Str → Option Fact
parse_fact line = unless_blank (match_line line)
