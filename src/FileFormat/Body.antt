-- ===== src/FileFormat/Body.antt =====
-- Bodies: `parse_body` and `serialize_body` (src/wenchang/file_format.py).
pub mod RoundTrip
use wenchang.Base.{
  ℕ, Bool, true, false, not, Option, none, some, List, [], ◌∷◌, ◌++◌, ◌≡◌, map, if◌then◌else◌,
}
use wenchang.Base.Result.{Result, ok, err, ◌>>=◌}
use wenchang.Text.{Str, has, split, join}
use wenchang.FileFormat.Facts.{newline, Fact, IsFact, format_fact, parse_fact}

pub data BodyLine : Type 0 where
  fact : Fact → BodyLine
  plain : Str → BodyLine

-- `parse_fact(piece) or piece`: a `Fact` is never false.
pub fact_or_piece : Str → Option Fact → BodyLine
fact_or_piece piece none = plain piece
fact_or_piece piece (some f) = fact f

pub parse_body : Str → List BodyLine
unfolding fact_or_piece
parse_body body = map (λ piece. fact_or_piece piece (parse_fact piece)) (split newline body)

-- The three `ValueError`s of `serialize_body`.
pub data BodyError : Type 0 where
  no_lines newline_in_line fact_in_line : BodyError

unfoldable pub render_plain : Str → Option Fact → Result BodyError Str
render_plain line none = if has newline line then err newline_in_line else ok line
render_plain line (some _) = if has newline line then err newline_in_line else err fact_in_line

unfoldable pub render_line : BodyLine → Result BodyError Str
unfolding render_plain
render_line (fact f) = ok (format_fact f)
render_line (plain line) = render_plain line (parse_fact line)

unfoldable pub render_lines : List BodyLine → Result BodyError (List Str)
unfolding render_line
render_lines [] = ok []
render_lines (line ∷ lines) = do
  rendered ← render_line line
  rest ← render_lines lines
  ok (rendered ∷ rest)

unfoldable pub serialize_body : List BodyLine → Result BodyError Str
unfolding render_lines
serialize_body [] = err no_lines
serialize_body (line ∷ lines) = do
  rendered ← render_lines (line ∷ lines)
  ok (join newline rendered)
