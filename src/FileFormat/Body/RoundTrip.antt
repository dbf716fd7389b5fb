-- ===== src/FileFormat/Body/RoundTrip.antt =====
-- `serialize_body` and `parse_body` undo each other.
use wenchang.Base.{
  false, Option, none, some, List, [], ◌∷◌, ◌≡◌, ◌≢◌, refl, arith, map, All, ap, Option-cases, inl,
  inr, ◌∙◌,
}
use wenchang.Base.Result.{ok, >>=-eq-ok}
use wenchang.Text.{Str, has, split, join}
use wenchang.Text.Split.{
  Lacks, split-Lacks, split-ne-nil, split-join, join-split, has-Lacks, Lacks-has,
}
use wenchang.FileFormat.Facts.{newline, Fact, IsFact, format_fact, parse_fact}
use wenchang.FileFormat.Facts.RoundTrip.{
  format_fact-parse_fact, parse_fact-format_fact, has-format_fact,
}
use wenchang.FileFormat.Body.{
  BodyLine, fact, plain, fact_or_piece, parse_body, render_plain, render_line, render_lines,
  serialize_body,
}

-- A piece without a newline is rendered as it was.
render_line-piece :
    (piece : Str)
    → Lacks newline piece
    → render_line (fact_or_piece piece (parse_fact piece)) ≡ ok piece
unfolding render_line fact_or_piece
render_line-piece piece h = elim (Option-cases (parse_fact piece)) [
  | inl e ↦ rw e (unfold render_plain in rw (e, Lacks-has newline piece h))
  | inr (f, e) ↦ rw e (ap ok (format_fact-parse_fact piece f e).0)
]

render_lines-pieces :
    (pieces : List Str)
    → All (Lacks newline) pieces
    → render_lines (map (λ piece. fact_or_piece piece (parse_fact piece)) pieces) ≡ ok pieces
unfolding render_lines
render_lines-pieces [] h = refl
render_lines-pieces (p ∷ ps) h = rw (render_line-piece p h.0, render_lines-pieces ps h.1)

serialize_pieces :
    (pieces : List Str)
    → pieces ≢ []
    → All (Lacks newline) pieces
    → serialize_body (map (λ piece. fact_or_piece piece (parse_fact piece)) pieces)
      ≡ ok (join newline pieces)
unfolding serialize_body
serialize_pieces [] h l = absurd (h refl)
serialize_pieces (p ∷ ps) h l = rw (render_lines-pieces (p ∷ ps) l)

-- Every body is parsed into lines that are rendered to the same body.
pub serialize_body-parse_body : (body : Str) → serialize_body (parse_body body) ≡ ok body
unfolding parse_body
serialize_body-parse_body body =
    serialize_pieces (split newline body) (split-ne-nil newline body) (split-Lacks newline body)
    ∙ ap ok (join-split newline body)

-- A list of lines is one that `parse_body` can return: its facts can be built.
abbrev pub IsLine : BodyLine → Type 0
IsLine (fact f) = IsFact f
IsLine (plain _) = Unit

render_plain-eq_ok :
    (line r : Str) (o : Option Fact)
    → render_plain line o ≡ ok r
    → (o ≡ none) × (has newline line ≡ false) × (line ≡ r)
unfolding render_plain
render_plain-eq_ok line r none h = ground arith
render_plain-eq_ok line r (some f) h = ground arith

render_line-parsed :
    (line : BodyLine) (r : Str)
    → IsLine line
    → render_line line ≡ ok r
    → (fact_or_piece r (parse_fact r) ≡ line) × Lacks newline r
unfolding render_line fact_or_piece
render_line-parsed (fact f) r v h =
    let e : format_fact f ≡ r = ground arith in
    rw (← e, parse_fact-format_fact f v) (refl, has-Lacks newline _ (has-format_fact f v))
render_line-parsed (plain line) r v h =
    let (o, n, e) = render_plain-eq_ok line r (parse_fact line) h in
    rw (← e, o) (refl, has-Lacks newline line n)

-- The lines that were rendered, read off the rendered pieces.
record IsRendered (lines : List BodyLine) (pieces : List Str) : Type 0 where
  parsed : map (λ piece. fact_or_piece piece (parse_fact piece)) pieces ≡ lines
  lacks : All (Lacks newline) pieces

render_lines-IsRendered :
    (lines : List BodyLine) (pieces : List Str)
    → All IsLine lines
    → render_lines lines ≡ ok pieces
    → IsRendered lines pieces
unfolding render_lines
render_lines-IsRendered [] pieces v h =
    let e : [] ≡ pieces = ground arith in rw (← e) (record { parsed = refl; lacks = tt })
render_lines-IsRendered (line ∷ lines) pieces v h =
    let (r, hr, k) = >>=-eq-ok (render_line line) _ h in
    let (rs, hrs, e) = >>=-eq-ok (render_lines lines) _ k in
    let e' : r ∷ rs ≡ pieces = ground arith in
    let (p, l) = render_line-parsed line r v.0 hr in
    let ih = render_lines-IsRendered lines rs v.1 hrs in
    rw (← e') (record { parsed = cc (p, ih.parsed); lacks = (l, ih.lacks) })

IsRendered-ne-nil :
    (line : BodyLine) (lines : List BodyLine) (pieces : List Str)
    → IsRendered (line ∷ lines) pieces
    → pieces ≢ []
IsRendered-ne-nil line lines [] r = λ _. cc r.parsed
IsRendered-ne-nil line lines (p ∷ ps) r = λ e. cc e

-- Lines that can be rendered, whose facts can be built, are parsed back from the body.
pub parse_body-serialize_body :
    (lines : List BodyLine) (body : Str)
    → All IsLine lines
    → serialize_body lines ≡ ok body
    → parse_body body ≡ lines
unfolding serialize_body parse_body
parse_body-serialize_body [] body v h = cc
parse_body-serialize_body (line ∷ lines) body v h =
    let (rs, hrs, e) = >>=-eq-ok (render_lines (line ∷ lines)) _ h in
    let e' : join newline rs ≡ body = ground arith in
    let r = render_lines-IsRendered (line ∷ lines) rs v hrs in
    rw (← e', split-join newline rs (IsRendered-ne-nil line lines rs r) r.lacks) r.parsed
