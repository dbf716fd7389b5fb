-- ===== src/FileFormat/Facts/RoundTrip.antt =====
-- `format_fact` and `parse_fact` undo each other.
use wenchang.Base.{
  false, Option, none, some, [], ◌∷◌, ◌++◌, ◌≡◌, arith, append_assoc, Option-cases, inl, inr, ◌⊎◌,
}
use wenchang.Text.{Str, codes, has}
use wenchang.FileFormat.Facts.{
  newline, ConfidenceLabel, stated, observed, inferred, system, label_text, Fact, IsFact, is_blank,
  format_fact, behind, match_label, or_else, match_line, unless_blank, parse_fact,
}

-- Text that was split off a literal.
behind-append : (p s rest : Str) → behind p s ≡ some rest → p ++ rest ≡ s
unfolding behind
behind-append [] s rest h = ground arith
behind-append (c ∷ p) [] rest h = cc
behind-append (c ∷ p) (d ∷ s) rest h = ground (arith, behind-append p s rest)

-- A line that one alternative matches is the fact, formatted.
match_label-format :
    (l : ConfidenceLabel) (line : Str) (f : Fact)
    → match_label l line ≡ some f
    → (format_fact f ≡ line) × (has newline f.text ≡ false)
unfolding match_label format_fact
match_label-format l line f h =
    let start = codes "- [" ++ (label_text l ++ codes "] ") in
    elim (Option-cases (behind start line)) [
      | inl e ↦ ground arith
      | inr (t, e) ↦
          ground (arith, behind-append start line t e, append_assoc (label_text l) (codes "] ") t)
    ]

or_else-eq_some :
    (a b : Option Fact) {f : Fact} → or_else a b ≡ some f → (a ≡ some f) ⊎ (b ≡ some f)
unfolding or_else
or_else-eq_some none b h = inr h
or_else-eq_some (some x) b h = inl h

match_line-format :
    (line : Str) (f : Fact)
    → match_line line ≡ some f
    → (format_fact f ≡ line) × (has newline f.text ≡ false)
unfolding match_line
match_line-format line f h = elim (or_else-eq_some _ _ h) [
  | inl e ↦ match_label-format stated line f e
  | inr h ↦ elim (or_else-eq_some _ _ h) [
    | inl e ↦ match_label-format observed line f e
    | inr h ↦ elim (or_else-eq_some _ _ h) [
      | inl e ↦ match_label-format inferred line f e
      | inr e ↦ match_label-format system line f e
    ]
  ]
]

unless_blank-eq_some :
    (o : Option Fact) (f : Fact)
    → unless_blank o ≡ some f
    → (o ≡ some f) × (is_blank f.text ≡ false)
unfolding unless_blank
unless_blank-eq_some none f h = cc
unless_blank-eq_some (some x) f h = ground arith

-- A line that parses as a fact is that fact, formatted, and the fact is one that can be built.
pub format_fact-parse_fact :
    (line : Str) (f : Fact) → parse_fact line ≡ some f → (format_fact f ≡ line) × IsFact f
unfolding parse_fact
format_fact-parse_fact line f h =
    let (m, b) = unless_blank-eq_some (match_line line) f h in
    let (e, n) = match_line-format line f m in (e, (n, b))

parse_parts :
    (l : ConfidenceLabel) (t : Str)
    → has newline t ≡ false
    → is_blank t ≡ false
    → parse_fact (format_fact (record { label = l; text = t }))
      ≡ some (record { label = l; text = t })
unfolding parse_fact format_fact match_line match_label or_else unless_blank behind label_text
parse_parts stated t h b = ground arith
parse_parts observed t h b = ground arith
parse_parts inferred t h b = ground arith
parse_parts system t h b = ground arith

-- A fact that can be built is parsed back from its line.
pub parse_fact-format_fact : (f : Fact) → IsFact f → parse_fact (format_fact f) ≡ some f
parse_fact-format_fact f v = parse_parts f.label f.text v.0 v.1

format-has :
    (l : ConfidenceLabel) (t : Str)
    → has newline t ≡ false
    → has newline (format_fact (record { label = l; text = t })) ≡ false
unfolding format_fact label_text has
format-has stated t h = ground arith
format-has observed t h = ground arith
format-has inferred t h = ground arith
format-has system t h = ground arith

-- The line of a fact that can be built is one line.
pub has-format_fact : (f : Fact) → IsFact f → has newline (format_fact f) ≡ false
has-format_fact f v = format-has f.label f.text v.0
