-- ===== src/Core/Content/Once.antt =====
-- What the count of `replace_fact` says of the text, and what the replacement makes of it
-- (src/wenchang/core.py).
use wenchang.Base.{
  ℕ, zero, suc, ◌≤◌, true, false, [], ◌∷◌, ◌++◌, ◌≡◌, refl, ap, arith, length, drop, Bool-cases,
  inl, inr, append-nil,
}
use wenchang.Text.{Str, starts_with, starts_with-append}
use wenchang.Core.Content.{count_occurrences, replace_first}

starts_with-cut : (s p : Str) → starts_with s p ≡ true → s ≡ p ++ drop (length p) s
unfolding starts_with
starts_with-cut s [] h = refl
starts_with-cut [] (d ∷ p) h = cc h
starts_with-cut (c ∷ s) (d ∷ p) h = ground (arith, starts_with-cut s p)

-- A text that stands somewhere is counted.
count-ge : (pre old post : Str) → 1 ≤ count_occurrences (pre ++ (old ++ post)) old
unfolding count_occurrences starts_with
count-ge [] [] [] = omega arith
count-ge [] [] (x ∷ post) = omega arith
count-ge [] (o ∷ old) post = ground (arith, starts_with-append old post)
count-ge (c ∷ pre) old post = ground (arith, count-ge pre old post)

drop_nil : (n : ℕ) → drop {A = ℕ} n [] ≡ []
drop_nil zero = refl
drop_nil (suc n) = refl

empty_left : (pre rest : Str) → [] ≡ pre ++ rest → pre ≡ []
empty_left [] rest e = refl
empty_left (d ∷ pre) rest e = cc e

module _ (old new : Str) where
  -- The one place at which the old text stands, and the text with the new one there.
  pub record Once (text replaced : Str) : Type 0 where
    pub before : Str
    pub behind : Str
    pub stands : text ≡ before ++ (old ++ behind)
    pub result : replaced ≡ before ++ (new ++ behind)
    pub only : (pre post : Str) → text ≡ pre ++ (old ++ post) → pre ≡ before

  only_first :
      (c : ℕ) (t pre post : Str)
      → count_occurrences t old ≡ 0
      → c ∷ t ≡ pre ++ (old ++ post)
      → pre ≡ []
  only_first c t [] post none_left e = refl
  only_first c t (d ∷ pre) post none_left e =
      let tail : t ≡ pre ++ (old ++ post) = ground arith in
      let again : 1 ≤ count_occurrences t old = rw tail (count-ge pre old post) in
      absurd (omega (arith, again, none_left))

  only_later :
      (c : ℕ) (t before pre post : Str)
      → starts_with (c ∷ t) old ≡ false
      → ((pre post : Str) → t ≡ pre ++ (old ++ post) → pre ≡ before)
      → c ∷ t ≡ pre ++ (old ++ post)
      → pre ≡ c ∷ before
  only_later c t before [] post n ih e =
      let here : starts_with (c ∷ t) old ≡ true = rw e (starts_with-append old post) in cc (n, here)
  only_later c t before (d ∷ pre) post n ih e =
      let tail : t ≡ pre ++ (old ++ post) = ground arith in
      let head : d ≡ c = ground arith in rw (head, ih pre post tail) refl

  -- A text that is counted once stands at exactly one place, and `replace_first` puts the new text
  -- there and leaves the rest.
  pub replace_first-Once :
      (text : Str) → count_occurrences text old ≡ 1 → Once text (replace_first text old new)
  unfolding count_occurrences replace_first
  replace_first-Once [] h = elim (Bool-cases (starts_with [] old)) [
    | inl e ↦ rw e (record {
      before = [];
      behind = drop (length old) [];
      stands = starts_with-cut [] old e;
      result = rw (drop_nil (length old), append-nil new) refl;
      only = λ pre post. empty_left pre (old ++ post);
    })
    | inr e ↦ let never : ◌≡◌ {A = ℕ} 0 1 = ground arith in absurd (omega (arith, never))
  ]
  replace_first-Once (c ∷ text) h = elim (Bool-cases (starts_with (c ∷ text) old)) [
    | inl e ↦
        let none_left : count_occurrences text old ≡ 0 = ground arith in
        rw e (record {
          before = [];
          behind = drop (length old) (c ∷ text);
          stands = starts_with-cut (c ∷ text) old e;
          result = refl;
          only = λ pre post. only_first c text pre post none_left;
        })
    | inr e ↦
        let once : count_occurrences text old ≡ 1 = ground arith in
        let o = replace_first-Once text once in
        rw e (record {
          before = c ∷ o.before;
          behind = o.behind;
          stands = ap (λ t. c ∷ t) o.stands;
          result = ap (λ t. c ∷ t) o.result;
          only = λ pre post. only_later c text o.before pre post e o.only;
        })
  ]
