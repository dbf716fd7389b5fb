-- ===== src/Core/Index/Omitted.antt =====
-- The memory index accounts for every entry: it is shown, or counted under its area's prefix
-- (src/wenchang/core.py).
use mathlib.Core.List.{Perm}
use wenchang.Base.Result.{ok}
use wenchang.Base.{
  if◌then◌else◌, ℕ, ◌+◌, Option, none, some, List, [], ◌∷◌, ◌++◌, ◌≡◌, refl, arith, length, drop,
  All, drop-append,
}
use wenchang.Text.{Str, str_eq, str_eq_iff}
use wenchang.Dict
use wenchang.Dict.{Dict}
use wenchang.Paths.{PathParts, parse_path, build_prefix, slash}
use wenchang.Paths.RoundTrip.{parse_path-IsParsed}
use wenchang.FileFormat.Metadata.{Codec}
use wenchang.Core.{Config, FileEntry}
use wenchang.Core.Index.{
  CappedPrefix, MemoryIndex, area_prefix, increment, omitted_counts, insert_capped, capped_of,
  insert_entry, ordered, merged_index,
}
use wenchang.Core.Index.Cap.{Fits, index_of_rendered, merged_index-eq_ok, index-Fits}
use wenchang.Core.Index.Order.{Perm-ordered}

-- How many files the capped prefixes equal to `p` leave out.
abbrev pub omitted_at : Str → List CappedPrefix → ℕ
omitted_at p [] = 0
omitted_at p (cap ∷ caps) = (if str_eq cap.prefix p then cap.omitted else 0) + omitted_at p caps

-- `<scope>/<entity>/<area>/`
abbrev pub area_of : PathParts → Str
area_of parts = parts.scope ++ slash ∷ (parts.entity_id ++ slash ∷ (parts.area ++ slash ∷ []))

-- How many entries stand in the area of the prefix.
abbrev pub count_in : Str → List FileEntry → ℕ
count_in p [] = 0
count_in p (e ∷ es) =
    (elim (parse_path e.path) [ none ↦ 0 | some parts ↦ if str_eq (area_of parts) p then 1 else 0 ])
    + count_in p es

-- An entry of a listing: its path is well formed.
abbrev pub IsListed : FileEntry → Type 0
IsListed e = (parts : PathParts) × (parse_path e.path ≡ some parts)

area_prefix-parsed :
    (path : Str) (parts : PathParts)
    → parse_path path ≡ some parts
    → area_prefix (some parts) ≡ some (area_of parts)
unfolding area_prefix build_prefix
area_prefix-parsed path parts parsed =
    let b = parse_path-IsParsed path parts parsed in rw (b.scope, b.entity_id, b.area) refl

abbrev sum_at : Str → Dict ℕ → ℕ
sum_at p [] = 0
sum_at p ((q, n) ∷ d) = (if str_eq q p then n else 0) + sum_at p d

value_of : Option ℕ → ℕ
value_of none = 0
value_of (some n) = n

sum_at-put :
    (p q : Str) (m : ℕ) (d : Dict ℕ)
    → sum_at p (Dict.put q m d) + (if str_eq q p then value_of (Dict.get q d) else 0)
      ≡ sum_at p d + (if str_eq q p then m else 0)
unfolding Dict.put Dict.get value_of
sum_at-put p q m [] = ground arith
sum_at-put p q m ((r, n) ∷ d) = ground (arith, sum_at-put p q m d, str_eq_iff q r)

incremented : (o : Option ℕ) → elim o [ none ↦ 1 | some n ↦ n + 1 ] ≡ value_of o + 1
unfolding value_of
incremented none = omega arith
incremented (some n) = refl

sum_at-increment :
    (p q : Str) (d : Dict ℕ)
    → sum_at p (increment (some q) d) ≡ sum_at p d + (if str_eq q p then 1 else 0)
unfolding increment
sum_at-increment p q d =
    let m : ℕ = elim (Dict.get q d) [ none ↦ 1 | some n ↦ n + 1 ] in
    ground (arith, sum_at-put p q m d, incremented (Dict.get q d))

sum_at-omitted_counts :
    (p : Str) (d : Dict ℕ) (es : List FileEntry)
    → All IsListed es
    → sum_at p (omitted_counts d es) ≡ sum_at p d + count_in p es
unfolding omitted_counts
sum_at-omitted_counts p d [] h = omega arith
sum_at-omitted_counts p d (e ∷ es) ((parts, parsed), h) =
    rw (parsed, area_prefix-parsed e.path parts parsed)
      (omega (
        arith,
        sum_at-omitted_counts p (increment (some (area_of parts)) d) es h,
        sum_at-increment p (area_of parts) d,
      ))

omitted_at-insert_capped :
    (p : Str) (cap : CappedPrefix) (caps : List CappedPrefix)
    → omitted_at p (insert_capped cap caps)
      ≡ (if str_eq cap.prefix p then cap.omitted else 0) + omitted_at p caps
unfolding insert_capped
omitted_at-insert_capped p cap [] = refl
omitted_at-insert_capped p cap (x ∷ caps) = ground (arith, omitted_at-insert_capped p cap caps)

omitted_at-capped_of : (p : Str) (d : Dict ℕ) → omitted_at p (capped_of d) ≡ sum_at p d
unfolding capped_of
omitted_at-capped_of p [] = refl
omitted_at-capped_of p ((q, n) ∷ d) =
    rw
      (
        omitted_at-insert_capped p (record { prefix = q; omitted = n }) (capped_of d),
        omitted_at-capped_of p d,
      )
      refl

module _ (k : Config) where
  insert_entry-kept :
      (e : FileEntry) (es : List FileEntry)
      → IsListed e
      → All IsListed es
      → All IsListed (insert_entry k e es)
  unfolding insert_entry
  insert_entry-kept e [] l h = (l, tt)
  insert_entry-kept e (x ∷ es) l h = ground (arith, insert_entry-kept e es l h.1)

  ordered-kept : (es : List FileEntry) → All IsListed es → All IsListed (ordered k es)
  unfolding ordered
  ordered-kept [] h = tt
  ordered-kept (e ∷ es) h = insert_entry-kept e (ordered k es) h.0 (ordered-kept es h.1)

  All-rest : (xs ys : List FileEntry) → All IsListed (xs ++ ys) → All IsListed ys
  All-rest [] ys h = h
  All-rest (x ∷ xs) ys h = All-rest xs ys h.1

  -- The entries behind those shown, and their number in each area.
  pub record Omitted (collected : List FileEntry) (index : MemoryIndex) : Type 0 where
    pub rest : List FileEntry
    pub same_entries : Perm (index.entries ++ rest) collected
    pub counts : (p : Str) → omitted_at p index.capped ≡ count_in p rest

  counted_rest :
      (p : Str) (es shown rest : List FileEntry)
      → es ≡ shown ++ rest
      → All IsListed es
      → omitted_at p (capped_of (omitted_counts [] (drop (length shown) es))) ≡ count_in p rest
  counted_rest p es shown rest e h =
      let l : All IsListed rest = All-rest shown rest (rw e at h) in
      rw
        (
          e,
          drop-append shown rest,
          omitted_at-capped_of p (omitted_counts [] rest),
          sum_at-omitted_counts p [] rest l,
        )
        (omega arith)

  -- The entries collected, each at a well-formed path, are those that the memory index shows and
  -- those that it leaves out; and for each prefix, the files that it counts as left out there are as
  -- many as the entries left out in that area.
  pub merged_index-Omitted :
      (c : Codec) (collected : List FileEntry) (index : MemoryIndex)
      → All IsListed collected
      → merged_index c k collected ≡ ok index
      → Omitted collected index
  unfolding index_of_rendered
  merged_index-Omitted c collected index h e =
      let same = merged_index-eq_ok c k collected index e in
      let fits : Fits c k 0 (ordered k collected) (index_of_rendered c k collected).entries =
        index-Fits c k collected in
      rw (← same) (record {
        rest = fits.rest;
        same_entries = rw (← fits.split) (Perm-ordered k collected);
        counts = λ p.
            counted_rest p (ordered k collected) (index_of_rendered c k collected).entries fits.rest
              fits.split (ordered-kept collected h);
      })
