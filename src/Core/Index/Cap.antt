-- ===== src/Core/Index/Cap.antt =====
-- What the byte cap of the memory index includes, and when the index raises (src/wenchang/core.py).
use mathlib.Core.List.{Perm}
use wenchang.Base.{
  ℕ, ◌+◌, ◌≤◌, ◌<◌, true, false, List, [], ◌∷◌, ◌++◌, ◌≡◌, refl, ap, arith, ltb, Bool-cases, inl,
  inr, ◌∙◌, drop, all, and_iff, length,
}
use wenchang.Base.Result.{Result, ok, err}
use wenchang.Utf8.{utf8_len}
use wenchang.Errors.{Error, metadata_format}
use wenchang.FileFormat.Metadata.{Codec, metadata_to_map, rendered_map, last_updated_key}
use wenchang.Core.{Config, FileEntry}
use wenchang.Core.Index.Order.{renders, AreOrdered, all-ordered}
use wenchang.Core.Index.{
  MemoryIndex, index_entry_bytes, format_checked, map_bytes, sized, included, ordered, merged_index,
  omitted_counts, capped_of,
}

-- The bytes of an entry: its path, its version, and the four keys and values of its metadata.
abbrev pub size_of : Codec → FileEntry → ℕ
size_of c e =
    utf8_len e.path
    + utf8_len e.version
    + (11 + utf8_len e.metadata.description)
    + (7 + utf8_len (c.dumps e.metadata.aliases))
    + (7 + utf8_len (c.dumps e.metadata.sources))
    + (12 + utf8_len (c.isoformat e.metadata.last_updated.micros))

-- The bytes of a list of entries.
abbrev pub size : Codec → List FileEntry → ℕ
size c [] = 0
size c (e ∷ es) = size_of c e + size c es

-- The entries with their sizes.
abbrev pub with_sizes : Codec → List FileEntry → List (FileEntry × ℕ)
with_sizes c [] = []
with_sizes c (e ∷ es) = (e, size_of c e) ∷ with_sizes c es

module _ (c : Codec) where
  index_entry_bytes-renders :
      (e : FileEntry) → renders e ≡ true → index_entry_bytes c e ≡ ok (size_of c e)
  unfolding index_entry_bytes metadata_to_map rendered_map format_checked map_bytes utf8_len
  index_entry_bytes-renders e h = rw h (ap ok (omega arith))

  index_entry_bytes-raises :
      (e : FileEntry)
      → renders e ≡ false
      → index_entry_bytes c e ≡ err (metadata_format last_updated_key)
  unfolding index_entry_bytes metadata_to_map format_checked
  index_entry_bytes-raises e h = rw h refl

  sized-renders : (es : List FileEntry) → all renders es ≡ true → sized c es ≡ ok (with_sizes c es)
  unfolding sized
  sized-renders [] h = refl
  sized-renders (e ∷ es) h =
      let (r, rs) = (and_iff _ _).0 h in
      rw (index_entry_bytes-renders e r, sized-renders es rs) refl

  sized-raises :
      (es : List FileEntry)
      → all renders es ≡ false
      → sized c es ≡ err (metadata_format last_updated_key)
  unfolding sized
  sized-raises [] h = cc h
  sized-raises (e ∷ es) h = elim (Bool-cases (renders e)) [
    | inl r ↦
        let others : all renders es ≡ false = rw r at h in
        rw (index_entry_bytes-renders e r, sized-raises es others) refl
    | inr r ↦ rw (index_entry_bytes-raises e r) refl
  ]

-- The budget is not exceeded, and would be by the next entry.
abbrev pub IsFull : Codec → ℕ → ℕ → List FileEntry → Type 0
IsFull c budget used [] = Unit
IsFull c budget used (e ∷ rest) = budget < used + size_of c e

module _ (c : Codec) (k : Config) where
  -- The entries shown are a first part of a list, which fits and cannot be longer.
  pub record Fits (total : ℕ) (es shown : List FileEntry) : Type 0 where
    pub rest : List FileEntry
    pub split : es ≡ shown ++ rest
    pub fits : total + size c shown ≤ k.index_max_bytes
    pub full : IsFull c k.index_max_bytes (total + size c shown) rest

  included-Fits :
      (total : ℕ) (es : List FileEntry)
      → total ≤ k.index_max_bytes
      → Fits total es (included k total (with_sizes c es))
  unfolding included
  included-Fits total [] h = record { rest = []; split = refl; fits = omega arith; full = tt }
  included-Fits total (e ∷ es) h = elim (Bool-cases (ltb k.index_max_bytes (total + size_of c e))) [
    | inl over ↦
        rw over (record { rest = e ∷ es; split = refl; fits = omega arith; full = ground arith })
    | inr under ↦
        let n = size_of c e in
        let ih = included-Fits (total + n) es (ground arith) in
        let shown = included k (total + n) (with_sizes c es) in
        let sum : (total + n) + size c shown ≡ total + (n + size c shown) = omega arith in
        rw under (record {
          rest = ih.rest;
          split = ap (λ t. e ∷ t) ih.split;
          fits = rw sum at ih.fits;
          full = rw sum at ih.full;
        })
  ]

  -- The index shows a first part of the entries in their order, which fits and cannot be longer.
  pub record Shown (collected : List FileEntry) (index : MemoryIndex) : Type 0 where
    pub in_order : List FileEntry
    pub same_entries : Perm in_order collected
    pub are_ordered : AreOrdered k in_order
    pub all_render : all renders collected ≡ true
    pub fits : Fits 0 in_order index.entries

  -- The index of entries that can be rendered.
  unfoldable pub index_of_rendered : List FileEntry → MemoryIndex
  index_of_rendered collected =
      let shown = included k 0 (with_sizes c (ordered k collected)) in
      record {
        entries = shown;
        capped = capped_of (omitted_counts [] (drop (length shown) (ordered k collected)));
      }

  pub merged_index-renders :
      (collected : List FileEntry)
      → all renders collected ≡ true
      → merged_index c k collected ≡ ok (index_of_rendered collected)
  unfolding merged_index index_of_rendered
  merged_index-renders collected h =
      rw (sized-renders c (ordered k collected) (all-ordered k collected ∙ h)) refl

  same_index :
      (collected : List FileEntry) (index : MemoryIndex)
      → ◌≡◌ {A = Result Error MemoryIndex} (ok (index_of_rendered collected)) (ok index)
      → index_of_rendered collected ≡ index
  same_index collected index h = cc h

  pub merged_index_raises :
      (collected : List FileEntry)
      → all renders collected ≡ false
      → merged_index c k collected ≡ err (metadata_format last_updated_key)
  unfolding merged_index
  merged_index_raises collected h =
      rw (sized-raises c (ordered k collected) (all-ordered k collected ∙ h)) refl

  raised :
      {A : Type 0} (index : MemoryIndex)
      → ◌≡◌ {A = Result Error MemoryIndex} (err (metadata_format last_updated_key)) (ok index)
      → A
  raised index h = cc h

  pub index-Fits :
      (collected : List FileEntry)
      → Fits 0 (ordered k collected) (index_of_rendered collected).entries
  unfolding index_of_rendered
  index-Fits collected = included-Fits 0 (ordered k collected) (omega arith)

  pub merged_index-eq_ok :
      (collected : List FileEntry) (index : MemoryIndex)
      → merged_index c k collected ≡ ok index
      → index_of_rendered collected ≡ index
  merged_index-eq_ok collected index h = elim (Bool-cases (all renders collected)) [
    | inl r ↦ same_index collected index (rw (merged_index-renders collected r) at h)
    | inr r ↦ raised index (rw (merged_index_raises collected r) at h)
  ]
