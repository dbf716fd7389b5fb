-- ===== src/Core/Listing/Drain.antt =====
-- `_drain` (src/wenchang/core.py) ends, and gives every entry under its prefix.
use wenchang.Base.{
  ℕ, zero, suc, ◌+◌, ◌<◌, true, false, Option, none, some, List, [], ◌++◌, ◌≡◌, refl, arith, ltb,
  length, take, drop, All, take-append-drop, length-append, Bool-cases, inl, inr,
}
use wenchang.Base.Result.{Result, ok, err}
use wenchang.Base.Exec.{Exec, pure, lift, resume, ◌>>=◌}
use wenchang.Text.{Str, starts_with}
use wenchang.Text.SortedSet.{IsSorted}
use wenchang.Utf8.{Bytes, encode}
use wenchang.Paths.{is_valid_prefix}
use wenchang.Errors.{Error}
use wenchang.FileFormat.Metadata.{Codec, IsBase64}
use wenchang.Storage.{Backend, ListedObject}
use wenchang.Storage.Contract.{Contract}
use wenchang.Core.{Config, FileEntry}
use wenchang.Core.Cursor.{last_key, entries_of, encode_cursor, encoded, start_of, next_of}
use wenchang.Core.Cursor.Pages.{
  behind, both_pages, behind-nil, behind-append, entries_of-append, decode_cursor-encode_cursor,
}
use wenchang.Core.Listing.{ListPage, list_prefix, drain, drain_from, after_page}
use wenchang.Core.Listing.Cap.{
  keys_of, Rest, next_Rest, last_key_of_longer, IsSorted-keep, keep_all, listed_under, under,
}
use wenchang.Core.Listing.Keys.{
  CanEncode, Resumes, All-drop, All-take, length-take-suc, take-take-suc, take_whole,
  length-take_le, last_key-Resumes, Resumes-keep,
}

-- The page of some entries and the next cursor.
abbrev page_of : Result Error (List FileEntry) → Result Error (Option Str) → Result Error ListPage
page_of (ok es) (ok next) = ok (record { entries = es; next_cursor = next })
page_of (ok es) (err e) = err e
page_of (err e) next = err e

module _ {S : Type 0} (s : S) where
  paged :
      (x : Result Error (List FileEntry)) (y : Result Error (Option Str))
      → (lift x >>= λ es. lift y >>= λ next. pure (record { entries = es; next_cursor = next })) s
        ≡ (page_of x y, s)
  unfolding ◌>>=◌
  paged (ok es) (ok next) = refl
  paged (ok es) (err e) = refl
  paged (err e) y = refl

  -- The last page, and a page with a cursor behind it.
  last_page :
      (after : ListPage → Exec Error S (List FileEntry)) (collected : List FileEntry)
      (x : Result Error (List FileEntry))
      → ((es : List FileEntry)
          → after (record { entries = es; next_cursor = none }) s ≡ (ok (collected ++ es), s))
      → resume after (page_of x (ok none), s) ≡ (behind collected x, s)
  last_page after collected (ok es) h = h es
  last_page after collected (err e) h = refl

  one_more_page :
      (after : ListPage → Exec Error S (List FileEntry)) (collected : List FileEntry) (cursor : Str)
      (x r : Result Error (List FileEntry))
      → ((es : List FileEntry)
          → after (record { entries = es; next_cursor = some cursor }) s
            ≡ (behind (collected ++ es) r, s))
      → resume after (page_of x (ok (some cursor)), s) ≡ (behind collected (both_pages x r), s)
  one_more_page after collected cursor (ok es) r h = rw (h es, behind-append collected es r) refl
  one_more_page after collected cursor (err e) r h = refl

next_of-last : (c : Codec) (o : Option Str) → next_of c false o ≡ ok none
unfolding next_of
next_of-last c none = refl
next_of-last c (some j) = refl

pages_whole :
    (c : Codec) (n : ℕ) (xs : List ListedObject)
    → both_pages (entries_of c (take n xs)) (entries_of c (drop n xs)) ≡ entries_of c xs
pages_whole c n xs = rw (← entries_of-append c (take n xs) (drop n xs), take-append-drop n xs) refl

next_of-more :
    (c : Codec) (j : Str) (bs : Bytes)
    → encode j ≡ some bs
    → next_of c true (some j) ≡ ok (some (c.b64encode bs))
unfolding next_of encode_cursor encoded
next_of-more c j bs h = rw h refl

start_of-encoded :
    (c : Codec) (prefix j : Str) (bs : Bytes)
    → IsBase64 c
    → encode j ≡ some bs
    → starts_with j prefix ≡ true
    → start_of c (some (c.b64encode bs)) prefix ≡ ok (some j)
unfolding start_of
start_of-encoded c prefix j bs law h u = rw (decode_cursor-encode_cursor c prefix j bs law h u) refl

module _ (B : Backend) (C : Contract B) (c : Codec) (k : Config) (s : B.State) (good : C.Good s)
    (prefix : Str) (law : IsBase64 c) (page : 0 < k.list_page_size)
    (valid : is_valid_prefix prefix ≡ true) where
  -- The page that follows a cursor.
  list_prefix-Rest :
      (start_after cursor : Option Str) (L : List ListedObject)
      → start_of c cursor prefix ≡ ok start_after
      → Rest B C c k s good prefix start_after L
      → list_prefix B c k prefix cursor s ≡ (
        page_of
            (entries_of c (take k.list_page_size L))
            (next_of c (ltb k.list_page_size (length L)) (last_key (take k.list_page_size L))),
        s,
      )
  unfolding list_prefix ◌>>=◌
  list_prefix-Rest start_after cursor L e r =
      let more : k.list_page_size + 1 ≡ suc k.list_page_size = omega arith in
      rw
        (
          valid,
          e,
          more,
          C.list_page-listing prefix start_after (suc k.list_page_size) s good,
          r.rest,
          length-take-suc k.list_page_size L,
          take-take-suc k.list_page_size L,
        )
        (paged s (entries_of c (take k.list_page_size L))
          (next_of c (ltb k.list_page_size (length L)) (last_key (take k.list_page_size L))))

  drain_from_lem :
      (rounds : ℕ) (start_after cursor : Option Str) (collected : List FileEntry)
      (L : List ListedObject)
      → IsSorted (keys_of (under B C c k s good prefix))
      → start_of c cursor prefix ≡ ok start_after
      → Rest B C c k s good prefix start_after L
      → All (Resumes prefix) L
      → length L < rounds
      → drain_from B c k rounds prefix collected cursor s ≡ (behind collected (entries_of c L), s)
  unfolding drain_from after_page ◌>>=◌
  drain_from_lem zero start_after cursor collected L sorted e r h l = elim l [ ]
  drain_from_lem (suc rounds) start_after cursor collected L sorted e r h l =
      let n = k.list_page_size in
      let p = take n L in
      let whole : p ++ drop n L ≡ L = take-append-drop n L in
      elim (Bool-cases (ltb n (length L))) [
        | inr last ↦
            let fits : take n L ≡ L = take_whole n L (ground arith) in
            rw (list_prefix-Rest start_after cursor L e r, last, fits, next_of-last c (last_key L))
              (last_page s _ collected (entries_of c L) λ es. refl)
        | inl more ↦
            let full : length p ≡ n = length-take_le n L (ground arith) in
            let (j, j_last) = last_key_of_longer p (omega (arith, full, page)) in
            let (bs, encodes, u) = last_key-Resumes prefix p j (All-take prefix n L h) j_last in
            let shorter : length (drop n L) < rounds =
              ground (arith, whole, length-append p (drop n L), full) in
            rw
              (
                ← pages_whole c n L,
                list_prefix-Rest start_after cursor L e r,
                more,
                j_last,
                next_of-more c j bs encodes,
              )
              (one_more_page s _ collected (c.b64encode bs) (entries_of c p)
                (entries_of c (drop n L))
                λ es.
                  drain_from_lem rounds (some j) (some (c.b64encode bs)) (collected ++ es)
                    (drop n L) sorted (start_of-encoded c prefix j bs law encodes u)
                    (next_Rest B C c k s good prefix start_after L n j sorted j_last r)
                    (All-drop prefix n L h) shorter)
      ]

  -- Over a backend that keeps its contract and answers every call, from a state that it reaches,
  -- with the round trip of base64, a page size above 0 and a valid prefix under which every key can
  -- be encoded, `_drain` ends, if its rounds exceed the objects under the prefix: it leaves the
  -- state, and returns the entry of each object under the prefix whose key is a memory path, in the
  -- order of their keys, or raises the error of the first whose metadata is malformed.
  pub drain_lem :
      (rounds : ℕ)
      → All CanEncode (listed_under B C s prefix)
      → length (listed_under B C s prefix) < rounds
      → drain B c k rounds prefix s ≡ (entries_of c (listed_under B C s prefix), s)
  unfolding drain
  drain_lem rounds h l = rw (← behind-nil (entries_of c (under B C c k s good prefix))) (
      drain_from_lem rounds none none [] (under B C c k s good prefix)
        (IsSorted-keep (λ o. starts_with o.key prefix) (C.listing s) (C.listing-IsSorted s good))
        (unfold start_of in refl)
        (record { pre = []; cut = refl; rest = keep_all (under B C c k s good prefix) })
        (Resumes-keep prefix (C.listing s) h) l)
