-- ===== src/Core/Operator/Export.antt =====
-- `export` (src/wenchang/core.py) ends, and gives every object of the entity.
use wenchang.Base.{
  ℕ, zero, suc, ◌<◌, true, Option, none, some, List, [], ◌∷◌, ◌++◌, ◌≡◌, refl, arith, ltb, length,
  take, drop, append_assoc, append-nil, take-append-drop, length-append, Bool-cases, inl, inr, Bool,
  All, ap, keep, map,
}
use wenchang.Base.Result.{ok}
use wenchang.Base.Exec.{pure, ◌>>=◌}
use wenchang.Text.{Str, str_eq_iff, starts_with}
use wenchang.Text.SortedSet.{IsSorted, member}
use wenchang.Paths.{is_valid_segment, build_prefix}
use wenchang.FileFormat.Metadata.{Codec}
use wenchang.Storage.{Backend, StoredObject, ListedObject}
use wenchang.Storage.Contract.{Contract}
use wenchang.Core.{Config}
use wenchang.Core.Listing.Cap.{
  keys_of, Rest, next_Rest, last_key_of_longer, IsSorted-keep, keep_all, take_short, listed_under,
  under,
}
use wenchang.Core.Operator.{ExportedObject, exported, export_page, export_from, export}

module _ (B : Backend) (C : Contract B) (k : Config) (s : B.State) where
  -- An exported object is what is stored at its key, under the prefix.
  abbrev pub IsStored : Str → ExportedObject → Type 0
  IsStored prefix x =
      (starts_with x.key prefix ≡ true)
      × (C.view s x.key
          ≡ some (record { body = x.body; metadata = x.metadata; version = x.version }))

  -- All the objects stored under the prefix, in the order of their keys.
  pub record Exported (prefix : Str) (objects : List ExportedObject) : Type 0 where
    pub sorted : IsSorted (map (λ x. x.key) objects)
    pub stored : All (IsStored prefix) objects
    pub complete :
        (key : Str) (o : StoredObject)
        → C.view s key ≡ some o
        → starts_with key prefix ≡ true
        → member key (map (λ x. x.key) objects) ≡ true

  -- The objects listed, each as it is stored.
  abbrev pub stored_of : List ListedObject → List ExportedObject
  stored_of [] = []
  stored_of (o ∷ os) = exported B k o.key (C.view s o.key) ++ stored_of os

  stored_of-append : (p q : List ListedObject) → stored_of (p ++ q) ≡ stored_of p ++ stored_of q
  stored_of-append [] q = refl
  stored_of-append (o ∷ p) q =
      rw
        (
          stored_of-append p q,
          append_assoc (exported B k o.key (C.view s o.key)) (stored_of p) (stored_of q),
        )
        refl

  export_page_lem :
      (page : List ListedObject) (out : List ExportedObject)
      → export_page B k page out s ≡ (ok (out ++ stored_of page), s)
  unfolding export_page ◌>>=◌ pure
  export_page_lem [] out = rw (append-nil out) refl
  export_page_lem (o ∷ page) out =
      rw (C.get-view o.key s, export_page_lem page (out ++ exported B k o.key (C.view s o.key)))
        (rw (append_assoc out (exported B k o.key (C.view s o.key)) (stored_of page)) refl)

  -- What the contract says of an object that is listed.
  abbrev IsHeld : ListedObject → Type 0
  IsHeld o =
      (p : StoredObject) × (C.view s o.key ≡ some p)
      × (p.metadata ≡ o.metadata)
      × (p.version ≡ o.version)

  keys-stored_of :
      (os : List ListedObject) → All IsHeld os → map (λ x. x.key) (stored_of os) ≡ keys_of os
  unfolding exported
  keys-stored_of [] h = refl
  keys-stored_of (o ∷ os) ((p, held, _, _), h) =
      rw held (ap (λ ks. o.key ∷ ks) (keys-stored_of os h))

  stored_of-IsStored :
      (prefix : Str) (os : List ListedObject)
      → All IsHeld os
      → All (IsStored prefix) (stored_of (keep (λ o. starts_with o.key prefix) os))
  unfolding exported
  stored_of-IsStored prefix [] h = tt
  stored_of-IsStored prefix (o ∷ os) ((p, held, _, _), h) =
      elim (Bool-cases (starts_with o.key prefix)) [
        | inl u ↦ rw (u, held) ((u, held), stored_of-IsStored prefix os h)
        | inr u ↦ rw u (stored_of-IsStored prefix os h)
      ]

  All-keep :
      (p : ListedObject → Bool) (os : List ListedObject) → All IsHeld os → All IsHeld (keep p os)
  All-keep p [] h = tt
  All-keep p (o ∷ os) h = ground (arith, All-keep p os h.1)

  member-keep :
      (prefix key : Str) (os : List ListedObject)
      → starts_with key prefix ≡ true
      → member key (keys_of os) ≡ true
      → member key (keys_of (keep (λ o. starts_with o.key prefix) os)) ≡ true
  unfolding member
  member-keep prefix key [] u h = h
  member-keep prefix key (o ∷ os) u h =
      ground (arith, member-keep prefix key os u, str_eq_iff key o.key)

  stored_of-Exported :
      C.Good s → (prefix : Str) → Exported prefix (stored_of (listed_under B C s prefix))
  stored_of-Exported good prefix =
      let keys =
        keys-stored_of (listed_under B C s prefix)
          (All-keep (λ o. starts_with o.key prefix) (C.listing s) (C.listing-view s good)) in
      record {
        sorted = rw keys (
            IsSorted-keep (λ o. starts_with o.key prefix) (C.listing s)
              (C.listing-IsSorted s good));
        stored = stored_of-IsStored prefix (C.listing s) (C.listing-view s good);
        complete = λ key o held u.
            rw keys (member-keep prefix key (C.listing s) u (C.view-listing key o s good held));
      }

  module _ (c : Codec) (good : C.Good s) (prefix : Str) (page : 0 < k.list_page_size) where
    export_from_lem :
        (rounds : ℕ) (start_after : Option Str) (out : List ExportedObject) (L : List ListedObject)
        → IsSorted (keys_of (under B C c k s good prefix))
        → Rest B C c k s good prefix start_after L
        → length L < rounds
        → export_from B k rounds prefix start_after out s ≡ (ok (out ++ stored_of L), s)
    unfolding export_from ◌>>=◌ pure
    export_from_lem zero start_after out L sorted r h = elim h [ ]
    export_from_lem (suc rounds) start_after out L sorted r h =
        let n = k.list_page_size in
        let p = take n L in
        let whole : p ++ drop n L ≡ L = take-append-drop n L in
        elim (Bool-cases (ltb (length p) n)) [
          | inl last ↦
              let all_of_it : p ≡ L = take_short n L (ground arith) in
              rw
                (
                  C.list_page-listing prefix start_after n s good,
                  r.rest,
                  export_page_lem p out,
                  last,
                  all_of_it,
                )
                refl
          | inr more ↦
              let (j, j_last) = last_key_of_longer p (ground arith) in
              let shorter : length (drop n L) < rounds =
                ground (arith, whole, length-append p (drop n L)) in
              let joined : (out ++ stored_of p) ++ stored_of (drop n L) ≡ out ++ stored_of L =
                rw
                  (
                    append_assoc out (stored_of p) (stored_of (drop n L)),
                    ← stored_of-append p (drop n L),
                    whole,
                  )
                  refl in
              rw
                (
                  C.list_page-listing prefix start_after n s good,
                  r.rest,
                  export_page_lem p out,
                  more,
                  j_last,
                )
                (rw
                  (
                    export_from_lem rounds (some j) (out ++ stored_of p) (drop n L) sorted
                        (next_Rest B C c k s good prefix start_after L n j sorted j_last r) shorter,
                    joined,
                  )
                  refl)
        ]

    export-stored_of :
        (rounds : ℕ) (scope entity_id : Str)
        → is_valid_segment scope ≡ true
        → is_valid_segment entity_id ≡ true
        → build_prefix scope (some entity_id) none ≡ some prefix
        → length (listed_under B C s prefix) < rounds
        → export B k rounds scope entity_id s ≡ (ok (stored_of (listed_under B C s prefix)), s)
    unfolding export ◌>>=◌
    export-stored_of rounds scope entity_id v w built h =
        rw (v, w, built)
          (export_from_lem rounds none [] (under B C c k s good prefix)
            (IsSorted-keep (λ o. starts_with o.key prefix) (C.listing s)
              (C.listing-IsSorted s good))
            (record { pre = []; cut = refl; rest = keep_all (under B C c k s good prefix) }) h)

    -- Over a backend that keeps its contract and answers every call, from a state that it reaches,
    -- with a page size above 0: an `export` of a valid scope and entity ends, if its rounds exceed
    -- the objects of the entity. It leaves the state, and returns every object stored under the
    -- entity's prefix and nothing else, in the order of the keys, each with the body, the metadata
    -- and the version that are stored.
    pub export_lem :
        (rounds : ℕ) (scope entity_id : Str)
        → is_valid_segment scope ≡ true
        → is_valid_segment entity_id ≡ true
        → build_prefix scope (some entity_id) none ≡ some prefix
        → length (listed_under B C s prefix) < rounds
        → (objects : List ExportedObject) × (export B k rounds scope entity_id s ≡ (ok objects, s))
          × Exported prefix objects
    export_lem rounds scope entity_id v w built h = (
      stored_of (listed_under B C s prefix),
      export-stored_of rounds scope entity_id v w built h,
      stored_of-Exported good prefix,
    )
