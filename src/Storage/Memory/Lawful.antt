-- ===== src/Storage/Memory/Lawful.antt =====
-- The in-memory storage keeps the contract that the core relies on.
use wenchang.Base.{
  ℕ, ◌+◌, ◌<◌, Bool, true, false, Option, none, some, List, [], ◌∷◌, ◌≡◌, ◌≢◌, refl, arith, keep,
  take, Bool-cases, ◌∙◌, ◌⊎◌, inl, inr, if◌then◌else◌,
}
use wenchang.Base.Result.{Result, ok, err}
use wenchang.Text.{Str, str_eq, str_eq_iff, starts_with}
use wenchang.Utf8.{Bytes}
use wenchang.Dict
use wenchang.Dict.{Dict}
use wenchang.Dict.Laws.{NodupKeys, NodupKeys-put, NodupKeys-remove, get-put, get-remove}
use wenchang.Errors.{Error, VersionToken, precondition_failed}
use wenchang.FileFormat.Metadata.{is_renderable}
use wenchang.Storage.{StoredObject, current_version, same_token}
use wenchang.Storage.Contract.{Contract, is_after, update}
use wenchang.Storage.Memory.{
  World, reading, memory, decimal, put_locked, put_if_version, delete_if_version, list_page, sort,
  list_keys,
}
use wenchang.Storage.Memory.Decimal.{decimal_injective}
use wenchang.Storage.Memory.Pages.{
  list_keys-IsListed, member-sort, member-keys, map-list_keys, IsSorted-sort, Held, Held-sort,
  Held-keep, sort-keep, list_keys-keep, take-list_keys,
}

-- The token is one that the counter has passed.
abbrev pub WasIssued : ℕ → Option VersionToken → Type 0
WasIssued next none = Unit
WasIssued next (some v) = (n : ℕ) × (n < next) × (v ≡ decimal n)

pub record Sound (w : World) : Type 0 where
  pub unique : NodupKeys w.objects
  pub issued : (key : Str) → WasIssued w.next_token (current_version (Dict.get key w.objects))

WasIssued-later : (m : ℕ) (v : Option VersionToken) → WasIssued m v → WasIssued (m + 1) v
WasIssued-later m none h = tt
WasIssued-later m (some v) (n, below, e) = (n, omega arith, e)

fresh : (m : ℕ) (v : Option VersionToken) → WasIssued m v → v ≢ some (decimal m)
fresh m none h e = cc
fresh m (some v) (n, below, spelled) e = let same : n ≡ m = decimal_injective n m cc in omega arith

Held-put :
    (d : Dict StoredObject) (j : Str) (o : StoredObject) (ks : List Str)
    → Held d ks
    → Held ((j, o) ∷ d) ks
unfolding Dict.get
Held-put d j o [] h = tt
Held-put d j o (k ∷ ks) h = ground (arith, Held-put d j o ks h.1)

pub Held-keys : (d : Dict StoredObject) → Held d (Dict.keys d)
unfolding Dict.get Dict.keys
Held-keys [] = tt
Held-keys ((j, o) ∷ d) =
    (ground (arith, str_eq_iff j j), Held-put d j o (Dict.keys d) (Held-keys d))

WasIssued-if :
    (m : ℕ) (b : Bool) (u v : Option StoredObject)
    → WasIssued m (current_version u)
    → WasIssued m (current_version v)
    → WasIssued m (current_version (if b then u else v))
WasIssued-if m true u v h k = h
WasIssued-if m false u v h k = k

module _ (w : World) (s : Sound w) where
  pub put_locked-Sound :
      (key : Str) (body : Bytes) (metadata : Dict Str) → Sound (put_locked key body metadata w).1
  unfolding put_locked
  put_locked-Sound key body metadata =
      let o : StoredObject = record {
        body = body;
        metadata = metadata;
        version = decimal w.next_token;
      } in
      record {
        unique = NodupKeys-put key o w.objects s.unique;
        issued = λ j. rw (get-put j key o w.objects) (
            WasIssued-if (w.next_token + 1) (str_eq j key) (some o) (Dict.get j w.objects)
              (w.next_token, omega arith, refl)
              (WasIssued-later w.next_token (current_version (Dict.get j w.objects)) (s.issued j)));
      }

  removed-Sound : (key : Str) → Sound (record w { objects = Dict.remove key w.objects })
  removed-Sound key = record {
    unique = NodupKeys-remove key w.objects s.unique;
    issued = λ j.
        rw (get-remove j key w.objects s.unique)
          (WasIssued-if w.next_token (str_eq j key) none (Dict.get j w.objects) tt (s.issued j));
  }

-- A conditional put, stored or refused, keeps one object for a key, each under a token that the
-- counter has passed.
pub put-Sound :
    (key : Str) (body : Bytes) (metadata : Dict Str) (expected : Option VersionToken) (w : World)
    → Sound w
    → Sound (put_if_version key body metadata expected w).1
unfolding put_if_version
put-Sound key body metadata expected w s =
    elim (Bool-cases (same_token (current_version (Dict.get key w.objects)) expected)) [
      | inl e ↦ rw e (put_locked-Sound w s key body metadata)
      | inr e ↦ rw e s
    ]

-- A conditional delete, done or refused, keeps one object for a key, each under a token that the
-- counter has passed.
pub delete-Sound :
    (key : Str) (expected : VersionToken) (w : World)
    → Sound w
    → Sound (delete_if_version key expected w).1
unfolding delete_if_version
delete-Sound key expected w s =
    elim (Bool-cases (same_token (current_version (Dict.get key w.objects)) (some expected))) [
      | inl e ↦ rw e (removed-Sound w s key)
      | inr e ↦ rw e s
    ]

-- A page is the first objects, as many as the limit, behind the start key, among those under the
-- prefix, of one listing in the order of the keys.
pub list_page-cut :
    (prefix : Str) (start_after : Option Str) (limit : ℕ) (w : World)
    → list_page prefix start_after limit w ≡ (
      ok (
          take limit (
            keep
              (λ o. is_after start_after o.key)
              (keep
                (λ o. starts_with o.key prefix)
                (list_keys w.objects (sort (Dict.keys w.objects)))))),
      w,
    )
unfolding list_page
list_page-cut prefix start_after limit w =
    let d = w.objects in
    let ks = sort (Dict.keys d) in
    let held : Held d ks = Held-sort d (Dict.keys d) (Held-keys d) in
    let held_under = Held-keep d (λ key. starts_with key prefix) ks held in
    rw
      (
        list_keys-keep d (λ key. starts_with key prefix) ks held,
        list_keys-keep d (is_after start_after) (keep (λ key. starts_with key prefix) ks)
            held_under,
        take-list_keys d limit
            (keep (is_after start_after) (keep (λ key. starts_with key prefix) ks))
            (Held-keep d (is_after start_after) (keep (λ key. starts_with key prefix) ks)
              held_under),
        sort-keep (λ key. starts_with key prefix) (Dict.keys d),
      )
      refl

-- In a state with one object for a key, under tokens that the counter has passed, a conditional
-- put at the current version, or where no object is expected and none is stored, stores the object
-- under a token that differs from the version it replaces, and changes no other key.
pub put_if_version-matched :
    (key : Str) (body : Bytes) (metadata : Dict Str) (expected : Option VersionToken) (w : World)
    → Sound w
    → same_token (current_version (Dict.get key w.objects)) expected ≡ true
    → (v : VersionToken) × ((put_if_version key body metadata expected w).0 ≡ ok v)
      × (current_version (Dict.get key w.objects) ≢ some v)
      × ((j : Str)
          → Dict.get j (put_if_version key body metadata expected w).1.objects
            ≡ update
                (λ i. Dict.get i w.objects)
                key
                (some (record { body = body; metadata = metadata; version = v }))
                j)
unfolding put_if_version put_locked
put_if_version-matched key body metadata expected w s h = rw h (
  decimal w.next_token,
  refl,
  fresh w.next_token (current_version (Dict.get key w.objects)) (s.issued key),
  λ j.
      get-put j key (record { body = body; metadata = metadata; version = decimal w.next_token })
        w.objects,
)

-- What a conditional delete did: at the current version it has removed that object and no other, and
-- otherwise it was refused and has changed nothing.
abbrev pub DeleteOutcome : Str → VersionToken → World → Result Error (Unit {0}) × World → Type 0
DeleteOutcome key expected w (r, t) =
    ((o : StoredObject) × (Dict.get key w.objects ≡ some o)
      × (o.version ≡ expected)
      × (r ≡ ok tt)
      × (Dict.get key t.objects ≡ none)
      × ((j : Str) → j ≢ key → Dict.get j t.objects ≡ Dict.get j w.objects))
    ⊎ (((o : StoredObject) → Dict.get key w.objects ≡ some o → o.version ≢ expected)
        × (r ≡ err (precondition_failed key))
        × (t ≡ w))

pub delete_matched :
    (key : Str) (expected : VersionToken) (w : World)
    → Sound w
    → same_token (current_version (Dict.get key w.objects)) (some expected) ≡ true
    → ((delete_if_version key expected w).0 ≡ ok tt)
      × ((j : Str)
          → Dict.get j (delete_if_version key expected w).1.objects
            ≡ update (λ i. Dict.get i w.objects) key none j)
unfolding delete_if_version
delete_matched key expected w s h = rw h (refl, λ j. get-remove j key w.objects s.unique)

token_holder :
    (x : Option StoredObject) (v : VersionToken)
    → same_token (current_version x) (some v) ≡ true
    → (o : StoredObject) × (x ≡ some o) × (o.version ≡ v)
token_holder none v h = cc h
token_holder (some o) v h = (o, refl, (str_eq_iff _ _).0 h)

-- In a state with one object for a key, under tokens that the counter has passed, a conditional
-- delete of a key whose object is at the version given removes that object and no other; of any
-- other key it is refused, and changes nothing.
pub delete_if_version_lem :
    (key : Str) (expected : VersionToken) (w : World)
    → Sound w
    → DeleteOutcome key expected w (delete_if_version key expected w)
unfolding delete_if_version
delete_if_version_lem key expected w s =
    elim (Bool-cases (same_token (current_version (Dict.get key w.objects)) (some expected))) [
      | inl e ↦
          let (o, held, version) = token_holder (Dict.get key w.objects) expected e in
          rw e (
            inl (
              o,
              held,
              version,
              refl,
              rw (get-remove key key w.objects s.unique, (str_eq_iff key key).1 refl) refl,
              λ j other. get-remove j key w.objects s.unique ∙ unlike j other,
            ))
      | inr e ↦ rw e (inr (λ o held version. differs o held version e, refl, refl))
    ]
  where
    unlike :
        (j : Str)
        → j ≢ key
        → (if str_eq j key then none else Dict.get j w.objects) ≡ Dict.get j w.objects
    unlike j other = ground (arith, str_eq_iff j key)

    differs :
        (o : StoredObject)
        → Dict.get key w.objects ≡ some o
        → o.version ≡ expected
        → same_token (current_version (Dict.get key w.objects)) (some expected) ≡ false
        → ⊥
    differs o held version e =
        let same : same_token (current_version (some o)) (some expected) ≡ true =
          (str_eq_iff _ _).1 version in
        let other : same_token (current_version (some o)) (some expected) ≡ false = rw held at e in
        cc (same, other)

pub reading_renderable : (ticks : ℕ) → is_renderable (reading ticks) ≡ true
reading_renderable ticks = ground arith

-- The contract of `InMemoryStorage`: its objects are the dict's, in the order of the sorted keys.
unfoldable pub memory_contract : Contract memory
unfolding memory put_if_version delete_if_version
memory_contract = record {
  view = λ w key. Dict.get key w.objects;
  Good = Sound;
  get-view = λ key w. refl;
  put_matched = put_if_version-matched;
  put_failed = λ key body metadata expected w h. rw h refl;
  put-Good = put-Sound;
  delete_matched = delete_matched;
  delete_failed = λ key expected w h. rw h refl;
  delete-Good = delete-Sound;
  listing = λ w. list_keys w.objects (sort (Dict.keys w.objects));
  listing-IsSorted = λ w s.
      rw
        (map-list_keys w.objects (sort (Dict.keys w.objects))
          (Held-sort w.objects (Dict.keys w.objects) (Held-keys w.objects)))
        (IsSorted-sort (Dict.keys w.objects));
  listing-view = λ w s. list_keys-IsListed w.objects (sort (Dict.keys w.objects));
  view-listing = λ key p w s h.
      rw
        (
          map-list_keys w.objects (sort (Dict.keys w.objects))
              (Held-sort w.objects (Dict.keys w.objects) (Held-keys w.objects)),
          member-sort key (Dict.keys w.objects),
        )
        (member-keys key p w.objects h);
  list_page-listing = λ prefix start_after limit w s. list_page-cut prefix start_after limit w;
  now_aware = λ w.
      (record { micros = reading w.clock; aware = true }, refl, refl, reading_renderable w.clock);
  view-now = λ w j. refl;
  now-Good = λ w s. record { unique = s.unique; issued = s.issued };
  view-uuid = λ w j. refl;
  uuid-Good = λ w s. record { unique = s.unique; issued = s.issued };
  view-cache_set = λ key value w j. refl;
  cache_set-Good = λ key value w s. record { unique = s.unique; issued = s.issued };
}
