-- ===== src/Storage/Shared/Scheduled/Reach.antt =====
-- What clients of the in-memory storage make of it, step by step: a token never stands for two
-- objects of a key.
use wenchang.Base.{
  ℕ, ◌≤◌, ◌<◌, Option, none, some, ◌≡◌, sym, ◌∙◌, arith, Bool-cases, inl, inr, if◌then◌else◌,
}
use wenchang.Text.{Str, str_eq}
use wenchang.Utf8.{Bytes}
use wenchang.Dict
use wenchang.Dict.{Dict}
use wenchang.Dict.Laws.{get-put, get-remove}
use wenchang.Errors.{VersionToken}
use wenchang.Storage.{StoredObject, current_version, same_token}
use wenchang.Storage.Memory.{World, decimal, put_locked, put_if_version, delete_if_version}
use wenchang.Storage.Memory.Decimal.{decimal_injective}
use wenchang.Storage.Memory.Lawful.{Sound, WasIssued, put-Sound, delete-Sound}

-- A step of some client: one of the calls that write, or one that leaves the objects alone.
pub data Step (w : World) (x : World) : Type 0 where
  puts :
      (key : Str) (body : Bytes) (metadata : Dict Str) (expected : Option VersionToken)
      → x ≡ (put_if_version key body metadata expected w).1
      → Step w x
  deletes :
      (key : Str) (expected : VersionToken) → x ≡ (delete_if_version key expected w).1 → Step w x
  idles : x.objects ≡ w.objects → x.next_token ≡ w.next_token → Step w x

pub data Reach (w : World) : World → Type 0 where
  here : Reach w w
  next : {x y : World} → Reach w x → Step x y → Reach w y

pub Reach-trans : {w x y : World} → Reach w x → Reach x y → Reach w y
Reach-trans p here = p
Reach-trans p (next q st) = next (Reach-trans p q) st

Step-Sound : {w x : World} → Step w x → Sound w → Sound x
Step-Sound {w} (puts key body metadata expected e) s =
    rw e (put-Sound key body metadata expected w s)
Step-Sound {w} (deletes key expected e) s = rw e (delete-Sound key expected w s)
Step-Sound {w} {x} (idles e n) s = record {
  unique = rw e s.unique;
  issued = λ key. rw (e, n) (s.issued key);
}

-- What a later state holds under a token of an earlier one is what the earlier one held.
pub record Kept (w x : World) : Type 0 where
  pub counter : w.next_token ≤ x.next_token
  pub same :
      (key : Str) (p : StoredObject) (n : ℕ)
      → Dict.get key x.objects ≡ some p
      → p.version ≡ decimal n
      → n < w.next_token
      → Dict.get key w.objects ≡ some p

put_locked-Kept :
    (key : Str) (body : Bytes) (metadata : Dict Str) (w x : World)
    → Kept w x
    → Kept w (put_locked key body metadata x).1
unfolding put_locked
put_locked-Kept key body metadata w x k =
    let o : StoredObject = record {
      body = body;
      metadata = metadata;
      version = decimal x.next_token;
    } in
    record {
      counter = omega (arith, k.counter);
      same = λ j p n found v below.
          let stored : (if str_eq j key then some o else Dict.get j x.objects) ≡ some p =
            sym (get-put j key o x.objects) ∙ found in
          elim (Bool-cases (str_eq j key)) [
            | inl e ↦
                let there : some o ≡ some p = rw e at stored in
                let version : decimal n ≡ decimal x.next_token = ground arith in
                let reused : n ≡ x.next_token = decimal_injective n x.next_token version in
                absurd (omega (arith, reused, below, k.counter))
            | inr e ↦ k.same j p n (rw e at stored) v below
          ];
    }

put-Kept :
    (key : Str) (body : Bytes) (metadata : Dict Str) (expected : Option VersionToken) (w x : World)
    → Kept w x
    → Kept w (put_if_version key body metadata expected x).1
unfolding put_if_version
put-Kept key body metadata expected w x k =
    elim (Bool-cases (same_token (current_version (Dict.get key x.objects)) expected)) [
      | inl e ↦ rw e (put_locked-Kept key body metadata w x k)
      | inr e ↦ rw e k
    ]

removed-Kept :
    (key : Str) (w x : World)
    → Sound x
    → Kept w x
    → Kept w (record x { objects = Dict.remove key x.objects })
removed-Kept key w x s k = record {
  counter = k.counter;
  same = λ j p n found v below.
      let left : (if str_eq j key then none else Dict.get j x.objects) ≡ some p =
        sym (get-remove j key x.objects s.unique) ∙ found in
      elim (Bool-cases (str_eq j key)) [
        | inl e ↦ cc (rw e at left)
        | inr e ↦ k.same j p n (rw e at left) v below
      ];
}

delete-Kept :
    (key : Str) (expected : VersionToken) (w x : World)
    → Sound x
    → Kept w x
    → Kept w (delete_if_version key expected x).1
unfolding delete_if_version
delete-Kept key expected w x s k =
    elim (Bool-cases (same_token (current_version (Dict.get key x.objects)) (some expected))) [
      | inl e ↦ rw e (removed-Kept key w x s k)
      | inr e ↦ rw e k
    ]

Step-Kept : {w x y : World} → Sound x → Kept w x → Step x y → Kept w y
Step-Kept {w} {x} s k (puts key body metadata expected e) =
    rw e (put-Kept key body metadata expected w x k)
Step-Kept {w} {x} s k (deletes key expected e) = rw e (delete-Kept key expected w x s k)
Step-Kept s k (idles e n) = record {
  counter = rw n k.counter;
  same = λ j p m found v below. k.same j p m (rw e at found) v below;
}

-- What holds along every run of clients from a sound state.
pub record Along (w x : World) : Type 0 where
  pub sound : Sound x
  pub kept : Kept w x

pub Reach-Along : {w x : World} → Sound w → Reach w x → Along w x
Reach-Along s here = record {
  sound = s;
  kept = record { counter = omega arith; same = λ j p n found v below. found };
}
Reach-Along s (next r st) =
    let a = Reach-Along s r in
    record { sound = Step-Sound st a.sound; kept = Step-Kept a.sound a.kept st }

-- From a sound state, whatever calls clients make, an object found under the token of an earlier
-- object of its key is that object.
pub Reach-frozen :
    {w x : World} (key : Str) (o p : StoredObject)
    → Sound w
    → Reach w x
    → Dict.get key w.objects ≡ some o
    → Dict.get key x.objects ≡ some p
    → p.version ≡ o.version
    → p ≡ o
Reach-frozen {w} {x} key o p s r before after token =
    let issued : WasIssued w.next_token (current_version (Dict.get key w.objects)) = s.issued key in
    let (n, below, spelled) : WasIssued w.next_token (some o.version) = rw before at issued in
    let earlier : Dict.get key w.objects ≡ some p =
      (Reach-Along s r).kept.same key p n after (token ∙ spelled) below in
    ground arith
