-- ===== src/Storage/Shared/Scheduled/Lawful.antt =====
-- The scheduled storage keeps the contract of a shared one.
use wenchang.Base.{
  true, false, Option, none, some, List, [], ◌∷◌, ◌≡◌, ◌≢◌, refl, ap, arith, Bool-cases, inl, inr,
}
use wenchang.Base.Result.{Result, ok, err}
use wenchang.Text.{Str}
use wenchang.Utf8.{Bytes}
use wenchang.Dict
use wenchang.Dict.{Dict}
use wenchang.Errors.{Error, VersionToken, precondition_failed}
use wenchang.Storage.{StoredObject, current_version, same_token}
use wenchang.Storage.Contract.{update}
use wenchang.Storage.Memory.{World, memory, put_if_version, delete_if_version, list_page}
use wenchang.Storage.Memory.Lawful.{Sound, put_if_version-matched, delete_matched}
use wenchang.Storage.Shared.{Shared, Acts, Moves}
use wenchang.Storage.Shared.Scheduled.{
  Action, put, delete, act, acts, Timeline, interrupted, between, shared_memory,
}
use wenchang.Storage.Shared.Scheduled.Reach.{
  Reach, here, next, puts, deletes, idles, Reach-trans, Reach-Along, Reach-frozen,
}

act-Reach : (a : Action) (w : World) → Reach w (act a w)
unfolding act
act-Reach (put key body metadata expected) w = next here (puts key body metadata expected refl)
act-Reach (delete key expected) w = next here (deletes key expected refl)

acts-Reach : (todo : List Action) (w : World) → Reach w (acts todo w)
unfolding acts
acts-Reach [] w = here
acts-Reach (a ∷ todo) w = Reach-trans (act-Reach a w) (acts-Reach todo (act a w))

pub interrupted-Reach :
    (schedule : List (List Action)) (w : World) → Reach w (interrupted schedule w).world
unfolding interrupted
interrupted-Reach [] w = here
interrupted-Reach (todo ∷ schedule) w = acts-Reach todo w

-- The steps between two moments.
abbrev pub Since : Timeline → Timeline → Type 0
Since l l' = Reach l.world l'.world

abbrev start_of : Timeline → Timeline
start_of l = interrupted l.schedule l.world

idle :
    (l : Timeline) (w : World)
    → w.objects ≡ (start_of l).world.objects
    → w.next_token ≡ (start_of l).world.next_token
    → Reach l.world w
idle l w e n = next (interrupted-Reach l.schedule l.world) (idles e n)

put_if_version-failed :
    (key : Str) (body : Bytes) (metadata : Dict Str) (expected : Option VersionToken) (w : World)
    → same_token (current_version (Dict.get key w.objects)) expected ≡ false
    → put_if_version key body metadata expected w ≡ (err (precondition_failed key), w)
unfolding put_if_version
put_if_version-failed key body metadata expected w h = rw h refl

module _ (key : Str) (l : Timeline) where
  abbrev found : Timeline → Option StoredObject
  found t = Dict.get key t.world.objects

  put_outcome :
      (body : Bytes) (metadata : Dict Str) (expected : Option VersionToken)
      → (x : Result Error VersionToken × World) → Reach l.world (start_of l).world
      → Reach (start_of l).world x.1
      → (same_token (current_version (found (start_of l))) expected ≡ true
          → (v : VersionToken) × (x.0 ≡ ok v)
            × (current_version (found (start_of l)) ≢ some v)
            × ((j : Str)
                → Dict.get j x.1.objects
                  ≡ update
                      (λ i. Dict.get i (start_of l).world.objects)
                      key
                      (some (record { body = body; metadata = metadata; version = v }))
                      j))
      → (same_token (current_version (found (start_of l))) expected ≡ false
          → x.0 ≡ err (precondition_failed key))
      → Acts Since
          (λ t t' v.
            (same_token (current_version (found t)) expected ≡ true)
            × ((j : Str)
                → Dict.get j t'.world.objects
                  ≡ update
                      (λ i. Dict.get i t.world.objects)
                      key
                      (some (record { body = body; metadata = metadata; version = v }))
                      j))
          l
          (x.0, record (start_of l) { world = x.1 })
  put_outcome body metadata expected (err e, w) before step hit miss = Reach-trans before step
  put_outcome body metadata expected (ok u, w) before step hit miss =
      elim (Bool-cases (same_token (current_version (found (start_of l))) expected)) [
        | inl e ↦
            let (v, r, fresh, views) = hit e in
            let same : u ≡ v = ground arith in
            rw same (start_of l, record (start_of l) { world = w }, before, step, here, (e, views))
        | inr e ↦ cc (miss e)
      ]

pub put-lem :
    (key : Str) (body : Bytes) (metadata : Dict Str) (expected : Option VersionToken) (l : Timeline)
    → Sound l.world
    → Acts Since
        (λ t t' v.
          (same_token (current_version (Dict.get key t.world.objects)) expected ≡ true)
          × ((j : Str)
              → Dict.get j t'.world.objects
                ≡ update
                    (λ i. Dict.get i t.world.objects)
                    key
                    (some (record { body = body; metadata = metadata; version = v }))
                    j))
        l
        (between (put_if_version key body metadata expected) l)
unfolding between
put-lem key body metadata expected l s =
    let w = (start_of l).world in
    let before = interrupted-Reach l.schedule l.world in
    let matched =
      put_if_version-matched key body metadata expected w (Reach-Along s before).sound in
    let step : Reach w (put_if_version key body metadata expected w).1 =
      next here (puts key body metadata expected refl) in
    put_outcome key l body metadata expected (put_if_version key body metadata expected w) before
      step matched
      (λ e.
        ap (λ (r : Result Error VersionToken × World). r.0)
          (put_if_version-failed key body metadata expected w e))

delete_if_version-failed :
    (key : Str) (expected : VersionToken) (w : World)
    → same_token (current_version (Dict.get key w.objects)) (some expected) ≡ false
    → delete_if_version key expected w ≡ (err (precondition_failed key), w)
unfolding delete_if_version
delete_if_version-failed key expected w h = rw h refl

module _ (key : Str) (expected : VersionToken) (l : Timeline) where
  abbrev Deletes : Timeline → Timeline → Unit {0} → Type 0
  Deletes t t' u =
      (same_token (current_version (Dict.get key t.world.objects)) (some expected) ≡ true)
      × ((j : Str)
          → Dict.get j t'.world.objects ≡ update (λ i. Dict.get i t.world.objects) key none j)

  pub delete_outcome :
      (x : Result Error (Unit {0}) × World)
      → Sound l.world
      → x ≡ delete_if_version key expected (start_of l).world
      → Acts Since Deletes l (x.0, record (start_of l) { world = x.1 })
  delete_outcome (err e, w) s eq =
      Reach-trans (interrupted-Reach l.schedule l.world)
        (next here (deletes key expected (ap (λ (r : Result Error (Unit {0}) × World). r.1) eq)))
  delete_outcome (ok u, w) s eq =
      let before = interrupted-Reach l.schedule l.world in
      let v = (start_of l).world in
      let out : w ≡ (delete_if_version key expected v).1 =
        ap (λ (r : Result Error (Unit {0}) × World). r.1) eq in
      elim (Bool-cases (same_token (current_version (Dict.get key v.objects)) (some expected))) [
        | inl e ↦
            let (_, views) = delete_matched key expected v (Reach-Along s before).sound e in
            (
              start_of l,
              record (start_of l) { world = w },
              before,
              next here (deletes key expected out),
              here,
              (e, λ j. rw out (views j)),
            )
        | inr e ↦ cc (eq, delete_if_version-failed key expected v e)
      ]

pub between_idle :
    {A : Type 0} (m : World → A × World) (l : Timeline)
    → ((w : World) → ((m w).1.objects ≡ w.objects) × ((m w).1.next_token ≡ w.next_token))
    → Moves Since l (between m l)
unfolding between
between_idle m l h = let (e, n) = h (start_of l).world in idle l (m (start_of l).world).1 e n

-- The contract of the in-memory storage between other clients.
unfoldable pub scheduled_contract : Shared shared_memory
unfolding shared_memory memory between list_page
scheduled_contract = record {
  view = λ l key. Dict.get key l.world.objects;
  Good = λ l. Sound l.world;
  Later = Since;
  Later-refl = λ l. here;
  Later-trans = λ l t u p q. Reach-trans p q;
  Later-Good = λ l t s r. (Reach-Along s r).sound;
  frozen = λ l t key o p s r before after token. Reach-frozen key o p s r before after token;
  get-Acts =
      λ key l s. (start_of l, start_of l, interrupted-Reach l.schedule l.world, here, here, refl);
  put-Acts = put-lem;
  delete-Acts = λ key expected l s.
      delete_outcome key expected l (delete_if_version key expected (start_of l).world) s refl;
  list_page-Moves = λ prefix start_after limit l s. interrupted-Reach l.schedule l.world;
  now-Moves = λ l s. between_idle memory.now l (λ w. (refl, refl));
  uuid-Moves = λ l s. between_idle memory.uuid l (λ w. (refl, refl));
  cache_set-Moves =
      λ key value l s. between_idle (memory.cache_set key value) l (λ w. (refl, refl));
}
