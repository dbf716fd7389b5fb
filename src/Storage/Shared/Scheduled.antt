-- ===== src/Storage/Shared/Scheduled.antt =====
-- The in-memory storage between other clients: before each call, the next of a schedule of their
-- calls is run.
pub mod Reach
pub mod Lawful
use wenchang.Base.{ℕ, Option, none, some, List, [], ◌∷◌}
use wenchang.Base.Result.{Result, ok, err}
use wenchang.Base.Exec.{Exec}
use wenchang.Text.{Str}
use wenchang.Utf8.{Bytes}
use wenchang.Dict.{Dict}
use wenchang.Errors.{Error, VersionToken}
use wenchang.Storage.{Backend}
use wenchang.Storage.Memory.{World, memory, put_if_version, delete_if_version}

-- A call of another client.
pub data Action : Type 0 where
  put : Str → Bytes → Dict Str → Option VersionToken → Action
  delete : Str → VersionToken → Action

pub act : Action → World → World
act (put key body metadata expected) w = (put_if_version key body metadata expected w).1
act (delete key expected) w = (delete_if_version key expected w).1

pub acts : List Action → World → World
unfolding act
acts [] w = w
acts (a ∷ more) w = acts more (act a w)

-- The storage, and what other clients do before each of the calls to come.
pub record Timeline : Type 0 where
  pub world : World
  pub schedule : List (List Action)

pub interrupted : List (List Action) → World → Timeline
unfolding acts
interrupted [] w = record { world = w; schedule = [] }
interrupted (todo ∷ schedule) w = record { world = acts todo w; schedule = schedule }

-- A call of the storage, behind the next actions of the schedule.
unfoldable pub between : {A : Type 0} → (World → A × World) → Timeline → A × Timeline
unfolding interrupted
between m l =
    let l' = interrupted l.schedule l.world in
    let (a, w) = m l'.world in (a, record l' { world = w })

unfoldable pub shared_memory : Backend
unfolding memory between
shared_memory = record {
  State = Timeline;
  get = λ key. between (memory.get key);
  put_if_version =
      λ key body metadata expected. between (memory.put_if_version key body metadata expected);
  delete_if_version = λ key expected. between (memory.delete_if_version key expected);
  list_page = λ prefix start_after limit. between (memory.list_page prefix start_after limit);
  now = between memory.now;
  uuid = between memory.uuid;
  cache_get = λ key. between (memory.cache_get key);
  cache_set = λ key value. between (memory.cache_set key value);
}
