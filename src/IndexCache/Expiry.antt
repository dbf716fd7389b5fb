-- ===== src/IndexCache/Expiry.antt =====
-- What `InMemoryIndexCache` returns after a `set` (src/wenchang/index_cache.py).
use wenchang.Base.{
  ℕ, ◌+◌, ◌<◌, ◌≤◌, ◌⊎◌, ◌≢◌, Bool, true, false, Option, none, some, ◌≡◌, refl, arith, leb,
  if◌then◌else◌, Bool-cases, inl, inr,
}
use wenchang.Text.{Str, str_eq, str_eq_iff}
use wenchang.Dict
use wenchang.Dict.Laws.{get-put}
use wenchang.IndexCache.{CacheEntry, Entries, lookup, found, live, store, expiry, last_instant}

-- Whether an entry has expired.
abbrev is_expired : Option ℕ → ℕ → Bool
is_expired none now = false
is_expired (some expires_at) now = leb expires_at now

live_lem :
    (key : Str) (now : ℕ) (entries : Entries) (e : CacheEntry) (expires_at : Option ℕ)
    → (live key now entries e expires_at).0
      ≡ (if is_expired expires_at now then none else some e.value)
unfolding live
live_lem key now entries e none = refl
live_lem key now entries e (some t) = ground arith

found_alike :
    (key : Str) (now : ℕ) (entries entries' : Entries) (o : Option CacheEntry)
    → (found key now entries o).0 ≡ (found key now entries' o).0
unfolding found
found_alike key now entries entries' none = refl
found_alike key now entries entries' (some e) =
    rw (live_lem key now entries e e.expires_at, live_lem key now entries' e e.expires_at) refl

-- The value has no time to live, or its time is not over yet, or it would be over only past the last
-- `datetime`.
abbrev pub StillLives : Option ℕ → ℕ → ℕ → Type 0
StillLives none now later = Unit
StillLives (some ttl) now later = (later < now + ttl) ⊎ (last_instant < now + ttl)

-- Its time to live is over.
abbrev pub IsOver : Option ℕ → ℕ → ℕ → Type 0
IsOver none now later = ⊥
IsOver (some ttl) now later = (now + ttl ≤ later) × (now + ttl ≤ last_instant)

StillLives-expiry :
    (ttl : Option ℕ) (now later : ℕ)
    → StillLives ttl now later
    → is_expired (expiry ttl now) later ≡ false
unfolding expiry
StillLives-expiry none now later h = refl
StillLives-expiry (some ttl) now later (inl h) = ground arith
StillLives-expiry (some ttl) now later (inr h) = ground arith

IsOver-expiry :
    (ttl : Option ℕ) (now later : ℕ)
    → IsOver ttl now later
    → is_expired (expiry ttl now) later ≡ true
unfolding expiry
IsOver-expiry none now later h = absurd h
IsOver-expiry (some ttl) now later h = ground arith

stored_lem :
    (key value : Str) (ttl : Option ℕ) (now later : ℕ) (entries : Entries)
    → (lookup key later (store key value ttl now entries)).0
      ≡ (if is_expired (expiry ttl now) later then none else some value)
unfolding lookup store
stored_lem key value ttl now later entries =
    let new : CacheEntry = record { value = value; expires_at = expiry ttl now } in
    rw (get-put key key new entries, (str_eq_iff key key).1 refl)
      (unfold found in live_lem key later (Dict.put key new entries) new (expiry ttl now))

other_lem :
    (j key value : Str) (ttl : Option ℕ) (now later : ℕ) (entries : Entries)
    → j ≢ key
    → (lookup j later (store key value ttl now entries)).0 ≡ (lookup j later entries).0
unfolding lookup store
other_lem j key value ttl now later entries h =
    let new : CacheEntry = record { value = value; expires_at = expiry ttl now } in
    elim (Bool-cases (str_eq j key)) [
      | inl e ↦ absurd (h ((str_eq_iff j key).0 e))
      | inr e ↦
          rw (get-put j key new entries, e)
            (found_alike j later (Dict.put key new entries) entries (Dict.get j entries))
    ]

-- After a `set` of a key, a `get` of that key returns the value as long as it has no time to live,
-- or its time is not over, or would be over only past the last `datetime`, and nothing once its time
-- is over; a `get` of another key returns what it did before.
pub lookup-store :
    (j key value : Str) (ttl : Option ℕ) (now later : ℕ) (entries : Entries)
    → (StillLives ttl now later
        → (lookup key later (store key value ttl now entries)).0 ≡ some value)
      × (IsOver ttl now later → (lookup key later (store key value ttl now entries)).0 ≡ none)
      × (j ≢ key
          → (lookup j later (store key value ttl now entries)).0 ≡ (lookup j later entries).0)
lookup-store j key value ttl now later entries = (
  λ h. rw (stored_lem key value ttl now later entries, StillLives-expiry ttl now later h) refl,
  λ h. rw (stored_lem key value ttl now later entries, IsOver-expiry ttl now later h) refl,
  λ h. other_lem j key value ttl now later entries h,
)
