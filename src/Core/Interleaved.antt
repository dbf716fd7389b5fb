-- ===== src/Core/Interleaved.antt =====
-- Rules for the operations of src/wenchang/core.py while other clients act: what an operation that
-- returns has seen and has written, at which moments.
pub mod Commit
pub mod Edit
pub mod Write
pub mod Delete
use wenchang.Base.{ℕ, Bool, true, false, Option, none, some, List, ◌≡◌, refl, sym, if◌then◌else◌}
use wenchang.Base.Result.{Result, ok, err}
use wenchang.Base.Exec.{Exec, pure, raise, lift, ensure, demand, resume, ◌>>=◌, ◌>>◌}
use wenchang.Text.{Str}
use wenchang.Errors.{Error}
use wenchang.FileFormat.Metadata.{Datetime}
use wenchang.Storage.{Backend, StoredObject, ListedObject}
use wenchang.Storage.Shared.{Shared, Acts, Moves}

module _ (B : Backend) (C : Shared B) where
  -- What is left of a call: `Q` of the value that it returned, or a later state.
  abbrev pub After :
      {A : Type 0} → B.State → (A → B.State → Type 0) → Result Error A × B.State → Type 0
  After s Q (ok a, u) = C.Later s u × Q a u
  After s Q (err e, u) = C.Later s u

  -- From any state later than `s`, which the backend reaches.
  pub record Runs {A : Type 0} (s : B.State) (m : Exec Error B.State A) (Q : A → B.State → Type 0)
      : Type 0 where
    pub at : (t : B.State) → C.Good t → C.Later s t → After t Q (m t)

  -- A call of which only the end is known.
  abbrev pub Calm : {A : Type 0} → B.State → Exec Error B.State A → Type 0
  Calm s m = Runs s m (λ _ _. Unit)

  -- What is known at the end of a call, from what is known between its two halves.
  pub later_After :
      {A : Type 0} (Q : A → B.State → Type 0) (t u : B.State) (x : Result Error A × B.State)
      → C.Later t u
      → After u Q x
      → After t Q x
  later_After Q t u (ok a, v) l (m, q) = (C.Later-trans t u v l m, q)
  later_After Q t u (err e, v) l m = C.Later-trans t u v l m

  module _ {A : Type 0} {s : B.State} {Q : A → B.State → Type 0} where
    pub Runs-raise : (e : Error) → Runs s (raise e) Q
    unfolding raise
    Runs-raise e = record { at = λ t g l. C.Later-refl t }

    pub Runs-pure : (a : A) → ((t : B.State) → C.Later s t → Q a t) → Runs s (pure a) Q
    unfolding pure
    Runs-pure a q = record { at = λ t g l. (C.Later-refl t, q t l) }

    pub Runs-ensure :
        (b : Bool) (e : Error) (m : Exec Error B.State A)
        → (b ≡ true → Runs s m Q)
        → Runs s (ensure b e >> m) Q
    unfolding ◌>>=◌
    Runs-ensure true e m h = record { at = λ t g l. (h refl).at t g l }
    Runs-ensure false e m h = record { at = λ t g l. C.Later-refl t }

    pub Runs-if :
        (b : Bool) (m n : Exec Error B.State A)
        → (b ≡ true → Runs s m Q)
        → (b ≡ false → Runs s n Q)
        → Runs s (if b then m else n) Q
    Runs-if true m n h k = h refl
    Runs-if false m n h k = k refl

  After-map :
      {A : Type 0} {P Q : A → B.State → Type 0} (t : B.State) (x : Result Error A × B.State)
      → ((a : A) (u : B.State) → P a u → Q a u)
      → After t P x
      → After t Q x
  After-map t (ok a, u) h (l, p) = (l, h a u p)
  After-map t (err e, u) h l = l

  pub Runs-weaken :
      {A : Type 0} {P Q : A → B.State → Type 0} {s : B.State} (m : Exec Error B.State A)
      → ((a : A) (u : B.State) → P a u → Q a u)
      → Runs s m P
      → Runs s m Q
  Runs-weaken m h r = record { at = λ t g l. After-map t (m t) h (r.at t g l) }

  -- What runs from a state runs from a later one.
  pub Runs-later :
      {A : Type 0} {s : B.State} (t : B.State) (m : Exec Error B.State A) (Q : A → B.State → Type 0)
      → C.Later s t
      → Runs s m Q
      → Runs t m Q
  Runs-later {s} t m Q l r = record { at = λ u g l'. r.at u g (C.Later-trans s t u l l') }

  module _ {A R : Type 0} {s : B.State} {Q : A → B.State → Type 0} where
    pub Runs-lift :
        (r : Result Error R) (f : R → Exec Error B.State A)
        → ((a : R) → r ≡ ok a → Runs s (f a) Q)
        → Runs s (lift r >>= f) Q
    unfolding ◌>>=◌
    Runs-lift (ok a) f h = record { at = λ t g l. (h a refl).at t g l }
    Runs-lift (err e) f h = record { at = λ t g l. C.Later-refl t }

    pub Runs-demand :
        (o : Option R) (e : Error) (f : R → Exec Error B.State A)
        → ((a : R) → o ≡ some a → Runs s (f a) Q)
        → Runs s (demand o e >>= f) Q
    unfolding ◌>>=◌
    Runs-demand (some a) e f h = record { at = λ t g l. (h a refl).at t g l }
    Runs-demand none e f h = record { at = λ t g l. C.Later-refl t }

    resumed :
        {P : R → B.State → Type 0} (t : B.State) (x : Result Error R × B.State)
        (f : R → Exec Error B.State A)
        → C.Good t
        → C.Later s t
        → After t P x
        → ((a : R) (u : B.State) → C.Later s u → P a u → Runs u (f a) Q)
        → After t Q (resume f x)
    resumed t (ok a, u) f g l (m, p) h =
        let good = C.Later-Good t u g m in
        later_After Q t u (f a u) m ((h a u (C.Later-trans s t u l m) p).at u good (C.Later-refl u))
    resumed t (err e, u) f g l m h = m

    -- One call and what follows.
    pub Runs-bind :
        {P : R → B.State → Type 0} (m : Exec Error B.State R) (f : R → Exec Error B.State A)
        → Runs s m P
        → ((a : R) (u : B.State) → C.Later s u → P a u → Runs u (f a) Q)
        → Runs s (m >>= f) Q
    unfolding ◌>>=◌
    Runs-bind m f r h = record { at = λ t g l. resumed t (m t) f g l (r.at t g l) h }

  moved :
      {A : Type 0} (t : B.State) (x : Result Error A × B.State)
      → Moves C.Later t x
      → After t (λ _ _. Unit) x
  moved t (ok a, u) m = (m, tt)
  moved t (err e, u) m = m

  pub Runs-now : (s : B.State) → Calm s B.now
  Runs-now s = record { at = λ t g l. moved t (B.now t) (C.now-Moves t g) }

  pub Runs-list_page :
      (prefix : Str) (start_after : Option Str) (limit : ℕ) (s : B.State)
      → Calm s (B.list_page prefix start_after limit)
  Runs-list_page prefix start_after limit s = record {
    at = λ t g l.
        moved t (B.list_page prefix start_after limit t)
          (C.list_page-Moves prefix start_after limit t g);
  }

  -- The object that a `get` returned stood at the key at some moment.
  pub record Seen (s : B.State) (key : Str) (o : Option StoredObject) (u : B.State) : Type 0 where
    pub moment : B.State
    pub from : C.Later s moment
    pub to : C.Later moment u
    pub good : C.Good moment
    pub holds : C.view moment key ≡ o

  pub Seen-to :
      (s t u : B.State) {key : Str} {o : Option StoredObject}
      → C.Later t u
      → Seen s key o t
      → Seen s key o u
  Seen-to s t u l r = record {
    moment = r.moment;
    from = r.from;
    to = C.Later-trans r.moment t u r.to l;
    good = r.good;
    holds = r.holds;
  }

  pub Seen-from :
      (s t u : B.State) {key : Str} {o : Option StoredObject}
      → C.Later s t
      → Seen t key o u
      → Seen s key o u
  Seen-from s t u l r = record {
    moment = r.moment;
    from = C.Later-trans s t r.moment l r.from;
    to = r.to;
    good = r.good;
    holds = r.holds;
  }

  seen :
      (s t : B.State) (key : Str) (x : Result Error (Option StoredObject) × B.State)
      → C.Good t
      → C.Later s t
      → Acts C.Later (λ m m' o. o ≡ C.view m key) t x
      → After t (λ o u. Seen s key o u) x
  seen s t key (ok o, u) g l (m, m', before, at, after, e) =
      let from_m = C.Later-trans m m' u at after in
      (
        C.Later-trans t m u before from_m,
        record {
          moment = m;
          from = C.Later-trans s t m l before;
          to = from_m;
          good = C.Later-Good t m g before;
          holds = sym e;
        },
      )
  seen s t key (err e, u) g l m = m

  pub Runs-get : (key : Str) (s : B.State) → Runs s (B.get key) (λ o u. Seen s key o u)
  Runs-get key s = record { at = λ t g l. seen s t key (B.get key t) g l (C.get-Acts key t g) }
