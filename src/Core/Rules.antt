-- ===== src/Core/Rules.antt =====
-- Rules for the steps of an operation over a backend that meets its contract: one rule for each
-- way to build an operation, for the objects that a call leaves and the value that it returns.
use wenchang.Base.{
  ℕ, Bool, true, false, Option, none, some, List, ◌≡◌, refl, ◌∙◌, arith, if◌then◌else◌,
}
use wenchang.Base.Result.{Result, ok, err}
use wenchang.Base.Exec.{Exec, pure, raise, lift, ensure, demand, resume, ◌>>=◌, ◌>>◌}
use wenchang.Text.{Str}
use wenchang.Errors.{Error}
use wenchang.FileFormat.Metadata.{Datetime}
use wenchang.Storage.{Backend, StoredObject, ListedObject}
use wenchang.Storage.Contract.{Contract}

module _ (B : Backend) (C : Contract B) (s₀ : B.State) where
  -- A state with the objects of `s₀`.
  pub record Same (s : B.State) : Type 0 where
    pub good : C.Good s
    pub views : (j : Str) → C.view s j ≡ C.view s₀ j

  -- What a call leaves: `Q` of the value that it returns, the objects of `s₀` if it raises.
  abbrev pub Holds : {A : Type 0} → (A → B.State → Type 0) → Result Error A × B.State → Type 0
  Holds Q (ok a, s) = Q a s
  Holds Q (err e, s) = Same s

  -- From the objects of `s₀`.
  pub record Leaves {A : Type 0} (m : Exec Error B.State A) (Q : A → B.State → Type 0)
      : Type 0 where
    pub at : (s : B.State) → Same s → Holds Q (m s)

  -- A call that writes nothing.
  abbrev pub Quiet : {A : Type 0} → Exec Error B.State A → Type 0
  Quiet m = Leaves m (λ _ s. Same s)

  module _ {A : Type 0} {Q : A → B.State → Type 0} where
    pub Leaves-raise : (e : Error) → Leaves (raise e) Q
    unfolding raise
    Leaves-raise e = record { at = λ s h. h }

    pub Leaves-pure : (a : A) → ((s : B.State) → Same s → Q a s) → Leaves (pure a) Q
    unfolding pure
    Leaves-pure a q = record { at = q }

    pub Leaves-ensure :
        (b : Bool) (e : Error) (m : Exec Error B.State A)
        → (b ≡ true → Leaves m Q)
        → Leaves (ensure b e >> m) Q
    unfolding ◌>>=◌
    Leaves-ensure true e m h = record { at = λ s k. (h refl).at s k }
    Leaves-ensure false e m h = record { at = λ s k. k }

    pub Leaves-if :
        (b : Bool) (m n : Exec Error B.State A)
        → (b ≡ true → Leaves m Q)
        → (b ≡ false → Leaves n Q)
        → Leaves (if b then m else n) Q
    Leaves-if true m n h k = h refl
    Leaves-if false m n h k = k refl

  module _ {A R : Type 0} {Q : A → B.State → Type 0} where
    pub Leaves-lift :
        (r : Result Error R) (f : R → Exec Error B.State A)
        → ((a : R) → r ≡ ok a → Leaves (f a) Q)
        → Leaves (lift r >>= f) Q
    unfolding ◌>>=◌
    Leaves-lift (ok a) f h = record { at = λ s k. (h a refl).at s k }
    Leaves-lift (err e) f h = record { at = λ s k. k }

    pub Leaves-demand :
        (o : Option R) (e : Error) (f : R → Exec Error B.State A)
        → ((a : R) → o ≡ some a → Leaves (f a) Q)
        → Leaves (demand o e >>= f) Q
    unfolding ◌>>=◌
    Leaves-demand (some a) e f h = record { at = λ s k. (h a refl).at s k }
    Leaves-demand none e f h = record { at = λ s k. k }

    resumed :
        (x : Result Error R × B.State) (f : R → Exec Error B.State A)
        → Holds (λ _ s. Same s) x
        → ((a : R) → Leaves (f a) Q)
        → Holds Q (resume f x)
    resumed (ok a, s) f h k = (k a).at s h
    resumed (err e, s) f h k = h

    resumed_with :
        {P : R → Type 0} (x : Result Error R × B.State) (f : R → Exec Error B.State A)
        → Holds (λ a s. P a × Same s) x
        → ((a : R) → P a → Leaves (f a) Q)
        → Holds Q (resume f x)
    resumed_with (ok a, s) f h k = (k a h.0).at s h.1
    resumed_with (err e, s) f h k = h

    -- A call that writes nothing, and what it ensures of the value that it returns.
    pub Leaves-bind_with :
        {P : R → Type 0} (m : Exec Error B.State R) (f : R → Exec Error B.State A)
        → Leaves m (λ a s. P a × Same s)
        → ((a : R) → P a → Leaves (f a) Q)
        → Leaves (m >>= f) Q
    unfolding ◌>>=◌
    Leaves-bind_with m f h k = record { at = λ s same. resumed_with (m s) f (h.at s same) k }

    -- A call that writes nothing, and what follows whatever it returned.
    pub Leaves-bind :
        (m : Exec Error B.State R) (f : R → Exec Error B.State A)
        → Quiet m
        → ((a : R) → Leaves (f a) Q)
        → Leaves (m >>= f) Q
    unfolding ◌>>=◌
    Leaves-bind m f h k = record { at = λ s same. resumed (m s) f (h.at s same) k }

  module _ {A : Type 0} {Q : A → B.State → Type 0} where
    -- A `get` finds the object of `s₀`.
    pub Leaves-get :
        (key : Str) (f : Option StoredObject → Exec Error B.State A)
        → Leaves (f (C.view s₀ key)) Q
        → Leaves (B.get key >>= f) Q
    unfolding ◌>>=◌
    Leaves-get key f h = record {
      at = λ s same. rw (C.get-view key s) (rw (same.views key) (h.at s same));
    }

    nowed :
        (x : Result Error Datetime × B.State) (t : Datetime) (f : Datetime → Exec Error B.State A)
        → x.0 ≡ ok t
        → Same x.1
        → Leaves (f t) Q
        → Holds Q (resume f x)
    nowed (ok u, s) t f e same h = let u≡t : u ≡ t = ground arith in rw u≡t (h.at s same)
    nowed (err u, s) t f e same h = cc e

    pub Leaves-now :
        (f : Datetime → Exec Error B.State A)
        → ((t : Datetime) → t.aware ≡ true → Leaves (f t) Q)
        → Leaves (B.now >>= f) Q
    unfolding ◌>>=◌
    Leaves-now f h = record {
      at = λ s same.
          let (t, e, a, _) = C.now_aware s in
          nowed (B.now s) t f e
            (record { good = C.now-Good s same.good; views = λ j. C.view-now s j ∙ same.views j })
            (h t a);
    }

    pub Leaves-list_page :
        (prefix : Str) (start_after : Option Str) (limit : ℕ)
        (f : List ListedObject → Exec Error B.State A)
        → ((objs : List ListedObject) → Leaves (f objs) Q)
        → Leaves (B.list_page prefix start_after limit >>= f) Q
    unfolding ◌>>=◌
    Leaves-list_page prefix start_after limit f h = record {
      at =
          λ s same. rw (C.list_page-listing prefix start_after limit s same.good) ((h _).at s same);
    }
