-- ===== src/Json.antt =====
-- JSON values, as `json.loads` builds them and `json.dumps` takes them.
use wenchang.Base.{ℕ, Bool, List, [], ◌∷◌, ◌≡◌, refl}
use wenchang.Text.{Str}
use wenchang.Dict.{Dict}

mutual
  pub data Json : Type 0 where
    string : Str → Json
    array : Items → Json
    object : Members → Json
    null : Json
    boolean : Bool → Json
    number : ℕ → Json
    -- A negative or fractional number.
    scalar : Json

  pub data Items : Type 0 where
    no_items : Items
    item : Json → Items → Items

  pub data Members : Type 0 where
    no_members : Members
    member : Str → Json → Members → Members

unfoldable pub values : Items → List Json
values no_items = []
values (item x xs) = x ∷ values xs

unfoldable pub items : List Json → Items
items [] = no_items
items (x ∷ xs) = item x (items xs)

-- The dict of an object; its keys are distinct.
unfoldable pub fields : Members → Dict Json
fields no_members = []
fields (member key x ms) = (key, x) ∷ fields ms

unfoldable pub members : Dict Json → Members
members [] = no_members
members ((key, x) ∷ d) = member key x (members d)

pub values-items : (xs : List Json) → values (items xs) ≡ xs
unfolding values items
values-items [] = refl
values-items (x ∷ xs) = rw (values-items xs) refl

fields-members : (d : Dict Json) → fields (members d) ≡ d
unfolding fields members
fields-members [] = refl
fields-members ((key, x) ∷ d) = rw (fields-members d) refl
