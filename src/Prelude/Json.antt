-- ===== src/Prelude/Json.antt =====
-- A decoded JSON value, as encoding/json gives it to an `any`. The keys of an object are distinct.
use subport.Prelude.{String, Bool, [], if◌then◌else◌}
use subport.Prelude.Int.{ℤ}
use subport.Prelude.Text.{Text, text_eq, codes}

mutual
  pub data Json : Type 0 where
    null : Json
    bool : Bool → Json
    number : ℤ → Json
    str : Text → Json
    arr : Items → Json
    obj : Fields → Json

  pub data Items : Type 0 where
    nil : Items
    cons : Json → Items → Items

  pub data Fields : Type 0 where
    end : Fields
    field : Text → Json → Fields → Fields

-- m[k]; a key that is not there reads as nil.
unfoldable pub get_field : Text → Fields → Json
unfolding text_eq
get_field k end = null
get_field k (field j v rest) = let later = get_field k rest in if text_eq j k then v else later

-- v.(map[string]any) and m[k]
unfoldable pub member : String → Json → Json
unfolding get_field
member k (obj fs) = get_field (codes k) fs
member k _ = null

-- v, _ := v.(string)
abbrev pub text_of : Json → Text
text_of (str s) = s
text_of _ = []
