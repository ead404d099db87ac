-- ===== src/Prelude/Json.antt =====
-- The values that a provider's JSON output holds, as Python's `json` reads them. A float is
-- kept as its literal.
use wastech_orchestrator.Prelude.Int.{ℤ}
use Prim.Native.String.{String}
use mathlib.Core.Bool.{Bool}
use mathlib.Core.Option.{Option, none, some}
use mathlib.Core.List.{List, [], ◌∷◌}
use mathlib.Core.Path.{◌≡◌}
use native.Mathlib.Omega.{arith}
use package.text.Mathlib.TextEquality.{eq_iff}
use wastech_orchestrator.Prelude.Tests.{if◌then◌else◌}
use package.text.Mathlib.Text.{◌==◌ as str_eq}

mutual
  pub data Value : Type 0 where
    null : Value
    bool : Bool → Value
    int : ℤ → Value
    float : String → Value
    text : String → Value
    array : Items → Value
    object : Fields → Value

  pub data Items : Type 0 where
    nil : Items
    cons : Value → Items → Items

  pub data Fields : Type 0 where
    end : Fields
    field : String → Value → Fields → Fields

-- `d.get(key)`
unfoldable pub get_field : Fields → String → Option Value
get_field end key = none
get_field (field k v fields) key = if str_eq k key then some v else get_field fields key

-- `d[key] = value`: a key that is there keeps its place.
unfoldable pub put_field : Fields → String → Value → Fields
put_field end key value = field key value end
put_field (field k v fields) key value =
    let rest = put_field fields key value in
    if str_eq k key then field k value fields else field k v rest

-- The object without the key.
unfoldable pub drop_field : Fields → String → Fields
drop_field end key = end
drop_field (field k v fields) key =
    let rest = drop_field fields key in if str_eq k key then rest else field k v rest

pub get_field-put_field :
    (fields : Fields) (key j : String) (value : Value)
    → get_field (put_field fields key value) j
      ≡ (if str_eq key j then some value else get_field fields j)
unfolding get_field put_field
get_field-put_field end key j value = ground (arith, eq_iff key j)
get_field-put_field (field k v fields) key j value =
    ground (arith, eq_iff k key, eq_iff k j, eq_iff key j, get_field-put_field fields key j value)

pub get_field-drop_field :
    (fields : Fields) (key j : String)
    → get_field (drop_field fields key) j ≡ (if str_eq key j then none else get_field fields j)
unfolding get_field drop_field
get_field-drop_field end key j = ground (arith, eq_iff key j)
get_field-drop_field (field k v fields) key j =
    ground (arith, eq_iff k key, eq_iff k j, eq_iff key j, get_field-drop_field fields key j)

-- An array of texts, and a text or `null`.
unfoldable pub text_items : List String → Items
text_items [] = nil
text_items (s ∷ ss) = cons (text s) (text_items ss)

abbrev pub text_or_null : Option String → Value
text_or_null none = null
text_or_null (some s) = text s
