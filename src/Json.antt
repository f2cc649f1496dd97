-- ===== src/Json.antt =====
-- Values of `json.loads`, and the look-ups that the handlers make in an object.
use venture_capital_lead_res.Prelude.{
  ℕ, String, Bool, true, false, Option, none, some, List, [], ◌∷◌, str_eq, if◌then◌else◌,
}

-- `negsuc n` is -(n + 1).
pub data ℤ : Type 0 where
  pos : ℕ → ℤ
  negsuc : ℕ → ℤ

-- A `float` literal, or what `Decimal(text)` gives. `finite z` is z units of a decimal place that
-- the user of the type fixes.
pub data Decimal : Type 0 where
  finite : ℤ → Decimal
  nan infinite : Decimal

-- The fields of an object have different names: `_unique_json_object` refuses a repeated one.
mutual
  pub data Json : Type 0 where
    null : Json
    boolean : Bool → Json
    int : ℤ → Json
    float : Decimal → Json
    str : String → Json
    arr : Items → Json
    obj : Fields → Json

  pub data Items : Type 0 where
    nil : Items
    cons : Json → Items → Items

  pub data Fields : Type 0 where
    end : Fields
    field : String → Json → Fields → Fields

unfoldable pub get_field : String → Fields → Option Json
get_field key end = none
get_field key (field k v rest) = if str_eq k key then some v else get_field key rest

-- `container.get(key)`, which gives None where the key is absent.
unfoldable pub get : String → Fields → Json
unfolding get_field
get key fields = elim (get_field key fields) [ some v ↦ v | none ↦ null ]

unfoldable pub field_names : Fields → List String
field_names end = []
field_names (field k v rest) = k ∷ field_names rest

pub items_list : Items → List Json
items_list nil = []
items_list (cons x xs) = x ∷ items_list xs

abbrev pub is_null : Json → Bool
is_null null = true
is_null _ = false

abbrev pub is_boolean : Json → Bool
is_boolean (boolean _) = true
is_boolean _ = false

-- An argument of argparse: a text or None.
abbrev pub argument : Option String → Json
argument none = null
argument (some s) = str s
