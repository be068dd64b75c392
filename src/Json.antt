-- ===== src/Json.antt =====
-- The Python values that a parsed record, an operator's parameter or a converted field holds
-- (`object` and `dict[str, Any]` in src/agentlen/domain): JSON, and the datetimes that
-- `parse_datetime` makes. A float is its 64-bit pattern, a datetime its wall-clock microseconds
-- with the offset of its zone, `none` for a naive one.
use agent_len.Base.{ℕ, String, Bool, false, ◌==◌, Option, none, some, List, [], ◌∷◌, ℤ}
use agent_len.Base.{string_eq, if◌then◌else◌}
use agent_len.Base.Dict.{Dict}

mutual
  pub data Value : Type 0 where
    null : Value
    bool : Bool → Value
    int : ℤ → Value
    float : ℕ → Value
    str : String → Value
    datetime : ℕ → Option ℤ → Value
    arr : Items → Value
    obj : Members → Value

  pub data Items : Type 0 where
    nil : Items
    item : Value → Items → Items

  pub data Members : Type 0 where
    end : Members
    member : String → Value → Members → Members

abbrev pub elements : Items → List Value
elements nil = []
elements (item v vs) = v ∷ elements vs

-- A `dict[str, Any]`: an operator, an entity's data, a raw record.
abbrev pub Object : Type 0
Object = Dict String Value

abbrev pub entries : Members → Object
entries end = []
entries (member k v ms) = (k, v) ∷ entries ms

-- `d.get(name)`, where Python's `None` and an absent key are the same `null`.
abbrev pub get : String → Members → Value
get name end = null
get name (member k v ms) = if k == name then v else get name ms

-- `value is None`
abbrev pub is_null : Value → Bool
is_null null = Bool.true
is_null _ = false

-- `type(value).__name__`, as far as the code tells types apart.
pub data Kind : Type 0 where
  none_kind bool_kind int_kind float_kind str_kind datetime_kind list_kind dict_kind : Kind

abbrev pub kind : Value → Kind
kind null = none_kind
kind (bool b) = bool_kind
kind (int n) = int_kind
kind (float f) = float_kind
kind (str s) = str_kind
kind (datetime t z) = datetime_kind
kind (arr vs) = list_kind
kind (obj ms) = dict_kind

abbrev pub or_null : Option Value → Value
or_null none = null
or_null (some v) = v
