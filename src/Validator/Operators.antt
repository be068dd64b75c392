-- ===== src/Validator/Operators.antt =====
-- src/agentlen/domain/services/mapping_validator.py: the parameters of the operators. A check gives
-- the parameters that it objects to. Python's `in` on a set hashes its left side, and a list or an
-- object cannot be hashed: that is a TypeError.
use text.Mathlib.Text.{find?}
use agent_len.Base.{
  ℕ, zero, suc, String, Bool, true, false, not, ◌&&◌, ◌||◌, Option, none, some, List, [],
}
use agent_len.Base.{◌∷◌, ◌++◌, ok, err, ◌>>=◌, pos, ltb, ◌==◌, string_eq, contains}
use agent_len.Base.{if◌then◌else◌}
use agent_len.Base.Dict.{Dict, lookup}
use agent_len.Json.{Value, int, str, arr, obj, nil, item, elements, Object, is_null, or_null}
use agent_len.Python.{Python, type_error}
use agent_len.Engine.Operators.{Run, is_text}

-- `value in {...}` for a set of texts.
abbrev pub in_set : Value → List String → Run Bool
in_set (str s) allowed = ok (contains s allowed)
in_set (arr vs) allowed = err type_error
in_set (obj ms) allowed = err type_error
in_set _ allowed = ok false

abbrev pub has_param : String → Object → Bool
has_param name [] = false
has_param name ((k, v) ∷ op) = k == name || has_param name op

-- `op.get(name)`
abbrev pub get_param : String → Object → Value
get_param name op = or_null (lookup name op)

abbrev pub Check : Type 0
Check = Object → Run (List String)

unfoldable pub choice : String → List String → Check
choice name allowed op =
    let v = get_param name op in
    if is_null v then ok [] else do known ← in_set v allowed; ok (if known then [] else name ∷ [])

abbrev pub is_str : Value → Bool
is_str (str s) = true
is_str _ = false

abbrev pub all_str : List Value → Bool
all_str [] = true
all_str (v ∷ vs) = is_str v && all_str vs

-- `isinstance(sources, list) and sources and all(isinstance(v, str) for v in sources)`
abbrev pub is_path_list : Value → Bool
is_path_list (arr nil) = false
is_path_list (arr (item v vs)) = is_str v && all_str (elements vs)
is_path_list _ = false

unfoldable pub sources : Check
sources op =
    let v = get_param "sources" op in
    ok (if is_null v then [] else if is_path_list v then [] else "sources" ∷ [])

unfoldable pub concat : Check
unfolding sources
concat op = do
  wrong ← sources op
  let separator = get_param "separator" op
  ok (if is_null separator || is_str separator then wrong else wrong ++ "separator" ∷ [])

-- Non-empty text.
abbrev pub nonempty_text : Value → Option String
nonempty_text (str String.[]) = none
nonempty_text (str (String.◌∷◌ c s)) = some (String.◌∷◌ c s)
nonempty_text _ = none

abbrev pub supported_units : List (String × String)
supported_units =
    ("s", "ms") ∷ ("min", "ms") ∷ ("ns", "ms") ∷ ("ms", "s") ∷ ("kb", "b") ∷ ("mb", "b") ∷ []

abbrev pub supported : String → String → List (String × String) → Bool
supported from to [] = false
supported from to ((a, b) ∷ units) = (from == a && to == b) || supported from to units

-- `not isinstance(v, int) or isinstance(v, bool)` fails, and the integer is not negative.
abbrev pub natural : Value → Option ℕ
natural (int (pos n)) = some n
natural _ = none

abbrev pub re2_unsupported : List String
re2_unsupported = "(?=" ∷ "(?!" ∷ "(?<=" ∷ "(?<!" ∷ "\\1" ∷ "\\2" ∷ "\\3" ∷ []

abbrev pub any_inside : String → List String → Bool
any_inside pattern [] = false
any_inside pattern (token ∷ tokens) = elim (find? pattern token) [
  | some i ↦ true
  | none ↦ any_inside pattern tokens
]

module _ (py : Python) where
  abbrev format_errors : String → List String
  format_errors format =
      if contains format ("iso8601" ∷ "unix_seconds" ∷ "unix_millis" ∷ [])
      then []
      else if py.bad_format format
      then "format" ∷ []
      else []

  unfoldable pub parse_datetime_format : Check
  parse_datetime_format op =
      let v = get_param "format" op in
      let timezone = get_param "timezone" op in
      if is_null v
      then ok []
      else ok (elim (nonempty_text v) [
        | none ↦ "format" ∷ []
        | some format ↦
            format_errors format
            ++ (if is_null timezone || is_text timezone "UTC" then [] else "timezone" ∷ [])
      ])

  abbrev unit_errors : Value → Value → List String
  unit_errors (str from) (str to) =
      if supported (py.lower from) (py.lower to) supported_units then [] else "to" ∷ []
  unit_errors from to = "from" ∷ []

  unfoldable pub unit_conversion : Check
  unit_conversion op =
      let from = get_param "from" op in
      let to = get_param "to" op in
      ok (if is_null from || is_null to then [] else unit_errors from to)

  -- What `_regex` says of the pattern, and the groups of a pattern that compiles.
  abbrev pattern_errors : Value → List String × Option ℕ
  pattern_errors v = if is_null v then ([], none) else elim (nonempty_text v) [
    | none ↦ ("pattern" ∷ [], none)
    | some pattern ↦
        let unsupported = if any_inside pattern re2_unsupported then "pattern" ∷ [] else [] in
        elim (py.regex_groups pattern) [
          | none ↦ ("pattern" ∷ unsupported, none)
          | some groups ↦ (unsupported, some groups)
        ]
  ]

  abbrev group_errors : Option ℕ → Option ℕ → List String
  group_errors none groups = "group" ∷ []
  group_errors (some group) none = []
  group_errors (some group) (some groups) = if ltb groups group then "group" ∷ [] else []

  abbrev default_group : Option Value → Value
  default_group none = int (pos 0)
  default_group (some v) = v

  unfoldable pub regex : Check
  regex op =
      let p = pattern_errors (get_param "pattern" op) in
      ok (p.0 ++ group_errors (natural (default_group (lookup "group" op))) p.1)

abbrev pub is_object : Value → List String
is_object (obj ms) = []
is_object _ = "table" ∷ []

unfoldable pub map_values : Check
map_values op = do
  let table = get_param "table" op
  let mode = get_param "on_unknown" op
  known ←
      (if is_null mode
        then ok true
        else in_set mode ("passthrough" ∷ "null" ∷ "reject" ∷ "constant" ∷ []))
  ok (
      (if is_null table then [] else is_object table)
      ++ (if known then [] else "on_unknown" ∷ [])
      ++ (if is_text mode "constant" && not (has_param "constant" op) then "constant" ∷ [] else []))

abbrev pub is_positive : Option ℕ → Bool
is_positive none = false
is_positive (some zero) = false
is_positive (some (suc n)) = true

unfoldable pub positive_max_bytes : Check
positive_max_bytes op =
    let v = get_param "max_bytes" op in
    ok (if is_null v then [] else if is_positive (natural v) then [] else "max_bytes" ∷ [])

-- `OperatorSpec`, its names in alphabetical order.
pub record OperatorSpec : Type 0 where
  pub required : List String
  pub optional : List String
  pub check : Check

abbrev pub no_check : Check
no_check op = ok []

abbrev pub both : Check → Check → Check
both f g op = do a ← f op; b ← g op; ok (a ++ b)

abbrev spec : List String → List String → Check → OperatorSpec
spec required optional check = record { required = required; optional = optional; check = check }

module _ (py : Python) where
  -- `OPERATOR_SPECS`, whose keys are `OPERATOR_WHITELIST`.
  unfoldable pub operator_specs : Dict String OperatorSpec
  operator_specs =
      (
        "cast",
        spec ("to" ∷ []) ("on_error" ∷ []) (
            both (choice "to" ("string" ∷ "integer" ∷ "float" ∷ "boolean" ∷ []))
              (choice "on_error" ("reject" ∷ "null" ∷ []))),
      )
      ∷ ("parse_datetime", spec ("format" ∷ []) ("timezone" ∷ []) (parse_datetime_format py))
      ∷ ("default", spec ("value" ∷ []) [] no_check)
      ∷ ("coalesce", spec ("sources" ∷ []) [] sources)
      ∷ ("unit_convert", spec ("from" ∷ "to" ∷ []) [] (unit_conversion py))
      ∷ ("map_values", spec ("on_unknown" ∷ "table" ∷ []) ("constant" ∷ []) map_values)
      ∷ ("trim", spec [] [] no_check)
      ∷ ("lower", spec [] [] no_check)
      ∷ ("upper", spec [] [] no_check)
      ∷ ("regex_extract", spec ("pattern" ∷ []) ("group" ∷ []) (regex py))
      ∷ ("concat", spec ("sources" ∷ []) ("separator" ∷ []) concat)
      ∷ (
        "hash",
        spec ("algorithm" ∷ "sources" ∷ []) [] (both sources (choice "algorithm" ("sha256" ∷ []))),
      )
      ∷ ("json_passthrough", spec [] ("max_bytes" ∷ []) positive_max_bytes)
      ∷ []
