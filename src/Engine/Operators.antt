-- ===== src/Engine/Operators.antt =====
-- src/agentlen/domain/services/transformation_engine.py: the operators of a field rule.
-- `op` is the operator's dict; a missing parameter that the source reads by `op[...]` is a KeyError.
use text.Mathlib.Text.{find?}
use agent_len.Base.{
  ℕ, code, String, ◌<>◌, Bool, true, false, ◌&&◌, Option, none, some, List, [], ◌∷◌,
}
use agent_len.Base.{
  Result, ok, err, ◌>>=◌, ℤ, pos, ◌==◌, string_eq, nat_eq, contains, if◌then◌else◌,
}
use agent_len.Base.Dict.{lookup, insert}
use agent_len.Json.{Value, null, bool, int, float, str, datetime, arr, obj, end, elements, entries}
use agent_len.Json.{Object, is_null, or_null}
use agent_len.Python.{Python, Extractor, Moment, Exc, operator_failed, value_error, type_error}
use agent_len.Python.{overflow_error, os_error, key_error, other_error}

abbrev pub Run : Type 0 → Type 0
Run = Result Exc

-- `op[name]`
abbrev pub param : String → Object → Run Value
param name op = elim (lookup name op) [ none ↦ err key_error | some v ↦ ok v ]

-- `op.get(name, default)`
abbrev pub or_else : Option Value → Value → Value
or_else none v = v
or_else (some v) w = v

-- `v == text` for a text
abbrev pub is_text : Value → String → Bool
is_text (str s) t = s == t
is_text _ t = false

-- `str(v)` with methods called on it: any other type has no such attribute.
abbrev pub as_text : Value → Run String
as_text (str s) = ok s
as_text _ = err other_error

-- `isinstance(v, (int, float, str, bytes))`, where `bool` is an `int`.
abbrev pub is_scalar : Value → Bool
is_scalar (bool b) = true
is_scalar (int n) = true
is_scalar (float f) = true
is_scalar (str s) = true
is_scalar _ = false

-- `text.replace("Z", "+00:00")`
unfoldable pub replace_z : String → String
replace_z String.[] = String.[]
replace_z (String.◌∷◌ c s) =
    let rest = replace_z s in if code c == b'Z' then "+00:00" <> rest else String.◌∷◌ c rest

abbrev pub characters : String → List Value
characters String.[] = []
characters (String.◌∷◌ c s) = str (String.◌∷◌ c String.[]) ∷ characters s

abbrev pub keys : Object → List Value
keys [] = []
keys ((k, v) ∷ d) = str k ∷ keys d

-- What `for source in sources` goes through.
abbrev pub iterable : Value → Run (List Value)
iterable (arr vs) = ok (elements vs)
iterable (str s) = ok (characters s)
iterable (obj ms) = ok (keys (entries ms))
iterable _ = err type_error

-- The keys of `_FACTORS`; a factor `n` or `1 / n`.
pub data Factor : Type 0 where
  whole inverse : ℕ → Factor

unfoldable pub unit_factor : String → String → Option Factor
unit_factor from to =
    if from == "s" && to == "ms"
    then some (whole 1_000)
    else if from == "min" && to == "ms"
    then some (whole 60_000)
    else if from == "ns" && to == "ms"
    then some (inverse 1_000_000)
    else if from == "ms" && to == "s"
    then some (inverse 1_000)
    else if from == "kb" && to == "b"
    then some (whole 1_024)
    else if from == "mb" && to == "b"
    then some (whole 1_048_576)
    else none

-- `except (ValueError, TypeError)` of `_cast`.
abbrev pub cast_failure : Value → Exc → Run Value
cast_failure on_error value_error =
    if is_text on_error "null" then ok null else err (operator_failed "CAST_FAILED")
cast_failure on_error type_error =
    if is_text on_error "null" then ok null else err (operator_failed "CAST_FAILED")
cast_failure on_error e = err e

-- `except (ValueError, TypeError, OSError, OverflowError)` of `_parse_datetime`.
abbrev pub datetime_failure : Exc → Exc
datetime_failure value_error = operator_failed "DATETIME_PARSE_FAILED"
datetime_failure type_error = operator_failed "DATETIME_PARSE_FAILED"
datetime_failure os_error = operator_failed "DATETIME_PARSE_FAILED"
datetime_failure overflow_error = operator_failed "DATETIME_PARSE_FAILED"
datetime_failure e = e

abbrev pub recover : Run Value → (Exc → Run Value) → Run Value
recover (ok v) h = ok v
recover (err e) h = h e

-- `parsed if parsed.tzinfo is not None else parsed.replace(tzinfo=UTC)`
abbrev pub in_utc : Moment → Value
in_utc m = elim m.zone [ none ↦ datetime m.wall (some (pos 0)) | some z ↦ datetime m.wall (some z) ]

abbrev pub has_text : String → List Value → Bool
has_text k [] = false
has_text k (v ∷ vs) = if is_text v k then true else has_text k vs

-- Whether `key in table` and what `table[key]` then is.
abbrev pub table_entry : Value → String → Run (Option Value)
table_entry (obj ms) key = ok (lookup key (entries ms))
table_entry (arr vs) key = if has_text key (elements vs) then err type_error else ok none
table_entry (str s) key = elim (find? s key) [ none ↦ ok none | some i ↦ err type_error ]
table_entry _ key = err type_error

module _ (py : Python) where
  abbrev int_result : Run ℤ → Run Value
  int_result r = do n ← r; ok (int n)

  abbrev float_result : Run ℕ → Run Value
  float_result r = do f ← r; ok (float f)

  abbrev cast_boolean : Value → Run Value
  cast_boolean (bool b) = ok (bool b)
  cast_boolean v =
      let normalized = py.lower (py.strip (py.text v)) in
      if contains normalized ("true" ∷ "1" ∷ "yes" ∷ [])
      then ok (bool true)
      else if contains normalized ("false" ∷ "0" ∷ "no" ∷ [])
      then ok (bool false)
      else err value_error

  unfoldable pub cast_to : Value → Value → Run Value
  cast_to v to =
      if is_text to "string"
      then ok (str (py.text v))
      else if is_text to "integer"
      then (if is_scalar v then int_result (py.to_int v) else err value_error)
      else if is_text to "float"
      then (if is_scalar v then float_result (py.to_float v) else err value_error)
      else if is_text to "boolean"
      then cast_boolean v
      else err value_error

  -- `isinstance(value, str) and not value.strip()`
  unfoldable pub is_blank : Value → Bool
  is_blank (str s) = py.strip s == ""
  is_blank _ = false

  unfoldable pub cast : Value → Value → Value → Run Value
  unfolding cast_to is_blank
  cast v to on_error =
      if is_null v
      then ok null
      else if is_blank v
      then ok null
      else recover (cast_to v to) (cast_failure on_error)

  abbrev scale : ℕ → Factor → ℕ
  scale f (whole n) = py.times f n
  scale f (inverse n) = py.times_inverse f n

  abbrev in_unit : ℕ → String → Run Value
  in_unit converted unit =
      if contains unit ("ms" ∷ "b" ∷ [])
      then int_result (py.round converted)
      else ok (float converted)

  abbrev convert_by : Option Factor → String → Value → Run Value
  convert_by none unit v = err value_error
  convert_by (some factor) unit v =
      if is_scalar v then (do f ← py.to_float v; in_unit (scale f factor) unit) else err value_error

  unfoldable pub unit_convert : Value → Value → Value → Run Value
  unfolding unit_factor
  unit_convert v from to = if is_null v then ok null else do
    from_unit ← as_text from
    to_unit ← as_text to
    convert_by (unit_factor (py.lower from_unit) (py.lower to_unit)) (py.lower to_unit) v

  unfoldable pub map_values : Value → Object → Run Value
  map_values v op = do
    let key = if is_null v then "null" else py.text v
    let on_unknown = or_else (lookup "on_unknown" op) (str "passthrough")
    found ← table_entry (or_else (lookup "table" op) (obj end)) key
    elim found [
      | some mapped ↦ ok mapped
      | none ↦
          if is_text on_unknown "passthrough"
          then ok v
          else if is_text on_unknown "null"
          then ok null
          else if is_text on_unknown "constant"
          then ok (or_null (lookup "constant" op))
          else if is_text on_unknown "reject"
          then err value_error
          else ok v
    ]

  abbrev read_moment : Value → Value → Run Moment
  read_moment v format =
      if is_text format "iso8601"
      then py.from_iso (replace_z (py.text v))
      else if is_text format "unix_seconds"
      then (do f ← py.to_float v; py.from_timestamp f)
      else if is_text format "unix_millis"
      then (do f ← py.to_float v; py.from_timestamp (py.over f 1000))
      else elim format [ str pattern ↦ py.strptime (py.text v) pattern | _ ↦ err type_error ]

  unfoldable pub parse_datetime : Value → Value → Run Value
  unfolding replace_z
  parse_datetime v format =
      if is_null v
      then ok null
      else recover (do m ← read_moment v format; ok (in_utc m)) (λ e. err (datetime_failure e))

-- The rest of the operators also read other fields of the row, through `lookup`.
abbrev pub Lookup : Type 0
Lookup = String → Run Value

abbrev pub lookup_value : Lookup → Value → Run Value
lookup_value look (str path) = look path
lookup_value look _ = err other_error

unfoldable pub coalesce : Lookup → List Value → Run Value
coalesce look [] = ok null
coalesce look (source ∷ sources) =
    let rest = coalesce look sources in
    do v ← lookup_value look source; if is_null v then rest else ok v

-- `[str(v) for s in sources if (v := lookup(s)) is not None]`
unfoldable pub parts : (Value → String) → Lookup → List Value → Run (List String)
parts text look [] = ok []
parts text look (source ∷ sources) = do
  v ← lookup_value look source
  rest ← parts text look sources
  ok (if is_null v then rest else text v ∷ rest)

abbrev pub join : String → List String → String
join separator [] = ""
join separator (s ∷ []) = s
join separator (s ∷ t ∷ rest) = s <> separator <> join separator (t ∷ rest)

unfoldable pub concat : (Value → String) → Lookup → List Value → Value → Run Value
unfolding parts
concat text look sources separator = do
  texts ← parts text look sources
  elim texts [ [] ↦ ok null | t ∷ ts ↦ do sep ← as_text separator; ok (str (join sep (t ∷ ts))) ]

-- `{source: lookup(source) for source in sources}`
unfoldable pub resolved : Lookup → List Value → Object → Run Object
resolved look [] values = ok values
resolved look (str path ∷ sources) values = do
  v ← look path
  resolved look sources (insert path v values)
resolved look (_ ∷ sources) values = err other_error

abbrev pub all_null : Object → Bool
all_null [] = true
all_null ((k, v) ∷ d) = is_null v && all_null d

module _ (py : Python) where
  unfoldable pub hash : Lookup → Value → Value → Run Value
  unfolding resolved
  hash look sources algorithm =
      if is_text algorithm "sha256"
      then (do
        paths ← iterable sources
        values ← resolved look paths []
        ok (if all_null values then null else str (py.sha256 (py.dumps values))))
      else err value_error

  abbrev found_text : Option String → Value
  found_text none = null
  found_text (some s) = str s

  unfoldable pub regex_extract : Option Extractor → Value → Value → Value → Run Value
  regex_extract none v pattern group =
      if is_null v then ok null else err (operator_failed "REGEX_EXTRACTOR_NOT_CONFIGURED")
  regex_extract (some extract) v pattern group =
      if is_null v
      then ok null
      else do found ← extract (py.text v) pattern group; ok (found_text found)

  abbrev on_text : (String → String) → Value → Run Value
  on_text f v = ok (if is_null v then null else str (f (py.text v)))

  -- `match op_name`. What is no text, or no operator's name, is a ValueError.
  unfoldable pub apply_operator : Option Extractor → Object → Value → Lookup → Run Value
  apply_operator regex op v look =
      let name = or_null (lookup "op" op) in
      if is_text name "cast"
      then (do to ← param "to" op; cast py v to (or_else (lookup "on_error" op) (str "reject")))
      else if is_text name "default"
      then ok (if is_null v then or_null (lookup "value" op) else v)
      else if is_text name "trim"
      then on_text py.strip v
      else if is_text name "lower"
      then on_text py.lower v
      else if is_text name "upper"
      then on_text py.upper v
      else if is_text name "unit_convert"
      then (do from ← param "from" op; to ← param "to" op; unit_convert py v from to)
      else if is_text name "map_values"
      then map_values py v op
      else if is_text name "json_passthrough"
      then ok v
      else if is_text name "parse_datetime"
      then (do format ← param "format" op; parse_datetime py v format)
      else if is_text name "coalesce"
      then (do sources ← param "sources" op; paths ← iterable sources; coalesce look paths)
      else if is_text name "concat"
      then (do
        sources ← param "sources" op
        paths ← iterable sources
        concat py.text look paths (or_else (lookup "separator" op) (str "")))
      else if is_text name "hash"
      then (do
        sources ← param "sources" op
        hash look sources (or_else (lookup "algorithm" op) (str "sha256")))
      else if is_text name "regex_extract"
      then (do
        pattern ← param "pattern" op
        regex_extract regex v pattern (or_else (lookup "group" op) (int (pos 0))))
      else err value_error
