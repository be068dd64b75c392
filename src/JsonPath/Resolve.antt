-- ===== src/JsonPath/Resolve.antt =====
-- src/agentlen/domain/services/json_path.py: `iterate_path`, `source_path`, and the two ways in
-- which a parsed path is resolved in a document.
use agent_len.Base.{String, ◌<>◌, Bool, true, false, ◌&&◌, Option, none, some}
use agent_len.Base.{List, [], ◌∷◌, ◌++◌, Result, ok, err, ◌>>=◌, length, take, drop, contains}
use agent_len.Base.{◌==◌, string_eq, if◌then◌else◌}
use agent_len.Json.{Value, null, arr, obj, elements, get, is_null, kind, Kind}
use agent_len.JsonPath.{Segment, key, each, JsonPath, PathError, each_in_source, parse_path}

-- `segments and isinstance(segments[-1], Each)`
unfoldable pub ends_each : JsonPath → Bool
ends_each [] = false
ends_each (each ∷ []) = true
ends_each (key name ∷ []) = false
ends_each (s ∷ t ∷ path) = ends_each (t ∷ path)

unfoldable pub with_each : JsonPath → JsonPath
with_each path = if ends_each path then path else path ++ each ∷ []

unfoldable pub iterate_path : String → Result PathError JsonPath
unfolding with_each ends_each parse_path
iterate_path path = do segments ← parse_path path; ok (with_each segments)

abbrev pub segment_eq : Segment → Segment → Bool
segment_eq (key a) (key b) = a == b
segment_eq each each = true
segment_eq _ _ = false

abbrev pub path_eq : JsonPath → JsonPath → Bool
path_eq [] [] = true
path_eq (s ∷ p) (t ∷ q) = segment_eq s t && path_eq p q
path_eq _ _ = false

-- `segments` without the `iterate` prefix that it may repeat. An empty prefix is falsy.
unfoldable pub strip_prefix : Option JsonPath → JsonPath → JsonPath
strip_prefix none segments = segments
strip_prefix (some []) segments = segments
strip_prefix (some (s ∷ p)) segments =
    let prefix = s ∷ p in
    if path_eq (take (length prefix) segments) prefix
    then drop (length prefix) segments
    else segments

unfoldable pub has_each : JsonPath → Bool
has_each [] = false
has_each (each ∷ path) = true
has_each (key name ∷ path) = has_each path

unfoldable pub source_path : String → Option JsonPath → Result PathError JsonPath
unfolding strip_prefix has_each parse_path
source_path path iterate = do
  segments ← parse_path path
  let relative = strip_prefix iterate segments
  if has_each relative then err (record { path = path; reason = each_in_source }) else ok relative

-- `current.get(name)` on an object, `None` on any other value.
abbrev pub child : String → Value → Value
child name (obj ms) = get name ms
child name _ = null

unfoldable pub resolve : Value → JsonPath → Value
resolve document [] = document
resolve document (each ∷ path) = null
resolve document (key name ∷ path) = resolve (child name document) path

abbrev pub present : Value → List Value
present v = if is_null v then [] else v ∷ []

-- What one segment reaches from one value, `none` where the value has the wrong type.
unfoldable pub reach : Segment → Value → Option (List Value)
reach each (arr vs) = some (elements vs)
reach each _ = none
reach (key name) (obj ms) = some (present (get name ms))
reach (key name) _ = none

-- `_JSON_TYPES`, with the two other types that a value has.
abbrev pub describe : Kind → String
describe Kind.none_kind = "null"
describe Kind.bool_kind = "a boolean"
describe Kind.int_kind = "a number"
describe Kind.float_kind = "a number"
describe Kind.str_kind = "a string"
describe Kind.datetime_kind = "datetime"
describe Kind.list_kind = "a list"
describe Kind.dict_kind = "an object"

abbrev pub expected : Segment → String
expected each = "a list"
expected (key name) = "an object"

abbrev pub explanation : Segment → Value → String
explanation s v = describe (kind v) <> " where " <> expected s <> " was expected"

-- An ordered set of explanations.
abbrev pub add_once : List String → String → List String
add_once wrong e = if contains e wrong then wrong else wrong ++ e ∷ []

-- The inner loop: `found` and `wrong` after one segment.
unfoldable pub advance : Segment → List Value → List String → List Value × List String
advance s [] wrong = ([], wrong)
advance s (v ∷ current) wrong = elim (reach s v) [
  | some found ↦ let rest = advance s current wrong in (found ++ rest.0, rest.1)
  | none ↦ advance s current (add_once wrong (explanation s v))
]

unfoldable pub walk_rows : List Value → JsonPath → List String → List Value × List String
walk_rows current [] wrong = (current, wrong)
walk_rows current (s ∷ path) wrong =
    let step = advance s current wrong in walk_rows step.0 path step.1

-- The rows, and the explanations; the source joins these by `; `, and `None` is no explanation.
unfoldable pub resolve_rows : Value → JsonPath → List Value × List String
unfolding walk_rows advance reach
resolve_rows document path = walk_rows (document ∷ []) path []
