-- ===== src/Validator.antt =====
-- src/agentlen/domain/services/mapping_validator.py: a mapping document against the schema, the path
-- notation and the operators. An error keeps its code and its place.
pub mod Operators
pub mod Accepted
pub mod Raises
use Prim.Native.Nat.{Ordering}
use Prim.Native.String.{compare}
use agent_len.Base.{
  ℕ, suc, String, Bool, true, false, not, ◌&&◌, ◌||◌, Option, none, some, List, [],
}
use agent_len.Base.{
  ◌∷◌, ◌++◌, map, Result, ok, err, ◌>>=◌, ◌==◌, string_eq, contains, if◌then◌else◌,
}
use agent_len.Base.Dict.{Dict, lookup}
use agent_len.Json.{Value, null, str, arr, elements, Object}
use agent_len.JsonPath.{JsonPath, PathError}
use agent_len.JsonPath.Resolve.{iterate_path, source_path}
use agent_len.Mapping.{FieldRule, EntityMapping, Mapping, TargetType, target_field_types, truthy}
use agent_len.Python.{Python}
use agent_len.Engine.Operators.{Run}
use Operators.{OperatorSpec, operator_specs, in_set, has_param, get_param}

-- The codes of src/agentlen/domain/errors.py that the validator uses.
pub data Code : Type 0 where
  unknown_operator unknown_target missing_natural_key invalid_natural_key : Code
  missing_sequence_index unsupported_path invalid_operator_param : Code

-- `entities[target=…].fields[target=…].operators[…].…`, part by part.
pub data Part : Type 0 where
  entity_part field_part param_part : String → Part
  natural_key_at operator_at source_at : ℕ → Part
  iterate_part fields_part source_part : Part

abbrev pub Place : Type 0
Place = List Part

pub record ValidationError : Type 0 where
  pub code : Code
  pub place : Place

abbrev pub flaw : Code → Place → ValidationError
flaw code place = record { code = code; place = place }

abbrev pub names : {V : Type 0} → Dict String V → List String
names [] = []
names ((k, v) ∷ d) = k ∷ names d

-- `_SCHEMA.get(target)`
unfoldable pub schema : String → Option (List String)
unfolding target_field_types
schema target = elim (lookup target target_field_types) [ none ↦ none | some d ↦ some (names d) ]

-- `"sequence_index" in _SCHEMA.get(target, frozenset())`
unfoldable pub is_call : String → Bool
unfolding schema
is_call target = elim (schema target) [
  | none ↦ false
  | some fields ↦ contains "sequence_index" fields
]

-- `sorted`, by code points.
abbrev insert_sorted : String → List String → List String
insert_sorted s [] = s ∷ []
insert_sorted s (t ∷ ts) = elim (compare s t) [
  | Ordering.gt ↦ t ∷ insert_sorted s ts
  | _ ↦ s ∷ t ∷ ts
]

abbrev sorted : List String → List String
sorted [] = []
sorted (s ∷ ss) = insert_sorted s (sorted ss)

-- The texts of the first list that are not in the second.
abbrev without : List String → List String → List String
without [] ys = []
without (x ∷ xs) ys = let rest = without xs ys in if contains x ys then rest else x ∷ rest

abbrev pub path_flaw : {A : Type 0} → Result PathError A → Place → List ValidationError
path_flaw (ok a) place = []
path_flaw (err e) place = flaw unsupported_path place ∷ []

unfoldable pub path_errors : String → Option JsonPath → Place → List ValidationError
unfolding source_path
path_errors path prefix place = path_flaw (source_path path prefix) place

-- `enumerate(sources if isinstance(sources, list) else [])`, the texts among them.
abbrev source_errors : List Value → ℕ → Option JsonPath → Place → List ValidationError
source_errors [] j prefix place = []
source_errors (str s ∷ vs) j prefix place =
    path_errors s prefix (place ++ source_at j ∷ []) ++ source_errors vs (suc j) prefix place
source_errors (_ ∷ vs) j prefix place = source_errors vs (suc j) prefix place

abbrev listed : Value → List Value
listed (arr vs) = elements vs
listed _ = []

abbrev param_flaws : Place → List String → List ValidationError
param_flaws place params =
    map (λ p. flaw invalid_operator_param (place ++ param_part p ∷ [])) params

module _ (py : Python) where
  abbrev spec_errors : OperatorSpec → Object → Option JsonPath → Place → Run (List ValidationError)
  spec_errors spec op prefix place = do
    checked ← spec.check op
    ok (
        param_flaws place (sorted (without spec.required (names op)))
        ++ param_flaws place (sorted (without (names op) ("op" ∷ spec.required ++ spec.optional)))
        ++ param_flaws place checked
        ++ source_errors (listed (get_param "sources" op)) 0 prefix place)

  abbrev named_spec : Value → Option OperatorSpec
  named_spec (str name) = lookup name (operator_specs py)
  named_spec _ = none

  abbrev pub op_name : Option Value → Value
  op_name none = str ""
  op_name (some v) = v

  -- One round of the loop over a rule's operators.
  unfoldable pub operator_errors : Object → Option JsonPath → Place → Run (List ValidationError)
  unfolding operator_specs path_errors
  operator_errors op prefix place =
      let name = op_name (lookup "op" op) in
      do
        -- Only for the TypeError of a name that cannot be hashed: `named_spec` finds the known ones.
        known ← in_set name (names (operator_specs py))
        elim (named_spec name) [
          | none ↦ ok (flaw unknown_operator place ∷ [])
          | some spec ↦ spec_errors spec op prefix place
        ]

  abbrev pub operators_errors :
      List Object → ℕ → Option JsonPath → Place → Run (List ValidationError)
  operators_errors [] i prefix place = ok []
  operators_errors (op ∷ ops) i prefix place = do
    first ← operator_errors op prefix (place ++ operator_at i ∷ [])
    rest ← operators_errors ops (suc i) prefix place
    ok (first ++ rest)

  unfoldable pub validate_field :
      FieldRule → String → List String → Option JsonPath → Run (List ValidationError)
  unfolding operator_errors path_errors
  validate_field rule entity allowed prefix =
      let place = entity_part entity ∷ field_part rule.target ∷ [] in
      do
        ops ← operators_errors rule.operators 0 prefix place
        ok (
            (if contains rule.target allowed then [] else flaw unknown_target place ∷ [])
            ++ path_errors rule.source prefix (place ++ source_part ∷ [])
            ++ ops)

  unfoldable pub validate_fields :
      List FieldRule → String → List String → Option JsonPath → Run (List ValidationError)
  unfolding validate_field
  validate_fields [] entity allowed prefix = ok []
  validate_fields (rule ∷ rules) entity allowed prefix = do
    first ← validate_field rule entity allowed prefix
    rest ← validate_fields rules entity allowed prefix
    ok (first ++ rest)

  abbrev pub targets : List FieldRule → List String
  targets [] = []
  targets (rule ∷ rules) = rule.target ∷ targets rules

  abbrev key_errors : List String → List String → ℕ → Place → List ValidationError
  key_errors [] produced i place = []
  key_errors (key ∷ keys) produced i place =
      (if contains key produced
        then []
        else flaw invalid_natural_key (place ++ natural_key_at i ∷ []) ∷ [])
      ++ key_errors keys produced (suc i) place

  abbrev pub prefix_of : Option String → Option (Result PathError JsonPath)
  prefix_of none = none
  prefix_of (some path) = some (iterate_path path)

  abbrev pub good_prefix : Option (Result PathError JsonPath) → Option JsonPath
  good_prefix (some (ok prefix)) = some prefix
  good_prefix _ = none

  abbrev pub prefix_errors : Option (Result PathError JsonPath) → Place → List ValidationError
  prefix_errors none place = []
  prefix_errors (some r) place = path_flaw r place

  abbrev is_some : Option String → Bool
  is_some none = false
  is_some (some s) = true

  abbrev pub no_natural_key : List String → Place → List ValidationError
  no_natural_key [] place = flaw missing_natural_key place ∷ []
  no_natural_key (k ∷ ks) place = []

  -- The structural errors of an entity, in the source's order, before those of its fields.
  unfoldable pub structure_errors : EntityMapping → List ValidationError
  unfolding is_call iterate_path
  structure_errors entity =
      let place = entity_part entity.target ∷ [] in
      let declared = targets entity.fields in
      let iterated = is_some (truthy entity.iterate) in
      let call = is_call entity.target in
      let produced = if call && iterated then "sequence_index" ∷ declared else declared in
      no_natural_key entity.natural_key place
      ++ prefix_errors (prefix_of (truthy entity.iterate)) (place ++ iterate_part ∷ [])
      ++ key_errors entity.natural_key produced 0 place
      ++ (if call && not iterated && not (contains "sequence_index" declared)
          then flaw missing_sequence_index (place ++ fields_part ∷ []) ∷ []
          else [])

  unfoldable pub validate_entity : EntityMapping → Run (List ValidationError)
  unfolding schema structure_errors validate_fields
  validate_entity entity = elim (schema entity.target) [
    | none ↦ ok (flaw unknown_target (entity_part entity.target ∷ []) ∷ [])
    | some allowed ↦ do
      fields ←
          validate_fields entity.fields entity.target allowed
            (good_prefix (prefix_of (truthy entity.iterate)))
      ok (structure_errors entity ++ fields)
  ]

  unfoldable pub validate_entities : List EntityMapping → Run (List ValidationError)
  unfolding validate_entity
  validate_entities [] = ok []
  validate_entities (entity ∷ entities) = do
    first ← validate_entity entity
    rest ← validate_entities entities
    ok (first ++ rest)

  unfoldable pub validate : Mapping → Run (List ValidationError)
  unfolding validate_entities
  validate mapping = validate_entities mapping.entities
