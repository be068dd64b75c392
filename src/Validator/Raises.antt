-- ===== src/Validator/Raises.antt =====
-- When `validate` of src/agentlen/domain/services/mapping_validator.py returns at all: the operator
-- names that it looks up in a set must be hashable.
use agent_len.Base.{ℕ, suc, String, ◌≡◌, ◌≢◌, Bool, true, false, Option, none, List, []}
use agent_len.Base.{◌∷◌, ◌++◌, ok, >>=-eq-ok, arith, All, inl, inr, Option-cases, string_eq}
use agent_len.Base.Dict.{lookup}
use agent_len.Json.{Value, arr, obj, Object}
use agent_len.JsonPath.{JsonPath}
use agent_len.Mapping.{FieldRule, EntityMapping, Mapping, truthy}
use agent_len.Python.{Python}
use agent_len.Validator.{
  ValidationError, Place, schema, entity_part, field_part, operator_at, names, op_name,
  operator_errors,
}
use agent_len.Validator.{
  operators_errors, validate_field, validate_fields, validate_entity, validate_entities, validate,
}
use agent_len.Validator.{prefix_of, good_prefix}
use agent_len.Validator.Operators.{in_set, operator_specs}

-- A list or an object cannot be hashed.
abbrev pub hashable : Value → Bool
hashable (arr vs) = false
hashable (obj ms) = false
hashable _ = true

in_set-hashable :
    (v : Value) (allowed : List String) {b : Bool} → in_set v allowed ≡ ok b → hashable v ≡ true
in_set-hashable v allowed h = ground arith

module _ (py : Python) where
  abbrev pub NamesHashable : List Object → Type 0
  NamesHashable ops = All (λ op. hashable (op_name py (lookup "op" op)) ≡ true) ops

  abbrev pub RulesHashable : List FieldRule → Type 0
  RulesHashable rules = All (λ (rule : FieldRule). NamesHashable rule.operators) rules

  operator_errors-hashable :
      (op : Object) (prefix : Option JsonPath) (place : Place) {errors : List ValidationError}
      → operator_errors py op prefix place ≡ ok errors
      → hashable (op_name py (lookup "op" op)) ≡ true
  unfolding operator_errors
  operator_errors-hashable op prefix place h =
      let name = op_name py (lookup "op" op) in
      let (_, found, _) = >>=-eq-ok (in_set name (names (operator_specs py))) _ h in
      in_set-hashable name (names (operator_specs py)) found

  operators_errors-hashable :
      (ops : List Object) (i : ℕ) (prefix : Option JsonPath) (place : Place)
      {errors : List ValidationError}
      → operators_errors py ops i prefix place ≡ ok errors
      → NamesHashable ops
  operators_errors-hashable [] i prefix place h = tt
  operators_errors-hashable (op ∷ ops) i prefix place h =
      let here = place ++ operator_at i ∷ [] in
      let (_, one, h1) = >>=-eq-ok (operator_errors py op prefix here) _ h in
      let (_, more, _) = >>=-eq-ok (operators_errors py ops (suc i) prefix place) _ h1 in
      (
        operator_errors-hashable op prefix here one,
        operators_errors-hashable ops (suc i) prefix place more,
      )

  validate_field-hashable :
      (rule : FieldRule) (entity : String) (allowed : List String) (prefix : Option JsonPath)
      {errors : List ValidationError}
      → validate_field py rule entity allowed prefix ≡ ok errors
      → NamesHashable rule.operators
  unfolding validate_field
  validate_field-hashable rule entity allowed prefix h =
      let place = entity_part entity ∷ field_part rule.target ∷ [] in
      let (_, done, _) = >>=-eq-ok (operators_errors py rule.operators 0 prefix place) _ h in
      operators_errors-hashable rule.operators 0 prefix place done

  validate_fields-hashable :
      (rules : List FieldRule) (entity : String) (allowed : List String) (prefix : Option JsonPath)
      {errors : List ValidationError}
      → validate_fields py rules entity allowed prefix ≡ ok errors
      → RulesHashable rules
  unfolding validate_fields
  validate_fields-hashable [] entity allowed prefix h = tt
  validate_fields-hashable (rule ∷ rules) entity allowed prefix h =
      let (_, one, h1) = >>=-eq-ok (validate_field py rule entity allowed prefix) _ h in
      let (_, more, _) = >>=-eq-ok (validate_fields py rules entity allowed prefix) _ h1 in
      (
        validate_field-hashable rule entity allowed prefix one,
        validate_fields-hashable rules entity allowed prefix more,
      )

  -- The schema knows the entity only if all its operator names are hashable.
  abbrev pub EntityHashable : EntityMapping → Type 0
  EntityHashable entity = schema entity.target ≢ none → RulesHashable entity.fields

  validate_entity-hashable :
      (entity : EntityMapping) {errors : List ValidationError}
      → validate_entity py entity ≡ ok errors
      → EntityHashable entity
  unfolding validate_entity
  validate_entity-hashable entity h known = elim (Option-cases (schema entity.target)) [
    | inl e ↦ elim (known e) [ ]
    | inr (allowed, e) ↦
        let prefix = good_prefix py (prefix_of py (truthy entity.iterate)) in
        let (_, done, _) =
          >>=-eq-ok (validate_fields py entity.fields entity.target allowed prefix) _
            (rw (e, validate_entity) at h) in
        validate_fields-hashable entity.fields entity.target allowed prefix done
  ]

  validate_entities-hashable :
      (entities : List EntityMapping) {errors : List ValidationError}
      → validate_entities py entities ≡ ok errors
      → All EntityHashable entities
  unfolding validate_entities
  validate_entities-hashable [] h = tt
  validate_entities-hashable (entity ∷ entities) h =
      let (_, one, h1) = >>=-eq-ok (validate_entity py entity) _ h in
      let (_, more, _) = >>=-eq-ok (validate_entities py entities) _ h1 in
      (validate_entity-hashable entity one, validate_entities-hashable entities more)

  -- `validate` returns only if no operator of a known entity has a list or an object for its
  -- name: on every other mapping it raises.
  pub validate-EntityHashable :
      (mapping : Mapping) (errors : List ValidationError)
      → validate py mapping ≡ ok errors
      → All EntityHashable mapping.entities
  unfolding validate
  validate-EntityHashable mapping errors h = validate_entities-hashable mapping.entities h
