-- ===== src/Validator/Accepted.antt =====
-- What a mapping that src/agentlen/domain/services/mapping_validator.py accepts guarantees to
-- src/agentlen/domain/services/transformation_engine.py: its fields exist and its paths are read.
use agent_len.Base.{ℕ, String, ◌≡◌, refl, ap, ◌∙◌, Bool, true, false, Option, none, some, List, []}
use agent_len.Base.{
  ◌∷◌, ◌++◌, Result, ok, err, ◌>>=◌, >>=-eq-ok, ok-injective, arith, All, contains, string_eq, ◌==◌,
}
use agent_len.Base.{inl, inr, Option-cases, if◌then◌else◌}
use agent_len.Json.{Value}
use agent_len.JsonPath.{JsonPath, PathError}
use agent_len.JsonPath.Resolve.{iterate_path, source_path, resolve, resolve_rows}
use agent_len.Mapping.{FieldRule, EntityMapping, Mapping, ImportIssue, truthy}
use agent_len.Python.{Python}
use agent_len.Engine.{entity_rows, row_lookup, rows_of, extract_rows, row_issues, raise_path}
use agent_len.Validator.{
  ValidationError, Place, schema, path_errors, path_flaw, validate_field, validate_fields, flaw,
  entity_part, field_part, source_part, iterate_part, no_natural_key, unknown_target,
  operators_errors,
}
use agent_len.Validator.{
  structure_errors, validate_entity, validate_entities, validate, prefix_of, good_prefix,
  prefix_errors,
}

-- The rule's field is one of the schema's, and its source is read from every row.
abbrev pub Readable : List String → Option JsonPath → FieldRule → Type 0
Readable allowed prefix rule =
    (contains rule.target allowed ≡ true)
    × ((row : Value) → (v : Value) × (row_lookup row prefix rule.source ≡ ok v))

abbrev pub unsupported : ImportIssue → Bool
unsupported i = i.code == "MAPPING_UNSUPPORTED_PATH"

-- In every document: finding the rows meets no unsupported path, and neither does reading a field
-- of them. `entity_rows` gives the rows, their path and the issues found so far.
abbrev pub IsRead : EntityMapping → Type 0
IsRead entity =
    (allowed : List String) × (schema entity.target ≡ some allowed)
    × ((py : Python) (document : Value) (line : Option ℕ)
        → let (rows, prefix, before) =
            entity_rows py none document entity line (truthy entity.iterate) in
          All (λ i. unsupported i ≡ false) before × All (Readable allowed prefix) entity.fields)

append-eq-nil : {A : Type 0} (xs ys : List A) → (xs ++ ys) ≡ [] → (xs ≡ []) × (ys ≡ [])
append-eq-nil [] ys h = (refl, h)
append-eq-nil (x ∷ xs) ys h = ground arith

known_target : (b : Bool) (e : ValidationError) → (if b then [] else e ∷ []) ≡ [] → b ≡ true
known_target b e h = ground arith

row_issues-supported :
    (py : Python) (entity : EntityMapping) (line : Option ℕ) (problems : List String)
    → All (λ i. unsupported i ≡ false) (row_issues py none entity line problems)
row_issues-supported py entity line [] = tt
row_issues-supported py entity line (p ∷ problems) = (refl, tt)

path_errors-Readable :
    (path : String) (prefix : Option JsonPath) (place : Place) (row : Value)
    → path_errors path prefix place ≡ []
    → (v : Value) × (row_lookup row prefix path ≡ ok v)
unfolding path_errors row_lookup
path_errors-Readable path prefix place row h = read (source_path path prefix) h
  where
    read :
        (r : Result PathError JsonPath)
        → path_flaw r place ≡ []
        → (v : Value) × ((raise_path r >>= λ segments. ok (resolve row segments)) ≡ ok v)
    read (ok segments) h = (resolve row segments, refl)
    read (err e) h = ground arith

module _ (py : Python) where
  validate_field-Readable :
      (rule : FieldRule) (entity : String) (allowed : List String) (prefix : Option JsonPath)
      → validate_field py rule entity allowed prefix ≡ ok []
      → Readable allowed prefix rule
  unfolding validate_field
  validate_field-Readable rule entity allowed prefix h =
      let place = entity_part entity ∷ field_part rule.target ∷ [] in
      let (ops, _, clean) = >>=-eq-ok (operators_errors py rule.operators 0 prefix place) _ h in
      let reads = path_errors rule.source prefix (place ++ source_part ∷ []) in
      let targets = if contains rule.target allowed then [] else flaw unknown_target place ∷ [] in
      let (both, _) = append-eq-nil (targets ++ reads) ops (ok-injective clean) in
      let (known, read) = append-eq-nil targets reads both in
      (
        known_target (contains rule.target allowed) _ known,
        λ row. path_errors-Readable rule.source prefix (place ++ source_part ∷ []) row read,
      )

  validate_fields-Readable :
      (rules : List FieldRule) (entity : String) (allowed : List String) (prefix : Option JsonPath)
      → validate_fields py rules entity allowed prefix ≡ ok []
      → All (Readable allowed prefix) rules
  unfolding validate_fields
  validate_fields-Readable [] entity allowed prefix h = tt
  validate_fields-Readable (rule ∷ rules) entity allowed prefix h =
      let (first, one, h1) = >>=-eq-ok (validate_field py rule entity allowed prefix) _ h in
      let (rest, more, h2) = >>=-eq-ok (validate_fields py rules entity allowed prefix) _ h1 in
      let (none_first, none_rest) = append-eq-nil first rest (ok-injective h2) in
      (
        validate_field-Readable rule entity allowed prefix (one ∙ ap ok none_first),
        validate_fields-Readable rules entity allowed prefix (more ∙ ap ok none_rest),
      )

  rows_of-Read :
      (entity : EntityMapping) (r : Result PathError JsonPath) (allowed : List String)
      (place : Place)
      → path_flaw r place ≡ []
      → All (Readable allowed (good_prefix py (some r))) entity.fields
      → (py' : Python) (document : Value) (line : Option ℕ)
      → let (rows, prefix, before) = rows_of py' none document entity line r in
        All (λ i. unsupported i ≡ false) before × All (Readable allowed prefix) entity.fields
  rows_of-Read entity (ok prefix) allowed place h fields py' document line =
      (row_issues-supported py' entity line (resolve_rows document prefix).1, fields)
  rows_of-Read entity (err e) allowed place h fields py' document line = cc h

  entity_rows-Read :
      (entity : EntityMapping) (iterate : Option String) (allowed : List String) (place : Place)
      → prefix_errors py (prefix_of py iterate) place ≡ []
      → All (Readable allowed (good_prefix py (prefix_of py iterate))) entity.fields
      → (py' : Python) (document : Value) (line : Option ℕ)
      → let (rows, prefix, before) = entity_rows py' none document entity line iterate in
        All (λ i. unsupported i ≡ false) before × All (Readable allowed prefix) entity.fields
  unfolding extract_rows
  entity_rows-Read entity none allowed place h fields py' document line = (tt, fields)
  entity_rows-Read entity (some path) allowed place h fields py' document line =
      rows_of-Read entity (iterate_path path) allowed place h fields py' document line

  structure_errors-prefix :
      (entity : EntityMapping)
      → structure_errors py entity ≡ []
      → prefix_errors py
          (prefix_of py (truthy entity.iterate))
          (entity_part entity.target ∷ iterate_part ∷ [])
        ≡ []
  unfolding structure_errors
  structure_errors-prefix entity h =
      let keys = no_natural_key py entity.natural_key (entity_part entity.target ∷ []) in
      let paths =
        prefix_errors py (prefix_of py (truthy entity.iterate))
          (entity_part entity.target ∷ iterate_part ∷ []) in
      let three = (append-eq-nil _ _ h).0 in
      let two = (append-eq-nil _ _ three).0 in (append-eq-nil keys paths two).1

  validate_entity-IsRead :
      (entity : EntityMapping) → validate_entity py entity ≡ ok [] → IsRead entity
  unfolding validate_entity
  validate_entity-IsRead entity h = elim (Option-cases (schema entity.target)) [
    | inl e ↦ cc (rw (e, validate_entity) at h)
    | inr (allowed, e) ↦
        let prefix = good_prefix py (prefix_of py (truthy entity.iterate)) in
        let (fields, checked, clean) =
          >>=-eq-ok (validate_fields py entity.fields entity.target allowed prefix) _
            (rw (e, validate_entity) at h) in
        let (structure, none_left) =
          append-eq-nil (structure_errors py entity) fields (ok-injective clean) in
        (
          allowed,
          e,
          entity_rows-Read entity (truthy entity.iterate) allowed
              (entity_part entity.target ∷ iterate_part ∷ [])
              (structure_errors-prefix entity structure)
              (validate_fields-Readable entity.fields entity.target allowed prefix
                (checked ∙ ap ok none_left)),
        )
  ]

  validate_entities-IsRead :
      (entities : List EntityMapping) → validate_entities py entities ≡ ok [] → All IsRead entities
  unfolding validate_entities
  validate_entities-IsRead [] h = tt
  validate_entities-IsRead (entity ∷ entities) h =
      let (first, one, h1) = >>=-eq-ok (validate_entity py entity) _ h in
      let (rest, more, h2) = >>=-eq-ok (validate_entities py entities) _ h1 in
      let (none_first, none_rest) = append-eq-nil first rest (ok-injective h2) in
      (
        validate_entity-IsRead entity (one ∙ ap ok none_first),
        validate_entities-IsRead entities (more ∙ ap ok none_rest),
      )

  -- In a mapping that the validator accepts, every entity is one of the schema's, each of its rules
  -- fills one of the entity's fields, and the engine meets no unsupported path: not in finding the
  -- rows of any document, and not in reading the source of a rule in any row.
  pub validate-IsRead :
      (mapping : Mapping) → validate py mapping ≡ ok [] → All IsRead mapping.entities
  unfolding validate
  validate-IsRead mapping h = validate_entities-IsRead mapping.entities h
