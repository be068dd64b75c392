-- ===== src/Engine/Placed.antt =====
-- Every issue of src/agentlen/domain/services/transformation_engine.py is on the line of its record.
use agent_len.Base.{ℕ, suc, String, ◌≡◌, refl, Option, none, some, List, [], ◌∷◌}
use agent_len.Base.{◌++◌, ok, err, Result, All, All-append, inl, inr, Bool-cases}
use agent_len.Json.{Value, is_null}
use agent_len.JsonPath.{JsonPath, PathError}
use agent_len.Mapping.{FieldRule, EntityMapping, Mapping, ImportIssue, field_place, truthy}
use agent_len.Python.{Python, Extractor}
use agent_len.Engine.{
  Build, start, apply_field, run_operators, settle_field, add_field, add_fields, apply_entity,
}
use agent_len.Engine.{looked_up, operated, absent, typed, row_lookup, apply_rows, apply_mapping}
use agent_len.Engine.{apply_entities, apply, extract_rows, entity_rows, rows_of, row_issues}
use agent_len.Engine.Coerce.{coerce_target_type}
use agent_len.Engine.Operators.{Lookup, Run}

-- Issues that all stand on one line.
abbrev pub OnLine : Option ℕ → List ImportIssue → Type 0
OnLine line issues = All (λ i. i.line_number ≡ line) issues

pub OnLine-append :
    (line : Option ℕ) (a b : List ImportIssue)
    → OnLine line a
    → OnLine line b
    → OnLine line (a ++ b)
OnLine-append line a b ha hb = All-append (λ i. i.line_number ≡ line) a b ha hb

module _ (py : Python) (regex : Option Extractor) (line : Option ℕ) where
  operated-OnLine :
      (rule : FieldRule) (place : String) (r : Run Value)
      → OnLine line (operated py regex rule place line r).1
  operated-OnLine rule place (ok v) = tt
  operated-OnLine rule place (err e) = (refl, tt)

  looked_up-OnLine :
      (rule : FieldRule) (look : Lookup) (place : String) (r : Run Value)
      → OnLine line (looked_up py regex rule look place line r).1
  looked_up-OnLine rule look place (ok v) =
      operated-OnLine rule place (run_operators py regex rule.operators v look)
  looked_up-OnLine rule look place (err e) = (refl, tt)

  absent-OnLine :
      (rule : FieldRule) (entity : String) (found : List ImportIssue) (b : Build)
      → OnLine line found
      → OnLine line b.issues
      → OnLine line (absent py regex rule entity line found b).issues
  absent-OnLine rule entity [] b hf hb = elim (Bool-cases rule.required) [
    | inl y ↦ rw (y, absent) (OnLine-append line b.issues _ hb (refl, tt))
    | inr n ↦ rw (n, absent) hb
  ]
  absent-OnLine rule entity (i ∷ more) b hf hb = elim (Bool-cases rule.required) [
    | inl y ↦ rw (y, absent) (OnLine-append line b.issues (i ∷ more) hb hf)
    | inr n ↦ rw (n, absent) (OnLine-append line b.issues (i ∷ more) hb hf)
  ]

  typed-OnLine :
      (rule : FieldRule) (entity : String) (found : List ImportIssue) (v : Option Value) (b : Build)
      → OnLine line found
      → OnLine line b.issues
      → OnLine line (typed py regex rule entity line found v b).issues
  typed-OnLine rule entity found none b hf hb =
      OnLine-append line (b.issues ++ found) _ (OnLine-append line b.issues found hb hf) (refl, tt)
  typed-OnLine rule entity found (some v) b hf hb = OnLine-append line b.issues found hb hf

  settle_field-OnLine :
      (entity : String) (rule : FieldRule) (r : Value × List ImportIssue) (b : Build)
      → OnLine line r.1
      → OnLine line b.issues
      → OnLine line (settle_field py regex entity line rule r b).issues
  unfolding settle_field
  settle_field-OnLine entity rule (v, found) b hf hb = elim (Bool-cases (is_null v)) [
    | inl y ↦ rw (y, settle_field) (absent-OnLine rule entity found b hf hb)
    | inr n ↦
        rw (n, settle_field)
          (typed-OnLine rule entity found (coerce_target_type py entity rule.target v) b hf hb)
  ]

  add_fields-OnLine :
      (entity : String) (look : Lookup) (rules : List FieldRule) (b : Build)
      → OnLine line b.issues
      → OnLine line (add_fields py regex entity look line rules b).issues
  unfolding add_fields add_field apply_field
  add_fields-OnLine entity look [] b hb = hb
  add_fields-OnLine entity look (rule ∷ rules) b hb =
      add_fields-OnLine entity look rules (add_field py regex entity look line rule b) (
        settle_field-OnLine entity rule (apply_field py regex rule look entity line) b
          (looked_up-OnLine rule look (field_place entity rule.target) (look rule.source)) hb)

  apply_rows-OnLine :
      (entity : EntityMapping) (prefix : Option JsonPath) (index : ℕ) (rows : List Value)
      → OnLine line (apply_rows py regex entity prefix line index rows).1
  unfolding apply_rows apply_entity
  apply_rows-OnLine entity prefix index [] = tt
  apply_rows-OnLine entity prefix index (row ∷ rows) =
      OnLine-append line _ _
        (add_fields-OnLine entity.target (row_lookup row prefix) entity.fields start tt)
        (apply_rows-OnLine entity prefix (suc index) rows)

  row_issues-OnLine :
      (entity : EntityMapping) (problems : List String)
      → OnLine line (row_issues py regex entity line problems)
  row_issues-OnLine entity [] = tt
  row_issues-OnLine entity (p ∷ problems) = (refl, tt)

  rows_of-OnLine :
      (document : Value) (entity : EntityMapping) (r : Result PathError JsonPath)
      → OnLine line (rows_of py regex document entity line r).2
  rows_of-OnLine document entity (err e) = (refl, tt)
  rows_of-OnLine document entity (ok prefix) = row_issues-OnLine entity _

  entity_rows-OnLine :
      (document : Value) (entity : EntityMapping) (iterate : Option String)
      → OnLine line (entity_rows py regex document entity line iterate).2
  unfolding extract_rows
  entity_rows-OnLine document entity none = tt
  entity_rows-OnLine document entity (some iterate) = rows_of-OnLine document entity _

  apply_entities-OnLine :
      (entities : List EntityMapping) (document : Value)
      → OnLine line (apply_entities py regex entities document line).1
  unfolding apply_entities apply_mapping
  apply_entities-OnLine [] document = tt
  apply_entities-OnLine (entity ∷ entities) document =
      OnLine-append line _ _
        (OnLine-append line _ _ (entity_rows-OnLine document entity (truthy entity.iterate))
          (apply_rows-OnLine entity _ 0 _))
        (apply_entities-OnLine entities document)

  pub apply-OnLine :
      (mapping : Mapping) (document : Value) → OnLine line (apply py regex mapping document line).1
  unfolding apply
  apply-OnLine mapping document = apply_entities-OnLine mapping.entities document
