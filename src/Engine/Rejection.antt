-- ===== src/Engine/Rejection.antt =====
-- When `_apply_entity` of src/agentlen/domain/services/transformation_engine.py rejects an entity.
use mathlib.Core.List.{append-nil}
use agent_len.Base.{ℕ, String, ◌≡◌, ◌↔◌, refl, Bool, true, false, ◌||◌, Option, none, List, []}
use agent_len.Base.{◌∷◌, ◌++◌, ◌<>◌, ◌⊎◌, inl, inr, ok, err, arith}
use agent_len.Json.{Value, null}
use agent_len.JsonPath.{JsonPath}
use agent_len.Mapping.{FieldRule, EntityMapping, ImportIssue, field_place, is_rejected, rejected}
use agent_len.Python.{Python, Extractor}
use agent_len.Engine.{
  Build, start, apply_field, run_operators, settle_field, add_field, add_fields, apply_entity,
}
use agent_len.Engine.{row_lookup, severity_of, issue, issue_code, operated, looked_up}
use agent_len.Engine.Operators.{Lookup, Run}

abbrev pub any_rejected : List ImportIssue → Bool
any_rejected [] = false
any_rejected (i ∷ issues) = is_rejected i.severity || any_rejected issues

pub any_rejected-append :
    (xs ys : List ImportIssue) → any_rejected (xs ++ ys) ≡ (any_rejected xs || any_rejected ys)
any_rejected-append [] ys = refl
any_rejected-append (x ∷ xs) ys = ground (arith, any_rejected-append xs ys)

module _ (py : Python) (regex : Option Extractor) where
  -- A field that fails has no value and one issue, rejecting exactly if the field is required.
  abbrev Outcome : FieldRule → Value × List ImportIssue → Type 0
  Outcome rule r =
      (r.1 ≡ [])
      ⊎ ((i : ImportIssue) × (r ≡ (null, i ∷ [])) × (is_rejected i.severity ≡ rule.required))

  failed-Outcome :
      (rule : FieldRule) (code : String) (place : String) (line : Option ℕ)
      → Outcome rule (null, issue (severity_of rule.required) code place line ∷ [])
  failed-Outcome rule code place line =
      inr (issue (severity_of rule.required) code place line, refl, ground arith)

  pub apply_field-Outcome :
      (rule : FieldRule) (look : Lookup) (entity : String) (line : Option ℕ)
      → Outcome rule (apply_field py regex rule look entity line)
  unfolding apply_field
  apply_field-Outcome rule look entity line = started (look rule.source)
    where
      ran : (place : String) (r : Run Value) → Outcome rule (operated py regex rule place line r)
      ran place (ok v) = inl refl
      ran place (err e) = failed-Outcome rule (issue_code e) place line

      started :
          (r : Run Value)
          → Outcome rule (looked_up py regex rule look (field_place entity rule.target) line r)
      started (ok v) =
          ran (field_place entity rule.target) (run_operators py regex rule.operators v look)
      started (err e) =
          failed-Outcome rule (issue_code e) (field_place entity rule.target <> ".source") line

  abbrev Agrees : Build → Type 0
  Agrees b = b.rejected ≡ any_rejected b.issues

  settle_field-Agrees :
      (entity : String) (line : Option ℕ) (rule : FieldRule) (r : Value × List ImportIssue)
      (b : Build)
      → Outcome rule r
      → Agrees b
      → Agrees (settle_field py regex entity line rule r b)
  unfolding settle_field
  settle_field-Agrees entity line rule (v, []) b o h = ground (
    arith,
    any_rejected-append b.issues [],
    append-nil b.issues,
    any_rejected-append b.issues
        (issue rejected "MISSING_REQUIRED_FIELD" (field_place entity rule.target) line ∷ []),
    any_rejected-append b.issues
        (issue rejected "TYPE_MISMATCH" (field_place entity rule.target) line ∷ []),
  )
  settle_field-Agrees entity line rule (v, i ∷ more) b (inl e) h = cc
  settle_field-Agrees entity line rule (v, i ∷ more) b (inr (j, e, sev)) h =
      ground (arith, any_rejected-append b.issues (i ∷ []))

  add_fields-Agrees :
      (entity : String) (look : Lookup) (line : Option ℕ) (rules : List FieldRule) (b : Build)
      → Agrees b
      → Agrees (add_fields py regex entity look line rules b)
  unfolding add_fields
  add_fields-Agrees entity look line [] b h = h
  add_fields-Agrees entity look line (rule ∷ rules) b h =
      add_fields-Agrees entity look line rules (add_field py regex entity look line rule b) (
        unfold add_field in
        settle_field-Agrees entity line rule _ b (apply_field-Outcome rule look entity line) h)

  -- An entity is dropped exactly when one of its issues has severity `rejected`: nothing is
  -- dropped without an explanation, and nothing that was reported as rejected is kept.
  pub apply_entity-rejected :
      (entity : EntityMapping) (row : Value) (prefix : Option JsonPath) (line : Option ℕ)
      → let (kept, issues) = apply_entity py regex entity row prefix line in
        (kept ≡ none) ↔ (any_rejected issues ≡ true)
  unfolding apply_entity
  apply_entity-rejected entity row prefix line =
      let same =
        add_fields-Agrees entity.target (row_lookup row prefix) line entity.fields start refl in
      (ground (arith, same), ground (arith, same))
