-- ===== src/Engine/Content.antt =====
-- What an entity that `_apply_entity` keeps holds: src/agentlen/domain/services/
-- transformation_engine.py against the schema of src/agentlen/domain/model/target_schema.py.
use mathlib.Core.Path.{subst}
use agent_len.Base.{
  inl, inr, Bool-cases, Option-cases, ℕ, String, ◌≡◌, ◌≢◌, true, false, Option, none, some, List,
  [],
}
use agent_len.Base.{◌∷◌, arith, All, eq_iff, string_eq}
use agent_len.Base.Dict.{lookup, insert, lookup-insert}
use agent_len.Base.{refl, ℤ}
use agent_len.Json.{Value, Object, is_null, null, str, int, datetime}
use agent_len.JsonPath.{JsonPath}
use agent_len.Mapping.{
  FieldRule, EntityMapping, ImportIssue, TargetType, text_type, int_type, datetime_type,
}
use agent_len.Mapping.{target_type}
use agent_len.Python.{Python, Extractor}
use agent_len.Engine.{
  Build, start, apply_field, absent, settle_field, add_field, add_fields, apply_entity,
}
use agent_len.Engine.{row_lookup}
use agent_len.Engine.Operators.{Lookup}
use agent_len.Engine.Coerce.{has_type, has_target_type, narrow, coerce_target_type}

-- What a field of a type of the schema may hold: a text a string, an integer an integer, which a
-- boolean or a float is not, a date a date. A field that the schema does not type holds anything.
abbrev pub Fits : Option TargetType → Value → Type 0
Fits none v = Unit
Fits (some text_type) v = (s : String) × (v ≡ str s)
Fits (some int_type) v = (n : ℤ) × (v ≡ int n)
Fits (some datetime_type) v = (t : ℕ) × (z : Option ℤ) × (v ≡ datetime t z)

-- What the schema allows the field to hold, and no null.
abbrev pub Typed : String → String → Value → Type 0
Typed entity field v = Fits (target_type entity field) v × (v ≢ null)

abbrev pub AllTyped : String → Object → Type 0
AllTyped entity d = (field : String) (v : Value) → lookup field d ≡ some v → Typed entity field v

insert-AllTyped :
    (entity field : String) (w : Value) (d : Object)
    → AllTyped entity d
    → Typed entity field w
    → AllTyped entity (insert field w d)
insert-AllTyped entity field w d h t k v found =
    ground (arith, rw (lookup-insert field k w d) at found, eq_iff field k, h k v, t)

has_type-Fits : (t : Option TargetType) (v : Value) → has_type t v ≡ true → Fits t v
has_type-Fits none v h = tt
has_type-Fits (some text_type) (str s) h = (s, refl)
has_type-Fits (some int_type) (int n) h = (n, refl)
has_type-Fits (some datetime_type) (datetime t z) h = (t, z, refl)
has_type-Fits (some t) v h = cc

is_null-ne : (v : Value) → is_null v ≡ false → v ≢ null
is_null-ne v h = ground arith

module _ (py : Python) where
  narrow-has_type :
      (t : Option TargetType) (v w : Value)
      → narrow py t v ≡ some w
      → (has_type t w ≡ true) × (is_null w ≡ false)
  narrow-has_type t v w h = ground arith

  coerce-Typed :
      (entity field : String) (v w : Value)
      → is_null v ≡ false
      → coerce_target_type py entity field v ≡ some w
      → Typed entity field w
  unfolding coerce_target_type has_target_type
  coerce-Typed entity field v w present h =
      let both : (has_type (target_type entity field) w ≡ true) × (is_null w ≡ false) =
        ground (arith, narrow-has_type (target_type entity field) v w) in
      (has_type-Fits (target_type entity field) w both.0, is_null-ne w both.1)

module _ (py : Python) (regex : Option Extractor) where
  absent-content :
      (rule : FieldRule) (entity : String) (line : Option ℕ) (found : List ImportIssue) (b : Build)
      → (absent py regex rule entity line found b).content ≡ b.content
  absent-content rule entity line [] b = ground arith
  absent-content rule entity line (i ∷ found) b = ground arith

  settle_field-AllTyped :
      (entity : String) (line : Option ℕ) (rule : FieldRule) (r : Value × List ImportIssue)
      (b : Build)
      → AllTyped entity b.content
      → AllTyped entity (settle_field py regex entity line rule r b).content
  unfolding settle_field
  settle_field-AllTyped entity line rule (v, found) b h = elim (Bool-cases (is_null v)) [
    | inl e ↦ rw e (rw (absent-content rule entity line found b) h)
    | inr e ↦ rw e (elim (Option-cases (coerce_target_type py entity rule.target v)) [
      | inl bad ↦ rw bad h
      | inr (w, good) ↦ rw good (
          insert-AllTyped entity rule.target w b.content h
            (coerce-Typed py entity rule.target v w e good))
    ])
  ]

  add_fields-AllTyped :
      (entity : String) (look : Lookup) (line : Option ℕ) (rules : List FieldRule) (b : Build)
      → AllTyped entity b.content
      → AllTyped entity (add_fields py regex entity look line rules b).content
  unfolding add_fields add_field
  add_fields-AllTyped entity look line [] b h = h
  add_fields-AllTyped entity look line (rule ∷ rules) b h =
      add_fields-AllTyped entity look line rules (add_field py regex entity look line rule b)
        (settle_field-AllTyped entity line rule (apply_field py regex rule look entity line) b h)

  -- Every field of an entity that is kept holds a value that is not null, and that is a string, an
  -- integer or a date when the schema types the field as a text, an integer or a date.
  pub apply_entity-AllTyped :
      (entity : EntityMapping) (row : Value) (prefix : Option JsonPath) (line : Option ℕ)
      (content : Object)
      → (apply_entity py regex entity row prefix line).0 ≡ some content
      → AllTyped entity.target content
  unfolding apply_entity
  apply_entity-AllTyped entity row prefix line content kept =
      subst (AllTyped entity.target) (ground arith) (
        add_fields-AllTyped entity.target (row_lookup row prefix) line entity.fields start
          (λ field v found. cc))

  -- A required field of a mapping is there.
  abbrev pub Holds : Object → FieldRule → Type 0
  Holds d rule = rule.required ≡ true → lookup rule.target d ≢ none

  insert-present :
      (k field : String) (w : Value) (d : Object)
      → lookup k d ≢ none
      → lookup k (insert field w d) ≢ none
  insert-present k field w d h = rw (lookup-insert field k w d) (ground arith)

  insert_self : (field : String) (w : Value) (d : Object) → lookup field (insert field w d) ≡ some w
  insert_self field w d = rw (lookup-insert field field w d) (ground (arith, eq_iff field field))

  settle_field-keeps :
      (entity : String) (line : Option ℕ) (rule : FieldRule) (r : Value × List ImportIssue)
      (b : Build) (k : String)
      → lookup k b.content ≢ none
      → lookup k (settle_field py regex entity line rule r b).content ≢ none
  unfolding settle_field
  settle_field-keeps entity line rule (v, found) b k h = elim (Bool-cases (is_null v)) [
    | inl e ↦ rw e (rw (absent-content rule entity line found b) h)
    | inr e ↦ rw e (elim (Option-cases (coerce_target_type py entity rule.target v)) [
      | inl bad ↦ rw bad h
      | inr (w, good) ↦ rw good (insert-present k rule.target w b.content h)
    ])
  ]

  settle_field-Holds :
      (entity : String) (line : Option ℕ) (rule : FieldRule) (r : Value × List ImportIssue)
      (b : Build)
      → (settle_field py regex entity line rule r b).rejected ≡ false
      → (b.rejected ≡ false) × Holds (settle_field py regex entity line rule r b).content rule
  unfolding settle_field
  settle_field-Holds entity line rule (v, []) b clean =
      (ground arith, λ needed gone. grind (arith, insert_self))
  settle_field-Holds entity line rule (v, i ∷ found) b clean =
      (ground arith, λ needed gone. grind (arith, insert_self))

  add_fields-clean :
      (entity : String) (look : Lookup) (line : Option ℕ) (rules : List FieldRule) (b : Build)
      → (add_fields py regex entity look line rules b).rejected ≡ false
      → b.rejected ≡ false
  unfolding add_fields add_field
  add_fields-clean entity look line [] b h = h
  add_fields-clean entity look line (rule ∷ rules) b h =
      (settle_field-Holds entity line rule (apply_field py regex rule look entity line) b
        (add_fields-clean entity look line rules (add_field py regex entity look line rule b) h)).0

  add_fields-keeps :
      (entity : String) (look : Lookup) (line : Option ℕ) (rules : List FieldRule) (b : Build)
      (k : String)
      → lookup k b.content ≢ none
      → lookup k (add_fields py regex entity look line rules b).content ≢ none
  unfolding add_fields add_field
  add_fields-keeps entity look line [] b k h = h
  add_fields-keeps entity look line (rule ∷ rules) b k h =
      add_fields-keeps entity look line rules (add_field py regex entity look line rule b) k
        (settle_field-keeps entity line rule (apply_field py regex rule look entity line) b k h)

  add_fields-Holds :
      (entity : String) (look : Lookup) (line : Option ℕ) (rules : List FieldRule) (b : Build)
      → (add_fields py regex entity look line rules b).rejected ≡ false
      → All (Holds (add_fields py regex entity look line rules b).content) rules
  unfolding add_fields add_field
  add_fields-Holds entity look line [] b clean = tt
  add_fields-Holds entity look line (rule ∷ rules) b clean =
      let next = add_field py regex entity look line rule b in
      let first =
        settle_field-Holds entity line rule (apply_field py regex rule look entity line) b
          (add_fields-clean entity look line rules next clean) in
      (
        λ needed. add_fields-keeps entity look line rules next rule.target (first.1 needed),
        add_fields-Holds entity look line rules next clean,
      )

  -- Every required field of the entity's mapping is present in an entity that is kept.
  pub apply_entity-Holds :
      (entity : EntityMapping) (row : Value) (prefix : Option JsonPath) (line : Option ℕ)
      (content : Object)
      → (apply_entity py regex entity row prefix line).0 ≡ some content
      → All (Holds content) entity.fields
  unfolding apply_entity
  apply_entity-Holds entity row prefix line content kept =
      subst (λ d. All (Holds d) entity.fields) (ground arith)
        (add_fields-Holds entity.target (row_lookup row prefix) line entity.fields start
          (ground arith))
