-- ===== src/Storage/Constraints.antt =====
-- The constraints of the tables `session`, `model_call` and `tool_call` of
-- src/agentlen/infrastructure/persistence/tables.py. Which values the driver and the server take for a
-- type of column, with the range of INTEGER and BIGINT, is an argument; so are the ids that the
-- tables referred to hold.
use agent_len.Base.{
  ℕ, String, ◌≡◌, ◌≢◌, ◌↔◌, refl, Bool, true, false, ◌&&◌, ◌||◌, Option, none, some, List, [], ◌∷◌,
  All, contains, nat_eq, string_eq, Eq, arith, inl, inr, ◌⊎◌, Option-cases,
}
use agent_len.Json.{Value, null, str, is_null}
use agent_len.Storage.Table.{Table, find}
use agent_len.Storage.Candidates.{is_present}

pub data ColumnType : Type 0 where
  text_column timestamp_column bigint_column integer_column : ColumnType

-- What stands outside of the tables that a batch writes: the values that a column takes, and the
-- ids of the data sources and of the runs.
pub record Server : Type 0 where
  pub accepts : ColumnType → Value → Bool
  pub data_sources : List ℕ
  pub import_runs : List ℕ

-- The ids that foreign keys may name.
pub record Referents : Type 0 where
  pub raw_records : List ℕ
  pub agents : List ℕ
  pub repositories : List ℕ
  pub models : List ℕ
  pub tools : List ℕ
  pub sessions : List ℕ

-- The constraints of one row: its types, NOT NULL and CHECKs, and its foreign keys.
pub record Constraints (K V : Type 0) : Type 0 where
  pub checks : K × V → Bool
  pub refers : K × V → Bool

-- A nullable foreign key.
abbrev pub optional : Option ℕ → List ℕ → Bool
optional none held = true
optional (some id) held = contains id held

-- `column IN (names)`, which NULL satisfies.
abbrev pub in_check : List String → Value → Bool
in_check names null = true
in_check names (str s) = contains s names
in_check names v = false

module _ (server : Server) where
  abbrev pub nullable : ColumnType → Value → Bool
  nullable type v = is_null v || server.accepts type v

module _ {K V : Type 0} ⦃e : Eq K⦄ (constraints : Constraints K V) (t : Table K V) where
  -- A row that conflicts is not inserted, and its foreign keys are not looked at.
  abbrev pub row_admitted : K × V → Bool
  row_admitted value =
      constraints.checks value && (is_present (find value.0 t.rows) || constraints.refers value)

  -- Whether a statement that inserts the values raises nothing.
  unfoldable pub admitted : List (K × V) → Bool
  admitted [] = true
  admitted (value ∷ values) = row_admitted value && admitted values

  -- A row that satisfies the constraints, or whose key is taken and that satisfies the checks.
  abbrev pub Admitted : K × V → Type 0
  Admitted value =
      (constraints.checks value ≡ true)
      × ((find value.0 t.rows ≢ none) ⊎ (constraints.refers value ≡ true))

  row_admitted-Admitted : (value : K × V) → (row_admitted value ≡ true) ↔ Admitted value
  row_admitted-Admitted value = elim (Option-cases (find value.0 t.rows)) [
    | inl e ↦ (
      λ h. (ground (arith, h), inr (ground (arith, rw e at h))),
      λ h. elim h.1 [ inl taken ↦ absurd (taken e) | inr fits ↦ rw e (ground (arith, h.0, fits)) ],
    )
    | inr (r, e) ↦
        (λ h. (ground (arith, h), inl (λ gone. cc (gone, e))), λ h. rw e (ground (arith, h.0)))
  ]

  pub admitted-Admitted : (values : List (K × V)) → (admitted values ≡ true) ↔ All Admitted values
  unfolding admitted
  admitted-Admitted [] = (λ h. tt, λ h. refl)
  admitted-Admitted (value ∷ values) = (
    λ h. (
      (row_admitted-Admitted value).0 (ground (arith, h)),
      (admitted-Admitted values).0 (ground (arith, h)),
    ),
    λ h.
        let first = (row_admitted-Admitted value).1 h.0 in
        let rest = (admitted-Admitted values).1 h.1 in ground (arith, first, rest),
  )
