-- ===== src/Storage/Table.antt =====
-- A table with a natural key, and `INSERT ... ON CONFLICT DO NOTHING RETURNING` on it: what
-- src/agentlen/infrastructure/persistence/repositories/sql.py asks of PostgreSQL. The newest row
-- comes first, and a row that is refused uses up a number of the sequence.
use agent_len.Base.{ℕ, suc, ◌<◌, ◌≡◌, refl, inl, inr}
use agent_len.Base.{Option, none, some, List, [], ◌∷◌, ◌++◌, arith}
use agent_len.Base.{Eq, ◌==◌, if◌then◌else◌, contains, Option-cases}
use agent_len.Base.Dict.{Dict, insert}

pub record Stored (K V : Type 0) : Type 0 where
  pub id : ℕ
  pub key : K
  pub value : V

pub record Table (K V : Type 0) : Type 0 where
  pub next_id : ℕ
  pub rows : List (Stored K V)

module _ {K V : Type 0} ⦃e : Eq K⦄ where
  -- The row that holds a key.
  unfoldable pub find : K → List (Stored K V) → Option (Stored K V)
  find k [] = none
  find k (r ∷ rows) = if r.key == k then some r else find k rows

  abbrev pub inserted : K × V → Table K V → Stored K V
  inserted (k, v) t = record { id = t.next_id; key = k; value = v }

  -- One row of `VALUES`: what is returned, and the table.
  unfoldable pub insert_value : K × V → Table K V → List (Stored K V) × Table K V
  unfolding find
  insert_value (k, v) t = elim (find k t.rows) [
    | some held ↦ ([], record { next_id = suc t.next_id; rows = t.rows })
    | none ↦
        let new = inserted (k, v) t in
        (new ∷ [], record { next_id = suc t.next_id; rows = new ∷ t.rows })
  ]

  unfoldable pub insert_values : List (K × V) → Table K V → List (Stored K V) × Table K V
  unfolding insert_value
  insert_values [] t = ([], t)
  insert_values (value ∷ values) t =
      let one = insert_value value t in
      let rest = insert_values values one.1 in (one.0 ++ rest.0, rest.1)

  -- `WHERE key IN (keys)`
  unfoldable pub select_in : List K → List (Stored K V) → List (Stored K V)
  select_in keys [] = []
  select_in keys (r ∷ rows) =
      let rest = select_in keys rows in if contains r.key keys then r ∷ rest else rest

  -- Python's `{r.key: f(r) for r in rows}`, added to a dict.
  unfoldable pub keyed : {A : Type 0} → (Stored K V → A) → Dict K A → List (Stored K V) → Dict K A
  keyed f d [] = d
  keyed f d (r ∷ rows) = keyed f (insert r.key (f r) d) rows

  -- The unique constraint on the natural key.
  abbrev pub UniqueKeys : List (Stored K V) → Type 0
  UniqueKeys [] = Unit
  UniqueKeys (r ∷ rows) = (find r.key rows ≡ none) × UniqueKeys rows

  -- No two rows hold one key, and the ids fall from below the next one.
  abbrev pub Falling : ℕ → List (Stored K V) → Type 0
  Falling n [] = Unit
  Falling n (r ∷ rows) = (r.id < n) × Falling r.id rows

  abbrev pub IsValid : Table K V → Type 0
  IsValid t = UniqueKeys t.rows × Falling t.next_id t.rows

  Falling-suc : (n : ℕ) (rows : List (Stored K V)) → Falling n rows → Falling (suc n) rows
  Falling-suc n [] h = tt
  Falling-suc n (r ∷ rows) h = (omega (arith, h.0), h.1)

  pub insert_value-held :
      (k : K) (v : V) (t : Table K V) {r : Stored K V}
      → find k t.rows ≡ some r
      → insert_value (k, v) t ≡ ([], record { next_id = suc t.next_id; rows = t.rows })
  unfolding insert_value
  insert_value-held k v t h = rw (h, insert_value) refl

  pub insert_value-new :
      (k : K) (v : V) (t : Table K V)
      → find k t.rows ≡ none
      → insert_value (k, v) t ≡ (
        inserted (k, v) t ∷ [],
        record { next_id = suc t.next_id; rows = inserted (k, v) t ∷ t.rows },
      )
  unfolding insert_value
  insert_value-new k v t h = rw (h, insert_value) refl

  pub insert_value-IsValid :
      (value : K × V) (t : Table K V) → IsValid t → IsValid (insert_value value t).1
  unfolding find insert_value
  insert_value-IsValid (k, v) t h = elim (Option-cases (find k t.rows)) [
    | inl e ↦ rw (e, insert_value) ((e, h.0), (omega arith, h.1))
    | inr (held, e) ↦ rw (e, insert_value) (h.0, Falling-suc t.next_id t.rows h.1)
  ]

  -- Insertion keeps the natural keys and the ids distinct.
  pub insert_values-IsValid :
      (values : List (K × V)) (t : Table K V) → IsValid t → IsValid (insert_values values t).1
  unfolding insert_values
  insert_values-IsValid [] t h = h
  insert_values-IsValid (value ∷ values) t h =
      insert_values-IsValid values (insert_value value t).1 (insert_value-IsValid value t h)
