-- ===== src/Engine/Rows.antt =====
-- The rows of an entity in `TransformationEngine.apply`: how many are kept, and the positions that
-- they carry.
use agent_len.Base.{
  ℕ, zero, suc, ◌+◌, ◌≤◌, String, ◌≡◌, refl, Option, none, some, List, [], ◌∷◌, ◌++◌,
}
use agent_len.Base.{arith, All, All-append}
use agent_len.Json.{Value, Object}
use agent_len.JsonPath.{JsonPath}
use agent_len.Mapping.{EntityMapping}
use agent_len.Python.{Python, Extractor}
use agent_len.Engine.{Entry, keep, apply_entity, apply_rows}

abbrev pub nth : List Value → ℕ → Option Value
nth [] i = none
nth (v ∷ vs) zero = some v
nth (v ∷ vs) (suc i) = nth vs i

-- The positions rise, each above the last and none below `from`.
abbrev pub Rising : ℕ → List Entry → Type 0
Rising from [] = Unit
Rising from (e ∷ es) = (from ≤ e.source_index) × Rising (suc e.source_index) es

Rising-weaken : (m n : ℕ) (es : List Entry) → m ≤ n → Rising n es → Rising m es
Rising-weaken m n [] le h = tt
Rising-weaken m n (e ∷ es) le h = (omega arith, h.1)

module _ (py : Python) (regex : Option Extractor) where
  keep-Rising :
      (target : String) (index : ℕ) (kept : Option Object) (es : List Entry)
      → Rising (suc index) es
      → Rising index (keep py regex target index kept ++ es)
  keep-Rising target index none es h = Rising-weaken index (suc index) es (omega arith) h
  keep-Rising target index (some d) es h = (omega arith, h)

  apply_rows-Rising_from :
      (entity : EntityMapping) (prefix : Option JsonPath) (line : Option ℕ) (index : ℕ)
      (rows : List Value)
      → Rising index (apply_rows py regex entity prefix line index rows).0
  unfolding apply_rows
  apply_rows-Rising_from entity prefix line index [] = tt
  apply_rows-Rising_from entity prefix line index (row ∷ rows) =
      keep-Rising entity.target index (apply_entity py regex entity row prefix line).0 _
        (apply_rows-Rising_from entity prefix line (suc index) rows)

  -- The entity at position `i` of the source list is what that row alone gives.
  abbrev pub Stands : EntityMapping → Option JsonPath → Option ℕ → ℕ → List Value → Entry → Type 0
  Stands entity prefix line index rows e =
      (i : ℕ) × (row : Value) × (e.source_index ≡ index + i)
      × (nth rows i ≡ some row)
      × ((apply_entity py regex entity row prefix line).0 ≡ some e.content)
      × (e.entity ≡ entity.target)

  shift_Stands :
      (entity : EntityMapping) (prefix : Option JsonPath) (line : Option ℕ) (index : ℕ)
      (row : Value) (rows : List Value) (es : List Entry)
      → All (Stands entity prefix line (suc index) rows) es
      → All (Stands entity prefix line index (row ∷ rows)) es
  shift_Stands entity prefix line index row rows [] h = tt
  shift_Stands entity prefix line index row rows (e ∷ es) ((i, r, at, there, made, named), h) = (
    (suc i, r, omega arith, there, made, named),
    shift_Stands entity prefix line index row rows es h,
  )

  keep-Stands :
      (entity : EntityMapping) (prefix : Option JsonPath) (line : Option ℕ) (index : ℕ)
      (row : Value) (rows : List Value) (kept : Option Object)
      → (apply_entity py regex entity row prefix line).0 ≡ kept
      → All (Stands entity prefix line index (row ∷ rows)) (keep py regex entity.target index kept)
  keep-Stands entity prefix line index row rows none h = tt
  keep-Stands entity prefix line index row rows (some d) h =
      ((0, row, omega arith, refl, h, refl), tt)

  apply_rows-Stands_from :
      (entity : EntityMapping) (prefix : Option JsonPath) (line : Option ℕ) (index : ℕ)
      (rows : List Value)
      → All
          (Stands entity prefix line index rows)
          (apply_rows py regex entity prefix line index rows).0
  unfolding apply_rows
  apply_rows-Stands_from entity prefix line index [] = tt
  apply_rows-Stands_from entity prefix line index (row ∷ rows) =
      All-append _
        (keep py regex entity.target index (apply_entity py regex entity row prefix line).0) _
        (keep-Stands entity prefix line index row rows _ refl)
        (shift_Stands entity prefix line index row rows _
          (apply_rows-Stands_from entity prefix line (suc index) rows))

  -- The positions of the entities kept rise strictly, and each is the position in the source list
  -- of the row that the entity was made from: a rejected row does not shift those after it.
  pub apply_rows-source_index :
      (entity : EntityMapping) (prefix : Option JsonPath) (line : Option ℕ) (rows : List Value)
      → let kept = (apply_rows py regex entity prefix line 0 rows).0 in
        Rising 0 kept × All (Stands entity prefix line 0 rows) kept
  apply_rows-source_index entity prefix line rows = (
    apply_rows-Rising_from entity prefix line 0 rows,
    apply_rows-Stands_from entity prefix line 0 rows,
  )
