-- ===== src/Storage/Slices.antt =====
-- `_slices` and `_insert_many` of src/agentlen/infrastructure/persistence/repositories/sql.py.
use agent_len.Base.{ℕ, zero, suc, ◌≤◌, ◌*◌, ◌/◌, ◌≡◌, refl, ap, List, [], ◌∷◌, ◌++◌, arith}
use agent_len.Base.{Eq, ltb, if◌then◌else◌, length, take, drop, take-append-drop, length-take, All}
use agent_len.Base.{length-drop}
use mathlib.Core.List.{append_assoc}
use agent_len.Base.{◌∙◌}
use native.Mathlib.Nat.{mod-add-div', le_trans, mul-le-mul_right}
use agent_len.Base.{Bool, true, false, ◌||◌, contains, contains-append, Option, none, some}
use agent_len.Base.Dict.{Dict, lookup}
use agent_len.Storage.Table.{find, select_in, keyed, UniqueKeys}
use agent_len.Storage.Found.{or_else_of, lookup-keyed-select_in}
use agent_len.Base.{Bool-cases, inl, inr}
use agent_len.Storage.Table.{Stored, Table, insert_value, insert_values}

abbrev pub max_bind_parameters : ℕ
max_bind_parameters = 32767

abbrev pub slice_size : ℕ → ℕ
slice_size width = let size = max_bind_parameters / width in if ltb size 1 then 1 else size

-- Slices of a size above 0, by the number of items still to come.
unfoldable pub slices_of : {A : Type 0} → ℕ → ℕ → List A → List (List A)
slices_of fuel size [] = []
slices_of zero size items = []
slices_of (suc fuel) size (x ∷ items) =
    take size (x ∷ items) ∷ slices_of fuel size (drop size (x ∷ items))

-- `_slices`
unfoldable pub slices : {A : Type 0} → List A → ℕ → List (List A)
unfolding slices_of
slices items width = slices_of (length items) (slice_size width) items

abbrev pub concat : {A : Type 0} → List (List A) → List A
concat [] = []
concat (s ∷ more) = s ++ concat more

-- `_insert_many`: a statement for each slice, what they return one after the other.
module _ {K V : Type 0} ⦃e : Eq K⦄ where
  unfoldable pub insert_slices : List (List (K × V)) → Table K V → List (Stored K V) × Table K V
  unfolding insert_values
  insert_slices [] t = ([], t)
  insert_slices (chunk ∷ chunks) t =
      let one = insert_values chunk t in
      let rest = insert_slices chunks one.1 in (one.0 ++ rest.0, rest.1)

  unfoldable pub insert_many : ℕ → List (K × V) → Table K V → List (Stored K V) × Table K V
  unfolding insert_slices slices
  insert_many width values t = insert_slices (slices values width) t

  insert_values-append :
      (xs ys : List (K × V)) (t : Table K V)
      → insert_values (xs ++ ys) t ≡ (
        (insert_values xs t).0 ++ (insert_values ys (insert_values xs t).1).0,
        (insert_values ys (insert_values xs t).1).1,
      )
  unfolding insert_values
  insert_values-append [] ys t = refl
  insert_values-append (x ∷ xs) ys t =
      rw (insert_values-append xs ys (insert_value x t).1, append_assoc) refl

  insert_slices-concat :
      (chunks : List (List (K × V))) (t : Table K V)
      → insert_slices chunks t ≡ insert_values (concat chunks) t
  unfolding insert_slices insert_values
  insert_slices-concat [] t = refl
  insert_slices-concat (chunk ∷ chunks) t =
      rw
        (
          insert_values-append chunk (concat chunks) t,
          insert_slices-concat chunks (insert_values chunk t).1,
        )
        refl

slice_size-positive : (width : ℕ) → 1 ≤ slice_size width
slice_size-positive width = ground arith

slice_size-fits :
    (width : ℕ)
    → 1 ≤ width
    → width ≤ max_bind_parameters
    → slice_size width * width ≤ max_bind_parameters
slice_size-fits width one fits = elim (Bool-cases (ltb (max_bind_parameters / width) 1)) [
  | inl small ↦ rw small (omega (arith, fits))
  | inr large ↦ rw large (omega (arith, mod-add-div' max_bind_parameters width))
]

concat-slices_of :
    {A : Type 0} (fuel size : ℕ) (items : List A)
    → 1 ≤ size
    → length items ≤ fuel
    → concat (slices_of fuel size items) ≡ items
unfolding slices_of
concat-slices_of fuel size [] one enough = refl
concat-slices_of zero size (x ∷ items) one enough = absurd (omega (arith, enough))
concat-slices_of (suc fuel) size (x ∷ items) one enough =
    rw
      (concat-slices_of fuel size (drop size (x ∷ items)) one
        (omega (arith, length-drop size (x ∷ items))))
      (take-append-drop size (x ∷ items))

-- What one statement may hold.
abbrev pub FitsOne : {A : Type 0} → ℕ → List A → Type 0
FitsOne width slice = (1 ≤ length slice) × (length slice * width ≤ max_bind_parameters)

slices_of-FitsOne :
    {A : Type 0} (fuel size width : ℕ) (items : List A)
    → 1 ≤ size
    → size * width ≤ max_bind_parameters
    → All (FitsOne width) (slices_of fuel size items)
unfolding slices_of
slices_of-FitsOne fuel size width [] one fits = tt
slices_of-FitsOne zero size width (x ∷ items) one fits = tt
slices_of-FitsOne (suc fuel) zero width (x ∷ items) one fits = absurd (omega (arith, one))
slices_of-FitsOne (suc fuel) (suc size) width (x ∷ items) one fits = (
  (omega arith, le_trans (mul-le-mul_right width (omega (arith, length-take size items))) fits),
  slices_of-FitsOne fuel (suc size) width (drop (suc size) (x ∷ items)) one fits,
)

-- The slices of a list, one after the other, are the list, and none is empty or binds more
-- parameters than a statement accepts, if one item does not.
pub slices-Fits :
    {A : Type 0} (items : List A) (width : ℕ)
    → 1 ≤ width
    → width ≤ max_bind_parameters
    → (concat (slices items width) ≡ items) × All (FitsOne width) (slices items width)
unfolding slices
slices-Fits items width one fits = (
  concat-slices_of (length items) (slice_size width) items (slice_size-positive width)
      (omega arith),
  slices_of-FitsOne (length items) (slice_size width) width items (slice_size-positive width)
      (slice_size-fits width one fits),
)

-- Rows that are inserted in slices are inserted as by one statement, and the same ones are returned.
pub insert_many-insert_values :
    {K V : Type 0} ⦃e : Eq K⦄ (width : ℕ) (values : List (K × V)) (t : Table K V)
    → 1 ≤ width
    → width ≤ max_bind_parameters
    → insert_many width values t ≡ insert_values values t
unfolding insert_many
insert_many-insert_values width values t one fits =
    insert_slices-concat (slices values width) t
    ∙ ap (λ vs. insert_values vs t) (slices-Fits values width one fits).0

-- The queries of `_stored` and `_stored_calls`, one for each slice of the keys.
module _ {K V A : Type 0} ⦃e : Eq K⦄ (f : Stored K V → A) where
  abbrev select_slices : List (List K) → List (Stored K V) → Dict K A → Dict K A
  select_slices [] rows d = d
  select_slices (chunk ∷ chunks) rows d =
      select_slices chunks rows (keyed f d (select_in chunk rows))

  unfoldable pub stored_rows : List K → List (Stored K V) → Dict K A
  unfolding slices select_in keyed
  stored_rows keys rows = select_slices (slices keys 2) rows []

  lookup-select_slices :
      (chunks : List (List K)) (j : K) (rows : List (Stored K V)) (d : Dict K A)
      → UniqueKeys rows
      → lookup j (select_slices chunks rows d) ≡ (
          if contains j (concat chunks)
          then or_else_of f (find j rows) (lookup j d)
          else lookup j d)
  lookup-select_slices [] j rows d u = refl
  lookup-select_slices (chunk ∷ chunks) j rows d u =
      lookup-select_slices chunks j rows (keyed f d (select_in chunk rows)) u
      ∙ rw (lookup-keyed-select_in f d chunk j rows u, contains-append)
          (again (contains j chunk) (contains j (concat chunks)) (find j rows) (lookup j d))
    where
      again :
          (a b : Bool) (o : Option (Stored K V)) (x : Option A)
          → (if b
              then or_else_of f o (if a then or_else_of f o x else x)
              else (if a then or_else_of f o x else x))
            ≡ (if a || b then or_else_of f o x else x)
      again true true none x = refl
      again true true (some r) x = refl
      again true false o x = refl
      again false true o x = refl
      again false false o x = refl

  -- What is stored under the keys asked for.
  pub lookup-stored_rows :
      (keys : List K) (j : K) (rows : List (Stored K V))
      → UniqueKeys rows
      → lookup j (stored_rows keys rows)
        ≡ (if contains j keys then or_else_of f (find j rows) none else none)
  unfolding stored_rows
  lookup-stored_rows keys j rows u =
      lookup-select_slices (slices keys 2) j rows [] u
      ∙ rw (slices-Fits keys 2 (omega arith) (omega arith)).0 refl
