-- ===== src/Storage/Candidates.antt =====
-- The rows that a batch proposes, one for each natural key, and where the others find theirs: what
-- `add_many` of the three repositories of an import in
-- src/agentlen/infrastructure/persistence/repositories/sql.py have in common.
use agent_len.Base.{ℕ, suc, ◌≡◌, refl, ap, ◌∙◌, sym, inl, inr, Bool, true, false, ◌||◌}
use agent_len.Base.{Option, none, some, List, [], ◌∷◌, ◌++◌, arith, All}
use agent_len.Base.{Eq, ◌==◌, nat_eq, if◌then◌else◌, contains, Bool-cases, Option-cases}
use mathlib.Core.Path.{subst}
use agent_len.Base.Dict.{Dict, lookup, insert, lookup-insert}
use agent_len.Storage.Table.{Stored, Table, find, insert_values}
use agent_len.Storage.Table.{insert_value, insert_value-held}
use agent_len.Storage.Found.{find-insert_values-kept, insert_value-found}

abbrev pub is_present : {A : Type 0} → Option A → Bool
is_present none = false
is_present (some a) = true

module _ {K Row : Type 0} ⦃e : Eq K⦄ where
  -- `d.setdefault(k, row)`
  abbrev pub setdefault : K → Row → Dict K Row → Dict K Row
  setdefault k row d = elim (lookup k d) [ some before ↦ d | none ↦ insert k row d ]

  lookup-setdefault :
      (k j : K) (row : Row) (d : Dict K Row)
      → is_present (lookup j (setdefault k row d)) ≡ ((k == j) || is_present (lookup j d))
  lookup-setdefault k j row d = elim (Option-cases (lookup k d)) [
    | inl free ↦ rw (free, setdefault) (rw (lookup-insert k j row d) (ground arith))
    | inr (before, is) ↦
        rw (is, setdefault)
          (elim (Bool-cases (k == j)) [
            | inl same ↦ rw (same, sym (ap (λ i. lookup i d) ((e.beq_iff k j).0 same)) ∙ is) refl
            | inr other ↦ rw other refl
          ])
  ]

module _ {K A B : Type 0} ⦃e : Eq K⦄ where
  -- `[key for key in candidates if key not in d]`
  unfoldable pub keys_without : Dict K A → Dict K B → List K
  keys_without [] d = []
  keys_without ((k, row) ∷ candidates) d =
      let rest = keys_without candidates d in if is_present (lookup k d) then rest else k ∷ rest

  pub contains-keys_without :
      (j : K) (candidates : Dict K A) (d : Dict K B)
      → contains j (keys_without candidates d)
        ≡ (if is_present (lookup j d) then false else is_present (lookup j candidates))
  unfolding keys_without
  contains-keys_without j [] d = elim (Bool-cases (is_present (lookup j d))) [
    | inl y ↦ rw y refl
    | inr n ↦ rw n refl
  ]
  contains-keys_without j ((k, row) ∷ candidates) d = elim (Bool-cases (k == j)) [
    | inl same ↦ elim (Bool-cases (is_present (lookup j d))) [
      | inl y ↦
          rw (same, y, ap (λ i. is_present (lookup i d)) ((e.beq_iff k j).0 same) ∙ y)
            (contains-keys_without j candidates d ∙ rw y refl)
      | inr n ↦
          rw (same, n, ap (λ i. is_present (lookup i d)) ((e.beq_iff k j).0 same) ∙ n, same) refl
    ]
    | inr other ↦ elim (Bool-cases (is_present (lookup k d))) [
      | inl y ↦ rw (other, y) (contains-keys_without j candidates d)
      | inr n ↦ rw (other, n, other) (contains-keys_without j candidates d)
    ]
  ]

-- Each row with its position: two rows of one list are two objects.
module _ {K Row : Type 0} ⦃e : Eq K⦄ (key : Row → K) where
  -- `for row in rows: candidates.setdefault(key(row), row)`
  unfoldable pub candidates_from : ℕ → List Row → Dict K (ℕ × Row) → Dict K (ℕ × Row)
  candidates_from i [] d = d
  candidates_from i (row ∷ rows) d = candidates_from (suc i) rows (setdefault (key row) (i, row) d)

  unfoldable pub candidates : List Row → Dict K (ℕ × Row)
  unfolding candidates_from
  candidates rows = candidates_from 0 rows []

  -- The `values` of the insertion.
  unfoldable pub values : {V : Type 0} → (Row → V) → Dict K (ℕ × Row) → List (K × V)
  values columns [] = []
  values columns (c ∷ more) = (key c.1.1, columns c.1.1) ∷ values columns more

  -- Candidates stay candidates, and each row's key is one.
  candidates_from-kept :
      (i : ℕ) (rows : List Row) (d : Dict K (ℕ × Row)) (j : K)
      → is_present (lookup j d) ≡ true
      → is_present (lookup j (candidates_from i rows d)) ≡ true
  unfolding candidates_from
  candidates_from-kept i [] d j h = h
  candidates_from-kept i (row ∷ rows) d j h =
      candidates_from-kept (suc i) rows (setdefault (key row) (i, row) d) j
        (lookup-setdefault (key row) j (i, row) d ∙ ground (arith, h))

  candidates_from-all :
      (i : ℕ) (rows : List Row) (d : Dict K (ℕ × Row))
      → All (λ row. is_present (lookup (key row) (candidates_from i rows d)) ≡ true) rows
  unfolding candidates_from
  candidates_from-all i [] d = tt
  candidates_from-all i (row ∷ rows) d = (
    candidates_from-kept (suc i) rows (setdefault (key row) (i, row) d) (key row) (
        lookup-setdefault (key row) (key row) (i, row) d
        ∙ rw ((e.beq_iff (key row) (key row)).1 refl) refl),
    candidates_from-all (suc i) rows (setdefault (key row) (i, row) d),
  )

  pub candidates-all :
      (rows : List Row) → All (λ row. is_present (lookup (key row) (candidates rows)) ≡ true) rows
  unfolding candidates
  candidates-all rows = candidates_from-all 0 rows []

  -- Each candidate stands under its own key.
  abbrev pub IsKeyed : Dict K (ℕ × Row) → Type 0
  IsKeyed d = All (λ c. key c.1.1 ≡ c.0) d

  insert-IsKeyed :
      (i : ℕ) (row : Row) (d : Dict K (ℕ × Row)) → IsKeyed d → IsKeyed (insert (key row) (i, row) d)
  insert-IsKeyed i row [] h = (refl, tt)
  insert-IsKeyed i row ((j, c) ∷ d) h = elim (Bool-cases (j == key row)) [
    | inl same ↦ rw same (refl, h.1)
    | inr other ↦ rw other (h.0, insert-IsKeyed i row d h.1)
  ]

  setdefault-IsKeyed :
      (i : ℕ) (row : Row) (d : Dict K (ℕ × Row))
      → IsKeyed d
      → IsKeyed (setdefault (key row) (i, row) d)
  setdefault-IsKeyed i row d h = elim (Option-cases (lookup (key row) d)) [
    | inl free ↦ rw (free, setdefault) (insert-IsKeyed i row d h)
    | inr (before, is) ↦ rw (is, setdefault) h
  ]

  candidates_from-IsKeyed :
      (i : ℕ) (rows : List Row) (d : Dict K (ℕ × Row))
      → IsKeyed d
      → IsKeyed (candidates_from i rows d)
  unfolding candidates_from
  candidates_from-IsKeyed i [] d h = h
  candidates_from-IsKeyed i (row ∷ rows) d h =
      candidates_from-IsKeyed (suc i) rows (setdefault (key row) (i, row) d)
        (setdefault-IsKeyed i row d h)

  pub candidates-IsKeyed : (rows : List Row) → IsKeyed (candidates rows)
  unfolding candidates
  candidates-IsKeyed rows = candidates_from-IsKeyed 0 rows [] tt

  -- What holds of the rows' keys holds of the candidates'.
  module _ (P : K → Type 0) where
    insert-All :
        (k : K) (c : ℕ × Row) (d : Dict K (ℕ × Row))
        → P (key c.1)
        → All (λ c. P (key c.1.1)) d
        → All (λ c. P (key c.1.1)) (insert k c d)
    insert-All k c [] p h = (p, tt)
    insert-All k c ((j, b) ∷ d) p h = elim (Bool-cases (j == k)) [
      | inl same ↦ rw same (p, h.1)
      | inr other ↦ rw other (h.0, insert-All k c d p h.1)
    ]

    setdefault-All :
        (c : ℕ × Row) (d : Dict K (ℕ × Row))
        → P (key c.1)
        → All (λ c. P (key c.1.1)) d
        → All (λ c. P (key c.1.1)) (setdefault (key c.1) c d)
    setdefault-All c d p h = elim (Option-cases (lookup (key c.1) d)) [
      | inl free ↦ rw (free, setdefault) (insert-All (key c.1) c d p h)
      | inr (before, is) ↦ rw (is, setdefault) h
    ]

    candidates_from-All :
        (i : ℕ) (rows : List Row) (d : Dict K (ℕ × Row))
        → All (λ row. P (key row)) rows
        → All (λ c. P (key c.1.1)) d
        → All (λ c. P (key c.1.1)) (candidates_from i rows d)
    unfolding candidates_from
    candidates_from-All i [] d p h = h
    candidates_from-All i (row ∷ rows) d p h =
        candidates_from-All (suc i) rows (setdefault (key row) (i, row) d) p.1
          (setdefault-All (i, row) d p.0 h)

    pub candidates-All :
        (rows : List Row)
        → All (λ row. P (key row)) rows
        → All (λ c. P (key c.1.1)) (candidates rows)
    unfolding candidates
    candidates-All rows p = candidates_from-All 0 rows [] p tt

  find-rest :
      (j : K) (c : K × (ℕ × Row)) (d : Dict K (ℕ × Row))
      → (c.0 == j) ≡ false
      → is_present (lookup j (c ∷ d)) ≡ true
      → is_present (lookup j d) ≡ true
  find-rest j c d other h = sym (rw other refl) ∙ h

  module _ {V : Type 0} (columns : Row → V) where
    -- Whatever is proposed is stored afterwards.
    pub find-values :
        (d : Dict K (ℕ × Row)) (t : Table K V) (j : K)
        → IsKeyed d
        → is_present (lookup j d) ≡ true
        → is_present (find j (insert_values (values columns d) t).1.rows) ≡ true
    unfolding values insert_values
    find-values [] t j h proposed = cc
    find-values (c ∷ d) t j h proposed = elim (Bool-cases (c.0 == j)) [
      | inl same ↦
          let found =
            insert_value-found j (key c.1.1, columns c.1.1) t (h.0 ∙ (e.beq_iff c.0 j).0 same) in
          rw
            (find-insert_values-kept j (values columns d)
              (insert_value (key c.1.1, columns c.1.1) t).1 found.1)
            refl
      | inr other ↦
          find-values d (insert_value (key c.1.1, columns c.1.1) t).1 j h.1
            (find-rest j c d other proposed)
    ]

    -- Proposing only what is stored changes no row.
    pub insert_values-stored :
        (d : Dict K (ℕ × Row)) (t : Table K V)
        → All (λ c. is_present (find (key c.1.1) t.rows) ≡ true) d
        → ((insert_values (values columns d) t).0 ≡ [])
          × ((insert_values (values columns d) t).1.rows ≡ t.rows)
    unfolding values insert_values
    insert_values-stored [] t h = (refl, refl)
    insert_values-stored (c ∷ d) t h = elim (Option-cases (find (key c.1.1) t.rows)) [
      | inl free ↦ absurd (cc (free, h.0))
      | inr (r, held) ↦
          subst
            (λ (one : List (Stored K V) × Table K V).
              ((one.0 ++ (insert_values (values columns d) one.1).0) ≡ [])
              × ((insert_values (values columns d) one.1).1.rows ≡ t.rows))
            (sym (insert_value-held (key c.1.1) (columns c.1.1) t held))
            (insert_values-stored d (record { next_id = suc t.next_id; rows = t.rows }) h.1)
    ]
