-- ===== src/Storage/Distinct.antt =====
-- The entities of a batch, each with a number of its own, determine what is known of them.
use agent_len.Base.{ℕ, ◌≡◌, false, List, [], ◌∷◌}
use agent_len.Base.{map, All, arith, ◌==◌, nat_eq, if◌then◌else◌, contains}

abbrev pub Distinct : List ℕ → Type 0
Distinct [] = Unit
Distinct (x ∷ xs) = (contains x xs ≡ false) × Distinct xs

module _ {Row K : Type 0} (id : Row → ℕ) (key : Row → K) where
  -- The key of the first row of an entity.
  abbrev first_key : K → List Row → ℕ → K
  first_key default [] u = default
  first_key default (row ∷ rows) u = if id row == u then key row else first_key default rows u

  other :
      (default : K) (row : Row) (rows more : List Row)
      → contains (id row) (map id more) ≡ false
      → All (λ r. key r ≡ first_key default rows (id r)) more
      → All (λ r. key r ≡ first_key default (row ∷ rows) (id r)) more
  other default row rows [] apart h = tt
  other default row rows (r ∷ more) apart h = (
    (ground (arith, nat_eq.beq_iff (id r) (id row), nat_eq.beq_iff (id row) (id r), apart, h.0)),
    other default row rows more (ground (arith, apart)) h.1,
  )

  Distinct-first_key :
      (default : K) (rows : List Row)
      → Distinct (map id rows)
      → All (λ r. key r ≡ first_key default rows (id r)) rows
  Distinct-first_key default [] h = tt
  Distinct-first_key default (row ∷ rows) h = (
    ground (arith, nat_eq.beq_iff (id row) (id row)),
    other default row rows rows h.0 (Distinct-first_key default rows h.1),
  )

  pub Distinct-determines :
      K
      → (rows : List Row) → Distinct (map id rows)
      → (first_key : ℕ → K) × All (λ r. key r ≡ first_key (id r)) rows
  Distinct-determines default rows h = (first_key default rows, Distinct-first_key default rows h)
