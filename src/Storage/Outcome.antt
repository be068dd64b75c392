-- ===== src/Storage/Outcome.antt =====
-- `InsertOutcome` of src/agentlen/application/dto/persistence.py: what an insertion did. Entities are
-- told apart by their number, the `uuid4` drawn for them.
use agent_len.Base.{ℕ, ◌≡◌, refl, ◌∙◌, inl, inr, Bool, true, ◌||◌}
use agent_len.Base.{Option, none, some, List, [], ◌∷◌, All, arith, length}
use agent_len.Base.{Eq, ◌==◌, nat_eq, Bool-cases, Option-cases}
use mathlib.Core.Option.{some-injective}
use agent_len.Base.Dict.{Dict, lookup, insert, lookup-insert}
use agent_len.Storage.Table.{Stored, find}
use agent_len.Storage.Candidates.{is_present}

pub record InsertOutcome : Type 0 where
  pub assigned : Dict ℕ ℕ
  pub existing : Dict ℕ ℕ
  pub duplicates : List ℕ
  pub unlinked : List ℕ

abbrev pub empty_outcome : List ℕ → InsertOutcome
empty_outcome missing = record { assigned = []; existing = []; duplicates = []; unlinked = missing }

-- `{**d, **more}`
abbrev merged : Dict ℕ ℕ → Dict ℕ ℕ → Dict ℕ ℕ
merged d [] = d
merged d ((k, v) ∷ more) = merged (insert k v d) more

unfoldable pub ids : InsertOutcome → Dict ℕ ℕ
ids outcome = merged outcome.existing outcome.assigned

abbrev pub inserted_count : InsertOutcome → ℕ
inserted_count outcome = length outcome.assigned

abbrev pub duplicate_count : InsertOutcome → ℕ
duplicate_count outcome = length outcome.duplicates

module _ {K V : Type 0} ⦃e : Eq K⦄ where
  -- The id of the row that holds a key.
  abbrev pub stored_id : K → List (Stored K V) → Option ℕ
  stored_id k rows = elim (find k rows) [ some r ↦ some r.id | none ↦ none ]

  pub stored_id-row :
      (k : K) (rows : List (Stored K V)) {i : ℕ}
      → stored_id k rows ≡ some i
      → (r : Stored K V) × (find k rows ≡ some r) × (r.id ≡ i)
  stored_id-row k rows {i} h = elim (Option-cases (find k rows)) [
    | inl lost ↦ absurd (cc (rw (lost, stored_id) at h))
    | inr (r, is) ↦ (r, is, some-injective r.id i (rw (is, stored_id) at h))
  ]

  pub stored_id-some :
      (k : K) (rows : List (Stored K V)) {r : Stored K V}
      → find k rows ≡ some r
      → stored_id k rows ≡ some r.id
  stored_id-some k rows h = rw (h, stored_id) refl

abbrev pub known : InsertOutcome → ℕ → Bool
known done u = is_present (lookup u done.assigned) || is_present (lookup u done.existing)

is_present-insert :
    (u k v : ℕ) (d : Dict ℕ ℕ)
    → is_present (lookup u (insert k v d)) ≡ ((k == u) || is_present (lookup u d))
is_present-insert u k v d = rw lookup-insert (ground arith)

is_present-merged :
    (u : ℕ) (d more : Dict ℕ ℕ)
    → is_present (lookup u (merged d more))
      ≡ (is_present (lookup u more) || is_present (lookup u d))
is_present-merged u d [] = refl
is_present-merged u d ((k, v) ∷ more) =
    is_present-merged u (insert k v d) more ∙ rw (is_present-insert u k v d) (ground arith)

-- Entities that are known stay known.
pub known-assigned :
    (done : InsertOutcome) (w u v : ℕ)
    → known (record done { assigned = insert w v done.assigned }) u ≡ ((w == u) || known done u)
known-assigned done w u v = rw (is_present-insert u w v done.assigned) (ground arith)

pub known-existing :
    (done : InsertOutcome) (w u v : ℕ) (late : List ℕ)
    → known (record done { existing = insert w v done.existing; duplicates = late }) u
      ≡ ((w == u) || known done u)
known-existing done w u v late = rw (is_present-insert u w v done.existing) (ground arith)

-- `natural` is the natural key of an entity, as the table's id of it.
module _ (natural : ℕ → Option ℕ) where
  -- Each entry has the id under which its entity's key is stored.
  abbrev pub Right : Dict ℕ ℕ → Type 0
  Right d = All (λ p. natural p.0 ≡ some p.1) d

  pub insert-Right : (u v : ℕ) (d : Dict ℕ ℕ) → natural u ≡ some v → Right d → Right (insert u v d)
  insert-Right u v [] h r = (h, tt)
  insert-Right u v ((w, i) ∷ d) h r = elim (Bool-cases (w == u)) [
    | inl same ↦ rw same (h, r.1)
    | inr other ↦ rw other (r.0, insert-Right u v d h r.1)
  ]

  lookup-Right :
      (u : ℕ) (d : Dict ℕ ℕ) → Right d → is_present (lookup u d) ≡ true → lookup u d ≡ natural u
  lookup-Right u [] r h = cc
  lookup-Right u ((w, i) ∷ d) r h = ground (arith, r.0, lookup-Right u d r.1)

  merged-Right : (d more : Dict ℕ ℕ) → Right d → Right more → Right (merged d more)
  merged-Right d [] r s = r
  merged-Right d ((k, v) ∷ more) r s =
      merged-Right (insert k v d) more (insert-Right k v d s.0 r) s.1

  -- Where assigned and existing ids are right, an entity that is in one of them has its id in `ids`.
  pub lookup-ids :
      (done : InsertOutcome) (u : ℕ)
      → Right done.assigned
      → Right done.existing
      → known done u ≡ true
      → lookup u (ids done) ≡ natural u
  unfolding ids
  lookup-ids done u ra re h =
      lookup-Right u (merged done.existing done.assigned)
        (merged-Right done.existing done.assigned re ra)
        (is_present-merged u done.existing done.assigned ∙ h)
