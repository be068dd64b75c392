-- ===== src/Storage/Reconcile.antt =====
-- The insertion of the candidates of a batch, and the two dicts by which its rows then find their
-- ids: lines that `add_many` of sessions, model calls and tool calls share in
-- src/agentlen/infrastructure/persistence/repositories/sql.py.
use agent_len.Base.{ℕ, ◌≤◌, ◌≡◌, refl, ap, ◌∙◌, sym, ◌⊎◌, inl, inr, true}
use agent_len.Base.{none, some, List, [], All, Eq, Option-cases}
use agent_len.Base.{All-map}
use mathlib.Core.Path.{subst}
use agent_len.Base.Dict.{Dict, lookup}
use agent_len.Storage.Table.{Stored, Table, find, insert_values, keyed, IsValid}
use agent_len.Storage.Table.{insert_values-IsValid}
use agent_len.Storage.Slices.{
  insert_many, insert_many-insert_values, stored_rows, lookup-stored_rows,
}
use agent_len.Storage.Slices.{max_bind_parameters}
use agent_len.Storage.Found.{lookup-keyed-old, lookup-keyed-new, find-insert_values-kept}
use agent_len.Storage.Candidates.{
  candidates, values, keys_without, contains-keys_without, is_present,
}
use agent_len.Storage.Candidates.{
  candidates-all, candidates-All, insert_values-stored, candidates-IsKeyed, find-values,
}

pub record Reconciled (K V A : Type 0) : Type 0 where
  -- `{key: r.id for r in inserted}`
  pub written : Dict K ℕ
  -- What is stored under the other keys.
  pub already : Dict K A
  pub after : Table K V

-- A width that one statement accepts.
abbrev pub IsWidth : ℕ → Type 0
IsWidth width = (1 ≤ width) × (width ≤ max_bind_parameters)

module _ {K Row V A : Type 0} ⦃e : Eq K⦄ (key : Row → K) (columns : Row → V)
    (f : Stored K V → A) where
  unfoldable pub reconcile : ℕ → List Row → Table K V → Reconciled K V A
  unfolding insert_many candidates keyed values stored_rows keys_without
  reconcile width rows t =
      let proposed = candidates key rows in
      let done = insert_many width (values key columns proposed) t in
      let written = keyed (λ r. r.id) [] done.0 in
      record {
        written = written;
        already = stored_rows f (keys_without proposed written) done.1.rows;
        after = done.1;
      }

  pub reconcile-IsValid :
      (width : ℕ) (rows : List Row) (t : Table K V)
      → IsWidth width
      → IsValid t
      → IsValid (reconcile width rows t).after
  unfolding reconcile
  reconcile-IsValid width rows t w h =
      rw (insert_many-insert_values width (values key columns (candidates key rows)) t w.0 w.1)
        (insert_values-IsValid (values key columns (candidates key rows)) t h)

  -- A key is held by one row afterwards: a row just written, or one stored before and found.
  abbrev pub Held : Table K V → Reconciled K V A → K → Type 0
  Held t done j =
      (r : Stored K V) × (find j done.after.rows ≡ some r)
      × (((find j t.rows ≡ none) × (lookup j done.written ≡ some r.id))
          ⊎ ((find j t.rows ≡ some r)
              × (lookup j done.written ≡ none)
              × (lookup j done.already ≡ some (f r))))

  -- The same by one statement.
  abbrev at_once : List Row → Table K V → Reconciled K V A
  at_once rows t =
      let done = insert_values (values key columns (candidates key rows)) t in
      let written = keyed (λ r. r.id) [] done.0 in
      record {
        written = written;
        already = stored_rows f (keys_without (candidates key rows) written) done.1.rows;
        after = done.1;
      }

  reconcile-at_once :
      (width : ℕ) (rows : List Row) (t : Table K V)
      → IsWidth width
      → reconcile width rows t ≡ at_once rows t
  unfolding reconcile
  reconcile-at_once width rows t w =
      rw (insert_many-insert_values width (values key columns (candidates key rows)) t w.0 w.1) refl

  candidate-Held :
      (rows : List Row) (t : Table K V) (j : K)
      → IsValid t
      → is_present (lookup j (candidates key rows)) ≡ true
      → Held t (at_once rows t) j
  candidate-Held rows t j h proposed = elim (Option-cases (find j t.rows)) [
    | inr (r, held) ↦
        let vs = values key columns (candidates key rows) in
        let kept = find-insert_values-kept j vs t held in
        let unwritten = lookup-keyed-old (λ r. r.id) [] j vs t held in
        (
          r,
          kept,
          inr (
            held,
            unwritten,
            lookup-stored_rows f
                  (keys_without (candidates key rows) (keyed (λ r. r.id) [] (insert_values vs t).0))
                  j (insert_values vs t).1.rows (insert_values-IsValid vs t h).0
                ∙ rw (contains-keys_without, unwritten, proposed, kept) refl,
          ),
        )
    | inl free ↦
        let vs = values key columns (candidates key rows) in
        elim (Option-cases (find j (insert_values vs t).1.rows)) [
          | inl lost ↦ absurd (
              cc (
                lost,
                find-values key columns (candidates key rows) t j (candidates-IsKeyed key rows)
                    proposed,
              ))
          | inr (r, found) ↦
              (r, found, inl (free, lookup-keyed-new (λ r. r.id) [] j vs t free ∙ rw found refl))
        ]
  ]

  -- Every row of a batch has a key that is held.
  pub reconcile-Held :
      (width : ℕ) (rows : List Row) (t : Table K V)
      → IsWidth width
      → IsValid t
      → All (λ row. Held t (reconcile width rows t) (key row)) rows
  reconcile-Held width rows t w h =
      All-map (λ row. is_present (lookup (key row) (candidates key rows)) ≡ true)
        (λ row. Held t (reconcile width rows t) (key row)) rows
        (λ row p.
          subst (λ done. Held t done (key row)) (sym (reconcile-at_once width rows t w))
            (candidate-Held rows t (key row) h p))
        (candidates-all key rows)

  -- A batch whose keys are all stored writes nothing.
  pub reconcile-stored :
      (width : ℕ) (rows : List Row) (t : Table K V)
      → IsWidth width
      → All (λ row. is_present (find (key row) t.rows) ≡ true) rows
      → ((reconcile width rows t).written ≡ []) × ((reconcile width rows t).after.rows ≡ t.rows)
  unfolding keyed
  reconcile-stored width rows t w stored_all =
      let same =
        insert_values-stored key columns (candidates key rows) t
          (candidates-All key (λ k. is_present (find k t.rows) ≡ true) rows stored_all) in
      rw (reconcile-at_once width rows t w) (ap (keyed (λ r. r.id) []) same.0, same.1)
