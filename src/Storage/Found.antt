-- ===== src/Storage/Found.antt =====
-- What the rows that an insertion returns, and those that a query finds, say about the table. The
-- repositories of src/agentlen/infrastructure/persistence/repositories/sql.py read both as dicts.
use agent_len.Base.{suc, ◌≡◌, refl, ap, ◌∙◌, sym, inl, inr, true, false}
use agent_len.Base.{Option, none, some, List, [], ◌∷◌, arith, Eq, ◌==◌, if◌then◌else◌}
use agent_len.Base.{contains, Bool-cases, Option-cases}
use agent_len.Storage.Table.{inserted, insert_value-held, insert_value-new}
use agent_len.Base.Dict.{Dict, lookup, insert, lookup-insert}
use agent_len.Storage.Table.{Stored, Table, find, insert_value, insert_values, select_in, keyed}
use agent_len.Storage.Table.{UniqueKeys}

module _ {K V : Type 0} ⦃e : Eq K⦄ where
  pub find-add :
      (j : K) (new : Stored K V) (rows : List (Stored K V))
      → (new.key == j) ≡ false
      → find j (new ∷ rows) ≡ find j rows
  unfolding find
  find-add j new rows other = rw other refl

  pub find-same :
      (j : K) (new : Stored K V) (rows : List (Stored K V))
      → (new.key == j) ≡ true
      → find j (new ∷ rows) ≡ some new
  unfolding find
  find-same j new rows same = rw same refl

  -- A row found has the key.
  pub find-key :
      (k : K) (rows : List (Stored K V)) {r : Stored K V} → find k rows ≡ some r → r.key ≡ k
  unfolding find
  find-key k [] h = cc
  find-key k (s ∷ rows) h = elim (Bool-cases (s.key == k)) [
    | inl same ↦ cc (find-same k s rows same, h, (e.beq_iff s.key k).0 same)
    | inr other ↦ find-key k rows (sym (find-add k s rows other) ∙ h)
  ]

  -- A key that is free is not one that is held.
  differs :
      (k j : K) (rows : List (Stored K V)) {r : Stored K V}
      → find k rows ≡ none
      → find j rows ≡ some r
      → (k == j) ≡ false
  differs k j rows free held = elim (Bool-cases (k == j)) [
    | inl same ↦ cc (free, held, (e.beq_iff k j).0 same)
    | inr other ↦ other
  ]

  -- What is stored is still found after an insertion.
  pub find-insert_value-kept :
      (j : K) (value : K × V) (t : Table K V) {r : Stored K V}
      → find j t.rows ≡ some r
      → find j (insert_value value t).1.rows ≡ some r
  unfolding find insert_value
  find-insert_value-kept j (k, v) t {r} h = elim (Option-cases (find k t.rows)) [
    | inl free ↦
        rw (insert_value-new k v t free)
          (find-add j (inserted (k, v) t) t.rows (differs k j t.rows free h) ∙ h)
    | inr (held, is) ↦ rw (insert_value-held k v t is) h
  ]

  pub find-insert_values-kept :
      (j : K) (values : List (K × V)) (t : Table K V) {r : Stored K V}
      → find j t.rows ≡ some r
      → find j (insert_values values t).1.rows ≡ some r
  unfolding insert_values
  find-insert_values-kept j [] t h = h
  find-insert_values-kept j (value ∷ values) t h =
      find-insert_values-kept j values (insert_value value t).1 (find-insert_value-kept j value t h)

  -- The key inserted is found.
  pub insert_value-found :
      (j : K) (value : K × V) (t : Table K V)
      → value.0 ≡ j
      → (r : Stored K V) × (find j (insert_value value t).1.rows ≡ some r)
  unfolding find
  insert_value-found j (k, v) t is = elim (Option-cases (find k t.rows)) [
    | inl free ↦
        rw (insert_value-new k v t free)
          (inserted (k, v) t, find-same j (inserted (k, v) t) t.rows ((e.beq_iff k j).1 is))
    | inr (held, was) ↦
        rw (insert_value-held k v t was) (held, sym (ap (λ i. find i t.rows) is) ∙ was)
  ]

  -- The dict of the rows returned leaves out what was stored before.
  pub lookup-keyed-old :
      {A : Type 0} (f : Stored K V → A) (d : Dict K A) (j : K) (values : List (K × V))
      (t : Table K V) {r : Stored K V}
      → find j t.rows ≡ some r
      → lookup j (keyed f d (insert_values values t).0) ≡ lookup j d
  unfolding insert_values keyed
  lookup-keyed-old f d j [] t h = refl
  lookup-keyed-old f d j ((k, v) ∷ values) t h = elim (Option-cases (find k t.rows)) [
    | inl free ↦ rw (insert_value-new k v t free) (
        lookup-keyed-old f (insert k (f (inserted (k, v) t)) d) j values
          (record { next_id = suc t.next_id; rows = inserted (k, v) t ∷ t.rows })
          (find-add j (inserted (k, v) t) t.rows (differs k j t.rows free h) ∙ h)
        ∙ rw (lookup-insert, differs k j t.rows free h) refl)
    | inr (held, is) ↦
        rw (insert_value-held k v t is)
          (lookup-keyed-old f d j values (record { next_id = suc t.next_id; rows = t.rows }) h)
  ]

  abbrev pub or_else_of :
      {A : Type 0} → (Stored K V → A) → Option (Stored K V) → Option A → Option A
  or_else_of f none before = before
  or_else_of f (some r) before = some (f r)

  -- It has all that is stored after it and was not before.
  pub lookup-keyed-new :
      {A : Type 0} (f : Stored K V → A) (d : Dict K A) (j : K) (values : List (K × V))
      (t : Table K V)
      → find j t.rows ≡ none
      → lookup j (keyed f d (insert_values values t).0)
        ≡ or_else_of f (find j (insert_values values t).1.rows) (lookup j d)
  unfolding insert_values keyed
  lookup-keyed-new f d j [] t h = rw h refl
  lookup-keyed-new f d j ((k, v) ∷ values) t h = elim (Option-cases (find k t.rows)) [
    | inr (held, is) ↦
        rw (insert_value-held k v t is)
          (lookup-keyed-new f d j values (record { next_id = suc t.next_id; rows = t.rows }) h)
    | inl free ↦
        let new = inserted (k, v) t in
        let next : Table K V = record { next_id = suc t.next_id; rows = new ∷ t.rows } in
        rw (insert_value-new k v t free) (elim (Bool-cases (k == j)) [
          | inl same ↦
              lookup-keyed-old f (insert k (f new) d) j values next (find-same j new t.rows same)
              ∙ rw
                  (
                    lookup-insert,
                    same,
                    find-insert_values-kept j values next (find-same j new t.rows same),
                  )
                  refl
          | inr other ↦
              lookup-keyed-new f (insert k (f new) d) j values next
                (find-add j new t.rows other ∙ h)
              ∙ rw (lookup-insert, other) refl
        ])
  ]

  -- What a query for keys finds, as a dict.
  pub lookup-keyed-select_in :
      {A : Type 0} (f : Stored K V → A) (d : Dict K A) (keys : List K) (j : K)
      (rows : List (Stored K V))
      → UniqueKeys rows
      → lookup j (keyed f d (select_in keys rows))
        ≡ (if contains j keys then or_else_of f (find j rows) (lookup j d) else lookup j d)
  unfolding select_in keyed find
  lookup-keyed-select_in f d keys j [] u = ground arith
  lookup-keyed-select_in f d keys j (r ∷ rows) u = elim (Bool-cases (r.key == j)) [
    | inl same ↦ elim (Bool-cases (contains j keys)) [
      | inl asked ↦
          rw (same, asked, ap (λ k. contains k keys) ((e.beq_iff r.key j).0 same) ∙ asked)
            (lookup-keyed-select_in f (insert r.key (f r) d) keys j rows u.1
              ∙ rw
                  (
                    asked,
                    sym (ap (λ k. find k rows) ((e.beq_iff r.key j).0 same)) ∙ u.0,
                    lookup-insert,
                    same,
                  )
                  refl)
      | inr not_asked ↦
          rw (not_asked, ap (λ k. contains k keys) ((e.beq_iff r.key j).0 same) ∙ not_asked)
            (lookup-keyed-select_in f d keys j rows u.1 ∙ rw not_asked refl)
    ]
    | inr other ↦ elim (Bool-cases (contains r.key keys)) [
      | inl asked ↦
          rw (other, asked)
            (lookup-keyed-select_in f (insert r.key (f r) d) keys j rows u.1
              ∙ rw (lookup-insert, other) refl)
      | inr not_asked ↦ rw (other, not_asked) (lookup-keyed-select_in f d keys j rows u.1)
    ]
  ]
