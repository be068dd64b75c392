-- ===== src/Mappings/Versions.antt =====
-- The versions of a mapping under src/agentlen/application/use_cases/save_mapping.py.
use mathlib.Core.Path.{subst}
use mathlib.Core.Option.{some-injective}
use agent_len.Base.{
  require, ensure, require-ok, ℕ, ◌+◌, ◌≤◌, ◌<◌, String, ◌≡◌, ◌≢◌, ◌⊎◌, inl, inr, refl, ap, sym,
  ◌∙◌, true,
}
use agent_len.Base.{
  Option, none, some, List, [], ◌∷◌, ◌++◌, ok, >>=-eq-ok, ok-injective, arith, ◌==◌, eq_iff, nat_eq,
  nat_eq_iff, string_eq, Bool-cases,
}
use agent_len.Mapping.{Mapping}
use agent_len.Python.{Python}
use agent_len.Mappings.{
  StoredMapping, Library, unknown_mapping, source_changed, has_key, find_stored, latest_version,
}
use agent_len.Mappings.{
  mark, supersede, stored, check_latest, check_valid, same_source, next_mapping, add_version,
  higher,
}

abbrev pub Listed : StoredMapping → List StoredMapping → Type 0
Listed r [] = ⊥
Listed r (s ∷ rows) = (s ≡ r) ⊎ Listed r rows

-- Versions of one mapping: the same source and the same name.
abbrev pub SameKey : StoredMapping → StoredMapping → Type 0
SameKey r s = (r.data_source_id ≡ s.data_source_id) × (r.name ≡ s.name)

pub record IsVersioned (rows : List StoredMapping) : Type 0 where
  pub highest :
      (r s : StoredMapping)
      → Listed r rows
      → Listed s rows
      → SameKey r s
      → r.status ≡ "active"
      → s.version ≤ r.version
  pub unique :
      (r s : StoredMapping)
      → Listed r rows
      → Listed s rows
      → SameKey r s
      → r.version ≡ s.version
      → r.id ≡ s.id

append-Listed :
    (r new : StoredMapping) (rows : List StoredMapping)
    → Listed r (rows ++ new ∷ [])
    → Listed r rows ⊎ (new ≡ r)
append-Listed r new [] (inl e) = inr e
append-Listed r new [] (inr h) = elim h [ ]
append-Listed r new (s ∷ rows) (inl e) = inl (inl e)
append-Listed r new (s ∷ rows) (inr h) = elim (append-Listed r new rows h) [
  | inl there ↦ inl (inr there)
  | inr e ↦ inr e
]

supersede-Listed :
    (id : ℕ) (r : StoredMapping) (rows : List StoredMapping)
    → Listed r (supersede id rows)
    → (s : StoredMapping) × Listed s rows × (mark id s ≡ r)
supersede-Listed id r [] h = elim h [ ]
supersede-Listed id r (s ∷ rows) (inl e) = (s, inl refl, e)
supersede-Listed id r (s ∷ rows) (inr h) =
    let (t, there, e) = supersede-Listed id r rows h in (t, inr there, e)

find_stored-Listed :
    (id : ℕ) (r : StoredMapping) (rows : List StoredMapping)
    → find_stored id rows ≡ some r
    → Listed r rows × (r.id ≡ id)
find_stored-Listed id r [] h = cc
find_stored-Listed id r (s ∷ rows) h = elim (Bool-cases (s.id == id)) [
  | inl e ↦
      let same = some-injective s r (rw e at h) in
      (inl same, sym (ap (λ (x : StoredMapping). x.id) same) ∙ (nat_eq_iff s.id id).0 e)
  | inr e ↦ let rest = find_stored-Listed id r rows (rw e at h) in (inr rest.0, rest.1)
]

-- What the highest version is at least.
abbrev Covers : Option ℕ → ℕ → Type 0
Covers none v = ⊥
Covers (some n) v = v ≤ n

le_higher_rest : (n v : ℕ) (rest : Option ℕ) → Covers rest v → v ≤ higher n rest
le_higher_rest n v none h = elim h [ ]
le_higher_rest n v (some m) h = ground arith

le_higher : (n : ℕ) (rest : Option ℕ) → n ≤ higher n rest
le_higher n none = omega arith
le_higher n (some m) = ground arith

latest_version-Covers :
    (source : ℕ) (name : String) (rows : List StoredMapping) (r : StoredMapping)
    → Listed r rows
    → has_key source name r ≡ true
    → Covers (latest_version source name rows) r.version
unfolding latest_version
latest_version-Covers source name [] r there k = elim there [ ]
latest_version-Covers source name (s ∷ rows) r (inl e) k =
    let key : has_key source name s ≡ true = subst (λ x. has_key source name x ≡ true) (sym e) k in
    rw key (
      subst (λ (x : StoredMapping). x.version ≤ higher s.version (latest_version source name rows))
        e (le_higher s.version (latest_version source name rows)))
latest_version-Covers source name (s ∷ rows) r (inr there) k =
    let rest = latest_version-Covers source name rows r there k in
    elim (Bool-cases (has_key source name s)) [
      | inl e ↦ rw e (le_higher_rest s.version r.version (latest_version source name rows) rest)
      | inr e ↦ rw e rest
    ]

check_latest-Covers :
    (version v : ℕ) (latest : Option ℕ)
    → check_latest version latest ≡ ok tt
    → Covers latest v
    → v ≤ version
check_latest-Covers version v none h c = elim c [ ]
check_latest-Covers version v (some n) h c = ground (arith, nat_eq_iff n version)

has_key-SameKey : (r s : StoredMapping) → SameKey r s → has_key s.data_source_id s.name r ≡ true
has_key-SameKey r s (source, name) = rw (
  (nat_eq_iff r.data_source_id s.data_source_id).1 source,
  (string_eq.beq_iff r.name s.name).1 name,
)

-- A row after `supersede`: the same but for its status, which is active only if it was before and
-- the row is another one.
abbrev Marked : ℕ → StoredMapping → StoredMapping → Type 0
Marked id s r =
    (s.id ≡ r.id)
    × (s.data_source_id ≡ r.data_source_id)
    × (s.name ≡ r.name)
    × (s.version ≡ r.version)
    × (r.status ≡ "active" → (s.status ≡ "active") × (s.id ≢ id))

mark-Marked : (id : ℕ) (s : StoredMapping) → Marked id s (mark id s)
mark-Marked id s = elim (Bool-cases (s.id == id)) [
  | inl e ↦ rw e (refl, refl, refl, refl, λ h. ground (arith, eq_iff "superseded" "active", h))
  | inr e ↦ rw e (refl, refl, refl, refl, λ h. (h, λ same. ground (arith, nat_eq_iff s.id id)))
]

module _ (previous : ℕ) (rows : List StoredMapping) (current new : StoredMapping) where
  abbrev after : List StoredMapping
  after = supersede previous rows ++ new ∷ []

  came :
      (r : StoredMapping)
      → Listed r after
      → ((s : StoredMapping) × Listed s rows × Marked previous s r) ⊎ (new ≡ r)
  came r h = elim (append-Listed r new (supersede previous rows) h) [
    | inl there ↦
        let (s, old, e) = supersede-Listed previous r rows there in
        inl (s, old, subst (Marked previous s) e (mark-Marked previous s))
    | inr e ↦ inr e
  ]

  module _ (sound : IsVersioned rows) (listed : Listed current rows) (found : current.id ≡ previous)
      (latest : (r : StoredMapping)
        → Listed r rows
        → SameKey r current
        → r.version ≤ current.version)
      (key : SameKey new current) (raised : new.version ≡ current.version + 1) where
    old_below :
        (r s : StoredMapping)
        → new ≡ r
        → (s0 : StoredMapping) → Listed s0 rows
        → Marked previous s0 s
        → SameKey r s
        → s.version < r.version
    old_below r s e s0 old (same_id, source, name, version, active) k =
        let v = latest s0 old (
          source ∙ sym k.0 ∙ sym (ap (λ (x : StoredMapping). x.data_source_id) e) ∙ key.0,
          name ∙ sym k.1 ∙ sym (ap (λ (x : StoredMapping). x.name) e) ∙ key.1,
        ) in
        omega (arith, v, version, raised, ap (λ (x : StoredMapping). x.version) e)

    -- The version that was active is no longer, so none that is active has the key of the new one.
    none_active :
        (r s : StoredMapping)
        → new ≡ s
        → (r0 : StoredMapping) → Listed r0 rows
        → Marked previous r0 r
        → SameKey r s
        → r.status ≢ "active"
    none_active r s e r0 old (same_id, source, name, version, active) k act =
        let same : SameKey r0 current = (
          source ∙ k.0 ∙ sym (ap (λ (x : StoredMapping). x.data_source_id) e) ∙ key.0,
          name ∙ k.1 ∙ sym (ap (λ (x : StoredMapping). x.name) e) ∙ key.1,
        ) in
        let (was_active, other) = active act in
        let low = latest r0 old same in
        let high = sound.highest r0 current old listed same was_active in
        other (sound.unique r0 current old listed same (omega (arith, low, high)) ∙ found)

    highest_kept :
        (r s : StoredMapping)
        → Listed r after
        → Listed s after
        → SameKey r s
        → r.status ≡ "active"
        → s.version ≤ r.version
    highest_kept r s hr hs k act = elim (came r hr) [
      | inl (r0, old, m) ↦ elim (came s hs) [
        | inl (s0, old', m') ↦
            let v =
              sound.highest r0 s0 old old' (m.1 ∙ k.0 ∙ sym m'.1, m.2 ∙ k.1 ∙ sym m'.2)
                (m.4 act).0 in
            omega (arith, v, m.3, m'.3)
        | inr e ↦ elim (none_active r s e r0 old m k act) [ ]
      ]
      | inr e ↦ elim (came s hs) [
        | inl (s0, old', m) ↦ omega (arith, old_below r s e s0 old' m k)
        | inr e' ↦ omega (
          arith,
          ap (λ (x : StoredMapping). x.version) e,
          ap (λ (x : StoredMapping). x.version) e',
        )
      ]
    ]

    unique_kept :
        (r s : StoredMapping)
        → Listed r after
        → Listed s after
        → SameKey r s
        → r.version ≡ s.version
        → r.id ≡ s.id
    unique_kept r s hr hs k v = elim (came r hr) [
      | inl (r0, old, m) ↦ elim (came s hs) [
        | inl (s0, old', m') ↦
            sym m.0
            ∙ sound.unique r0 s0 old old' (m.1 ∙ k.0 ∙ sym m'.1, m.2 ∙ k.1 ∙ sym m'.2)
                (omega (arith, v, m.3, m'.3))
            ∙ m'.0
        | inr e ↦ omega (arith, old_below s r e r0 old m (sym k.0, sym k.1), v)
      ]
      | inr e ↦ elim (came s hs) [
        | inl (s0, old', m) ↦ omega (arith, old_below r s e s0 old' m k, v)
        | inr e' ↦ ap (λ (x : StoredMapping). x.id) (sym e ∙ e')
      ]
    ]

    after-IsVersioned : IsVersioned after
    after-IsVersioned = record { highest = highest_kept; unique = unique_kept }

-- Adding a version to a mapping keeps the table in order: under one source and name, no two rows
-- have the same version, and an active row has the highest.
pub add_version-IsVersioned :
    (py : Python) (mapping : Mapping) (given : Option ℕ) (previous : ℕ) (lib : Library) {id : ℕ}
    {lib' : Library}
    → IsVersioned lib.mappings
    → add_version py mapping given previous lib ≡ ok (id, lib')
    → IsVersioned lib'.mappings
unfolding add_version
add_version-IsVersioned py mapping given previous lib {id} {lib'} sound h =
    let (current, found, h1) =
      >>=-eq-ok (require unknown_mapping (find_stored previous lib.mappings)) _ h in
    let (_, _, h2) =
      >>=-eq-ok (ensure (same_source given current.data_source_id) source_changed) _ h1 in
    let (_, latest, h3) =
      >>=-eq-ok
        (check_latest current.version
          (latest_version current.data_source_id current.name lib.mappings))
        _ h2 in
    let (_, _, h4) = >>=-eq-ok (check_valid py (next_mapping mapping current)) _ h3 in
    let (listed, same) =
      find_stored-Listed previous current lib.mappings (require-ok unknown_mapping _ found) in
    let new = stored lib.next_id (next_mapping mapping current) current.data_source_id in
    subst (λ p. IsVersioned p.1.mappings) (ok-injective h4)
      (after-IsVersioned previous lib.mappings current new sound listed same
        (λ r there k. check_latest-Covers current.version r.version _ latest (
          latest_version-Covers current.data_source_id current.name lib.mappings r there
            (has_key-SameKey r current k)))
        (refl, refl) refl)
