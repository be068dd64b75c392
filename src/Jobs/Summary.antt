-- ===== src/Jobs/Summary.antt =====
-- `failure_summary` of src/agentlen/infrastructure/jobs/worker.py: the class names along a chain of
-- exceptions.
use agent_len.Base.{
  ℕ, zero, suc, ◌+◌, ◌≤◌, String, ◌<>◌, ◌≡◌, ◌≢◌, Bool, false, List, [], ◌∷◌, ◌++◌,
}
use agent_len.Base.{
  arith, length, length-append, ◌==◌, eq_iff, string_eq, Bool-cases, inl, inr, if◌then◌else◌,
  decimal,
}

-- An exception: its class, `__cause__`, `__suppress_context__` and `__context__`.
pub data Raised : Type 0 where
  nothing : Raised
  raised : String → Raised → Bool → Raised → Raised

abbrev pub is_last : String → List String → Bool
is_last name [] = false
is_last name (n ∷ []) = n == name
is_last name (n ∷ m ∷ names) = is_last name (m ∷ names)

-- `current.__cause__ or (None if current.__suppress_context__ else current.__context__)`
abbrev pub behind : Raised → Bool → Raised → Raised
behind (raised n c s x) suppress context = raised n c s x
behind nothing suppress context = if suppress then nothing else context

-- The loop, with the rounds left.
unfoldable pub chain_names : ℕ → Raised → List String → List String
chain_names zero current names = names
chain_names (suc rounds) nothing names = names
chain_names (suc rounds) (raised name cause suppress context) names =
    chain_names rounds (behind cause suppress context)
      (if is_last name names then names else names ++ name ∷ [])

abbrev pub max_cause_depth : ℕ
max_cause_depth = 4

unfoldable pub failure_names : Raised → List String
unfolding chain_names
failure_names e = chain_names max_cause_depth e []

abbrev pub arrows : List String → String
arrows [] = ""
arrows (n ∷ []) = n
arrows (n ∷ m ∷ names) = n <> " <- " <> arrows (m ∷ names)

unfoldable pub failure_summary : ℕ → Raised → String
unfolding failure_names decimal
failure_summary id e =
    "Import "
    <> decimal id
    <> " en échec : "
    <> arrows (failure_names e)
    <> " (détail non conservé : il peut contenir des données de trace)."

-- No name stands twice in a row.
abbrev pub NoRepeat : List String → Type 0
NoRepeat [] = Unit
NoRepeat (n ∷ []) = Unit
NoRepeat (n ∷ m ∷ names) = (n ≢ m) × NoRepeat (m ∷ names)

append-NoRepeat :
    (name : String) (names : List String)
    → NoRepeat names
    → is_last name names ≡ false
    → NoRepeat (names ++ name ∷ [])
append-NoRepeat name [] h new = tt
append-NoRepeat name (n ∷ []) h new = ((λ e. ground (arith, eq_iff n name)), tt)
append-NoRepeat name (n ∷ m ∷ names) h new = (h.0, append-NoRepeat name (m ∷ names) h.1 new)

chain_names-fit :
    (rounds : ℕ) (e : Raised) (names : List String)
    → NoRepeat names
    → (length (chain_names rounds e names) ≤ length names + rounds)
      × NoRepeat (chain_names rounds e names)
unfolding chain_names
chain_names-fit zero e names h = (omega arith, h)
chain_names-fit (suc rounds) nothing names h = (omega arith, h)
chain_names-fit (suc rounds) (raised name cause suppress context) names h =
    elim (Bool-cases (is_last name names)) [
      | inl old ↦ rw old (
          let r = chain_names-fit rounds (behind cause suppress context) names h in
          (omega arith, r.1))
      | inr new ↦ rw new (
          let r =
            chain_names-fit rounds (behind cause suppress context) (names ++ name ∷ [])
              (append-NoRepeat name names h new) in
          (omega (arith, length-append names (name ∷ [])), r.1))
    ]

-- A summary names at most four classes, however long the chain is, and none twice in a row.
pub failure_names-fit :
    (e : Raised) → (length (failure_names e) ≤ max_cause_depth) × NoRepeat (failure_names e)
unfolding failure_names
failure_names-fit e = chain_names-fit max_cause_depth e [] tt
