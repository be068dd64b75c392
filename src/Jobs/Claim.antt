-- ===== src/Jobs/Claim.antt =====
-- What a claim takes from the queue of src/agentlen/infrastructure/jobs/postgres_queue.py.
use agent_len.Base.{ℕ, ◌≤◌, String, ◌≡◌, ◌≢◌, ◌⊎◌, inl, inr, refl, ap, sym, ◌∙◌, true, false}
use agent_len.Base.{Option, none, some, List, [], ◌∷◌, arith, All, ltb, nat_eq}
use agent_len.Base.{Bool-cases, Option-cases}
use mathlib.Core.Path.{subst}
use mathlib.Core.Option.{some-injective}
use agent_len.Base.{All-map, ◌↔◌, contains, nat_eq}
use agent_len.Jobs.{Status, pending, ImportRun, is_pending, update, available, earlier}
use agent_len.Jobs.{next_pending, start_run, claim_next}

abbrev pub Has : ImportRun → List ImportRun → Type 0
Has r [] = ⊥
Has r (s ∷ runs) = (s ≡ r) ⊎ Has r runs

-- `best` is available and stands in the table, and no available run was created before it.
record IsBest (held : List ℕ) (runs : List ImportRun) (best : ImportRun) : Type 0 where
  is_available : available held best ≡ true
  listed : Has best runs
  earliest : All (λ r. available held r ≡ true → best.created_at ≤ r.created_at) runs

abbrev NoneAvailable : List ℕ → List ImportRun → Type 0
NoneAvailable held runs = All (λ r. available held r ≡ false) runs

abbrev Found : List ℕ → List ImportRun → Option ImportRun → Type 0
Found held runs none = NoneAvailable held runs
Found held runs (some best) = IsBest held runs best

relax :
    (held : List ℕ) (a b : ImportRun) (runs : List ImportRun)
    → a.created_at ≤ b.created_at
    → All (λ r. available held r ≡ true → b.created_at ≤ r.created_at) runs
    → All (λ r. available held r ≡ true → a.created_at ≤ r.created_at) runs
relax held a b [] le h = tt
relax held a b (r ∷ runs) le h =
    ((λ free. let k = h.0 free in omega arith), relax held a b runs le h.1)

vacuous :
    (held : List ℕ) (a : ImportRun) (runs : List ImportRun)
    → NoneAvailable held runs
    → All (λ r. available held r ≡ true → a.created_at ≤ r.created_at) runs
vacuous held a [] h = tt
vacuous held a (r ∷ runs) h = ((λ free. cc (h.0)), vacuous held a runs h.1)

earlier-Found :
    (held : List ℕ) (r : ImportRun) (runs : List ImportRun) (best : Option ImportRun)
    → available held r ≡ true
    → Found held runs best
    → Found held (r ∷ runs) (earlier r best)
earlier-Found held r runs none free h = record {
  is_available = free;
  listed = inl refl;
  earliest = ((λ _. omega arith), vacuous held r runs h);
}
earlier-Found held r runs (some s) free h = elim (Bool-cases (ltb s.created_at r.created_at)) [
  | inl lt ↦ rw lt (record {
    is_available = h.is_available;
    listed = inr h.listed;
    earliest = ((λ _. ground (arith, lt)), h.earliest);
  })
  | inr ge ↦ rw ge (record {
    is_available = free;
    listed = inl refl;
    earliest = ((λ _. omega arith), relax held r s runs (ground (arith, ge)) h.earliest);
  })
]

skip-Found :
    (held : List ℕ) (r : ImportRun) (runs : List ImportRun) (best : Option ImportRun)
    → available held r ≡ false
    → Found held runs best
    → Found held (r ∷ runs) best
skip-Found held r runs none taken h = (taken, h)
skip-Found held r runs (some s) taken h = record {
  is_available = h.is_available;
  listed = inr h.listed;
  earliest = ((λ free. cc taken), h.earliest);
}

next_pending-Found :
    (held : List ℕ) (runs : List ImportRun) → Found held runs (next_pending held runs)
unfolding next_pending
next_pending-Found held [] = tt
next_pending-Found held (r ∷ runs) = elim (Bool-cases (available held r)) [
  | inl free ↦ rw free (earlier-Found held r runs _ free (next_pending-Found held runs))
  | inr taken ↦ rw taken (skip-Found held r runs _ taken (next_pending-Found held runs))
]

-- Whether a claim may take a run: it waits, and no other transaction holds it.
abbrev pub IsFree : List ℕ → ImportRun → Type 0
IsFree held r = (r.status ≡ pending) × (contains r.id held ≡ false)

-- `best` is free and stands in the table, and no free run was created before it.
pub record IsNext (held : List ℕ) (runs : List ImportRun) (best : ImportRun) : Type 0 where
  pub is_free : IsFree held best
  pub listed : Has best runs
  pub earliest : All (λ r. IsFree held r → best.created_at ≤ r.created_at) runs

abbrev pub NothingIn : List ℕ → List ImportRun → Type 0
NothingIn held runs = All (λ r. ¬ IsFree held r) runs

is_pending_iff : (s : Status) → (is_pending s ≡ true) ↔ (s ≡ pending)
is_pending_iff pending = (λ h. refl, λ h. refl)
is_pending_iff s = (λ h. cc, λ h. cc)

available-IsFree : (held : List ℕ) (r : ImportRun) → (available held r ≡ true) ↔ IsFree held r
available-IsFree held r =
    let waits = is_pending_iff r.status in
    (
      λ h. (waits.0 (ground (arith, h)), ground (arith, h)),
      λ (w, free). let is = waits.1 w in ground (arith, is, free),
    )

IsBest-IsNext :
    (held : List ℕ) (runs : List ImportRun) (best : ImportRun)
    → IsBest held runs best
    → IsNext held runs best
IsBest-IsNext held runs best h = record {
  is_free = (available-IsFree held best).0 h.is_available;
  listed = h.listed;
  earliest = All-map _ _ runs (λ r le free. le ((available-IsFree held r).1 free)) h.earliest;
}

NoneAvailable-NothingIn :
    (held : List ℕ) (runs : List ImportRun) → NoneAvailable held runs → NothingIn held runs
NoneAvailable-NothingIn held runs h =
    All-map _ _ runs (λ r taken free. let is = (available-IsFree held r).1 free in cc (taken, is)) h

-- A claim takes the oldest run that is pending and not locked elsewhere, and leaves the table as it
-- is only if there is no such run.
pub claim_next-IsNext :
    (worker : String) (now : ℕ) (held : List ℕ) (runs : List ImportRun)
    → ((claim_next worker now held runs ≡ (none, runs)) × NothingIn held runs)
      ⊎ ((r : ImportRun) × IsNext held runs r
          × (claim_next worker now held runs
              ≡ (some r.id, update r.id (start_run worker now) runs)))
unfolding claim_next
claim_next-IsNext worker now held runs = elim (Option-cases (next_pending held runs)) [
  | inl e ↦ inl (
    rw (e, claim_next),
    NoneAvailable-NothingIn held runs (rw e at (next_pending-Found held runs)),
  )
  | inr (r, e) ↦
      inr
        (r, IsBest-IsNext held runs r (rw e at (next_pending-Found held runs)), rw (e, claim_next))
]

not-pending :
    (worker : String) (now : ℕ) (id : ℕ) (runs : List ImportRun) (r : ImportRun)
    → Has r (update id (start_run worker now) runs)
    → is_pending r.status ≡ true
    → r.id ≢ id
not-pending worker now id [] r h p = elim h [ ]
not-pending worker now id (s ∷ runs) r (inr h) p = not-pending worker now id runs r h p
not-pending worker now id (s ∷ runs) r (inl h) p =
    λ same. ground (arith, ap (λ (x : ImportRun). x.status) h, ap (λ (x : ImportRun). x.id) h)

pub IsFree-pending : (held : List ℕ) (r : ImportRun) → IsFree held r → is_pending r.status ≡ true
IsFree-pending held r h = (is_pending_iff r.status).1 h.0

claimed-IsNext :
    (worker : String) (now : ℕ) (held : List ℕ) (runs : List ImportRun) (j : ℕ)
    → (claim_next worker now held runs).0 ≡ some j
    → (r : ImportRun) × IsNext held runs r × (r.id ≡ j)
claimed-IsNext worker now held runs j h = elim (claim_next-IsNext worker now held runs) [
  | inl (e, _) ↦ cc (ap (λ (x : Option ℕ × List ImportRun). x.0) e)
  | inr (r, next, e) ↦
      (r, next, some-injective _ _ (ap (λ (x : Option ℕ × List ImportRun). x.0) (sym e) ∙ h))
]

-- Two claims, one after the other, never hand out the same run, whichever workers make them and
-- whichever rows other transactions hold locked.
pub claim_next-exclusive :
    (a b : String) (t u : ℕ) (held held' : List ℕ) (runs : List ImportRun) (i j : ℕ)
    → (claim_next a t held runs).0 ≡ some i
    → (claim_next b u held' (claim_next a t held runs).1).0 ≡ some j
    → i ≢ j
claim_next-exclusive a b t u held held' runs i j first second same =
    elim (claim_next-IsNext a t held runs) [
      | inl (e, _) ↦ cc (ap (λ (x : Option ℕ × List ImportRun). x.0) e)
      | inr (r, next, e) ↦
          let (s, next', at) = claimed-IsNext b u held' (claim_next a t held runs).1 j second in
          let there : Has s (update r.id (start_run a t) runs) =
            subst (Has s) (ap (λ (x : Option ℕ × List ImportRun). x.1) e) next'.listed in
          let taken =
            some-injective _ _ (ap (λ (x : Option ℕ × List ImportRun). x.0) (sym e) ∙ first) in
          not-pending a t r.id runs s there (IsFree-pending held' s next'.is_free)
            (at ∙ sym same ∙ sym taken)
    ]
