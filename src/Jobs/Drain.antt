-- ===== src/Jobs/Drain.antt =====
-- What `run_once` and `run_forever` of src/agentlen/infrastructure/jobs/worker.py leave in the queue.
use agent_len.Base.{
  ℕ, zero, suc, ◌+◌, ◌≤◌, ◌<◌, String, ◌≡◌, ◌⊎◌, inl, inr, refl, ap, ◌∙◌, true, false,
}
use agent_len.Base.{Option, none, some, List, [], ◌∷◌, arith, All, ◌==◌, nat_eq}
use agent_len.Base.{if◌then◌else◌, Bool-cases}
use agent_len.Jobs.{Status, succeeded, partial, pending, ImportRun, is_pending, update}
use agent_len.Jobs.{claim_next, mark_succeeded, mark_failed, start_run}
use agent_len.Jobs.Claim.{Has, IsNext, NothingIn, IsFree-pending, claim_next-IsNext}
use agent_len.Jobs.Worker.{
  Ending, reported, failed, interrupted, Turn, idle, worked, broken, Importer, World, released,
  claimed, run_once, drain,
}
use agent_len.Base.{◌≢◌, contains}

-- The run ended in a final status, and it is not locked.
abbrev pub IsReleased : ImportRun → Type 0
IsReleased r =
    ((r.status ≡ succeeded) ⊎ ((r.status ≡ partial) ⊎ (r.status ≡ Status.failed)))
    × (r.locked_at ≡ none)
    × (r.locked_by ≡ none)

update-IsReleased :
    (id : ℕ) (change : ImportRun → ImportRun) (runs : List ImportRun)
    → ((r : ImportRun) → IsReleased (change r))
    → ((r : ImportRun) → (change r).id ≡ r.id)
    → All (λ r. r.id ≡ id → IsReleased r) (update id change runs)
update-IsReleased id change [] done same = tt
update-IsReleased id change (r ∷ runs) done same = elim (Bool-cases (r.id == id)) [
  | inl e ↦ rw e ((λ _. done r), update-IsReleased id change runs done same)
  | inr e ↦ rw e ((λ p. ground (arith, p, e)), update-IsReleased id change runs done same)
]

abbrev pub count_pending : List ImportRun → ℕ
count_pending [] = 0
count_pending (r ∷ runs) = (if is_pending r.status then 1 else 0) + count_pending runs

-- A change that makes no run pending adds none to the count.
update-count :
    (id : ℕ) (change : ImportRun → ImportRun) (runs : List ImportRun)
    → ((r : ImportRun) → is_pending (change r).status ≡ false)
    → count_pending (update id change runs) ≤ count_pending runs
update-count id change [] h = omega arith
update-count id change (r ∷ runs) h = ground (arith, update-count id change runs h, h r)

update-count_lt :
    (id : ℕ) (change : ImportRun → ImportRun) (runs : List ImportRun) (best : ImportRun)
    → ((r : ImportRun) → is_pending (change r).status ≡ false)
    → Has best runs
    → best.id ≡ id
    → is_pending best.status ≡ true
    → count_pending (update id change runs) < count_pending runs
update-count_lt id change [] best h there same waits = elim there [ ]
update-count_lt id change (r ∷ runs) best h (inl e) same waits = ground (
  arith,
  update-count id change runs h,
  h r,
  ap (λ (x : ImportRun). x.id) e,
  ap (λ (x : ImportRun). x.status) e,
)
update-count_lt id change (r ∷ runs) best h (inr there) same waits =
    ground (arith, update-count_lt id change runs best h there same waits, h r)

-- No run is pending but those that other transactions hold.
abbrev pub Emptied : List ℕ → List ImportRun → Type 0
Emptied held = All (λ r. r.status ≡ pending → contains r.id held ≡ true)

NothingIn-Emptied :
    (held : List ℕ) (runs : List ImportRun) → NothingIn held runs → Emptied held runs
NothingIn-Emptied held [] h = tt
NothingIn-Emptied held (r ∷ runs) h = (
  λ waits. elim (Bool-cases (contains r.id held)) [ inl e ↦ e | inr e ↦ absurd (h.0 (waits, e)) ],
  NothingIn-Emptied held runs h.1,
)

ends_well :
    (id : ℕ) (w : World) (r : Ending × List ImportRun)
    → r.0 ≢ interrupted
    → ((released id w r).0 ≡ worked) × All (λ x. x.id ≡ id → IsReleased x) (released id w r).1.runs
unfolding mark_succeeded mark_failed
ends_well id w (reported zero, runs) whole =
    (refl, update-IsReleased id _ runs (λ r. (inl refl, refl, refl)) (λ r. refl))
ends_well id w (reported (suc n), runs) whole =
    (refl, update-IsReleased id _ runs (λ r. (inr (inl refl), refl, refl)) (λ r. refl))
ends_well id w (failed e, runs) whole =
    (refl, update-IsReleased id _ runs (λ r. (inr (inr refl), refl, refl)) (λ r. refl))
ends_well id w (interrupted, runs) whole = absurd (whole refl)

-- What is left of a run that was claimed, given how its import ended.
abbrev pub IsLeft : ℕ → Ending × List ImportRun → Turn × World → Type 0
IsLeft id ended (turn, after) =
    ((ended.0 ≢ interrupted) × (turn ≡ worked) × All (λ r. r.id ≡ id → IsReleased r) after.runs)
    ⊎ ((ended.0 ≡ interrupted) × (turn ≡ broken) × (after.runs ≡ ended.1))

released-stopping :
    (id : ℕ) (w : World) (r : Ending × List ImportRun) → (released id w r).1.stopping ≡ w.stopping
released-stopping id w (reported n, runs) = refl
released-stopping id w (failed e, runs) = refl
released-stopping id w (interrupted, runs) = refl

released-count :
    (id : ℕ) (w : World) (r : Ending × List ImportRun)
    → count_pending (released id w r).1.runs ≤ count_pending r.1
released-count id w (reported zero, runs) =
    unfold mark_succeeded in update-count id _ runs (λ r. refl)
released-count id w (reported (suc n), runs) =
    unfold mark_succeeded in update-count id _ runs (λ r. refl)
released-count id w (failed e, runs) = unfold mark_failed in update-count id _ runs (λ r. refl)
released-count id w (interrupted, runs) = omega arith

module _ (worker : String) (importer : Importer) where
  module _ (held : List ℕ)
      (whole : (id : ℕ) (runs : List ImportRun) → (importer id runs).0 ≢ interrupted)
      (keeps : (id : ℕ) (runs : List ImportRun)
        → count_pending (importer id runs).1 ≤ count_pending runs) where
    run_once-count :
        (w : World)
        → (((run_once worker importer held w).0 ≡ worked)
            × (count_pending (run_once worker importer held w).1.runs < count_pending w.runs))
          ⊎ (((run_once worker importer held w).0 ≡ idle)
              × Emptied held (run_once worker importer held w).1.runs)
    unfolding run_once
    run_once-count w = elim (claim_next-IsNext worker w.clock held w.runs) [
      | inl (e, nothing) ↦ rw e (inr (refl, NothingIn-Emptied held w.runs nothing))
      | inr (r, next, e) ↦ rw e (inl (went r, shorter r next))
    ]
      where
        went :
            (r : ImportRun)
            → (released r.id w (importer r.id (update r.id (start_run worker w.clock) w.runs))).0
              ≡ worked
        went r =
            let runs = update r.id (start_run worker w.clock) w.runs in
            (ends_well r.id w (importer r.id runs) (whole r.id runs)).0

        shorter :
            (r : ImportRun)
            → IsNext held w.runs r
            → let runs = update r.id (start_run worker w.clock) w.runs in
              count_pending (released r.id w (importer r.id runs)).1.runs < count_pending w.runs
        shorter r next =
            let runs = update r.id (start_run worker w.clock) w.runs in
            omega (
              arith,
              released-count r.id w (importer r.id runs),
              keeps r.id runs,
              update-count_lt r.id (start_run worker w.clock) w.runs r (λ s. refl) next.listed refl
                  (IsFree-pending held r next.is_free),
            )

    claimed-stopping :
        (w : World) (c : Option ℕ × List ImportRun)
        → (claimed worker importer w c).1.stopping ≡ w.stopping
    claimed-stopping w (none, runs) = refl
    claimed-stopping w (some id, runs) = released-stopping id w (importer id runs)

    run_once-stopping : (w : World) → (run_once worker importer held w).1.stopping ≡ w.stopping
    unfolding run_once
    run_once-stopping w = claimed-stopping w (claim_next worker w.clock held w.runs)

    -- With more rounds than there are pending runs, a worker that is not asked to stop drains the
    -- queue: it ends with no run pending but those that other transactions hold all the while, if
    -- no import is interrupted and importing a run makes no other run pending.
    pub drain-empties :
        (fuel : ℕ) (w : World)
        → count_pending w.runs < fuel
        → w.stopping ≡ false
        → Emptied held (drain worker importer held fuel w).runs
    unfolding drain
    drain-empties zero w h go = elim h [ ]
    drain-empties (suc fuel) w h go = simp go (elim (run_once-count w) [
      | inl (more, less) ↦ rw more (
          drain-empties fuel (run_once worker importer held w).1 (omega arith)
            (run_once-stopping w ∙ go))
      | inr (done, clean) ↦ rw done clean
    ])
