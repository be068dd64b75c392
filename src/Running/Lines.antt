-- ===== src/Running/Lines.antt =====
-- Different lines of an interval, and the set difference of src/agentlen/application/use_cases/run_import.py.
use mathlib.Core.Path.{subst}
use agent_len.Base.{ℕ, zero, suc, ◌+◌, ◌≤◌, ◌<◌, ◌≡◌, refl, ap, sym, ◌∙◌, false, ◌||◌}
use agent_len.Base.{List, [], ◌∷◌, arith, All, contains, nat_eq, ◌==◌, if◌then◌else◌}
use agent_len.Base.{inl, inr, Bool-cases, length}
use agent_len.Storage.Distinct.{Distinct}
use agent_len.Running.Counters.{fresh}

-- The lines from `low` to below `high`.
abbrev pub Within : ℕ → ℕ → ℕ → Type 0
Within low high n = (low ≤ n) × (n < high)

without : ℕ → List ℕ → List ℕ
without x [] = []
without x (n ∷ ns) = if n == x then ns else n ∷ without x ns

length-without : (x : ℕ) (ns : List ℕ) → length ns ≤ suc (length (without x ns))
unfolding without
length-without x [] = omega arith
length-without x (n ∷ ns) = ground (arith, length-without x ns)

contains-without :
    (y x : ℕ) (ns : List ℕ) → contains y ns ≡ false → contains y (without x ns) ≡ false
unfolding without
contains-without y x [] h = refl
contains-without y x (n ∷ ns) h = ground (arith, h, contains-without y x ns)

without-Distinct : (x : ℕ) (ns : List ℕ) → Distinct ns → Distinct (without x ns)
unfolding without
without-Distinct x [] h = tt
without-Distinct x (n ∷ ns) h = elim (Bool-cases (n == x)) [
  | inl y ↦ rw y h.1
  | inr o ↦ rw o (contains-without n x ns h.0, without-Distinct x ns h.1)
]

above :
    (low high : ℕ) (ns : List ℕ)
    → contains low ns ≡ false
    → All (Within low high) ns
    → All (Within (suc low) high) ns
above low high [] away h = tt
above low high (n ∷ ns) away h = (
  (ground (arith, h.0, away, nat_eq.beq_iff n low), h.0.1),
  above low high ns (ground (arith, away)) h.1,
)

without-Within :
    (low high : ℕ) (ns : List ℕ)
    → Distinct ns
    → All (Within low high) ns
    → All (Within (suc low) high) (without low ns)
unfolding without
without-Within low high [] d h = tt
without-Within low high (n ∷ ns) d h = elim (Bool-cases (n == low)) [
  | inl y ↦
      rw y
        (above low high ns (ap (λ m. contains m ns) (sym ((nat_eq.beq_iff n low).0 y)) ∙ d.0) h.1)
  | inr o ↦
      rw o
        ((ground (arith, h.0, o, nat_eq.beq_iff n low), h.0.1), without-Within low high ns d.1 h.1)
]

-- Different lines of an interval are at most as many as it has.
pub length-Within :
    (k low : ℕ) (ns : List ℕ) → Distinct ns → All (Within low (low + k)) ns → length ns ≤ k
length-Within zero low [] d h = omega arith
length-Within zero low (n ∷ ns) d h = absurd (omega (arith, h.0))
length-Within (suc k) low ns d h = omega (
  arith,
  length-without low ns,
  length-Within k (suc low) (without low ns) (without-Distinct low ns d) (
      subst (λ m. All (Within (suc low) m) (without low ns)) (omega arith)
        (without-Within low (low + suc k) ns d h)),
)

contains-fresh :
    (x : ℕ) (xs seen : List ℕ) → contains x xs ≡ false → contains x (fresh xs seen) ≡ false
unfolding fresh
contains-fresh x [] seen h = refl
contains-fresh x (y ∷ xs) seen h = ground (arith, h, contains-fresh x xs seen)

pub fresh-Distinct : (xs seen : List ℕ) → Distinct (fresh xs seen)
unfolding fresh
fresh-Distinct [] seen = tt
fresh-Distinct (x ∷ xs) seen = elim (Bool-cases (contains x seen || contains x (fresh xs seen))) [
  | inl y ↦ rw y (fresh-Distinct xs seen)
  | inr n ↦ rw n (ground (arith, n), fresh-Distinct xs seen)
]

pub fresh-All : (P : ℕ → Type 0) (xs seen : List ℕ) → All P xs → All P (fresh xs seen)
unfolding fresh
fresh-All P [] seen h = tt
fresh-All P (x ∷ xs) seen h = elim (Bool-cases (contains x seen || contains x (fresh xs seen))) [
  | inl y ↦ rw y (fresh-All P xs seen h.1)
  | inr n ↦ rw n (h.0, fresh-All P xs seen h.1)
]
