-- ===== src/Base/Dict.antt =====
-- Python dicts with text keys, in insertion order.
use mathlib.Core.Path.{◌≡◌, refl, ap, sym, ◌∙◌}
use mathlib.Core.List.{List, [], ◌∷◌}
use mathlib.Core.Option.{Option, none, some}
use native.Mathlib.Omega.{arith}
use mathlib.Core.Logic.{inl, inr}
use agent_len.Base.Tests.{Bool-cases, Eq, ◌==◌, if◌then◌else◌}

abbrev pub Dict {ℓ κ} : Type ℓ → Type κ → Type (ℓ ⊔ κ)
Dict K V = List (K × V)

module _ {ℓ κ} {K : Type ℓ} {V : Type κ} ⦃e : Eq K⦄ where
  -- `d.get(k)`
  abbrev pub lookup : K → Dict K V → Option V
  lookup k [] = none
  lookup k ((j, v) ∷ d) = if j == k then some v else lookup k d

  -- `d.get(k, default)`
  abbrev pub get_or : K → V → Dict K V → V
  get_or k default d = elim (lookup k d) [ some v ↦ v | none ↦ default ]

  -- `d[k] = v`
  abbrev pub insert : K → V → Dict K V → Dict K V
  insert k v [] = (k, v) ∷ []
  insert k v ((j, w) ∷ d) = if j == k then (k, v) ∷ d else (j, w) ∷ insert k v d

  pub lookup-insert :
      (k j : K) (v : V) (d : Dict K V)
      → lookup j (insert k v d) ≡ (if k == j then some v else lookup j d)
  lookup-insert k j v [] = refl
  lookup-insert k j v ((i, w) ∷ d) =
      ground (arith, e.beq_iff k j, e.beq_iff i k, e.beq_iff i j, lookup-insert k j v d)

  -- What one dict holds, the other holds too.
  abbrev pub Extends : Dict K V → Dict K V → Type (ℓ ⊔ κ)
  Extends d more = (k : K) (v : V) → lookup k d ≡ some v → lookup k more ≡ some v

  -- Setting what is there, or what was not, loses nothing.
  pub Extends-insert :
      (k : K) (v : V) (d : Dict K V)
      → ((w : V) → lookup k d ≡ some w → w ≡ v)
      → Extends d (insert k v d)
  Extends-insert k v d same j w h = elim (Bool-cases (k == j)) [
    | inl is ↦
        lookup-insert k j v d
        ∙ rw is (ap some (sym (same w (ap (λ i. lookup i d) ((e.beq_iff k j).0 is) ∙ h))))
    | inr other ↦ lookup-insert k j v d ∙ rw other h
  ]

  pub insert-Extends :
      (k : K) (v : V) (d more : Dict K V)
      → lookup k more ≡ some v
      → Extends d more
      → Extends (insert k v d) more
  insert-Extends k v d more there h j w found = elim (Bool-cases (k == j)) [
    | inl is ↦
        sym (ap (λ i. lookup i more) ((e.beq_iff k j).0 is))
        ∙ there
        ∙ sym (rw is refl)
        ∙ sym (lookup-insert k j v d)
        ∙ found
    | inr other ↦ h j w (sym (rw other refl) ∙ sym (lookup-insert k j v d) ∙ found)
  ]
