-- ===== src/Base/Dicts.antt =====
-- A Go map keyed by texts, as an association list.
use Prim.Native.String.{String}
use mathlib.Core.Path.{◌≡◌}
use mathlib.Core.Logic.{inl, inr}
use mathlib.Core.Option.{Option, none, some}
use mathlib.Core.List.{List, [], ◌∷◌}
use text.Mathlib.Text.{◌==◌ as str_eq}
use text.Mathlib.TextPositions.{eq_refl}
use azdo_kube_operator.Base.Tests.{Bool-cases, if◌then◌else◌}

abbrev pub Dict {ℓ} : Type ℓ → Type ℓ
Dict V = List (String × V)

module _ {ℓ} {V : Type ℓ} (key : String) where
  -- `v, ok := m[key]`
  unfoldable pub lookup : Dict V → Option V
  lookup [] = none
  lookup (entry ∷ rest) =
      let below = lookup rest in if str_eq key entry.0 then some entry.1 else below

  -- `m[key] = v`: the entry is replaced where it stands, or added behind the others.
  unfoldable pub insert : V → Dict V → Dict V
  insert v [] = (key, v) ∷ []
  insert v (entry ∷ rest) =
      let below = insert v rest in if str_eq key entry.0 then (key, v) ∷ rest else entry ∷ below

  pub lookup-insert : (v : V) (m : Dict V) → lookup (insert v m) ≡ some v
  unfolding lookup insert
  lookup-insert v [] = rw (eq_refl key)
  lookup-insert v (entry ∷ rest) = elim (Bool-cases (str_eq key entry.0)) [
    | inl e ↦ rw (e, eq_refl key)
    | inr e ↦ rw e (rw e (lookup-insert v rest))
  ]
