-- ===== src/Base/Dict.antt =====
-- A Python dict in insertion order: assigning to a present key keeps its place.
use mathlib.Core.Path.{◌≡◌}
use mathlib.Core.Logic.{◌≢◌}
use mathlib.Core.Option.{Option, none, some}
use mathlib.Core.List.{List, [], ◌∷◌}
use native.Mathlib.Omega.{arith}
use ta_model_v.Base.Tests.{if◌then◌else◌}
use ta_model_v.Base.Equality.{Eq}

abbrev pub Dict {ℓ κ} : Type ℓ → Type κ → Type (ℓ ⊔ κ)
Dict K V = List (K × V)

module _ {ℓ κ} {K : Type ℓ} {V : Type κ} ⦃e : Eq K⦄ where
  -- `d.get(k)`
  abbrev pub lookup : K → Dict K V → Option V
  lookup k [] = none
  lookup k ((j, v) ∷ d) = if e.beq k j then some v else lookup k d

  -- `d[k] = v`
  abbrev pub insert : K → V → Dict K V → Dict K V
  insert k v [] = (k, v) ∷ []
  insert k v ((j, w) ∷ d) = if e.beq k j then (j, v) ∷ d else (j, w) ∷ insert k v d

  -- What a lookup finds after an assignment.
  pub lookup-insert_self : (k : K) (v : V) (d : Dict K V) → lookup k (insert k v d) ≡ some v
  lookup-insert_self k v [] = ground (arith, e.beq_iff k k)
  lookup-insert_self k v ((j, w) ∷ rest) =
      ground (arith, lookup-insert_self k v rest, e.beq_iff k j)

  pub lookup-insert_ne :
      (other k : K) (v : V) (d : Dict K V)
      → other ≢ k
      → lookup other (insert k v d) ≡ lookup other d
  lookup-insert_ne other k v [] differ = ground (arith, e.beq_iff other k)
  lookup-insert_ne other k v ((i, w) ∷ rest) differ = ground (
    arith,
    lookup-insert_ne other k v rest differ,
    e.beq_iff other i,
    e.beq_iff k i,
    e.beq_iff other k,
  )
