-- ===== src/Base/Dict.antt =====
-- A Python dict with text keys, in insertion order.
use Prim.Native.String.{String}
use mathlib.Core.Path.{◌≡◌, subst}
use mathlib.Core.Logic.{◌≢◌, inl, inr}
use mathlib.Core.Bool.{Bool}
use mathlib.Core.List.{List, [], ◌∷◌}
use mathlib.Core.Option.{Option, none, some}
use native.Mathlib.Omega.{arith}
use text.Mathlib.Text.{◌==◌ as str_eq}
use text.Mathlib.TextEquality.{eq_iff}
use highthroughputingestion.Base.Tests.{if◌then◌else◌, is_some, Bool-cases}

abbrev pub Dict {ℓ} : Type ℓ → Type ℓ
Dict V = List (String × V)

module _ {ℓ} {V : Type ℓ} where
  -- `d.get(k)`
  abbrev pub lookup : String → Dict V → Option V
  lookup k [] = none
  lookup k ((j, v) ∷ d) = if str_eq j k then some v else lookup k d

  -- `k in d`
  abbrev pub contains : String → Dict V → Bool
  contains k d = is_some (lookup k d)

  -- `d[k] = v`
  abbrev pub insert : String → V → Dict V → Dict V
  insert k v [] = (k, v) ∷ []
  insert k v ((j, w) ∷ d) = if str_eq j k then (k, v) ∷ d else (j, w) ∷ insert k v d

  pub lookup-insert_self : (k : String) (v : V) (d : Dict V) → lookup k (insert k v d) ≡ some v
  lookup-insert_self k v [] = ground (arith, eq_iff k k)
  lookup-insert_self k v ((j, w) ∷ d) =
      ground (arith, eq_iff k k, eq_iff j k, lookup-insert_self k v d)

  pub lookup-insert_ne :
      (j k : String) (v : V) (d : Dict V) → j ≢ k → lookup j (insert k v d) ≡ lookup j d
  lookup-insert_ne j k v [] h = ground (arith, eq_iff k j)
  lookup-insert_ne j k v ((i, w) ∷ d) h =
      ground (arith, eq_iff k j, eq_iff i k, eq_iff i j, lookup-insert_ne j k v d h)

  pub lookup-insert :
      (k j : String) (v : V) (d : Dict V)
      → lookup j (insert k v d) ≡ (if str_eq k j then some v else lookup j d)
  lookup-insert k j v [] = ground (arith, eq_iff k j)
  lookup-insert k j v ((i, w) ∷ d) =
      ground (arith, eq_iff k j, eq_iff i k, eq_iff i j, lookup-insert k j v d)

-- What holds of a new value and of all old ones holds of every value afterwards.
pub insert-all {ℓ κ} :
    {V : Type ℓ} (P : V → Type κ) (k : String) (v : V) (d : Dict V)
    → P v
    → ((j : String) (w : V) → lookup j d ≡ some w → P w)
    → (j : String) (w : V) → lookup j (insert k v d) ≡ some w
    → P w
insert-all P k v d new old j w found = elim (Bool-cases (str_eq k j)) [
  | inl same ↦ let e : v ≡ w = ground (arith, lookup-insert k j v d) in subst P e new
  | inr other ↦ old j w (ground (arith, lookup-insert k j v d))
]
