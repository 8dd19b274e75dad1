-- ===== src/Base/Tables.antt =====
-- A `Map` with string keys, in insertion order, as an association list.
use Prim.Native.Nat.{ℕ, suc, ◌≤◌, ◌<◌}
use mathlib.Core.Path.{◌≡◌}
use mathlib.Core.Logic.{inl, inr}
use mathlib.Core.Bool.{false}
use mathlib.Core.Option.{Option, none, some}
use mathlib.Core.List.{List, [], ◌∷◌}
use native.Mathlib.Omega.{arith}
use project_process_map.Base.Tests.{if◌then◌else◌, Bool-cases}
use project_process_map.Base.Lists.{length}
use project_process_map.Base.Equality.{Eq, ◌==◌, eq_of, eq_refl, list_eq, nat_eq}
use project_process_map.Base.Sets.{contains}

module _ {ℓ κ} {K : Type ℓ} {V : Type κ} ⦃e : Eq K⦄ where
  -- `map.get(key)`
  abbrev pub get : List (K × V) → K → Option V
  get [] key = none
  get ((k, v) ∷ table) key = if k == key then some v else get table key

  -- `map.set(key, value)`
  unfoldable pub put : List (K × V) → K → V → List (K × V)
  put [] key value = (key, value) ∷ []
  put ((k, v) ∷ table) key value =
      if k == key then (k, value) ∷ table else (k, v) ∷ put table key value

  pub get-put_self :
      (table : List (K × V)) (key : K) (value : V) → get (put table key value) key ≡ some value
  unfolding put
  get-put_self [] key value = rw (eq_refl key)
  get-put_self ((k, v) ∷ table) key value = elim (Bool-cases (k == key)) [
    | inl same ↦ rw same (rw same)
    | inr other ↦ rw other (rw other (get-put_self table key value))
  ]

  pub get-put_other :
      (table : List (K × V)) (key other : K) (value : V)
      → (key == other) ≡ false
      → get (put table key value) other ≡ get table other
  unfolding put
  get-put_other [] key other value h = rw h
  get-put_other ((k, v) ∷ table) key other value h = elim (Bool-cases (k == key)) [
    | inl same ↦ rw same (let p : (k == other) ≡ false = rw (eq_of k key same) h in rw p)
    | inr differ ↦ rw differ (ground (arith, get-put_other table key other value h))
  ]

  -- How many entries have a key outside of a set.
  abbrev pub outside : List (K × V) → List K → ℕ
  outside [] seen = 0
  outside ((k, v) ∷ table) seen =
      let rest = outside table seen in if contains seen k then rest else suc rest

  pub outside-le-length : (table : List (K × V)) (seen : List K) → outside table seen ≤ length table
  outside-le-length [] seen = omega arith
  outside-le-length ((k, v) ∷ table) seen = ground (arith, outside-le-length table seen)

  outside-le :
      (table : List (K × V)) (seen : List K) (key : K)
      → outside table (key ∷ seen) ≤ outside table seen
  outside-le [] seen key = omega arith
  outside-le ((k, v) ∷ table) seen key = ground (arith, outside-le table seen key)

  -- A key of the table that is new to the set brings the count down.
  pub outside-lt :
      (table : List (K × V)) (seen : List K) (key : K) (value : V)
      → get table key ≡ some value
      → contains seen key ≡ false
      → outside table (key ∷ seen) < outside table seen
  outside-lt [] seen key value h new = absurd (let never : ⊥ = cc in never)
  outside-lt ((k, v) ∷ table) seen key value h new = elim (Bool-cases (k == key)) [
    | inl same ↦
        let p = eq_of k key same in
        let fresh : contains seen k ≡ false = rw p new in
        rw (fresh) (ground (arith, eq_refl key, p, outside-le table seen key))
    | inr differ ↦ ground (arith, outside-lt table seen key value, outside-le table seen key)
  ]
