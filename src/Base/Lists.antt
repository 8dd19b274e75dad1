-- ===== src/Base/Lists.antt =====
-- Lists over the native numbers, and what holds of all the items of a list.
use Prim.Native.Nat.{ℕ, suc, ◌+◌}
use mathlib.Core.Path.{◌≡◌}
use mathlib.Core.Bool.{Bool, true, false, ◌&&◌, ◌||◌}
use mathlib.Core.List.{List, [], ◌∷◌, ◌++◌}
use native.Mathlib.Omega.{arith}

module _ {ℓ} {A : Type ℓ} where
  abbrev pub length : List A → ℕ
  length [] = 0
  length (x ∷ xs) = suc (length xs)

  pub length-append : (xs ys : List A) → length (xs ++ ys) ≡ length xs + length ys
  length-append [] ys = omega arith
  length-append (x ∷ xs) ys = omega (arith, length-append xs ys)

  -- `xs.some(p)` and `xs.every(p)`.
  abbrev pub any : (A → Bool) → List A → Bool
  any p [] = false
  any p (x ∷ xs) = p x || any p xs

  abbrev pub all : (A → Bool) → List A → Bool
  all p [] = true
  all p (x ∷ xs) = p x && all p xs

module _ {ℓ κ} {A : Type ℓ} (P : A → Type κ) where
  abbrev pub All : List A → Type κ
  All [] = Unit
  All (x ∷ xs) = P x × All xs

-- The item occurs in the list.
pub data IsIn {ℓ} {A : Type ℓ} (a : A) : List A → Type ℓ where
  at_head : {x : A} {xs : List A} → a ≡ x → IsIn a (x ∷ xs)
  in_tail : {x : A} {xs : List A} → IsIn a xs → IsIn a (x ∷ xs)

pub not_in_nil {ℓ} : {A : Type ℓ} {a : A} → IsIn a [] → ⊥
not_in_nil h = elim h [ ]

pub in_singleton {ℓ} : {A : Type ℓ} {a x : A} → IsIn a (x ∷ []) → a ≡ x
in_singleton (at_head e) = e
in_singleton (in_tail h) = absurd (not_in_nil h)
