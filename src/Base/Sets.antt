-- ===== src/Base/Sets.antt =====
-- `new Set(xs)` as the list of its items in insertion order.
use Prim.Native.Nat.{◌+◌, ◌≤◌}
use mathlib.Core.Path.{◌≡◌, refl, ◌∙◌, sym, ap}
use mathlib.Core.Logic.{◌↔◌, inl, inr}
use mathlib.Core.Bool.{Bool, true, false, ◌||◌}
use mathlib.Core.List.{List, [], ◌∷◌, ◌++◌}
use native.Mathlib.Omega.{arith}
use project_process_map.Base.Tests.{if◌then◌else◌, Bool-cases, not_true}
use project_process_map.Base.Lists.{length, length-append}
use project_process_map.Base.Equality.{Eq, ◌==◌, eq_of}

module _ {ℓ} {A : Type ℓ} ⦃e : Eq A⦄ where
  -- `xs.includes(a)`, `set.has(a)`
  abbrev pub contains : List A → A → Bool
  contains [] a = false
  contains (x ∷ xs) a = x == a || contains xs a

  unfoldable pub set_from : List A → List A → List A
  set_from seen [] = seen
  set_from seen (x ∷ xs) = set_from (if contains seen x then seen else seen ++ x ∷ []) xs

  abbrev pub set_of : List A → List A
  set_of xs = set_from [] xs

  -- No item occurs twice.
  abbrev pub AllDistinct : List A → Type 0
  AllDistinct [] = Unit
  AllDistinct (x ∷ xs) = (contains xs x ≡ false) × AllDistinct xs

  abbrev pub AllNew : List A → List A → Type 0
  AllNew seen [] = Unit
  AllNew seen (x ∷ xs) = (contains seen x ≡ false) × AllNew seen xs

  pub eq_comm : (a b : A) → (a == b) ≡ (b == a)
  eq_comm a b = elim (Bool-cases (a == b)) [
    | inl h ↦ h ∙ sym ((e.agrees b a).1 (sym (eq_of a b h)))
    | inr h ↦ h ∙ sym (not_true (b == a) (λ p. differ a b h (sym (eq_of b a p))))
  ]
    where
      differ : (a b : A) → (a == b) ≡ false → a ≡ b → ⊥
      differ a b h p =
          let both : true ≡ false = sym ((e.agrees a b).1 p) ∙ h in let never : ⊥ = cc in never

  pub contains-append :
      (xs : List A) (x a : A) → contains (xs ++ x ∷ []) a ≡ (contains xs a || x == a)
  contains-append [] x a = ground arith
  contains-append (y ∷ xs) x a = ground (arith, contains-append xs x a)

  AllNew-append :
      (seen : List A) (x : A) (xs : List A)
      → AllNew (seen ++ x ∷ []) xs ↔ (AllNew seen xs × (contains xs x ≡ false))
  AllNew-append seen x [] = (λ _. (tt, refl), λ _. tt)
  AllNew-append seen x (y ∷ ys) =
      ground (arith, contains-append seen x y, eq_comm x y, AllNew-append seen x ys)

  set_from-le : (seen xs : List A) → length (set_from seen xs) ≤ length seen + length xs
  unfolding set_from
  set_from-le seen [] = omega arith
  set_from-le seen (x ∷ xs) = elim (Bool-cases (contains seen x)) [
    | inl old ↦ rw old (omega (arith, set_from-le seen xs))
    | inr new ↦ rw new (omega (arith, set_from-le (seen ++ x ∷ []) xs, length-append seen (x ∷ [])))
  ]

  set_from_iff :
      (seen xs : List A)
      → (length (set_from seen xs) ≡ length seen + length xs) ↔ (AllNew seen xs × AllDistinct xs)
  unfolding set_from
  set_from_iff seen [] = (λ _. (tt, tt), λ _. omega arith)
  set_from_iff seen (x ∷ xs) = elim (Bool-cases (contains seen x)) [
    | inl old ↦ rw old (
      λ h. absurd (omega (arith, set_from-le seen xs)),
      λ h. let never : ⊥ = cc h.0.0 in absurd never,
    )
    | inr new ↦
        let (there, back) = set_from_iff (seen ++ x ∷ []) xs in
        let (split, join) = AllNew-append seen x xs in
        let more = length-append seen (x ∷ []) in
        rw new (
          λ h.
              let (fresh, distinct) = there (omega arith) in
              let (a, b) = split fresh in ((refl, a), (b, distinct)),
          λ h. omega (arith, back (join (h.0.1, h.1.0), h.1.1)),
        )
  ]

  -- `new Set(xs).size === xs.length` exactly when no item occurs twice.
  pub set_size_iff : (xs : List A) → (length (set_of xs) ≡ length xs) ↔ AllDistinct xs
  set_size_iff xs =
      let (there, back) = set_from_iff [] xs in
      (λ h. (there (omega arith)).1, λ h. omega (arith, back (all_new xs, h)))
    where
      all_new : (xs : List A) → AllNew [] xs
      all_new [] = tt
      all_new (x ∷ xs) = (refl, all_new xs)

  pub contains-set_from :
      (seen xs : List A) (a : A)
      → contains (set_from seen xs) a ≡ (contains seen a || contains xs a)
  unfolding set_from
  contains-set_from seen [] a = ground arith
  contains-set_from seen (x ∷ xs) a = elim (Bool-cases (contains seen x)) [
    | inl old ↦ rw old (ground (arith, contains-set_from seen xs a, old_again))
    | inr new ↦
        rw new (ground (arith, contains-set_from (seen ++ x ∷ []) xs a, contains-append seen x a))
  ]
    where
      old_again : (x == a) ≡ true → contains seen x ≡ contains seen a
      old_again h = ap (contains seen) (eq_of x a h)

  AllDistinct-append :
      (seen : List A) (x : A)
      → contains seen x ≡ false
      → AllDistinct seen
      → AllDistinct (seen ++ x ∷ [])
  AllDistinct-append [] x new d = (refl, tt)
  AllDistinct-append (y ∷ ys) x new (fresh, d) =
      ground (arith, contains-append ys x y, eq_comm x y, AllDistinct-append ys x)

  pub set_from-AllDistinct : (seen xs : List A) → AllDistinct seen → AllDistinct (set_from seen xs)
  unfolding set_from
  set_from-AllDistinct seen [] d = d
  set_from-AllDistinct seen (x ∷ xs) d = elim (Bool-cases (contains seen x)) [
    | inl old ↦ rw old (set_from-AllDistinct seen xs d)
    | inr new ↦ rw new (set_from-AllDistinct (seen ++ x ∷ []) xs (AllDistinct-append seen x new d))
  ]
