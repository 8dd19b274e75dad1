-- ===== src/Base/Equality.antt =====
-- JavaScript's `===` on the types of the program, as an interface with an instance for each type.
use Prim.Native.Nat.{ℕ}
use mathlib.Core.Path.{◌≡◌, refl, ap}
use mathlib.Core.Logic.{◌↔◌, ◌≢◌}
use mathlib.Core.Bool.{Bool, true, false, not, ◌&&◌}
use mathlib.Core.Option.{Option, none, some}
use mathlib.Core.List.{List, [], ◌∷◌}
use native.Mathlib.Omega.{arith}
use project_process_map.Base.Tests.{nat_beq, nat_beq_iff, not_true}

-- A test on two values, and that it decides their equality.
pub record Eq {κ} (T : Type κ) : Type κ where
  pub equals : T → T → Bool
  pub agrees : (x y : T) → (equals x y ≡ true) ↔ (x ≡ y)

infix 50 ◌!=◌ ◌==◌
abbrev pub ◌!=◌ {κ} : {T : Type κ} ⦃test : Eq T⦄ → T → T → Bool
◌!=◌ ⦃test⦄ x y = not (test.equals x y)

abbrev pub ◌==◌ {κ} : {T : Type κ} ⦃test : Eq T⦄ → T → T → Bool
◌==◌ ⦃test⦄ x y = test.equals x y

module _ {ℓ} {A : Type ℓ} ⦃e : Eq A⦄ where
  pub eq_refl : (a : A) → (a == a) ≡ true
  eq_refl a = (e.agrees a a).1 refl

  pub eq_of : (a b : A) → (a == b) ≡ true → a ≡ b
  eq_of a b h = (e.agrees a b).0 h

  pub ne_of : (a b : A) → a ≢ b → (a == b) ≡ false
  ne_of a b h = not_true (a == b) (λ p. h (eq_of a b p))

  abbrev option_beq : Option A → Option A → Bool
  option_beq none none = true
  option_beq (some a) (some b) = e.equals a b
  option_beq _ _ = false

  pub option_beq_iff : (o p : Option A) → (option_beq o p ≡ true) ↔ (o ≡ p)
  option_beq_iff none none = (λ _. refl, λ _. refl)
  option_beq_iff none (some b) = (λ h. cc, λ h. cc)
  option_beq_iff (some a) none = (λ h. cc, λ h. cc)
  option_beq_iff (some a) (some b) = (λ h. ap some ((e.agrees a b).0 h), λ h. (e.agrees a b).1 (cc))

  instance abbrev pub option_eq : Eq (Option A)
  option_eq = record { equals = option_beq; agrees = option_beq_iff }

  abbrev list_beq : List A → List A → Bool
  list_beq [] [] = true
  list_beq (x ∷ xs) (y ∷ ys) = e.equals x y && list_beq xs ys
  list_beq _ _ = false

  list_beq_sound : (xs ys : List A) → list_beq xs ys ≡ true → xs ≡ ys
  list_beq_sound [] [] h = refl
  list_beq_sound [] (y ∷ ys) h = cc
  list_beq_sound (x ∷ xs) [] h = cc
  list_beq_sound (x ∷ xs) (y ∷ ys) h = ground (arith, (e.agrees x y).0, list_beq_sound xs ys)

  list_beq_refl : (xs : List A) → list_beq xs xs ≡ true
  list_beq_refl [] = refl
  list_beq_refl (x ∷ xs) = ground (arith, (e.agrees x x).1 refl, list_beq_refl xs)

  pub list_beq_iff : (xs ys : List A) → (list_beq xs ys ≡ true) ↔ (xs ≡ ys)
  list_beq_iff xs ys = (list_beq_sound xs ys, λ h. rw h (list_beq_refl ys))

  instance abbrev pub list_eq : Eq (List A)
  list_eq = record { equals = list_beq; agrees = list_beq_iff }

instance abbrev pub nat_eq : Eq ℕ
nat_eq = record { equals = nat_beq; agrees = nat_beq_iff }

abbrev bool_beq : Bool → Bool → Bool
bool_beq true b = b
bool_beq false b = not b

pub bool_beq_iff : (a b : Bool) → (bool_beq a b ≡ true) ↔ (a ≡ b)
bool_beq_iff a b = (λ h. ground arith, λ h. ground arith)

instance abbrev pub bool_eq : Eq Bool
bool_eq = record { equals = bool_beq; agrees = bool_beq_iff }

-- An enumeration compares by the number of its constructor.
abbrev pub enum_eq {ℓ} : {A : Type ℓ} (rank : A → ℕ) → ((a b : A) → rank a ≡ rank b → a ≡ b) → Eq A
enum_eq rank injective = record {
  equals = λ a b. nat_beq (rank a) (rank b);
  agrees = λ a b. (
    λ h. injective a b ((nat_beq_iff (rank a) (rank b)).0 h),
    λ h. (nat_beq_iff (rank a) (rank b)).1 (ap rank h),
  );
}
