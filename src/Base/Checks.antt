-- ===== src/Base/Checks.antt =====
-- The tests on stored records that the validators of packages/domain/src share, and what each
-- says of the record.
use Prim.Native.Nat.{ℕ, ◌≤◌, ◌<◌}
use mathlib.Core.Path.{◌≡◌, refl}
use mathlib.Core.Logic.{◌↔◌, ◌≢◌}
use mathlib.Core.Bool.{Bool, true, false, not, ◌||◌}
use mathlib.Core.Option.{Option, none, some}
use mathlib.Core.List.{[]}
use native.Mathlib.Omega.{arith}
use project_process_map.Base.Tests.{leb, or_false}
use project_process_map.Base.Equality.{◌!=◌, list_eq, nat_eq, eq_of, eq_refl}
use project_process_map.Base.Text.{Text, trim, is_blank}

-- `Number.MAX_SAFE_INTEGER`
abbrev pub max_safe_integer : ℕ
max_safe_integer = 9007199254740991

-- `!Number.isSafeInteger(n) || n <= 0`
abbrev pub is_not_positive : ℕ → Bool
is_not_positive n = not (leb n max_safe_integer) || leb n 0

-- `expected !== undefined && actual !== expected`
abbrev pub drifts : Option Text → Text → Bool
drifts none actual = false
drifts (some expected) actual = actual != expected

-- `value !== null && bad(value)`
abbrev pub given_and : (Text → Bool) → Option Text → Bool
given_and bad none = false
given_and bad (some s) = bad s

abbrev pub InScope : Option Text → Text → Type 0
InScope none s = Unit
InScope (some expected) s = s ≡ expected

-- Of an optional text: if it is there, and that it is there.
abbrev pub IfGiven : (Text → Type 0) → Option Text → Type 0
IfGiven P none = Unit
IfGiven P (some s) = P s

abbrev pub Given : (Text → Type 0) → Option Text → Type 0
Given P none = ⊥
Given P (some s) = P s

abbrev pub IsCount : ℕ → Type 0
IsCount n = (0 < n) × (n ≤ max_safe_integer)

abbrev pub IsFilled : Text → Type 0
IsFilled s = trim s ≢ []

pub InScope-iff :
    (expected : Option Text) (s : Text) → (drifts expected s ≡ false) ↔ InScope expected s
InScope-iff none s = (λ _. tt, λ _. refl)
InScope-iff (some e) s = (λ h. eq_of s e (ground arith), λ h. rw h (ground (arith, eq_refl e)))

pub IfGiven-iff :
    {bad : Text → Bool} {P : Text → Type 0}
    → ((s : Text) → (bad s ≡ false) ↔ P s)
    → (o : Option Text) → (given_and bad o ≡ false) ↔ IfGiven P o
IfGiven-iff h none = (λ _. tt, λ _. refl)
IfGiven-iff h (some s) = h s

pub IsCount-iff : (n : ℕ) → (is_not_positive n ≡ false) ↔ IsCount n
IsCount-iff n = (λ h. ground arith, λ h. ground arith)

pub IsFilled-iff : (s : Text) → (is_blank s ≡ false) ↔ IsFilled s
IsFilled-iff s = (λ h. ground arith, λ h. ground arith)

pub not-false_iff : (b : Bool) → (not b ≡ false) ↔ (b ≡ true)
not-false_iff b = (λ h. ground arith, λ h. ground arith)

pub both_iff :
    {P Q : Type 0} (a b : Bool) → (a ≡ false) ↔ P → (b ≡ false) ↔ Q → ((a || b) ≡ false) ↔ (P × Q)
both_iff a b p q = (λ h. let (x, y) = or_false a b h in (p.0 x, q.0 y), λ h. rw (p.1 h.0) (q.1 h.1))
