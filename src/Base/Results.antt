-- ===== src/Base/Results.antt =====
-- A thrown `Error` is a value: the result of a function that may throw.
use mathlib.Core.Path.{◌≡◌, refl}
use mathlib.Core.Logic.{◌↔◌}
use mathlib.Core.Bool.{Bool, true, false}
use mathlib.Core.Option.{Option, none, some}

pub data Result (Fault Value : Type 0) : Type 0 where
  err : Fault → Result Fault Value
  ok : Value → Result Fault Value

module _ {Fault Value Next : Type 0} where
  infixl 5 ◌>>=◌
  -- The rest of a function, after a call that may throw.
  abbrev pub ◌>>=◌ : Result Fault Value → (Value → Result Fault Next) → Result Fault Next
  err fault >>= rest = err fault
  ok value >>= rest = rest value

  pub >>=-eq-ok :
      (call : Result Fault Value) (rest : Value → Result Fault Next) {answer : Next}
      → (call >>= rest) ≡ ok answer
      → (value : Value) × (call ≡ ok value) × (rest value ≡ ok answer)
  >>=-eq-ok (err fault) rest returned = cc
  >>=-eq-ok (ok value) rest returned = (value, refl, returned)

infixl 5 ◌>>◌
-- A check, and the rest of the function.
abbrev pub ◌>>◌ :
    {Fault Next : Type 0} → Result Fault (Unit {0}) → Result Fault Next → Result Fault Next
check >> rest = check >>= λ _. rest

-- `if (test) throw new Error(...)`.
abbrev pub throw_if : {E : Type 0} → Bool → E → Result E (Unit {0})
throw_if true e = err e
throw_if false e = ok tt

-- `if (value === undefined) throw new Error(...)`, and the value from there on.
abbrev pub or_throw : {E A : Type 0} → Option A → E → Result E A
or_throw none e = err e
or_throw (some a) e = ok a

-- It did not throw.
abbrev pub is_ok : {E A : Type 0} → Result E A → Bool
is_ok (ok a) = true
is_ok (err e) = false

pub is_ok_of : {E A : Type 0} (r : Result E A) → is_ok r ≡ true → (a : A) × (r ≡ ok a)
is_ok_of (ok a) h = (a, refl)
is_ok_of (err e) h = cc

-- A sequence of checks passes exactly when each does.
pub >>-ok_iff :
    {E : Type 0} (m n : Result E (Unit {0})) → ((m >> n) ≡ ok tt) ↔ ((m ≡ ok tt) × (n ≡ ok tt))
>>-ok_iff {E} m n = (there m n, back m n)
  where
    there : (m n : Result E (Unit {0})) → (m >> n) ≡ ok tt → (m ≡ ok tt) × (n ≡ ok tt)
    there (ok tt) n h = (refl, h)
    there (err e) n h = cc

    back : (m n : Result E (Unit {0})) → (m ≡ ok tt) × (n ≡ ok tt) → (m >> n) ≡ ok tt
    back m n (p, q) = rw p q

pub throw_if-ok_iff : {E : Type 0} (b : Bool) (e : E) → (throw_if b e ≡ ok tt) ↔ (b ≡ false)
throw_if-ok_iff true e = (λ h. cc, λ h. cc)
throw_if-ok_iff false e = (λ _. refl, λ _. refl)

-- `if (test) { checks }`
abbrev pub when : {E : Type 0} → Bool → Result E (Unit {0}) → Result E (Unit {0})
when true checks = checks
when false checks = ok tt

-- To read a sequence of checks as a conjunction, check by check.
pub then_iff :
    {E P Q : Type 0} {b : Bool} (e : E) {m : Result E (Unit {0})}
    → (b ≡ false) ↔ P
    → (m ≡ ok tt) ↔ Q
    → ((throw_if b e >> m) ≡ ok tt) ↔ (P × Q)
then_iff {b} e {m} p q = (
  λ h. let (x, y) = (>>-ok_iff (throw_if b e) m).0 h in (p.0 ((throw_if-ok_iff b e).0 x), q.0 y),
  λ h. (>>-ok_iff (throw_if b e) m).1 ((throw_if-ok_iff b e).1 (p.1 h.0), q.1 h.1),
)

pub last_iff : {E P : Type 0} {b : Bool} (e : E) → (b ≡ false) ↔ P → (throw_if b e ≡ ok tt) ↔ P
last_iff {b} e p = (λ h. p.0 ((throw_if-ok_iff b e).0 h), λ h. (throw_if-ok_iff b e).1 (p.1 h))

pub also_iff :
    {E P Q : Type 0} {m n : Result E (Unit {0})}
    → (m ≡ ok tt) ↔ P
    → (n ≡ ok tt) ↔ Q
    → ((m >> n) ≡ ok tt) ↔ (P × Q)
also_iff {m} {n} p q = (
  λ h. let (x, y) = (>>-ok_iff m n).0 h in (p.0 x, q.0 y),
  λ h. (>>-ok_iff m n).1 (p.1 h.0, q.1 h.1),
)

pub before_ok_iff :
    {E P : Type 0} {m : Result E (Unit {0})} → (m ≡ ok tt) ↔ P → ((m >> ok tt) ≡ ok tt) ↔ P
before_ok_iff {m} p =
    (λ h. p.0 ((>>-ok_iff m (ok tt)).0 h).0, λ h. (>>-ok_iff m (ok tt)).1 (p.1 h, refl))
