-- ===== src/Base/Order.antt =====
-- `a < b` on strings is a strict total order, and `Array.prototype.sort` by it.
use Prim.Native.Nat.{suc}
use mathlib.Core.Path.{◌≡◌, refl, ap, ◌∙◌}
use mathlib.Core.Logic.{◌⊎◌, inl, inr}
use mathlib.Core.Bool.{Bool, true, false}
use mathlib.Core.List.{List, [], ◌∷◌}
use native.Mathlib.Omega.{arith}
use project_process_map.Base.Tests.{if◌then◌else◌, Bool-cases, or_false}
use project_process_map.Base.Lists.{IsIn, at_head, in_tail, length}
use project_process_map.Base.Equality.{◌==◌, list_eq, nat_eq}
use project_process_map.Base.Sets.{contains, AllDistinct}
use project_process_map.Base.Text.{Text, text_lt}

pub text_lt_irrefl : (s : Text) → text_lt s s ≡ false
text_lt_irrefl [] = refl
text_lt_irrefl (c ∷ s) = ground (arith, text_lt_irrefl s)

pub text_lt_trans : (s t u : Text) → text_lt s t ≡ true → text_lt t u ≡ true → text_lt s u ≡ true
text_lt_trans s t [] p q = q
text_lt_trans [] t (e ∷ u) p q = refl
text_lt_trans (c ∷ s) [] (e ∷ u) p q = absurd (let never : ⊥ = cc in never)
text_lt_trans (c ∷ s) (d ∷ t) (e ∷ u) p q = ground (arith, text_lt_trans s t u)

pub text_lt_total : (s t : Text) → text_lt s t ≡ false → (s == t) ≡ false → text_lt t s ≡ true
text_lt_total [] [] p q = cc
text_lt_total [] (d ∷ t) p q = cc
text_lt_total (c ∷ s) [] p q = refl
text_lt_total (c ∷ s) (d ∷ t) p q = ground (arith, text_lt_total s t)

-- Insertion into a sorted array, before the first item that is not smaller.
unfoldable pub insert : Text → List Text → List Text
insert a [] = a ∷ []
insert a (x ∷ xs) = let rest = insert a xs in if text_lt x a then x ∷ rest else a ∷ x ∷ xs

-- `xs.sort(compareExactStrings)`
unfoldable pub sort : List Text → List Text
unfolding insert
sort [] = []
sort (x ∷ xs) = insert x (sort xs)

-- Strictly ascending.
abbrev pub IsAscending : List Text → Type 0
IsAscending [] = Unit
IsAscending (x ∷ []) = Unit
IsAscending (x ∷ y ∷ xs) = (text_lt x y ≡ true) × IsAscending (y ∷ xs)

abbrev pub AllAbove : Text → List Text → Type 0
AllAbove x [] = Unit
AllAbove x (y ∷ ys) = (text_lt x y ≡ true) × AllAbove x ys

contains-insert : (a b : Text) (xs : List Text) → contains (insert a xs) b ≡ contains (a ∷ xs) b
unfolding insert
contains-insert a b [] = refl
contains-insert a b (x ∷ xs) = ground (arith, contains-insert a b xs)

pub contains-sort : (b : Text) (xs : List Text) → contains (sort xs) b ≡ contains xs b
unfolding sort
contains-sort b [] = refl
contains-sort b (x ∷ xs) = ground (arith, contains-insert x b (sort xs), contains-sort b xs)

-- The head of an insertion is the new item or the old head.
insert_below :
    (x a : Text) (xs : List Text)
    → text_lt x a ≡ true
    → IsAscending (x ∷ xs)
    → IsAscending (insert a xs)
    → IsAscending (x ∷ insert a xs)
unfolding insert
insert_below x a [] below up done = (below, tt)
insert_below x a (y ∷ ys) below up done = ground arith

insert-IsAscending :
    (a : Text) (xs : List Text) → contains xs a ≡ false → IsAscending xs → IsAscending (insert a xs)
unfolding insert
insert-IsAscending a [] new up = tt
insert-IsAscending a (x ∷ xs) new up = elim (Bool-cases (text_lt x a)) [
  | inl below ↦ rw below (
      insert_below x a xs below up (insert-IsAscending a xs (or_false _ _ new).1 (tail_up x xs up)))
  | inr above ↦ rw above (text_lt_total x a above (or_false _ _ new).0, up)
]
  where
    tail_up : (x : Text) (xs : List Text) → IsAscending (x ∷ xs) → IsAscending xs
    tail_up x [] up = tt
    tail_up x (y ∷ ys) up = up.1

pub sort-IsAscending : (xs : List Text) → AllDistinct xs → IsAscending (sort xs)
unfolding sort
sort-IsAscending [] d = tt
sort-IsAscending (x ∷ xs) (new, d) =
    insert-IsAscending x (sort xs) (contains-sort x xs ∙ new) (sort-IsAscending xs d)

-- `xs.sort(compare)`, which is stable; `before a b` says that `compare(a, b)` is negative.
module _ {ℓ} {A : Type ℓ} (before : A → A → Bool) where
  unfoldable pub insert_by : A → List A → List A
  insert_by a [] = a ∷ []
  insert_by a (x ∷ xs) = let rest = insert_by a xs in if before x a then x ∷ rest else a ∷ x ∷ xs

  unfoldable pub sort_by : List A → List A
  sort_by [] = []
  sort_by (x ∷ xs) = insert_by x (sort_by xs)

  IsIn-branch :
      {a : A} (b : Bool) {xs ys : List A} → IsIn a (if b then xs else ys) → IsIn a xs ⊎ IsIn a ys
  IsIn-branch true o = inl o
  IsIn-branch false o = inr o

  IsIn-insert : {a : A} (e : A) (xs : List A) → IsIn a (insert_by e xs) → IsIn a (e ∷ xs)
  unfolding insert_by
  IsIn-insert e [] o = o
  IsIn-insert {a} e (f ∷ xs) o = elim (IsIn-branch (before _ _) o) [
    | inl later ↦ elim later [
      | at_head p ↦ in_tail (at_head p)
      | in_tail r ↦ behind (IsIn-insert e xs r)
    ]
    | inr first ↦ first
  ]
    where
      behind : {a e f : A} {xs : List A} → IsIn a (e ∷ xs) → IsIn a (e ∷ f ∷ xs)
      behind (at_head p) = at_head p
      behind (in_tail r) = in_tail (in_tail r)

  pub IsIn-sort : {a : A} (xs : List A) → IsIn a (sort_by xs) → IsIn a xs
  unfolding sort_by
  IsIn-sort [] o = o
  IsIn-sort (e ∷ xs) o = elim (IsIn-insert e (sort_by xs) o) [
    | at_head p ↦ at_head p
    | in_tail r ↦ in_tail (IsIn-sort xs r)
  ]

  length-insert : (e : A) (xs : List A) → length (insert_by e xs) ≡ suc (length xs)
  unfolding insert_by
  length-insert e [] = refl
  length-insert e (f ∷ xs) = ground (arith, length-insert e xs)

  pub length-sort : (xs : List A) → length (sort_by xs) ≡ length xs
  unfolding sort_by
  length-sort [] = refl
  length-sort (e ∷ xs) = length-insert e (sort_by xs) ∙ ap suc (length-sort xs)
