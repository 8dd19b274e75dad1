-- ===== src/Reviewers/Least.antt =====
-- The first of the sorted candidates is the least of them.
use project_process_map.Base.{
  ◌≡◌, refl, sym, ◌∙◌, ap, subst, none, some, List, [], ◌∷◌, Bool, true, false, ◌&&◌, ◌||◌, ◌==◌,
  Bool-cases, inl, inr, arith, eq_of, eq_refl, not_true,
}
use project_process_map.Base.Equality.{option_eq, list_eq, nat_eq}
use project_process_map.Base.Sets.{contains}
use project_process_map.Base.Order.{
  insert, sort, contains-sort, text_lt_irrefl, text_lt_trans, text_lt_total,
}
use project_process_map.Base.Text.{Text, text_lt}
use project_process_map.Store.{keep}
use project_process_map.Reviewers.{first}

pub contains-keep :
    (f : Text → Bool) (xs : List Text) (c : Text) → contains (keep f xs) c ≡ (f c && contains xs c)
contains-keep f [] c = elim (Bool-cases (f c)) [ inl h ↦ rw h refl | inr h ↦ rw h refl ]
contains-keep f (x ∷ xs) c =
    let ih = contains-keep f xs c in
    elim (Bool-cases (x == c)) [
      | inl same ↦
          let equal : f x ≡ f c = ap f (eq_of x c same) in
          elim (Bool-cases (f c)) [ inl h ↦ ground arith | inr h ↦ ground arith ]
      | inr other ↦ elim (Bool-cases (f x)) [ inl h ↦ ground arith | inr h ↦ ground arith ]
    ]

-- A text that is not below another, with the two orders they may have.
not_below : (c x y : Text) → text_lt c y ≡ false → text_lt y x ≡ false → text_lt c x ≡ false
not_below c x y h k = elim (Bool-cases (y == x)) [
  | inl same ↦ subst (λ z. text_lt c z ≡ false) (eq_of y x same) h
  | inr differ ↦
      let above = text_lt_total y x k differ in
      not_true (text_lt c x)
        (λ less. let bad = text_lt_trans c x y less above in let never : ⊥ = cc in never)
]

not_both : (x y : Text) → text_lt y x ≡ true → text_lt x y ≡ false
not_both x y h = not_true (text_lt x y) (λ less.
    let loop = text_lt_trans x y x less h in
    let same = text_lt_irrefl x in let never : ⊥ = cc in never)

-- The first item of an insertion.
first-insert :
    (x : Text) (l : List Text) (r c : Text)
    → first (insert x l) ≡ some r
    → (x == c || contains l c) ≡ true
    → ((y : Text) → first l ≡ some y → contains l c ≡ true → text_lt c y ≡ false)
    → text_lt c r ≡ false
unfolding insert
first-insert x [] r c e m least =
    let chosen : x ≡ r = ground arith in
    let same : x ≡ c = eq_of x c (ground arith) in
    subst (λ z. text_lt z r ≡ false) (sym chosen ∙ same) (text_lt_irrefl r)
first-insert x (y ∷ l) r c e m least = elim (Bool-cases (text_lt y x)) [
  | inl below ↦ elim (Bool-cases (x == c)) [
    | inl same ↦
        let chosen : y ≡ r = ground arith in
        subst (λ z. text_lt z r ≡ false) (eq_of x c same)
          (subst (λ z. text_lt x z ≡ false) chosen (not_both x y below))
    | inr differ ↦
        let chosen : y ≡ r = ground arith in
        let there : contains (y ∷ l) c ≡ true = ground arith in
        subst (λ z. text_lt c z ≡ false) chosen (least y refl there)
  ]
  | inr above ↦ elim (Bool-cases (x == c)) [
    | inl same ↦
        let chosen : x ≡ r = ground arith in
        subst (λ z. text_lt z r ≡ false) (sym chosen ∙ eq_of x c same) (text_lt_irrefl r)
    | inr differ ↦
        let chosen : x ≡ r = ground arith in
        let there : contains (y ∷ l) c ≡ true = ground arith in
        subst (λ z. text_lt c z ≡ false) chosen (not_below c x y (least y refl there) above)
  ]
]

pub first-sort :
    (xs : List Text) (r c : Text)
    → first (sort xs) ≡ some r
    → contains xs c ≡ true
    → text_lt c r ≡ false
unfolding sort
first-sort [] r c e m = absurd (let never : ⊥ = cc in never)
first-sort (x ∷ xs) r c e m =
    let same = contains-sort c xs in
    first-insert x (sort xs) r c e (ground arith)
      (λ y f there. first-sort xs y c f (sym same ∙ there))

pub first_in : (l : List Text) (r : Text) → first l ≡ some r → contains l r ≡ true
first_in [] r e = absurd (let never : ⊥ = cc in never)
first_in (x ∷ l) r e = let same : x ≡ r = ground arith in rw same (ground (arith, eq_refl r))

pub first-none : (l : List Text) (c : Text) → first l ≡ none → contains l c ≡ false
first-none [] c e = refl
first-none (x ∷ l) c e = absurd (let never : ⊥ = cc in never)
