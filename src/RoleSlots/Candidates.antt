-- ===== src/RoleSlots/Candidates.antt =====
-- Candidate lists of packages/domain/src/role-slots.ts: what normalising makes of them, and that
-- the validator's loop accepts exactly the normal ones.
use project_process_map.Base.{
  ◌≡◌, ◌↔◌, refl, sym, ◌∙◌, true, false, ◌||◌, Option, none, some, List, [], ◌∷◌, arith, All,
  Bool-cases, inl, inr, ◌==◌, eq_of, eq_refl, or_false, not_true, subst,
}
use project_process_map.Base.Equality.{list_eq, nat_eq}
use project_process_map.Base.Results.{ok, then_iff}
use project_process_map.Base.Sets.{
  eq_comm, contains, set_of, contains-set_from, set_from-AllDistinct,
}
use project_process_map.Base.Order.{
  IsAscending, contains-sort, sort-IsAscending, text_lt_irrefl, text_lt_trans,
}
use project_process_map.Base.Text.{Text, text_lt}
use project_process_map.Base.Text.Shapes.{IsCanonicalText, IsCanonicalText-iff}
use project_process_map.RoleSlots.{
  compare_exact_strings, normalize_candidate_ids, repeats, descends, check_candidates,
}

-- Above the one before it, if there is one.
abbrev pub Follows : Option Text → Text → Type 0
Follows none id = Unit
Follows (some previous) id = text_lt previous id ≡ true

-- Canonical texts, each above the one before.
abbrev pub IsListing : Option Text → List Text → Type 0
IsListing previous [] = Unit
IsListing previous (id ∷ ids) = IsCanonicalText id × (Follows previous id × IsListing (some id) ids)

abbrev IsFirstAbove : Option Text → List Text → Type 0
IsFirstAbove previous [] = Unit
IsFirstAbove previous (x ∷ xs) = Follows previous x

first_above : (xs : List Text) → IsFirstAbove none xs
first_above [] = tt
first_above (x ∷ xs) = tt

Follows-iff :
    (previous : Option Text) (id : Text)
    → ((repeats previous id || descends previous id) ≡ false) ↔ Follows previous id
unfolding compare_exact_strings
Follows-iff none id = (λ _. tt, λ _. refl)
Follows-iff (some p) id = (λ h. ground arith, λ h. ground arith)

pub check_candidates_iff :
    (previous : Option Text) (ids : List Text)
    → (check_candidates previous ids ≡ ok tt) ↔ IsListing previous ids
unfolding check_candidates
check_candidates_iff previous [] = (λ _. tt, λ _. refl)
check_candidates_iff previous (id ∷ ids) =
    let (there, back) = then_iff _ (IsCanonicalText-iff id) (
      then_iff {b = repeats previous id} _ (λ h. h, λ h. h)
        (then_iff {b = descends previous id} _ (λ h. h, λ h. h)
          (check_candidates_iff (some id) ids))) in
    let (follow, unfollow) = Follows-iff previous id in
    (
      λ h. let a = there h in (a.0, (follow (rw a.1.0 a.1.1.0), a.1.1.1)),
      λ l. let (r, t) = or_false _ _ (unfollow l.1.0) in back (l.0, (r, (t, l.1.1))),
    )

-- All items, by membership.
All-of_contains :
    {P : Text → Type 0} (xs : List Text) → ((a : Text) → contains xs a ≡ true → P a) → All P xs
All-of_contains [] h = tt
All-of_contains (x ∷ xs) h =
    (h x (rw (eq_refl x)), All-of_contains xs (λ a m. h a (ground (arith, m))))

contains_All :
    (P : Text → Type 0) (xs : List Text) (a : Text) → All P xs → contains xs a ≡ true → P a
contains_All P [] a h m = absurd (let never : ⊥ = cc in never)
contains_All P (x ∷ xs) a h m = elim (Bool-cases (x == a)) [
  | inl same ↦ subst P (eq_of x a same) h.0
  | inr other ↦ contains_All P xs a h.1 (ground arith)
]

-- Normalising changes no membership.
pub contains-normalize :
    (a : Text) (xs : List Text) → contains (normalize_candidate_ids xs) a ≡ contains xs a
unfolding normalize_candidate_ids
contains-normalize a xs = contains-sort a (set_of xs) ∙ contains-set_from [] xs a

pub normalize-IsAscending : (xs : List Text) → IsAscending (normalize_candidate_ids xs)
unfolding normalize_candidate_ids
normalize-IsAscending xs = sort-IsAscending (set_of xs) (set_from-AllDistinct [] xs tt)

-- An ascending list holds nothing below its head.
head_least :
    (x : Text) (xs : List Text) (a : Text)
    → IsAscending (x ∷ xs)
    → contains xs a ≡ true
    → text_lt x a ≡ true
head_least x [] a up m = absurd (let never : ⊥ = cc in never)
head_least x (y ∷ ys) a (xy, up) m = elim (Bool-cases (y == a)) [
  | inl same ↦ rw (← eq_of y a same) xy
  | inr other ↦ text_lt_trans x y a xy (head_least y ys a up (ground arith))
]

head_new : (x : Text) (xs : List Text) → IsAscending (x ∷ xs) → contains xs x ≡ false
head_new x xs up = not_true (contains xs x) (λ m.
    let bad : true ≡ false = sym (head_least x xs x up m) ∙ text_lt_irrefl x in
    let never : ⊥ = cc in never)

tail_up : (x : Text) (xs : List Text) → IsAscending (x ∷ xs) → IsAscending xs
tail_up x [] up = tt
tail_up x (y ∷ ys) up = up.1

-- `===` compares ascending lists with one membership head by head.
heads_equal :
    (x y : Text) (xs ys : List Text)
    → IsAscending (x ∷ xs)
    → IsAscending (y ∷ ys)
    → contains (y ∷ ys) x ≡ true
    → contains (x ∷ xs) y ≡ true
    → x ≡ y
heads_equal x y xs ys up up' mx my = elim (Bool-cases (x == y)) [
  | inl same ↦ eq_of x y same
  | inr other ↦
      let below = head_least x xs y up (ground arith) in
      let above = head_least y ys x up' (ground (arith, eq_comm x y)) in
      let bad : true ≡ false = sym (text_lt_trans x y x below above) ∙ text_lt_irrefl x in
      absurd (let never : ⊥ = cc in never)
]

tails_agree :
    (x : Text) (xs ys : List Text)
    → contains xs x ≡ false
    → contains ys x ≡ false
    → ((a : Text) → contains (x ∷ xs) a ≡ contains (x ∷ ys) a)
    → (a : Text) → contains xs a ≡ contains ys a
tails_agree x xs ys nx ny same a = elim (Bool-cases (x == a)) [
  | inl e ↦ subst (λ z. contains xs z ≡ contains ys z) (eq_of x a e) (nx ∙ sym ny)
  | inr e ↦ ground (arith, same a)
]

ascending_unique :
    (xs ys : List Text)
    → IsAscending xs
    → IsAscending ys
    → ((a : Text) → contains xs a ≡ contains ys a)
    → xs ≡ ys
ascending_unique [] [] up up' same = refl
ascending_unique [] (y ∷ ys) up up' same =
    let bad = same y in absurd (let never : ⊥ = ground (arith, eq_refl y) in never)
ascending_unique (x ∷ xs) [] up up' same =
    let bad = same x in absurd (let never : ⊥ = ground (arith, eq_refl x) in never)
ascending_unique (x ∷ xs) (y ∷ ys) up up' same =
    let p =
      heads_equal x y xs ys up up' (sym (same x) ∙ rw (eq_refl x)) (same y ∙ rw (eq_refl y)) in
    let ny = head_new y ys up' in
    let tails = ascending_unique xs ys (tail_up x xs up) (tail_up y ys up') (
      tails_agree x xs ys (head_new x xs up) (rw p ny)
        (subst (λ z. (a : Text) → contains (x ∷ xs) a ≡ contains (z ∷ ys) a) (sym p) same)) in
    cc (p, tails)

-- Two lists with the same members have one normal form, whatever their order and repetitions.
normal_form_unique :
    (xs ys : List Text)
    → ((a : Text) → contains xs a ≡ contains ys a)
    → normalize_candidate_ids xs ≡ normalize_candidate_ids ys
normal_form_unique xs ys same =
    ascending_unique _ _ (normalize-IsAscending xs) (normalize-IsAscending ys)
      (λ a. contains-normalize a xs ∙ same a ∙ sym (contains-normalize a ys))

listing_of :
    (previous : Option Text) (xs : List Text)
    → All IsCanonicalText xs
    → IsAscending xs
    → IsFirstAbove previous xs
    → IsListing previous xs
listing_of previous [] h up first = tt
listing_of previous (x ∷ []) h up first = (h.0, (first, tt))
listing_of previous (x ∷ y ∷ ys) h up first =
    (h.0, (first, listing_of (some x) (y ∷ ys) h.1 up.1 up.0))

listing-All :
    (previous : Option Text) (xs : List Text) → IsListing previous xs → All IsCanonicalText xs
listing-All previous [] l = tt
listing-All previous (x ∷ xs) l = (l.0, listing-All (some x) xs l.1.1)

-- The validator's loop accepts a normalised list of candidates exactly when every candidate that was given is a canonical text.
pub normalized_accepted_iff :
    (xs : List Text)
    → (check_candidates none (normalize_candidate_ids xs) ≡ ok tt) ↔ All IsCanonicalText xs
normalized_accepted_iff xs =
    let ns = normalize_candidate_ids xs in
    (
      λ h.
          let all = listing-All none ns ((check_candidates_iff none ns).0 h) in
          All-of_contains xs
            (λ a m. contains_All IsCanonicalText ns a all (contains-normalize a xs ∙ m)),
      λ h. (check_candidates_iff none ns).1 (
          listing_of none ns
            (All-of_contains ns
              (λ a m. contains_All IsCanonicalText xs a h (sym (contains-normalize a xs) ∙ m)))
            (normalize-IsAscending xs) (first_above ns)),
    )
