-- ===== src/Queue/Entries.antt =====
-- Which entries of a store a claim picks: ready ones of the store, each once, no more than asked.
use project_process_map.Base.{
  ℕ, zero, suc, ◌≡◌, refl, sym, ap, ◌∙◌, not_true, inl, inr, Bool, true, false, ◌||◌, some, List,
  [], ◌∷◌, IsIn, at_head, in_tail, arith, Bool-cases, if◌then◌else◌, ◌==◌, length, eq_refl,
  not_in_nil,
}
use Prim.Native.Nat.{min}
use project_process_map.Base.Equality.{list_eq, nat_eq, eq_of}
use project_process_map.Base.Sets.{contains, AllDistinct, eq_comm}
use project_process_map.Base.Tables.{get, put}
use project_process_map.Base.Order.{insert_by, sort_by, IsIn-sort, length-sort}
use project_process_map.Base.Text.{Text}
use project_process_map.Store.{keep}
use project_process_map.Queue.{
  ready, ready_entries, count_ready, is_earlier, take, candidates, ClaimOptions,
}
use project_process_map.Queue.Items.{Item}

-- A `Map` has each key once.
abbrev pub keys_of {ℓ} : {V : Type ℓ} → List (Text × V) → List Text
keys_of [] = []
keys_of ((k, v) ∷ table) = k ∷ keys_of table

abbrev pub HasDistinctKeys {ℓ} : {V : Type ℓ} → List (Text × V) → Type 0
HasDistinctKeys table = AllDistinct (keys_of table)

module _ {V : Type 0} where
  keys_of-put :
      (table : List (Text × V)) (key k : Text) (v : V)
      → contains (keys_of (put table key v)) k ≡ (contains (keys_of table) k || key == k)
  unfolding put
  keys_of-put [] key k v = ground arith
  keys_of-put ((l, w) ∷ table) key k v = elim (Bool-cases (l == key)) [
    | inl same ↦ rw same (rw (eq_of l key same) (ground arith))
    | inr other ↦ rw other (ground (arith, keys_of-put table key k v))
  ]

  pub put-HasDistinctKeys :
      (table : List (Text × V)) (key : Text) (v : V)
      → HasDistinctKeys table
      → HasDistinctKeys (put table key v)
  unfolding put
  put-HasDistinctKeys [] key v d = (refl, tt)
  put-HasDistinctKeys ((l, w) ∷ table) key v (new, d) = elim (Bool-cases (l == key)) [
    | inl same ↦ rw same (new, d)
    | inr other ↦
        let clear : contains (keys_of (put table key v)) l ≡ false =
          keys_of-put table key l v ∙ ground (arith, eq_comm l key) in
        rw other (clear, put-HasDistinctKeys table key v d)
  ]

  pub in_keys :
      {k : Text} {v : V} (table : List (Text × V))
      → IsIn (k, v) table
      → contains (keys_of table) k ≡ true
  in_keys [] o = absurd (not_in_nil o)
  in_keys {k} ((l, w) ∷ table) (at_head e) =
      let same : k ≡ l = ap (λ p. p.0) e in ground (arith, eq_refl k, same)
  in_keys ((l, w) ∷ table) (in_tail o) = ground (arith, in_keys table o)

  pub of_contains :
      (table : List (Text × V)) (k : Text)
      → contains (keys_of table) k ≡ true
      → (v : V) × IsIn (k, v) table
  of_contains [] k h = absurd (let never : ⊥ = cc in never)
  of_contains ((l, w) ∷ table) k h = elim (Bool-cases (l == k)) [
    | inl same ↦ (w, at_head (ap (λ x. (x, w)) (sym (eq_of l k same))))
    | inr other ↦
        let rest : contains (keys_of table) k ≡ true = ground (arith, other) in
        let (v, o) = of_contains table k rest in (v, in_tail o)
  ]

  pub get-of_in :
      {k : Text} {v : V} (table : List (Text × V))
      → HasDistinctKeys table
      → IsIn (k, v) table
      → get table k ≡ some v
  get-of_in [] d o = absurd (not_in_nil o)
  get-of_in {k} {v} ((l, w) ∷ table) d (at_head e) =
      let same : k ≡ l = ap (λ p. p.0) e in
      let value : v ≡ w = ap (λ p. p.1) e in rw same (rw (eq_refl l) (cc))
  get-of_in {k} {v} ((l, w) ∷ table) (new, d) (in_tail o) =
      let other : (l == k) ≡ false = not_true (l == k) (λ p.
        let same = eq_of l k p in
        let both : contains (keys_of table) l ≡ true = rw same (in_keys table o) in
        let never : ⊥ = cc in never) in
      rw other (get-of_in table d o)

module _ {A : Type 0} where
  IsIn-keep : {a : A} (p : A → Bool) (xs : List A) → IsIn a (keep p xs) → IsIn a xs × (p a ≡ true)
  IsIn-keep p [] o = absurd (not_in_nil o)
  IsIn-keep p (x ∷ xs) o = here p x (p x) refl o (IsIn-keep p xs)
    where
      here :
          {a : A} {xs : List A} (p : A → Bool) (x : A) (b : Bool)
          → p x ≡ b
          → IsIn a (if b then x ∷ keep p xs else keep p xs)
          → (IsIn a (keep p xs) → IsIn a xs × (p a ≡ true))
          → IsIn a (x ∷ xs) × (p a ≡ true)
      here p x true h (at_head e) rest = (at_head e, ap p e ∙ h)
      here p x true h (in_tail o) rest = (in_tail (rest o).0, (rest o).1)
      here p x false h o rest = (in_tail (rest o).0, (rest o).1)

  IsIn-take : {a : A} (n : ℕ) (xs : List A) → IsIn a (take n xs) → IsIn a xs
  IsIn-take zero xs o = absurd (not_in_nil o)
  IsIn-take (suc n) [] o = absurd (not_in_nil o)
  IsIn-take (suc n) (x ∷ xs) (at_head e) = at_head e
  IsIn-take (suc n) (x ∷ xs) (in_tail o) = in_tail (IsIn-take n xs o)

  length-take : (n : ℕ) (xs : List A) → length (take n xs) ≡ min n (length xs)
  length-take zero xs = omega arith
  length-take (suc n) [] = omega arith
  length-take (suc n) (x ∷ xs) = omega (arith, length-take n xs)

module _ {V : Type 0} where
  new_keep :
      (p : Text × V → Bool) (k : Text) (xs : List (Text × V))
      → contains (keys_of xs) k ≡ false
      → contains (keys_of (keep p xs)) k ≡ false
  new_keep p k [] h = refl
  new_keep p k ((l, v) ∷ xs) h = ground (arith, new_keep p k xs)

  keep-HasDistinctKeys :
      (p : Text × V → Bool) (xs : List (Text × V))
      → HasDistinctKeys xs
      → HasDistinctKeys (keep p xs)
  keep-HasDistinctKeys p [] d = tt
  keep-HasDistinctKeys p ((l, v) ∷ xs) (new, d) =
      ground (arith, keep-HasDistinctKeys p xs d, new_keep p l xs new)

  new_take :
      (n : ℕ) (k : Text) (xs : List (Text × V))
      → contains (keys_of xs) k ≡ false
      → contains (keys_of (take n xs)) k ≡ false
  new_take zero k xs h = refl
  new_take (suc n) k [] h = refl
  new_take (suc n) k ((l, v) ∷ xs) h = ground (arith, new_take n k xs)

  take-HasDistinctKeys :
      (n : ℕ) (xs : List (Text × V)) → HasDistinctKeys xs → HasDistinctKeys (take n xs)
  take-HasDistinctKeys zero xs d = tt
  take-HasDistinctKeys (suc n) [] d = tt
  take-HasDistinctKeys (suc n) ((l, v) ∷ xs) (new, d) =
      (new_take n l xs new, take-HasDistinctKeys n xs d)

module _ {V : Type 0} (before : Text × V → Text × V → Bool) where
  keys_of-insert :
      (k : Text) (e : Text × V) (xs : List (Text × V))
      → contains (keys_of (insert_by before e xs)) k ≡ (e.0 == k || contains (keys_of xs) k)
  unfolding insert_by
  keys_of-insert k e [] = refl
  keys_of-insert k e (f ∷ xs) = ground (arith, keys_of-insert k e xs)

  insert-HasDistinctKeys :
      (e : Text × V) (xs : List (Text × V))
      → HasDistinctKeys (e ∷ xs)
      → HasDistinctKeys (insert_by before e xs)
  unfolding insert_by
  insert-HasDistinctKeys e [] d = d
  insert-HasDistinctKeys e (f ∷ xs) (new, (fresh, d)) =
      ground (arith, insert-HasDistinctKeys e xs, keys_of-insert f.0 e xs, eq_comm e.0 f.0)

  keys_of-sort :
      (k : Text) (xs : List (Text × V))
      → contains (keys_of (sort_by before xs)) k ≡ contains (keys_of xs) k
  unfolding sort_by
  keys_of-sort k [] = refl
  keys_of-sort k (e ∷ xs) =
      ground (arith, keys_of-insert k e (sort_by before xs), keys_of-sort k xs)

  sort-HasDistinctKeys :
      (xs : List (Text × V)) → HasDistinctKeys xs → HasDistinctKeys (sort_by before xs)
  unfolding sort_by
  sort-HasDistinctKeys [] d = tt
  sort-HasDistinctKeys (e ∷ xs) (new, d) =
      insert-HasDistinctKeys e (sort_by before xs)
        (keys_of-sort e.0 xs ∙ new, sort-HasDistinctKeys xs d)

module _ {T : Type 0} ⦃i : Item T⦄ where
  pub candidates-HasDistinctKeys :
      (before : Text → Text → Bool) (store : List (Text × T)) (options : ClaimOptions)
      → HasDistinctKeys store
      → HasDistinctKeys (candidates before store options)
  unfolding candidates
  candidates-HasDistinctKeys before store options d = take-HasDistinctKeys options.limit _ (
      sort-HasDistinctKeys (is_earlier before) _
        (keep-HasDistinctKeys (λ e. ready (i.delivery e.1) options.now_utc) store d))

  -- A candidate is an entry of the store, and ready.
  pub IsIn-candidates :
      {e : Text × T} (before : Text → Text → Bool) (store : List (Text × T))
      (options : ClaimOptions)
      → IsIn e (candidates before store options)
      → IsIn e store × (ready (i.delivery e.1) options.now_utc ≡ true)
  unfolding candidates
  IsIn-candidates before store options o =
      IsIn-keep (λ e. ready (i.delivery e.1) options.now_utc) store
        (IsIn-sort (is_earlier before) _ (IsIn-take options.limit _ o))

  pub length-candidates :
      (before : Text → Text → Bool) (store : List (Text × T)) (options : ClaimOptions)
      → length (candidates before store options)
        ≡ min options.limit (count_ready store options.now_utc)
  unfolding candidates count_ready
  length-candidates before store options =
      length-take options.limit (sort_by (is_earlier before) (ready_entries store options.now_utc))
      ∙ ap (min options.limit)
          (length-sort (is_earlier before) (ready_entries store options.now_utc))
