-- ===== src/Queue/Claims.antt =====
-- What a claim does to the store of packages/adapters/src/memory/persistence.ts.
use project_process_map.Base.{
  ℕ, suc, ◌≡◌, refl, ap, sym, ◌∙◌, ◌≤◌, ◌⊎◌, inl, inr, Bool, true, false, some, List, [], ◌∷◌, IsIn,
  at_head, in_tail, arith, Bool-cases, length, ◌==◌, not_in_nil, or_false,
}
use Prim.Native.Nat.{min}
use project_process_map.Base.Equality.{list_eq, nat_eq}
use project_process_map.Base.Sets.{contains}
use project_process_map.Base.Tables.{get, put, get-put_self, get-put_other}
use project_process_map.Base.Text.{Text}
use project_process_map.Queue.{
  ready, count_ready, candidates, claim_each, claim_from, lease, ClaimOptions,
}
use project_process_map.Queue.Items.{Item}
use project_process_map.Queue.Entries.{
  HasDistinctKeys, keys_of, of_contains, put-HasDistinctKeys, get-of_in, candidates-HasDistinctKeys,
  IsIn-candidates, length-candidates,
}

module _ {T : Type 0} ⦃i : Item T⦄ (uuid : ℕ → Text) (options : ClaimOptions) where
  length-claim_each :
      (n : ℕ) (entries store : List (Text × T))
      → length (claim_each uuid options n entries store).0 ≡ length entries
  unfolding claim_each
  length-claim_each n [] store = refl
  length-claim_each n ((k, item) ∷ entries) store =
      ap suc (length-claim_each (suc n) entries (put store k (lease options (uuid n) item)))

  claim_each-HasDistinctKeys :
      (n : ℕ) (entries store : List (Text × T))
      → HasDistinctKeys store
      → HasDistinctKeys (claim_each uuid options n entries store).1
  unfolding claim_each
  claim_each-HasDistinctKeys n [] store d = d
  claim_each-HasDistinctKeys n ((k, item) ∷ entries) store d =
      claim_each-HasDistinctKeys (suc n) entries (put store k (lease options (uuid n) item))
        (put-HasDistinctKeys store k _ d)

  -- The keys that are not claimed keep their items.
  claim_each_other :
      (n : ℕ) (entries store : List (Text × T)) (key : Text)
      → contains (keys_of entries) key ≡ false
      → get (claim_each uuid options n entries store).1 key ≡ get store key
  unfolding claim_each
  claim_each_other n [] store key h = refl
  claim_each_other n ((k, item) ∷ entries) store key h =
      let (other, rest) = or_false (k == key) _ h in
      claim_each_other (suc n) entries (put store k (lease options (uuid n) item)) key rest
      ∙ get-put_other store k key (lease options (uuid n) item) other

  -- A key that is claimed has its item, leased under one of the new tokens.
  claim_each-lease :
      (n : ℕ) (entries store : List (Text × T)) {key : Text} {item : T}
      → HasDistinctKeys entries
      → IsIn (key, item) entries
      → (m : ℕ) × (n ≤ m)
        × (get (claim_each uuid options n entries store).1 key ≡ some (lease options (uuid m) item))
  unfolding claim_each
  claim_each-lease n [] store d o = absurd (not_in_nil o)
  claim_each-lease n ((k, w) ∷ entries) store {key} {item} (new, d) (at_head e) =
      let same : key ≡ k = ap (λ p. p.0) e in
      let value : item ≡ w = ap (λ p. p.1) e in
      let now : List (Text × T) = put store k (lease options (uuid n) w) in
      (
        n,
        omega arith,
        ap (get (claim_each uuid options (suc n) entries now).1) same
            ∙ claim_each_other (suc n) entries now k new
            ∙ get-put_self store k (lease options (uuid n) w)
            ∙ ap (λ x. some (lease options (uuid n) x)) (sym value),
      )
  claim_each-lease n ((k, w) ∷ entries) store (new, d) (in_tail o) =
      let (m, above, found) =
        claim_each-lease (suc n) entries (put store k (lease options (uuid n) w)) d o in
      (m, omega arith, found)

module _ {T : Type 0} ⦃i : Item T⦄ (before : Text → Text → Bool) (uuid : ℕ → Text) (n : ℕ)
    (store : List (Text × T)) (options : ClaimOptions) where
  -- A claim gives as many items as are ready, up to the limit.
  pub length-claim_from :
      length (claim_from before uuid n store options).0
      ≡ min options.limit (count_ready store options.now_utc)
  unfolding claim_from
  length-claim_from =
      length-claim_each uuid options n (candidates before store options) store
      ∙ length-candidates before store options

  pub claim_from-HasDistinctKeys :
      HasDistinctKeys store → HasDistinctKeys (claim_from before uuid n store options).1
  unfolding claim_from
  claim_from-HasDistinctKeys d =
      claim_each-HasDistinctKeys uuid options n (candidates before store options) store d

  pub claim_from-lease :
      {key : Text} {item : T}
      → HasDistinctKeys store
      → IsIn (key, item) (candidates before store options)
      → (m : ℕ) × (n ≤ m)
        × (get (claim_from before uuid n store options).1 key ≡ some (lease options (uuid m) item))
  unfolding claim_from
  claim_from-lease d o =
      claim_each-lease uuid options n (candidates before store options) store
        (candidates-HasDistinctKeys before store options d) o

  -- The item of a key after a claim: it is as before, or it was ready and is leased under a new
  -- token.
  pub claim_from-cases :
      (key : Text)
      → HasDistinctKeys store
      → (get (claim_from before uuid n store options).1 key ≡ get store key)
        ⊎ ((item : T) × (m : ℕ) × (n ≤ m)
            × (get store key ≡ some item)
            × (ready (i.delivery item) options.now_utc ≡ true)
            × (get (claim_from before uuid n store options).1 key
                ≡ some (lease options (uuid m) item)))
  unfolding claim_from
  claim_from-cases key d =
      elim (Bool-cases (contains (keys_of (candidates before store options)) key)) [
        | inl here ↦
            let (item, o) = of_contains (candidates before store options) key here in
            let (m, above, after) = claim_from-lease d o in
            let (old, is_ready) = IsIn-candidates before store options o in
            inr (item, m, above, get-of_in store d old, is_ready, after)
        | inr elsewhere ↦
            inl (
              claim_each_other uuid options n (candidates before store options) store key elsewhere)
      ]
