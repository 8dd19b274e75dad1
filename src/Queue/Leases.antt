-- ===== src/Queue/Leases.antt =====
-- What a token of packages/adapters/src/memory/persistence.ts is worth: the item that it is the
-- lease of, and nothing after the item was given on.
use project_process_map.Base.{
  ℕ, ◌↔◌, ◌≡◌, refl, ap, sym, ◌∙◌, ◌<◌, ◌⊎◌, inl, inr, Bool, true, false, none, some, List, IsIn,
  arith, Bool-cases, ◌==◌, eq_refl, ◌&&◌, and_split, Option-cases, if◌then◌else◌,
}
use project_process_map.Base.Equality.{list_eq, nat_eq, option_eq, eq_of}
use project_process_map.Base.Tables.{get, put}
use project_process_map.Base.Text.{Text}
use project_process_map.Queue.{candidates, claim_from, lease, ClaimOptions, item_key, is_leased}
use project_process_map.Queue.Items.{Item}
use project_process_map.Queue.Settling.{
  held, if_held, complete, finish, release, give_back, is_exhausted, mark_dead_letter, bury, defer,
  put_off, retry, dead, lost,
}
use project_process_map.Queue.Entries.{HasDistinctKeys}
use project_process_map.Queue.Claims.{claim_from-lease}

module _ {T : Type 0} ⦃i : Item T⦄ where
  -- The item is leased under the token.
  abbrev pub IsLeasedUnder : (token : Text) → T → Type 0
  IsLeasedUnder token item =
      (is_leased (i.delivery item).state ≡ true) × ((i.delivery item).lease_token ≡ some token)

  abbrev guard : (token : Text) → T → Bool
  guard token item =
      is_leased (i.delivery item).state && (i.delivery item).lease_token == some token

  guard_iff : (token : Text) (item : T) → (guard token item ≡ true) ↔ IsLeasedUnder token item
  guard_iff token item = (
    λ h. let (a, b) = and_split _ _ h in (a, eq_of _ (some token) b),
    λ h. rw h.0 (rw h.1 (eq_refl (some token))),
  )

  if_held-none :
      (token : Text) (item : T) → guard token item ≡ false → if_held token (some item) ≡ none
  if_held-none token item h = rw h refl

  if_held-some :
      (token : Text) (item : T) → guard token item ≡ true → if_held token (some item) ≡ some item
  if_held-some token item h = rw h refl

  -- Either the key's item is leased under the token, and it is the one that is held, or none is.
  pub held-cases :
      (store : List (Text × T)) (key token : Text)
      → ((item : T) × (get store key ≡ some item)
          × IsLeasedUnder token item
          × (held store key token ≡ some item))
        ⊎ (((item : T) → get store key ≡ some item → IsLeasedUnder token item → ⊥)
            × (held store key token ≡ none))
  unfolding held
  held-cases store key token = elim (Option-cases (get store key)) [
    | inl missing ↦
        inr ((λ item found under. let never : ⊥ = cc in never), ap (if_held token) missing)
    | inr (item, found) ↦ elim (Bool-cases (guard token item)) [
      | inl under ↦ inl (
        item,
        found,
        (guard_iff token item).0 under,
        ap (if_held token) found ∙ if_held-some token item under,
      )
      | inr other ↦ inr (
        (λ again there under.
            let same : again ≡ item = cc in
            let clash : guard token again ≡ true = (guard_iff token again).1 under in
            let differ : guard token again ≡ false = ap (guard token) same ∙ other in
            let never : ⊥ = cc in never),
        ap (if_held token) found ∙ if_held-none token item other,
      )
    ]
  ]

  -- Every operation on the lease of an item by a token: it succeeds and changes that item as the
  -- operation says if the item is leased under the token; otherwise it reports so and leaves the
  -- whole store.
  pub settling-cases :
      (store : List (Text × T)) (tenant_id id token : Text)
      → ((item : T) × (get store (item_key tenant_id id) ≡ some item)
          × IsLeasedUnder token item
          × ((at_utc : Text)
              → complete store tenant_id id token at_utc
                ≡ (true, put store (item_key tenant_id id) (finish at_utc item)))
          × ((next error : Text)
              → release store tenant_id id token next error ≡ (
                if is_exhausted item then dead else retry,
                put store (item_key tenant_id id) (give_back next error item),
              ))
          × ((error : Text)
              → mark_dead_letter store tenant_id id token error
                ≡ (true, put store (item_key tenant_id id) (bury error item)))
          × ((available : Text)
              → defer store tenant_id id token available
                ≡ (true, put store (item_key tenant_id id) (put_off available item))))
        ⊎ (((item : T)
              → get store (item_key tenant_id id) ≡ some item
              → IsLeasedUnder token item
              → ⊥)
            × ((at_utc : Text) → complete store tenant_id id token at_utc ≡ (false, store))
            × ((next error : Text) → release store tenant_id id token next error ≡ (lost, store))
            × ((error : Text) → mark_dead_letter store tenant_id id token error ≡ (false, store))
            × ((available : Text) → defer store tenant_id id token available ≡ (false, store)))
  unfolding complete release mark_dead_letter defer
  settling-cases store tenant_id id token = elim (held-cases store (item_key tenant_id id) token) [
    | inl (item, found, under, is_held) ↦ inl (
      item,
      found,
      under,
      λ _. rw is_held refl,
      λ _ _. rw is_held refl,
      λ _. rw is_held refl,
      λ _. rw is_held refl,
    )
    | inr (nobody, free) ↦
        inr (nobody, λ _. rw free refl, λ _ _. rw free refl, λ _. rw free refl, λ _. rw free refl)
  ]

  -- An item that is claimed again, after its lease ended, is out of reach of every token that was
  -- given before: all four operations with such a token leave the store, and say so. The tokens
  -- are different from each other.
  pub old_token-lost :
      (before : Text → Text → Bool) (uuid : ℕ → Text) (m n : ℕ) (store : List (Text × T))
      (options : ClaimOptions) (tenant_id id : Text) {item : T}
      → ((a b : ℕ) → uuid a ≡ uuid b → a ≡ b)
      → HasDistinctKeys store
      → m < n
      → IsIn (item_key tenant_id id, item) (candidates before store options)
      → let after = (claim_from before uuid n store options).1 in
        ((at_utc : Text) → complete after tenant_id id (uuid m) at_utc ≡ (false, after))
        × ((next error : Text) → release after tenant_id id (uuid m) next error ≡ (lost, after))
        × ((error : Text) → mark_dead_letter after tenant_id id (uuid m) error ≡ (false, after))
        × ((available : Text) → defer after tenant_id id (uuid m) available ≡ (false, after))
  unfolding lease
  old_token-lost before uuid m n store options tenant_id id {item} differ d old o =
      let (k, above, found) = claim_from-lease before uuid n store options d o in
      elim (settling-cases (claim_from before uuid n store options).1 tenant_id id (uuid m)) [
        | inl (again, there, under, _, _, _, _) ↦
            let same : again ≡ lease options (uuid k) item = cc in
            let tokens : some (uuid k) ≡ some (uuid m) =
              sym (ap (λ d. d.lease_token) (i.delivery-with_delivery item _))
              ∙ sym (ap (λ x. (i.delivery x).lease_token) same)
              ∙ under.1 in
            let token : uuid k ≡ uuid m = cc in
            let number = differ k m token in absurd (omega arith)
        | inr off ↦ (off.1, off.2, off.3, off.4)
      ]
