-- ===== src/Queue.antt =====
-- packages/adapters/src/memory/persistence.ts: the leases of the outbox and of the background jobs
-- (`validateClaim`, `ready`, `claimFrom`), which workers that may crash share. The random tokens and
-- `localeCompare` are parameters. The limit of a claim is a natural number: any other is refused by
-- the first test of `validateClaim`.
pub mod Items
pub mod Settling
pub mod Entries
pub mod Claims
pub mod Leases
pub mod Steps
pub mod Exclusive
pub mod Outcomes
use project_process_map.Base.{
  ℕ, zero, suc, ◌+◌, Bool, true, false, not, ◌&&◌, ◌||◌, Option, none, some, List, [], ◌∷◌, ◌++◌,
  leb, length, if◌then◌else◌,
}
use project_process_map.Base.Equality.{list_eq, nat_eq, option_eq}
use project_process_map.Base.Results.{Result, ok, err, ◌>>◌, throw_if}
use project_process_map.Base.Dates.{DateApi}
use project_process_map.Base.Tables.{get, put}
use project_process_map.Base.Order.{sort_by}
use project_process_map.Base.Text.{Text, text_lt, is_blank}
use project_process_map.Store.{keep}
use project_process_map.Queue.Items.{Item, Delivery, DeliveryState, pending, leased}

pub record ClaimOptions : Type 0 where
  pub worker_id : Text
  pub now_utc : Text
  pub lease_until_utc : Text
  pub limit : ℕ

pub data ClaimError : Type 0 where
  invalid_claim_options invalid_lease_deadline : ClaimError

-- `Date.parse(left) <= Date.parse(right)`: no comparison with NaN holds.
unfoldable pub is_at_most : Option ℕ → Option ℕ → Bool
is_at_most (some m) (some n) = leb m n
is_at_most _ _ = false

unfoldable pub validate_claim : DateApi → ClaimOptions → Result ClaimError (Unit {0})
validate_claim d options =
    throw_if (is_blank options.worker_id || leb options.limit 0) invalid_claim_options
    >> throw_if (is_at_most (d.parse options.lease_until_utc) (d.parse options.now_utc))
        invalid_lease_deadline

-- The key of an item: `${tenantId}\u0000${id}`
abbrev pub item_key : (tenant_id id : Text) → Text
item_key tenant_id id = tenant_id ++ 0 ∷ id

abbrev pub is_pending : DeliveryState → Bool
is_pending pending = true
is_pending _ = false

abbrev pub is_leased : DeliveryState → Bool
is_leased leased = true
is_leased _ = false

-- `left <= right` on strings, and on a left that may be null.
abbrev pub is_past : (left right : Text) → Bool
is_past left right = not (text_lt right left)

abbrev pub has_expired : Option Text → Text → Bool
has_expired none now_utc = false
has_expired (some expiry) now_utc = is_past expiry now_utc

unfoldable pub ready : Delivery → (now_utc : Text) → Bool
ready d now_utc =
    is_pending d.state && is_past d.available_at_utc now_utc
    || is_leased d.state && has_expired d.lease_expires_at_utc now_utc

-- `entries.slice(0, n)`
abbrev pub take {ℓ} : {A : Type ℓ} → ℕ → List A → List A
take zero entries = []
take (suc n) [] = []
take (suc n) (e ∷ entries) = e ∷ take n entries

module _ {T : Type 0} ⦃i : Item T⦄ where
  abbrev pub ready_entries : List (Text × T) → (now_utc : Text) → List (Text × T)
  ready_entries store now_utc = keep (λ e. ready (i.delivery e.1) now_utc) store

  unfoldable pub count_ready : List (Text × T) → (now_utc : Text) → ℕ
  count_ready store now_utc = length (ready_entries store now_utc)

  -- `left.availableAtUtc.localeCompare(right.availableAtUtc)` is negative, by `before`.
  abbrev pub is_earlier : (before : Text → Text → Bool) → Text × T → Text × T → Bool
  is_earlier before e f = before (i.delivery e.1).available_at_utc (i.delivery f.1).available_at_utc

  unfoldable pub candidates :
      (before : Text → Text → Bool) → List (Text × T) → ClaimOptions → List (Text × T)
  candidates before store options =
      take options.limit (sort_by (is_earlier before) (ready_entries store options.now_utc))

  -- The item that a claim writes.
  unfoldable pub lease : ClaimOptions → (token : Text) → T → T
  lease options token item = i.with_delivery item (record (i.delivery item) {
    state = leased;
    attempts = (i.delivery item).attempts + 1;
    lease_owner = some options.worker_id;
    lease_token = some token;
    lease_expires_at_utc = some options.lease_until_utc;
  })

  -- The loop over the candidates; the n-th call of `randomUUID` gives `uuid n`.
  unfoldable pub claim_each :
      (uuid : ℕ → Text)
      → ClaimOptions
      → (n : ℕ) → List (Text × T)
      → List (Text × T)
      → List T × List (Text × T)
  claim_each uuid options n [] store = ([], store)
  claim_each uuid options n ((key, item) ∷ entries) store =
      let updated = lease options (uuid n) item in
      let (claimed, after) = claim_each uuid options (suc n) entries (put store key updated) in
      (updated ∷ claimed, after)

  -- The items claimed, and the store after the claim; `n` calls of `randomUUID` came before.
  unfoldable pub claim_from :
      (before : Text → Text → Bool)
      → (uuid : ℕ → Text) → (n : ℕ) → List (Text × T)
      → ClaimOptions
      → List T × List (Text × T)
  claim_from before uuid n store options =
      claim_each uuid options n (candidates before store options) store
