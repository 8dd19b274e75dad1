-- ===== src/Queue/Settling.antt =====
-- packages/adapters/src/memory/persistence.ts: what ends the lease of an item (`complete`,
-- `release`, `deadLetter`, `deferJob`), and the new start of a dead job (`rescheduleDeadLetter`).
use project_process_map.Base.{
  ◌-◌, Bool, true, false, ◌&&◌, Option, none, some, List, leb, if◌then◌else◌, ◌==◌,
}
use project_process_map.Base.Equality.{list_eq, nat_eq, option_eq}
use project_process_map.Base.Tables.{get, put}
use project_process_map.Base.Text.{Text}
use project_process_map.Queue.{is_leased, item_key}
use project_process_map.Queue.Items.{Item, Delivery, DeliveryState, pending, finished, dead_letter}

abbrev pub is_dead : DeliveryState → Bool
is_dead dead_letter = true
is_dead _ = false

-- "retry", "dead_letter" and "lease_lost"
pub data Released : Type 0 where
  retry dead lost : Released

module _ {T : Type 0} ⦃i : Item T⦄ where
  -- The item that `leaseToken` holds: the guard of the operations below.
  abbrev pub if_held : (token : Text) → Option T → Option T
  if_held token none = none
  if_held token (some item) =
      if is_leased (i.delivery item).state && (i.delivery item).lease_token == some token
      then some item
      else none

  unfoldable pub held : List (Text × T) → (key token : Text) → Option T
  held store key token = if_held token (get store key)

  -- An item without its lease.
  abbrev pub unleased : DeliveryState → T → Delivery
  unleased state item = record (i.delivery item) {
    state = state;
    lease_owner = none;
    lease_token = none;
    lease_expires_at_utc = none;
  }

  abbrev pub finish : (at_utc : Text) → T → T
  finish at_utc item =
      i.with_delivery item (record (unleased finished item) { finished_at_utc = some at_utc })

  -- `store.set(key, change(item))` if the guard lets it, and whether it did.
  abbrev pub change_held : (T → T) → List (Text × T) → Text → Option T → Bool × List (Text × T)
  change_held change store key none = (false, store)
  change_held change store key (some item) = (true, put store key (change item))

  unfoldable pub complete :
      List (Text × T) → (tenant_id id token at_utc : Text) → Bool × List (Text × T)
  complete store tenant_id id token at_utc =
      change_held (finish at_utc) store (item_key tenant_id id)
        (held store (item_key tenant_id id) token)

  -- `item.attempts >= item.maxAttempts`
  abbrev pub is_exhausted : T → Bool
  is_exhausted item = leb (i.delivery item).max_attempts (i.delivery item).attempts

  abbrev pub give_back : (next_attempt_at_utc error : Text) → T → T
  give_back next_attempt_at_utc error item =
      i.with_delivery item
        (record (unleased (if is_exhausted item then dead_letter else pending) item) {
          available_at_utc = next_attempt_at_utc;
          last_error = some error;
        })

  abbrev pub release_held :
      List (Text × T)
      → (key next_attempt_at_utc error : Text) → Option T
      → Released × List (Text × T)
  release_held store key next_attempt_at_utc error none = (lost, store)
  release_held store key next_attempt_at_utc error (some item) = (
    if is_exhausted item then dead else retry,
    put store key (give_back next_attempt_at_utc error item),
  )

  unfoldable pub release :
      List (Text × T)
      → (tenant_id id token next_attempt_at_utc error : Text) → Released × List (Text × T)
  release store tenant_id id token next_attempt_at_utc error =
      release_held store (item_key tenant_id id) next_attempt_at_utc error
        (held store (item_key tenant_id id) token)

  abbrev pub bury : (error : Text) → T → T
  bury error item =
      i.with_delivery item (record (unleased dead_letter item) { last_error = some error })

  -- `deadLetter`
  unfoldable pub mark_dead_letter :
      List (Text × T) → (tenant_id id token error : Text) → Bool × List (Text × T)
  mark_dead_letter store tenant_id id token error =
      change_held (bury error) store (item_key tenant_id id)
        (held store (item_key tenant_id id) token)

  -- The attempt does not count.
  abbrev pub put_off : (available_at_utc : Text) → T → T
  put_off available_at_utc item = i.with_delivery item (record (unleased pending item) {
    available_at_utc = available_at_utc;
    attempts = (i.delivery item).attempts - 1;
  })

  -- `deferJob`
  unfoldable pub defer :
      List (Text × T) → (tenant_id id token available_at_utc : Text) → Bool × List (Text × T)
  defer store tenant_id id token available_at_utc =
      change_held (put_off available_at_utc) store (item_key tenant_id id)
        (held store (item_key tenant_id id) token)

  -- `rescheduleDeadLetter`
  abbrev pub revive : (available_at_utc : Text) → T → T
  revive available_at_utc item = i.with_delivery item (record (unleased pending item) {
    available_at_utc = available_at_utc;
    attempts = 0;
    last_error = none;
    finished_at_utc = none;
  })

  abbrev pub if_dead : Option T → Option T
  if_dead none = none
  if_dead (some item) = if is_dead (i.delivery item).state then some item else none

  unfoldable pub reschedule_dead_letter :
      List (Text × T) → (tenant_id id available_at_utc : Text) → Bool × List (Text × T)
  reschedule_dead_letter store tenant_id id available_at_utc =
      change_held (revive available_at_utc) store (item_key tenant_id id)
        (if_dead (get store (item_key tenant_id id)))
