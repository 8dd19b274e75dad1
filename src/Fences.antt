-- ===== src/Fences.antt =====
-- packages/domain/src/outbound-projection-fence.ts and the fences of
-- packages/adapters/src/memory/persistence.ts: a worker that projects a part of a project to the
-- outside holds its fence, under a token and up to a time.
-- The table holds the fences of one tenant, by their id.
pub mod Held
use project_process_map.Base.{
  Bool, true, false, not, ◌&&◌, Option, none, some, List, [], ◌∷◌, if◌then◌else◌, ◌==◌, ◌!=◌,
}
use project_process_map.Base.Equality.{list_eq, nat_eq}
use project_process_map.Base.Results.{Result, ok, err, ◌>>◌}
use project_process_map.Base.Tables.{get, put}
use project_process_map.Base.Text.{Text, text_lt}
use project_process_map.Memory.{StoreError, assert_tenant}

pub record OutboundProjectionFence : Type 0 where
  pub tenant_id : Text
  pub id : Text
  pub project_id : Text
  pub owner_node_id : Text
  pub token : Text
  pub expires_at_utc : Text
  pub created_at_utc : Text

abbrev pub Fences : Type 0
Fences = List (Text × OutboundProjectionFence)

-- `map.delete(key)`
unfoldable pub without : Fences → Text → Fences
without [] key = []
without ((k, f) ∷ fences) key =
    let rest = without fences key in if k == key then rest else (k, f) ∷ rest

-- `current !== undefined && current.expiresAtUtc > fence.createdAtUtc`
abbrev pub blocks : Option OutboundProjectionFence → OutboundProjectionFence → Bool
blocks none fence = false
blocks (some current) fence = text_lt fence.created_at_utc current.expires_at_utc

unfoldable pub acquire : Text → Fences → OutboundProjectionFence → Result StoreError (Bool × Fences)
acquire tenant_id fences fence = do
  assert_tenant tenant_id fence.tenant_id
  if blocks (get fences fence.id) fence
      then ok (false, fences)
      else ok (true, put fences fence.id fence)

-- `current === undefined || current.token !== token` holds of what is no fence of the token.
abbrev pub if_owned :
    Option OutboundProjectionFence
    → (token : Text) → Fences
    → (OutboundProjectionFence → Fences)
    → Bool × Fences
if_owned none token fences change = (false, fences)
if_owned (some current) token fences change =
    if current.token == token then (true, change current) else (false, fences)

unfoldable pub renew : Fences → (fence_id token expires_at_utc : Text) → Bool × Fences
renew fences fence_id token expires_at_utc =
    if_owned (get fences fence_id) token fences
      λ current. put fences fence_id (record current { expires_at_utc = expires_at_utc })

unfoldable pub release : Fences → (fence_id token : Text) → Bool × Fences
release fences fence_id token =
    if_owned (get fences fence_id) token fences λ current. without fences fence_id
