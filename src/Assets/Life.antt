-- ===== src/Assets/Life.antt =====
-- What a stored file of packages/domain/src/assets.ts has gone through.
use project_process_map.Base.{◌≡◌, ◌≢◌, ◌↔◌, none, arith}
use project_process_map.Base.Results.{ok}
use project_process_map.Base.Dates.{DateApi}
use project_process_map.Assets.{
  AssetLifecycleState, scanning, available, failed, deleted, Asset, TransitionOptions,
  transition_asset, assert_asset_downloadable,
}

pub data Step (d : DateApi) (a : Asset) : Asset → Type 0 where
  step :
      {b : Asset} (target : AssetLifecycleState) (options : TransitionOptions)
      → transition_asset d a target options ≡ ok b
      → Step d a b

pub data Reach (d : DateApi) (a : Asset) : Asset → Type 0 where
  here : Reach d a a
  next : {b c : Asset} → Reach d a b → Step d b c → Reach d a c

-- The marks of a failure and of a deletion are there exactly in those states.
pub record IsMarked (a : Asset) : Type 0 where
  pub failing : a.lifecycle_state ≡ failed → a.failure_code ≢ none
  pub sound : a.lifecycle_state ≢ failed → a.failure_code ≡ none
  pub gone : a.lifecycle_state ≡ deleted → a.deleted_at_utc ≢ none
  pub kept : a.lifecycle_state ≢ deleted → a.deleted_at_utc ≡ none

Step-IsMarked : {d : DateApi} {a b : Asset} → Step d a b → IsMarked a → IsMarked b
unfolding transition_asset
Step-IsMarked {a} {b} (step target options e) m = record {
  failing = ground arith;
  sound = ground arith;
  gone = ground arith;
  kept = ground arith;
}

-- From a file whose failure code is there exactly in the state failed and whose deletion time exactly in the state deleted, transitions reach only such files.
pub Reach-IsMarked : {d : DateApi} {a b : Asset} → Reach d a b → IsMarked a → IsMarked b
Reach-IsMarked here m = m
Reach-IsMarked (next r s) m = Step-IsMarked s (Reach-IsMarked r m)

-- A file that was scanned on the way.
pub record WasScanned (d : DateApi) (a b : Asset) : Type 0 where
  pub before : Asset
  pub led : Reach d a before
  pub scanned : before.lifecycle_state ≡ scanning
  pub onward : Reach d before b

Step-available :
    {d : DateApi} {a b : Asset}
    → Step d a b
    → b.lifecycle_state ≡ available
    → a.lifecycle_state ≡ scanning
unfolding transition_asset
Step-available (step target options e) h = ground arith

downloadable_iff :
    (a : Asset)
    → (assert_asset_downloadable a ≡ ok tt)
      ↔ ((a.lifecycle_state ≡ available) × (a.deleted_at_utc ≡ none))
unfolding assert_asset_downloadable
downloadable_iff a = (λ h. ground arith, λ h. ground arith)

-- A file that transitions reach from a state other than available can be downloaded only if it was in the state scanning on the way.
pub downloadable_scanned :
    {d : DateApi} {a b : Asset}
    → a.lifecycle_state ≢ available
    → Reach d a b
    → assert_asset_downloadable b ≡ ok tt
    → WasScanned d a b
downloadable_scanned {a} fresh here h = absurd (fresh ((downloadable_iff a).0 h).0)
downloadable_scanned {b} fresh (next {b = m} r s) h =
    let scanned = Step-available s ((downloadable_iff b).0 h).0 in
    record { before = m; led = r; scanned = scanned; onward = next here s }

-- For a file whose marks agree with its state, the download check passes exactly in the state available.
downloadable_by_state :
    (a : Asset)
    → IsMarked a
    → (assert_asset_downloadable a ≡ ok tt) ↔ (a.lifecycle_state ≡ available)
downloadable_by_state a m =
    (λ h. ((downloadable_iff a).0 h).0, λ h. (downloadable_iff a).1 (h, m.kept (λ e. cc)))

-- `deleted` is final.
pub deleted_stays : {d : DateApi} {a b : Asset} → Step d a b → a.lifecycle_state ≢ deleted
unfolding transition_asset
deleted_stays (step target options e) = ground arith
