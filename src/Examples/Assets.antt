-- ===== src/Examples/Assets.antt =====
-- A file that is uploaded, scanned and released.
use project_process_map.Base.{◌≡◌, ◌≢◌, refl, none, some, arith}
use project_process_map.Base.Results.{ok}
use project_process_map.Base.Text.{text}
use project_process_map.Assets.{
  Asset, AssetLifecycleState, uploading, initiated, scanning, available, TransitionOptions,
  transition_asset, assert_asset_downloadable,
}
use project_process_map.Assets.Life.{
  Step, step, Reach, here, next, IsMarked, Reach-IsMarked, WasScanned, downloadable_scanned,
  deleted_stays,
}
use project_process_map.Examples.Clock.{clock, noon}

abbrev drawing : Asset
drawing = record {
  tenant_id = text "t";
  id = text "a";
  project_id = text "p";
  owner_node_id = text "n";
  security_domain_id = none;
  security_epoch = 1;
  uploader_principal_id = text "ann";
  display_name = text "drawing.pdf";
  content_type = text "application/pdf";
  size = 10;
  sha256 = text "00";
  lifecycle_state = initiated;
  failure_code = none;
  version = 1;
  deleted_at_utc = none;
}

abbrev plainly : TransitionOptions
plainly = record { failure_code = none; occurred_at_utc = none }

abbrev sent : Asset
sent = record drawing { lifecycle_state = uploading; version = 2 }

abbrev held : Asset
held = record sent { lifecycle_state = scanning; version = 3 }

abbrev released : Asset
released = record held { lifecycle_state = available; version = 4 }

abbrev removed : Asset
removed = record released {
  lifecycle_state = AssetLifecycleState.deleted;
  version = 5;
  deleted_at_utc = some noon;
}

send_drawing : Step clock drawing sent
unfolding transition_asset
send_drawing = step uploading plainly refl

hold_sent : Step clock sent held
unfolding transition_asset
hold_sent = step scanning plainly refl

release_held : Step clock held released
unfolding transition_asset
release_held = step available plainly refl

remove_released : Step clock released removed
unfolding transition_asset
remove_released =
    step AssetLifecycleState.deleted (record { failure_code = none; occurred_at_utc = some noon })
      refl

abbrev life : Reach clock drawing released
life = next (next (next here send_drawing) hold_sent) release_held

drawing-IsMarked : IsMarked drawing
drawing-IsMarked = ground arith

released_downloadable : assert_asset_downloadable released ≡ ok tt
unfolding assert_asset_downloadable
released_downloadable = refl

downloadable_scanned_example : WasScanned clock drawing released
downloadable_scanned_example = downloadable_scanned (λ e. cc) life released_downloadable

Reach-IsMarked_example : IsMarked removed
Reach-IsMarked_example = Reach-IsMarked (next life remove_released) drawing-IsMarked

deleted_stays_example : released.lifecycle_state ≢ AssetLifecycleState.deleted
deleted_stays_example = deleted_stays remove_released
