-- ===== src/Examples/Fences.antt =====
-- A fence that one worker holds, and what others try.
use project_process_map.Base.{◌≡◌, refl, false, some, List, ◌∷◌, []}
use project_process_map.Base.Equality.{list_eq, nat_eq}
use project_process_map.Base.Tables.{get, put}
use project_process_map.Base.Text.{text}
use project_process_map.Memory.{assert_tenant}
use project_process_map.Fences.{OutboundProjectionFence, Fences, without, acquire, release}
use project_process_map.Fences.Held.{
  FenceCall, acquires, renews, releases, after_calls, succeeds, held-exclusive,
}

abbrev pub fence : OutboundProjectionFence
fence = record {
  tenant_id = text "t";
  id = text "f";
  project_id = text "p";
  owner_node_id = text "n";
  token = text "one";
  expires_at_utc = text "2026-01-01T00:10:00.000Z";
  created_at_utc = text "2026-01-01T00:00:00.000Z";
}

abbrev early : OutboundProjectionFence
early = record fence { token = text "two"; created_at_utc = text "2026-01-01T00:09:00.000Z" }

abbrev late : OutboundProjectionFence
late = record fence { token = text "two"; created_at_utc = text "2026-01-01T00:10:00.000Z" }

abbrev fences : Fences
fences = (text "f", fence) ∷ []

abbrev tries : List FenceCall
tries = releases (text "f") (text "two") ∷ renews (text "f") (text "two") (text "2027") ∷ []

-- The fence is free at the time at which it expires, and after a release under its token.
late_acquires : after_calls (text "t") fences (acquires late ∷ []) ≡ (text "f", late) ∷ []
unfolding acquire assert_tenant put
late_acquires = refl

holder_releases : after_calls (text "t") fences (releases (text "f") (text "one") ∷ []) ≡ []
unfolding release without
holder_releases = refl

held-exclusive_example :
    (get (after_calls (text "t") fences tries) (text "f") ≡ some fence)
    × (succeeds (text "t") (after_calls (text "t") fences tries) (acquires early) ≡ false)
held-exclusive_example =
    held-exclusive (text "t") fences fence tries (acquires early) refl refl refl
