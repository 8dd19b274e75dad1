-- ===== src/Examples/Migrations.antt =====
-- A migration that is started, makes progress, is verified and committed.
use project_process_map.Base.{◌≡◌, ◌≢◌, refl, true, none, some, arith}
use project_process_map.Base.Equality.{list_eq, nat_eq, option_eq}
use project_process_map.Base.Results.{ok}
use project_process_map.Base.Sets.{contains}
use project_process_map.Base.Text.{text}
use project_process_map.Security.Migration.{
  SecurityDomainMigration, planned, active, verifying, committed, rolled_back, Checkpoint,
  transition_security_migration, checkpoint_security_migration, effective_security_domains,
  assert_security_migration_progress_change,
}
use project_process_map.Security.Migration.Progress.{
  Step, transition, checkpoint, Reach, here, next, IsSound, Reach-IsSound, final,
}
use project_process_map.Security.Migration.Proposals.{IsEnd, accepted_iff_Step, no_widening}
use project_process_map.Examples.Clock.{clock, noon, evening, text_tests}

abbrev pub plan : SecurityDomainMigration
plan = record {
  tenant_id = text "t";
  id = text "m";
  project_id = text "p";
  root_node_id = text "n";
  source_security_domain_id = none;
  target_security_domain_id = some (text "dom");
  hierarchy_revision = 4;
  source_security_epoch = 1;
  target_security_epoch = 2;
  state = planned;
  cursor = none;
  total_items = 3;
  migrated_items = 0;
  failure = none;
  next_attempt_at_utc = none;
  deadline_at_utc = evening;
  version = 1;
  created_at_utc = noon;
  updated_at_utc = noon;
}

abbrev pub begun : SecurityDomainMigration
begun = record plan { state = active; version = 2 }

abbrev saved : Checkpoint
saved = record { cursor = text "c2"; migrated_items = 2; occurred_at_utc = noon }

abbrev halfway : SecurityDomainMigration
halfway = record begun { cursor = some (text "c2"); migrated_items = 2; version = 3 }

abbrev checked : SecurityDomainMigration
checked = record halfway { state = verifying; version = 4; updated_at_utc = evening }

abbrev done : SecurityDomainMigration
done = record checked { state = committed; version = 5 }

begin_plan : Step clock plan begun
unfolding transition_security_migration text_tests
begin_plan = transition active noon none refl

save_begun : Step clock begun halfway
unfolding checkpoint_security_migration text_tests
save_begun = checkpoint saved refl

check_halfway : Step clock halfway checked
unfolding transition_security_migration text_tests
check_halfway = transition verifying evening none refl

commit_checked : Step clock checked done
unfolding transition_security_migration text_tests
commit_checked = transition committed evening none refl

abbrev run : Reach clock plan done
run = next (next (next (next here begin_plan) save_begun) check_halfway) commit_checked

plan-IsSound : IsSound plan
plan-IsSound = ground arith

Reach-IsSound_example : IsSound done
Reach-IsSound_example = Reach-IsSound run plan-IsSound

final_example : (checked.state ≢ committed) × (checked.state ≢ rolled_back)
final_example = final commit_checked

accepted_iff_Step_example : assert_security_migration_progress_change clock begun halfway ≡ ok tt
accepted_iff_Step_example = (accepted_iff_Step clock begun halfway).1 save_begun

target_counts : contains (effective_security_domains done) (some (text "dom")) ≡ true
unfolding effective_security_domains
target_counts = refl

no_widening_example :
    (contains (effective_security_domains checked) (some (text "dom")) ≡ true)
    × IsEnd done (some (text "dom"))
no_widening_example =
    no_widening (some (text "dom")) commit_checked (λ same. let never : ⊥ = cc in never)
      target_counts
