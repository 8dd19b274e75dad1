-- ===== src/Examples/Queue.antt =====
-- A job, claimed twice by two workers, the first of which is late.
use project_process_map.Base.{
  ℕ, ◌≡◌, ◌≤◌, refl, none, some, [], ◌∷◌, List, false, IsIn, at_head, inl, inr, arith, length,
  Bool-cases, subst, ◌==◌,
}
use Prim.Native.Nat.{min}
use project_process_map.Base.Equality.{list_eq, nat_eq}
use project_process_map.Base.Order.{sort_by, insert_by}
use project_process_map.Base.Tables.{get, put}
use project_process_map.Base.Text.{Text, text, text_lt}
use project_process_map.Events.{no_fields, BackgroundJob, JobState}
use project_process_map.Queue.{
  ClaimOptions, ready, count_ready, candidates, lease, claim_each, claim_from, item_key,
}
use project_process_map.Queue.Items.{job_item}
use project_process_map.Queue.Settling.{held, complete, release, mark_dead_letter, defer, lost}
use project_process_map.Queue.Claims.{length-claim_from}
use project_process_map.Queue.Leases.{old_token-lost}
use project_process_map.Queue.Exclusive.{Meanwhile, nothing, and_then, lease-exclusive}
use project_process_map.Queue.Outcomes.{AreSettled, claim-settled}
use project_process_map.Queue.Steps.{
  IsSound, AllSound, claimed, completed, start, then_step, History-AllSound, History-finished,
}
use project_process_map.Examples.Clock.{noon, evening}

abbrev job : BackgroundJob
job = record {
  tenant_id = text "t";
  id = text "j";
  job_type = text "mail";
  dedupe_key = none;
  payload = no_fields;
  state = JobState.pending;
  priority = 0;
  available_at_utc = noon;
  attempts = 0;
  max_attempts = 3;
  lease_owner = none;
  lease_token = none;
  lease_expires_at_utc = none;
  last_error = none;
  completed_at_utc = none;
  created_at_utc = noon;
}

abbrev store : List (Text × BackgroundJob)
store = (item_key (text "t") (text "j"), job) ∷ []

abbrev first : ClaimOptions
first = record { worker_id = text "w"; now_utc = noon; lease_until_utc = evening; limit = 5 }

abbrev night : ClaimOptions
night = record {
  worker_id = text "v";
  now_utc = text "2026-03-01T20:00:00.000Z";
  lease_until_utc = text "2026-03-01T21:00:00.000Z";
  limit = 1;
}

abbrev uuid : ℕ → Text
uuid n = n ∷ []

differ : (a b : ℕ) → uuid a ≡ uuid b → a ≡ b
differ a b h = cc

-- The definitions of a claim, opened together.
claims : Unit {0}
unfolding ready candidates count_ready lease claim_each claim_from sort_by insert_by put held
    complete
claims = tt

length-claim_from_example :
    length (claim_from text_lt uuid 0 store first).0 ≡ min 5 (count_ready store noon)
length-claim_from_example = length-claim_from text_lt uuid 0 store first

abbrev held_job : BackgroundJob
held_job = record job {
  state = JobState.leased;
  attempts = 1;
  lease_owner = some (text "w");
  lease_token = some (uuid 0);
  lease_expires_at_utc = some evening;
}

abbrev held_store : List (Text × BackgroundJob)
held_store = (item_key (text "t") (text "j"), held_job) ∷ []

first_claim : claim_from text_lt uuid 0 store first ≡ (held_job ∷ [], held_store)
unfolding claims
first_claim = refl

is_candidate : IsIn (item_key (text "t") (text "j"), job) (candidates text_lt store first)
unfolding claims
is_candidate = at_head refl

is_candidate_again :
    IsIn (item_key (text "t") (text "j"), held_job) (candidates text_lt held_store night)
unfolding claims
is_candidate_again = at_head refl

-- Before the evening another worker claims, and reports with a token of its own.
abbrev at_noon : ClaimOptions
at_noon = record night { now_utc = noon }

others_at_noon :
    Meanwhile
      (uuid 0)
      evening
      (claim_from text_lt uuid 0 store first).1
      (complete
        (claim_from text_lt uuid 7 (claim_from text_lt uuid 0 store first).1 at_noon).1
        (text "t")
        (text "j")
        (uuid 7)
        noon).1
others_at_noon =
    and_then (and_then nothing (claimed text_lt uuid 7 at_noon) refl)
      (completed (text "t") (text "j") (uuid 7) noon) (λ same. let never : ⊥ = cc in never)

is_held :
    get (claim_from text_lt uuid 0 store first).1 (item_key (text "t") (text "j")) ≡ some held_job
unfolding claims
is_held = refl

lease-exclusive_example :
    let later =
      (complete
        (claim_from text_lt uuid 7 (claim_from text_lt uuid 0 store first).1 at_noon).1
        (text "t")
        (text "j")
        (uuid 7)
        noon).1 in
    (get later (item_key (text "t") (text "j")) ≡ some held_job)
    × (get (candidates text_lt later at_noon) (item_key (text "t") (text "j")) ≡ none)
lease-exclusive_example =
    lease-exclusive text_lt uuid 0 store first at_noon (item_key (text "t") (text "j")) (uuid 0)
      (refl, tt) is_candidate is_held refl others_at_noon refl

claim-settled_example :
    (m : ℕ) × (0 ≤ m)
    × (current : BackgroundJob) × (get
          (claim_from text_lt uuid 0 store first).1
          (item_key (text "t") (text "j"))
        ≡ some current)
    × AreSettled
        (claim_from text_lt uuid 0 store first).1
        (text "t")
        (text "j")
        (uuid m)
        current
        (job_item.delivery job)
        evening
        evening
        (text "no answer")
        evening
claim-settled_example =
    claim-settled text_lt uuid 0 store first (text "t") (text "j") evening evening
      (text "no answer") evening (refl, tt) is_candidate

old_token-lost_example :
    let after = (claim_from text_lt uuid 1 held_store night).1 in
    ((at_utc : Text) → complete after (text "t") (text "j") (uuid 0) at_utc ≡ (false, after))
    × ((next error : Text)
        → release after (text "t") (text "j") (uuid 0) next error ≡ (lost, after))
    × ((error : Text)
        → mark_dead_letter after (text "t") (text "j") (uuid 0) error ≡ (false, after))
    × ((available : Text) → defer after (text "t") (text "j") (uuid 0) available ≡ (false, after))
old_token-lost_example =
    old_token-lost text_lt uuid 0 1 held_store night (text "t") (text "j") differ (refl, tt)
      (omega arith) is_candidate_again

job_sound : AllSound store
job_sound key item found = elim (Bool-cases (item_key (text "t") (text "j") == key)) [
  | inl same ↦
      let here : get store key ≡ some job = rw same refl in
      let e : job ≡ item = cc in
      subst (λ x. IsSound (job_item.delivery x)) e (inr (refl, refl, refl, refl))
  | inr other ↦
      let gone : get store key ≡ none = rw other refl in let never : ⊥ = cc in absurd never
]

History-AllSound_example :
    AllSound
      (complete (claim_from text_lt uuid 0 store first).1 (text "t") (text "j") (uuid 0) evening).1
History-AllSound_example =
    History-AllSound (refl, tt) job_sound
      (then_step (then_step start (claimed text_lt uuid 0 first))
        (completed (text "t") (text "j") (uuid 0) evening))

abbrev done_job : BackgroundJob
done_job = record job { state = JobState.completed; attempts = 1; completed_at_utc = some evening }

History-finished_example :
    get
      (complete
        (claim_from text_lt uuid 1 ((item_key (text "t") (text "j"), done_job) ∷ []) night).1
        (text "t")
        (text "j")
        (uuid 0)
        evening).1
      (item_key (text "t") (text "j"))
    ≡ some done_job
History-finished_example =
    History-finished (item_key (text "t") (text "j")) done_job (refl, tt) refl refl
      (then_step (then_step start (claimed text_lt uuid 1 night))
        (completed (text "t") (text "j") (uuid 0) evening))
