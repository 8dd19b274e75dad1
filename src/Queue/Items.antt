-- ===== src/Queue/Items.antt =====
-- What the outbox's messages and the background jobs (packages/domain/src/events.ts) have in
-- common: the fields of the delivery, which the operations of the queue read and write.
use project_process_map.Base.{ℕ, ◌≡◌, refl, ap, Option}
use project_process_map.Base.Text.{Text}
use project_process_map.Events.{OutboxState, OutboxMessage, JobState, BackgroundJob}

-- `finished` is the outbox's `published` and the jobs' `completed`.
pub data DeliveryState : Type 0 where
  pending leased finished dead_letter : DeliveryState

pub record Delivery : Type 0 where
  pub state : DeliveryState
  pub available_at_utc : Text
  pub attempts : ℕ
  pub max_attempts : ℕ
  pub lease_owner : Option Text
  pub lease_token : Option Text
  pub lease_expires_at_utc : Option Text
  pub last_error : Option Text
  pub finished_at_utc : Option Text

-- `T extends OutboxMessage | BackgroundJob`: a type of items with a delivery in them.
pub record Item (T : Type 0) : Type 0 where
  pub delivery : T → Delivery
  pub with_delivery : T → Delivery → T
  pub delivery-with_delivery : (item : T) (d : Delivery) → delivery (with_delivery item d) ≡ d

abbrev pub outbox_delivery_state : OutboxState → DeliveryState
outbox_delivery_state OutboxState.pending = DeliveryState.pending
outbox_delivery_state OutboxState.leased = DeliveryState.leased
outbox_delivery_state OutboxState.published = DeliveryState.finished
outbox_delivery_state OutboxState.dead_letter = DeliveryState.dead_letter

abbrev pub outbox_state : DeliveryState → OutboxState
outbox_state DeliveryState.pending = OutboxState.pending
outbox_state DeliveryState.leased = OutboxState.leased
outbox_state DeliveryState.finished = OutboxState.published
outbox_state DeliveryState.dead_letter = OutboxState.dead_letter

abbrev pub job_delivery_state : JobState → DeliveryState
job_delivery_state JobState.pending = DeliveryState.pending
job_delivery_state JobState.leased = DeliveryState.leased
job_delivery_state JobState.completed = DeliveryState.finished
job_delivery_state JobState.dead_letter = DeliveryState.dead_letter

abbrev pub job_state : DeliveryState → JobState
job_state DeliveryState.pending = JobState.pending
job_state DeliveryState.leased = JobState.leased
job_state DeliveryState.finished = JobState.completed
job_state DeliveryState.dead_letter = JobState.dead_letter

abbrev pub outbox_delivery : OutboxMessage → Delivery
outbox_delivery m = record {
  state = outbox_delivery_state m.state;
  available_at_utc = m.available_at_utc;
  attempts = m.attempts;
  max_attempts = m.max_attempts;
  lease_owner = m.lease_owner;
  lease_token = m.lease_token;
  lease_expires_at_utc = m.lease_expires_at_utc;
  last_error = m.last_error;
  finished_at_utc = m.published_at_utc;
}

abbrev pub with_outbox_delivery : OutboxMessage → Delivery → OutboxMessage
with_outbox_delivery m d = record m {
  state = outbox_state d.state;
  available_at_utc = d.available_at_utc;
  attempts = d.attempts;
  max_attempts = d.max_attempts;
  lease_owner = d.lease_owner;
  lease_token = d.lease_token;
  lease_expires_at_utc = d.lease_expires_at_utc;
  last_error = d.last_error;
  published_at_utc = d.finished_at_utc;
}

pub outbox_state_lem : (s : DeliveryState) → outbox_delivery_state (outbox_state s) ≡ s
outbox_state_lem DeliveryState.pending = refl
outbox_state_lem DeliveryState.leased = refl
outbox_state_lem DeliveryState.finished = refl
outbox_state_lem DeliveryState.dead_letter = refl

pub job_state_lem : (s : DeliveryState) → job_delivery_state (job_state s) ≡ s
job_state_lem DeliveryState.pending = refl
job_state_lem DeliveryState.leased = refl
job_state_lem DeliveryState.finished = refl
job_state_lem DeliveryState.dead_letter = refl

-- The instances for the two types.
instance abbrev pub outbox_item : Item OutboxMessage
outbox_item = record {
  delivery = outbox_delivery;
  with_delivery = with_outbox_delivery;
  delivery-with_delivery = λ item d. ap (λ s. record d { state = s }) (outbox_state_lem d.state);
}

abbrev pub job_delivery : BackgroundJob → Delivery
job_delivery j = record {
  state = job_delivery_state j.state;
  available_at_utc = j.available_at_utc;
  attempts = j.attempts;
  max_attempts = j.max_attempts;
  lease_owner = j.lease_owner;
  lease_token = j.lease_token;
  lease_expires_at_utc = j.lease_expires_at_utc;
  last_error = j.last_error;
  finished_at_utc = j.completed_at_utc;
}

abbrev pub with_job_delivery : BackgroundJob → Delivery → BackgroundJob
with_job_delivery j d = record j {
  state = job_state d.state;
  available_at_utc = d.available_at_utc;
  attempts = d.attempts;
  max_attempts = d.max_attempts;
  lease_owner = d.lease_owner;
  lease_token = d.lease_token;
  lease_expires_at_utc = d.lease_expires_at_utc;
  last_error = d.last_error;
  completed_at_utc = d.finished_at_utc;
}

instance abbrev pub job_item : Item BackgroundJob
job_item = record {
  delivery = job_delivery;
  with_delivery = with_job_delivery;
  delivery-with_delivery = λ item d. ap (λ s. record d { state = s }) (job_state_lem d.state);
}
