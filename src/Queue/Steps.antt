-- ===== src/Queue/Steps.antt =====
-- Histories of the outbox or of the jobs in packages/adapters/src/memory/persistence.ts: what
-- holds of every item after any calls of the operations, by any workers in any order.
use project_process_map.Base.{
  ℕ, ◌≡◌, refl, subst, sym, ap, ◌∙◌, ◌⊎◌, inl, inr, Bool, true, false, Option, none, some, List,
  Bool-cases, ◌==◌, arith, if◌then◌else◌,
}
use project_process_map.Base.Equality.{list_eq, nat_eq, eq_of}
use project_process_map.Base.Tables.{get, put, get-put_self, get-put_other}
use project_process_map.Base.Text.{Text}
use project_process_map.Queue.{claim_from, lease, ClaimOptions, item_key, is_leased, ready}
use project_process_map.Queue.Items.{Item, Delivery, DeliveryState, finished, pending, dead_letter}
use project_process_map.Queue.Settling.{
  complete, release, mark_dead_letter, defer, reschedule_dead_letter, finish, give_back,
  is_exhausted, bury, put_off, revive, if_dead, is_dead, change_held, release_held,
}
use project_process_map.Queue.Entries.{HasDistinctKeys, put-HasDistinctKeys}
use project_process_map.Queue.Claims.{claim_from-cases, claim_from-HasDistinctKeys}
use project_process_map.Queue.Leases.{IsLeasedUnder, settling-cases}

-- A delivery has an owner, a token and an end of its lease exactly while it is leased.
abbrev pub IsSound : Delivery → Type 0
IsSound d =
    ((is_leased d.state ≡ true)
      × ((owner : Text) × (d.lease_owner ≡ some owner))
      × ((token : Text) × (d.lease_token ≡ some token))
      × ((expiry : Text) × (d.lease_expires_at_utc ≡ some expiry)))
    ⊎ ((is_leased d.state ≡ false)
        × (d.lease_owner ≡ none)
        × (d.lease_token ≡ none)
        × (d.lease_expires_at_utc ≡ none))

abbrev pub is_finished : DeliveryState → Bool
is_finished finished = true
is_finished _ = false

ready_unfinished :
    (d : Delivery) (now_utc : Text) → ready d now_utc ≡ true → is_finished d.state ≡ false
unfolding ready
ready_unfinished d now_utc h = ground arith

leased_unfinished : (state : DeliveryState) → is_leased state ≡ true → is_finished state ≡ false
leased_unfinished state h = ground arith

dead_unfinished : (state : DeliveryState) → is_dead state ≡ true → is_finished state ≡ false
dead_unfinished state h = ground arith

released_not_leased : (b : Bool) → is_leased (if b then dead_letter else pending) ≡ false
released_not_leased true = refl
released_not_leased false = refl

module _ {T : Type 0} ⦃i : Item T⦄ where
  -- One call of an operation. An item is added under a new key and without a lease.
  pub data Step (store : List (Text × T)) : List (Text × T) → Type 0 where
    added :
        (key : Text) (item : T)
        → get store key ≡ none
        → IsSound (i.delivery item)
        → Step store (put store key item)
    claimed :
        (before : Text → Text → Bool) (uuid : ℕ → Text) (n : ℕ) (options : ClaimOptions)
        → Step store (claim_from before uuid n store options).1
    completed :
        (tenant_id id token at_utc : Text) → Step store (complete store tenant_id id token at_utc).1
    released :
        (tenant_id id token next error : Text)
        → Step store (release store tenant_id id token next error).1
    buried :
        (tenant_id id token error : Text)
        → Step store (mark_dead_letter store tenant_id id token error).1
    deferred :
        (tenant_id id token available : Text)
        → Step store (defer store tenant_id id token available).1
    revived :
        (tenant_id id available : Text)
        → Step store (reschedule_dead_letter store tenant_id id available).1

  pub data History (store : List (Text × T)) : List (Text × T) → Type 0 where
    start : History store store
    then_step : {s t : List (Text × T)} → History store s → Step s t → History store t

  -- What a step may do to the item of a key: nothing, or write a sound one over one that is not
  -- finished.
  abbrev Touch : List (Text × T) → List (Text × T) → Text → Type 0
  Touch s t key =
      (get t key ≡ get s key)
      ⊎ ((new : T) × (get t key ≡ some new)
          × IsSound (i.delivery new)
          × ((old : T) → get s key ≡ some old → is_finished (i.delivery old).state ≡ false))

  put-Touch :
      (s : List (Text × T)) (k : Text) (new : T)
      → IsSound (i.delivery new)
      → ((old : T) → get s k ≡ some old → is_finished (i.delivery old).state ≡ false)
      → (key : Text) → Touch s (put s k new) key
  put-Touch s k new sound open_item key = elim (Bool-cases (k == key)) [
    | inl same ↦
        let e : k ≡ key = eq_of k key same in
        inr (
          new,
          ap (get (put s k new)) (sym e) ∙ get-put_self s k new,
          sound,
          λ old found. open_item old (ap (get s) e ∙ found),
        )
    | inr other ↦ inl (get-put_other s k key new other)
  ]

  -- What is written over a delivery keeps it sound, if it does over the record.
  written : (item : T) (d : Delivery) → IsSound d → IsSound (i.delivery (i.with_delivery item d))
  written item d h = subst IsSound (sym (i.delivery-with_delivery item d)) h

  -- The item that is found is the one that is there.
  unfinished_if :
      (s : List (Text × T)) (k : Text) (item : T)
      → get s k ≡ some item
      → is_finished (i.delivery item).state ≡ false
      → (old : T) → get s k ≡ some old
      → is_finished (i.delivery old).state ≡ false
  unfinished_if s k item found h old there =
      let same : old ≡ item = cc in ap (λ x. is_finished (i.delivery x).state) same ∙ h

  leased-IsSound :
      (item : T) (options : ClaimOptions) (token : Text)
      → IsSound (i.delivery (lease options token item))
  unfolding lease
  leased-IsSound item options token =
      written item _
        (inl (refl, (options.worker_id, refl), (token, refl), (options.lease_until_utc, refl)))

  settled-Touch :
      (s t : List (Text × T)) (k token : Text) (item new : T)
      → t ≡ put s k new
      → get s k ≡ some item
      → IsLeasedUnder token item
      → IsSound (i.delivery new)
      → (key : Text) → Touch s t key
  settled-Touch s t k token item new e found under sound key =
      subst (λ t. Touch s t key) (sym e)
        (put-Touch s k new sound (unfinished_if s k item found (leased_unfinished _ under.0)) key)

  -- Where nothing is written.
  same-Touch : (s t : List (Text × T)) → t ≡ s → (key : Text) → Touch s t key
  same-Touch s t e key = inl (ap (λ t. get t key) e)

  given_back-IsSound :
      (item : T) (next error : Text) → IsSound (i.delivery (give_back next error item))
  given_back-IsSound item next error =
      written item _ (inr (released_not_leased (is_exhausted item), refl, refl, refl))

  revived-Touch :
      (s : List (Text × T)) (k available : Text) (o : Option T)
      → get s k ≡ o
      → (key : Text) → Touch s (change_held (revive available) s k (if_dead o)).1 key
  revived-Touch s k available none e key = same-Touch s s refl key
  revived-Touch s k available (some item) e key =
      elim (Bool-cases (is_dead (i.delivery item).state)) [
        | inl was_dead ↦ rw was_dead (
            put-Touch s k (revive available item) (written item _ (inr (refl, refl, refl, refl)))
              (unfinished_if s k item e (dead_unfinished _ was_dead)) key)
        | inr alive ↦ rw alive (same-Touch s s refl key)
      ]

  step-Touch : {s t : List (Text × T)} → HasDistinctKeys s → Step s t → (key : Text) → Touch s t key
  unfolding complete release mark_dead_letter defer reschedule_dead_letter
  step-Touch {s} d (added k item new sound) key =
      put-Touch s k item sound (λ old there. let never : ⊥ = cc in absurd never) key
  step-Touch {s} d (claimed before uuid n options) key =
      elim (claim_from-cases before uuid n s options key d) [
        | inl same ↦ inl same
        | inr (item, m, above, was, is_ready, now) ↦ inr (
          lease options (uuid m) item,
          now,
          leased-IsSound item options (uuid m),
          unfinished_if s key item was
              (ready_unfinished (i.delivery item) options.now_utc is_ready),
        )
      ]
  step-Touch {s} d (completed tenant_id id token at_utc) key =
      elim (settling-cases s tenant_id id token) [
        | inl (item, found, under, e, _, _, _) ↦
            settled-Touch s _ _ token item _ (ap (λ r. r.1) (e at_utc)) found under
              (written item _ (inr (refl, refl, refl, refl))) key
        | inr off ↦ same-Touch s _ (ap (λ r. r.1) (off.1 at_utc)) key
      ]
  step-Touch {s} d (released tenant_id id token next error) key =
      elim (settling-cases s tenant_id id token) [
        | inl (item, found, under, _, e, _, _) ↦
            settled-Touch s _ _ token item _ (ap (λ r. r.1) (e next error)) found under
              (given_back-IsSound item next error) key
        | inr off ↦ same-Touch s _ (ap (λ r. r.1) (off.2 next error)) key
      ]
  step-Touch {s} d (buried tenant_id id token error) key =
      elim (settling-cases s tenant_id id token) [
        | inl (item, found, under, _, _, e, _) ↦
            settled-Touch s _ _ token item _ (ap (λ r. r.1) (e error)) found under
              (written item _ (inr (refl, refl, refl, refl))) key
        | inr off ↦ same-Touch s _ (ap (λ r. r.1) (off.3 error)) key
      ]
  step-Touch {s} d (deferred tenant_id id token available) key =
      elim (settling-cases s tenant_id id token) [
        | inl (item, found, under, _, _, _, e) ↦
            settled-Touch s _ _ token item _ (ap (λ r. r.1) (e available)) found under
              (written item _ (inr (refl, refl, refl, refl))) key
        | inr off ↦ same-Touch s _ (ap (λ r. r.1) (off.4 available)) key
      ]
  step-Touch {s} d (revived tenant_id id available) key =
      revived-Touch s (item_key tenant_id id) available (get s (item_key tenant_id id)) refl key

  change_held-HasDistinctKeys :
      (change : T → T) (s : List (Text × T)) (k : Text) (o : Option T)
      → HasDistinctKeys s
      → HasDistinctKeys (change_held change s k o).1
  change_held-HasDistinctKeys change s k none d = d
  change_held-HasDistinctKeys change s k (some item) d = put-HasDistinctKeys s k (change item) d

  release_held-HasDistinctKeys :
      (s : List (Text × T)) (k next error : Text) (o : Option T)
      → HasDistinctKeys s
      → HasDistinctKeys (release_held s k next error o).1
  release_held-HasDistinctKeys s k next error none d = d
  release_held-HasDistinctKeys s k next error (some item) d =
      put-HasDistinctKeys s k (give_back next error item) d

  pub step-HasDistinctKeys :
      {s t : List (Text × T)} → HasDistinctKeys s → Step s t → HasDistinctKeys t
  unfolding complete release mark_dead_letter defer reschedule_dead_letter
  step-HasDistinctKeys {s} d (added key item new sound) = put-HasDistinctKeys s key item d
  step-HasDistinctKeys {s} d (claimed before uuid n options) =
      claim_from-HasDistinctKeys before uuid n s options d
  step-HasDistinctKeys {s} d (completed tenant_id id token at_utc) =
      change_held-HasDistinctKeys (finish at_utc) s _ _ d
  step-HasDistinctKeys {s} d (released tenant_id id token next error) =
      release_held-HasDistinctKeys s _ next error _ d
  step-HasDistinctKeys {s} d (buried tenant_id id token error) =
      change_held-HasDistinctKeys (bury error) s _ _ d
  step-HasDistinctKeys {s} d (deferred tenant_id id token available) =
      change_held-HasDistinctKeys (put_off available) s _ _ d
  step-HasDistinctKeys {s} d (revived tenant_id id available) =
      change_held-HasDistinctKeys (revive available) s _ _ d

  abbrev pub AllSound : List (Text × T) → Type 0
  AllSound s = (key : Text) (item : T) → get s key ≡ some item → IsSound (i.delivery item)

  step-AllSound : {s t : List (Text × T)} → HasDistinctKeys s → AllSound s → Step s t → AllSound t
  step-AllSound d sound step key item found = elim (step-Touch d step key) [
    | inl same ↦ sound key item (sym same ∙ found)
    | inr (new, now, is_sound, _) ↦
        let e : new ≡ item = cc in subst (λ x. IsSound (i.delivery x)) e is_sound
  ]

  History-HasDistinctKeys :
      {s t : List (Text × T)} → HasDistinctKeys s → History s t → HasDistinctKeys t
  History-HasDistinctKeys d start = d
  History-HasDistinctKeys d (then_step h step) =
      step-HasDistinctKeys (History-HasDistinctKeys d h) step

  -- From a store that has every key once and only sound items, any history of operations leads to
  -- one whose items are sound: each is leased exactly while it has an owner, a token and an end of
  -- its lease.
  pub History-AllSound :
      {s t : List (Text × T)} → HasDistinctKeys s → AllSound s → History s t → AllSound t
  History-AllSound d sound start = sound
  History-AllSound d sound (then_step h step) =
      step-AllSound (History-HasDistinctKeys d h) (History-AllSound d sound h) step

  -- From a store that has every key once, an item that was published or completed stays just as it
  -- is in any history of operations: it is not claimed again, and no late worker changes it.
  pub History-finished :
      {s t : List (Text × T)} (key : Text) (item : T)
      → HasDistinctKeys s
      → get s key ≡ some item
      → is_finished (i.delivery item).state ≡ true
      → History s t
      → get t key ≡ some item
  History-finished key item d found over start = found
  History-finished key item d found over (then_step h step) =
      let before_it = History-finished key item d found over h in
      elim (step-Touch (History-HasDistinctKeys d h) step key) [
        | inl same ↦ same ∙ before_it
        | inr (new, now, sound, open_item) ↦
            let clash = open_item item before_it in absurd (let never : ⊥ = cc in never)
      ]
