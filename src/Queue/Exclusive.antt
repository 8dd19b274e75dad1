-- ===== src/Queue/Exclusive.antt =====
-- Who has an item of the outbox or of the jobs (packages/adapters/src/memory/persistence.ts) while
-- its lease lasts, whatever other workers call in the meantime.
use project_process_map.Base.{
  ℕ, ◌≡◌, ◌≢◌, refl, ap, sym, ◌∙◌, inl, inr, Bool, true, false, Option, none, some, List, [], ◌∷◌,
  IsIn, at_head, in_tail, arith, Bool-cases, Option-cases, ◌==◌,
}
use project_process_map.Base.Equality.{list_eq, nat_eq, eq_of}
use project_process_map.Base.Tables.{get, put, get-put_other}
use project_process_map.Base.Text.{Text, text_lt}
use project_process_map.Queue.{
  ClaimOptions, candidates, claim_from, item_key, is_leased, lease, ready,
}
use project_process_map.Queue.Items.{Item, Delivery, DeliveryState}
use project_process_map.Queue.Settling.{
  complete, release, mark_dead_letter, defer, reschedule_dead_letter, change_held, if_dead, is_dead,
  revive,
}
use project_process_map.Queue.Entries.{HasDistinctKeys, get-of_in, IsIn-candidates}
use project_process_map.Queue.Claims.{
  claim_from-cases, claim_from-lease, claim_from-HasDistinctKeys,
}
use project_process_map.Queue.Leases.{IsLeasedUnder, settling-cases}
use project_process_map.Queue.Steps.{
  Step, added, claimed, completed, released, buried, deferred, revived, step-HasDistinctKeys,
}

-- A lease is not ready before its end.
leased_not_ready :
    (d : Delivery) (until now_utc : Text)
    → is_leased d.state ≡ true
    → d.lease_expires_at_utc ≡ some until
    → text_lt now_utc until ≡ true
    → ready d now_utc ≡ false
unfolding ready
leased_not_ready d until now_utc leased ends early = rw ends (ground arith)

leased_not_dead : (state : DeliveryState) → is_leased state ≡ true → is_dead state ≡ false
leased_not_dead state h = ground arith

IsIn-of_get :
    {V : Type 0} (table : List (Text × V)) (key : Text) {value : V}
    → get table key ≡ some value
    → IsIn (key, value) table
IsIn-of_get [] key h = absurd (let never : ⊥ = cc in never)
IsIn-of_get ((k, v) ∷ table) key {value} h = elim (Bool-cases (k == key)) [
  | inl same ↦
      let e = eq_of k key same in
      let v_is : some v ≡ some value = sym (rw same refl) ∙ h in
      at_head (let pair : (key, value) ≡ (k, v) = cc in pair)
  | inr other ↦
      let rest : get table key ≡ some value = sym (rw other refl) ∙ h in
      in_tail (IsIn-of_get table key rest)
]

module _ {T : Type 0} ⦃i : Item T⦄ where
  -- A call by others: a claim before the lease ends, the end of a lease under another token, or a
  -- call that needs no token.
  abbrev pub IsForeign : (token until : Text) → {s t : List (Text × T)} → Step s t → Type 0
  IsForeign token until (added key item new sound) = Unit {0}
  IsForeign token until (claimed before uuid n options) = text_lt options.now_utc until ≡ true
  IsForeign token until (completed tenant_id id other at_utc) = token ≢ other
  IsForeign token until (released tenant_id id other next error) = token ≢ other
  IsForeign token until (buried tenant_id id other error) = token ≢ other
  IsForeign token until (deferred tenant_id id other available) = token ≢ other
  IsForeign token until (revived tenant_id id available) = Unit {0}

  pub data Meanwhile (token until : Text) (store : List (Text × T)) : List (Text × T) → Type 0 where
    nothing : Meanwhile token until store store
    and_then :
        {s t : List (Text × T)}
        → Meanwhile token until store s
        → (step : Step s t) → IsForeign token until step
        → Meanwhile token until store t

  module _ (token until key : Text) (item : T) (under : IsLeasedUnder token item)
      (ends : (i.delivery item).lease_expires_at_utc ≡ some until) where
    settled_other :
        (s t : List (Text × T)) (k other : Text) (found new : T)
        → get s key ≡ some item
        → t ≡ put s k new
        → get s k ≡ some found
        → IsLeasedUnder other found
        → token ≢ other
        → get t key ≡ some item
    settled_other s t k other found new there e at_k held apart = elim (Bool-cases (k == key)) [
      | inl same ↦
          let keys = eq_of k key same in
          let both : some found ≡ some item = sym at_k ∙ ap (get s) keys ∙ there in
          let one : found ≡ item = cc in
          let tokens : some token ≡ some other =
            sym under.1 ∙ ap (λ x. (i.delivery x).lease_token) (sym one) ∙ held.1 in
          absurd (apart (cc))
      | inr differ ↦ ap (λ t. get t key) e ∙ get-put_other s k key new differ ∙ there
    ]

    revived_other :
        (s : List (Text × T)) (k available : Text) (o : Option T)
        → get s key ≡ some item
        → get s k ≡ o
        → get (change_held (revive available) s k (if_dead o)).1 key ≡ some item
    revived_other s k available none there e = there
    revived_other s k available (some found) there e =
        elim (Bool-cases (is_dead (i.delivery found).state)) [
          | inl dead ↦ rw dead (elim (Bool-cases (k == key)) [
            | inl same ↦
                let keys = eq_of k key same in
                let both : some found ≡ some item = sym e ∙ ap (get s) keys ∙ there in
                let one : found ≡ item = cc in
                let alive : is_dead (i.delivery found).state ≡ false =
                  ap (λ x. is_dead (i.delivery x).state) one
                  ∙ leased_not_dead (i.delivery item).state under.0 in
                absurd (let never : ⊥ = cc in never)
            | inr differ ↦ get-put_other s k key (revive available found) differ ∙ there
          ])
          | inr alive ↦ rw alive there
        ]

    foreign-keeps :
        {s t : List (Text × T)}
        → HasDistinctKeys s
        → get s key ≡ some item
        → (step : Step s t) → IsForeign token until step
        → get t key ≡ some item
    unfolding complete release mark_dead_letter defer reschedule_dead_letter
    foreign-keeps {s} d there (added k new fresh sound) foreign = elim (Bool-cases (k == key)) [
      | inl same ↦
          let keys = eq_of k key same in
          let both : none ≡ some item = sym fresh ∙ ap (get s) keys ∙ there in
          absurd (let never : ⊥ = cc in never)
      | inr differ ↦ get-put_other s k key new differ ∙ there
    ]
    foreign-keeps {s} d there (claimed before uuid n options) foreign =
        elim (claim_from-cases before uuid n s options key d) [
          | inl same ↦ same ∙ there
          | inr (found, m, above, was, is_ready, now) ↦
              let both : some found ≡ some item = sym was ∙ there in
              let one : found ≡ item = cc in
              let quiet =
                leased_not_ready (i.delivery item) until options.now_utc under.0 ends foreign in
              let loud : ready (i.delivery item) options.now_utc ≡ true =
                ap (λ x. ready (i.delivery x) options.now_utc) (sym one) ∙ is_ready in
              absurd (let never : ⊥ = cc in never)
        ]
    foreign-keeps {s} d there (completed tenant_id id other at_utc) foreign =
        elim (settling-cases s tenant_id id other) [
          | inl (found, at_k, held, e, _, _, _) ↦
              settled_other s _ _ other found _ there (ap (λ r. r.1) (e at_utc)) at_k held foreign
          | inr off ↦ ap (λ r. get r.1 key) (off.1 at_utc) ∙ there
        ]
    foreign-keeps {s} d there (released tenant_id id other next error) foreign =
        elim (settling-cases s tenant_id id other) [
          | inl (found, at_k, held, _, e, _, _) ↦
              settled_other s _ _ other found _ there (ap (λ r. r.1) (e next error)) at_k held
                foreign
          | inr off ↦ ap (λ r. get r.1 key) (off.2 next error) ∙ there
        ]
    foreign-keeps {s} d there (buried tenant_id id other error) foreign =
        elim (settling-cases s tenant_id id other) [
          | inl (found, at_k, held, _, _, e, _) ↦
              settled_other s _ _ other found _ there (ap (λ r. r.1) (e error)) at_k held foreign
          | inr off ↦ ap (λ r. get r.1 key) (off.3 error) ∙ there
        ]
    foreign-keeps {s} d there (deferred tenant_id id other available) foreign =
        elim (settling-cases s tenant_id id other) [
          | inl (found, at_k, held, _, _, _, e) ↦
              settled_other s _ _ other found _ there (ap (λ r. r.1) (e available)) at_k held
                foreign
          | inr off ↦ ap (λ r. get r.1 key) (off.4 available) ∙ there
        ]
    foreign-keeps {s} d there (revived tenant_id id available) foreign =
        revived_other s (item_key tenant_id id) available (get s (item_key tenant_id id)) there refl

    Meanwhile-keeps :
        {s t : List (Text × T)}
        → HasDistinctKeys s
        → get s key ≡ some item
        → Meanwhile token until s t
        → HasDistinctKeys t × (get t key ≡ some item)
    Meanwhile-keeps d there nothing = (d, there)
    Meanwhile-keeps d there (and_then before_it step foreign) =
        let (distinct, still) = Meanwhile-keeps d there before_it in
        (step-HasDistinctKeys distinct step, foreign-keeps distinct still step foreign)

    not_offered :
        (before : Text → Text → Bool) (t : List (Text × T)) (options : ClaimOptions)
        → HasDistinctKeys t
        → get t key ≡ some item
        → text_lt options.now_utc until ≡ true
        → get (candidates before t options) key ≡ none
    not_offered before t options d there early =
        elim (Option-cases (get (candidates before t options) key)) [
          | inl missing ↦ missing
          | inr (found, is_found) ↦
              let (stored, is_ready) =
                IsIn-candidates before t options
                  (IsIn-of_get (candidates before t options) key is_found) in
              let both : some found ≡ some item = sym (get-of_in t d stored) ∙ there in
              let one : found ≡ item = cc in
              let quiet =
                leased_not_ready (i.delivery item) until options.now_utc under.0 ends early in
              let loud : ready (i.delivery item) options.now_utc ≡ true =
                ap (λ x. ready (i.delivery x) options.now_utc) (sym one) ∙ is_ready in
              absurd (let never : ⊥ = cc in never)
        ]

  -- In a store that has every key once, an item that a claim leased under a token stays just as it
  -- was leased, and no claim before the end of the lease picks it, after any sequence of calls by
  -- others in the meantime: new items, claims before the end of the lease, the end of a lease under
  -- another token, and the revival of dead jobs.
  pub lease-exclusive :
      (before : Text → Text → Bool) (uuid : ℕ → Text) (n : ℕ) (store : List (Text × T))
      (first second : ClaimOptions) (key token : Text) {old item : T} {t : List (Text × T)}
      → HasDistinctKeys store
      → IsIn (key, old) (candidates before store first)
      → get (claim_from before uuid n store first).1 key ≡ some item
      → (i.delivery item).lease_token ≡ some token
      → Meanwhile token first.lease_until_utc (claim_from before uuid n store first).1 t
      → text_lt second.now_utc first.lease_until_utc ≡ true
      → (get t key ≡ some item) × (get (candidates before t second) key ≡ none)
  unfolding lease
  lease-exclusive before uuid n store first second key token {old} {item} {t} d offered there named
        meanwhile early =
      let (m, above, after) = claim_from-lease before uuid n store first d offered in
      let both : some item ≡ some (lease first (uuid m) old) = sym there ∙ after in
      let one : item ≡ lease first (uuid m) old = cc in
      let written = ap i.delivery one ∙ i.delivery-with_delivery old _ in
      let under : IsLeasedUnder token item = (ap (λ x. is_leased x.state) written, named) in
      let ends : (i.delivery item).lease_expires_at_utc ≡ some first.lease_until_utc =
        ap (λ x. x.lease_expires_at_utc) written in
      let (distinct, still) =
        Meanwhile-keeps token first.lease_until_utc key item under ends
          (claim_from-HasDistinctKeys before uuid n store first d) there meanwhile in
      (
        still,
        not_offered token first.lease_until_utc key item under ends before t second distinct still
            early,
      )
