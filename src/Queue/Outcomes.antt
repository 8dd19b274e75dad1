-- ===== src/Queue/Outcomes.antt =====
-- What the end of a lease makes of an item, said of the item as it was before the claim
-- (packages/adapters/src/memory/persistence.ts).
use project_process_map.Base.{
  ℕ, ◌+◌, ◌-◌, ◌≤◌, ◌<◌, ◌≡◌, refl, ap, subst, ◌∙◌, if◌then◌else◌, ◌⊎◌, inl, inr, Bool, true, none,
  some, List, IsIn, arith, Bool-cases, leb,
}
use project_process_map.Base.Equality.{list_eq, nat_eq}
use project_process_map.Base.Tables.{get, put}
use project_process_map.Base.Text.{Text}
use project_process_map.Queue.{ClaimOptions, candidates, claim_from, item_key, lease, is_leased}
use project_process_map.Queue.Items.{Item, Delivery, pending, leased, finished, dead_letter}
use project_process_map.Queue.Settling.{
  Released, retry, dead, complete, finish, release, give_back, is_exhausted, mark_dead_letter, bury,
  defer, put_off,
}
use project_process_map.Queue.Entries.{HasDistinctKeys}
use project_process_map.Queue.Claims.{claim_from-lease}
use project_process_map.Queue.Leases.{IsLeasedUnder, settling-cases}

module _ {T : Type 0} ⦃i : Item T⦄ where
  -- The answer, and the delivery that is written into the item of the key.
  abbrev pub Writes :
      {A : Type 0} → List (Text × T) → Text → T → A × List (Text × T) → A → Delivery → Type 0
  Writes store key current result answer d =
      result ≡ (answer, put store key (i.with_delivery current d))

  -- What the four operations answer and write, for a delivery `d` before the claim.
  abbrev pub AreSettled :
      List (Text × T)
      → (tenant_id id token : Text) → T
      → Delivery
      → (at_utc next error available : Text) → Type 0
  AreSettled claimed tenant_id id token current d at_utc next error available =
      let key = item_key tenant_id id in
      Writes claimed key current (complete claimed tenant_id id token at_utc) true (record d {
        state = finished;
        attempts = d.attempts + 1;
        lease_owner = none;
        lease_token = none;
        lease_expires_at_utc = none;
        finished_at_utc = some at_utc;
      })
      × (((d.attempts + 1 < d.max_attempts)
            × Writes claimed key current (release claimed tenant_id id token next error) retry
                (record d {
                  state = pending;
                  available_at_utc = next;
                  attempts = d.attempts + 1;
                  lease_owner = none;
                  lease_token = none;
                  lease_expires_at_utc = none;
                  last_error = some error;
                }))
          ⊎ ((d.max_attempts ≤ d.attempts + 1)
              × Writes claimed key current (release claimed tenant_id id token next error) dead
                  (record d {
                    state = dead_letter;
                    available_at_utc = next;
                    attempts = d.attempts + 1;
                    lease_owner = none;
                    lease_token = none;
                    lease_expires_at_utc = none;
                    last_error = some error;
                  })))
      × Writes claimed key current (mark_dead_letter claimed tenant_id id token error) true
          (record d {
            state = dead_letter;
            attempts = d.attempts + 1;
            lease_owner = none;
            lease_token = none;
            lease_expires_at_utc = none;
            last_error = some error;
          })
      × Writes claimed key current (defer claimed tenant_id id token available) true (record d {
        state = pending;
        available_at_utc = available;
        lease_owner = none;
        lease_token = none;
        lease_expires_at_utc = none;
      })

  -- The four answers for the item that is there under the token.
  settles :
      (current : T) (token : Text) (claimed : List (Text × T))
      (tenant_id id at_utc next error available : Text)
      → get claimed (item_key tenant_id id) ≡ some current
      → IsLeasedUnder token current
      → let key = item_key tenant_id id in
        (complete claimed tenant_id id token at_utc
          ≡ (true, put claimed key (finish at_utc current)))
        × (release claimed tenant_id id token next error ≡ (
          if is_exhausted current then dead else retry,
          put claimed key (give_back next error current),
        ))
        × (mark_dead_letter claimed tenant_id id token error
            ≡ (true, put claimed key (bury error current)))
        × (defer claimed tenant_id id token available
            ≡ (true, put claimed key (put_off available current)))
  settles current token claimed tenant_id id at_utc next error available there under =
      elim (settling-cases claimed tenant_id id token) [
        | inl (found, is_found, held, e1, e2, e3, e4) ↦
            let one : found ≡ current = cc in
            subst
              (λ x.
                (complete claimed tenant_id id token at_utc
                  ≡ (true, put claimed (item_key tenant_id id) (finish at_utc x)))
                × (release claimed tenant_id id token next error ≡ (
                  if is_exhausted x then dead else retry,
                  put claimed (item_key tenant_id id) (give_back next error x),
                ))
                × (mark_dead_letter claimed tenant_id id token error
                    ≡ (true, put claimed (item_key tenant_id id) (bury error x)))
                × (defer claimed tenant_id id token available
                    ≡ (true, put claimed (item_key tenant_id id) (put_off available x))))
              one (e1 at_utc, e2 next error, e3 error, e4 available)
        | inr (nobody, _, _, _, _) ↦ absurd (nobody current there under)
      ]

  settled_lease :
      (options : ClaimOptions) (token : Text) (item : T) (claimed : List (Text × T))
      (tenant_id id at_utc next error available : Text)
      → get claimed (item_key tenant_id id) ≡ some (lease options token item)
      → AreSettled claimed tenant_id id token
          (lease options token item)
          (i.delivery item)
          at_utc
          next
          error
          available
  unfolding lease
  settled_lease options token item claimed tenant_id id at_utc next error available there =
      let key = item_key tenant_id id in
      let d = i.delivery item in
      let current = lease options token item in
      let is = i.delivery-with_delivery item (record d {
        state = leased;
        attempts = d.attempts + 1;
        lease_owner = some options.worker_id;
        lease_token = some token;
        lease_expires_at_utc = some options.lease_until_utc;
      }) in
      let outcome : Delivery → Released × List (Text × T) = λ x. (
        if leb x.max_attempts x.attempts then dead else retry,
        put claimed key (
            i.with_delivery current (record x {
              state = if leb x.max_attempts x.attempts then dead_letter else pending;
              available_at_utc = next;
              lease_owner = none;
              lease_token = none;
              lease_expires_at_utc = none;
              last_error = some error;
            })),
      ) in
      let (e1, e2, e3, e4) =
        settles current token claimed tenant_id id at_utc next error available there
          (ap (λ x. is_leased x.state) is, ap (λ x. x.lease_token) is) in
      (
        e1
            ∙ ap
                (λ x. (
                  true,
                  put claimed key (
                      i.with_delivery current (record x {
                        state = finished;
                        lease_owner = none;
                        lease_token = none;
                        lease_expires_at_utc = none;
                        finished_at_utc = some at_utc;
                      })),
                ))
                is,
        elim (Bool-cases (leb d.max_attempts (d.attempts + 1))) [
          | inl over ↦ inr (ground arith, e2 ∙ ap outcome is ∙ (rw over refl))
          | inr under ↦ inl (ground arith, e2 ∙ ap outcome is ∙ (rw under refl))
        ],
        e3
            ∙ ap
                (λ x. (
                  true,
                  put claimed key (
                      i.with_delivery current (record x {
                        state = dead_letter;
                        lease_owner = none;
                        lease_token = none;
                        lease_expires_at_utc = none;
                        last_error = some error;
                      })),
                ))
                is,
        e4
            ∙ ap
                (λ x. (
                  true,
                  put claimed key (
                      i.with_delivery current (record x {
                        state = pending;
                        available_at_utc = available;
                        attempts = x.attempts - 1;
                        lease_owner = none;
                        lease_token = none;
                        lease_expires_at_utc = none;
                      })),
                ))
                is
            ∙ ap
                (λ attempts. (
                  true,
                  put claimed key (
                      i.with_delivery current (record d {
                        state = pending;
                        available_at_utc = available;
                        attempts = attempts;
                        lease_owner = none;
                        lease_token = none;
                        lease_expires_at_utc = none;
                      })),
                ))
                (let same : d.attempts + 1 - 1 ≡ d.attempts = omega arith in same),
      )

  -- In a store that has every key once, an item that a claim picks is there under a token of the
  -- claim, and that token ends its lease, in one of four ways. Completed, the item is finished at the
  -- time given. Released, it takes the next time and the error, and is pending again if its attempts,
  -- with this one, are less than the most allowed, and a dead letter otherwise. Reported as a dead
  -- letter, it is one, with the error. Deferred, it is pending again, available at the time given, and
  -- has as many attempts as before the claim; the other three count one more. In all cases the lease
  -- is gone, the other fields of the delivery are as before the claim, and no other item is changed.
  pub claim-settled :
      (before : Text → Text → Bool) (uuid : ℕ → Text) (n : ℕ) (store : List (Text × T))
      (options : ClaimOptions) (tenant_id id : Text) {item : T} (at_utc next error available : Text)
      → HasDistinctKeys store
      → IsIn (item_key tenant_id id, item) (candidates before store options)
      → let claimed = (claim_from before uuid n store options).1 in
        (m : ℕ) × (n ≤ m)
        × (current : T) × (get claimed (item_key tenant_id id) ≡ some current)
        × AreSettled claimed tenant_id id
            (uuid m)
            current
            (i.delivery item)
            at_utc
            next
            error
            available
  claim-settled before uuid n store options tenant_id id {item} at_utc next error available d o =
      let (m, above, after) = claim_from-lease before uuid n store options d o in
      let current = lease options (uuid m) item in
      (
        m,
        above,
        current,
        after,
        settled_lease options (uuid m) item (claim_from before uuid n store options).1 tenant_id id
            at_utc next error available after,
      )
