-- ===== src/Fences/Held.antt =====
-- How long a fence of packages/adapters/src/memory/persistence.ts stays with its holder.
use project_process_map.Base.{
  ◌≡◌, refl, ◌∙◌, and_split, inl, inr, Bool, true, false, not, Option, none, some, List, [], ◌∷◌,
  arith, Bool-cases, ◌==◌, ◌!=◌, all,
}
use project_process_map.Base.Equality.{list_eq, nat_eq, eq_of}
use project_process_map.Base.Results.{Result, ok, err}
use project_process_map.Base.Tables.{get, put, get-put_other}
use project_process_map.Base.Text.{Text, text_lt}
use project_process_map.Memory.{assert_tenant}
use project_process_map.Fences.{
  OutboundProjectionFence, Fences, without, blocks, if_owned, acquire, renew, release,
}

-- A call of one of the three operations; a transaction that throws leaves the fences as they are.
pub data FenceCall : Type 0 where
  acquires : OutboundProjectionFence → FenceCall
  renews : (fence_id token expires_at_utc : Text) → FenceCall
  releases : (fence_id token : Text) → FenceCall

abbrev pub kept : {E : Type 0} → Fences → Result E (Bool × Fences) → Fences
kept fences (err e) = fences
kept fences (ok (answer, after)) = after

abbrev pub after_call : Text → Fences → FenceCall → Fences
after_call tenant_id fences (acquires fence) = kept fences (acquire tenant_id fences fence)
after_call tenant_id fences (renews fence_id token until) = (renew fences fence_id token until).1
after_call tenant_id fences (releases fence_id token) = (release fences fence_id token).1

abbrev pub after_calls : Text → Fences → List FenceCall → Fences
after_calls tenant_id fences [] = fences
after_calls tenant_id fences (call ∷ calls) =
    after_calls tenant_id (after_call tenant_id fences call) calls

-- A call of somebody else, before the fence expires.
abbrev pub is_foreign : OutboundProjectionFence → FenceCall → Bool
is_foreign held (acquires fence) = text_lt fence.created_at_utc held.expires_at_utc
is_foreign held (renews fence_id token until) = not (held.token == token)
is_foreign held (releases fence_id token) = not (held.token == token)

get-without_other :
    (fences : Fences) (key other : Text)
    → (key == other) ≡ false
    → get (without fences key) other ≡ get fences other
unfolding without
get-without_other [] key other differ = refl
get-without_other ((k, f) ∷ fences) key other differ = elim (Bool-cases (k == key)) [
  | inl same ↦
      let p : (k == other) ≡ false = rw (eq_of k key same) differ in
      rw same (rw p (get-without_other fences key other differ))
  | inr apart ↦ rw apart (ground (arith, get-without_other fences key other differ))
]

module _ (tenant_id : Text) (fences : Fences) (key : Text) (held : OutboundProjectionFence)
    (stands : get fences key ≡ some held) where
  acquire-keeps :
      (fence : OutboundProjectionFence)
      → text_lt fence.created_at_utc held.expires_at_utc ≡ true
      → get (kept fences (acquire tenant_id fences fence)) key ≡ some held
  unfolding acquire assert_tenant
  acquire-keeps fence early = elim (Bool-cases (fence.tenant_id != tenant_id)) [
    | inl foreign ↦ rw foreign stands
    | inr own ↦ rw own (elim (Bool-cases (fence.id == key)) [
      | inl same ↦
          let p : get fences fence.id ≡ some held = rw (eq_of fence.id key same) stands in
          rw p (rw early stands)
      | inr apart ↦ elim (Bool-cases (blocks (get fences fence.id) fence)) [
        | inl blocked ↦ rw blocked stands
        | inr free ↦ rw free (get-put_other fences fence.id key fence apart ∙ stands)
      ]
    ])
  ]

  owned-keeps :
      (entry : Option OutboundProjectionFence) (token : Text)
      (change : OutboundProjectionFence → Fences)
      → ((current : OutboundProjectionFence) → get (change current) key ≡ some held)
      → get (if_owned entry token fences change).1 key ≡ some held
  owned-keeps none token change keeps = stands
  owned-keeps (some current) token change keeps = elim (Bool-cases (current.token == token)) [
    | inl same ↦ rw same (keeps current)
    | inr differ ↦ rw differ stands
  ]

  renew-keeps :
      (fence_id token until : Text)
      → (held.token == token) ≡ false
      → get (renew fences fence_id token until).1 key ≡ some held
  unfolding renew
  renew-keeps fence_id token until foreign = elim (Bool-cases (fence_id == key)) [
    | inl same ↦
        let p : get fences fence_id ≡ some held = rw (eq_of fence_id key same) stands in
        rw p (rw foreign stands)
    | inr apart ↦
        owned-keeps (get fences fence_id) token
          (λ current. put fences fence_id (record current { expires_at_utc = until }))
          (λ current.
            get-put_other fences fence_id key (record current { expires_at_utc = until }) apart
            ∙ stands)
  ]

  release-keeps :
      (fence_id token : Text)
      → (held.token == token) ≡ false
      → get (release fences fence_id token).1 key ≡ some held
  unfolding release
  release-keeps fence_id token foreign = elim (Bool-cases (fence_id == key)) [
    | inl same ↦
        let p : get fences fence_id ≡ some held = rw (eq_of fence_id key same) stands in
        rw p (rw foreign stands)
    | inr apart ↦
        owned-keeps (get fences fence_id) token (λ current. without fences fence_id)
          (λ current. get-without_other fences fence_id key apart ∙ stands)
  ]

  call-keeps :
      (call : FenceCall)
      → is_foreign held call ≡ true
      → get (after_call tenant_id fences call) key ≡ some held
  call-keeps (acquires fence) foreign = acquire-keeps fence foreign
  call-keeps (renews fence_id token until) foreign =
      renew-keeps fence_id token until (ground (arith, foreign))
  call-keeps (releases fence_id token) foreign =
      release-keeps fence_id token (ground (arith, foreign))

held-stays :
    (tenant_id : Text) (fences : Fences) (key : Text) (held : OutboundProjectionFence)
    (calls : List FenceCall)
    → get fences key ≡ some held
    → all (is_foreign held) calls ≡ true
    → get (after_calls tenant_id fences calls) key ≡ some held
held-stays tenant_id fences key held [] stands foreign = stands
held-stays tenant_id fences key held (call ∷ calls) stands foreign =
    let (first, rest) = and_split _ _ foreign in
    held-stays tenant_id (after_call tenant_id fences call) key held calls
      (call-keeps tenant_id fences key held stands call first) rest

-- The answer `true` of a call that returns.
abbrev pub granted : {E : Type 0} → Result E (Bool × Fences) → Bool
granted (err e) = false
granted (ok (answer, after)) = answer

abbrev pub succeeds : Text → Fences → FenceCall → Bool
succeeds tenant_id fences (acquires fence) = granted (acquire tenant_id fences fence)
succeeds tenant_id fences (renews fence_id token until) = (renew fences fence_id token until).0
succeeds tenant_id fences (releases fence_id token) = (release fences fence_id token).0

abbrev pub fence_of : FenceCall → Text
fence_of (acquires fence) = fence.id
fence_of (renews fence_id token until) = fence_id
fence_of (releases fence_id token) = fence_id

owned-refused :
    (entry : Option OutboundProjectionFence) (held : OutboundProjectionFence) (token : Text)
    (fences : Fences) (change : OutboundProjectionFence → Fences)
    → entry ≡ some held
    → (held.token == token) ≡ false
    → (if_owned entry token fences change).0 ≡ false
owned-refused entry held token fences change stands foreign = rw stands (rw foreign refl)

foreign-refused :
    (tenant_id : Text) (fences : Fences) (held : OutboundProjectionFence) (call : FenceCall)
    → get fences (fence_of call) ≡ some held
    → is_foreign held call ≡ true
    → succeeds tenant_id fences call ≡ false
unfolding acquire assert_tenant renew release
foreign-refused tenant_id fences held (acquires fence) stands foreign =
    elim (Bool-cases (fence.tenant_id != tenant_id)) [
      | inl other ↦ rw other refl
      | inr own ↦ rw own (rw stands (rw foreign refl))
    ]
foreign-refused tenant_id fences held (renews fence_id token until) stands foreign =
    owned-refused (get fences fence_id) held token fences _ stands (ground (arith, foreign))
foreign-refused tenant_id fences held (releases fence_id token) stands foreign =
    owned-refused (get fences fence_id) held token fences _ stands (ground (arith, foreign))

-- While a fence stands, no sequence of calls by others takes it away or changes it, and then a
-- further call of theirs that names this fence is refused. A call of others is an acquisition that
-- is made before the fence expires, or a renewal or a release under another token; those of the
-- sequence may name any fence.
pub held-exclusive :
    (tenant_id : Text) (fences : Fences) (held : OutboundProjectionFence) (calls : List FenceCall)
    (call : FenceCall)
    → get fences (fence_of call) ≡ some held
    → all (is_foreign held) calls ≡ true
    → is_foreign held call ≡ true
    → (get (after_calls tenant_id fences calls) (fence_of call) ≡ some held)
      × (succeeds tenant_id (after_calls tenant_id fences calls) call ≡ false)
held-exclusive tenant_id fences held calls call stands others foreign =
    let still = held-stays tenant_id fences (fence_of call) held calls stands others in
    (still, foreign-refused tenant_id (after_calls tenant_id fences calls) held call still foreign)
