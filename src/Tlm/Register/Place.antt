-- ===== src/Tlm/Register/Place.antt =====
-- The placement of a token by `RegisterToken`: into a free slot, over the oldest session, or not at all.
use mathlib.Core.Path.{subst}
use zonal_zero_trust_auth.Base.{
  ℕ, zero, suc, ◌<◌, ◌≡◌, ◌≢◌, ◌⊎◌, refl, sym, ap, ◌∙◌, true, false, none, some, get_or-set_self,
  get_or-set_ne, arith, Bool-cases, Option-cases, inl, inr, count_if-pos,
}
use zonal_zero_trust_auth.Platform.{IsClientId}
use zonal_zero_trust_auth.Engine.{SpdmSessionToken}
use zonal_zero_trust_auth.Ring.Refine.{pop-none, pop-some, length-contents}
use zonal_zero_trust_auth.Tlm.{
  TlmStatus, TokenSlot, TokenLifecycleManager, max_active_sessions, empty_slot, slot_at, admit,
  admitted_slot, evict, place, find_slot_by_client_id, find_free_slot,
}
use zonal_zero_trust_auth.Tlm.Invariant.{IsValid, active, is_claimed}
use zonal_zero_trust_auth.Tlm.Invariant.Find.{find_first, free_found, free_missing}
use zonal_zero_trust_auth.Tlm.Register.Stages.{
  order_of, in_table, claimed_bound, admit-IsValid, Unclaimed,
}
use zonal_zero_trust_auth.Tlm.Register.Evict.{
  popped, oldest, oldest-unlocked, oldest-lt, slot_at-evict, client_id-evict, evict-IsValid,
}

-- The manager holds the token: the slot found for its client is live, not locked out, and carries the
-- token's key and nonce, issued at the given time.
pub record Holds (m : TokenLifecycleManager) (token : SpdmSessionToken) (now : ℕ) : Type 0 where
  pub idx : ℕ
  pub at_idx : find_slot_by_client_id m token.client_id ≡ some idx
  pub live : (slot_at m idx).is_active ≡ true
  pub unlocked : (slot_at m idx).is_locked_out ≡ false
  pub key : (slot_at m idx).session_key ≡ token.session_key
  pub nonce : (slot_at m idx).session_nonce ≡ token.session_nonce
  pub issued : (slot_at m idx).issued_at_ms ≡ now

-- What an admission yields.
pub record Admission (m : TokenLifecycleManager) (token : SpdmSessionToken) (now : ℕ) : Type 0 where
  pub valid : IsValid m
  pub holds : Holds m token now

module _ (token : SpdmSessionToken) (now : ℕ) (id : IsClientId token.client_id) where
  admit-Admission :
      (m : TokenLifecycleManager)
      → IsValid m
      → (i : ℕ) → i < max_active_sessions
      → is_claimed (slot_at m i) ≡ false
      → ((j : ℕ) → j < i → token.client_id ≢ (slot_at m j).client_id)
      → Unclaimed m token.client_id
      → Admission (admit m i token now) token now
  unfolding admit
  admit-Admission m v i h free before others =
      let kept = admit-IsValid m v i token now h id free before (λ k ik c. others k c) in
      let new : slot_at (admit m i token now) i ≡ admitted_slot (slot_at m i) token now =
        get_or-set_self m.session_table i (admitted_slot (slot_at m i) token now) empty_slot
          (in_table m v i h) in
      let locked : (slot_at m i).is_locked_out ≡ false = ground arith in
      record {
        valid = kept;
        holds = record {
          idx = i;
          at_idx =
              find_first (admit m i token now) (order_of (admit m i token now)) kept.table
                token.client_id i id h (ap (λ (s : TokenSlot). s.client_id) new)
                (λ j ji q. before j ji (
                  sym q
                  ∙ ap (λ (s : TokenSlot). s.client_id)
                      (get_or-set_ne m.session_table i j (admitted_slot (slot_at m i) token now)
                        empty_slot (λ e. omega arith))));
          live = ap (λ (s : TokenSlot). s.is_active) new;
          unlocked = ap (λ (s : TokenSlot). s.is_locked_out) new ∙ locked;
          key = ap (λ (s : TokenSlot). s.session_key) new;
          nonce = ap (λ (s : TokenSlot). s.session_nonce) new;
          issued = ap (λ (s : TokenSlot). s.issued_at_ms) new;
        };
      }

  -- Every slot is barred by a lockout.
  abbrev pub AllLocked : TokenLifecycleManager → Type 0
  AllLocked m = (j : ℕ) → j < max_active_sessions → (slot_at m j).is_locked_out ≡ true

  -- What the placement of a token comes to, by cases.
  pub place_cases {ℓ} :
      (m : TokenLifecycleManager)
      → IsValid m
      → (P : TlmStatus × TokenLifecycleManager → Type ℓ)
      → ((i : ℕ) → find_free_slot m ≡ some i → P (TlmStatus.ok, admit m i token now))
      → (find_free_slot m ≡ none → m.insertion_order.count ≡ 0 → P (TlmStatus.table_full, m))
      → ((k : ℕ)
          → find_free_slot m ≡ none
          → m.insertion_order.count ≡ suc k
          → P (TlmStatus.ok, admit (evict (popped m k) (oldest m)) (oldest m) token now))
      → P (place m token now)
  unfolding place
  place_cases m v P free full evicted = elim (Option-cases (find_free_slot m)) [
    | inr (i, e) ↦ rw (e, place) (free i e)
    | inl e ↦ by_count m.insertion_order.count refl e
  ]
    where
      by_count :
          (n : ℕ) → m.insertion_order.count ≡ n → find_free_slot m ≡ none → P (place m token now)
      by_count zero c e =
          let none_left = pop-none max_active_sessions m.insertion_order c in
          rw (e, place) (rw none_left (rw none_left (full e c)))
      by_count (suc k) c e =
          let taken = pop-some max_active_sessions m.insertion_order k v.ring c in
          rw (e, place) (rw taken (rw taken (evicted k e c)))

  -- Either the token is admitted, and some slot was not barred, or every slot is and nothing changes.
  abbrev pub Placed : TokenLifecycleManager → TlmStatus × TokenLifecycleManager → Type 0
  Placed m out =
      (out.0 ≡ TlmStatus.ok)
        × Admission out.1 token now
        × ((i : ℕ) × (i < max_active_sessions) × ((slot_at m i).is_locked_out ≡ false))
      ⊎ (out ≡ (TlmStatus.table_full, m)) × AllLocked m

  no_session :
      (m : TokenLifecycleManager)
      → IsValid m
      → m.insertion_order.count ≡ 0
      → (j : ℕ) → j < max_active_sessions
      → active (slot_at m j) ≡ false
  no_session m v c j h = elim (Bool-cases (active (slot_at m j))) [
    | inl t ↦ absurd (
        omega (
          arith,
          count_if-pos active empty_slot m.session_table j (in_table m v j h) t,
          v.table.counted,
          length-contents max_active_sessions m.insertion_order,
        ))
    | inr f ↦ f
  ]

  evicted-Placed :
      (m : TokenLifecycleManager) (v : IsValid m)
      → Unclaimed m token.client_id
      → (k : ℕ) → find_free_slot m ≡ none
      → m.insertion_order.count ≡ suc k
      → Placed m (TlmStatus.ok, admit (evict (popped m k) (oldest m)) (oldest m) token now)
  evicted-Placed m v others k e c =
      let m1 = evict (popped m k) (oldest m) in
      let h = oldest-lt m v k c in
      let open_slot = oldest-unlocked m v k c in
      let m1-valid = evict-IsValid m v k c in
      let foreign : (j : ℕ) → j < max_active_sessions → (slot_at m1 j).client_id ≢ token.client_id =
        λ j hj q.
          others j (free_missing m (order_of m) v.table e j hj)
            (sym (client_id-evict m v k c j) ∙ q) in
      inl (
        refl,
        admit-Admission m1 m1-valid (oldest m) h
            (subst (λ (s : TokenSlot). is_claimed s ≡ false)
              (sym (slot_at-evict m v k c (oldest m))) (ground arith))
            (λ j ji q. foreign j (omega arith) (sym q))
            (λ j claimed q. foreign j (claimed_bound m1 m1-valid j claimed) q),
        (oldest m, h, open_slot),
      )

  pub place-Placed :
      (m : TokenLifecycleManager) (v : IsValid m)
      → Unclaimed m token.client_id
      → Placed m (place m token now)
  place-Placed m v others =
      place_cases m v (Placed m)
        (λ i e.
          let (h, free, before) = free_found m (order_of m) v.table i e in
          inl (
            refl,
            admit-Admission m v i h free (λ j ji q. others j (before j ji) (sym q)) others,
            (i, h, ground arith),
          ))
        (λ e c. inr (
          refl,
          λ j h.
              let claimed = free_missing m (order_of m) v.table e j h in
              let idle = no_session m v c j h in ground arith,
        ))
        (λ k e c. evicted-Placed m v others k e c)
