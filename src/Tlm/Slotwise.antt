-- ===== src/Tlm/Slotwise.antt =====
-- Relations between a slot before and after an operation that every way of writing a slot respects:
-- one theorem for each operation of the manager.
use mathlib.Core.Path.{subst}
use zonal_zero_trust_auth.Base.{
  ℕ, suc, ◌<◌, ◌≡◌, sym, ap, ◌∙◌, Bool, true, false, Option, get_or-set, ◌==◌, if◌then◌else◌, arith,
  Bool-cases, Option-cases, inl, inr, ==_iff,
}
use zonal_zero_trust_auth.Platform.{ClientId, SessionKey, IsClientId}
use zonal_zero_trust_auth.ConstantTime.{is_zero}
use zonal_zero_trust_auth.Engine.{SpdmSessionToken}
use zonal_zero_trust_auth.Tlm.{
  TokenSlot, TokenLifecycleManager, max_active_sessions, empty_slot, slot_at, put_slot, end_session,
  admit, admitted_slot, evict, expire_existing, place, register_token, validate_token,
  count_anomaly, revoke_token, evaluate_token_expiry, find_slot_by_client_id, is_locked_out,
}
use zonal_zero_trust_auth.Tlm.Slots.{ended_slot}
use zonal_zero_trust_auth.Tlm.Invariant.{IsValid}
use zonal_zero_trust_auth.Tlm.Invariant.Find.{found, free_found}
use zonal_zero_trust_auth.Tlm.Register.Stages.{
  order_of, in_table, slot_at-end_session, expire_existing_cases, expire_existing-IsValid,
}
use zonal_zero_trust_auth.Tlm.Register.Evict.{
  popped, oldest, oldest-unlocked, oldest-lt, slot_at-evict, evict-IsValid,
}
use zonal_zero_trust_auth.Tlm.Register.Outcome.{
  place_cases, register_zero, register_barred, register_placed,
}
use zonal_zero_trust_auth.Tlm.Sessions.{validate_token_cases}
use zonal_zero_trust_auth.Tlm.Sessions.Valid.{revoke_token-none, slot_at-revoke_token}
use zonal_zero_trust_auth.Tlm.Expiry.{swept, is_stale, evaluate_token_expiry_lem}

-- What a relation must allow: nothing happens, a session ends, a time stamp is written, one after the
-- other.
pub record IsStable (R : TokenSlot → TokenSlot → Type 0) : Type 0 where
  pub same : (s : TokenSlot) → R s s
  pub ended : (s : TokenSlot) → R s (ended_slot s)
  pub touched :
      (s : TokenSlot) (now : ℕ) → s.is_active ≡ true → R s (record s { last_seen_ms = now })
  pub joined : (s t u : TokenSlot) → R s t → R t u → R s u

-- It allows the admission of a token into a slot that is not barred.
abbrev pub AllowsToken : (TokenSlot → TokenSlot → Type 0) → SpdmSessionToken → ℕ → Type 0
AllowsToken R token now =
    (s : TokenSlot) → s.is_locked_out ≡ false → R s (admitted_slot s token now)

-- It allows that an anomaly of a client is counted as its session ends.
abbrev pub AllowsCount : (TokenSlot → TokenSlot → Type 0) → ClientId → Type 0
AllowsCount R x =
    (s : TokenSlot) (is_anomaly : Bool)
    → s.client_id ≡ x
    → R s (ended_slot (count_anomaly s is_anomaly))

module _ (R : TokenSlot → TokenSlot → Type 0) (stable : IsStable R) where
  abbrev pub Slotwise : TokenLifecycleManager → TokenLifecycleManager → Type 0
  Slotwise m n = (i : ℕ) → i < max_active_sessions → R (slot_at m i) (slot_at n i)

  pub Slotwise-refl : (m : TokenLifecycleManager) → Slotwise m m
  Slotwise-refl m i h = stable.same (slot_at m i)

  pub Slotwise-trans : (a b c : TokenLifecycleManager) → Slotwise a b → Slotwise b c → Slotwise a c
  Slotwise-trans a b c f g i h =
      stable.joined (slot_at a i) (slot_at b i) (slot_at c i) (f i h) (g i h)

  -- One written slot decides.
  set-Slotwise :
      (m n : TokenLifecycleManager) (i : ℕ) (v : TokenSlot)
      → ((j : ℕ) → slot_at n j ≡ (if i == j then v else slot_at m j))
      → R (slot_at m i) v
      → Slotwise m n
  set-Slotwise m n i v e new j h = subst (R (slot_at m j)) (sym (e j)) (elim (Bool-cases (i == j)) [
    | inl same ↦ rw same (subst (λ (k : ℕ). R (slot_at m k) v) ((==_iff i j).0 same) new)
    | inr other ↦ rw other (stable.same (slot_at m j))
  ])

  end_session-Slotwise :
      (m : TokenLifecycleManager) (v : IsValid m) (i : ℕ) (x : ClientId)
      → i < max_active_sessions
      → Slotwise m (end_session m i x)
  end_session-Slotwise m v i x h =
      set-Slotwise m (end_session m i x) i (ended_slot (slot_at m i))
        (λ j. slot_at-end_session m i x j (in_table m v i h)) (stable.ended (slot_at m i))

  module _ (token : SpdmSessionToken) (now : ℕ) (allows : AllowsToken R token now) where
    admit-Slotwise :
        (m : TokenLifecycleManager) (v : IsValid m) (i : ℕ)
        → i < max_active_sessions
        → (slot_at m i).is_locked_out ≡ false
        → Slotwise m (admit m i token now)
    unfolding admit
    admit-Slotwise m v i h f =
        set-Slotwise m (admit m i token now) i (admitted_slot (slot_at m i) token now)
          (λ j.
            get_or-set m.session_table i j (admitted_slot (slot_at m i) token now) empty_slot
              (in_table m v i h))
          (allows (slot_at m i) f)

    evicted-Slotwise :
        (m : TokenLifecycleManager) (v : IsValid m) (k : ℕ)
        → m.insertion_order.count ≡ suc k
        → Slotwise m (admit (evict (popped m k) (oldest m)) (oldest m) token now)
    evicted-Slotwise m v k c =
        let m1 = evict (popped m k) (oldest m) in
        let self : (oldest m == oldest m) ≡ true = ground arith in
        let same : slot_at m1 (oldest m) ≡ ended_slot (slot_at m (oldest m)) =
          slot_at-evict m v k c (oldest m) ∙ rw self in
        Slotwise-trans m m1 (admit m1 (oldest m) token now)
          (set-Slotwise m m1 (oldest m) (ended_slot (slot_at m (oldest m))) (slot_at-evict m v k c)
            (stable.ended (slot_at m (oldest m))))
          (admit-Slotwise m1 (evict-IsValid m v k c) (oldest m) (oldest-lt m v k c)
            (ap (λ (s : TokenSlot). s.is_locked_out) same ∙ oldest-unlocked m v k c))

    module _ (id : IsClientId token.client_id) where
      place-Slotwise : (m : TokenLifecycleManager) → IsValid m → Slotwise m (place m token now).1
      place-Slotwise m v =
          place_cases token now id m v (λ out. Slotwise m out.1)
            (λ i e.
              let (h, free, _) = free_found m (order_of m) v.table i e in
              admit-Slotwise m v i h (ground arith))
            (λ e c. Slotwise-refl m) (λ k e c. evicted-Slotwise m v k c)

      pub expire_existing-Slotwise :
          (m : TokenLifecycleManager)
          → IsValid m
          → is_locked_out m token.client_id ≡ false
          → Slotwise m (expire_existing m token.client_id)
      expire_existing-Slotwise m v o =
          let x = token.client_id in
          expire_existing_cases m v x id o (Slotwise m) (λ e. Slotwise-refl m)
            (λ i e a. Slotwise-refl m)
            (λ i e a. end_session-Slotwise m v i x ((found m (order_of m) v.table x i id e).0))

      pub register_token-Slotwise :
          (m : TokenLifecycleManager) → IsValid m → Slotwise m (register_token m token now).1
      register_token-Slotwise m v = elim (Bool-cases (is_zero token.client_id)) [
        | inl z ↦ rw (register_zero token now id m z) (Slotwise-refl m)
        | inr nz ↦ elim (Bool-cases (is_locked_out m token.client_id)) [
          | inl b ↦ rw (register_barred token now id m nz b) (Slotwise-refl m)
          | inr o ↦
              let m1 = expire_existing m token.client_id in
              let w = expire_existing-IsValid m v token.client_id id o in
              rw (register_placed token now id m nz o) (
                Slotwise-trans m m1 (place m1 token now).1 (expire_existing-Slotwise m v o)
                  (place-Slotwise m1 w))
        ]
      ]

  module _ (m : TokenLifecycleManager) (v : IsValid m) where
    pub validate_token-Slotwise :
        (x : ClientId) (now : ℕ) (out : Option SessionKey)
        → IsClientId x
        → Slotwise m (validate_token m x now out).manager
    validate_token-Slotwise x now out hx =
        validate_token_cases m x now out (Slotwise m) (Slotwise-refl m)
          (λ idx e a. end_session-Slotwise m v idx x ((found m (order_of m) v.table x idx hx e).0))
          (λ idx e a.
            let h = (found m (order_of m) v.table x idx hx e).0 in
            let slot = record (slot_at m idx) { last_seen_ms = now } in
            set-Slotwise m (put_slot m idx slot) idx slot
              (λ j. get_or-set m.session_table idx j slot empty_slot (in_table m v idx h))
              (stable.touched (slot_at m idx) now a))

    pub revoke_token-Slotwise :
        (x : ClientId) (is_anomaly : Bool)
        → AllowsCount R x
        → IsClientId x
        → Slotwise m (revoke_token m x is_anomaly).1
    revoke_token-Slotwise x is_anomaly allows hx =
        elim (Option-cases (find_slot_by_client_id m x)) [
          | inl e ↦ rw (revoke_token-none m v x hx is_anomaly e) (Slotwise-refl m)
          | inr (idx, e) ↦
              set-Slotwise m (revoke_token m x is_anomaly).1 idx
                (ended_slot (count_anomaly (slot_at m idx) is_anomaly))
                (slot_at-revoke_token m v x hx is_anomaly idx e)
                (allows (slot_at m idx) is_anomaly ((found m (order_of m) v.table x idx hx e).1))
        ]

    pub evaluate_token_expiry-Slotwise : (now : ℕ) → Slotwise m (evaluate_token_expiry m now)
    evaluate_token_expiry-Slotwise now i h =
        subst (R (slot_at m i)) (sym ((evaluate_token_expiry_lem now m v).1 i h))
          (kept (slot_at m i))
      where
        kept : (slot : TokenSlot) → R slot (swept now slot)
        kept slot = elim (Bool-cases (is_stale now slot)) [
          | inl s ↦ rw s (stable.ended slot)
          | inr f ↦ rw f (stable.same slot)
        ]
