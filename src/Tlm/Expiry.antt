-- ===== src/Tlm/Expiry.antt =====
-- `EvaluateTokenExpiry`: what the periodic sweep does to every slot, and whom it reports.
use zonal_zero_trust_auth.Base.{
  ℕ, zero, suc, ◌≤◌, ◌<◌, ◌≡◌, refl, sym, ap, ◌∙◌, List, [], ◌∷◌, ◌++◌, Bool, true, false, ◌&&◌,
  ◌==◌, if◌then◌else◌, arith, Bool-cases, inl, inr, ltb, ==_iff,
}
use zonal_zero_trust_auth.Platform.{ClientId}
use zonal_zero_trust_auth.Tlm.{
  TokenSlot, TokenLifecycleManager, max_active_sessions, token_lifetime_ms, slot_at, age_ms,
  is_expired, end_session, expiry_round, expiry_rounds, evaluate_token_expiry,
}
use zonal_zero_trust_auth.Tlm.Slots.{ended_slot, end_session_lem}
use zonal_zero_trust_auth.Tlm.Invariant.{IsValid}
use zonal_zero_trust_auth.Tlm.Register.Stages.{in_table, end_session-IsValid, slot_at-end_session}
use mathlib.Core.List.{append-nil, append_assoc}

-- A live session that is older than the lifetime.
abbrev pub is_stale : ℕ → TokenSlot → Bool
is_stale now slot = slot.is_active && is_expired now slot

-- What the sweep makes of a slot.
abbrev pub swept : ℕ → TokenSlot → TokenSlot
swept now slot = if is_stale now slot then ended_slot slot else slot

-- The identifiers of the stale sessions among the first `k` slots, in the order of the table.
pub stale_ids : ℕ → TokenLifecycleManager → ℕ → List ClientId
stale_ids now m zero = []
stale_ids now m (suc i) =
    stale_ids now m i ++ (if is_stale now (slot_at m i) then (slot_at m i).client_id ∷ [] else [])

module _ (now : ℕ) where
  -- One round, by cases.
  pub round_cases {ℓ} :
      (m : TokenLifecycleManager) (i : ℕ) (P : TokenLifecycleManager → Type ℓ)
      → (is_stale now (slot_at m i) ≡ false → P m)
      → (is_stale now (slot_at m i) ≡ true → P (end_session m i (slot_at m i).client_id))
      → P (expiry_round now i m)
  unfolding expiry_round
  round_cases m i P fresh stale = elim (Bool-cases (slot_at m i).is_active) [
    | inr n ↦ rw n (fresh (ground arith))
    | inl a ↦ elim (Bool-cases (is_expired now (slot_at m i))) [
      | inl old ↦ let s = stale (ground arith) in rw (a, old) s
      | inr young ↦ rw (a, young) (fresh (ground arith))
    ]
  ]

  -- The state of the sweep after `k` rounds.
  pub record Sweeping (m : TokenLifecycleManager) (k : ℕ) (r : TokenLifecycleManager) : Type 0 where
    pub valid : IsValid r
    pub slots : (j : ℕ) → slot_at r j ≡ (if ltb j k then swept now (slot_at m j) else slot_at m j)
    pub callback : r.has_callback ≡ m.has_callback
    pub reported :
        r.notified ≡ (if m.has_callback then m.notified ++ stale_ids now m k else m.notified)

  module _ (m : TokenLifecycleManager) (k : ℕ) (r : TokenLifecycleManager)
      (h : k < max_active_sessions) (s : Sweeping m k r) where
    pub same_slot : slot_at r k ≡ slot_at m k
    same_slot = let nk : ltb k k ≡ false = ground arith in s.slots k ∙ rw nk

    fresh_step : is_stale now (slot_at r k) ≡ false → Sweeping m (suc k) r
    unfolding stale_ids
    fresh_step fresh =
        let fresh' : is_stale now (slot_at m k) ≡ false =
          ap (is_stale now) (sym same_slot) ∙ fresh in
        record {
          valid = s.valid;
          slots = λ j. s.slots j ∙ slot_case j fresh';
          callback = s.callback;
          reported = rw fresh' (rw append-nil s.reported);
        }
      where
        slot_case :
            (j : ℕ)
            → is_stale now (slot_at m k) ≡ false
            → (if ltb j k then swept now (slot_at m j) else slot_at m j)
              ≡ (if ltb j (suc k) then swept now (slot_at m j) else slot_at m j)
        slot_case j f = elim (Bool-cases (j == k)) [
          | inl e ↦
              let same : j ≡ k = (==_iff j k).0 e in
              let a : ltb j k ≡ false = ground arith in
              let b : ltb j (suc k) ≡ true = ground arith in
              let fj : is_stale now (slot_at m j) ≡ false =
                ap (λ (n : ℕ). is_stale now (slot_at m n)) same ∙ f in
              rw (a, b) (rw fj refl)
          | inr ne ↦ let both : ltb j k ≡ ltb j (suc k) = ground arith in rw both
        ]

    swept-stale :
        (j : ℕ)
        → is_stale now (slot_at m j) ≡ true
        → swept now (slot_at m j) ≡ ended_slot (slot_at m j)
    swept-stale j e = ground arith

    stale_step :
        is_stale now (slot_at r k) ≡ true
        → Sweeping m (suc k) (end_session r k (slot_at r k).client_id)
    unfolding stale_ids
    stale_step stale =
        let stale' : is_stale now (slot_at m k) ≡ true =
          ap (is_stale now) (sym same_slot) ∙ stale in
        let form = end_session_lem r k (in_table r s.valid k h) (slot_at r k).client_id in
        record {
          valid = end_session-IsValid r s.valid k (slot_at r k).client_id h;
          slots = λ j.
              slot_at-end_session r k (slot_at r k).client_id j (in_table r s.valid k h)
              ∙ slot_case j stale';
          callback = ap (λ (c : TokenLifecycleManager). c.has_callback) form ∙ s.callback;
          reported =
              ap (λ (c : TokenLifecycleManager). c.notified) form
              ∙ ap
                  (λ (t : TokenSlot).
                    (if r.has_callback then r.notified ++ t.client_id ∷ [] else r.notified))
                  same_slot
              ∙ report_case stale';
        }
      where
        slot_case :
            (j : ℕ)
            → is_stale now (slot_at m k) ≡ true
            → (if k == j then ended_slot (slot_at r k) else slot_at r j)
              ≡ (if ltb j (suc k) then swept now (slot_at m j) else slot_at m j)
        slot_case j f = elim (Bool-cases (k == j)) [
          | inl e ↦
              let same : k ≡ j = (==_iff k j).0 e in
              let b : ltb j (suc k) ≡ true = ground arith in
              let fj : is_stale now (slot_at m j) ≡ true =
                ap (λ (n : ℕ). is_stale now (slot_at m n)) (sym same) ∙ f in
              let whole : ended_slot (slot_at r k) ≡ ended_slot (slot_at m j) =
                ap ended_slot (same_slot ∙ ap (slot_at m) same) in
              rw (e, b) (whole ∙ sym (swept-stale j fj))
          | inr ne ↦
              let both : ltb j k ≡ ltb j (suc k) = ground arith in
              rw ne (
                s.slots j
                ∙ ap (λ (b : Bool). if b then swept now (slot_at m j) else slot_at m j) both)
        ]

        report_case :
            is_stale now (slot_at m k) ≡ true
            → (if r.has_callback then r.notified ++ (slot_at m k).client_id ∷ [] else r.notified)
              ≡ (if m.has_callback then m.notified ++ stale_ids now m (suc k) else m.notified)
        report_case f = elim (Bool-cases m.has_callback) [
          | inl t ↦
              let rt = s.callback ∙ t in
              let before : r.notified ≡ m.notified ++ stale_ids now m k =
                s.reported
                ∙ ap (λ (b : Bool). if b then m.notified ++ stale_ids now m k else m.notified) t in
              rw (rt, t, f)
                (ap (λ (l : List ClientId). l ++ (slot_at m k).client_id ∷ []) before
                  ∙ append_assoc m.notified (stale_ids now m k) ((slot_at m k).client_id ∷ []))
          | inr n ↦
              let rn = s.callback ∙ n in
              let before : r.notified ≡ m.notified =
                s.reported
                ∙ ap (λ (b : Bool). if b then m.notified ++ stale_ids now m k else m.notified) n in
              rw (rn, n) before
        ]

  pub rounds-Sweeping :
      (m : TokenLifecycleManager)
      → IsValid m
      → (k : ℕ) → k ≤ max_active_sessions
      → Sweeping m k (expiry_rounds now m k)
  unfolding expiry_rounds stale_ids
  rounds-Sweeping m v zero h = record {
    valid = v;
    slots = λ j. (let none : ltb j 0 ≡ false = ground arith in rw none);
    callback = refl;
    reported = rw append-nil (ground arith);
  }
  rounds-Sweeping m v (suc k) h =
      let s = rounds-Sweeping m v k (omega arith) in
      round_cases (expiry_rounds now m k) k (Sweeping m (suc k))
        (fresh_step m k (expiry_rounds now m k) h s) (stale_step m k (expiry_rounds now m k) h s)

  -- The sweep keeps the invariant, ends exactly the live sessions that are older than the lifetime,
  -- leaves every other slot as it was, and reports the ended ones, in the order of the table, if there
  -- is a callback.
  pub evaluate_token_expiry_lem :
      (m : TokenLifecycleManager)
      → IsValid m
      → let r = evaluate_token_expiry m now in
        IsValid r
        × ((j : ℕ) → j < max_active_sessions → slot_at r j ≡ swept now (slot_at m j))
        × (r.notified ≡ (
            if m.has_callback
            then m.notified ++ stale_ids now m max_active_sessions
            else m.notified))
  unfolding evaluate_token_expiry
  evaluate_token_expiry_lem m v =
      let s = rounds-Sweeping m v max_active_sessions (omega arith) in
      (
        s.valid,
        λ j h.
            (let inside : ltb j max_active_sessions ≡ true = ground arith in s.slots j ∙ rw inside),
        s.reported,
      )

  -- After the sweep no live session is older than the lifetime.
  pub evaluate_token_expiry-young :
      (m : TokenLifecycleManager)
      → IsValid m
      → (j : ℕ) → j < max_active_sessions
      → let slot = slot_at (evaluate_token_expiry m now) j in
        slot.is_active ≡ true → age_ms now slot.issued_at_ms ≤ token_lifetime_ms
  evaluate_token_expiry-young m v j h =
      let e = (evaluate_token_expiry_lem m v).1 j h in rw e (young (slot_at m j))
    where
      young :
          (slot : TokenSlot)
          → (swept now slot).is_active ≡ true
          → age_ms now (swept now slot).issued_at_ms ≤ token_lifetime_ms
      young slot a = elim (Bool-cases (is_stale now slot)) [
        | inl s ↦ absurd (ground arith)
        | inr f ↦ ground arith
      ]
