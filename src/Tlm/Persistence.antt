-- ===== src/Tlm/Persistence.antt =====
-- What leaves a live session alone: calls about other clients, and queries and sweeps while it is young.
use mathlib.Core.Path.{subst}
use zonal_zero_trust_auth.Base.{
  ℕ, ◌≤◌, ◌<◌, ◌≡◌, ◌≢◌, ◌⊎◌, refl, sym, ap, ◌∙◌, Bool, true, false, Option, none, some, ◌==◌,
  ==_iff, if◌then◌else◌, arith, Bool-cases, Option-cases, inl, inr, get_or-set, get_or-set_self,
}
use zonal_zero_trust_auth.Platform.{ClientId, SessionKey, IsClientId, client_id_len}
use zonal_zero_trust_auth.ConstantTime.{is_zero, same_bytes, same_bytes_iff}
use zonal_zero_trust_auth.Engine.{SpdmSessionToken}
use zonal_zero_trust_auth.Tlm.{
  TlmStatus, TokenSlot, TokenLifecycleManager, Validated, max_active_sessions, token_lifetime_ms,
  empty_slot, age_ms, slot_at, put_slot, end_session, admit, admitted_slot, expire_existing,
  register_token, validate_token, revoke_token, evaluate_token_expiry, find_slot_by_client_id,
  find_free_slot, is_locked_out,
}
use zonal_zero_trust_auth.Tlm.Slots.{ended_slot}
use zonal_zero_trust_auth.Tlm.Invariant.{IsValid, is_claimed}
use zonal_zero_trust_auth.Tlm.Invariant.Find.{found, find_claimed, free_found, differs}
use zonal_zero_trust_auth.Tlm.Register.Stages.{
  order_of, in_table, slot_at-end_session, slot_at-admit, expire_existing_cases,
  expire_existing-IsValid,
}
use zonal_zero_trust_auth.Tlm.Register.Outcome.{
  Holds, place_cases, register_zero, register_barred, register_placed, register_token-IsValid,
}
use zonal_zero_trust_auth.Tlm.Sessions.{IsLive, IsLive-validate_token, validate_token_cases}
use zonal_zero_trust_auth.Tlm.Sessions.Valid.{
  validate_token-IsValid, revoke_token-none, revoke_token-IsValid, slot_at-revoke_token,
}
use zonal_zero_trust_auth.Tlm.Expiry.{is_stale, evaluate_token_expiry_lem}

-- Two states of a slot with the same session; the time stamp of the last query may differ.
abbrev pub SameSession : TokenSlot → TokenSlot → Type 0
SameSession s t =
    (t.client_id ≡ s.client_id)
    × (t.is_active ≡ s.is_active)
    × (t.is_locked_out ≡ s.is_locked_out)
    × (t.session_key ≡ s.session_key)
    × (t.session_nonce ≡ s.session_nonce)
    × (t.issued_at_ms ≡ s.issued_at_ms)

pub SameSession-eq : (s t : TokenSlot) → t ≡ s → SameSession s t
SameSession-eq s t e = subst (SameSession s) (sym e) (refl, refl, refl, refl, refl, refl)

id_cases : (x y : ClientId) → IsClientId x → IsClientId y → (x ≡ y) ⊎ (x ≢ y)
id_cases x y hx hy = elim (Bool-cases (same_bytes x y)) [
  | inl t ↦ inl ((same_bytes_iff client_id_len x y hx hy).0 t)
  | inr f ↦ inr (differs x y f)
]

-- Another slot was written.
other_written : (i j : ℕ) (s t : TokenSlot) → i ≢ j → (if i == j then s else t) ≡ t
other_written i j s t ne = ground (arith, ==_iff i j)

module _ (token : SpdmSessionToken) (issued : ℕ) (hy : IsClientId token.client_id)
    (m : TokenLifecycleManager) (v : IsValid m) (h : Holds m token issued) where
  pub held_in : (h.idx < max_active_sessions) × ((slot_at m h.idx).client_id ≡ token.client_id)
  held_in =
      let (inside, own, _) = found m (order_of m) v.table token.client_id h.idx hy h.at_idx in
      (inside, own)

  pub SameSession-Holds :
      (n : TokenLifecycleManager)
      → IsValid n
      → SameSession (slot_at m h.idx) (slot_at n h.idx)
      → Holds n token issued
  SameSession-Holds n w (id, live, lock, key, nonce, time) =
      let claimed : is_claimed (slot_at n h.idx) ≡ true = ground (arith, h.live) in
      record {
        idx = h.idx;
        at_idx =
            subst (λ (x : ClientId). find_slot_by_client_id n x ≡ some h.idx) (id ∙ held_in.1)
              (find_claimed n (order_of n) w.table h.idx held_in.0 claimed);
        live = live ∙ h.live;
        unlocked = lock ∙ h.unlocked;
        key = key ∙ h.key;
        nonce = nonce ∙ h.nonce;
        issued = time ∙ h.issued;
      }

  -- The slot of another client is another slot.
  apart :
      (x : ClientId) (i : ℕ)
      → IsClientId x
      → x ≢ token.client_id
      → find_slot_by_client_id m x ≡ some i
      → i ≢ h.idx
  apart x i hx ne e q =
      let (_, own, _) = found m (order_of m) v.table x i hx e in
      ne (sym own ∙ ap (λ (k : ℕ). (slot_at m k).client_id) q ∙ held_in.1)

  ended_other :
      (x : ClientId) (i : ℕ)
      → IsClientId x
      → x ≢ token.client_id
      → find_slot_by_client_id m x ≡ some i
      → SameSession (slot_at m h.idx) (slot_at (end_session m i x) h.idx)
  ended_other x i hx ne e = SameSession-eq (slot_at m h.idx) (slot_at (end_session m i x) h.idx) (
      slot_at-end_session m i x h.idx (in_table m v i ((found m (order_of m) v.table x i hx e).0))
      ∙ other_written i h.idx (ended_slot (slot_at m i)) (slot_at m h.idx) (apart x i hx ne e))

  -- A revocation of another client.
  pub revoke_token-Holds :
      (x : ClientId) (is_anomaly : Bool)
      → IsClientId x
      → x ≢ token.client_id
      → Holds (revoke_token m x is_anomaly).1 token issued
  revoke_token-Holds x is_anomaly hx ne = elim (Option-cases (find_slot_by_client_id m x)) [
    | inl e ↦ rw (revoke_token-none m v x hx is_anomaly e) h
    | inr (i, e) ↦
        let n = (revoke_token m x is_anomaly).1 in
        SameSession-Holds n (revoke_token-IsValid m v x hx is_anomaly) (
          SameSession-eq (slot_at m h.idx) (slot_at n h.idx) (
            slot_at-revoke_token m v x hx is_anomaly i e h.idx
            ∙ other_written i h.idx _ (slot_at m h.idx) (apart x i hx ne e)))
  ]

  -- A query of another client, or of the client itself while the session is young.
  pub validate_token-Holds :
      (x : ClientId) (now : ℕ) (out : Option SessionKey)
      → IsClientId x
      → (x ≢ token.client_id) ⊎ (age_ms now issued ≤ token_lifetime_ms)
      → Holds (validate_token m x now out).manager token issued
  validate_token-Holds x now out hx spared =
      SameSession-Holds (validate_token m x now out).manager
        (validate_token-IsValid m v x hx now out)
        (elim spared [
          | inl ne ↦ other ne
          | inr young ↦ elim (id_cases x token.client_id hx hy) [
            | inl e ↦ own e young
            | inr ne ↦ other ne
          ]
        ])
    where
      other :
          x ≢ token.client_id
          → SameSession (slot_at m h.idx) (slot_at (validate_token m x now out).manager h.idx)
      other ne =
          validate_token_cases m x now out (λ n. SameSession (slot_at m h.idx) (slot_at n h.idx))
            (SameSession-eq (slot_at m h.idx) (slot_at m h.idx) refl)
            (λ i e a. ended_other x i hx ne e)
            (λ i e a.
              let t = record (slot_at m i) { last_seen_ms = now } in
              SameSession-eq (slot_at m h.idx) (slot_at (put_slot m i t) h.idx) (
                get_or-set m.session_table i h.idx t empty_slot
                  (in_table m v i ((found m (order_of m) v.table x i hx e).0))
                ∙ other_written i h.idx t (slot_at m h.idx) (apart x i hx ne e)))

      own :
          x ≡ token.client_id
          → age_ms now issued ≤ token_lifetime_ms
          → SameSession (slot_at m h.idx) (slot_at (validate_token m x now out).manager h.idx)
      own e young =
          let l : IsLive m x now h.idx = record {
            at_idx = rw e h.at_idx;
            live = h.live;
            unlocked = h.unlocked;
            young = rw h.issued young;
          } in
          let t = record (slot_at m h.idx) { last_seen_ms = now } in
          subst (λ (r : Validated). SameSession (slot_at m h.idx) (slot_at r.manager h.idx))
            (sym (IsLive-validate_token m x now out h.idx l))
            (subst (SameSession (slot_at m h.idx))
              (sym
                (get_or-set_self m.session_table h.idx t empty_slot (in_table m v h.idx held_in.0)))
              (refl, refl, refl, refl, refl, refl))

  -- A sweep while the session is young.
  pub evaluate_token_expiry-Holds :
      (now : ℕ)
      → age_ms now issued ≤ token_lifetime_ms
      → Holds (evaluate_token_expiry m now) token issued
  evaluate_token_expiry-Holds now young =
      let (w, slots, _) = evaluate_token_expiry_lem now m v in
      let fresh : is_stale now (slot_at m h.idx) ≡ false = rw h.issued (ground arith) in
      SameSession-Holds (evaluate_token_expiry m now) w (
        SameSession-eq (slot_at m h.idx) (slot_at (evaluate_token_expiry m now) h.idx)
          (slots h.idx held_in.0 ∙ rw fresh))

  -- The refresh path of another client.
  expire_existing-Holds :
      (x : ClientId)
      → IsClientId x
      → x ≢ token.client_id
      → is_locked_out m x ≡ false
      → Holds (expire_existing m x) token issued
  expire_existing-Holds x hx ne o =
      SameSession-Holds (expire_existing m x) (expire_existing-IsValid m v x hx o) (
        expire_existing_cases m v x hx o (λ n. SameSession (slot_at m h.idx) (slot_at n h.idx))
          (λ e. SameSession-eq (slot_at m h.idx) (slot_at m h.idx) refl)
          (λ i e a. SameSession-eq (slot_at m h.idx) (slot_at m h.idx) refl)
          (λ i e a. ended_other x i hx ne e))

-- A token that goes into a free slot takes no slot of a session.
admit-SameSession :
    (token other : SpdmSessionToken) (issued now : ℕ) (hy : IsClientId token.client_id)
    (m : TokenLifecycleManager) (v : IsValid m) (h : Holds m token issued) (i : ℕ)
    → find_free_slot m ≡ some i
    → SameSession (slot_at m h.idx) (slot_at (admit m i other now) h.idx)
admit-SameSession token other issued now hy m v h i free =
    let (inside, unclaimed, _) = free_found m (order_of m) v.table i free in
    let ne : i ≢ h.idx = λ q.
      (let idle : is_claimed (slot_at m h.idx) ≡ false =
          subst (λ (k : ℕ). is_claimed (slot_at m k) ≡ false) q unclaimed in
        ground (arith, h.live)) in
    SameSession-eq (slot_at m h.idx) (slot_at (admit m i other now) h.idx) (
      slot_at-admit m i other now h.idx (in_table m v i inside)
      ∙ other_written i h.idx (admitted_slot (slot_at m i) other now) (slot_at m h.idx) ne)

-- A registration of another client that finds a free slot after the refresh path.
pub register_token-Holds :
    (token other : SpdmSessionToken) (issued now : ℕ) (hy : IsClientId token.client_id)
    (m : TokenLifecycleManager) (v : IsValid m)
    → Holds m token issued
    → (hx : IsClientId other.client_id) → other.client_id ≢ token.client_id
    → (is_locked_out m other.client_id ≡ false
        → find_free_slot (expire_existing m other.client_id) ≢ none)
    → Holds (register_token m other now).1 token issued
register_token-Holds token other issued now hy m v h hx ne roomy =
    elim (Bool-cases (is_zero other.client_id)) [
      | inl z ↦ rw (register_zero other now hx m z) h
      | inr nz ↦ elim (Bool-cases (is_locked_out m other.client_id)) [
        | inl l ↦ rw (register_barred other now hx m nz l) h
        | inr o ↦
            let m1 = expire_existing m other.client_id in
            let w = expire_existing-IsValid m v other.client_id hx o in
            let h1 = expire_existing-Holds token issued hy m v h other.client_id hx ne o in
            let next = register_token-IsValid other now hx m v in
            SameSession-Holds token issued hy m1 w h1 (register_token m other now).1 next (
              subst
                (λ (r : TlmStatus × TokenLifecycleManager).
                  SameSession (slot_at m1 h1.idx) (slot_at r.1 h1.idx))
                (sym (register_placed other now hx m nz o))
                (place_cases other now hx m1 w
                  (λ r. SameSession (slot_at m1 h1.idx) (slot_at r.1 h1.idx))
                  (λ i free. admit-SameSession token other issued now hy m1 w h1 i free)
                  (λ full c. absurd (roomy o full)) (λ k full c. absurd (roomy o full))))
      ]
    ]
