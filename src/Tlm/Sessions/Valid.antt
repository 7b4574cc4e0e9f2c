-- ===== src/Tlm/Sessions/Valid.antt =====
-- `ValidateToken` and `RevokeToken` keep the invariant of the table, and `RevokeToken` is one update of
-- it.
use mathlib.Core.Path.{subst}
use zonal_zero_trust_auth.Base.{
  ℕ, ◌<◌, ◌≡◌, refl, sym, ap, ◌∙◌, List, Bool, true, Option, none, some, set, get_or-set_self,
  get_or-set, set-set, length-set, ◌==◌, if◌then◌else◌, Option-cases, inl, inr,
}
use zonal_zero_trust_auth.Platform.{ClientId, SessionKey, IsClientId}
use zonal_zero_trust_auth.Ring
use zonal_zero_trust_auth.Ring.Fifo.{remove}
use zonal_zero_trust_auth.Ring.Refine.{remove-IsValid, contents-remove}
use zonal_zero_trust_auth.Tlm.{
  TlmStatus, TokenSlot, TokenLifecycleManager, max_active_sessions, empty_slot, slot_at, put_slot,
  validate_token, count_anomaly, revoke_token, find_slot_by_client_id,
}
use zonal_zero_trust_auth.Tlm.Slots.{ended_slot, end_session_lem, notified_after}
use zonal_zero_trust_auth.Tlm.Invariant.{IsValid, WellFormed, amend-WellFormed, revoked-WellFormed}
use zonal_zero_trust_auth.Tlm.Invariant.Find.{found}
use zonal_zero_trust_auth.Tlm.Register.Stages.{order_of, in_table, byte_index, end_session-IsValid}
use zonal_zero_trust_auth.Tlm.Sessions.{validate_token_cases}

module _ (m : TokenLifecycleManager) (v : IsValid m) (x : ClientId) (hx : IsClientId x) where
  touched-IsValid :
      (idx now : ℕ)
      → idx < max_active_sessions
      → (slot_at m idx).is_active ≡ true
      → IsValid (put_slot m idx (record (slot_at m idx) { last_seen_ms = now }))
  touched-IsValid idx now h live =
      let s = v.table.slots idx in
      record {
        ring = v.ring;
        table =
            amend-WellFormed m.session_table (order_of m) v.table idx
              (record (slot_at m idx) { last_seen_ms = now }) h
              (record {
                id = s.id;
                erased = λ e. absurd (cc);
                idle = s.idle;
                threshold = s.threshold;
                byte = s.byte;
              })
              refl refl (λ c j ji. v.table.first idx j ji c);
      }

  pub validate_token-IsValid :
      (now : ℕ) (out : Option SessionKey) → IsValid (validate_token m x now out).manager
  validate_token-IsValid now out =
      validate_token_cases m x now out IsValid v
        (λ idx e a. end_session-IsValid m v idx x ((found m (order_of m) v.table x idx hx e).0))
        (λ idx e a. touched-IsValid idx now ((found m (order_of m) v.table x idx hx e).0) a)

  -- `RevokeToken` as one update of the slot that holds the identifier.
  pub revoke_token-some :
      (is_anomaly : Bool) (idx : ℕ)
      → find_slot_by_client_id m x ≡ some idx
      → revoke_token m x is_anomaly ≡ (
        TlmStatus.ok,
        record m {
          session_table =
              set m.session_table idx (ended_slot (count_anomaly (slot_at m idx) is_anomaly));
          insertion_order = Ring.remove max_active_sessions m.insertion_order idx;
          notified = notified_after m x;
        },
      )
  unfolding revoke_token
  revoke_token-some is_anomaly idx e =
      let h = in_table m v idx ((found m (order_of m) v.table x idx hx e).0) in
      let counted = count_anomaly (slot_at m idx) is_anomaly in
      let c = put_slot m idx counted in
      rw (e, revoke_token)
        (ap (λ (r : TokenLifecycleManager). (TlmStatus.ok, r))
          (end_session_lem c idx (rw (length-set m.session_table idx counted) h) x
            ∙ ap
                (λ (t : List TokenSlot). record m {
                  session_table = t;
                  insertion_order = Ring.remove max_active_sessions m.insertion_order idx;
                  notified = notified_after m x;
                })
                (ap (λ (s : TokenSlot). set (set m.session_table idx counted) idx (ended_slot s))
                    (get_or-set_self m.session_table idx counted empty_slot h)
                  ∙ set-set m.session_table idx counted (ended_slot counted))))

  pub revoke_token-none :
      (is_anomaly : Bool)
      → find_slot_by_client_id m x ≡ none
      → revoke_token m x is_anomaly ≡ (TlmStatus.not_found, m)
  unfolding revoke_token
  revoke_token-none is_anomaly e = rw (e, revoke_token)

  pub revoke_token-IsValid : (is_anomaly : Bool) → IsValid (revoke_token m x is_anomaly).1
  revoke_token-IsValid is_anomaly = elim (Option-cases (find_slot_by_client_id m x)) [
    | inl e ↦ rw (revoke_token-none is_anomaly e) v
    | inr (idx, e) ↦
        let (h, id, before) = found m (order_of m) v.table x idx hx e in
        let new = ended_slot (count_anomaly (slot_at m idx) is_anomaly) in
        rw (revoke_token-some is_anomaly idx e) (record {
          ring = remove-IsValid max_active_sessions m.insertion_order idx v.ring;
          table =
              subst (WellFormed (set m.session_table idx new))
                (sym (
                  contents-remove max_active_sessions m.insertion_order idx v.ring
                  ∙ ap (remove (order_of m)) (byte_index idx h)))
                (revoked-WellFormed m.session_table (order_of m) v.table idx h is_anomaly
                  (λ j ji q. before j ji (sym q ∙ id)));
        })
  ]

  -- A read of the table after a revocation.
  pub slot_at-revoke_token :
      (is_anomaly : Bool) (idx : ℕ)
      → find_slot_by_client_id m x ≡ some idx
      → (j : ℕ)
      → slot_at (revoke_token m x is_anomaly).1 j
        ≡ (if idx == j then ended_slot (count_anomaly (slot_at m idx) is_anomaly) else slot_at m j)
  slot_at-revoke_token is_anomaly idx e j =
      let new = ended_slot (count_anomaly (slot_at m idx) is_anomaly) in
      ap (λ (r : TlmStatus × TokenLifecycleManager). slot_at r.1 j)
        (revoke_token-some is_anomaly idx e)
      ∙ get_or-set m.session_table idx j new empty_slot
          (in_table m v idx ((found m (order_of m) v.table x idx hx e).0))
