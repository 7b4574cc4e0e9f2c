-- ===== src/Tlm/Slots.antt =====
-- What the helpers of the manager do to its fields, as one record update each.
use zonal_zero_trust_auth.Base.{
  ℕ, ◌<◌, ◌≡◌, ap, ◌∙◌, false, List, [], ◌∷◌, ◌++◌, length, set, get_or-set_self, set-set,
  if◌then◌else◌, arith,
}
use zonal_zero_trust_auth.Platform.{ClientId, zeros, nonce_len, session_key_len}
use zonal_zero_trust_auth.Ring
use zonal_zero_trust_auth.Tlm.{
  TokenSlot, TokenLifecycleManager, max_active_sessions, empty_slot, slot_at, put_slot,
  zero_slot_secrets, set_inactive, forget_order, notify_revocation, end_session, evict,
}

-- The slot that a session leaves when it ends.
abbrev pub ended_slot : TokenSlot → TokenSlot
ended_slot slot = record slot {
  session_key = zeros session_key_len;
  session_nonce = zeros nonce_len;
  issued_at_ms = 0;
  last_seen_ms = 0;
  is_active = false;
}

abbrev pub notified_after : TokenLifecycleManager → ClientId → List ClientId
notified_after m client_id = if m.has_callback then m.notified ++ client_id ∷ [] else m.notified

notify_revocation_lem :
    (m : TokenLifecycleManager) (client_id : ClientId)
    → notify_revocation m client_id ≡ record m { notified = notified_after m client_id }
unfolding notify_revocation
notify_revocation_lem m client_id = ground arith

module _ (m : TokenLifecycleManager) (idx : ℕ) (h : idx < length m.session_table) where
  abbrev zeroed : TokenSlot
  zeroed = record (slot_at m idx) {
    session_key = zeros session_key_len;
    session_nonce = zeros nonce_len;
    issued_at_ms = 0;
    last_seen_ms = 0;
  }

  clear_lem :
      set_inactive (zero_slot_secrets m idx) idx
      ≡ record m { session_table = set m.session_table idx (ended_slot (slot_at m idx)) }
  unfolding set_inactive zero_slot_secrets
  clear_lem =
      ap (λ (s : TokenSlot). put_slot (put_slot m idx zeroed) idx (record s { is_active = false }))
        (get_or-set_self m.session_table idx zeroed empty_slot h)
      ∙ ap (λ (t : List TokenSlot). record m { session_table = t })
          (set-set m.session_table idx zeroed (ended_slot (slot_at m idx)))

  -- Ending a session clears its slot, drops its index from the order and reports its identifier.
  pub end_session_lem :
      (client_id : ClientId)
      → end_session m idx client_id ≡ record m {
        session_table = set m.session_table idx (ended_slot (slot_at m idx));
        insertion_order = Ring.remove max_active_sessions m.insertion_order idx;
        notified = notified_after m client_id;
      }
  unfolding end_session forget_order
  end_session_lem client_id =
      notify_revocation_lem _ client_id
      ∙ ap
          (λ (c : TokenLifecycleManager). record c {
            insertion_order = Ring.remove max_active_sessions c.insertion_order idx;
            notified = notified_after c client_id;
          })
          clear_lem

  -- An eviction clears the slot and reports the identifier that it held.
  pub evict_lem : evict m idx ≡ record m {
    session_table = set m.session_table idx (ended_slot (slot_at m idx));
    notified = notified_after m (slot_at m idx).client_id;
  }
  unfolding evict set_inactive zero_slot_secrets
  evict_lem =
      ap
        (λ (s : TokenSlot).
          set_inactive (notify_revocation (put_slot m idx zeroed) s.client_id) idx)
        (get_or-set_self m.session_table idx zeroed empty_slot h)
      ∙ ap (λ (c : TokenLifecycleManager). set_inactive c idx)
          (notify_revocation_lem (put_slot m idx zeroed) (slot_at m idx).client_id)
      ∙ ap
          (λ (c : TokenLifecycleManager). record c {
            notified = notified_after m (slot_at m idx).client_id;
          })
          clear_lem
