-- ===== src/Adaptor/Response/Anomaly.antt =====
-- What an anomaly that is reported for a client does to the session manager.
use zonal_zero_trust_auth.Base.{
  ℕ, ◌+◌, leb, ◌==◌, ==_iff, if◌then◌else◌, ◌≡◌, ◌≢◌, ◌⊎◌, refl, ap, ◌∙◌, true, false, none, some,
  ltb, arith, Option-cases, inl, inr,
}
use zonal_zero_trust_auth.Platform.{ClientId, IsClientId}
use zonal_zero_trust_auth.Tlm
use zonal_zero_trust_auth.Tlm.{
  TlmStatus, TokenSlot, TokenLifecycleManager, max_anomaly_count, slot_at, is_locked_out,
  count_anomaly, find_slot_by_client_id,
}
use zonal_zero_trust_auth.Tlm.Invariant
use zonal_zero_trust_auth.Tlm.Invariant.Find.{found}
use zonal_zero_trust_auth.Tlm.Slots.{ended_slot}
use zonal_zero_trust_auth.Tlm.Register.Stages.{order_of}
use zonal_zero_trust_auth.Tlm.Sessions.Valid.{
  revoke_token-none, revoke_token-IsValid, slot_at-revoke_token,
}

-- A byte that is raised by one and stops at 255.
abbrev pub raised : ℕ → ℕ
raised n = if ltb n 0xff then n + 1 else n

-- What an anomaly of a client does to the manager. A client that no slot of the table names is not
-- counted, and nothing changes. Else its slot has its counter raised, is locked out exactly if the
-- counter has reached the threshold, and has no session; the other slots stay.
abbrev pub Counted : TokenLifecycleManager → ClientId → TokenLifecycleManager → Type 0
Counted m x n =
    (find_slot_by_client_id m x ≡ none) × (n ≡ m)
    ⊎ ((k : ℕ) × (find_slot_by_client_id m x ≡ some k)
        × ((slot_at n k).client_id ≡ x)
        × ((slot_at n k).anomaly_count ≡ raised (slot_at m k).anomaly_count)
        × ((slot_at n k).is_locked_out ≡ leb max_anomaly_count (slot_at n k).anomaly_count)
        × ((slot_at n k).is_active ≡ false)
        × ((j : ℕ) → k ≢ j → slot_at n j ≡ slot_at m j))

counted_frame :
    (s : TokenSlot)
    → ((ended_slot (count_anomaly s true)).client_id ≡ s.client_id)
      × ((ended_slot (count_anomaly s true)).anomaly_count ≡ raised s.anomaly_count)
unfolding count_anomaly
counted_frame s = ground arith

pub revoke_token-Counted :
    (m : TokenLifecycleManager)
    → Tlm.Invariant.IsValid m
    → (x : ClientId) → IsClientId x
    → Counted m x (Tlm.revoke_token m x true).1
revoke_token-Counted m v x hx = elim (Option-cases (find_slot_by_client_id m x)) [
  | inl e ↦
      inl
        (e, ap (λ (r : TlmStatus × TokenLifecycleManager). r.1) (revoke_token-none m v x hx true e))
  | inr (k, e) ↦
      let n = (Tlm.revoke_token m x true).1 in
      let w = revoke_token-IsValid m v x hx true in
      let (h, own, _) = found m (order_of m) v.table x k hx e in
      let at_j = slot_at-revoke_token m v x hx true k e in
      let (id, count) = counted_frame (slot_at m k) in
      let here : slot_at n k ≡ ended_slot (count_anomaly (slot_at m k) true) =
        at_j k ∙ rw ((==_iff k k).1 refl) refl in
      inr (
        k,
        e,
        ap (λ (s : TokenSlot). s.client_id) here ∙ id ∙ own,
        ap (λ (s : TokenSlot). s.anomaly_count) here ∙ count,
        (w.table.slots k).threshold,
        ap (λ (s : TokenSlot). s.is_active) here,
        λ j kj.
            at_j j ∙ (let other : (k == j) ≡ false = ground (arith, ==_iff k j) in rw other refl),
      )
]
