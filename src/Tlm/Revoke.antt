-- ===== src/Tlm/Revoke.antt =====
-- `RevokeToken`: the session that it ends, and the lockout after repeated anomalies.
use mathlib.Core.Path.{subst}
use zonal_zero_trust_auth.Base.{
  ℕ, zero, suc, ◌≤◌, ◌≡◌, ◌≢◌, sym, ap, ◌∙◌, Bool, true, false, Option, some, ◌==◌, arith, leb,
}
use zonal_zero_trust_auth.Platform.{ClientId, SessionKey, IsClientId}
use zonal_zero_trust_auth.Tlm.{
  TlmStatus, TokenSlot, TokenLifecycleManager, max_anomaly_count, slot_at, validate_token,
  count_anomaly, revoke_token, find_slot_by_client_id, is_locked_out,
}
use zonal_zero_trust_auth.Tlm.Slots.{ended_slot}
use zonal_zero_trust_auth.Tlm.Invariant.{IsValid, IsErased, count_anomaly_frame}
use zonal_zero_trust_auth.Tlm.Invariant.Find.{found, find_first, is_locked_out-some}
use zonal_zero_trust_auth.Tlm.Register.Stages.{order_of}
use zonal_zero_trust_auth.Tlm.Sessions.{validate_token-IsLive}
use zonal_zero_trust_auth.Tlm.Sessions.Valid.{
  revoke_token-some, revoke_token-IsValid, slot_at-revoke_token,
}

module _ (m : TokenLifecycleManager) (v : IsValid m) (x : ClientId) (hx : IsClientId x)
    (is_anomaly : Bool) (idx : ℕ) (e : find_slot_by_client_id m x ≡ some idx) where
  abbrev after : TokenLifecycleManager
  after = (revoke_token m x is_anomaly).1

  slot_after : slot_at after idx ≡ ended_slot (count_anomaly (slot_at m idx) is_anomaly)
  slot_after =
      let self : (idx == idx) ≡ true = ground arith in
      slot_at-revoke_token m v x hx is_anomaly idx e idx ∙ rw self

  -- The identifiers stay, so the same slot is found afterwards.
  pub find-revoke_token : find_slot_by_client_id after x ≡ some idx
  find-revoke_token =
      let (h, id, before) = found m (order_of m) v.table x idx hx e in
      let w = revoke_token-IsValid m v x hx is_anomaly in
      find_first after (order_of after) w.table x idx hx h
        (ap (λ (s : TokenSlot). s.client_id) slot_after
          ∙ (count_anomaly_frame (slot_at m idx) is_anomaly).0
          ∙ id)
        (λ j ji.
          let other : (idx == j) ≡ false = ground arith in
          let same : slot_at after j ≡ slot_at m j =
            slot_at-revoke_token m v x hx is_anomaly idx e j ∙ rw other in
          rw same (before j ji))

  pub revoke_token_lem :
      ((revoke_token m x is_anomaly).0 ≡ TlmStatus.ok)
      × ((slot_at after idx).is_active ≡ false)
      × IsErased (slot_at after idx)
      × ((j : ℕ) → idx ≢ j → slot_at after j ≡ slot_at m j)
      × ((now : ℕ) (out : Option SessionKey)
          → (validate_token after x now out).status ≢ TlmStatus.ok)
  revoke_token_lem =
      let idle = ap (λ (s : TokenSlot). s.is_active) slot_after in
      let w = revoke_token-IsValid m v x hx is_anomaly in
      (
        ap (λ (r : TlmStatus × TokenLifecycleManager). r.0)
            (revoke_token-some m v x hx is_anomaly idx e),
        idle,
        (w.table.slots idx).erased idle,
        λ j ne.
            (let other : (idx == j) ≡ false = ground arith in
              slot_at-revoke_token m v x hx is_anomaly idx e j ∙ rw other),
        λ now out ok. no_session now out ok idle,
      )
    where
      no_session :
          (now : ℕ) (out : Option SessionKey)
          → (validate_token after x now out).status ≡ TlmStatus.ok
          → (slot_at after idx).is_active ≡ false
          → ⊥
      no_session now out ok idle =
          let (k, l) = validate_token-IsLive after x now out ok in
          let same : idx ≡ k = ground (arith, find-revoke_token, l.at_idx) in
          let live : (slot_at after idx).is_active ≡ true =
            subst (λ (n : ℕ). (slot_at after n).is_active ≡ true) (sym same) l.live in
          cc

-- One anomaly raises the counter by one, up to 0xFF, and bars the client from three on.
module _ (m : TokenLifecycleManager) (v : IsValid m) (x : ClientId) (hx : IsClientId x) (idx : ℕ)
    (e : find_slot_by_client_id m x ≡ some idx) where
  counter_after :
      (n : ℕ)
      → n ≤ (slot_at m idx).anomaly_count
      → n ≤ 254
      → suc n ≤ (slot_at (revoke_token m x true).1 idx).anomaly_count
  unfolding count_anomaly
  counter_after n h small =
      let s = slot_after m v x hx true idx e in
      let byte = (v.table.slots idx).byte in rw s (ground arith)

-- The manager after so many anomalies reported for the client, one after the other.
unfoldable pub report_anomalies : TokenLifecycleManager → ClientId → ℕ → TokenLifecycleManager
report_anomalies m x zero = m
report_anomalies m x (suc k) = (revoke_token (report_anomalies m x k) x true).1

pub record Reported (m : TokenLifecycleManager) (x : ClientId) (idx k : ℕ)
    (n : TokenLifecycleManager) : Type 0 where
  pub valid : IsValid n
  pub at_idx : find_slot_by_client_id n x ≡ some idx
  count : k ≤ (slot_at n idx).anomaly_count

pub report_anomalies-Reported :
    (m : TokenLifecycleManager)
    → IsValid m
    → (x : ClientId) → IsClientId x
    → (idx : ℕ) → find_slot_by_client_id m x ≡ some idx
    → (k : ℕ) → k ≤ 255
    → Reported m x idx k (report_anomalies m x k)
unfolding report_anomalies
report_anomalies-Reported m v x hx idx e zero h = record {
  valid = v;
  at_idx = e;
  count = omega arith;
}
report_anomalies-Reported m v x hx idx e (suc k) h =
    let r = report_anomalies-Reported m v x hx idx e k (omega arith) in
    let n = report_anomalies m x k in
    record {
      valid = revoke_token-IsValid n r.valid x hx true;
      at_idx = find-revoke_token n r.valid x hx true idx r.at_idx;
      count = counter_after n r.valid x hx idx r.at_idx k r.count (omega arith);
    }

-- A client that is in the table is locked out once three anomalies, or any number from three to 255,
-- have been reported for it in a row, whatever its counter was before.
pub report_anomalies-is_locked_out :
    (m : TokenLifecycleManager)
    → IsValid m
    → (x : ClientId) → IsClientId x
    → (idx : ℕ) → find_slot_by_client_id m x ≡ some idx
    → (k : ℕ) → max_anomaly_count ≤ k
    → k ≤ 255
    → is_locked_out (report_anomalies m x k) x ≡ true
report_anomalies-is_locked_out m v x hx idx e k low high =
    let r = report_anomalies-Reported m v x hx idx e k high in
    let n = report_anomalies m x k in
    is_locked_out-some n x idx r.at_idx
    ∙ (r.valid.table.slots idx).threshold
    ∙ at_least (slot_at n idx).anomaly_count r.count
  where
    at_least : (c : ℕ) → k ≤ c → leb max_anomaly_count c ≡ true
    at_least c h = ground arith
