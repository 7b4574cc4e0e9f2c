-- ===== src/Tests/TlmRuns.antt =====
-- Runs of the session manager: two clients register, one of them is reported three times.
use zonal_zero_trust_auth.Base.{
  ℕ, ◌≡◌, ◌≢◌, ◌<◌, ◌⊎◌, ◌++◌, refl, List, [], ◌∷◌, true, none, if◌then◌else◌, find_index,
}
use zonal_zero_trust_auth.ConstantTime.{same_bytes, diff_bytes, is_zero, or_bytes}
use zonal_zero_trust_auth.Tlm.{
  TlmStatus, TokenLifecycleManager, max_active_sessions, slot_at, put_slot, construct,
  register_token, validate_token, validate_slot, revoke_token, evaluate_token_expiry, is_locked_out,
  find_slot_by_client_id, find_free_slot, place, admit, expire_existing, end_session,
  zero_slot_secrets, set_inactive, forget_order, notify_revocation, count_anomaly,
}
use zonal_zero_trust_auth.Tlm.Invariant.{IsValid}
use zonal_zero_trust_auth.Tlm.Register.Outcome.{Registered, register_token_lem}
use zonal_zero_trust_auth.Tlm.Sessions.{IsLive, validate_token_lem}
use zonal_zero_trust_auth.Tlm.Expiry.{swept, stale_ids, evaluate_token_expiry_lem}
use zonal_zero_trust_auth.Tlm.History.{
  Call, registers, validates, revokes, AllTyped, step, run, run-IsValid, run-construct-IsValid,
}
use zonal_zero_trust_auth.Tests.Data.{alice, bob, alice-IsClientId, bob-IsClientId, token_of}

abbrev calls : List Call
calls =
    registers (token_of alice) 100
    ∷ registers (token_of bob) 200
    ∷ validates alice 300 none
    ∷ revokes bob true
    ∷ []

calls-AllTyped : AllTyped calls
calls-AllTyped = (alice-IsClientId, (bob-IsClientId, (alice-IsClientId, (bob-IsClientId, tt))))

-- Alice has a live session, Bob's was revoked.
unfoldable pub served : TokenLifecycleManager
served = run (construct true) calls

pub served-IsValid : IsValid served
unfolding served
served-IsValid = run-construct-IsValid true calls calls-AllTyped

run-construct-IsValid_example : IsValid (run (construct true) calls)
run-construct-IsValid_example = run-construct-IsValid true calls calls-AllTyped

register_token_lem_example :
    Registered (token_of bob) 300 bob-IsClientId served (register_token served (token_of bob) 300)
register_token_lem_example =
    register_token_lem (token_of bob) 300 bob-IsClientId served served-IsValid

validate_token_lem_example :
    let r = validate_token served bob 20000 none in
    ((idx : ℕ) × IsLive served bob 20000 idx
      × (r.status ≡ TlmStatus.ok)
      × (r.key_out ≡ none)
      × (r.manager ≡ put_slot served idx (record (slot_at served idx) { last_seen_ms = 20000 })))
    ⊎ (¬ ((idx : ℕ) × IsLive served bob 20000 idx)) × (r.status ≢ TlmStatus.ok) × (r.key_out ≡ none)
validate_token_lem_example = validate_token_lem served bob 20000 none

abbrev anomalies : List Call
anomalies = revokes bob true ∷ revokes bob true ∷ revokes bob true ∷ []

unfoldable barred : TokenLifecycleManager
barred = run served anomalies

barred-is_locked_out : is_locked_out barred bob ≡ true
unfolding barred served run step construct register_token validate_token validate_slot revoke_token
    is_locked_out find_slot_by_client_id find_free_slot place admit expire_existing end_session
    zero_slot_secrets set_inactive forget_order notify_revocation count_anomaly find_index
    same_bytes diff_bytes is_zero or_bytes
barred-is_locked_out = refl

barred-IsValid : IsValid barred
unfolding barred
barred-IsValid =
    run-IsValid served anomalies (bob-IsClientId, (bob-IsClientId, (bob-IsClientId, tt)))
      served-IsValid

evaluate_token_expiry_lem_example :
    let r = evaluate_token_expiry served 40000 in
    IsValid r
    × ((j : ℕ) → j < max_active_sessions → slot_at r j ≡ swept 40000 (slot_at served j))
    × (r.notified ≡ (
        if served.has_callback
        then served.notified ++ stale_ids 40000 served max_active_sessions
        else served.notified))
evaluate_token_expiry_lem_example = evaluate_token_expiry_lem 40000 served served-IsValid
