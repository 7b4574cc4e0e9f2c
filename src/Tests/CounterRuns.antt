-- ===== src/Tests/CounterRuns.antt =====
-- The counter of a slot survives its client: Alice is reported twice, and Bob, who gets her slot, is
-- locked out by his first anomaly.
use zonal_zero_trust_auth.Base.{◌+◌, ◌≡◌, refl, List, [], ◌∷◌, true, false, arith, find_index}
use zonal_zero_trust_auth.ConstantTime.{same_bytes, diff_bytes, is_zero, or_bytes}
use zonal_zero_trust_auth.Tlm.{
  TokenLifecycleManager, slot_at, construct, register_token, revoke_token, is_locked_out,
  find_slot_by_client_id, find_free_slot, place, admit, expire_existing, end_session,
  zero_slot_secrets, set_inactive, forget_order, notify_revocation, count_anomaly,
}
use zonal_zero_trust_auth.Tlm.Invariant.{IsValid}
use zonal_zero_trust_auth.Tlm.Register.Outcome.{Holds}
use zonal_zero_trust_auth.Tlm.History.{
  Call, registers, revokes, AllTyped, step, run, run-construct-IsValid, construct-IsValid,
}
use zonal_zero_trust_auth.Tlm.Counter.{saturate, hits, run-anomaly_count, register_token-inherits}
use zonal_zero_trust_auth.Tests.Data.{alice, bob, alice-IsClientId, bob-IsClientId, token_of}

abbrev reports : List Call
reports =
    registers (token_of alice) 100
    ∷ revokes alice true
    ∷ revokes alice false
    ∷ revokes alice true
    ∷ []

reports-AllTyped : AllTyped reports
reports-AllTyped =
    (alice-IsClientId, (alice-IsClientId, (alice-IsClientId, (alice-IsClientId, tt))))

unfoldable reported : TokenLifecycleManager
reported = run (construct true) reports

reported-IsValid : IsValid reported
unfolding reported
reported-IsValid = run-construct-IsValid true reports reports-AllTyped

run-anomaly_count_example :
    (slot_at (run (construct true) reports) 0).anomaly_count
    ≡ saturate ((slot_at (construct true) 0).anomaly_count + hits 0 (construct true) reports)
run-anomaly_count_example =
    run-anomaly_count reports reports-AllTyped (construct true) (construct-IsValid true) 0
      (omega arith)

two_hits : hits 0 (construct true) reports ≡ 2
unfolding hits step construct register_token revoke_token is_locked_out find_slot_by_client_id
    find_free_slot place admit expire_existing end_session zero_slot_secrets set_inactive
    forget_order notify_revocation count_anomaly find_index same_bytes diff_bytes is_zero or_bytes
two_hits = refl

bob-Holds : Holds (register_token reported (token_of bob) 200).1 (token_of bob) 200
unfolding reported run step construct register_token revoke_token is_locked_out
    find_slot_by_client_id find_free_slot place admit expire_existing end_session zero_slot_secrets
    set_inactive forget_order notify_revocation count_anomaly find_index same_bytes diff_bytes
    is_zero or_bytes
bob-Holds = record {
  idx = 0;
  at_idx = refl;
  live = refl;
  unlocked = refl;
  key = refl;
  nonce = refl;
  issued = refl;
}

two_counted : (slot_at reported 0).anomaly_count ≡ 2
unfolding reported run step construct register_token revoke_token is_locked_out
    find_slot_by_client_id find_free_slot place admit expire_existing end_session zero_slot_secrets
    set_inactive forget_order notify_revocation count_anomaly find_index same_bytes diff_bytes
    is_zero or_bytes
two_counted = refl

register_token-inherits_example :
    is_locked_out (revoke_token (register_token reported (token_of bob) 200).1 bob true).1 bob
    ≡ true
unfolding bob-Holds
register_token-inherits_example =
    register_token-inherits reported reported-IsValid (token_of bob) 200 bob-IsClientId bob-Holds
      (omega (arith, two_counted))
