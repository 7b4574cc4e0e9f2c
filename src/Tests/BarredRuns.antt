-- ===== src/Tests/BarredRuns.antt =====
-- Three anomalies reported for the all-zero identifier on a fresh manager.
use zonal_zero_trust_auth.Base.{◌<◌, ◌≡◌, true, refl, List, [], ◌∷◌, some, arith, find_index}
use zonal_zero_trust_auth.Platform.{ClientId, IsClientId, client_id_len, zeros}
use zonal_zero_trust_auth.ConstantTime.{same_bytes, diff_bytes}
use zonal_zero_trust_auth.Tlm.{
  max_active_sessions, construct, find_slot_by_client_id, get_active_session_count,
}
use zonal_zero_trust_auth.Tlm.History.{Call, registers, AllTyped, run, construct-IsValid}
use zonal_zero_trust_auth.Tlm.Revoke.{report_anomalies}
use zonal_zero_trust_auth.Tlm.Barred.{run-report_anomalies}
use zonal_zero_trust_auth.Tests.Data.{alice, bob, alice-IsClientId, bob-IsClientId, token_of}

abbrev nobody : ClientId
nobody = zeros client_id_len

nobody-IsClientId : IsClientId nobody
nobody-IsClientId = omega arith

nobody_found : find_slot_by_client_id (construct true) nobody ≡ some 0
unfolding construct find_slot_by_client_id find_index same_bytes diff_bytes
nobody_found = refl

abbrev logins : List Call
logins = registers (token_of alice) 100 ∷ registers (token_of bob) 200 ∷ []

logins-AllTyped : AllTyped logins
logins-AllTyped = (alice-IsClientId, (bob-IsClientId, tt))

run-report_anomalies_example :
    get_active_session_count (run (report_anomalies (construct true) nobody 3) logins)
    < max_active_sessions
run-report_anomalies_example =
    run-report_anomalies (construct true) (construct-IsValid true) nobody nobody-IsClientId 0
      nobody_found 3 (omega arith) (omega arith) logins logins-AllTyped
