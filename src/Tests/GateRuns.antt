-- ===== src/Tests/GateRuns.antt =====
-- Runs of the adaptor on the toy platform: a peer is offered, asks, answers and is let through.
use zonal_zero_trust_auth.Base.{
  ◌≡◌, ◌≢◌, refl, List, [], ◌∷◌, ◌++◌, true, false, some, replicate, arith, find_index,
}
use zonal_zero_trust_auth.Platform.{SessionKey, ecc_signature_len, session_key_len, zeros}
use zonal_zero_trust_auth.ConstantTime.{same_bytes, diff_bytes, is_zero, or_bytes}
use zonal_zero_trust_auth.Engine
use zonal_zero_trust_auth.Engine.{
  supported_version, sanitise_secret_material, find_key, find_peer_public_key, version_matches,
  process_auth_request, issue_challenge, process_auth_response, verify_response, derive_token,
  compute_challenge_digest,
}
use zonal_zero_trust_auth.Tlm
use zonal_zero_trust_auth.Tlm.{
  register_token, validate_token, validate_slot, find_slot_by_client_id, find_free_slot, place,
  admit, expire_existing, revoke_token, count_anomaly, end_session, zero_slot_secrets, set_inactive,
  forget_order, notify_revocation,
}
use zonal_zero_trust_auth.Adaptor.{
  AdaptorStatus, Adaptor, construct, find_slot, find_free_engine_slot, on_peer_offered,
  transmit_challenge, forward_request, on_auth_request, register_session, complete_handshake,
  on_auth_response, is_session_active, revoke_session, revoke_engine,
}
use zonal_zero_trust_auth.Adaptor.Valid.{IsValid}
use zonal_zero_trust_auth.Adaptor.Events.{
  Event, offers, requests, responds, revokes, AllTyped, step, run,
}
use zonal_zero_trust_auth.Adaptor.Hooks.{run-IsValid, construct-IsValid}
use zonal_zero_trust_auth.Adaptor.Lockout.{run-is_locked_out-is_session_active}
use zonal_zero_trust_auth.Adaptor.Gate.{
  IsAdmitted, run-is_session_active, revoke_session-is_session_active,
}
use zonal_zero_trust_auth.Tests.Data.{alice, alice-IsClientId, peers, toy}

abbrev pub events : List Event
events =
    offers alice
    ∷ requests (some (alice ++ supported_version))
    ∷ responds (some (alice ++ replicate ecc_signature_len 5)) 100
    ∷ []

pub events-AllTyped : AllTyped events
events-AllTyped = (alice-IsClientId, (omega arith, (omega arith, tt)))

unfoldable pub initial : toy.State
unfolding toy
initial = 5

unfoldable pub fresh : Adaptor toy
fresh = construct toy initial (some peers) 2 true false

unfoldable old : SessionKey
old = zeros session_key_len

alice_status :
    (is_session_active toy (run toy fresh events) alice 20000 (some old)).0 ≡ AdaptorStatus.ok
unfolding toy initial fresh old construct run step on_peer_offered find_slot find_free_engine_slot
    on_auth_request forward_request transmit_challenge on_auth_response complete_handshake
    register_session is_session_active Engine.construct Engine.reset sanitise_secret_material
    find_key find_peer_public_key version_matches process_auth_request issue_challenge
    process_auth_response verify_response derive_token compute_challenge_digest Tlm.construct
    Tlm.is_locked_out register_token validate_token validate_slot find_slot_by_client_id
    find_free_slot place admit expire_existing find_index same_bytes diff_bytes is_zero or_bytes
alice_status = refl

run-is_session_active_example :
    (session : SessionKey) × ((is_session_active toy
        (run toy fresh events)
        alice
        20000
        (some old)).1
      ≡ some session)
    × IsAdmitted toy (some peers) 2 (run toy fresh events) alice 20000 session
unfolding fresh
run-is_session_active_example =
    run-is_session_active toy (some peers) 2 initial true false events events-AllTyped alice
      alice-IsClientId 20000 old alice_status

events-IsValid : IsValid toy (some peers) 2 (run toy fresh events)
unfolding fresh
events-IsValid =
    run-IsValid toy (some peers) 2 fresh events events-AllTyped
      (construct-IsValid toy (some peers) 2 initial true false)

revoke_session-is_session_active_example :
    (is_session_active toy
      (revoke_session toy (run toy fresh events) alice true).1
      alice
      20000
      (some old)).0
    ≢ AdaptorStatus.ok
revoke_session-is_session_active_example =
    revoke_session-is_session_active toy (some peers) 2 (run toy fresh events) events-IsValid alice
      alice-IsClientId true 20000 (some old)

abbrev anomalies : List Event
anomalies = revokes alice true ∷ revokes alice true ∷ revokes alice true ∷ []

unfoldable barred : Adaptor toy
barred = run toy (run toy fresh events) anomalies

barred-IsValid : IsValid toy (some peers) 2 barred
unfolding barred
barred-IsValid =
    run-IsValid toy (some peers) 2 (run toy fresh events) anomalies
      (alice-IsClientId, (alice-IsClientId, (alice-IsClientId, tt))) events-IsValid

barred-is_locked_out : Tlm.is_locked_out barred.tlm alice ≡ true
unfolding toy barred initial fresh construct run step on_peer_offered find_slot
    find_free_engine_slot on_auth_request forward_request transmit_challenge on_auth_response
    complete_handshake register_session revoke_session revoke_engine Engine.construct Engine.reset
    Engine.revoke sanitise_secret_material find_key find_peer_public_key version_matches
    process_auth_request issue_challenge process_auth_response verify_response derive_token
    compute_challenge_digest Tlm.construct Tlm.is_locked_out register_token revoke_token
    count_anomaly end_session zero_slot_secrets set_inactive forget_order notify_revocation
    find_slot_by_client_id find_free_slot place admit expire_existing find_index same_bytes
    diff_bytes is_zero or_bytes
barred-is_locked_out = refl

run-is_locked_out-is_session_active_example :
    is_session_active toy (run toy barred events) alice 20000 (some old)
    ≡ (AdaptorStatus.locked_out, some old, run toy barred events)
run-is_locked_out-is_session_active_example =
    run-is_locked_out-is_session_active toy (some peers) 2 events events-AllTyped barred
      barred-IsValid alice alice-IsClientId barred-is_locked_out 20000 (some old)
