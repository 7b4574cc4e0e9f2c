-- ===== src/Tests/ReplayRuns.antt =====
-- Alice logs in on the toy platform, and her response is sent a second time.
use zonal_zero_trust_auth.Base.{
  ◌+◌, ◌≤◌, ◌≡◌, bit, refl, List, [], ◌∷◌, ◌++◌, true, false, some, replicate, arith, find_index,
}
use zonal_zero_trust_auth.Platform.{ecc_signature_len}
use zonal_zero_trust_auth.ConstantTime.{same_bytes, diff_bytes, is_zero, or_bytes}
use zonal_zero_trust_auth.Engine
use zonal_zero_trust_auth.Engine.{
  supported_version, sanitise_secret_material, find_key, find_peer_public_key, version_matches,
  process_auth_request, issue_challenge, process_auth_response, verify_response, derive_token,
  compute_challenge_digest, is_challenge_sent,
}
use zonal_zero_trust_auth.Tlm
use zonal_zero_trust_auth.Tlm.{
  register_token, find_slot_by_client_id, find_free_slot, place, admit, expire_existing,
  revoke_token, count_anomaly, end_session, zero_slot_secrets, set_inactive, forget_order,
  notify_revocation,
}
use zonal_zero_trust_auth.Adaptor.{
  construct, find_slot, find_free_engine_slot, on_peer_offered, transmit_challenge, forward_request,
  on_auth_request, register_session, complete_handshake, on_auth_response, engine_at,
}
use zonal_zero_trust_auth.Adaptor.Events.{Event, offers, requests, responds, AllTyped, step, run}
use zonal_zero_trust_auth.Adaptor.Replay.{challenged, admitted, admitted-challenged}
use zonal_zero_trust_auth.Tests.Data.{alice, alice-IsClientId, peers, toy}

abbrev replay : List Event
replay =
    offers alice
    ∷ requests (some (alice ++ supported_version))
    ∷ responds (some (alice ++ replicate ecc_signature_len 5)) 100
    ∷ responds (some (alice ++ replicate ecc_signature_len 5)) 200
    ∷ []

replay-AllTyped : AllTyped replay
replay-AllTyped = (alice-IsClientId, (omega arith, (omega arith, (omega arith, tt))))

unfoldable initial : toy.State
unfolding toy
initial = 5

-- One challenge, one admission: the second response is refused.
replay_counts :
    let a = construct toy initial (some peers) 2 true false in
    (challenged toy 0 a replay ≡ 1) × (admitted toy 0 a replay ≡ 1)
unfolding toy initial construct challenged admitted run step on_peer_offered find_slot
    find_free_engine_slot on_auth_request forward_request transmit_challenge on_auth_response
    complete_handshake register_session Engine.construct Engine.reset sanitise_secret_material
    find_key find_peer_public_key version_matches process_auth_request issue_challenge
    process_auth_response verify_response derive_token compute_challenge_digest Tlm.construct
    Tlm.is_locked_out register_token find_slot_by_client_id find_free_slot place admit
    expire_existing find_index same_bytes diff_bytes is_zero or_bytes
replay_counts = (refl, refl)

admitted-challenged_example :
    let a = construct toy initial (some peers) 2 true false in
    admitted toy 0 a replay + bit (is_challenge_sent (engine_at toy (run toy a replay) 0).state)
    ≤ challenged toy 0 a replay
admitted-challenged_example =
    admitted-challenged toy (some peers) 2 0 initial true false replay replay-AllTyped
