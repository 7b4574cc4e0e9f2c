-- ===== src/Tests/PoolRuns.antt =====
-- The pool of the toy adaptor: Alice keeps her slot, and an offer of Bob leaves her engine alone.
use mathlib.Core.Path.{subst}
use zonal_zero_trust_auth.Base.{true, ◌≡◌, refl, some, arith, find_index}
use zonal_zero_trust_auth.Platform.{ClientId}
use zonal_zero_trust_auth.ConstantTime.{same_bytes, diff_bytes, is_zero, or_bytes}
use zonal_zero_trust_auth.Engine
use zonal_zero_trust_auth.Engine.{
  spdm_auth_request_len, spdm_auth_response_len, sanitise_secret_material, find_key,
  find_peer_public_key, version_matches, process_auth_request, issue_challenge,
  process_auth_response, verify_response, derive_token, compute_challenge_digest,
}
use zonal_zero_trust_auth.Tlm
use zonal_zero_trust_auth.Tlm.{
  register_token, find_slot_by_client_id, find_free_slot, place, admit, expire_existing,
}
use zonal_zero_trust_auth.Adaptor.{
  pool_fits, construct, find_slot, find_free_engine_slot, on_peer_offered, transmit_challenge,
  forward_request, on_auth_request, register_session, complete_handshake, on_auth_response,
  engine_at,
}
use zonal_zero_trust_auth.Adaptor.Events.{offers, step, run}
use zonal_zero_trust_auth.Adaptor.Pool.{record_at}
use zonal_zero_trust_auth.Adaptor.Pool.Bindings.{step_isolated, IsOwn}
use zonal_zero_trust_auth.Tests.Data.{bob, toy}
use zonal_zero_trust_auth.Tests.GateRuns.{events, fresh, initial}

pool_fits_run : pool_fits ≡ true
pool_fits_run = refl

bob_slot : find_slot toy (step toy (run toy fresh events) (offers bob)) bob ≡ some 1
unfolding toy initial fresh construct run step on_peer_offered find_slot find_free_engine_slot
    on_auth_request forward_request transmit_challenge on_auth_response complete_handshake
    register_session Engine.construct Engine.reset sanitise_secret_material find_key
    find_peer_public_key version_matches process_auth_request issue_challenge process_auth_response
    verify_response derive_token compute_challenge_digest Tlm.construct Tlm.is_locked_out
    register_token find_slot_by_client_id find_free_slot place admit expire_existing find_index
    same_bytes diff_bytes is_zero or_bytes
bob_slot = refl

bob_elsewhere : ¬ IsOwn toy (run toy fresh events) (offers bob) 0
bob_elsewhere (x, q, s) =
    let same : bob ≡ x = ground arith in
    let other : find_slot toy (step toy (run toy fresh events) (offers bob)) x ≡ some 1 =
      subst
        (λ (y : ClientId). find_slot toy (step toy (run toy fresh events) (offers bob)) y ≡ some 1)
        same bob_slot in
    absurd (ground arith)

step_isolated_example :
    let a = run toy fresh events in
    (engine_at toy (step toy a (offers bob)) 0 ≡ engine_at toy a 0)
    × (record_at toy (step toy a (offers bob)) 0 ≡ record_at toy a 0)
step_isolated_example = step_isolated toy (run toy fresh events) (offers bob) 0 bob_elsewhere
