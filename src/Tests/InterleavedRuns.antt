-- ===== src/Tests/InterleavedRuns.antt =====
-- Alice and Bob log in at the same time on the toy platform.
use zonal_zero_trust_auth.Base.{
  ◌≡◌, refl, List, [], ◌∷◌, ◌++◌, false, some, replicate, arith, find_index,
}
use zonal_zero_trust_auth.Platform.{Bytes, ecc_signature_len}
use zonal_zero_trust_auth.ConstantTime.{same_bytes, diff_bytes, is_zero, or_bytes}
use zonal_zero_trust_auth.Engine
use zonal_zero_trust_auth.Engine.{
  SpdmStatus, supported_version, sanitise_secret_material, find_key, find_peer_public_key,
  version_matches, process_auth_request, issue_challenge, process_auth_response, verify_response,
  derive_token, compute_challenge_digest,
}
use zonal_zero_trust_auth.Tlm
use zonal_zero_trust_auth.Tlm.{is_locked_out, find_slot_by_client_id}
use zonal_zero_trust_auth.Tlm.Register.Outcome.{Holds}
use zonal_zero_trust_auth.Adaptor.{
  AdaptorStatus, Adaptor, construct, find_slot, find_free_engine_slot, on_peer_offered,
  transmit_challenge, forward_request, on_auth_request, on_auth_response, engine_at,
  decode_response, empty_token,
}
use zonal_zero_trust_auth.Adaptor.Valid.{IsValid}
use zonal_zero_trust_auth.Adaptor.Events.{Event, offers, requests, AllTyped, step, run}
use zonal_zero_trust_auth.Adaptor.Hooks.{run-IsValid}
use zonal_zero_trust_auth.Adaptor.Housing.{IsCovered}
use zonal_zero_trust_auth.Adaptor.Housing.History.{run-IsCovered}
use zonal_zero_trust_auth.Adaptor.Interleaved.{run-on_auth_response}
use zonal_zero_trust_auth.Tests.Data.{alice, bob, alice-IsClientId, bob-IsClientId, peers, toy}
use zonal_zero_trust_auth.Tests.LoginRuns.{start}
use zonal_zero_trust_auth.Tests.AvailabilityRuns.{start-IsValid, start-IsCovered}

abbrev asks_alice : List Event
asks_alice = offers alice ∷ requests (some (alice ++ supported_version)) ∷ []

abbrev asks_bob : List Event
asks_bob = offers bob ∷ requests (some (bob ++ supported_version)) ∷ []

-- Alice has her challenge.
unfoldable waiting : Adaptor toy
waiting = run toy start asks_alice

asks_alice-AllTyped : AllTyped asks_alice
asks_alice-AllTyped = (alice-IsClientId, (omega arith, tt))

waiting-IsValid : IsValid toy (some peers) 2 waiting
unfolding waiting
waiting-IsValid = run-IsValid toy (some peers) 2 start asks_alice asks_alice-AllTyped start-IsValid

waiting-IsCovered : IsCovered toy waiting
unfolding waiting
waiting-IsCovered =
    run-IsCovered toy (some peers) 2 asks_alice asks_alice-AllTyped (tt, (tt, tt)) start
      start-IsValid start-IsCovered

waiting-slot : (find_slot toy waiting alice ≡ some 0) × (is_locked_out waiting.tlm alice ≡ false)
unfolding waiting toy start construct run step on_peer_offered find_slot find_free_engine_slot
    on_auth_request forward_request transmit_challenge Engine.construct Engine.reset
    sanitise_secret_material find_key find_peer_public_key version_matches process_auth_request
    issue_challenge Tlm.construct is_locked_out find_slot_by_client_id find_index same_bytes
    diff_bytes is_zero or_bytes
waiting-slot = (refl, refl)

abbrev payload : Bytes
payload = alice ++ replicate ecc_signature_len 5

-- Alice's engine accepts her response, on the platform as Bob's calls leave it.
accepted :
    (process_auth_response toy
      (engine_at toy waiting 0)
      (decode_response payload)
      empty_token
      (run toy waiting asks_bob).platform).status
    ≡ SpdmStatus.ok
unfolding waiting toy start construct run step on_peer_offered find_slot find_free_engine_slot
    on_auth_request forward_request transmit_challenge Engine.construct Engine.reset
    sanitise_secret_material find_key find_peer_public_key version_matches process_auth_request
    issue_challenge process_auth_response verify_response derive_token compute_challenge_digest
    Tlm.construct is_locked_out find_slot_by_client_id find_index same_bytes diff_bytes is_zero
    or_bytes
accepted = refl

run-on_auth_response_example :
    let b = run toy waiting asks_bob in
    let done =
      process_auth_response toy
        (engine_at toy waiting 0)
        (decode_response payload)
        empty_token
        b.platform in
    let out = on_auth_response toy b (some payload) 100 in
    (out.0 ≡ AdaptorStatus.ok) × (done.token.client_id ≡ alice) × Holds out.1.tlm done.token 100
run-on_auth_response_example =
    run-on_auth_response toy (some peers) 2 alice alice-IsClientId asks_bob
      (bob-IsClientId, (omega arith, tt)) (tt, (tt, tt)) ((λ q. cc), ((λ q. cc), tt)) waiting 0
      waiting-IsValid waiting-IsCovered (waiting-slot.0) (waiting-slot.1) payload 100 (omega arith)
      (omega arith) refl accepted
