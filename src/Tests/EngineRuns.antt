-- ===== src/Tests/EngineRuns.antt =====
-- Runs of one engine on the toy platform: a handshake, and a response with a wrong signature.
use zonal_zero_trust_auth.Base.{◌≡◌, ◌≢◌, refl, List, [], ◌∷◌, some, replicate}
use zonal_zero_trust_auth.Platform.{nonce_len, ecc_signature_len, ecc_public_key_len}
use zonal_zero_trust_auth.ConstantTime.{same_bytes, diff_bytes}
use zonal_zero_trust_auth.Engine.{
  SpdmAuthRequest, SpdmAuthResponse, SpdmStatus, SpdmProtocolEngine, State, construct, reset,
  sanitise_secret_material, find_key, find_peer_public_key, version_matches, supported_version,
  process_auth_request, issue_challenge, process_auth_response, verify_response, derive_token,
  compute_challenge_digest,
}
use zonal_zero_trust_auth.Engine.Handshake.{Accepts}
use zonal_zero_trust_auth.Engine.Handshake.Outcome.{Handled, process_auth_response_lem}
use zonal_zero_trust_auth.Engine.Transitions.{
  Call, requests, responds, resets, step, run, Confirmed, authenticated-Confirmed,
}
use zonal_zero_trust_auth.Engine.Request
use zonal_zero_trust_auth.Engine.Request.{IsTable, process_auth_request_lem}
use zonal_zero_trust_auth.Tests.Data.{alice-IsClientId, bob-IsClientId, alice, peers, token_of, toy}

abbrev hello : SpdmAuthRequest
hello = record { client_id = alice; version = supported_version }

-- The challenge of the toy platform in state 5 is 32 bytes of 5, and so is its digest.
abbrev answer : SpdmAuthResponse
answer = record { client_id = alice; signature = replicate ecc_signature_len 5 }

abbrev forged : SpdmAuthResponse
forged = record { client_id = alice; signature = replicate ecc_signature_len 4 }

unfoldable start : SpdmProtocolEngine
start = construct (some peers) 2

unfoldable initial : toy.State
unfolding toy
initial = 5

unfoldable waiting : SpdmProtocolEngine
unfolding toy
waiting = (process_auth_request toy start hello 5).engine

accepted_status :
    (process_auth_response toy waiting answer (token_of alice) initial).status ≡ SpdmStatus.ok
unfolding toy initial start waiting construct process_auth_request issue_challenge
    process_auth_response verify_response derive_token compute_challenge_digest version_matches
    find_peer_public_key find_key same_bytes diff_bytes
accepted_status = refl

answer-Accepts :
    Accepts toy waiting answer initial
      (replicate ecc_public_key_len 2)
      (replicate nonce_len 5)
      initial
unfolding toy initial start waiting construct process_auth_request issue_challenge
    process_auth_response verify_response derive_token compute_challenge_digest version_matches
    find_peer_public_key find_key same_bytes diff_bytes
answer-Accepts = record {
  digest = replicate nonce_len 5;
  s1 = initial;
  s2 = initial;
  waiting = refl;
  same_client = refl;
  known = refl;
  hashed = refl;
  signed = refl;
  derived = refl;
}

process_auth_response_lem_example :
    Handled toy waiting answer
      (token_of alice)
      initial
      (process_auth_response toy waiting answer (token_of alice) initial)
process_auth_response_lem_example =
    process_auth_response_lem toy waiting answer (token_of alice) initial

forged_status :
    (process_auth_response toy waiting forged (token_of alice) initial).status
    ≡ SpdmStatus.signature_invalid
unfolding toy initial start waiting construct process_auth_request issue_challenge
    process_auth_response verify_response derive_token compute_challenge_digest version_matches
    find_peer_public_key find_key same_bytes diff_bytes
forged_status = refl

start-IsTable : IsTable start.peer_table
unfolding start construct
start-IsTable = (alice-IsClientId, (bob-IsClientId, tt))

process_auth_request_lem_example :
    Request.Answered toy start hello initial (process_auth_request toy start hello initial)
process_auth_request_lem_example =
    process_auth_request_lem toy start hello initial refl alice-IsClientId start-IsTable

abbrev handshake : List Call
handshake = resets ∷ requests hello ∷ responds answer (token_of alice) ∷ []

start_fresh : start.state ≢ State.authenticated
unfolding toy initial start waiting construct process_auth_request issue_challenge
    process_auth_response verify_response derive_token compute_challenge_digest version_matches
    find_peer_public_key find_key same_bytes diff_bytes
start_fresh e = cc

handshake_done : (run toy (start, initial) handshake).0.state ≡ State.authenticated
unfolding toy initial start waiting construct process_auth_request issue_challenge
    process_auth_response verify_response derive_token compute_challenge_digest version_matches
    find_peer_public_key find_key same_bytes diff_bytes run step reset sanitise_secret_material
handshake_done = refl

authenticated-Confirmed_example : Confirmed toy (start, initial) handshake
authenticated-Confirmed_example =
    authenticated-Confirmed toy start initial handshake start_fresh handshake_done
