-- ===== src/Tests/AvailabilityRuns.antt =====
-- Two clients on the toy platform: Bob logs in, misbehaves and is revoked while Alice is served.
use zonal_zero_trust_auth.Base.{
  ◌≡◌, refl, List, [], ◌∷◌, ◌++◌, true, false, none, some, replicate, arith, inr,
}
use zonal_zero_trust_auth.Platform.{ecc_signature_len, ecc_public_key_len, session_key_len, zeros}
use zonal_zero_trust_auth.ConstantTime.{is_zero, or_bytes}
use zonal_zero_trust_auth.Engine.{supported_version}
use zonal_zero_trust_auth.Adaptor.{Adaptor, on_auth_request, on_auth_response}
use zonal_zero_trust_auth.Adaptor.Valid.{IsValid}
use zonal_zero_trust_auth.Adaptor.Events.{
  Event, offers, requests, responds, ticks, queries, revokes, AllTyped, step, run,
}
use zonal_zero_trust_auth.Adaptor.Hooks.{run-IsValid, construct-IsValid}
use zonal_zero_trust_auth.Adaptor.Housing.{AllNamed, IsCovered}
use zonal_zero_trust_auth.Adaptor.Housing.History.{run-IsCovered, construct-IsCovered}
use zonal_zero_trust_auth.Adaptor.Availability.{AllSpare, run-Opens}
use zonal_zero_trust_auth.Adaptor.Availability.Login.{MayEnter, login_lasts}
use zonal_zero_trust_auth.Adaptor.Login.{responded, responded-Holds, agreed}
use zonal_zero_trust_auth.Adaptor.Login.Register.{IsOpen}
use zonal_zero_trust_auth.Adaptor.Spec.{apply_all, effects}
use zonal_zero_trust_auth.Adaptor.Spec.Answers.{GateAnswers}
use zonal_zero_trust_auth.Adaptor.Spec.Refine.{run-construct-sessions}
use zonal_zero_trust_auth.Adaptor.Request
use zonal_zero_trust_auth.Adaptor.Request.{on_auth_request_lem}
use zonal_zero_trust_auth.Adaptor.Response
use zonal_zero_trust_auth.Adaptor.Response.{on_auth_response_lem}
use zonal_zero_trust_auth.Tlm.Spec.View.{sessions}
use zonal_zero_trust_auth.Tests.Data.{alice, bob, alice-IsClientId, bob-IsClientId, peers, toy}
use zonal_zero_trust_auth.Tests.GateRuns.{events, events-AllTyped}
use zonal_zero_trust_auth.Tests.LoginRuns.{start, nonce, signature, alice-MayLogIn, toy-Serves}

-- What Bob does: he logs in, sends a wrong response, and is revoked with an anomaly.
abbrev pub others : List Event
others =
    offers bob
    ∷ requests (some (bob ++ supported_version))
    ∷ responds (some (bob ++ replicate ecc_signature_len 6)) 200
    ∷ responds (some (bob ++ replicate ecc_signature_len 0)) 300
    ∷ ticks 20000
    ∷ queries alice 20500 none
    ∷ revokes bob true
    ∷ []

pub others-AllTyped : AllTyped others
others-AllTyped = (
  bob-IsClientId,
  (omega arith, (omega arith, (omega arith, (tt, (alice-IsClientId, (bob-IsClientId, tt)))))),
)

pub others-AllNamed : AllNamed others
unfolding is_zero or_bytes
others-AllNamed = (tt, (tt, (tt, (tt, (tt, (tt, (refl, tt)))))))

others-AllSpare : AllSpare alice 100 others
others-AllSpare =
    (tt, (tt, ((λ q. cc), ((λ q. cc), (omega arith, (inr (omega arith), ((λ q. cc), tt)))))))

pub start-IsValid : IsValid toy (some peers) 2 start
unfolding start
start-IsValid = construct-IsValid toy (some peers) 2 5 true false

pub start-IsCovered : IsCovered toy start
unfolding start
start-IsCovered = construct-IsCovered toy (some peers) 2 5 true false

alice-MayEnter : MayEnter toy (some peers) 2 start alice (replicate ecc_public_key_len 2)
alice-MayEnter =
    let may = alice-MayLogIn in
    record {
      not_zero = may.not_zero;
      not_barred = may.not_barred;
      slot = may.slot;
      has_slot = may.has_slot;
      known = may.known;
    }

login_lasts_example :
    IsOpen toy
      (run toy (responded toy (some peers) 2 start alice signature 100).1 others)
      alice
      nonce
      25000
      (zeros session_key_len)
login_lasts_example =
    (login_lasts toy (some peers) 2 start start-IsValid start-IsCovered alice alice-IsClientId
        (replicate ecc_public_key_len 2) alice-MayEnter signature (omega arith) nonce nonce
        toy-Serves 100 others others-AllTyped others-AllNamed others-AllSpare).4
      25000 (zeros session_key_len) (omega arith)

abbrev busy : List Event
busy = events ++ others

busy-AllTyped : AllTyped busy
busy-AllTyped = (events-AllTyped.0, (events-AllTyped.1.0, (events-AllTyped.1.1.0, others-AllTyped)))

busy-AllNamed : AllNamed busy
busy-AllNamed = (tt, (tt, (tt, others-AllNamed)))

run-construct-sessions_example :
    let a = run toy start busy in
    let l = apply_all (effects toy start busy) [] in
    (sessions a.tlm ≡ l) × GateAnswers toy a alice 21000 (zeros session_key_len) l
unfolding start
run-construct-sessions_example =
    run-construct-sessions toy (some peers) 2 5 true false busy busy-AllTyped busy-AllNamed alice
      alice-IsClientId 21000 (zeros session_key_len)

-- The adaptor after the history.
abbrev served : Adaptor toy
served = run toy start busy

served-IsValid : IsValid toy (some peers) 2 served
served-IsValid = run-IsValid toy (some peers) 2 start busy busy-AllTyped start-IsValid

served-IsCovered : IsCovered toy served
served-IsCovered =
    run-IsCovered toy (some peers) 2 busy busy-AllTyped busy-AllNamed start start-IsValid
      start-IsCovered

on_auth_response_lem_example :
    Response.Answered toy served
      (some (alice ++ signature))
      22000
      (on_auth_response toy served (some (alice ++ signature)) 22000)
on_auth_response_lem_example =
    on_auth_response_lem toy (some peers) 2 served served-IsValid served-IsCovered
      (some (alice ++ signature)) 22000 (omega arith)

on_auth_request_lem_example :
    Request.Answered toy served
      (some (alice ++ supported_version))
      (on_auth_request toy served (some (alice ++ supported_version)))
on_auth_request_lem_example =
    on_auth_request_lem toy (some peers) 2 served served-IsValid (some (alice ++ supported_version))

-- Alice logged in.
abbrev logged_in : Adaptor toy
logged_in = (responded toy (some peers) 2 start alice signature 100).1

logged_in-IsValid : IsValid toy (some peers) 2 logged_in
unfolding run step
logged_in-IsValid = run-IsValid toy (some peers) 2 start events events-AllTyped start-IsValid

logged_in-IsCovered : IsCovered toy logged_in
unfolding run step
logged_in-IsCovered =
    run-IsCovered toy (some peers) 2 events events-AllTyped (tt, (tt, (tt, tt))) start start-IsValid
      start-IsCovered

run-Opens_example : IsOpen toy (run toy logged_in others) alice nonce 25000 (zeros session_key_len)
run-Opens_example =
    run-Opens toy (some peers) 2 (agreed toy (some peers) 2 alice nonce nonce) 100 alice-IsClientId
      others others-AllTyped others-AllNamed others-AllSpare logged_in logged_in-IsValid
      logged_in-IsCovered
      (responded-Holds toy (some peers) 2 start start-IsValid alice alice-IsClientId
        (replicate ecc_public_key_len 2) alice-MayLogIn signature (omega arith) nonce nonce
        toy-Serves 100).4
      25000 (zeros session_key_len) (omega arith)
