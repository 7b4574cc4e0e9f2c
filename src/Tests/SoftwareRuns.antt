-- ===== src/Tests/SoftwareRuns.antt =====
-- A login of a peer with the mock key on the software provider.
use zonal_zero_trust_auth.Base.{
  ◌≡◌, refl, sym, ◌∙◌, List, [], ◌∷◌, ◌++◌, Option, none, some, if◌then◌else◌, inl, inr, true,
  false, arith, find_index, Bool-cases,
}
use zonal_zero_trust_auth.Platform.{
  ClientId, Nonce, EccPublicKey, IsArray, ecc_public_key_len, ecc_signature_len, session_key_len,
  client_id_len, zeros,
}
use zonal_zero_trust_auth.ConstantTime.{same_bytes, diff_bytes, is_zero, or_bytes}
use zonal_zero_trust_auth.Engine
use zonal_zero_trust_auth.Engine.{KnownPeerEntry, find_key, find_peer_public_key, supported_version}
use zonal_zero_trust_auth.Tlm
use zonal_zero_trust_auth.Tlm.{find_slot_by_client_id}
use zonal_zero_trust_auth.Crypto.Constants.{mock_ecc_public_key}
use zonal_zero_trust_auth.Crypto.Bounds.{IsArray-append}
use zonal_zero_trust_auth.Crypto.Provider.{software_provider}
use zonal_zero_trust_auth.Adaptor.{
  AdaptorStatus, Adaptor, construct, find_slot, find_free_engine_slot, is_session_active,
}
use zonal_zero_trust_auth.Adaptor.Valid.{peer_key}
use zonal_zero_trust_auth.Adaptor.Events.{Event, offers, requests, responds, AllTyped, run, step}
use zonal_zero_trust_auth.Adaptor.Hooks.{construct-IsValid}
use zonal_zero_trust_auth.Adaptor.Login.{MayLogIn, LogsIn}
use zonal_zero_trust_auth.Adaptor.Typed.{IsTyped}
use zonal_zero_trust_auth.Adaptor.Typed.History.{run-construct-IsTyped}
use zonal_zero_trust_auth.Adaptor.Software.{
  software_provider-FillsArrays, next_nonce, sign, session_key, sign-IsArray,
  software_provider-LogsIn, software_provider-is_session_active,
}
use zonal_zero_trust_auth.Tests.Data.{alice, alice-IsClientId}

abbrev table : Option (List KnownPeerEntry)
table = some (record { client_id = alice; public_key = mock_ecc_public_key } ∷ [])

unfoldable start : Adaptor software_provider
start = construct software_provider 1 table 1 true false

alice-MayLogIn : MayLogIn software_provider table 1 start alice mock_ecc_public_key
unfolding start construct find_slot find_free_engine_slot Engine.construct find_key
    find_peer_public_key Tlm.construct Tlm.is_locked_out find_slot_by_client_id find_index
    same_bytes diff_bytes is_zero or_bytes
alice-MayLogIn = record {
  not_zero = refl;
  not_barred = refl;
  slot = 0;
  has_slot = inr (refl, refl);
  known = refl;
  place = 0;
  place_in = omega arith;
  place_open = refl;
}

-- The three calls, and the gate behind them.
abbrev Run : Type 0
Run =
    let nonce = next_nonce start.platform in
    LogsIn software_provider table 1 start alice (sign nonce alice) nonce (session_key nonce alice)
      100 20000 (zeros session_key_len)

login_run : Run
unfolding start
login_run =
    software_provider-LogsIn table 1 start
      (construct-IsValid software_provider table 1 1 true false) alice alice-IsClientId
      alice-MayLogIn 100 20000 (zeros session_key_len) (omega arith)

software_provider-LogsIn_example :
    let nonce = next_nonce start.platform in
    LogsIn software_provider table 1 start alice
      (sign nonce alice)
      nonce
      (session_key nonce alice)
      100
      20000
      (zeros session_key_len)
unfolding start
software_provider-LogsIn_example =
    software_provider-LogsIn table 1 start
      (construct-IsValid software_provider table 1 1 true false) alice alice-IsClientId
      alice-MayLogIn 100 20000 (zeros session_key_len) (omega arith)

key_of :
    (x : ClientId)
    → peer_key software_provider table 1 x
      ≡ (if same_bytes x alice then some mock_ecc_public_key else none)
unfolding Engine.construct find_key find_peer_public_key
key_of x = refl

only_mock_keys :
    (x : ClientId) (key : EccPublicKey)
    → peer_key software_provider table 1 x ≡ some key
    → IsArray ecc_public_key_len key
only_mock_keys x key e = elim (Bool-cases (same_bytes x alice)) [
  | inl t ↦
      let q : some mock_ecc_public_key ≡ some key = sym (key_of x ∙ rw t refl) ∙ e in
      let same : mock_ecc_public_key ≡ key = ground arith in rw (← same) (omega arith)
  | inr f ↦
      let q : ◌≡◌ {A = Option EccPublicKey} none (some key) = sym (key_of x ∙ rw f refl) ∙ e in
      absurd (cc)
]

abbrev answer : ClientId
answer = alice ++ sign (next_nonce 1) alice

abbrev events : List Event
events =
    offers alice ∷ requests (some (alice ++ supported_version)) ∷ responds (some answer) 100 ∷ []

events-AllTyped : AllTyped events
events-AllTyped = (
  alice-IsClientId,
  (
    omega arith,
    (
      (IsArray-append client_id_len ecc_signature_len alice (sign (next_nonce 1) alice)
          alice-IsClientId (sign-IsArray (next_nonce 1) alice)).1,
      tt,
    ),
  ),
)

alice_status :
    (is_session_active software_provider
      (run software_provider start events)
      alice
      20000
      (some (zeros session_key_len))).0
    ≡ AdaptorStatus.ok
unfolding start construct run step
alice_status = login_run.4.0

software_provider-is_session_active_example :
    let p = software_provider in
    let a = run p (construct p 1 table 1 true false) events in
    (peer_key p table 1 alice ≡ some mock_ecc_public_key)
    × ((nonce : Nonce) × ((is_session_active p a alice 20000 (some (zeros session_key_len))).1
          ≡ some (session_key nonce alice)))
unfolding start
software_provider-is_session_active_example =
    software_provider-is_session_active table 1 only_mock_keys 1 true false events events-AllTyped
      alice alice-IsClientId 20000 (zeros session_key_len) alice_status

run-construct-IsTyped_example :
    IsTyped software_provider
      (run software_provider (construct software_provider 1 table 1 true false) events)
run-construct-IsTyped_example =
    run-construct-IsTyped software_provider software_provider-FillsArrays 1 table 1 true false
      events events-AllTyped
